-- ===== src/Trim.antt =====
-- The trimming algorithms of include/boost/buffers/slice.hpp: `keep_prefix`, `keep_suffix`,
-- `remove_prefix` and `remove_suffix` in place, and `prefix`, `suffix`, `sans_prefix` and
-- `sans_suffix` on a copy. They use a type through its customizations of `tag_invoke`, which is
-- the interface `Sliceable`.
pub mod Laws
pub mod Instances
mod Tests
use buffers.Prelude.{
  ℕ, ◌<◌, ◌≡◌, List, Option, none, some, ltb, if◌then◌else◌, length, sub_size, size_mod,
}
use buffers.Buffer.{SliceHow}
use buffers.Buffer.Laws.{trim}

infixl 5 ◌>>=◌
abbrev pub ◌>>=◌ {ℓ κ} : {A : Type ℓ} {B : Type κ} → Option A → (A → Option B) → Option B
none >>= f = none
some a >>= f = f a

-- A sequence type `Source`, its `slice_type`, and the functions that the algorithms call on it;
-- `none` is a fault. The laws say what the calls do to the addresses that a slice covers.
pub record Sliceable : Type 1 where
  pub Source : Type 0
  pub Carrier : Type 0
  -- the constructor `slice_type<Source>(bs)`
  pub make : Source → Carrier
  -- `tag_invoke(slice_tag{}, bs, how, n)`
  pub tag_invoke : Carrier → SliceHow → ℕ → Option Carrier
  -- `size(bs)`
  pub size : Carrier → Option ℕ
  pub source_addrs : Source → List ℕ
  pub addrs : Carrier → List ℕ
  pub IsSource : Source → Type 0
  pub IsFine : Carrier → Type 0
  pub make-IsFine : (b : Source) → IsSource b → IsFine (make b)
  pub addrs-make : (b : Source) → IsSource b → addrs (make b) ≡ source_addrs b
  pub size-length : (c : Carrier) → IsFine c → size c ≡ some (length (addrs c))
  pub length-lt : (c : Carrier) → IsFine c → length (addrs c) < size_mod
  pub tag_invoke-trim :
      (c : Carrier) (how : SliceHow) (n : ℕ)
      → IsFine c
      → n < size_mod
      → (c' : Carrier) × (tag_invoke c how n ≡ some c') × (addrs c' ≡ trim how n (addrs c))

module _ (t : Sliceable) where
  open t use {Source, Carrier, make, tag_invoke, size}

  pub keep_prefix : Carrier → ℕ → Option Carrier
  keep_prefix bs n = tag_invoke bs SliceHow.keep_prefix n

  pub keep_suffix : Carrier → ℕ → Option Carrier
  keep_suffix bs n = do
    n0 ← size bs
    if ltb n n0 then tag_invoke bs SliceHow.remove_prefix (sub_size n0 n) else some bs

  unfoldable pub remove_prefix : Carrier → ℕ → Option Carrier
  remove_prefix bs n = tag_invoke bs SliceHow.remove_prefix n

  pub remove_suffix : Carrier → ℕ → Option Carrier
  remove_suffix bs n = do
    n0 ← size bs
    let m = if ltb n0 n then n0 else n
    if ltb 0 n then tag_invoke bs SliceHow.keep_prefix (sub_size n0 m) else some bs

  pub prefix : Source → ℕ → Option Carrier
  prefix bs n = keep_prefix (make bs) n

  pub suffix : Source → ℕ → Option Carrier
  suffix bs n = keep_suffix (make bs) n

  unfoldable pub sans_prefix : Source → ℕ → Option Carrier
  unfolding remove_prefix
  sans_prefix bs n = remove_prefix (make bs) n

  pub sans_suffix : Source → ℕ → Option Carrier
  sans_suffix bs n = remove_suffix (make bs) n
