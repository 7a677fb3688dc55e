-- ===== src/StringBuffer/Move.antt =====
-- Moving a string buffer.
use buffers.Prelude.{
  ℕ, ◌≤◌, ◌≡◌, refl, ap, ◌∙◌, List, [], ◌++◌, append-nil, some, none, arith, length, take, ◌-◌,
}
use buffers.StringBuffer.{StringBuffer, on_string, replicate, resize, move, destroy, data_chars}
use buffers.StringBuffer.Laws.{IsValid}

pub resize-take : (s : List ℕ) (n : ℕ) → n ≤ length s → resize s n ≡ take n s
resize-take s n h = ap (λ k. take n s ++ replicate k 0) none_missing ∙ append-nil (take n s)
  where
    none_missing : n - length s ≡ 0
    none_missing = omega (arith, h)

-- The buffer that a valid one is moved into has no readable characters, and when it is destroyed
-- the string is left empty; without the move the string would be left with the readable
-- characters.
pub move_loses :
    (b : StringBuffer) (s : List ℕ)
    → IsValid b s
    → (data_chars (move b).0 ≡ some [])
      × (destroy (move b).0 ≡ some [])
      × (destroy (move b).1 ≡ none)
      × (destroy b ≡ some (take b.in_size s))
unfolding move destroy data_chars
move_loses b s v = (
  ap (on_string (take 0)) v.string,
  ap (on_string (λ t. resize t 0)) v.string ∙ ap some (resize-take s 0 (omega arith)),
  refl,
  ap (on_string (λ t. resize t b.in_size)) v.string
      ∙ ap some (resize-take s b.in_size (omega (arith, v.held))),
)
