-- ===== src/Error.antt =====
-- src/detail/except.cpp, include/boost/buffers/error.hpp and src/error.cpp: the exceptions that the
-- library throws, and its error code in terms of Boost.System.
mod Tests
use buffers.Prelude.{ℕ, ◌==◌, if◌then◌else◌, ◌≡◌, ◌⊎◌, inl, inr, refl, ap, Bool, true, false, not}
use Prim.Native.String.{String}

pub data Exception : Type 0 where
  invalid_argument length_error : Exception

-- What a call ends in: a result, an exception, or behaviour that the language leaves undefined.
pub data Result {ℓ} (A : Type ℓ) : Type ℓ where
  ok : A → Result A
  throws : Exception → Result A
  fault : Result A

infixl 5 ◌>>=◌
abbrev pub ◌>>=◌ {ℓ κ} : {A : Type ℓ} {B : Type κ} → Result A → (A → Result B) → Result B
ok a >>= f = f a
throws e >>= f = throws e
fault >>= f = fault

-- The result of a call, or another value where it has none.
from_ok {ℓ} : {A : Type ℓ} → A → Result A → A
from_ok x (ok y) = y
from_ok x (throws e) = x
from_ok x fault = x

pub ok-injective {ℓ} : {A : Type ℓ} (x y : A) → ok x ≡ ok y → x ≡ y
unfolding from_ok
ok-injective x y p = ap (from_ok x) p

pub Result-cases {ℓ} :
    {A : Type ℓ} (r : Result A)
    → ((a : A) × (r ≡ ok a)) ⊎ (((x : Exception) × (r ≡ throws x)) ⊎ (r ≡ fault))
Result-cases (ok a) = inl (a, refl)
Result-cases (throws x) = inr (inl (x, refl))
Result-cases fault = inr (inr refl)

-- `what()` of the exceptions that `throw_invalid_argument` and `throw_length_error` throw
pub what : Exception → String
what invalid_argument = "invalid argument"
what length_error = "length error"

-- `error_cat_type::name`
pub category_name : String
category_name = "boost.buffers"

-- `error_cat_type::message(code)`: `error::eof` is 1.
pub message : ℕ → String
message code = if code == 1 then "eof" else "unknown"

-- `enum class error`
pub data Errc : Type 0 where
  eof : Errc

-- The number that the enumerator has.
pub value : Errc → ℕ
value eof = 1

-- What the library uses of `system::error_code`: its default value, the code of a number in
-- `error_cat`, and `failed()`. The laws are those that Boost.System documents: a code without an
-- error has not failed, and one of a category that does not say otherwise has if its number is not 0.
pub record ErrorCodes : Type 1 where
  pub Code : Type 0
  pub success : Code
  pub of_value : ℕ → Code
  pub failed : Code → Bool
  pub failed-success : failed success ≡ false
  pub failed-of_value : (n : ℕ) → failed (of_value n) ≡ not (n == 0)

-- `make_error_code`
pub make_error_code : (e : ErrorCodes) → Errc → e.Code
unfolding value
make_error_code e ev = e.of_value (value ev)

pub failed-eof : (e : ErrorCodes) → e.failed (make_error_code e eof) ≡ true
unfolding make_error_code
failed-eof e = e.failed-of_value 1

-- Codes that are their numbers.
abbrev pub plain_codes : ErrorCodes
plain_codes = record {
  Code = ℕ;
  success = 0;
  of_value = λ n. n;
  failed = λ n. not (n == 0);
  failed-success = refl;
  failed-of_value = λ n. refl;
}
