-- ===== src/StringBuffer.antt =====
-- include/boost/buffers/string_buffer.hpp: a queue of bytes in a `std::string` that the buffer
-- refers to. Of the string the model has what the buffer uses: its characters, which `resize` pads
-- with zeros, and its `max_size()`.
pub mod Laws
pub mod Move
pub mod Runs
mod Tests
use buffers.Prelude.{
  ℕ, zero, suc, ◌+◌, ◌-◌, List, [], ◌∷◌, ◌++◌, Option, none, some, ltb, leb, if◌then◌else◌, length,
  take, drop, add_size, sub_size,
}
use buffers.Error.{Result, ok, throws, fault, invalid_argument}

abbrev pub replicate : ℕ → ℕ → List ℕ
replicate zero a = []
replicate (suc n) a = a ∷ replicate n a

-- `std::string::resize(n)`
abbrev pub resize : List ℕ → ℕ → List ℕ
resize s n = take n s ++ replicate (n - length s) 0

-- `std::string::erase(0, n)`
abbrev erase_front : List ℕ → ℕ → List ℕ
erase_front s n = drop n s

-- What is done to `*s_` where `s_` is not null.
abbrev pub on_string : (List ℕ → List ℕ) → Option (List ℕ) → Option (List ℕ)
on_string f none = none
on_string f (some s) = some (f s)

-- `if(s_->size() < n) s_->resize(n)`
abbrev pub grow : ℕ → List ℕ → List ℕ
grow n s = if ltb (length s) n then resize s n else s

-- `*s_`, `max_size_`, `in_size_` and `out_size_`. The string is `none` where `s_` is null, as in a
-- buffer that was moved from.
pub record StringBuffer : Type 0 where
  pub string : Option (List ℕ)
  pub max_size : ℕ
  pub in_size : ℕ
  pub out_size : ℕ

-- `basic_string_buffer(s, max_size)`, of a string whose `max_size()` is `limit`
pub init : List ℕ → ℕ → ℕ → StringBuffer
init s limit max_size =
    let max = if ltb limit max_size then limit else max_size in
    let s' = if ltb max (length s) then resize s max else s in
    record { string = some s'; max_size = max; in_size = length s'; out_size = 0 }

-- `basic_string_buffer(basic_string_buffer&& other)`: the new buffer, and `other` after. The members
-- that the constructor does not name have their initial values.
pub move : StringBuffer → StringBuffer × StringBuffer
move other = (
  record { string = other.string; max_size = other.max_size; in_size = 0; out_size = 0 },
  record other { string = none },
)

-- The string after `~basic_string_buffer()`
pub destroy : StringBuffer → Option (List ℕ)
destroy b = on_string (λ s. resize s b.in_size) b.string

pub size : StringBuffer → ℕ
size b = b.in_size

-- The string's `capacity()` is an argument.
pub capacity : ℕ → StringBuffer → ℕ
capacity string_capacity b =
    if leb string_capacity b.max_size
    then sub_size string_capacity b.in_size
    else sub_size b.max_size b.in_size

-- The characters of the buffer that `data()` returns; `none` where `s_` is null.
pub data_chars : StringBuffer → Option (List ℕ)
data_chars b = on_string (take b.in_size) b.string

-- The buffer that `prepare` returns begins at the second number, an index into the string, and has
-- the length of the third. A call through a null `s_` is undefined behaviour.
pub prepare : StringBuffer → ℕ → Result (StringBuffer × ℕ × ℕ)
prepare b n =
    if ltb (sub_size b.max_size b.in_size) n then throws invalid_argument else elim b.string [
      | none ↦ fault
      | some s ↦
          ok
            (record b { string = some (grow (add_size b.in_size n) s); out_size = n }, b.in_size, n)
    ]

pub commit : StringBuffer → ℕ → StringBuffer
commit b n = record b {
  in_size = if ltb n b.out_size then add_size b.in_size n else add_size b.in_size b.out_size;
  out_size = 0;
}

pub consume : StringBuffer → ℕ → Result StringBuffer
consume b n =
    if ltb n b.in_size
    then elim b.string [
      | none ↦ fault
      | some s ↦ ok (record b {
        string = some (erase_front s n);
        in_size = sub_size b.in_size n;
        out_size = 0;
      })
    ]
    else ok (record b { in_size = 0; out_size = 0 })

-- What a caller does with the buffer that `prepare` returned: it writes `xs` from index `i` on.
abbrev pub overwrite : List ℕ → ℕ → List ℕ → List ℕ
overwrite s i xs = take i s ++ (xs ++ drop (i + length xs) s)

pub fill : StringBuffer → ℕ → List ℕ → StringBuffer
fill b i xs = record b { string = on_string (λ s. overwrite s i xs) b.string }
