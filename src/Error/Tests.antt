-- ===== src/Error/Tests.antt =====
-- The texts of exceptions and error codes.
use buffers.Prelude.{◌≡◌, refl}
use buffers.Error.{invalid_argument, length_error, what, category_name, message}

texts :
    (what invalid_argument ≡ "invalid argument")
    × (what length_error ≡ "length error")
    × (category_name ≡ "boost.buffers")
    × (message 1 ≡ "eof")
    × (message 2 ≡ "unknown")
unfolding what category_name message
texts = (refl, refl, refl, refl, refl)
