-- ===== src/Tests/Strings.antt =====
-- sl_string.c at concrete strings and formats.
use cpp_the_right_way.Base.{
  List, ℕ, ◌+◌, ◌*◌, some, [], ◌∷◌, ◌≡◌, ◌⊎◌, refl, arith, replicate, take, ◌≤◌, ◌++◌,
}
use cpp_the_right_way.Arena.{Store, pow2_size}
use cpp_the_right_way.Run.{failed, fault, Safe}
use cpp_the_right_way.Memory.{store_at}
use cpp_the_right_way.Strings.{
  SlString, contents, append_with_buffer, create_from_buffer, format_buffer, string, itoa,
  itoa_fill, itoa_move,
}
use cpp_the_right_way.Strings.Append.{
  IsString, Appended, Created, append_with_buffer-Appended, create_from_buffer-Created,
}
use cpp_the_right_way.Strings.Format.{
  Expands, literal, string_next, nothing_left, format_buffer-Expands,
}
use cpp_the_right_way.Strings.Digits.{number_of, number_of-itoa}
use cpp_the_right_way.Strings.Fits.{format_buffer-Fits}
use cpp_the_right_way.Strings.Fits
use cpp_the_right_way.Strings.Overflow.{format_buffer_overflows_behind}
use cpp_the_right_way.Fcgi.Parser.Logged.{param_text}
use cpp_the_right_way.Tests.Platform.{machine, new_store}

-- "ab" in a buffer of four bytes
abbrev pub two_letters : SlString
two_letters = record { allocated = 4; length = 2; buffer = 97 ∷ 98 ∷ 0 ∷ 0 ∷ [] }

pub two_letters-IsString : IsString two_letters
two_letters-IsString = record { within = omega arith; whole = omega arith }

append_with_buffer-Appended_example :
    Safe
      (append_with_buffer machine two_letters (99 ∷ 100 ∷ 101 ∷ []) new_store)
      (λ t' s'. Appended two_letters (99 ∷ 100 ∷ 101 ∷ []) t')
append_with_buffer-Appended_example =
    append_with_buffer-Appended machine two_letters (99 ∷ 100 ∷ 101 ∷ []) two_letters-IsString
      (omega arith) new_store

create_from_buffer-Created_example :
    Safe
      (create_from_buffer machine (97 ∷ 98 ∷ []) 3 new_store)
      (λ t s'. Created (97 ∷ 98 ∷ []) (pow2_size 3) t)
create_from_buffer-Created_example =
    create_from_buffer-Created machine (97 ∷ 98 ∷ []) 3 new_store (omega arith) (omega arith)
      (omega arith)

abbrev long_text : SlString
long_text = record { allocated = 48; length = 48; buffer = replicate 48 65 }

long_text-IsString : IsString long_text
long_text-IsString = record { within = omega arith; whole = omega arith }

long_text_exact : 16 + 48 ≡ pow2_size (2 * (16 + 2 + 3))
unfolding pow2_size
long_text_exact = refl

-- "FCGI parameter: %S=%S" with a name of 48 octets
abbrev param_directives : List ℕ
param_directives = param_text ++ 37 ∷ 83 ∷ 61 ∷ 37 ∷ 83 ∷ []

format_buffer_overflows_behind_example :
    (format_buffer machine param_directives
        (string (some long_text) ∷ string (some two_letters) ∷ [])
        new_store
      ≡ fault)
    ⊎ ((s' : Store) × (create_from_buffer machine [] (2 * (16 + 2 + 3)) new_store ≡ failed s')
        × (format_buffer machine param_directives
              (string (some long_text) ∷ string (some two_letters) ∷ [])
              new_store
            ≡ failed s'))
format_buffer_overflows_behind_example =
    format_buffer_overflows_behind machine param_text long_text 61 (37 ∷ 83 ∷ [])
      (string (some two_letters) ∷ []) new_store (ground arith) long_text-IsString (omega arith)
      (omega arith) long_text_exact

itoa_runs :
    itoa 2057 (replicate 20 0) 20
    ≡ some (
      4,
      50 ∷ 48 ∷ 53 ∷ 55 ∷ 0 ∷ 0 ∷ 0 ∷ 0 ∷ 0 ∷ 0 ∷ 0 ∷ 0 ∷ 0 ∷ 0 ∷ 0 ∷ 0 ∷ 50 ∷ 48 ∷ 53 ∷ 55 ∷ [],
    )
unfolding itoa itoa_fill itoa_move store_at
itoa_runs = refl

-- The number 0 has no digits.
itoa_zero_runs : itoa 0 (9 ∷ 9 ∷ []) 2 ≡ some (0, 9 ∷ 9 ∷ [])
unfolding itoa itoa_fill itoa_move store_at
itoa_zero_runs = refl

-- "x: %S" and "ab"
abbrev short_format : List ℕ
short_format = 120 ∷ 58 ∷ 32 ∷ 37 ∷ 83 ∷ []

short_format-Expands :
    Expands short_format (string (some two_letters) ∷ []) (120 ∷ 58 ∷ 32 ∷ 97 ∷ 98 ∷ [])
short_format-Expands = literal (omega arith) (
    literal (omega arith)
      (literal (omega arith) (string_next two_letters two_letters-IsString nothing_left)))

ten : pow2_size 10 ≡ 16
unfolding pow2_size
ten = refl

format_buffer-Expands_example :
    Safe
      (format_buffer machine short_format (string (some two_letters) ∷ []) new_store)
      (λ t s'. IsString t × (contents t ≡ 120 ∷ 58 ∷ 32 ∷ 97 ∷ 98 ∷ []))
format_buffer-Expands_example =
    format_buffer-Expands machine short_format (string (some two_letters) ∷ [])
      (120 ∷ 58 ∷ 32 ∷ 97 ∷ 98 ∷ []) new_store (omega arith) (omega arith) short_format-Expands
      (omega (arith, ten))

number_of-itoa_example :
    (n : ℕ) × (b : List ℕ) × (itoa 4711 (replicate 20 170) 20 ≡ some (n, b))
    × (n ≤ 20)
    × (number_of 0 (take n b) ≡ 4711)
number_of-itoa_example = number_of-itoa 4711 (replicate 20 170) 20 refl (omega arith) (omega arith)

-- "a%Sb" with "ab"
format_buffer-Fits_example :
    Safe
      (format_buffer machine
        (97 ∷ b'%' ∷ b'S' ∷ 98 ∷ [])
        (string (some two_letters) ∷ [])
        new_store)
      (λ t s'. IsString t × (contents t ≡ 97 ∷ 97 ∷ 98 ∷ 98 ∷ []))
unfolding pow2_size
format_buffer-Fits_example =
    format_buffer-Fits machine (97 ∷ b'%' ∷ b'S' ∷ 98 ∷ []) (string (some two_letters) ∷ [])
      (97 ∷ 97 ∷ 98 ∷ 98 ∷ []) new_store (omega arith) (omega arith)
      (Fits.literal (omega arith) (omega arith) (omega arith) (
        Fits.string_next two_letters two_letters-IsString (omega arith)
          (Fits.literal (omega arith) (omega arith) (omega arith) Fits.nothing_left)))
