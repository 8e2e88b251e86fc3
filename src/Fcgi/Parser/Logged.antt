-- ===== src/Fcgi/Parser/Logged.antt =====
-- The messages that the parser logs: "FCGI parameter: %S=%S" and "FCGI stdin: %S".
use cpp_the_right_way.Base.{
  ℕ, ◌+◌, ◌*◌, ◌^◌, ◌<◌, ◌≤◌, some, List, [], ◌∷◌, ◌++◌, ◌≡◌, ◌≢◌, arith, length, length-take, inl,
  inr, Bool-cases, ◌==◌,
}
use cpp_the_right_way.Arena.{Platform, Store, pow2_size}
use cpp_the_right_way.Run.{Returns, Returns-bind, Returns-attempt, attempt-any, attempt, pure}
use cpp_the_right_way.Strings.{Argument, string, contents, format_buffer, init_with_buffer}
use cpp_the_right_way.Strings.Append.{IsString, next_allocated, pow2_room}
use cpp_the_right_way.Strings.Fits.{Fits, nothing_left, literal, string_next, format_buffer-Fits}
use cpp_the_right_way.Strings.Counts.{plain-Fits}
use cpp_the_right_way.Fcgi.Parser.State.{log_write_format}
use cpp_the_right_way.Fcgi.Parser.Params.{param_format}
use cpp_the_right_way.Fcgi.Parser.Stdin.{stdin_format}

-- "FCGI parameter: " and "FCGI stdin: "
abbrev pub param_text : List ℕ
param_text =
    70 ∷ 67 ∷ 71 ∷ 73 ∷ 32 ∷ 112 ∷ 97 ∷ 114 ∷ 97 ∷ 109 ∷ 101 ∷ 116 ∷ 101 ∷ 114 ∷ 58 ∷ 32 ∷ []

abbrev stdin_text : List ℕ
stdin_text = 70 ∷ 67 ∷ 71 ∷ 73 ∷ 32 ∷ 115 ∷ 116 ∷ 100 ∷ 105 ∷ 110 ∷ 58 ∷ 32 ∷ []

-- A text of `n` octets with its terminator, as an argument of the formatter.
pub text-IsString :
    (buffer : List ℕ) (n : ℕ) → length buffer ≡ n + 1 → IsString (init_with_buffer buffer n)
unfolding init_with_buffer
text-IsString buffer n e = record { within = omega arith; whole = omega (arith, e) }

-- The room behind a text that does not fill the buffer of the formatter exactly.
room_behind :
    (n : ℕ)
    → n < 2 ^ 31
    → n ≢ 48
    → (16 + n < next_allocated 16 64 n) × (next_allocated 16 64 n < 2 ^ 63)
room_behind n small other =
    let (lo, hi) = pow2_room (2 * (16 + n)) (omega arith) (omega arith) in ground arith

text_length :
    (buffer : List ℕ) (n : ℕ)
    → length buffer ≡ n + 1
    → length (contents (init_with_buffer buffer n)) ≡ n
unfolding init_with_buffer
text_length buffer n e = omega (arith, length-take n buffer)

param_message-Fits :
    (name value : List ℕ) (n v : ℕ)
    → length name ≡ n + 1
    → length value ≡ v + 1
    → n < 2 ^ 31
    → v < 2 ^ 31
    → n ≢ 48
    → Fits param_format
        (string (some (init_with_buffer name n)) ∷ string (some (init_with_buffer value v)) ∷ [])
        0
        64
        (param_text
          ++ (contents (init_with_buffer name n)
              ++ 61 ∷ (contents (init_with_buffer value v) ++ [])))
param_message-Fits name value n v en ev ns vs other =
    let name_fits = text_length name n en in
    let value_fits = text_length value v ev in
    let (room, top) = room_behind n ns other in
    plain-Fits param_text (37 ∷ 83 ∷ 61 ∷ 37 ∷ 83 ∷ []) _ 0 64 _ (ground arith) (omega arith)
      (omega arith)
      (string_next (init_with_buffer name n) (text-IsString name n en) (omega (arith, name_fits)) (
        rw name_fits (
          literal (omega arith) room top (
            string_next (init_with_buffer value v) (text-IsString value v ev)
              (omega (arith, value_fits)) nothing_left))))

stdin_message-Fits :
    (value : List ℕ) (v : ℕ)
    → length value ≡ v + 1
    → v < 2 ^ 31
    → Fits stdin_format
        (string (some (init_with_buffer value v)) ∷ [])
        0
        32
        (stdin_text ++ (contents (init_with_buffer value v) ++ []))
stdin_message-Fits value v ev vs =
    let value_fits = text_length value v ev in
    plain-Fits stdin_text (37 ∷ 83 ∷ []) _ 0 32 _ (ground arith) (omega arith) (omega arith) (
      string_next (init_with_buffer value v) (text-IsString value v ev) (omega (arith, value_fits))
        nothing_left)

fitting-Returns :
    (os : Platform) (format : List ℕ) (args : List Argument) (bytes : List ℕ) (s : Store)
    (F : Type 0)
    → 0 < length format
    → length format ≤ 2 ^ 60
    → Fits format args 0 (pow2_size (2 * length format)) bytes
    → Returns (log_write_format os format args s) F (λ _. Unit {0})
unfolding log_write_format
fitting-Returns os format args bytes s F pos small f =
    Returns-bind (attempt (format_buffer os format args)) (λ _. pure tt) s F (λ _. Unit {0})
      (λ _. Unit {0})
      (Returns-attempt (format_buffer os format args) s F _ (λ _. Unit {0})
        (format_buffer-Fits os format args bytes s pos small f) tt (λ _ _. tt))
      (λ _ _ _. tt)

pub stdin-Returns :
    (os : Platform) (value : List ℕ) (v : ℕ) (s : Store) (F : Type 0)
    → length value ≡ v + 1
    → v < 2 ^ 31
    → Returns
        (log_write_format os stdin_format (string (some (init_with_buffer value v)) ∷ []) s)
        F
        (λ _. Unit {0})
unfolding pow2_size
stdin-Returns os value v s F ev vs =
    fitting-Returns os stdin_format (string (some (init_with_buffer value v)) ∷ [])
      (stdin_text ++ (contents (init_with_buffer value v) ++ [])) s F (omega arith) (omega arith)
      (stdin_message-Fits value v ev vs)

pub param-Returns :
    (os : Platform) (name value : List ℕ) (n v : ℕ) (s : Store)
    → length name ≡ n + 1
    → length value ≡ v + 1
    → n < 2 ^ 31
    → v < 2 ^ 31
    → Returns
        (log_write_format os param_format
          (string (some (init_with_buffer name n)) ∷ string (some (init_with_buffer value v)) ∷ [])
          s)
        (n ≡ 48)
        (λ _. Unit {0})
unfolding pow2_size log_write_format
param-Returns os name value n v s en ev ns vs =
    let args =
      string (some (init_with_buffer name n)) ∷ string (some (init_with_buffer value v)) ∷ [] in
    elim (Bool-cases (n == 48)) [
      | inl long ↦
          Returns-bind (attempt (format_buffer os param_format args)) (λ _. pure tt) s (n ≡ 48)
            (λ _. Unit {0}) (λ _. Unit {0})
            (attempt-any (format_buffer os param_format args) s (n ≡ 48) (ground arith))
            (λ _ _ _. tt)
      | inr other ↦
          fitting-Returns os param_format args
            (param_text
              ++ (contents (init_with_buffer name n)
                  ++ 61 ∷ (contents (init_with_buffer value v) ++ [])))
            s (n ≡ 48) (omega arith) (omega arith)
            (param_message-Fits name value n v en ev ns vs (ground arith))
    ]
