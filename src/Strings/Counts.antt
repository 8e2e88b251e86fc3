-- ===== src/Strings/Counts.antt =====
-- Messages with one number between two plain texts, such as "Sent %z bytes response".
use cpp_the_right_way.Base.{
  ℕ, suc, ◌+◌, ◌*◌, ◌^◌, ◌<◌, ◌≤◌, List, [], ◌∷◌, ◌++◌, ◌≡◌, ◌≢◌, arith, length, length-append,
}
use cpp_the_right_way.Arena.{Platform, Store, pow2_size}
use cpp_the_right_way.Run.{Safe}
use cpp_the_right_way.Strings.{Argument, number, contents, format_buffer}
use cpp_the_right_way.Strings.Append.{IsString, next_allocated, pow2_room}
use cpp_the_right_way.Strings.Digits.{decimal, length-decimal}
use cpp_the_right_way.Strings.Fits.{Fits, nothing_left, literal, number_next, format_buffer-Fits}

-- A text without directives.
abbrev pub AllPlain : List ℕ → Type 0
AllPlain [] = Unit {0}
AllPlain (c ∷ cs) = (c ≢ b'%') × AllPlain cs

pub plain-Fits :
    (cs rest : List ℕ) (args : List Argument) (len allocated : ℕ) (out : List ℕ)
    → AllPlain cs
    → len + length cs ≤ allocated
    → allocated < 2 ^ 63
    → Fits rest args (len + length cs) allocated out
    → Fits (cs ++ rest) args len allocated (cs ++ out)
plain-Fits [] rest args len allocated out p room small f = rw (← nothing_added len) f
  where
    nothing_added : (n : ℕ) → n + 0 ≡ n
    nothing_added n = omega arith
plain-Fits (c ∷ cs) rest args len allocated out p room small f = literal p.0 (omega arith) small (
    plain-Fits cs rest args (len + 1) allocated out p.1 (omega arith) small
      (rw (one_more len (length cs)) f))
  where
    one_more : (n k : ℕ) → n + 1 + k ≡ n + suc k
    one_more n k = omega arith

plain_end-Fits :
    (cs : List ℕ) (len allocated : ℕ)
    → AllPlain cs
    → len + length cs ≤ allocated
    → allocated < 2 ^ 63
    → Fits cs [] len allocated cs
plain_end-Fits [] len allocated p room small = nothing_left
plain_end-Fits (c ∷ cs) len allocated p room small =
    literal p.0 (omega arith) small (plain_end-Fits cs (len + 1) allocated p.1 (omega arith) small)

-- The formatter writes such a message if its first buffer has room for the texts and the digits.
count_message-Fits :
    (front back : List ℕ) (value k : ℕ)
    → AllPlain front
    → AllPlain back
    → value < 2 ^ 64
    → length (decimal 20 value) ≤ k
    → length front + k + length back ≤ pow2_size (2 * length (front ++ b'%' ∷ b'z' ∷ back))
    → length front + length back < 2 ^ 50
    → Fits
        (front ++ b'%' ∷ b'z' ∷ back)
        (number value ∷ [])
        0
        (pow2_size (2 * length (front ++ b'%' ∷ b'z' ∷ back)))
        (front ++ (decimal 20 value ++ back))
count_message-Fits front back value k pf pb range few room short =
    let whole = length-append front (b'%' ∷ b'z' ∷ back) in
    let size = pow2_size (2 * length (front ++ b'%' ∷ b'z' ∷ back)) in
    let (lo, hi) =
      pow2_room (2 * length (front ++ b'%' ∷ b'z' ∷ back)) (omega (arith, whole))
        (omega (arith, whole)) in
    let same : next_allocated (0 + length front) size (length (decimal 20 value)) ≡ size =
      ground arith in
    plain-Fits front (b'%' ∷ b'z' ∷ back) (number value ∷ []) 0 size (decimal 20 value ++ back) pf
      (omega arith) hi
      (number_next value range (omega arith) (
        rw same (
          plain_end-Fits back (0 + length front + length (decimal 20 value)) size pb (omega arith)
            hi)))

pub count_digits-Safe :
    (os : Platform) (front back : List ℕ) (value k : ℕ) (s : Store)
    → AllPlain front
    → AllPlain back
    → value < 2 ^ 64
    → length (decimal 20 value) ≤ k
    → length front + k + length back ≤ pow2_size (2 * length (front ++ b'%' ∷ b'z' ∷ back))
    → length front + length back < 2 ^ 50
    → Safe
        (format_buffer os (front ++ b'%' ∷ b'z' ∷ back) (number value ∷ []) s)
        (λ t s'. IsString t × (contents t ≡ front ++ (decimal 20 value ++ back)))
count_digits-Safe os front back value k s pf pb range few room short =
    let whole = length-append front (b'%' ∷ b'z' ∷ back) in
    format_buffer-Fits os (front ++ b'%' ∷ b'z' ∷ back) (number value ∷ [])
      (front ++ (decimal 20 value ++ back)) s (omega (arith, whole)) (omega (arith, whole))
      (count_message-Fits front back value k pf pb range few room short)

-- Whatever the number.
pub count_message-Safe :
    (os : Platform) (front back : List ℕ) (value : ℕ) (s : Store)
    → AllPlain front
    → AllPlain back
    → value < 2 ^ 64
    → length front + 20 + length back ≤ pow2_size (2 * length (front ++ b'%' ∷ b'z' ∷ back))
    → length front + length back < 2 ^ 50
    → Safe
        (format_buffer os (front ++ b'%' ∷ b'z' ∷ back) (number value ∷ []) s)
        (λ t s'. IsString t × (contents t ≡ front ++ (decimal 20 value ++ back)))
count_message-Safe os front back value s pf pb range room short =
    count_digits-Safe os front back value 20 s pf pb range (length-decimal 20 value) room short
