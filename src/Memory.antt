-- ===== src/Memory.antt =====
-- Buffers as lists of bytes, and the C library's memcpy and memset on them. An access outside the
-- buffer is `none`.
use cpp_the_right_way.Base.{
  ℕ, zero, suc, ◌+◌, ◌-◌, ◌≤◌, ◌<◌, Option, none, some, List, [], ◌∷◌, ◌++◌, ◌≡◌, refl, ap, ◌∙◌,
  arith, leb, ltb, if◌then◌else◌, length, set, take, drop, replicate, length-append, length-take,
  length-drop, length-replicate, le→leb, take-append_ge, take-append_le, take-all, lt→ltb,
}
use cpp_the_right_way.Arena.{Platform}

-- The first `n` bytes.
unfoldable pub read_bytes : List ℕ → ℕ → Option (List ℕ)
read_bytes buffer n = if leb n (length buffer) then some (take n buffer) else none

-- `buffer[i] = v`
unfoldable pub store_at : List ℕ → ℕ → ℕ → Option (List ℕ)
store_at buffer i v = if ltb i (length buffer) then some (set buffer i v) else none

-- `memcpy (buffer + at, bytes, length of bytes)`
unfoldable pub memcpy : List ℕ → ℕ → List ℕ → Option (List ℕ)
memcpy buffer at bytes =
    if leb (at + length bytes) (length buffer)
    then some (take at buffer ++ (bytes ++ drop (at + length bytes) buffer))
    else none

-- `memset (buffer + at, v, n)`
unfoldable pub memset : List ℕ → ℕ → ℕ → ℕ → Option (List ℕ)
memset buffer at v n =
    if leb (at + n) (length buffer)
    then some (take at buffer ++ (replicate n v ++ drop (at + n) buffer))
    else none

-- `n` bytes of allocation number `k` before anything is stored in them, from offset `i` on.
unfoldable pub junk_bytes : Platform → ℕ → ℕ → ℕ → List ℕ
junk_bytes os k i zero = []
junk_bytes os k i (suc n) = os.junk k i ∷ junk_bytes os k (i + 1) n

pub length-junk_bytes : (os : Platform) (k i n : ℕ) → length (junk_bytes os k i n) ≡ n
unfolding junk_bytes
length-junk_bytes os k i zero = refl
length-junk_bytes os k i (suc n) = ap suc (length-junk_bytes os k (i + 1) n)

pub read_bytes_lem :
    (buffer : List ℕ) (n : ℕ) → n ≤ length buffer → read_bytes buffer n ≡ some (take n buffer)
unfolding read_bytes
read_bytes_lem buffer n h = rw (le→leb _ _ h)

pub store_at_lem :
    (buffer : List ℕ) (i v : ℕ) → i < length buffer → store_at buffer i v ≡ some (set buffer i v)
unfolding store_at
store_at_lem buffer i v h = rw (lt→ltb _ _ h)

-- What a copy or a fill that fits gives: the same length, the bytes before kept, then the new ones.
pub record Filled (before : List ℕ) (at : ℕ) (bytes : List ℕ) (after : List ℕ) : Type 0 where
  pub same_length : length after ≡ length before
  pub start : (k : ℕ) → k ≤ at → take k after ≡ take k before
  pub end : take (at + length bytes) after ≡ take at before ++ bytes

pub take-take : (k n : ℕ) (xs : List ℕ) → k ≤ n → take k (take n xs) ≡ take k xs
take-take zero n xs h = refl
take-take (suc k) zero xs h = absurd (omega arith)
take-take (suc k) (suc n) [] h = refl
take-take (suc k) (suc n) (x ∷ xs) h = ap (λ l. x ∷ l) (take-take k n xs (omega arith))

splice-Filled :
    (before : List ℕ) (at : ℕ) (bytes : List ℕ)
    → at + length bytes ≤ length before
    → Filled before at bytes (take at before ++ (bytes ++ drop (at + length bytes) before))
splice-Filled before at bytes h =
    let rest = drop (at + length bytes) before in
    let front = length-take at before in
    let all : at + length bytes - length (take at before) ≡ length bytes = omega arith in
    record {
      same_length = omega (
        arith,
        length-append (take at before) (bytes ++ rest),
        length-append bytes rest,
        front,
        length-drop (at + length bytes) before,
      );
      start = λ k le.
          take-append_le k (take at before) (bytes ++ rest) (omega arith)
          ∙ take-take k at before le;
      end =
          take-append_ge (at + length bytes) (take at before) (bytes ++ rest) (omega arith)
          ∙ ap (λ l. take at before ++ l)
              (ap (λ n. take n (bytes ++ rest)) all
                ∙ take-append_le (length bytes) bytes rest (omega arith)
                ∙ take-all (length bytes) bytes (omega arith));
    }

pub memcpy-Filled :
    (buffer : List ℕ) (at : ℕ) (bytes : List ℕ)
    → at + length bytes ≤ length buffer
    → (after : List ℕ) × (memcpy buffer at bytes ≡ some after) × Filled buffer at bytes after
unfolding memcpy
memcpy-Filled buffer at bytes h = (
  take at buffer ++ (bytes ++ drop (at + length bytes) buffer),
  rw (le→leb _ _ h),
  splice-Filled buffer at bytes h,
)

pub memset-Filled :
    (buffer : List ℕ) (at v n : ℕ)
    → at + n ≤ length buffer
    → (after : List ℕ) × (memset buffer at v n ≡ some after)
      × Filled buffer at (replicate n v) after
unfolding memset
memset-Filled buffer at v n h =
    let e = length-replicate n v in
    (
      take at buffer ++ (replicate n v ++ drop (at + n) buffer),
      rw (le→leb _ _ h),
      rw e at (splice-Filled buffer at (replicate n v) (omega arith)),
    )
