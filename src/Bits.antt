-- ===== src/Bits.antt =====
-- `|` and `&` at variables, as arithmetic: fields that do not overlap, masks, and bounds.
mod Digit
pub use Digit.{bit_or_digit, bit_and_digit}
use Prim.Native.Nat.{bit_or-bitwise}
use native.Mathlib.Nat.{pow-suc, mod-lt}
use cpp_the_right_way.Base.{
  ℕ, zero, suc, ◌+◌, ◌-◌, ◌*◌, ◌/◌, ◌%◌, ◌^◌, ◌≤◌, ◌<◌, bit_and, bit_or, ◌≡◌, refl, ap, ap₂, ◌∙◌,
  arith,
}

pub pow-add : (a b : ℕ) → 2 ^ (a + b) ≡ 2 ^ a * 2 ^ b
pow-add zero b = let e : 0 + b ≡ b = omega arith in rw e (omega arith)
pow-add (suc a) b =
    let e : suc a + b ≡ suc (a + b) = omega arith in
    rw e (
      omega (
        arith,
        pow-suc 2 (a + b),
        ap (λ (t : ℕ). t * 2 ^ b) (pow-suc 2 a),
        ap (λ (t : ℕ). 2 * t) (pow-add a b),
      ))

pub two_pow_pos : (k : ℕ) → 0 < 2 ^ k
two_pow_pos zero = omega arith
two_pow_pos (suc k) = omega (arith, pow-suc 2 k, two_pow_pos k)

-- Half of a multiple of the next power.
shift_mul : (q k : ℕ) → q * 2 ^ suc k ≡ 2 * (q * 2 ^ k)
shift_mul q k = omega (arith, ap (λ (t : ℕ). q * t) (pow-suc 2 k))

bit_or-zero_bound : (n a : ℕ) → a ≤ n → bit_or a 0 ≡ a
bit_or-zero_bound n zero h = refl
bit_or-zero_bound zero (suc a) h = absurd (omega arith)
bit_or-zero_bound (suc n) (suc a) h =
    omega (arith, bit_or_digit (suc a) 0, bit_or-zero_bound n (suc a / 2) (omega arith))

pub bit_or-zero : (a : ℕ) → bit_or a 0 ≡ a
bit_or-zero a = bit_or-zero_bound a a (omega arith)

bit_and-zero_bound : (n a : ℕ) → a ≤ n → bit_and a 0 ≡ 0
bit_and-zero_bound n zero h = refl
bit_and-zero_bound zero (suc a) h = absurd (omega arith)
bit_and-zero_bound (suc n) (suc a) h =
    omega (arith, bit_and_digit (suc a) 0, bit_and-zero_bound n (suc a / 2) (omega arith))

zero-bit_or : (b : ℕ) → bit_or 0 b ≡ b
zero-bit_or b = bit_or-bitwise 0 b

-- The high field of one side passes through, and the low fields are joined.
pub bit_or_low :
    (k q r b : ℕ) → r < 2 ^ k → b < 2 ^ k → bit_or (q * 2 ^ k + r) b ≡ q * 2 ^ k + bit_or r b
bit_or_low zero q r b hr hb =
    let er : r ≡ 0 = omega arith in
    let eb : b ≡ 0 = omega arith in
    rw (er, eb) (omega (arith, bit_or-zero (q * 2 ^ 0 + 0), bit_or-zero 0))
bit_or_low (suc k) q r b hr hb =
    let half : (q * 2 ^ suc k + r) / 2 ≡ q * 2 ^ k + r / 2 = omega (arith, shift_mul q k) in
    let ih =
      bit_or_low k q (r / 2) (b / 2) (omega (arith, pow-suc 2 k)) (omega (arith, pow-suc 2 k)) in
    omega (
      arith,
      shift_mul q k,
      bit_or_digit (q * 2 ^ suc k + r) b,
      bit_or_digit r b,
      ih,
      ap (λ (t : ℕ). bit_or t (b / 2)) half,
    )

-- `(q << k) | r` is a sum when `r` fits `k` bits.
pub bit_or_fields : (k q r : ℕ) → r < 2 ^ k → bit_or (q * 2 ^ k) r ≡ q * 2 ^ k + r
bit_or_fields k q r h =
    let e : q * 2 ^ k ≡ q * 2 ^ k + 0 = omega arith in
    ap (λ (t : ℕ). bit_or t r) e
    ∙ omega (arith, bit_or_low k q 0 r (two_pow_pos k) h, zero-bit_or r)

-- A disjunction is at least its right side.
le-bit_or_bound : (n a b : ℕ) → a ≤ n → b ≤ bit_or a b
le-bit_or_bound n zero b h = omega (arith, zero-bit_or b)
le-bit_or_bound zero (suc a) b h = absurd (omega arith)
le-bit_or_bound (suc n) (suc a) b h =
    omega (arith, bit_or_digit (suc a) b, le-bit_or_bound n (suc a / 2) (b / 2) (omega arith))

pub le-bit_or : (a b : ℕ) → b ≤ bit_or a b
le-bit_or a b = le-bit_or_bound a a b (omega arith)

-- It fits the bits that both sides fit.
pub bit_or-lt : (k a b : ℕ) → a < 2 ^ k → b < 2 ^ k → bit_or a b < 2 ^ k
bit_or-lt zero a b ha hb =
    let ea : a ≡ 0 = omega arith in let eb : b ≡ 0 = omega arith in rw (ea, eb) (omega arith)
bit_or-lt (suc k) a b ha hb =
    let ih =
      bit_or-lt k (a / 2) (b / 2) (omega (arith, pow-suc 2 k)) (omega (arith, pow-suc 2 k)) in
    omega (arith, pow-suc 2 k, bit_or_digit a b, ih)

bit_and_fields : (k q r : ℕ) → r < 2 ^ k → bit_and (q * 2 ^ k + r) (2 ^ k - 1) ≡ r
bit_and_fields zero q r h =
    let e : 2 ^ 0 - 1 ≡ 0 = omega arith in
    ap (λ (t : ℕ). bit_and (q * 2 ^ 0 + r) t) e
    ∙ omega (arith, bit_and-zero_bound (q * 2 ^ 0 + r) (q * 2 ^ 0 + r) (omega arith))
bit_and_fields (suc k) q r h =
    let half : (q * 2 ^ suc k + r) / 2 ≡ q * 2 ^ k + r / 2 = omega (arith, shift_mul q k) in
    let mask : (2 ^ suc k - 1) / 2 ≡ 2 ^ k - 1 = omega (arith, pow-suc 2 k, two_pow_pos k) in
    omega (
      arith,
      shift_mul q k,
      pow-suc 2 k,
      two_pow_pos k,
      bit_and_digit (q * 2 ^ suc k + r) (2 ^ suc k - 1),
      ap₂ (λ (t u : ℕ). bit_and t u) half mask,
      bit_and_fields k q (r / 2) (omega (arith, pow-suc 2 k)),
    )

-- A mask of `k` low bits is the remainder by `2 ^ k`.
pub bit_and_mask : (k a : ℕ) → bit_and a (2 ^ k - 1) ≡ a % 2 ^ k
bit_and_mask k a =
    let e : a ≡ (a / 2 ^ k) * 2 ^ k + a % 2 ^ k = grind (arith, two_pow_pos k) in
    ap (λ (t : ℕ). bit_and t (2 ^ k - 1)) e
    ∙ bit_and_fields k (a / 2 ^ k) (a % 2 ^ k) (mod-lt _ (two_pow_pos k))
