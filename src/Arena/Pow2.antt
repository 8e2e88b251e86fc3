-- ===== src/Arena/Pow2.antt =====
-- sl_arena_pow2_size: the bits that its six shifts fill, and the power of two that comes of it.
use native.Mathlib.Nat.{pow-suc, mod-lt, div-add-mod}
use cpp_the_right_way.Base.{
  ℕ, zero, suc, ◌+◌, ◌-◌, ◌*◌, ◌/◌, ◌^◌, ◌≤◌, ◌<◌, bit_or, ◌≡◌, refl, ap, ◌∙◌, ◌⊎◌, inl, inr, arith,
  u64, sub64, ltb, Bool-cases, ltb→lt, ltb→le,
}
use cpp_the_right_way.Bits.{pow-add, two_pow_pos, bit_or-zero, bit_or_low, le-bit_or, bit_or-lt}
use cpp_the_right_way.Arena.{smear, pow2_size}

-- The `w` highest of the `n` bits of `v` are ones.
abbrev Filled : ℕ → ℕ → ℕ → Type 0
Filled n w v = (v < 2 ^ n) × (2 ^ n ≤ v + 2 ^ (n - w))

two_pow_split : (a b : ℕ) → b ≤ a → 2 ^ a ≡ 2 ^ b * 2 ^ (a - b)
two_pow_split a b h = let e : a ≡ b + (a - b) = omega arith in ap (λ k. 2 ^ k) e ∙ pow-add b (a - b)

two_pow_mono : (a b : ℕ) → a ≤ b → 2 ^ a ≤ 2 ^ b
two_pow_mono a b h = grind (arith, two_pow_split b a h, two_pow_pos (b - a))

two_pow_below : (a b : ℕ) → 2 ^ a ≤ 2 ^ b * 2 ^ (a - b)
two_pow_below a b = elim (Bool-cases (ltb a b)) [
  | inl lt ↦ grind (arith, two_pow_mono a b (omega (arith, ltb→lt a b lt)), two_pow_pos (a - b))
  | inr ge ↦ omega (arith, two_pow_split a b (ltb→le a b ge))
]

le-div : (c d v : ℕ) → 0 < d → c * d ≤ v → c ≤ v / d
le-div c d v pos h = grind arith

div-eq-zero : (d v : ℕ) → v < d → v / d ≡ 0
div-eq-zero d v h = grind arith

div-lt : (c d v : ℕ) → v < c * d → v / d < c
div-lt c d v h = grind arith

times_pred : (W M : ℕ) → 0 < W → W * M ≡ (W - 1) * M + M
times_pred zero M h = absurd (omega arith)
times_pred (suc W) M h = let e : suc W - 1 ≡ W = omega arith in rw e (omega arith)

mul_mono : (a b c : ℕ) → a ≤ b → c * a ≤ c * b
mul_mono a b c h = grind arith

-- The arithmetic of one shift, with `W`, `M` and `E` the powers.
top_field : (W M v : ℕ) → 0 < W → v < W * M → W * M ≤ v + M → v ≡ (W - 1) * M + (v - (W - 1) * M)
top_field W M v pos below above = omega (arith, times_pred W M pos)

low_field : (W M v : ℕ) → 0 < W → v < W * M → W * M ≤ v + M → v - (W - 1) * M < M
low_field W M v pos below above = omega (arith, times_pred W M pos)

shifted_field : (W M E v : ℕ) → 0 < W → M ≤ W * E → W * M ≤ v + M → M ≤ v / W + E
shifted_field W M E v pos room above = elim (Bool-cases (ltb (v / W + E) M)) [
  | inl lt ↦
      let more = mul_mono (v / W + E + 1) M W (omega (arith, ltb→lt (v / W + E) M lt)) in
      absurd (omega (arith, div-add-mod v W, mod-lt v pos))
  | inr ge ↦ ltb→le (v / W + E) M ge
]

-- One shift doubles the number of ones at the top.
smear-Filled_within : (m w v : ℕ) → Filled (w + m) w v → Filled (w + m) (w + w) (smear w v)
unfolding smear
smear-Filled_within m w v (below, above) =
    let N : 2 ^ (w + m) ≡ 2 ^ w * 2 ^ m = pow-add w m in
    let e : w + m - w ≡ m = omega arith in
    let e' : w + m - (w + w) ≡ m - w = omega arith in
    let above' : 2 ^ w * 2 ^ m ≤ v + 2 ^ m = rw (N, e) at above in
    let below' : v < 2 ^ w * 2 ^ m = rw N at below in
    let split = top_field (2 ^ w) (2 ^ m) v (two_pow_pos w) below' above' in
    let r = v - (2 ^ w - 1) * 2 ^ m in
    let small : r < 2 ^ m = low_field (2 ^ w) (2 ^ m) v (two_pow_pos w) below' above' in
    let b_small : v / 2 ^ w < 2 ^ m = div-lt (2 ^ m) (2 ^ w) v (omega arith) in
    let joined = bit_or_low m (2 ^ w - 1) r (v / 2 ^ w) small b_small in
    let whole : bit_or v (v / 2 ^ w) ≡ (2 ^ w - 1) * 2 ^ m + bit_or r (v / 2 ^ w) =
      ap (λ (t : ℕ). bit_or t (v / 2 ^ w)) split ∙ joined in
    let high =
      shifted_field (2 ^ w) (2 ^ m) (2 ^ (m - w)) v (two_pow_pos w) (two_pow_below m w) above' in
    rw (e', N, whole)
      (
        omega (
          arith,
          bit_or-lt m r (v / 2 ^ w) small b_small,
          times_pred (2 ^ w) (2 ^ m) (two_pow_pos w),
        ),
        omega (arith, le-bit_or r (v / 2 ^ w), high, times_pred (2 ^ w) (2 ^ m) (two_pow_pos w)),
      )

smear-Filled : (n w v : ℕ) → Filled n w v → Filled n (w + w) (smear w v)
unfolding smear
smear-Filled n w v h = elim (Bool-cases (ltb n w)) [
  | inl short ↦
      let lt = ltb→lt n w short in
      let e : n - w ≡ 0 = omega arith in
      let e' : n - (w + w) ≡ 0 = omega arith in
      let none_left : v / 2 ^ w ≡ 0 =
        div-eq-zero (2 ^ w) v (omega (arith, two_pow_mono n w (omega arith))) in
      rw (none_left, e', bit_or-zero) (rw e at h)
  | inr long ↦
      let e : n ≡ w + (n - w) = omega (arith, ltb→le n w long) in
      rw (← e) at (smear-Filled_within (n - w) w v (rw e at h))
]

-- Every number below a power of two has a highest bit.
highest_bit : (m x : ℕ) → 0 < x → x < 2 ^ m → (k : ℕ) × (k < m) × (2 ^ k ≤ x) × (x < 2 ^ suc k)
highest_bit zero x pos h = absurd (omega arith)
highest_bit (suc m) x pos h = elim (Bool-cases (ltb x (2 ^ m))) [
  | inl low ↦
      let (k, a, b, c) = highest_bit m x pos (ltb→lt x (2 ^ m) low) in (k, omega arith, b, c)
  | inr high ↦ (m, omega arith, ltb→le x (2 ^ m) high, h)
]

six_smears : ℕ → ℕ
six_smears x = smear 32 (smear 16 (smear 8 (smear 4 (smear 2 (smear 1 x)))))

six_smears_fill : (k x : ℕ) → k < 64 → 2 ^ k ≤ x → x < 2 ^ suc k → six_smears x + 1 ≡ 2 ^ suc k
unfolding six_smears
six_smears_fill k x h lo hi =
    let e : suc k - 1 ≡ k = omega arith in
    let start : Filled (suc k) 1 x = rw e (hi, omega (arith, pow-suc 2 k)) in
    let s1 = smear-Filled (suc k) 1 x start in
    let s2 = smear-Filled (suc k) 2 _ s1 in
    let s3 = smear-Filled (suc k) 4 _ s2 in
    let s4 = smear-Filled (suc k) 8 _ s3 in
    let s5 = smear-Filled (suc k) 16 _ s4 in
    let s6 = smear-Filled (suc k) 32 _ s5 in
    let all : suc k - 64 ≡ 0 = omega arith in
    let done : Filled (suc k) 64 (six_smears x) = s6 in
    omega (arith, done.0, ap (λ (t : ℕ). 2 ^ t) all, done.1)

six_smears-zero : six_smears 0 ≡ 0
unfolding six_smears smear
six_smears-zero = refl

pow2_size-smears : (n : ℕ) → pow2_size n ≡ u64 (six_smears (sub64 n 1) + 1)
unfolding pow2_size six_smears
pow2_size-smears n = refl

two_pow_64 : 2 ^ suc 63 ≡ 2 ^ 64
two_pow_64 = refl

-- For every size from 1 to 2 ^ 63 the result is a power of two, at least the size and less than
-- twice the size: the least power of two that is not below it.
pub pow2_size-IsLeast :
    (n : ℕ)
    → 0 < n
    → n ≤ 2 ^ 63
    → (k : ℕ) × (k ≤ 63) × (pow2_size n ≡ 2 ^ k) × (n ≤ 2 ^ k) × (2 ^ k < 2 * n)
pow2_size-IsLeast n pos fits = elim (Bool-cases (ltb 1 n)) [
  | inr one ↦
      let e : n ≡ 1 = omega (arith, ltb→le 1 n one) in
      rw e (
        0,
        omega arith,
        omega (arith, pow2_size-smears 1, six_smears-zero),
        omega arith,
        omega arith,
      )
  | inl more ↦
      let gt = ltb→lt 1 n more in
      let x : sub64 n 1 ≡ n - 1 = omega arith in
      let (k, below, lo, hi) = highest_bit 63 (n - 1) (omega arith) (omega arith) in
      let full = six_smears_fill k (n - 1) (omega arith) lo hi in
      (
        suc k,
        below,
        omega (arith, pow2_size-smears n, ap six_smears x, full, two_pow_mono (suc k) 63 below),
        omega arith,
        omega (arith, pow-suc 2 k),
      )
]

-- The two cases in which no power of two fits: 0, and the sizes above 2 ^ 63. The result is 0.
pow2_size_wraps : (n : ℕ) → (n ≡ 0) ⊎ ((2 ^ 63 < n) × (n < 2 ^ 64)) → pow2_size n ≡ 0
pow2_size_wraps n (inl e) = rw e (
    omega (
      arith,
      pow2_size-smears 0,
      two_pow_64,
      six_smears_fill 63 (2 ^ 64 - 1) (omega arith) (omega arith) (omega arith),
    ))
pow2_size_wraps n (inr (big, fits)) =
    let x : sub64 n 1 ≡ n - 1 = omega arith in
    omega (
      arith,
      pow2_size-smears n,
      ap six_smears x,
      two_pow_64,
      six_smears_fill 63 (n - 1) (omega arith) (omega arith) (omega arith),
    )
