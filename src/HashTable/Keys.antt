-- ===== src/HashTable/Keys.antt =====
-- Keys: sl_hashtable_are_keys_equal and sl_hashtable_compute_hash.
use native.Mathlib.Nat.{pow-suc}
use cpp_the_right_way.Base.{
  ℕ, ◌+◌, ◌*◌, ◌%◌, ◌^◌, ◌<◌, ◌/◌, sym, List, [], ◌∷◌, true, ◌≡◌, refl, ap, ◌∙◌, ◌↔◌, arith, length,
  length-take, add64, sub64, u64, ◌<<<◌,
}
use cpp_the_right_way.Strings.{SlString, contents}
use cpp_the_right_way.Strings.Append.{IsString}
use cpp_the_right_way.HashTable.{same_bytes, are_keys_equal, widen_char, hash_bytes, compute_hash}

pub length-contents : (t : SlString) → IsString t → length (contents t) ≡ t.length
length-contents t v = omega (arith, length-take t.length t.buffer, v.within, v.whole)

same_bytes_refl : (xs : List ℕ) → same_bytes xs xs ≡ true
unfolding same_bytes
same_bytes_refl [] = refl
same_bytes_refl (x ∷ xs) = ground (arith, same_bytes_refl xs)

same_bytes_eq : (xs ys : List ℕ) → length xs ≡ length ys → same_bytes xs ys ≡ true → xs ≡ ys
unfolding same_bytes
same_bytes_eq [] [] l h = refl
same_bytes_eq [] (y ∷ ys) l h = absurd (omega arith)
same_bytes_eq (x ∷ xs) [] l h = absurd (omega arith)
same_bytes_eq (x ∷ xs) (y ∷ ys) l h = ground (arith, same_bytes_eq xs ys)

-- The comparison of two well-formed keys is equality of their contents.
pub are_keys_equal_iff :
    (a b : SlString)
    → IsString a
    → IsString b
    → (are_keys_equal a b ≡ true) ↔ (contents a ≡ contents b)
unfolding are_keys_equal
are_keys_equal_iff a b va vb = (there, back)
  where
    la : length (contents a) ≡ a.length
    la = length-contents a va

    lb : length (contents b) ≡ b.length
    lb = length-contents b vb

    there : are_keys_equal a b ≡ true → contents a ≡ contents b
    there h = ground (arith, la, lb, same_bytes_eq (contents a) (contents b))

    back : contents a ≡ contents b → are_keys_equal a b ≡ true
    back e =
        let same : same_bytes (contents a) (contents b) ≡ true =
          ap (λ l. same_bytes (contents a) l) (sym e) ∙ same_bytes_refl (contents a) in
        let lengths : length (contents a) ≡ length (contents b) = ap length e in
        ground (arith, la, lb)

-- Equal keys have one hash.
pub compute_hash_congr :
    (a b : SlString)
    → IsString a
    → IsString b
    → are_keys_equal a b ≡ true
    → compute_hash a ≡ compute_hash b
unfolding compute_hash
compute_hash_congr a b va vb h = ap (hash_bytes 0) ((are_keys_equal_iff a b va vb).0 h)

are_keys_equal_refl : (a : SlString) → IsString a → are_keys_equal a a ≡ true
are_keys_equal_refl a v = (are_keys_equal_iff a a v v).1 refl

-- Two keys that are equal to a third compare alike.
pub are_keys_equal_congr :
    (a b c : SlString)
    → IsString a
    → IsString b
    → IsString c
    → are_keys_equal b c ≡ true
    → are_keys_equal a b ≡ are_keys_equal a c
are_keys_equal_congr a b c va vb vc h =
    let e = (are_keys_equal_iff b c vb vc).0 h in
    ground (
      arith,
      are_keys_equal_iff a b va vb,
      are_keys_equal_iff a c va vc,
      λ (p : contents a ≡ contents b). p ∙ e,
      λ (p : contents a ≡ contents c). p ∙ sym e,
    )

pub are_keys_equal_congr_left :
    (a b c : SlString)
    → IsString a
    → IsString b
    → IsString c
    → are_keys_equal a b ≡ true
    → are_keys_equal a c ≡ are_keys_equal b c
are_keys_equal_congr_left a b c va vb vc h =
    let e = (are_keys_equal_iff a b va vb).0 h in
    ground (
      arith,
      are_keys_equal_iff a c va vc,
      are_keys_equal_iff b c vb vc,
      λ (p : contents a ≡ contents c). sym e ∙ p,
      λ (p : contents b ≡ contents c). e ∙ p,
    )

-- The polynomial that the loop evaluates: each byte, as a signed char, times a power of 31.
pub polynomial : List ℕ → ℕ
polynomial [] = 0
polynomial (c ∷ cs) = widen_char c * 31 ^ length cs + polynomial cs

hash_step : (h c : ℕ) → h < 2 ^ 64 → sub64 (add64 c (u64 (h <<< 5))) h ≡ (c + 31 * h) % 2 ^ 64
hash_step h c lt = omega arith

-- A factor may be reduced before the product is.
reduce_factor : (x p r : ℕ) → (x % 2 ^ 64 * p + r) % 2 ^ 64 ≡ (x * p + r) % 2 ^ 64
reduce_factor x p r =
    let split : x ≡ 2 ^ 64 * (x / 2 ^ 64) + x % 2 ^ 64 = omega arith in
    omega (arith, ap (λ (t : ℕ). t * p) split)

hash_bytes-polynomial :
    (h : ℕ) (cs : List ℕ)
    → h < 2 ^ 64
    → hash_bytes h cs ≡ (h * 31 ^ length cs + polynomial cs) % 2 ^ 64
unfolding hash_bytes polynomial
hash_bytes-polynomial h [] lt = omega arith
hash_bytes-polynomial h (c ∷ cs) lt =
    let w = widen_char c in
    let next = sub64 (add64 w (u64 (h <<< 5))) h in
    let step : next ≡ (w + 31 * h) % 2 ^ 64 = hash_step h w lt in
    hash_bytes-polynomial next cs (omega arith)
    ∙ (ap (λ (t : ℕ). (t * 31 ^ length cs + polynomial cs) % 2 ^ 64) step
        ∙ (reduce_factor (w + 31 * h) (31 ^ length cs) (polynomial cs)
            ∙ omega (arith, ap (λ (t : ℕ). h * t) (pow-suc 31 (length cs)))))

-- The loop computes the polynomial of the key's bytes in 31, without its multiples of 2 ^ 64.
pub compute_hash-polynomial :
    (key : SlString) → compute_hash key ≡ polynomial (contents key) % 2 ^ 64
unfolding compute_hash
compute_hash-polynomial key =
    hash_bytes-polynomial 0 (contents key) (omega arith) ∙ ap (λ (t : ℕ). t % 2 ^ 64) (omega arith)
