-- ===== src/Strings/Digits.antt =====
-- sl_string_itoa: the decimal digits of a number.
use mathlib.Core.List.{append_assoc, append-nil}
use native.Mathlib.Nat.{pow-suc}
use cpp_the_right_way.Base.{
  ℕ, zero, suc, ◌+◌, ◌-◌, ◌*◌, ◌/◌, ◌%◌, ◌^◌, ◌≤◌, ◌<◌, some, List, [], ◌∷◌, ◌++◌, ◌≡◌, refl, sym,
  ap, ◌∙◌, arith, true, false, ◌==◌, inl, inr, Bool-cases, length, length-append, length-set,
  length-drop, take, drop, set, take-append-drop, take-set_le, drop-set_self, drop-set_lt,
  take-suc-set, get_elem?-drop, drop-suc-drop, drop-append_length, length-take, add64, get_elem?,
}
use cpp_the_right_way.Memory.{store_at_lem}
use cpp_the_right_way.Strings.{Filling, itoa_fill, itoa_move, itoa}

-- The digits of `value`, at most `l` of them; the number 0 has none.
unfoldable pub decimal : ℕ → ℕ → List ℕ
decimal zero value = []
decimal (suc l) value = elim (value == 0) [
  | true ↦ []
  | false ↦ decimal l (value / 10) ++ (b'0' + value % 10) ∷ []
]

pub decimal_zero : (l value : ℕ) → (value == 0) ≡ true → decimal (suc l) value ≡ []
unfolding decimal
decimal_zero l value h = rw (h, decimal)

pub decimal_more :
    (l value : ℕ)
    → (value == 0) ≡ false
    → decimal (suc l) value ≡ decimal l (value / 10) ++ (b'0' + value % 10) ∷ []
unfolding decimal
decimal_more l value h = rw (h, decimal)

-- The number that a text of digits stands for, behind the digits of `value`.
unfoldable pub number_of : ℕ → List ℕ → ℕ
number_of value [] = value
number_of value (c ∷ cs) = number_of (value * 10 + (c - b'0')) cs

number_of-append :
    (value : ℕ) (xs ys : List ℕ) → number_of value (xs ++ ys) ≡ number_of (number_of value xs) ys
unfolding number_of
number_of-append value [] ys = refl
number_of-append value (x ∷ xs) ys = number_of-append (value * 10 + (x - b'0')) xs ys

pub length-decimal : (l value : ℕ) → length (decimal l value) ≤ l
unfolding decimal
length-decimal zero value = omega arith
length-decimal (suc l) value = elim (Bool-cases (value == 0)) [
  | inl none_left ↦ rw (decimal_zero l value none_left) (omega arith)
  | inr more ↦ rw (decimal_more l value more) (
      omega (
        arith,
        length-decimal l (value / 10),
        length-append (decimal l (value / 10)) ((b'0' + value % 10) ∷ []),
      ))
]

-- A number below `10 ^ k` has at most `k` digits.
pub length-decimal_lt : (k l value : ℕ) → value < 10 ^ k → length (decimal l value) ≤ k
unfolding decimal
length-decimal_lt k zero value h = omega arith
length-decimal_lt zero (suc l) value h =
    let none_left : (value == 0) ≡ true = ground arith in
    rw (decimal_zero l value none_left) (omega arith)
length-decimal_lt (suc k) (suc l) value h = elim (Bool-cases (value == 0)) [
  | inl none_left ↦ rw (decimal_zero l value none_left) (omega arith)
  | inr more ↦ rw (decimal_more l value more) (
      omega (
        arith,
        length-decimal_lt k l (value / 10) (omega (arith, pow-suc 10 k)),
        length-append (decimal l (value / 10)) ((b'0' + value % 10) ∷ []),
      ))
]

-- Reading the digits back gives the number.
number_of-decimal : (l value : ℕ) → value < 10 ^ l → number_of 0 (decimal l value) ≡ value
unfolding decimal number_of
number_of-decimal zero value h = omega arith
number_of-decimal (suc l) value h = elim (Bool-cases (value == 0)) [
  | inl none_left ↦ rw (decimal_zero l value none_left) (ground arith)
  | inr more ↦ rw (decimal_more l value more) (
      number_of-append 0 (decimal l (value / 10)) ((b'0' + value % 10) ∷ [])
      ∙ omega (arith, number_of-decimal l (value / 10) (omega (arith, pow-suc 10 l))))
]

-- The digits `ds` stand in front of index `l`, and the rest of the buffer is as before.
record HasDigits (l : ℕ) (ds old : List ℕ) (before : ℕ) (f : Filling) : Type 0 where
  pub left : f.left ≡ l - length ds
  pub buffer : f.buffer ≡ take (l - length ds) old ++ (ds ++ drop l old)
  pub count : f.count ≡ before + length ds

nothing-HasDigits :
    (l : ℕ) (buffer : List ℕ) (count : ℕ)
    → HasDigits l [] buffer count (record { left = l; buffer = buffer; count = count })
nothing-HasDigits l buffer count = record {
  left = omega arith;
  buffer = sym (take-append-drop l buffer) ∙ ap (λ k. take k buffer ++ drop l buffer) (whole l);
  count = omega arith;
}
  where
    whole : (l : ℕ) → l ≡ l - 0
    whole l = omega arith

itoa_fill_step :
    (l value : ℕ) (buffer : List ℕ) (count : ℕ)
    → l < length buffer
    → (value == 0) ≡ false
    → itoa_fill (suc l) value buffer count
      ≡ itoa_fill l (value / 10) (set buffer l (b'0' + value % 10)) (count + 1)
unfolding itoa_fill
itoa_fill_step l value buffer count room more =
    rw (more, store_at_lem buffer l (b'0' + value % 10) room, itoa_fill)

itoa_fill_done :
    (l value : ℕ) (buffer : List ℕ) (count : ℕ)
    → (value == 0) ≡ true
    → itoa_fill l value buffer count ≡ some (record { left = l; buffer = buffer; count = count })
unfolding itoa_fill
itoa_fill_done zero value buffer count h = rw (h, itoa_fill)
itoa_fill_done (suc l) value buffer count h = rw (h, itoa_fill)

-- The first loop writes the digits in front of index `l`.
itoa_fill_lem :
    (l value : ℕ) (buffer : List ℕ) (count : ℕ)
    → l ≤ length buffer
    → value < 10 ^ l
    → (f : Filling) × (itoa_fill l value buffer count ≡ some f)
      × HasDigits l (decimal l value) buffer count f
unfolding decimal
itoa_fill_lem zero value buffer count room h =
    (_, itoa_fill_done zero value buffer count (ground arith), nothing-HasDigits zero buffer count)
itoa_fill_lem (suc l) value buffer count room h = elim (Bool-cases (value == 0)) [
  | inl none_left ↦ (
    _,
    itoa_fill_done (suc l) value buffer count none_left,
    rw (decimal_zero l value none_left) (nothing-HasDigits (suc l) buffer count),
  )
  | inr more ↦
      let c = b'0' + value % 10 in
      let ds = decimal l (value / 10) in
      let (f, run, g) =
        itoa_fill_lem l (value / 10) (set buffer l c) (count + 1)
          (omega (arith, length-set buffer l c)) (omega (arith, pow-suc 10 l)) in
      let n = length-append ds (c ∷ []) in
      (
        f,
        itoa_fill_step l value buffer count (omega arith) more ∙ run,
        rw (decimal_more l value more) (record {
          left = omega (arith, g.left, n);
          buffer =
              g.buffer
              ∙ (ap (λ b. b ++ (ds ++ drop l (set buffer l c)))
                    (take-set_le (l - length ds) l buffer c (omega arith))
                  ∙ (ap (λ b. take (l - length ds) buffer ++ (ds ++ b))
                        (drop-set_self l buffer c (omega arith))
                      ∙ (ap (λ b. take (l - length ds) buffer ++ b)
                            (sym (append_assoc ds (c ∷ []) (drop (suc l) buffer)))
                          ∙ ap (λ k. take k buffer ++ ((ds ++ c ∷ []) ++ drop (suc l) buffer))
                              (omega (arith, n)))));
          count = omega (arith, g.count, n);
        }),
      )
]

itoa_move_step :
    (rounds n left : ℕ) (buffer : List ℕ) (c : ℕ)
    → get_elem? buffer (add64 n left) ≡ some c
    → n < length buffer
    → itoa_move (suc rounds) n left buffer ≡ itoa_move rounds (n + 1) left (set buffer n c)
unfolding itoa_move
itoa_move_step rounds n left buffer c here room = rw (here, store_at_lem buffer n c room, itoa_move)

-- The second loop copies what stands at `n + left` down to `n`.
itoa_move_lem :
    (ds : List ℕ) (n left : ℕ) (buffer tail : List ℕ)
    → drop (n + left) buffer ≡ ds ++ tail
    → n + left + length ds ≤ length buffer
    → length buffer < 2 ^ 64
    → (b : List ℕ) × (itoa_move (length ds) n left buffer ≡ some b)
      × (take (n + length ds) b ≡ take n buffer ++ ds)
      × (length b ≡ length buffer)
unfolding itoa_move
itoa_move_lem [] n left buffer tail e room fits =
    (buffer, refl, ap (λ k. take k buffer) (omega arith) ∙ sym (append-nil (take n buffer)), refl)
itoa_move_lem (c ∷ ds) n left buffer tail e room fits =
    let same : add64 n left ≡ n + left = omega arith in
    let here : get_elem? buffer (add64 n left) ≡ some c =
      rw same (get_elem?-drop (n + left) buffer c (ds ++ tail) e) in
    let behind : n + 1 + left ≡ suc (n + left) = omega arith in
    let further : n + length (c ∷ ds) ≡ n + 1 + length ds = omega arith in
    let next : drop (n + 1 + left) (set buffer n c) ≡ ds ++ tail =
      drop-set_lt (n + 1 + left) n buffer c (omega arith)
      ∙ (ap (λ k. drop k buffer) behind ∙ drop-suc-drop (n + left) buffer c (ds ++ tail) e) in
    let (b, run, front, size) =
      itoa_move_lem ds (n + 1) left (set buffer n c) tail next
        (omega (arith, length-set buffer n c)) (omega (arith, length-set buffer n c)) in
    (
      b,
      itoa_move_step (length ds) n left buffer c here (omega arith) ∙ run,
      ap (λ k. take k b) further
          ∙ (front
              ∙ (ap (λ xs. xs ++ ds)
                    (ap (λ k. take k (set buffer n c)) next_index
                      ∙ take-suc-set buffer n c (omega arith))
                  ∙ append_assoc (take n buffer) (c ∷ []) ds)),
      size ∙ length-set buffer n c,
    )
  where
    next_index : n + 1 ≡ suc n
    next_index = omega arith

itoa_run :
    (value : ℕ) (buffer : List ℕ) (l : ℕ) (f : Filling) (digits : List ℕ)
    → itoa_fill l value buffer 0 ≡ some f
    → itoa_move f.count 0 f.left f.buffer ≡ some digits
    → itoa value buffer l ≡ some (f.count, digits)
unfolding itoa
itoa_run value buffer l f digits filled moved = rw (filled, moved, itoa)

-- The digits at the end of the filled buffer, moved to its front.
HasDigits-moved :
    (l : ℕ) (ds old : List ℕ) (f : Filling)
    → length old ≡ l
    → l < 2 ^ 64
    → length ds ≤ l
    → HasDigits l ds old 0 f
    → (b : List ℕ) × (itoa_move f.count 0 f.left f.buffer ≡ some b)
      × (take (length ds) b ≡ ds)
      × (length b ≡ l)
HasDigits-moved l ds old f size fits few g =
    let front : length (take (l - length ds) old) ≡ l - length ds =
      omega (arith, length-take (l - length ds) old) in
    let start : 0 + f.left ≡ length (take (l - length ds) old) = omega (arith, g.left) in
    let at : drop (0 + f.left) f.buffer ≡ ds ++ drop l old =
      ap (λ k. drop k f.buffer) start
      ∙ (ap (λ b. drop (length (take (l - length ds) old)) b) g.buffer
          ∙ drop-append_length (take (l - length ds) old) (ds ++ drop l old)) in
    let whole : length f.buffer ≡ l = omega (
      arith,
      ap length g.buffer,
      length-append (take (l - length ds) old) (ds ++ drop l old),
      length-append ds (drop l old),
      length-drop l old,
    ) in
    let (b, moved, holds, same) =
      itoa_move_lem ds 0 f.left f.buffer (drop l old) at (omega (arith, g.left, whole))
        (omega (arith, whole)) in
    let rounds : f.count ≡ length ds = omega (arith, g.count) in
    let none_before : length ds ≡ 0 + length ds = omega arith in
    (b, rw rounds moved, ap (λ k. take k b) none_before ∙ holds, same ∙ whole)

-- sl_string_itoa on a number with at most `l` digits and a buffer of `l` bytes: it makes no access
-- out of bounds, and the count that it returns is of the decimal digits of the number, which then
-- stand at the front of the buffer.
pub itoa-decimal :
    (value : ℕ) (buffer : List ℕ) (l : ℕ)
    → length buffer ≡ l
    → l < 2 ^ 64
    → value < 10 ^ l
    → (b : List ℕ) × (itoa value buffer l ≡ some (length (decimal l value), b))
      × (take (length (decimal l value)) b ≡ decimal l value)
      × (length b ≡ l)
itoa-decimal value buffer l size fits small =
    let (f, run, g) = itoa_fill_lem l value buffer 0 (omega (arith, size)) small in
    let (b, moved, holds, whole) =
      HasDigits-moved l (decimal l value) buffer f size fits (length-decimal l value) g in
    (b, itoa_run value buffer l f b run moved ∙ ap (λ k. some (k, b)) (counted f g), holds, whole)
  where
    counted :
        (f : Filling)
        → HasDigits l (decimal l value) buffer 0 f
        → f.count ≡ length (decimal l value)
    counted f g = omega (arith, g.count)

-- sl_string_itoa on a number with at most `l` digits and a buffer of `l` bytes returns, with no
-- access out of bounds, a text of at most `l` digits, which read as decimal digits is the number.
pub number_of-itoa :
    (value : ℕ) (buffer : List ℕ) (l : ℕ)
    → length buffer ≡ l
    → l < 2 ^ 64
    → value < 10 ^ l
    → (n : ℕ) × (b : List ℕ) × (itoa value buffer l ≡ some (n, b))
      × (n ≤ l)
      × (number_of 0 (take n b) ≡ value)
number_of-itoa value buffer l size fits small =
    let (b, run, holds, whole) = itoa-decimal value buffer l size fits small in
    (
      length (decimal l value),
      b,
      run,
      length-decimal l value,
      ap (number_of 0) holds ∙ number_of-decimal l value small,
    )
