-- ===== src/Fcgi/Parser/Lengths.antt =====
-- The lengths of a name and a value in a PARAMS record, of one octet or of four.
use mathlib.Core.Path.{subst}
use cpp_the_right_way.Base.{
  ℕ, ◌+◌, ◌*◌, ◌/◌, ◌%◌, ◌^◌, ◌<◌, Option, none, some, List, [], ◌∷◌, ◌++◌, ◌≡◌, refl, sym, ap,
  arith, true, false, ◌==◌, ltb, ltb→lt, if◌then◌else◌, Bool-cases, inl, inr, length, add64, u32,
  bit_and, bit_or, ◌<<<◌,
}
use cpp_the_right_way.Bits.{bit_or_fields, bit_and_mask, bit_and_digit}
use cpp_the_right_way.Arena.{Platform, Store}
use cpp_the_right_way.Run.{M, pure, access, attempt, allocate_or_fail, ◌>>=◌, Partly-any}
use cpp_the_right_way.Fcgi.Parser.State.{
  Header, Begin, Stdin, Param, Parser, ParserState, name_length_b2, value_length_b3,
  value_length_b2, name_data, last_param, set_last,
}
use cpp_the_right_way.Fcgi.Parser.Params.{
  parse_params, params_at, start_param, param_allocated, link_param, first_name_length,
  first_value_length, change_last, sizeof_param,
}
use cpp_the_right_way.Fcgi.Parser.{kind, verdict, proceed}
use cpp_the_right_way.Fcgi.Parser.Goal.{Aim, Reaches, Reaches-octet, Goes, Goes-then, Goes-error}
use cpp_the_right_way.Fcgi.Parser.Octets.{in_param}

-- The octets of a length below 2 ^ 31: one of seven bits, or four of which the first has the top bit.
unfoldable pub length_head : ℕ → ℕ
length_head n = if ltb n 128 then n else n / 2 ^ 24 + 128

unfoldable pub length_tail : ℕ → List ℕ
length_tail n =
    if ltb n 128 then [] else (n / 2 ^ 16 % 2 ^ 8) ∷ (n / 2 ^ 8 % 2 ^ 8) ∷ (n % 2 ^ 8) ∷ []

abbrev pub length_octets : ℕ → List ℕ
length_octets n = length_head n ∷ length_tail n

top_bit : (a : ℕ) → bit_and a 128 ≡ bit_and (a / 2 / 2 / 2 / 2 / 2 / 2 / 2) 1 * 128
top_bit a = omega (
  arith,
  bit_and_digit a 128,
  bit_and_digit (a / 2) 64,
  bit_and_digit (a / 2 / 2) 32,
  bit_and_digit (a / 2 / 2 / 2) 16,
  bit_and_digit (a / 2 / 2 / 2 / 2) 8,
  bit_and_digit (a / 2 / 2 / 2 / 2 / 2) 4,
  bit_and_digit (a / 2 / 2 / 2 / 2 / 2 / 2) 2,
)

top_bit_clear : (a : ℕ) → a < 128 → (bit_and a 0x80 == 0x80) ≡ false
top_bit_clear a small =
    let none_left : a / 2 / 2 / 2 / 2 / 2 / 2 / 2 ≡ 0 = omega arith in
    let e = ap (λ t. bit_and t 1) none_left in ground (arith, top_bit a, e)

top_bit_set : (a : ℕ) → a < 128 → (bit_and (a + 128) 0x80 == 0x80) ≡ true
top_bit_set a small =
    let one_left : (a + 128) / 2 / 2 / 2 / 2 / 2 / 2 / 2 ≡ 1 = omega arith in
    let e = ap (λ t. bit_and t 1) one_left in ground (arith, top_bit (a + 128), e)

-- The length that four octets are joined to.
joined : ℕ → ℕ → ℕ → ℕ → ℕ
joined o3 o2 o1 o0 = u32 (
    bit_or (u32 (bit_or (u32 (bit_or (u32 (bit_and o3 0x7f <<< 24)) (o2 <<< 16))) (o1 <<< 8)))
      (o0 <<< 0))

joined-length :
    (n : ℕ)
    → n < 2 ^ 31
    → joined (n / 2 ^ 24 + 128) (n / 2 ^ 16 % 2 ^ 8) (n / 2 ^ 8 % 2 ^ 8) (n % 2 ^ 8) ≡ n
unfolding joined
joined-length n small =
    let o2 = n / 2 ^ 16 % 2 ^ 8 in
    let o1 = n / 2 ^ 8 % 2 ^ 8 in
    let o0 = n % 2 ^ 8 in
    let e0 : u32 (bit_and (n / 2 ^ 24 + 128) 0x7f <<< 24) ≡ (n / 2 ^ 24) * 2 ^ 24 =
      omega (arith, bit_and_mask 7 (n / 2 ^ 24 + 128)) in
    let e1 : u32 (bit_or ((n / 2 ^ 24) * 2 ^ 24) (o2 <<< 16)) ≡ (n / 2 ^ 16) * 2 ^ 16 =
      omega (arith, bit_or_fields 24 (n / 2 ^ 24) (o2 <<< 16) (omega arith)) in
    let e2 : u32 (bit_or ((n / 2 ^ 16) * 2 ^ 16) (o1 <<< 8)) ≡ (n / 2 ^ 8) * 2 ^ 8 =
      omega (arith, bit_or_fields 16 (n / 2 ^ 16) (o1 <<< 8) (omega arith)) in
    let e3 : u32 (bit_or ((n / 2 ^ 8) * 2 ^ 8) (o0 <<< 0)) ≡ n =
      omega (arith, bit_or_fields 8 (n / 2 ^ 8) (o0 <<< 0) (omega arith)) in
    rw (e0, e1, e2) e3

abbrev pub fresh : ℕ → ℕ → Param
fresh n v = record { name_length = n; value_length = v; name = none; value = none }

-- The octet at which a parameter begins: the count of the message starts with the first one.
abbrev pub IsLinked : List Param → ℕ → Type 0
IsLinked [] ms = ms ≡ 0
IsLinked (l ∷ earlier) ms = Unit {0}

module _ (os : Platform) (aim : Aim) (header : Header) (begin : Begin) (stdin : Stdin)
    (ls : List Param) where
  abbrev pub here : ParserState → ℕ → ℕ → Param → Parser
  here c rc ms l = in_param header begin stdin c rc ms l ls

  -- The three later octets of the length of the name, and of the value.
  name_more :
      (n o2 o1 o0 rc ms : ℕ) (rest : List ℕ) (total : ℕ)
      → Reaches os aim
          (here value_length_b3 rc ms (
            fresh
              (u32 (bit_or (u32 (bit_or (u32 (bit_or n (o2 <<< 16))) (o1 <<< 8))) (o0 <<< 0)))
              0))
          rest
          (total + 3)
      → Reaches os aim (here name_length_b2 rc ms (fresh n 0)) (o2 ∷ o1 ∷ o0 ∷ rest) total
  unfolding parse_params params_at change_last last_param set_last kind verdict
  name_more n o2 o1 o0 rc ms rest total k =
      let sum : total + 1 + 1 + 1 ≡ total + 3 = omega arith in
      Reaches-octet os aim _ o2 (o1 ∷ o0 ∷ rest) total refl (λ s₁. inr (
        refl,
        Reaches-octet os aim _ o1 (o0 ∷ rest) (total + 1) refl (λ s₂. inr (
          refl,
          Reaches-octet os aim _ o0 rest (total + 1 + 1) refl (λ s₃. inr (refl, rw sum k)),
        )),
      ))

  value_more :
      (n v o2 o1 o0 rc ms : ℕ) (rest : List ℕ) (total : ℕ)
      → Reaches os aim
          (here name_data rc ms (
            fresh n
              (u32 (bit_or (u32 (bit_or (u32 (bit_or v (o2 <<< 16))) (o1 <<< 8))) (o0 <<< 0)))))
          rest
          (total + 3)
      → Reaches os aim (here value_length_b2 rc ms (fresh n v)) (o2 ∷ o1 ∷ o0 ∷ rest) total
  unfolding parse_params params_at change_last last_param set_last kind verdict
  value_more n v o2 o1 o0 rc ms rest total k =
      let sum : total + 1 + 1 + 1 ≡ total + 3 = omega arith in
      Reaches-octet os aim _ o2 (o1 ∷ o0 ∷ rest) total refl (λ s₁. inr (
        refl,
        Reaches-octet os aim _ o1 (o0 ∷ rest) (total + 1) refl (λ s₂. inr (
          refl,
          Reaches-octet os aim _ o0 rest (total + 1 + 1) refl (λ s₃. inr (refl, rw sum k)),
        )),
      ))

  value_length_Reaches :
      (n v rc ms : ℕ) (rest : List ℕ) (total : ℕ)
      → v < 2 ^ 31
      → Reaches os aim
          (here name_data rc (add64 ms (length (length_octets v))) (fresh n v))
          rest
          (total + length (length_octets v))
      → Reaches os aim (here value_length_b3 rc ms (fresh n 0)) (length_octets v ++ rest) total
  unfolding parse_params params_at first_value_length last_param set_last kind verdict length_head
      length_tail joined
  value_length_Reaches n v rc ms rest total small k = elim (Bool-cases (ltb v 128)) [
    | inl short ↦
        let clear = top_bit_clear v (ltb→lt v 128 short) in
        rw short
          (Reaches-octet os aim _ v rest total refl (λ s. rw clear (inr (refl, rw short at k))))
    | inr long ↦
        let top = top_bit_set (v / 2 ^ 24) (omega arith) in
        let same = joined-length v small in
        let sum : total + 1 + 3 ≡ total + 4 = omega arith in
        rw long (
          Reaches-octet os aim _ (v / 2 ^ 24 + 128) _ total refl (λ s. rw top (
            inr (
              refl,
              value_more n _ (v / 2 ^ 16 % 2 ^ 8) (v / 2 ^ 8 % 2 ^ 8) (v % 2 ^ 8) rc (add64 ms 4)
                  rest (total + 1) (rw (same, sum) (rw long at k)),
            ))))
  ]

  abbrev pub before : ParserState → ℕ → ℕ → Parser
  before c rc ms = record {
    state = c;
    read_counter = rc;
    message_size = ms;
    header = header;
    begin = begin;
    params = ls;
    stdin = stdin;
  }

  linked :
      (c : ParserState) (rc ms : ℕ)
      → IsLinked ls ms
      → link_param (before c rc ms) ≡ here c rc ms (fresh 0 0)
  unfolding link_param
  linked c rc ms h = go ls h
    where
      go :
          (ps : List Param)
          → IsLinked ps ms
          → link_param (record (before c rc ms) { params = ps })
            ≡ record (before c rc ms) { params = fresh 0 0 ∷ ps }
      go [] e = rw e refl
      go (l ∷ ps) e = refl

  allocated :
      (c : ParserState) (rc ms octet address : ℕ)
      → IsLinked ls ms
      → param_allocated (before c rc ms) octet (some address)
        ≡ pure (first_name_length (here c rc ms (fresh 0 0)) octet (fresh 0 0))
  unfolding param_allocated last_param
  allocated c rc ms octet address first =
      ap
        (λ (q : Parser).
          access (last_param q.params) >>= (λ param. pure (first_name_length q octet param)))
        (linked c rc ms first)

  first_length_Goes :
      (n rc ms : ℕ) (c : ParserState) (rest : List ℕ) (total : ℕ) (s : Store)
      → n < 2 ^ 31
      → Reaches os aim
          (here value_length_b3 rc (add64 ms (length (length_octets n))) (fresh n 0))
          rest
          (total + length (length_octets n))
      → Goes os aim
          (length_tail n ++ rest)
          total
          (pure (first_name_length (here c rc ms (fresh 0 0)) (length_head n) (fresh 0 0)))
          s
  unfolding set_last first_name_length verdict proceed length_head length_tail joined
  first_length_Goes n rc ms c rest total s small k = elim (Bool-cases (ltb n 128)) [
    | inl short ↦
        let clear = top_bit_clear n (ltb→lt n 128 short) in rw (short, clear) ((rw short at k) s)
    | inr long ↦
        let top = top_bit_set (n / 2 ^ 24) (omega arith) in
        let same = joined-length n small in
        let sum : total + 1 + 3 ≡ total + 4 = omega arith in
        rw (long, top)
          (name_more _ (n / 2 ^ 16 % 2 ^ 8) (n / 2 ^ 8 % 2 ^ 8) (n % 2 ^ 8) rc (add64 ms 4) rest
            (total + 1) (rw (same, sum) (rw long at k)) s)
  ]

  name_length_Goes :
      (n rc ms : ℕ) (c : ParserState) (rest : List ℕ) (total : ℕ) (s : Store)
      → n < 2 ^ 31
      → IsLinked ls ms
      → Reaches os aim
          (here value_length_b3 rc (add64 ms (length (length_octets n))) (fresh n 0))
          rest
          (total + length (length_octets n))
      → Goes os aim
          (length_tail n ++ rest)
          total
          (start_param os (before c rc ms) (length_head n))
          s
  unfolding start_param
  name_length_Goes n rc ms c rest total s small first k =
      Goes-then os aim (attempt (allocate_or_fail os sizeof_param))
        (param_allocated (before c rc ms) (length_head n)) (length_tail n ++ rest) total s
        (λ _. Unit {0}) (Partly-any (attempt (allocate_or_fail os sizeof_param) s))
        (λ r s' _. by_answer r s')
    where
      without :
          (s' : Store)
          → Goes os aim
              (length_tail n ++ rest)
              total
              (param_allocated (before c rc ms) (length_head n) none)
              s'
      without s' =
          unfold param_allocated in Goes-error os aim _ (length_tail n ++ rest) total s' refl

      by_answer :
          (r : Option ℕ) (s' : Store)
          → Goes os aim
              (length_tail n ++ rest)
              total
              (param_allocated (before c rc ms) (length_head n) r)
              s'
      by_answer none s' = without s'
      by_answer (some address) s' =
          subst (λ (m : M Parser). Goes os aim (length_tail n ++ rest) total m s')
            (sym (allocated c rc ms (length_head n) address first))
            (first_length_Goes n rc ms c rest total s' small k)

  -- The lengths of a name and a value, from the octet at which the parameter begins.
  pub lengths_Goes :
      (n v rc ms : ℕ) (c : ParserState) (rest : List ℕ) (total : ℕ) (s : Store)
      → n < 2 ^ 31
      → v < 2 ^ 31
      → IsLinked ls ms
      → Reaches os aim
          (here name_data rc
            (add64 (add64 ms (length (length_octets n))) (length (length_octets v)))
            (fresh n v))
          rest
          (total + length (length_octets n) + length (length_octets v))
      → Goes os aim
          (length_tail n ++ (length_octets v ++ rest))
          total
          (start_param os (before c rc ms) (length_head n))
          s
  lengths_Goes n v rc ms c rest total s ns vs first k =
      name_length_Goes n rc ms c (length_octets v ++ rest) total s ns first (
        value_length_Reaches n v rc (add64 ms (length (length_octets n))) rest
          (total + length (length_octets n)) vs k)
