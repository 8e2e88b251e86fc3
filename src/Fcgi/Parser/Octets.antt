-- ===== src/Fcgi/Parser/Octets.antt =====
-- The octets of a name or a value in a PARAMS record, from the allocation of the buffer on.
use cpp_the_right_way.Base.{
  ℕ, suc, ◌+◌, ◌^◌, ◌<◌, Option, none, some, List, [], ◌∷◌, ◌++◌, ◌≡◌, refl, sym, ap, ◌∙◌, inr,
  arith, false, ◌==◌, length, take, set, length-set, length-append, take-suc-set, sub64, add64, u32,
}
use mathlib.Core.List.{append_assoc, append-nil}
use mathlib.Core.Path.{subst}
use cpp_the_right_way.Arena.{Platform, Store}
use cpp_the_right_way.Run.{pure, access, attempt, ◌>>=◌, Partly, attempt-Partly, Safe-Partly}
use cpp_the_right_way.Memory.{store_at, store_at_lem}
use cpp_the_right_way.Strings.{allocate_buffer}
use cpp_the_right_way.Strings.Append.{allocate_buffer-Safe}
use cpp_the_right_way.Fcgi.Parser.State.{
  Header, Begin, Stdin, Param, Parser, ParserState, name_data, value_data, last_param, set_last,
}
use cpp_the_right_way.Fcgi.Parser.Params.{
  parse_params, params_at, parse_name, name_by_buffer, name_allocated, name_octet, parse_value,
  value_by_buffer, value_allocated, value_octet,
}
use cpp_the_right_way.Fcgi.Parser.Stores.{Given}
use cpp_the_right_way.Fcgi.Parser.{go_on, params_kind, verdict, kind}
use cpp_the_right_way.Fcgi.Parser.Goal.{
  Aim, Reaches, Reaches-octet, Goes, Goes-Reaches, Reaches-Goes, Goes-then, Goes-error,
}

-- The parser in a parameter: `l` is the last one.
abbrev pub in_param : Header → Begin → Stdin → ParserState → ℕ → ℕ → Param → List Param → Parser
in_param header begin stdin state read_counter message_size l ls = record {
  state = state;
  read_counter = read_counter;
  message_size = message_size;
  header = header;
  begin = begin;
  params = l ∷ ls;
  stdin = stdin;
}

-- `b` holds `octets` in front, and has room for their terminator.
pub record Holds (octets b : List ℕ) : Type 0 where
  pub size : length b ≡ length octets + 1
  pub front : take (length octets) b ≡ octets

stored-front :
    (front : List ℕ) (octet : ℕ) (rest b : List ℕ)
    → length b ≡ length (front ++ octet ∷ rest) + 1
    → take (length front) b ≡ front
    → take (length (front ++ octet ∷ [])) (set b (length front) octet) ≡ front ++ octet ∷ []
stored-front front octet rest b size e =
    let n = length-append front (octet ∷ rest) in
    let m : length (front ++ octet ∷ []) ≡ suc (length front) =
      omega (arith, length-append front (octet ∷ [])) in
    ap (λ k. take k (set b (length front) octet)) m
    ∙ (take-suc-set b (length front) octet (omega (arith, n)) ∙ ap (λ l. l ++ octet ∷ []) e)

module _ (os : Platform) (aim : Aim) (header : Header) (begin : Begin) (stdin : Stdin)
    (ls : List Param) where
  abbrev at_param : ParserState → ℕ → ℕ → Param → Parser
  at_param state read_counter message_size l =
      in_param header begin stdin state read_counter message_size l ls

  -- An octet that is stored, in a name or a value of `n` octets; `param` is the parameter with the
  -- buffer in place.
  abbrev pub Stores : ParserState → ℕ → ℕ → (List ℕ → Param) → Type 0
  Stores c n ms param =
      (b : List ℕ) (octet k : ℕ) (s : Store)
      → parse_params os (at_param c (suc k) ms (param b)) octet s
        ≡ (access (store_at b (sub64 n (suc k)) octet)
              >>= (λ stored. pure (at_param c (sub64 (suc k) 1) ms (param stored))))
            s

  pub name_Stores :
      (n v ms : ℕ)
      → Stores name_data n ms
          (λ b. record { name_length = n; value_length = v; name = some b; value = none })
  unfolding parse_params params_at parse_name name_by_buffer name_octet last_param set_last
  name_Stores n v ms b octet k s = let more : (suc k == 0) ≡ false = ground arith in rw more refl

  pub value_Stores :
      (n v ms : ℕ) (name : List ℕ)
      → Stores value_data v ms
          (λ b. record { name_length = n; value_length = v; name = some name; value = some b })
  unfolding parse_params params_at parse_value value_by_buffer value_octet last_param set_last
  value_Stores n v ms name b octet k s =
      let more : (suc k == 0) ≡ false = ground arith in rw more refl

  -- The octets `cs` of a name or a value, of which `front` is stored already.
  octets_Reaches :
      (c : ParserState) (n ms : ℕ) (param : List ℕ → Param) (front cs b rest : List ℕ) (total : ℕ)
      → kind c ≡ params_kind
      → verdict c ≡ go_on
      → Stores c n ms param
      → n ≡ length (front ++ cs)
      → n < 2 ^ 31
      → length b ≡ n + 1
      → take (length front) b ≡ front
      → ((b' : List ℕ)
          → Holds (front ++ cs) b'
          → Reaches os aim (at_param c 0 ms (param b')) rest (total + length cs))
      → Reaches os aim (at_param c (length cs) ms (param b)) (cs ++ rest) total
  octets_Reaches c n ms param front [] b rest total kc vc stores e small size held k =
      let nothing : total + 0 ≡ total = omega arith in
      rw nothing at (k b (record { size = omega (arith, e); front = rw (append-nil front) held }))
  octets_Reaches c n ms param front (octet ∷ cs) b rest total kc vc stores e small size held k =
      let sum = length-append front (octet ∷ cs) in
      let index : sub64 n (suc (length cs)) ≡ length front = omega (arith, e, sum) in
      let next : sub64 (suc (length cs)) 1 ≡ length cs = omega (arith, e, sum) in
      let stored = store_at_lem b (length front) octet (omega (arith, e, sum)) in
      let both : (front ++ octet ∷ []) ++ cs ≡ front ++ octet ∷ cs =
        append_assoc front (octet ∷ []) cs in
      let b₁ = set b (length front) octet in
      let later : total + 1 + length cs ≡ total + suc (length cs) = omega arith in
      Reaches-octet os aim _ octet (cs ++ rest) total kc (λ s.
        rw (stores b octet (length cs) s, index, stored, next)
          (inr (
            vc,
            octets_Reaches c n ms param (front ++ octet ∷ []) cs b₁ rest (total + 1) kc vc stores
                (e ∙ ap length (sym both)) small
                (omega (arith, size, length-set b (length front) octet))
                (stored-front front octet cs b (omega (arith, e, size)) held)
                (λ b' h. rw later (k b' (subst (λ l. Holds l b') both h))),
          )))

  pub given :
      (size n : ℕ) (s : Store)
      → size ≡ n + 1
      → Partly (attempt (allocate_buffer os size) s) (Given n)
  given size n s e =
      attempt-Partly (allocate_buffer os size) s (λ b. length b ≡ size) (Given n)
        (Safe-Partly (allocate_buffer os size s) (λ b. length b ≡ size)
          (allocate_buffer-Safe os size s))
        tt (λ b same. omega arith)

  -- The buffer of a name or a value is allocated at the first octet behind the lengths or the name.
  pub name_begun :
      (n v rc ms octet : ℕ) (rest : List ℕ) (total : ℕ)
      → n < 2 ^ 31
      → ((b : List ℕ)
          → length b ≡ n + 1
          → Reaches os aim
              (at_param name_data n
                (add64 ms n)
                (record { name_length = n; value_length = v; name = some b; value = none }))
              (octet ∷ rest)
              total)
      → Reaches os aim
          (at_param name_data rc ms
            (record { name_length = n; value_length = v; name = none; value = none }))
          (octet ∷ rest)
          total
  unfolding parse_params params_at parse_name name_by_buffer name_allocated last_param set_last kind
  name_begun n v rc ms octet rest total small k = Goes-Reaches os aim _ octet rest total refl (λ s.
      Goes-then os aim (attempt (allocate_buffer os (u32 (n + 1)))) _ rest total s (Given n)
        (given (u32 (n + 1)) n s (omega arith)) (λ r s' g. by_answer r s' g))
    where
      by_answer :
          (r : Option (List ℕ)) (s' : Store)
          → Given n r
          → Goes os aim rest total
              (name_allocated os
                (at_param name_data rc ms
                  (record { name_length = n; value_length = v; name = none; value = none }))
                (record { name_length = n; value_length = v; name = none; value = none })
                octet
                r)
              s'
      by_answer none s' g = Goes-error os aim _ rest total s' refl
      by_answer (some b) s' g = Reaches-Goes os aim _ octet rest total s' refl (k b g)

  pub value_begun :
      (n v rc ms octet : ℕ) (name rest : List ℕ) (total : ℕ)
      → v < 2 ^ 31
      → ((b : List ℕ)
          → length b ≡ v + 1
          → Reaches os aim
              (at_param value_data v
                (add64 ms v)
                (record { name_length = n; value_length = v; name = some name; value = some b }))
              (octet ∷ rest)
              total)
      → Reaches os aim
          (at_param value_data rc ms
            (record { name_length = n; value_length = v; name = some name; value = none }))
          (octet ∷ rest)
          total
  unfolding parse_params params_at parse_value value_by_buffer value_allocated last_param set_last
      kind
  value_begun n v rc ms octet name rest total small k =
      Goes-Reaches os aim _ octet rest total refl (λ s.
        Goes-then os aim (attempt (allocate_buffer os (u32 (v + 1)))) _ rest total s (Given v)
          (given (u32 (v + 1)) v s (omega arith)) (λ r s' g. by_answer r s' g))
    where
      by_answer :
          (r : Option (List ℕ)) (s' : Store)
          → Given v r
          → Goes os aim rest total
              (value_allocated os
                (at_param value_data rc ms
                  (record { name_length = n; value_length = v; name = some name; value = none }))
                (record { name_length = n; value_length = v; name = some name; value = none })
                octet
                r)
              s'
      by_answer none s' g = Goes-error os aim _ rest total s' refl
      by_answer (some b) s' g = Reaches-Goes os aim _ octet rest total s' refl (k b g)

  -- All octets `cs` from the allocation on, for a state `c` that stores them; `begun` is the parser
  -- before it.
  pub text_Reaches :
      (c : ParserState) (ms : ℕ) (param : List ℕ → Param) (begun : Parser) (cs : List ℕ) (octet : ℕ)
      (rest : List ℕ) (total : ℕ)
      → kind c ≡ params_kind
      → verdict c ≡ go_on
      → Stores c (length cs) ms param
      → length cs < 2 ^ 31
      → ((x : ℕ) (xs : List ℕ)
          → ((b : List ℕ)
              → length b ≡ length cs + 1
              → Reaches os aim (at_param c (length cs) ms (param b)) (x ∷ xs) total)
          → Reaches os aim begun (x ∷ xs) total)
      → ((b : List ℕ)
          → Holds cs b
          → Reaches os aim (at_param c 0 ms (param b)) (octet ∷ rest) (total + length cs))
      → Reaches os aim begun (cs ++ octet ∷ rest) total
  text_Reaches c ms param begun [] octet rest total kc vc stores small first k =
      first octet rest (λ b size.
        octets_Reaches c 0 ms param [] [] b (octet ∷ rest) total kc vc stores refl small size refl
          (λ b' h. k b' h))
  text_Reaches c ms param begun (x ∷ xs) octet rest total kc vc stores small first k =
      first x (xs ++ octet ∷ rest) (λ b size.
        octets_Reaches c (length (x ∷ xs)) ms param [] (x ∷ xs) b (octet ∷ rest) total kc vc stores
          refl small size refl (λ b' h. k b' h))
