-- ===== src/Fcgi/Parser/Grown.antt =====
-- sl_fcgi_parser_parse_params begins at most one parameter for an octet.
use cpp_the_right_way.Base.{
  ℕ, ◌+◌, ◌≤◌, Option, none, some, List, [], ◌∷◌, ◌≡◌, refl, arith, ◌==◌, Bool-cases, inl, inr,
  length, sub64, add64, bit_and, u32,
}
use cpp_the_right_way.Arena.{Platform, Store}
use cpp_the_right_way.Run.{access, attempt, allocate_or_fail, Partly, Partly-then, Partly-map}
use cpp_the_right_way.Memory.{store_at}
use cpp_the_right_way.Strings.{allocate_buffer, string, init_with_buffer}
use cpp_the_right_way.Fcgi.Parser.State.{
  Param, Parser, ParserState, name_length_b3, name_length_b2, name_length_b1, name_length_b0,
  value_length_b3, value_length_b2, value_length_b1, value_length_b0, name_data, value_data,
  param_padding, last_param, set_last, in_state, log_write_format,
}
use cpp_the_right_way.Fcgi.Parser.Params.{
  sizeof_param, link_param, first_name_length, first_value_length, param_allocated, start_param,
  pad_params, end_value, value_octet, value_allocated, value_by_buffer, parse_value, name_octet,
  name_allocated, name_by_buffer, parse_name, change_last, params_at, param_format,
}

-- The parser has at most one parameter more than `p`.
abbrev pub Grown : Parser → Parser → Type 0
Grown p q = length q.params ≤ length p.params + 1

length-set_last : (ps : List Param) (l : Param) → length (set_last ps l) ≡ length ps
unfolding set_last
length-set_last [] l = refl
length-set_last (x ∷ ps) l = refl

module _ (os : Platform) (octet : ℕ) where
  start_param-Grown : (p : Parser) (s : Store) → Partly (start_param os p octet s) (Grown p)
  unfolding start_param param_allocated link_param last_param first_name_length set_last
  start_param-Grown p s =
      Partly-then (attempt (allocate_or_fail os sizeof_param)) (param_allocated p octet) s (Grown p)
        by_answer
    where
      by_answer : (r : Option ℕ) (s' : Store) → Partly (param_allocated p octet r s') (Grown p)
      by_answer none s' = omega arith
      by_answer (some address) s' = elim (Bool-cases (bit_and octet 0x80 == 0x80)) [
        | inl long ↦ rw long (omega arith)
        | inr short ↦ rw short (omega arith)
      ]

  end_value-Grown : (p : Parser) (s : Store) → Partly (end_value os p octet s) (Grown p)
  unfolding end_value pad_params
  end_value-Grown p s = elim (Bool-cases (p.message_size == p.header.content_length)) [
    | inr more ↦ rw more (start_param-Grown (in_state p name_length_b3) s)
    | inl whole ↦ elim (Bool-cases (p.header.padding_length == 0)) [
      | inl bare ↦ rw (whole, bare) (omega arith)
      | inr padded ↦ rw (whole, padded) (omega arith)
    ]
  ]

  value_octet-Grown :
      (p : Parser) (l : Param) (buffer : List ℕ) (s : Store)
      → Partly (value_octet os p l buffer octet s) (Grown p)
  unfolding value_octet
  value_octet-Grown p l buffer s = elim (Bool-cases (p.read_counter == 0)) [
    | inr more ↦ rw more (
        Partly-then (access (store_at buffer (sub64 l.value_length p.read_counter) octet)) _ s
          (Grown p)
          (λ stored s'. omega (arith, length-set_last p.params (record l { value = some stored }))))
    | inl last ↦ rw last (
        Partly-then (access (store_at buffer l.value_length 0)) _ s (Grown p) (λ ended s₁.
          Partly-then (access l.name) _ s₁ (Grown p) (λ name s₂.
            Partly-then
              (log_write_format os param_format (
                string (some (init_with_buffer name l.name_length))
                ∷ string (some (init_with_buffer ended l.value_length))
                ∷ []))
              _ s₂ (Grown p)
              (λ _ s₃.
                let q = record p { params = set_last p.params (record l { value = some ended }) } in
                let same = length-set_last p.params (record l { value = some ended }) in
                Partly-map (end_value os q octet s₃) (Grown q) (Grown p) (end_value-Grown q s₃)
                  (λ r g. omega (arith, same, g))))))
  ]

  parse_value-Grown : (p : Parser) (s : Store) → Partly (parse_value os p octet s) (Grown p)
  unfolding parse_value value_by_buffer value_allocated
  parse_value-Grown p s =
      Partly-then (access (last_param p.params)) (λ l. value_by_buffer os p l octet l.value) s
        (Grown p) (λ l s'. by_buffer l l.value s')
    where
      allocated :
          (l : Param) (r : Option (List ℕ)) (s' : Store)
          → Partly (value_allocated os p l octet r s') (Grown p)
      allocated l none s' = omega arith
      allocated l (some b) s' =
          let l' = record l { value = some b } in
          let q = record p {
            params = set_last p.params l';
            read_counter = l.value_length;
            message_size = add64 p.message_size l.value_length;
          } in
          Partly-map (value_octet os q l' b octet s') (Grown q) (Grown p)
            (value_octet-Grown q l' b s') (λ r g. omega (arith, length-set_last p.params l', g))

      by_buffer :
          (l : Param) (o : Option (List ℕ)) (s' : Store)
          → Partly (value_by_buffer os p l octet o s') (Grown p)
      by_buffer l (some b) s' = value_octet-Grown p l b s'
      by_buffer l none s' =
          Partly-then (attempt (allocate_buffer os (u32 (l.value_length + 1))))
            (value_allocated os p l octet) s' (Grown p) (allocated l)

  name_octet-Grown :
      (p : Parser) (l : Param) (buffer : List ℕ) (s : Store)
      → Partly (name_octet os p l buffer octet s) (Grown p)
  unfolding name_octet
  name_octet-Grown p l buffer s = elim (Bool-cases (p.read_counter == 0)) [
    | inr more ↦ rw more (
        Partly-then (access (store_at buffer (sub64 l.name_length p.read_counter) octet)) _ s
          (Grown p)
          (λ stored s'. omega (arith, length-set_last p.params (record l { name = some stored }))))
    | inl last ↦ rw last (
        Partly-then (access (store_at buffer l.name_length 0)) _ s (Grown p) (λ ended s₁.
          let l' = record l { name = some ended } in
          let q = record p { params = set_last p.params l'; state = value_data } in
          Partly-map (parse_value os q octet s₁) (Grown q) (Grown p) (parse_value-Grown q s₁)
            (λ r g. omega (arith, length-set_last p.params l', g))))
  ]

  parse_name-Grown : (p : Parser) (s : Store) → Partly (parse_name os p octet s) (Grown p)
  unfolding parse_name name_by_buffer name_allocated
  parse_name-Grown p s =
      Partly-then (access (last_param p.params)) (λ l. name_by_buffer os p l octet l.name) s
        (Grown p) (λ l s'. by_buffer l l.name s')
    where
      allocated :
          (l : Param) (r : Option (List ℕ)) (s' : Store)
          → Partly (name_allocated os p l octet r s') (Grown p)
      allocated l none s' = omega arith
      allocated l (some b) s' =
          let l' = record l { name = some b } in
          let q = record p {
            params = set_last p.params l';
            read_counter = l.name_length;
            message_size = add64 p.message_size l.name_length;
          } in
          Partly-map (name_octet os q l' b octet s') (Grown q) (Grown p)
            (name_octet-Grown q l' b s') (λ r g. omega (arith, length-set_last p.params l', g))

      by_buffer :
          (l : Param) (o : Option (List ℕ)) (s' : Store)
          → Partly (name_by_buffer os p l octet o s') (Grown p)
      by_buffer l (some b) s' = name_octet-Grown p l b s'
      by_buffer l none s' =
          Partly-then (attempt (allocate_buffer os (u32 (l.name_length + 1))))
            (name_allocated os p l octet) s' (Grown p) (allocated l)

  change_last-Grown :
      (p : Parser) (f : Param → Param) (next : ParserState) (s : Store)
      → Partly (change_last p f next s) (Grown p)
  unfolding change_last
  change_last-Grown p f next s =
      Partly-then (access (last_param p.params)) _ s (Grown p)
        (λ l s'. omega (arith, length-set_last p.params (f l)))

  pub params_at-Grown :
      (c : ParserState) (p : Parser) (s : Store) → Partly (params_at c os p octet s) (Grown p)
  unfolding params_at first_value_length pad_params
  params_at-Grown name_length_b3 p s = start_param-Grown p s
  params_at-Grown name_length_b2 p s = change_last-Grown p _ name_length_b1 s
  params_at-Grown name_length_b1 p s = change_last-Grown p _ name_length_b0 s
  params_at-Grown name_length_b0 p s = change_last-Grown p _ value_length_b3 s
  params_at-Grown value_length_b3 p s =
      Partly-then (access (last_param p.params)) _ s (Grown p) (λ l s'.
        elim (Bool-cases (bit_and octet 0x80 == 0x80)) [
          | inl long ↦ rw long (omega (arith, length-set_last p.params _))
          | inr short ↦ rw short (omega (arith, length-set_last p.params _))
        ])
  params_at-Grown value_length_b2 p s = change_last-Grown p _ value_length_b1 s
  params_at-Grown value_length_b1 p s = change_last-Grown p _ value_length_b0 s
  params_at-Grown value_length_b0 p s = change_last-Grown p _ name_data s
  params_at-Grown name_data p s = parse_name-Grown p s
  params_at-Grown value_data p s = parse_value-Grown p s
  params_at-Grown param_padding p s = omega arith
  params_at-Grown _ p s = omega arith
