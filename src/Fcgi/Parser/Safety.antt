-- ===== src/Fcgi/Parser/Safety.antt =====
-- sl_fcgi_parser_parse_params: every state keeps the buffers of the parser.
use cpp_the_right_way.Base.{
  ℕ, ◌^◌, ◌<◌, List, [], ◌∷◌, ◌≡◌, arith, Bool-cases, inl, inr, ◌==◌, u32, bit_and, ◌<<<◌,
}
use cpp_the_right_way.Bits.{bit_and_mask}
use cpp_the_right_way.Arena.{Platform, Store}
use cpp_the_right_way.Run.{Returns, Returns-map, pure, ◌>>=◌, access}
use cpp_the_right_way.Fcgi.Parser.State.{
  ParserState, Param, Parser, name_length_b3, name_length_b2, name_length_b1, name_length_b0,
  value_length_b3, value_length_b2, value_length_b1, value_length_b0, name_data, value_data,
  param_padding, last_param, set_last,
}
use cpp_the_right_way.Fcgi.Parser.Params.{
  change_last, params_at, more_name, more_value, first_value_length, parse_name, parse_value,
}
use cpp_the_right_way.Fcgi.Parser.Invariant.{IsParser, Last, NoStdin, Fresh, Naming, Valuing, In}
use cpp_the_right_way.Fcgi.Parser.Stores.{
  Last-Ends, last-Returns, change_last-Returns, joined-lt, start_param-IsParser,
  pad_params-IsParser,
}
use cpp_the_right_way.Fcgi.Parser.Texts.{parse_value-IsParser, parse_name-IsParser}

-- The length of the last parameter's name is 48.
abbrev pub HasLongName : List Param → Type 0
HasLongName [] = ⊥
HasLongName (l ∷ ls) = l.name_length ≡ 48

long_name : (l : Param) (ps ls : List Param) → ps ≡ l ∷ ls → l.name_length ≡ 48 → HasLongName ps
long_name l ps ls e h = rw e h

-- Before its first octet, a name has no buffer.
begin_name : (q : Parser) → Last Fresh q.params × NoStdin q.stdin → In name_data q
begin_name q b = (go q.params b.0, b.1)
  where
    go : (ps : List Param) → Last Fresh ps → Last (Naming q.read_counter) ps
    go [] h = absurd h
    go (l ∷ ls) h = ((h.0.0, rw h.0.1 tt, h.0.2), h.1)

module _ (os : Platform) (octet : ℕ) (is_octet : octet < 2 ^ 8) where
  first_value-IsParser :
      (p : Parser) (s : Store) (F : Type 0)
      → p.header.content_length < 2 ^ 16
      → Last Fresh p.params
      → NoStdin p.stdin
      → Returns
          ((access (last_param p.params) >>= λ param. pure (first_value_length p octet param)) s)
          F
          IsParser
  unfolding first_value_length set_last
  first_value-IsParser p s F c ps st =
      let e = Last-Ends Fresh p.params ps in
      let v : Fresh e.last = e.holds in
      let few : u32 (bit_and octet 0x7f <<< 24) < 2 ^ 31 = omega (arith, bit_and_mask 7 octet) in
      last-Returns p.params e.earlier e.last (λ param. pure (first_value_length p octet param)) s F
        IsParser e.whole
        (elim (Bool-cases (bit_and octet 0x80 == 0x80)) [
          | inl long ↦
              rw (long, e.whole)
                (record { content = c; buffers = ((((v.0.0, few), v.1, v.2), e.complete), st) })
          | inr short ↦
              rw (short, e.whole)
                (record {
                  content = c;
                  buffers = ((((v.0.0, omega arith), rw v.1 tt, v.2), e.complete), st);
                })
        ])

  -- The later octets of a length, where the state after them asks for no more than this one.
  name_joined-IsParser :
      (p : Parser) (k : ℕ) (next : ParserState) (s : Store)
      → octet <<< k < 2 ^ 31
      → ((q : Parser) → Last Fresh q.params × NoStdin q.stdin → In next q)
      → p.header.content_length < 2 ^ 16
      → Last Fresh p.params × NoStdin p.stdin
      → Returns (change_last p (more_name octet k) next s) (HasLongName p.params) IsParser
  name_joined-IsParser p k next s room into h b =
      change_last-Returns p (more_name octet k) next s (HasLongName p.params) Fresh IsParser b.0
        (λ l ls v ps. record {
          content = h;
          buffers =
              into (record p { params = more_name octet k l ∷ ls; state = next })
                ((((joined-lt l.name_length octet k v.0.0 room, v.0.1), v.1, v.2), ps), b.1);
        })

  value_joined-IsParser :
      (p : Parser) (k : ℕ) (next : ParserState) (s : Store)
      → octet <<< k < 2 ^ 31
      → ((q : Parser) → Last Fresh q.params × NoStdin q.stdin → In next q)
      → p.header.content_length < 2 ^ 16
      → Last Fresh p.params × NoStdin p.stdin
      → Returns (change_last p (more_value octet k) next s) (HasLongName p.params) IsParser
  value_joined-IsParser p k next s room into h b =
      change_last-Returns p (more_value octet k) next s (HasLongName p.params) Fresh IsParser b.0
        (λ l ls v ps. record {
          content = h;
          buffers =
              into (record p { params = more_value octet k l ∷ ls; state = next })
                ((((v.0.0, joined-lt l.value_length octet k v.0.1 room), v.1, v.2), ps), b.1);
        })

  pub params_at-IsParser :
      (c : ParserState) (p : Parser) (s : Store)
      → p.state ≡ c
      → p.header.content_length < 2 ^ 16
      → In c p
      → Returns (params_at c os p octet s) (HasLongName p.params) IsParser
  unfolding params_at
  params_at-IsParser name_length_b3 p s e h b =
      start_param-IsParser os octet is_octet p s (HasLongName p.params) h b.0 b.1
  params_at-IsParser name_length_b2 p s e h b =
      name_joined-IsParser p 16 name_length_b1 s (omega arith) (λ q g. g) h b
  params_at-IsParser name_length_b1 p s e h b =
      name_joined-IsParser p 8 name_length_b0 s (omega arith) (λ q g. g) h b
  params_at-IsParser name_length_b0 p s e h b =
      name_joined-IsParser p 0 value_length_b3 s (omega arith) (λ q g. g) h b
  params_at-IsParser value_length_b3 p s e h b =
      first_value-IsParser p s (HasLongName p.params) h b.0 b.1
  params_at-IsParser value_length_b2 p s e h b =
      value_joined-IsParser p 16 value_length_b1 s (omega arith) (λ q g. g) h b
  params_at-IsParser value_length_b1 p s e h b =
      value_joined-IsParser p 8 value_length_b0 s (omega arith) (λ q g. g) h b
  params_at-IsParser value_length_b0 p s e h b =
      value_joined-IsParser p 0 name_data s (omega arith) begin_name h b
  params_at-IsParser name_data p s e h b =
      let w = Last-Ends (Naming p.read_counter) p.params b.0 in
      Returns-map (parse_name os p octet s) _ _ _ _
        (parse_name-IsParser os octet is_octet p w.last w.earlier s w.whole e h w.holds w.complete
          b.1)
        (long_name w.last p.params w.earlier w.whole) (λ q k. k)
  params_at-IsParser value_data p s e h b =
      let w = Last-Ends (Valuing p.read_counter) p.params b.0 in
      Returns-map (parse_value os p octet s) _ _ _ _
        (parse_value-IsParser os octet is_octet p w.last w.earlier s w.whole e h w.holds w.complete
          b.1)
        (long_name w.last p.params w.earlier w.whole) (λ q k. k)
  params_at-IsParser param_padding p s e h b = pad_params-IsParser os octet is_octet p e h b.0 b.1
  params_at-IsParser _ p s e h b = record { content = h; buffers = tt }
