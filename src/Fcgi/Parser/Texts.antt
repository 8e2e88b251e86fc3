-- ===== src/Fcgi/Parser/Texts.antt =====
-- NAME_DATA and VALUE_DATA of sl_fcgi_parser_parse_params: the octets are stored in bounds, and the
-- message at the end of a value is the only access that can fail.
use cpp_the_right_way.Base.{
  ℕ, ◌+◌, ◌^◌, ◌<◌, ◌≤◌, Option, none, some, List, [], ◌∷◌, ◌≡◌, refl, arith, length, Bool-cases,
  inl, inr, ◌==◌, sub64, add64, u32,
}
use cpp_the_right_way.Arena.{Platform, Store}
use cpp_the_right_way.Run.{M, Returns, Returns-bind, access, attempt, pure, ◌>>=◌, ◌>>◌}
use cpp_the_right_way.Strings.{allocate_buffer, init_with_buffer, Argument, string}
use cpp_the_right_way.Fcgi.Parser.State.{
  Param, Parser, name_data, value_data, set_last, log_write_format,
}
use cpp_the_right_way.Fcgi.Parser.Params.{
  end_value, value_octet, value_allocated, value_by_buffer, parse_value, name_octet, name_allocated,
  name_by_buffer, parse_name, param_format,
}
use cpp_the_right_way.Fcgi.Parser.Logged.{param-Returns}
use cpp_the_right_way.Fcgi.Parser.Invariant.{
  IsParser, AllComplete, NoStdin, Short, Full, Filling, Naming, Valuing,
}
use cpp_the_right_way.Fcgi.Parser.Stores.{
  store-Returns, full-Returns, last-Returns, Given, allocate_buffer-Given, end_value-IsParser,
}

module _ (os : Platform) (octet : ℕ) (is_octet : octet < 2 ^ 8) where
  -- VALUE_DATA with the last parameter `l` and the earlier ones `ls`
  value_octet-IsParser :
      (p : Parser) (l : Param) (ls : List Param) (buffer : List ℕ) (s : Store)
      → p.params ≡ l ∷ ls
      → p.state ≡ value_data
      → p.header.content_length < 2 ^ 16
      → Short l
      → Full l.name_length l.name
      → length buffer ≡ l.value_length + 1
      → p.read_counter ≤ l.value_length
      → AllComplete ls
      → NoStdin p.stdin
      → Returns (value_octet os p l buffer octet s) (l.name_length ≡ 48) IsParser
  unfolding value_octet set_last
  value_octet-IsParser p l ls buffer s e state c short named size room ps st =
      elim (Bool-cases (p.read_counter == 0)) [
        | inr more ↦
            rw (more, e, state)
              (store-Returns buffer (sub64 l.value_length p.read_counter) octet
                (λ stored. pure (record p {
                  params = record l { value = some stored } ∷ ls;
                  state = value_data;
                  read_counter = sub64 p.read_counter 1;
                }))
                s (l.name_length ≡ 48) IsParser (omega (arith, size, short.1))
                (λ b same. record {
                  content = c;
                  buffers = (((short, named, (omega (arith, same), ground arith)), ps), st);
                }))
        | inl last ↦
            rw (last, e)
              (store-Returns buffer l.value_length 0
                (λ ended. access l.name >>= λ name. after name ended) s (l.name_length ≡ 48)
                IsParser (omega (arith, size))
                (λ ended same.
                  full-Returns l.name_length l.name (λ name. after name ended) s
                    (l.name_length ≡ 48) IsParser named
                    (λ name en.
                      Returns-bind (log_write_format os param_format (texts name ended))
                        (λ _. end_value os (ended_at ended) octet) s (l.name_length ≡ 48)
                        (λ _. Unit {0}) IsParser
                        (param-Returns os name ended l.name_length l.value_length s en
                          (omega (arith, same)) short.0 short.1)
                        (λ _ s' _.
                          end_value-IsParser os octet is_octet (ended_at ended) s'
                            (l.name_length ≡ 48) c ((short, named, omega (arith, same)), ps) st))))
      ]
    where
      texts : List ℕ → List ℕ → List Argument
      texts name ended =
          string (some (init_with_buffer name l.name_length))
          ∷ string (some (init_with_buffer ended l.value_length))
          ∷ []

      ended_at : List ℕ → Parser
      ended_at ended = record p { params = record l { value = some ended } ∷ ls }

      after : List ℕ → List ℕ → M Parser
      after name ended =
          log_write_format os param_format (texts name ended) >> end_value os (ended_at ended) octet

  -- VALUE_DATA, and the end of the name, which goes on in the same octet.
  pub parse_value-IsParser :
      (p : Parser) (l : Param) (ls : List Param) (s : Store)
      → p.params ≡ l ∷ ls
      → p.state ≡ value_data
      → p.header.content_length < 2 ^ 16
      → Valuing p.read_counter l
      → AllComplete ls
      → NoStdin p.stdin
      → Returns (parse_value os p octet s) (l.name_length ≡ 48) IsParser
  unfolding parse_value value_by_buffer value_allocated set_last
  parse_value-IsParser p l ls s e state c v ps st =
      last-Returns p.params ls l (λ param. value_by_buffer os p param octet param.value) s
        (l.name_length ≡ 48) IsParser e (by_buffer l.value v.2)
    where
      started : List ℕ → Parser
      started b = record p {
        params = record l { value = some b } ∷ ls;
        read_counter = l.value_length;
        message_size = add64 p.message_size l.value_length;
      }

      allocated :
          (r : Option (List ℕ)) (s' : Store)
          → Given l.value_length r
          → Returns (value_allocated os p l octet r s') (l.name_length ≡ 48) IsParser
      allocated none s' h = record { content = c; buffers = tt }
      allocated (some b) s' h = rw e (
          value_octet-IsParser (started b) (record l { value = some b }) ls b s' refl state c v.0
            v.1 h (omega arith) ps st)

      by_buffer :
          (o : Option (List ℕ))
          → Filling l.value_length p.read_counter o
          → Returns (value_by_buffer os p l octet o s) (l.name_length ≡ 48) IsParser
      by_buffer none h =
          Returns-bind (attempt (allocate_buffer os (u32 (l.value_length + 1))))
            (value_allocated os p l octet) s (l.name_length ≡ 48) (Given l.value_length) IsParser
            (allocate_buffer-Given os (u32 (l.value_length + 1)) l.value_length s
              (l.name_length ≡ 48) (omega (arith, v.0.1)))
            allocated
      by_buffer (some b) h = value_octet-IsParser p l ls b s e state c v.0 v.1 h.0 h.1 ps st

  name_octet-IsParser :
      (p : Parser) (l : Param) (ls : List Param) (buffer : List ℕ) (s : Store)
      → p.params ≡ l ∷ ls
      → p.state ≡ name_data
      → p.header.content_length < 2 ^ 16
      → Short l
      → length buffer ≡ l.name_length + 1
      → p.read_counter ≤ l.name_length
      → l.value ≡ none
      → AllComplete ls
      → NoStdin p.stdin
      → Returns (name_octet os p l buffer octet s) (l.name_length ≡ 48) IsParser
  unfolding name_octet set_last
  name_octet-IsParser p l ls buffer s e state c short size room fresh ps st =
      elim (Bool-cases (p.read_counter == 0)) [
        | inr more ↦
            rw (more, e, state)
              (store-Returns buffer (sub64 l.name_length p.read_counter) octet
                (λ stored. pure (record p {
                  params = record l { name = some stored } ∷ ls;
                  state = name_data;
                  read_counter = sub64 p.read_counter 1;
                }))
                s (l.name_length ≡ 48) IsParser (omega (arith, size, short.0))
                (λ b same. record {
                  content = c;
                  buffers = (((short, (omega (arith, same), ground arith), fresh), ps), st);
                }))
        | inl last ↦
            rw (last, e)
              (store-Returns buffer l.name_length 0 (λ ended. parse_value os (named ended) octet) s
                (l.name_length ≡ 48) IsParser (omega (arith, size))
                (λ b same.
                  parse_value-IsParser (named b) (record l { name = some b }) ls s refl refl c
                    (short, omega (arith, same), rw fresh tt) ps st))
      ]
    where
      named : List ℕ → Parser
      named ended = record p { params = record l { name = some ended } ∷ ls; state = value_data }

  -- NAME_DATA
  pub parse_name-IsParser :
      (p : Parser) (l : Param) (ls : List Param) (s : Store)
      → p.params ≡ l ∷ ls
      → p.state ≡ name_data
      → p.header.content_length < 2 ^ 16
      → Naming p.read_counter l
      → AllComplete ls
      → NoStdin p.stdin
      → Returns (parse_name os p octet s) (l.name_length ≡ 48) IsParser
  unfolding parse_name name_by_buffer name_allocated set_last
  parse_name-IsParser p l ls s e state c v ps st =
      last-Returns p.params ls l (λ param. name_by_buffer os p param octet param.name) s
        (l.name_length ≡ 48) IsParser e (by_buffer l.name v.1)
    where
      started : List ℕ → Parser
      started b = record p {
        params = record l { name = some b } ∷ ls;
        read_counter = l.name_length;
        message_size = add64 p.message_size l.name_length;
      }

      allocated :
          (r : Option (List ℕ)) (s' : Store)
          → Given l.name_length r
          → Returns (name_allocated os p l octet r s') (l.name_length ≡ 48) IsParser
      allocated none s' h = record { content = c; buffers = tt }
      allocated (some b) s' h = rw e (
          name_octet-IsParser (started b) (record l { name = some b }) ls b s' refl state c v.0 h
            (omega arith) v.2 ps st)

      by_buffer :
          (o : Option (List ℕ))
          → Filling l.name_length p.read_counter o
          → Returns (name_by_buffer os p l octet o s) (l.name_length ≡ 48) IsParser
      by_buffer none h =
          Returns-bind (attempt (allocate_buffer os (u32 (l.name_length + 1))))
            (name_allocated os p l octet) s (l.name_length ≡ 48) (Given l.name_length) IsParser
            (allocate_buffer-Given os (u32 (l.name_length + 1)) l.name_length s (l.name_length ≡ 48)
              (omega (arith, v.0.0)))
            allocated
      by_buffer (some b) h = name_octet-IsParser p l ls b s e state c v.0 h.0 h.1 v.2 ps st
