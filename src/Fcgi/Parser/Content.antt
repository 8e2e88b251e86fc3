-- ===== src/Fcgi/Parser/Content.antt =====
-- The parser's buffers in the states of the header, of a begin record and of STDIN's content.
use cpp_the_right_way.Base.{
  ℕ, ◌+◌, ◌^◌, ◌<◌, ◌≤◌, Option, none, some, List, [], ◌∷◌, ◌≡◌, refl, arith, length, Bool-cases,
  inl, inr, ◌==◌, ltb, sub64,
}
use cpp_the_right_way.Arena.{Platform, Store}
use cpp_the_right_way.Run.{Returns, Returns-bind, pure, ◌>>◌, attempt}
use cpp_the_right_way.Strings.{allocate_buffer, init_with_buffer, Argument, string}
use cpp_the_right_way.Fcgi.Parser.State.{
  ParserState, Parser, version, type, request_id_b1, request_id_b0, content_length_b1,
  content_length_b0, padding_length, padding_reserved, begin_role_b1, begin_role_b0, begin_flags,
  begin_skip5, begin_skip4, begin_skip3, begin_skip2, begin_skip1, stdin_data, stdin_padding,
  log_write_format,
}
use cpp_the_right_way.Fcgi.Parser.Stdin.{
  pad_stdin, end_stdin, stdin_octet, start_stdin, stdin_started, stdin_by_data, stdin_at,
  stdin_format,
}
use cpp_the_right_way.Fcgi.Parser.{dispatch_type, begin_at, end_header, header_at, with_header}
use cpp_the_right_way.Fcgi.Parser.Logged.{stdin-Returns}
use cpp_the_right_way.Fcgi.Parser.Invariant.{IsParser, AllComplete, NoStdin, StdinDone, Filling, In}
use cpp_the_right_way.Fcgi.Parser.Stores.{store-Returns, Given, allocate_buffer-Given}

dispatch-In : (t : ℕ) (q : Parser) → AllComplete q.params → NoStdin q.stdin → In (dispatch_type t) q
unfolding dispatch_type
dispatch-In t q ps st = elim (Bool-cases (t == 1)) [
  | inl begins ↦ rw begins (ps, st)
  | inr e1 ↦ elim (Bool-cases (t == 4)) [
    | inl params ↦ rw (e1, params) (ps, st)
    | inr e4 ↦ elim (Bool-cases (t == 5)) [
      | inl content ↦ rw (e1, e4, content) (ps, (rw st.1 (omega arith), rw st.0 tt))
      | inr e5 ↦ rw (e1, e4, e5) tt
    ]
  ]
]

end_header-IsParser :
    (p : Parser) (octet : ℕ)
    → p.header.content_length < 2 ^ 16
    → AllComplete p.params
    → NoStdin p.stdin
    → IsParser (end_header p octet).0
unfolding end_header
end_header-IsParser p octet c ps st = elim (Bool-cases (p.header.content_length == 0)) [
  | inl empty ↦ rw empty (record { content = c; buffers = (ps, inl st) })
  | inr more ↦ rw more (record {
    content = c;
    buffers =
        dispatch-In p.header.type
          (with_header p (record p.header { reserved = octet }) (dispatch_type p.header.type)) ps
          st;
  })
]

pub header_at-IsParser :
    (c : ParserState) (p : Parser) (octet : ℕ)
    → p.header.content_length < 2 ^ 16
    → In c p
    → IsParser (header_at c p octet).0
unfolding header_at
header_at-IsParser version p octet h b = record { content = h; buffers = b }
header_at-IsParser type p octet h b = record { content = h; buffers = b }
header_at-IsParser request_id_b1 p octet h b = record { content = h; buffers = b }
header_at-IsParser request_id_b0 p octet h b = record { content = h; buffers = b }
header_at-IsParser content_length_b1 p octet h b = record { content = omega arith; buffers = b }
header_at-IsParser content_length_b0 p octet h b = record { content = omega arith; buffers = b }
header_at-IsParser padding_length p octet h b = record { content = h; buffers = b }
header_at-IsParser padding_reserved p octet h b = end_header-IsParser p octet h b.0 b.1
header_at-IsParser _ p octet h b = record { content = h; buffers = tt }

pub begin_at-IsParser :
    (c : ParserState) (p : Parser) (octet : ℕ)
    → p.header.content_length < 2 ^ 16
    → In c p
    → IsParser (begin_at c p octet)
unfolding begin_at
begin_at-IsParser begin_role_b1 p octet h b = record { content = h; buffers = b }
begin_at-IsParser begin_role_b0 p octet h b = record { content = h; buffers = b }
begin_at-IsParser begin_flags p octet h b = record { content = h; buffers = b }
begin_at-IsParser begin_skip5 p octet h b = record { content = h; buffers = b }
begin_at-IsParser begin_skip4 p octet h b = record { content = h; buffers = b }
begin_at-IsParser begin_skip3 p octet h b = record { content = h; buffers = b }
begin_at-IsParser begin_skip2 p octet h b = record { content = h; buffers = b }
begin_at-IsParser begin_skip1 p octet h b = record { content = h; buffers = (b.0, inl b.1) }
begin_at-IsParser _ p octet h b = record { content = h; buffers = tt }

pad_stdin-IsParser :
    (p : Parser)
    → p.state ≡ stdin_padding
    → p.header.content_length < 2 ^ 16
    → AllComplete p.params
    → StdinDone p.stdin
    → IsParser (pad_stdin p)
unfolding pad_stdin
pad_stdin-IsParser p e c ps st = elim (Bool-cases (p.read_counter == 0)) [
  | inl last ↦ rw last (record { content = c; buffers = (ps, st) })
  | inr more ↦ rw (more, e) (record { content = c; buffers = (ps, st) })
]

end_stdin-IsParser :
    (p : Parser)
    → p.header.content_length < 2 ^ 16
    → AllComplete p.params
    → StdinDone p.stdin
    → IsParser (end_stdin p)
unfolding end_stdin
end_stdin-IsParser p c ps st = elim (Bool-cases (ltb 0 p.header.padding_length)) [
  | inl padded ↦ rw padded (
      pad_stdin-IsParser
        (record p { read_counter = p.header.padding_length; state = stdin_padding }) refl c ps st)
  | inr bare ↦ rw bare (record { content = c; buffers = tt })
]

module _ (os : Platform) (octet : ℕ) (F : Type 0) where
  stdin_octet-IsParser :
      (p : Parser) (buffer : List ℕ) (s : Store)
      → p.state ≡ stdin_data
      → p.header.content_length < 2 ^ 16
      → AllComplete p.params
      → p.stdin.length < 2 ^ 16
      → length buffer ≡ p.stdin.length + 1
      → p.read_counter ≤ p.stdin.length
      → Returns (stdin_octet os p buffer octet s) F IsParser
  unfolding stdin_octet
  stdin_octet-IsParser p buffer s state c ps small size room =
      elim (Bool-cases (p.read_counter == 0)) [
        | inr more ↦
            rw (more, state)
              (store-Returns buffer (sub64 p.stdin.length p.read_counter) octet
                (λ stored. pure (record p {
                  stdin = record p.stdin { data_bytes = some stored };
                  state = stdin_data;
                  read_counter = sub64 p.read_counter 1;
                }))
                s F IsParser (omega (arith, size))
                (λ b same. record {
                  content = c;
                  buffers = (ps, (small, (omega (arith, same), ground arith)));
                }))
        | inl last ↦ rw last (
            store-Returns buffer p.stdin.length 0
              (λ ended.
                log_write_format os stdin_format (texts ended) >> pure (end_stdin (done ended)))
              s F IsParser (omega (arith, size))
              (λ ended same.
                Returns-bind (log_write_format os stdin_format (texts ended))
                  (λ _. pure (end_stdin (done ended))) s F (λ _. Unit {0}) IsParser
                  (stdin-Returns os ended p.stdin.length s F (omega (arith, same)) (omega arith))
                  (λ _ s' _.
                    end_stdin-IsParser (done ended) c ps (inr (small, omega (arith, same))))))
      ]
    where
      texts : List ℕ → List Argument
      texts ended = string (some (init_with_buffer ended p.stdin.length)) ∷ []

      done : List ℕ → Parser
      done ended = record p { stdin = record p.stdin { data_bytes = some ended } }

  stdin_data-IsParser :
      (p : Parser) (data_bytes : Option (List ℕ)) (s : Store)
      → p.state ≡ stdin_data
      → p.header.content_length < 2 ^ 16
      → AllComplete p.params
      → p.stdin.length < 2 ^ 16
      → Filling p.stdin.length p.read_counter data_bytes
      → Returns (stdin_by_data os p octet data_bytes s) F IsParser
  unfolding stdin_by_data start_stdin stdin_started
  stdin_data-IsParser p (some b) s state c ps small h =
      stdin_octet-IsParser p b s state c ps small h.0 h.1
  stdin_data-IsParser p none s state c ps small h =
      Returns-bind (attempt (allocate_buffer os (p.header.content_length + 1)))
        (start_stdin os p octet) s F (Given p.header.content_length) IsParser
        (allocate_buffer-Given os (p.header.content_length + 1) p.header.content_length s F refl)
        started
    where
      started :
          (r : Option (List ℕ)) (s' : Store)
          → Given p.header.content_length r
          → Returns (start_stdin os p octet r s') F IsParser
      started none s' g = record { content = c; buffers = tt }
      started (some b) s' g =
          stdin_octet-IsParser (stdin_started p b) b s' state c ps c g (omega arith)

  pub stdin_at-IsParser :
      (c : ParserState) (p : Parser) (s : Store)
      → p.state ≡ c
      → p.header.content_length < 2 ^ 16
      → In c p
      → Returns (stdin_at c os p octet s) F IsParser
  unfolding stdin_at
  stdin_at-IsParser stdin_data p s e h b =
      stdin_data-IsParser p p.stdin.data_bytes s e h b.0 b.1.0 b.1.1
  stdin_at-IsParser stdin_padding p s e h b = pad_stdin-IsParser p e h b.0 b.1
  stdin_at-IsParser _ p s e h b = record { content = h; buffers = tt }
