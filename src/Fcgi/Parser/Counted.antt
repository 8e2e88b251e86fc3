-- ===== src/Fcgi/Parser/Counted.antt =====
-- sl_fcgi_parser_parse begins at most one parameter for each octet.
use cpp_the_right_way.Base.{
  ℕ, ◌+◌, ◌≤◌, Option, none, some, List, [], ◌∷◌, arith, ◌==◌, ltb, Bool-cases, inl, inr, length,
  sub64,
}
use cpp_the_right_way.Arena.{Platform, Store}
use cpp_the_right_way.Run.{access, attempt, Partly, Partly-bind, Partly-then, Partly-map}
use cpp_the_right_way.Memory.{store_at}
use cpp_the_right_way.Strings.{allocate_buffer, string, init_with_buffer}
use cpp_the_right_way.Fcgi.Parser.State.{
  Parser, ParserState, stdin_data, stdin_padding, log_write_format,
}
use cpp_the_right_way.Fcgi.Parser.Params.{parse_params}
use cpp_the_right_way.Fcgi.Parser.Stdin.{
  pad_stdin, end_stdin, stdin_octet, stdin_started, start_stdin, stdin_by_data, stdin_at,
  parse_stdin, stdin_format,
}
use cpp_the_right_way.Fcgi.Parser.{
  Verdict, go_on, return_after, return_before, Kind, header_kind, begin_kind, params_kind,
  stdin_kind, ended_kind, begin_at, parse_begin_request, end_header, header_at, judge, kind,
  octet_of_kind, parse_octet, proceed, parse_from, parse,
}
use cpp_the_right_way.Fcgi.Parser.Grown.{Grown, params_at-Grown}

module _ (os : Platform) (octet : ℕ) where
  -- The other handlers leave the parameters as they are.
  end_stdin-Grown : (p : Parser) → Grown p (end_stdin p)
  unfolding end_stdin pad_stdin
  end_stdin-Grown p = elim (Bool-cases (ltb 0 p.header.padding_length)) [
    | inl padded ↦ rw padded (omega arith)
    | inr bare ↦ rw bare (omega arith)
  ]

  stdin_octet-Grown :
      (p : Parser) (buffer : List ℕ) (s : Store)
      → Partly (stdin_octet os p buffer octet s) (Grown p)
  unfolding stdin_octet
  stdin_octet-Grown p buffer s = elim (Bool-cases (p.read_counter == 0)) [
    | inr more ↦ rw more (
        Partly-then (access (store_at buffer (sub64 p.stdin.length p.read_counter) octet)) _ s
          (Grown p) (λ stored s'. omega arith))
    | inl last ↦ rw last (
        Partly-then (access (store_at buffer p.stdin.length 0)) _ s (Grown p) (λ ended s₁.
          Partly-then
            (log_write_format os stdin_format
              (string (some (init_with_buffer ended p.stdin.length)) ∷ []))
            _ s₁ (Grown p)
            (λ _ s₂.
              end_stdin-Grown (record p { stdin = record p.stdin { data_bytes = some ended } }))))
  ]

  stdin_at-Grown :
      (c : ParserState) (p : Parser) (s : Store) → Partly (stdin_at c os p octet s) (Grown p)
  unfolding stdin_at stdin_by_data start_stdin stdin_started pad_stdin
  stdin_at-Grown stdin_data p s = by_data p.stdin.data_bytes
    where
      started : (r : Option (List ℕ)) (s' : Store) → Partly (start_stdin os p octet r s') (Grown p)
      started none s' = omega arith
      started (some b) s' = stdin_octet-Grown (stdin_started p b) b s'

      by_data : (o : Option (List ℕ)) → Partly (stdin_by_data os p octet o s) (Grown p)
      by_data (some b) = stdin_octet-Grown p b s
      by_data none =
          Partly-then (attempt (allocate_buffer os (p.header.content_length + 1)))
            (start_stdin os p octet) s (Grown p) started
  stdin_at-Grown stdin_padding p s = omega arith
  stdin_at-Grown _ p s = omega arith

  header_at-Grown : (c : ParserState) (p : Parser) → Grown p (header_at c p octet).0
  unfolding header_at end_header
  header_at-Grown c p = ground arith

  begin_at-Grown : (c : ParserState) (p : Parser) → Grown p (begin_at c p octet)
  unfolding begin_at
  begin_at-Grown c p = ground arith

  octet_of_kind-Grown :
      (k : Kind) (p : Parser) (s : Store) → Partly (octet_of_kind os k p octet s) (λ r. Grown p r.0)
  unfolding octet_of_kind parse_begin_request parse_params parse_stdin judge
  octet_of_kind-Grown header_kind p s = header_at-Grown p.state p
  octet_of_kind-Grown begin_kind p s = begin_at-Grown p.state p
  octet_of_kind-Grown params_kind p s =
      Partly-bind (parse_params os p octet) judge s (Grown p) (λ r. Grown p r.0)
        (params_at-Grown os octet p.state p s) (λ q s' g. g)
  octet_of_kind-Grown stdin_kind p s =
      Partly-bind (parse_stdin os p octet) judge s (Grown p) (λ r. Grown p r.0)
        (stdin_at-Grown p.state p s) (λ q s' g. g)
  octet_of_kind-Grown ended_kind p s = omega arith

-- The parameters that are begun, by the octets that are read; the last one may be left unread.
abbrev pub Counted : Parser → ℕ → Parser × ℕ → Type 0
Counted p total r = length r.0.params + total ≤ length p.params + r.1 + 1

parse_from-Counted :
    (os : Platform) (p : Parser) (bytes : List ℕ) (total : ℕ) (s : Store)
    → Partly (parse_from os p bytes total s) (Counted p total)
unfolding parse_from parse_octet
parse_from-Counted os p [] total s = omega arith
parse_from-Counted os p (octet ∷ rest) total s =
    Partly-bind (parse_octet os p octet)
      (λ r. proceed r.1 r.0 total (parse_from os r.0 rest (total + 1))) s (λ r. Grown p r.0)
      (Counted p total) (octet_of_kind-Grown os octet (kind p.state) p s)
      (λ r s' g. by_verdict r.0 r.1 s' g (parse_from-Counted os r.0 rest (total + 1) s'))
  where
    by_verdict :
        (q : Parser) (c : Verdict) (s' : Store)
        → Grown p q
        → Partly (parse_from os q rest (total + 1) s') (Counted q (total + 1))
        → Partly (proceed c q total (parse_from os q rest (total + 1)) s') (Counted p total)
    by_verdict q go_on s' g ih =
        Partly-map (parse_from os q rest (total + 1) s') _ _ ih (λ r f. omega (arith, f, g))
    by_verdict q return_after s' g ih = omega (arith, g)
    by_verdict q return_before s' g ih = omega (arith, g)

pub parse-Counted :
    (os : Platform) (p : Parser) (bytes : List ℕ) (s : Store)
    → Partly (parse os p bytes s) (Counted p 0)
unfolding parse
parse-Counted os p bytes s = parse_from-Counted os p bytes 0 s
