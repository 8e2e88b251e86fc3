-- ===== src/Fcgi/Parser/Total.antt =====
-- sl_fcgi_parser_parse as a whole: it returns, with the parser's buffers kept, or it has met a name of
-- 48 octets, whose message does not fit the formatter's buffer.
use cpp_the_right_way.Base.{ℕ, suc, ◌+◌, ◌^◌, ◌<◌, List, [], ◌∷◌, ◌≡◌, refl, ap, ◌∙◌, take}
use cpp_the_right_way.Arena.{Platform, Store}
use cpp_the_right_way.Run.{Run, ok, failed, fault, Returns, Returns-bind, Returns-map, ◌>>=◌}
use cpp_the_right_way.Fcgi.Parser.State.{Parser}
use cpp_the_right_way.Fcgi.Parser.Stdin.{parse_stdin}
use cpp_the_right_way.Fcgi.Parser.Params.{parse_params}
use cpp_the_right_way.Fcgi.Parser.{
  Verdict, go_on, return_after, return_before, Kind, header_kind, begin_kind, params_kind,
  stdin_kind, ended_kind, parse_begin_request, judge, kind, octet_of_kind, parse_octet, proceed,
  parse_from, parse,
}
use cpp_the_right_way.Fcgi.Parser.Invariant.{IsParser}
use cpp_the_right_way.Fcgi.Parser.Safety.{HasLongName, params_at-IsParser}
use cpp_the_right_way.Fcgi.Parser.Content.{header_at-IsParser, begin_at-IsParser, stdin_at-IsParser}

judge-IsParser :
    (p : Parser) (s : Store) (F : Type 0) → IsParser p → Returns (judge p s) F (λ r. IsParser r.0)
unfolding judge
judge-IsParser p s F v = v

-- An octet read by a parser whose buffers are as its state says.
parse_octet-IsParser :
    (os : Platform) (p : Parser) (octet : ℕ) (s : Store)
    → octet < 2 ^ 8
    → IsParser p
    → Returns (parse_octet os p octet s) (HasLongName p.params) (λ r. IsParser r.0)
unfolding parse_octet octet_of_kind parse_begin_request parse_params parse_stdin
parse_octet-IsParser os p octet s small v = by_kind (kind p.state)
  where
    by_kind :
        (k : Kind)
        → Returns (octet_of_kind os k p octet s) (HasLongName p.params) (λ r. IsParser r.0)
    by_kind header_kind = header_at-IsParser p.state p octet v.content v.buffers
    by_kind begin_kind = begin_at-IsParser p.state p octet v.content v.buffers
    by_kind params_kind =
        Returns-bind (parse_params os p octet) judge s (HasLongName p.params) IsParser
          (λ r. IsParser r.0)
          (params_at-IsParser os octet small p.state p s refl v.content v.buffers)
          (λ q s' w. judge-IsParser q s' (HasLongName p.params) w)
    by_kind stdin_kind =
        Returns-bind (parse_stdin os p octet) judge s (HasLongName p.params) IsParser
          (λ r. IsParser r.0)
          (stdin_at-IsParser os octet (HasLongName p.params) p.state p s refl v.content v.buffers)
          (λ q s' w. judge-IsParser q s' (HasLongName p.params) w)
    by_kind ended_kind = v

abbrev pub AreOctets : List ℕ → Type 0
AreOctets [] = Unit {0}
AreOctets (c ∷ cs) = (c < 2 ^ 8) × AreOctets cs

-- Some of the octets, from the front, lead the parser to a parameter whose name has 48 octets.
pub record MeetsLongName (os : Platform) (p : Parser) (bytes : List ℕ) (total : ℕ) (s : Store)
    : Type 0 where
  pub count : ℕ
  pub parser : Parser
  pub read : ℕ
  pub store : Store
  pub run : parse_from os p (take count bytes) total s ≡ ok (parser, read) store
  pub long : HasLongName parser.params

here :
    (os : Platform) (p : Parser) (bytes : List ℕ) (total : ℕ) (s : Store)
    → HasLongName p.params
    → MeetsLongName os p bytes total s
unfolding parse_from
here os p bytes total s h = record {
  count = 0;
  parser = p;
  read = total;
  store = s;
  run = refl;
  long = h;
}

one_more :
    (os : Platform) (p q : Parser) (octet : ℕ) (rest : List ℕ) (total : ℕ) (s s' : Store)
    → parse_octet os p octet s ≡ ok (q, go_on) s'
    → parse_from os p (octet ∷ rest) total s ≡ parse_from os q rest (total + 1) s'
unfolding parse_from proceed
one_more os p q octet rest total s s' e =
    ap
      (λ (r : Run (Parser × Verdict)).
        ((λ _. r) >>= (λ w. proceed w.1 w.0 total (parse_from os w.0 rest (total + 1)))) s)
      e

later :
    (os : Platform) (p q : Parser) (octet : ℕ) (rest : List ℕ) (total : ℕ) (s s' : Store)
    → parse_octet os p octet s ≡ ok (q, go_on) s'
    → MeetsLongName os q rest (total + 1) s'
    → MeetsLongName os p (octet ∷ rest) total s
later os p q octet rest total s s' e m = record {
  count = suc m.count;
  parser = m.parser;
  read = m.read;
  store = m.store;
  run = one_more os p q octet (take m.count rest) total s s' e ∙ m.run;
  long = m.long;
}

parse_from-IsParser :
    (os : Platform) (p : Parser) (bytes : List ℕ) (total : ℕ) (s : Store)
    → AreOctets bytes
    → IsParser p
    → Returns (parse_from os p bytes total s) (MeetsLongName os p bytes total s) (λ r. IsParser r.0)
unfolding parse_from proceed
parse_from-IsParser os p [] total s octets v = v
parse_from-IsParser os p (octet ∷ rest) total s octets v =
    go (parse_octet os p octet s) refl (parse_octet-IsParser os p octet s octets.0 v)
      (λ q s' w. parse_from-IsParser os q rest (total + 1) s' octets.1 w)
  where
    go :
        (r : Run (Parser × Verdict))
        → parse_octet os p octet s ≡ r
        → Returns r (HasLongName p.params) (λ w. IsParser w.0)
        → ((q : Parser) (s' : Store)
            → IsParser q
            → Returns
                (parse_from os q rest (total + 1) s')
                (MeetsLongName os q rest (total + 1) s')
                (λ w. IsParser w.0))
        → Returns
            (((λ _. r) >>= (λ w. proceed w.1 w.0 total (parse_from os w.0 rest (total + 1)))) s)
            (MeetsLongName os p (octet ∷ rest) total s)
            (λ w. IsParser w.0)
    go (ok (q, go_on) s') e w ih =
        Returns-map (parse_from os q rest (total + 1) s') _ _ _ _ (ih q s' w)
          (later os p q octet rest total s s' e) (λ _ k. k)
    go (ok (q, return_after) s') e w ih = w
    go (ok (q, return_before) s') e w ih = w
    go (failed s') e w ih = w
    go fault e w ih = here os p (octet ∷ rest) total s w

-- A parser whose buffers are as its state says, such as a new one, given any octets: the call
-- returns and keeps the buffers so, whether or not there is memory; an undefined access happens only
-- if the octets, up to some point, announce a parameter whose name has exactly 48 octets.
pub parse-IsParser :
    (os : Platform) (p : Parser) (bytes : List ℕ) (s : Store)
    → AreOctets bytes
    → IsParser p
    → Returns (parse os p bytes s) (MeetsLongName os p bytes 0 s) (λ r. IsParser r.0)
unfolding parse
parse-IsParser os p bytes s octets v = parse_from-IsParser os p bytes 0 s octets v
