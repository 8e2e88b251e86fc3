-- ===== src/Fcgi/Parser/Progress.antt =====
-- sl_fcgi_parser_parse: how many octets a call reads, on which the loop of main.c depends.
use mathlib.Core.Path.{subst}
use cpp_the_right_way.Base.{
  ℕ, ◌+◌, ◌≤◌, ◌<◌, List, [], ◌∷◌, ◌≡◌, refl, ◌⊎◌, inl, inr, arith, length,
}
use cpp_the_right_way.Arena.{Platform, Store}
use cpp_the_right_way.Run.{Run, ok, Partly, Partly-bind, Partly-then, Partly-map}
use cpp_the_right_way.Fcgi.Parser.State.{Parser, ParserState, finished, error}
use cpp_the_right_way.Fcgi.Parser.{
  Verdict, go_on, return_after, return_before, Kind, header_kind, begin_kind, params_kind,
  stdin_kind, ended_kind, end_header, header_at, verdict, judge, kind, octet_of_kind, parse_octet,
  proceed, parse_from, parse,
}
use cpp_the_right_way.Fcgi.Parser.Params.{parse_params}
use cpp_the_right_way.Fcgi.Parser.Stdin.{parse_stdin}

abbrev pub IsStopped : ParserState → Type 0
IsStopped c = (c ≡ finished) ⊎ (c ≡ error)

-- A verdict to return is given in one of the two final states only.
abbrev Stops : Parser → Verdict → Type 0
Stops p go_on = Unit {0}
Stops p return_after = IsStopped p.state
Stops p return_before = IsStopped p.state

ended_kind-IsStopped : (c : ParserState) → kind c ≡ ended_kind → IsStopped c
unfolding kind
ended_kind-IsStopped c h = ground arith

header_at-Stops :
    (c : ParserState) (p : Parser) (octet : ℕ)
    → Stops (header_at c p octet).0 (header_at c p octet).1
unfolding header_at end_header
header_at-Stops c p octet = ground arith

verdict-Stops : (p : Parser) (c : ParserState) → p.state ≡ c → Stops p (verdict c)
unfolding verdict
verdict-Stops p c e = ground arith

judge-Stops : (p : Parser) (s : Store) → Partly (judge p s) (λ r. Stops r.0 r.1)
unfolding judge
judge-Stops p s = verdict-Stops p p.state refl

octet_of_kind-Stops :
    (os : Platform) (k : Kind) (p : Parser) (octet : ℕ) (s : Store)
    → kind p.state ≡ k
    → Partly (octet_of_kind os k p octet s) (λ r. Stops r.0 r.1)
unfolding octet_of_kind
octet_of_kind-Stops os header_kind p octet s e = header_at-Stops p.state p octet
octet_of_kind-Stops os begin_kind p octet s e = tt
octet_of_kind-Stops os params_kind p octet s e =
    Partly-then (parse_params os p octet) judge s (λ r. Stops r.0 r.1) judge-Stops
octet_of_kind-Stops os stdin_kind p octet s e =
    Partly-then (parse_stdin os p octet) judge s (λ r. Stops r.0 r.1) judge-Stops
octet_of_kind-Stops os ended_kind p octet s e = ended_kind-IsStopped p.state e

-- `n` octets are read in all, the first `total` of them before the last `more` are looked at.
pub record Progress (total more : ℕ) (p : Parser) (n : ℕ) : Type 0 where
  pub least : total ≤ n
  pub most : n ≤ total + more
  pub stopped : (n ≡ total + more) ⊎ IsStopped p.state

pub parse_from-Progress :
    (os : Platform) (p : Parser) (bytes : List ℕ) (total : ℕ) (s : Store)
    → Partly (parse_from os p bytes total s) (λ r. Progress total (length bytes) r.0 r.1)
unfolding parse_from parse_octet
parse_from-Progress os p [] total s = record {
  least = omega arith;
  most = omega arith;
  stopped = inl (omega arith);
}
parse_from-Progress os p (octet ∷ rest) total s =
    Partly-bind (parse_octet os p octet)
      (λ r. proceed r.1 r.0 total (parse_from os r.0 rest (total + 1))) s (λ r. Stops r.0 r.1)
      (λ r. Progress total (length (octet ∷ rest)) r.0 r.1)
      (octet_of_kind-Stops os (kind p.state) p octet s refl)
      (λ r s' w. by_verdict r.0 r.1 s' w (parse_from-Progress os r.0 rest (total + 1) s'))
  where
    by_verdict :
        (q : Parser) (c : Verdict) (s' : Store)
        → Stops q c
        → Partly
            (parse_from os q rest (total + 1) s')
            (λ r. Progress (total + 1) (length rest) r.0 r.1)
        → Partly
            (proceed c q total (parse_from os q rest (total + 1)) s')
            (λ r. Progress total (length (octet ∷ rest)) r.0 r.1)
    by_verdict q go_on s' w ih = Partly-map (parse_from os q rest (total + 1) s') _ _ ih (λ r f.
        record {
          least = omega (arith, f.least);
          most = omega (arith, f.most);
          stopped = elim f.stopped [ inl e ↦ inl (omega (arith, e)) | inr e ↦ inr e ];
        })
    by_verdict q return_after s' w ih = record {
      least = omega arith;
      most = omega arith;
      stopped = inr w;
    }
    by_verdict q return_before s' w ih = record {
      least = omega arith;
      most = omega arith;
      stopped = inr w;
    }

-- A call of sl_fcgi_parser_parse that returns has read at most the octets that it was given, and, if
-- it has read fewer, the parser is finished or in the error state.
pub parse_progress :
    (os : Platform) (p p' : Parser) (bytes : List ℕ) (n : ℕ) (s s' : Store)
    → parse os p bytes s ≡ ok (p', n) s'
    → (n ≤ length bytes) × (n < length bytes → IsStopped p'.state)
unfolding parse
parse_progress os p p' bytes n s s' run =
    let kept = parse_from-Progress os p bytes 0 s in
    let here : Progress 0 (length bytes) p' n =
      subst (λ (r : Run (Parser × ℕ)). Partly r (λ q. Progress 0 (length bytes) q.0 q.1)) run
        kept in
    (
      omega (arith, here.most),
      λ less. elim here.stopped [ inl e ↦ absurd (omega (arith, e)) | inr e ↦ e ],
    )
