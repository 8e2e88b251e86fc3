-- ===== src/Fcgi/Parser/Goal.antt =====
-- Where a call of sl_fcgi_parser_parse goes from an octet on, for a parser in a parameter.
use cpp_the_right_way.Base.{ℕ, ◌+◌, List, ◌∷◌, ◌≡◌, refl, ◌⊎◌, inl, inr}
use cpp_the_right_way.Arena.{Platform, Store}
use cpp_the_right_way.Run.{M, Run, ok, failed, fault, pure, ◌>>=◌, Partly, Partly-bind}
use cpp_the_right_way.Fcgi.Parser.State.{Parser, error}
use cpp_the_right_way.Fcgi.Parser.Params.{parse_params}
use cpp_the_right_way.Fcgi.Parser.{
  Verdict, go_on, params_kind, verdict, judge, kind, octet_of_kind, parse_octet, proceed,
  parse_from,
}

-- What a call of the parser is to come to, from any store; a parser in error is always admitted.
pub record Aim : Type 1 where
  pub holds : Parser × ℕ → Type 0
  pub broken : (r : Parser × ℕ) → r.0.state ≡ error → holds r

abbrev pub Reaches : Platform → Aim → Parser → List ℕ → ℕ → Type 0
Reaches os aim p bytes total = (s : Store) → Partly (parse_from os p bytes total s) aim.holds

-- A parser in a parameter after an octet: in error, or waiting for the next octet.
abbrev Waits : Platform → Aim → List ℕ → ℕ → Parser → Type 0
Waits os aim rest total q =
    (q.state ≡ error) ⊎ ((verdict q.state ≡ go_on) × Reaches os aim q rest (total + 1))

module _ (os : Platform) (aim : Aim) where
  pub Reaches-octet :
      (p : Parser) (octet : ℕ) (rest : List ℕ) (total : ℕ)
      → kind p.state ≡ params_kind
      → ((s : Store) → Partly (parse_params os p octet s) (Waits os aim rest total))
      → Reaches os aim p (octet ∷ rest) total
  unfolding parse_from parse_octet octet_of_kind judge proceed verdict
  Reaches-octet p octet rest total params h s =
      Partly-bind (parse_octet os p octet)
        (λ r. proceed r.1 r.0 total (parse_from os r.0 rest (total + 1))) s
        (λ r. (r.1 ≡ verdict r.0.state) × Waits os aim rest total r.0) aim.holds
        (rw params (
          Partly-bind (parse_params os p octet) judge s (Waits os aim rest total)
            (λ r. (r.1 ≡ verdict r.0.state) × Waits os aim rest total r.0) (h s)
            (λ q s' w. (refl, w))))
        (λ r s' w. by_verdict r.0 r.1 s' w.0 w.1)
    where
      by_verdict :
          (q : Parser) (c : Verdict) (s' : Store)
          → c ≡ verdict q.state
          → Waits os aim rest total q
          → Partly (proceed c q total (parse_from os q rest (total + 1)) s') aim.holds
      by_verdict q c s' e (inr (on, next)) = rw (e, on) (next s')
      by_verdict q c s' e (inl broken) =
          rw (e, broken) (aim.broken (record q { state = error }, total) refl)

  -- The rest of the call, behind what an octet does to a parser in a parameter.
  abbrev pub Goes : List ℕ → ℕ → M Parser → Store → Type 0
  Goes rest total m s =
      Partly ((m >>= (λ q. proceed (verdict q.state) q total (parse_from os q rest (total + 1)))) s)
        aim.holds

  pub Goes-Reaches :
      (p : Parser) (octet : ℕ) (rest : List ℕ) (total : ℕ)
      → kind p.state ≡ params_kind
      → ((s : Store) → Goes rest total (parse_params os p octet) s)
      → Reaches os aim p (octet ∷ rest) total
  unfolding parse_from parse_octet octet_of_kind judge
  Goes-Reaches p octet rest total params h s = rw params (go (parse_params os p octet s) (h s))
    where
      go :
          (r : Run Parser)
          → Goes rest total (λ _. r) s
          → Partly
              ((((λ _. r) >>= judge)
                  >>= (λ w. proceed w.1 w.0 total (parse_from os w.0 rest (total + 1))))
                s)
              aim.holds
      go (ok q s') g = g
      go (failed s') g = tt
      go fault g = tt

  pub Reaches-Goes :
      (p : Parser) (octet : ℕ) (rest : List ℕ) (total : ℕ) (s : Store)
      → kind p.state ≡ params_kind
      → Reaches os aim p (octet ∷ rest) total
      → Goes rest total (parse_params os p octet) s
  unfolding parse_from parse_octet octet_of_kind judge
  Reaches-Goes p octet rest total s params h = go (parse_params os p octet s) (rw params at (h s))
    where
      go :
          (r : Run Parser)
          → Partly
              ((((λ _. r) >>= judge)
                  >>= (λ w. proceed w.1 w.0 total (parse_from os w.0 rest (total + 1))))
                s)
              aim.holds
          → Goes rest total (λ _. r) s
      go (ok q s') g = g
      go (failed s') g = tt
      go fault g = tt

  -- A first call on the way, and an error.
  pub Goes-then {ℓ} :
      {A : Type ℓ} (m : M A) (f : A → M Parser) (rest : List ℕ) (total : ℕ) (s : Store)
      (P : A → Type 0)
      → Partly (m s) P
      → ((a : A) (s' : Store) → P a → Goes rest total (f a) s')
      → Goes rest total (m >>= f) s
  Goes-then {A} m f rest total s P h k = go (m s) h
    where
      go : (r : Run A) → Partly r P → Goes rest total ((λ _. r) >>= f) s
      go (ok a s') p = k a s' p
      go (failed s') p = tt
      go fault p = tt

  pub Goes-error :
      (q : Parser) (rest : List ℕ) (total : ℕ) (s : Store)
      → q.state ≡ error
      → Goes rest total (pure q) s
  unfolding proceed verdict
  Goes-error q rest total s e = rw e (aim.broken (record q { state = error }, total) refl)
