-- ===== src/Fcgi/Parser/Unpadded.antt =====
-- A STDIN record that has content and no padding.
use mathlib.Core.Path.{subst}
use cpp_the_right_way.Base.{
  ℕ, ◌+◌, Option, none, some, List, [], ◌∷◌, ◌≡◌, refl, ◌⊎◌, inl, inr, arith, Bool-cases, ◌==◌,
  sub64,
}
use cpp_the_right_way.Arena.{Platform, Store}
use cpp_the_right_way.Run.{Run, ok, pure, Partly, Partly-bind, Partly-then, access, attempt}
use cpp_the_right_way.Memory.{store_at}
use cpp_the_right_way.Strings.{allocate_buffer, string, init_with_buffer}
use cpp_the_right_way.Fcgi.Parser.State.{Parser, stdin_data, error, log_write_format}
use cpp_the_right_way.Fcgi.Parser.Stdin.{
  stdin_format, end_stdin, stdin_octet, stdin_started, start_stdin, stdin_by_data, parse_stdin,
}
use cpp_the_right_way.Fcgi.Parser.{
  Verdict, go_on, return_after, return_before, parse_octet, proceed, parse_from, parse, judge,
}

-- Where the parser stays until the record is over, and where it ends.
pub record IsUnpadded (p : Parser) : Type 0 where
  pub state : (p.state ≡ stdin_data) ⊎ (p.state ≡ error)
  pub unpadded : p.header.padding_length ≡ 0

end_stdin-IsUnpadded : (p : Parser) → p.header.padding_length ≡ 0 → IsUnpadded (end_stdin p)
unfolding end_stdin
end_stdin-IsUnpadded p e = ground arith

stdin_octet-IsUnpadded :
    (os : Platform) (p : Parser) (buffer : List ℕ) (octet : ℕ) (s : Store)
    → IsUnpadded p
    → Partly (stdin_octet os p buffer octet s) IsUnpadded
unfolding stdin_octet
stdin_octet-IsUnpadded os p buffer octet s v = elim (Bool-cases (p.read_counter == 0)) [
  | inl over ↦ rw over (
      Partly-then (access (store_at buffer p.stdin.length 0)) _ s IsUnpadded (λ ended s₁.
        Partly-then
          (log_write_format os stdin_format
            (string (some (init_with_buffer ended p.stdin.length)) ∷ []))
          (λ _. pure (end_stdin (record p { stdin = record p.stdin { data_bytes = some ended } })))
          s₁ IsUnpadded
          (λ _ s₂.
            end_stdin-IsUnpadded (record p { stdin = record p.stdin { data_bytes = some ended } })
              v.unpadded)))
  | inr more ↦ rw more (
      Partly-then (access (store_at buffer (sub64 p.stdin.length p.read_counter) octet)) _ s
        IsUnpadded (λ stored s₁. record { state = v.state; unpadded = v.unpadded }))
]

stdin_by_data-IsUnpadded :
    (os : Platform) (p : Parser) (octet : ℕ) (b : Option (List ℕ)) (s : Store)
    → IsUnpadded p
    → Partly (stdin_by_data os p octet b s) IsUnpadded
unfolding stdin_by_data start_stdin stdin_started
stdin_by_data-IsUnpadded os p octet (some buffer) s v = stdin_octet-IsUnpadded os p buffer octet s v
stdin_by_data-IsUnpadded os p octet none s v =
    Partly-then (attempt (allocate_buffer os (p.header.content_length + 1)))
      (start_stdin os p octet) s IsUnpadded (started p octet v)
  where
    started :
        (p : Parser) (octet : ℕ)
        → IsUnpadded p
        → (r : Option (List ℕ)) (s₁ : Store) → Partly (start_stdin os p octet r s₁) IsUnpadded
    started p octet v none s₁ = record { state = inr refl; unpadded = v.unpadded }
    started p octet v (some buffer) s₁ =
        stdin_octet-IsUnpadded os (stdin_started p buffer) buffer octet s₁
          (record { state = v.state; unpadded = v.unpadded })

-- One octet of the switch: the record goes on, or the parser is in the error state.
octet-IsUnpadded :
    (os : Platform) (p : Parser) (octet : ℕ) (s : Store)
    → IsUnpadded p
    → Partly (parse_octet os p octet s) (λ r. IsUnpadded r.0)
unfolding parse_octet parse_stdin
octet-IsUnpadded os p octet s v = elim v.state [
  | inl e ↦ simp e (
      Partly-bind (stdin_by_data os p octet p.stdin.data_bytes) judge s IsUnpadded
        (λ r. IsUnpadded r.0) (stdin_by_data-IsUnpadded os p octet p.stdin.data_bytes s v)
        (λ p' s' w. w))
  | inr e ↦ simp e v
]

parse_from-IsUnpadded :
    (os : Platform) (p : Parser) (bytes : List ℕ) (total : ℕ) (s : Store)
    → IsUnpadded p
    → Partly (parse_from os p bytes total s) (λ r. IsUnpadded r.0)
unfolding parse_from
parse_from-IsUnpadded os p [] total s v = v
parse_from-IsUnpadded os p (octet ∷ rest) total s v =
    Partly-bind (parse_octet os p octet)
      (λ r. proceed r.1 r.0 total (parse_from os r.0 rest (total + 1))) s (λ r. IsUnpadded r.0)
      (λ r. IsUnpadded r.0) (octet-IsUnpadded os p octet s v)
      (λ r s' w. by_verdict r.0 r.1 s' w (parse_from-IsUnpadded os r.0 rest (total + 1) s' w))
  where
    by_verdict :
        (q : Parser) (c : Verdict) (s' : Store)
        → IsUnpadded q
        → Partly (parse_from os q rest (total + 1) s') (λ r. IsUnpadded r.0)
        → Partly (proceed c q total (parse_from os q rest (total + 1)) s') (λ r. IsUnpadded r.0)
    by_verdict q go_on s' w ih = ih
    by_verdict q return_after s' w ih = w
    by_verdict q return_before s' w ih = w

-- However many octets follow, in one call that returns, a parser that is in the content of an
-- unpadded STDIN record does not reach the finished state: the record is never handed on.
pub unpadded_stdin_unfinished :
    (os : Platform) (p p' : Parser) (bytes : List ℕ) (n : ℕ) (s s' : Store)
    → p.state ≡ stdin_data
    → p.header.padding_length ≡ 0
    → parse os p bytes s ≡ ok (p', n) s'
    → (p'.state ≡ stdin_data) ⊎ (p'.state ≡ error)
unfolding parse
unpadded_stdin_unfinished os p p' bytes n s s' e unpadded run =
    let start : IsUnpadded p = record { state = inl e; unpadded = unpadded } in
    let kept = parse_from-IsUnpadded os p bytes 0 s start in
    let here : IsUnpadded p' =
      subst (λ (r : Run (Parser × ℕ)). Partly r (λ q. IsUnpadded q.0)) run kept in
    here.state
