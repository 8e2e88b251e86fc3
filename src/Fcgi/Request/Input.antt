-- ===== src/Fcgi/Request/Input.antt =====
-- sl_fcgi_request_process: the input of a request.
use mathlib.Core.Path.{subst}
use mathlib.Core.List.{append_assoc, append-nil, reverse}
use cpp_the_right_way.Base.{
  ℕ, ◌^◌, ◌<◌, Option, none, some, List, [], ◌∷◌, ◌++◌, ◌≡◌, refl, sym, ap, ap₂, ◌∙◌, ◌⊎◌, inl, inr,
  arith, true, false, ◌==◌, ◌&&◌, not, Bool-cases, if◌then◌else◌, length, take, length-append, leb,
}
use cpp_the_right_way.Arena.{Platform, Store}
use cpp_the_right_way.Run.{
  pure, access, attempt, Partly, Partly-bind, Partly-then, attempt-Partly, Safe-Partly,
}
use cpp_the_right_way.Memory.{read_bytes}
use cpp_the_right_way.Strings.{contents, append_with_buffer}
use cpp_the_right_way.Strings.Append.{IsString, Appended, append_with_buffer-Appended}
use cpp_the_right_way.HashTable.Keys.{length-contents}
use cpp_the_right_way.Fcgi.Parser.State.{Parser}
use cpp_the_right_way.Fcgi.Request.{
  RequestState, begin, param_or_stdin, param, stdin, finished, error, Request, begin_type,
  params_type, stdin_type, in_request_state, append_all, append_param, pointed, append_stdin,
  stdin_appended, process_at, is_finished, process, init,
}
use cpp_the_right_way.Fcgi.Request.Trace.{process_all}

-- The first `n` octets behind a pointer; NULL has none.
abbrev pub taken : Option (List ℕ) → ℕ → List ℕ
taken none n = []
taken (some octets) n = take n octets

-- The octets of a record's content that are kept.
abbrev stdin_octets : Parser → List ℕ
stdin_octets p = taken p.stdin.data_bytes p.stdin.length

-- What a record adds to the input: only one of the input that is not empty does.
unfoldable pub piece : Parser → List ℕ
piece p =
    if (p.header.type == stdin_type) && not (p.header.content_length == 0)
    then stdin_octets p
    else []

unfoldable pub input : List Parser → List ℕ
input [] = []
input (p ∷ ps) = piece p ++ input ps

-- The request is in error, or its input is `text`.
abbrev pub HasInput : List ℕ → Request → Type 0
HasInput text r = (r.state ≡ error) ⊎ (IsString r.stdin × (contents r.stdin ≡ text))

pointed-taken :
    (field : Option (List ℕ)) (n : ℕ) (s : Store)
    → Partly (access (pointed field n) s) (λ octets. octets ≡ taken field n)
unfolding pointed read_bytes
pointed-taken none n s = elim (Bool-cases (n == 0)) [ inl y ↦ rw y refl | inr m ↦ rw m tt ]
pointed-taken (some octets) n s = elim (Bool-cases (leb n (length octets))) [
  | inl y ↦ rw y refl
  | inr m ↦ rw m tt
]

taken-none : (field : Option (List ℕ)) (n : ℕ) → (n == 0) ≡ true → taken field n ≡ []
taken-none none n e = refl
taken-none (some octets) n e = let zero_octets : n ≡ 0 = ground (arith, e) in rw zero_octets refl

same_input : (t text more : List ℕ) → t ≡ text → more ≡ [] → t ≡ text ++ more
same_input t text more e f = e ∙ sym (ap (λ l. text ++ l) f ∙ append-nil text)

append_stdin-HasInput :
    (os : Platform) (r : Request) (p : Parser) (s : Store) (text : List ℕ)
    → IsString r.stdin
    → contents r.stdin ≡ text
    → length (text ++ stdin_octets p) < 2 ^ 61
    → Partly (append_stdin os r p s) (HasInput (text ++ stdin_octets p))
unfolding append_stdin stdin_appended
append_stdin-HasInput os r p s text v e small = elim (Bool-cases (p.stdin.length == 0)) [
  | inl empty ↦ rw empty (
      inr (
        v,
        same_input _ text (stdin_octets p) e (taken-none p.stdin.data_bytes p.stdin.length empty),
      ))
  | inr more ↦ rw more (
      Partly-bind (access (pointed p.stdin.data_bytes p.stdin.length)) _ s
        (λ octets. octets ≡ stdin_octets p) (HasInput (text ++ stdin_octets p))
        (pointed-taken p.stdin.data_bytes p.stdin.length s)
        (λ octets s₁ h.
          Partly-bind (attempt (append_with_buffer os r.stdin octets)) _ s₁
            (λ t. HasInput (text ++ stdin_octets p) (stdin_appended r t))
            (HasInput (text ++ stdin_octets p))
            (attempt-Partly (append_with_buffer os r.stdin octets) s₁ (Appended r.stdin octets) _
              (Safe-Partly (append_with_buffer os r.stdin octets s₁) (Appended r.stdin octets) (
                append_with_buffer-Appended os r.stdin octets v
                  (omega (
                    arith,
                    length-contents r.stdin v,
                    ap length e,
                    ap length h,
                    length-append text (stdin_octets p),
                    small,
                  ))
                  s₁))
              (inl refl) (λ t a. inr (a.valid, a.holds ∙ ap₂ (λ (x y : List ℕ). x ++ y) e h)))
            (λ t s₂ q. q)))
]

piece_other : (p : Parser) → (p.header.type == stdin_type) ≡ false → piece p ≡ []
unfolding piece
piece_other p n = rw n refl

piece_closed : (p : Parser) → (p.header.content_length == 0) ≡ true → piece p ≡ []
unfolding piece
piece_closed p e = elim (Bool-cases (p.header.type == stdin_type)) [
  | inl y ↦ rw (y, e) refl
  | inr n ↦ rw n refl
]

piece_open :
    (p : Parser)
    → (p.header.type == stdin_type) ≡ true
    → (p.header.content_length == 0) ≡ false
    → piece p ≡ stdin_octets p
unfolding piece
piece_open p y n = rw (y, n) refl

kept_input :
    (r : Request) (p : Parser) (text : List ℕ)
    → IsString r.stdin
    → contents r.stdin ≡ text
    → piece p ≡ []
    → HasInput (text ++ piece p) r
kept_input r p text v e none_added = inr (v, same_input _ text (piece p) e none_added)

-- A record of parameters, or the empty one that closes them.
params_HasInput :
    (os : Platform) (r : Request) (p : Parser) (s : Store) (text : List ℕ) (next : RequestState)
    → IsString r.stdin
    → contents r.stdin ≡ text
    → (p.header.type == params_type) ≡ true
    → Partly
        ((if p.header.content_length == 0
            then pure (in_request_state r next)
            else append_param os r p)
          s)
        (HasInput (text ++ piece p))
unfolding append_param
params_HasInput os r p s text next v e t =
    let other : (p.header.type == stdin_type) ≡ false = ground (arith, t) in
    let none_added = piece_other p other in
    elim (Bool-cases (p.header.content_length == 0)) [
      | inl y ↦ rw y (kept_input (in_request_state r next) p text v e none_added)
      | inr n ↦ rw n (
          Partly-then (append_all os r.parameters (reverse p.params)) _ s
            (HasInput (text ++ piece p)) (λ _ s'. kept_input r p text v e none_added))
    ]

stdin_HasInput :
    (os : Platform) (r : Request) (p : Parser) (s : Store) (text : List ℕ) (next : RequestState)
    → IsString r.stdin
    → contents r.stdin ≡ text
    → length (text ++ piece p) < 2 ^ 61
    → (p.header.type == stdin_type) ≡ true
    → Partly
        ((if p.header.content_length == 0
            then pure (in_request_state r next)
            else append_stdin os r p)
          s)
        (HasInput (text ++ piece p))
stdin_HasInput os r p s text next v e small t = elim (Bool-cases (p.header.content_length == 0)) [
  | inl y ↦ rw y (kept_input (in_request_state r next) p text v e (piece_closed p y))
  | inr n ↦
      let all = piece_open p t n in
      rw n (
        subst (λ (l : List ℕ). Partly (append_stdin os r p s) (HasInput (text ++ l))) (sym all)
          (append_stdin-HasInput os r p s text v e
            (omega (arith, small, ap (λ l. length (text ++ l)) all))))
]

process_at-HasInput :
    (c : RequestState) (os : Platform) (r : Request) (p : Parser) (s : Store) (text : List ℕ)
    → r.state ≡ c
    → HasInput text r
    → length (text ++ piece p) < 2 ^ 61
    → Partly (process_at c os r p s) (HasInput (text ++ piece p))
unfolding process_at
process_at-HasInput error os r p s text c h small = inl c
process_at-HasInput finished os r p s text c h small = inl refl
process_at-HasInput begin os r p s text c (inl failed) small = absurd cc
process_at-HasInput param_or_stdin os r p s text c (inl failed) small = absurd cc
process_at-HasInput param os r p s text c (inl failed) small = absurd cc
process_at-HasInput stdin os r p s text c (inl failed) small = absurd cc
process_at-HasInput begin os r p s text c (inr (v, e)) small =
    elim (Bool-cases (p.header.type == begin_type)) [
      | inl t ↦
          let other : (p.header.type == stdin_type) ≡ false = ground (arith, t) in
          rw t (inr (v, same_input _ text (piece p) e (piece_other p other)))
      | inr n ↦ rw n (inl refl)
    ]
process_at-HasInput param_or_stdin os r p s text c (inr (v, e)) small =
    elim (Bool-cases (p.header.type == params_type)) [
      | inl t ↦ rw t (params_HasInput os r p s text stdin v e t)
      | inr n ↦ elim (Bool-cases (p.header.type == stdin_type)) [
        | inl t ↦ rw (n, t) (stdin_HasInput os r p s text param v e small t)
        | inr m ↦ rw (n, m) (inl refl)
      ]
    ]
process_at-HasInput param os r p s text c (inr (v, e)) small =
    elim (Bool-cases (p.header.type == params_type)) [
      | inl t ↦ rw t (params_HasInput os r p s text finished v e t)
      | inr n ↦ rw n (inl refl)
    ]
process_at-HasInput stdin os r p s text c (inr (v, e)) small =
    elim (Bool-cases (p.header.type == stdin_type)) [
      | inl t ↦ rw t (stdin_HasInput os r p s text finished v e small t)
      | inr n ↦ rw n (inl refl)
    ]

process_all-HasInput :
    (os : Platform) (r : Request) (ps : List Parser) (s : Store) (text : List ℕ)
    → HasInput text r
    → length (text ++ input ps) < 2 ^ 61
    → Partly (process_all os r ps s) (HasInput (text ++ input ps))
unfolding process_all process input
process_all-HasInput os r [] s text h small = rw (append-nil text) h
process_all-HasInput os r (p ∷ ps) s text h small =
    let split = append_assoc text (piece p) (input ps) in
    let short : length (text ++ piece p) < 2 ^ 61 =
      omega (arith, small, ap length split, length-append (text ++ piece p) (input ps)) in
    rw (← split) (
      Partly-bind (process os r p) (λ r'. process_all os r' ps) s (HasInput (text ++ piece p))
        (HasInput ((text ++ piece p) ++ input ps))
        (elim (Bool-cases (is_finished p.state)) [
          | inl y ↦ rw y (process_at-HasInput r.state os r p s text refl h short)
          | inr n ↦ rw n (inl refl)
        ])
        (λ r' s' h'.
          process_all-HasInput os r' ps s' (text ++ piece p) h'
            (omega (arith, small, ap length split))))

-- A new request that is handed any records one after another, of which the input has fewer than
-- 2 ^ 61 octets in all, is in error when the calls have returned, or its input is well formed and
-- holds the contents of the records of the input that are not empty, one after the other.
pub process_all-input :
    (os : Platform) (size : ℕ) (ps : List Parser) (s : Store)
    → length (input ps) < 2 ^ 61
    → Partly (process_all os (init size) ps s) (HasInput (input ps))
unfolding init
process_all-input os size ps s small =
    process_all-HasInput os _ ps s []
      (inr (record { within = omega arith; whole = omega arith }, refl)) small
