-- ===== src/Fcgi/Request/Trace.antt =====
-- sl_fcgi_request_process, called on one record after another: the states of a request.
use mathlib.Core.Path.{subst}
use mathlib.Core.List.{reverse}
use cpp_the_right_way.Base.{
  ℕ, ◌+◌, Option, none, some, List, [], ◌∷◌, ◌≡◌, refl, sym, ap, ◌∙◌, ◌⊎◌, inl, inr, arith, Bool,
  true, false, ◌==◌, ◌&&◌, Bool-cases, if◌then◌else◌,
}
use cpp_the_right_way.Arena.{Platform, Store}
use cpp_the_right_way.Run.{
  Run, M, ok, pure, access, attempt, ◌>>=◌, Partly, Partly-bind, Partly-then,
}
use cpp_the_right_way.Strings.{SlString, append_with_buffer}
use cpp_the_right_way.Fcgi.Parser.State.{Parser}
use cpp_the_right_way.Fcgi.Request.{
  RequestState, begin, param_or_stdin, param, stdin, finished, error, Request, begin_type,
  params_type, stdin_type, in_request_state, append_all, append_param, pointed, append_stdin,
  stdin_appended, process_at, is_finished, process, init,
}

-- A request that is handed one finished parser after another.
unfoldable pub process_all : Platform → Request → List Parser → M Request
unfolding process
process_all os r [] = pure r
process_all os r (p ∷ ps) = do r' ← process os r p; process_all os r' ps

-- The records of a request, the last one first: a begin record with the request's number and flags,
-- and then only records of parameters and of input.
pub data Opened (id flags : ℕ) : List Parser → Type 0 where
  first :
      (p : Parser)
      → p.header.type ≡ begin_type
      → p.header.request_id ≡ id
      → p.begin.flags ≡ flags
      → Opened id flags (p ∷ [])
  later :
      (p : Parser) (h : List Parser)
      → (p.header.type ≡ params_type) ⊎ (p.header.type ≡ stdin_type)
      → Opened id flags h
      → Opened id flags (p ∷ h)

pub is_closing : ℕ → Parser → Bool
is_closing type p = (p.header.type == type) && (p.header.content_length == 0)

-- How many empty records of a type there are.
unfoldable pub closed : ℕ → List Parser → ℕ
closed type [] = 0
closed type (p ∷ h) = let n = closed type h in if is_closing type p then n + 1 else n

-- The streams that are closed: a 1 for each.
abbrev Streams : ℕ → ℕ → ℕ → ℕ → List Parser → Type 0
Streams params_closed stdin_closed id flags h =
    Opened id flags h
    × (closed params_type h ≡ params_closed)
    × (closed stdin_type h ≡ stdin_closed)

-- What has been seen when a request is in a state.
abbrev pub Stage : RequestState → ℕ → ℕ → List Parser → Type 0
Stage begin id flags h = h ≡ []
Stage param_or_stdin id flags h = Streams 0 0 id flags h
Stage param id flags h = Streams 0 1 id flags h
Stage stdin id flags h = Streams 1 0 id flags h
Stage finished id flags h = Streams 1 1 id flags h
Stage error id flags h = Unit {0}

abbrev pub Seen : List Parser → Request → Type 0
Seen h r = Stage r.state r.request_id r.flags h

-- The records `ps` on top of those before.
unfoldable pub past : List Parser → List Parser → List Parser
past h [] = h
past h (p ∷ ps) = past (p ∷ h) ps

closed_more :
    (type : ℕ) (p : Parser) (h : List Parser)
    → p.header.type ≡ type
    → (p.header.content_length == 0) ≡ true
    → closed type (p ∷ h) ≡ closed type h + 1
unfolding closed is_closing
closed_more type p h e k =
    let same : (p.header.type == type) ≡ true = ground (arith, e) in rw (same, k) refl

closed_same :
    (type : ℕ) (p : Parser) (h : List Parser)
    → is_closing type p ≡ false
    → closed type (p ∷ h) ≡ closed type h
unfolding closed
closed_same type p h k = rw k refl

not_closing_type :
    (type : ℕ) (p : Parser) → (p.header.type == type) ≡ false → is_closing type p ≡ false
unfolding is_closing
not_closing_type type p e = rw e refl

not_closing_length :
    (type : ℕ) (p : Parser) → (p.header.content_length == 0) ≡ false → is_closing type p ≡ false
unfolding is_closing
not_closing_length type p e =
    rw e (elim (Bool-cases (p.header.type == type)) [ inl y ↦ rw y refl | inr n ↦ rw n refl ])

append_param-Stage :
    (os : Platform) (r : Request) (p : Parser) (s : Store) (h : List Parser)
    → Seen h r
    → Partly (append_param os r p s) (Seen h)
unfolding append_param
append_param-Stage os r p s h v =
    Partly-then (append_all os r.parameters (reverse p.params)) _ s (Seen h) (λ t s'. v)

append_stdin-Stage :
    (os : Platform) (r : Request) (p : Parser) (s : Store) (h : List Parser)
    → Seen h r
    → Partly (append_stdin os r p s) (Seen h)
unfolding append_stdin stdin_appended
append_stdin-Stage os r p s h v = elim (Bool-cases (p.stdin.length == 0)) [
  | inl empty ↦ rw empty v
  | inr more ↦ rw more (
      Partly-then (access (pointed p.stdin.data_bytes p.stdin.length))
        (λ bytes.
          attempt (append_with_buffer os r.stdin bytes) >>= (λ t. pure (stdin_appended r t)))
        s (Seen h)
        (λ bytes s₁.
          Partly-then (attempt (append_with_buffer os r.stdin bytes))
            (λ t. pure (stdin_appended r t)) s₁ (Seen h) (λ t s₂. by_answer t)))
]
  where
    by_answer : (t : Option SlString) → Seen h (stdin_appended r t)
    by_answer none = tt
    by_answer (some t) = v

-- A record that closes no stream.
data_Streams :
    (a b id flags : ℕ) (p : Parser) (h : List Parser)
    → (p.header.type ≡ params_type) ⊎ (p.header.type ≡ stdin_type)
    → (p.header.content_length == 0) ≡ false
    → Streams a b id flags h
    → Streams a b id flags (p ∷ h)
data_Streams a b id flags p h t more (o, x, y) = (
  later p h t o,
  closed_same params_type p h (not_closing_length params_type p more) ∙ x,
  closed_same stdin_type p h (not_closing_length stdin_type p more) ∙ y,
)

params_Streams :
    (a b id flags : ℕ) (p : Parser) (h : List Parser)
    → p.header.type ≡ params_type
    → (p.header.content_length == 0) ≡ true
    → Streams a b id flags h
    → Streams (a + 1) b id flags (p ∷ h)
params_Streams a b id flags p h t empty (o, x, y) =
    let other : (p.header.type == stdin_type) ≡ false = ground (arith, t) in
    (
      later p h (inl t) o,
      omega (arith, closed_more params_type p h t empty, x),
      closed_same stdin_type p h (not_closing_type stdin_type p other) ∙ y,
    )

stdin_Streams :
    (a b id flags : ℕ) (p : Parser) (h : List Parser)
    → p.header.type ≡ stdin_type
    → (p.header.content_length == 0) ≡ true
    → Streams a b id flags h
    → Streams a (b + 1) id flags (p ∷ h)
stdin_Streams a b id flags p h t empty (o, x, y) =
    let other : (p.header.type == params_type) ≡ false = ground (arith, t) in
    (
      later p h (inr t) o,
      closed_same params_type p h (not_closing_type params_type p other) ∙ x,
      omega (arith, closed_more stdin_type p h t empty, y),
    )

same_state :
    (c : RequestState) (r : Request) (h : List Parser)
    → r.state ≡ c
    → Stage c r.request_id r.flags h
    → Seen h r
same_state c r h e v = subst (λ (d : RequestState). Stage d r.request_id r.flags h) (sym e) v

-- A record of parameters, where `next` is the state behind the record that closes them.
params_Seen :
    (os : Platform) (r : Request) (p : Parser) (s : Store) (h : List Parser) (c next : RequestState)
    → r.state ≡ c
    → ((p.header.content_length == 0) ≡ true → Stage next r.request_id r.flags (p ∷ h))
    → ((p.header.content_length == 0) ≡ false → Stage c r.request_id r.flags (p ∷ h))
    → Partly
        ((if p.header.content_length == 0
            then pure (in_request_state r next)
            else append_param os r p)
          s)
        (Seen (p ∷ h))
params_Seen os r p s h c next e empty more = elim (Bool-cases (p.header.content_length == 0)) [
  | inl y ↦ rw y (empty y)
  | inr n ↦ rw n (append_param-Stage os r p s (p ∷ h) (same_state c r (p ∷ h) e (more n)))
]

stdin_Seen :
    (os : Platform) (r : Request) (p : Parser) (s : Store) (h : List Parser) (c next : RequestState)
    → r.state ≡ c
    → ((p.header.content_length == 0) ≡ true → Stage next r.request_id r.flags (p ∷ h))
    → ((p.header.content_length == 0) ≡ false → Stage c r.request_id r.flags (p ∷ h))
    → Partly
        ((if p.header.content_length == 0
            then pure (in_request_state r next)
            else append_stdin os r p)
          s)
        (Seen (p ∷ h))
stdin_Seen os r p s h c next e empty more = elim (Bool-cases (p.header.content_length == 0)) [
  | inl y ↦ rw y (empty y)
  | inr n ↦ rw n (append_stdin-Stage os r p s (p ∷ h) (same_state c r (p ∷ h) e (more n)))
]

process_at-Seen :
    (c : RequestState) (os : Platform) (r : Request) (p : Parser) (s : Store) (h : List Parser)
    → r.state ≡ c
    → Stage c r.request_id r.flags h
    → Partly (process_at c os r p s) (Seen (p ∷ h))
unfolding process_at closed
process_at-Seen begin os r p s h e v = elim (Bool-cases (p.header.type == begin_type)) [
  | inl y ↦ rw y (
      subst (λ (g : List Parser). Streams 0 0 p.header.request_id p.begin.flags (p ∷ g)) (sym v)
        (opened y))
  | inr n ↦ rw n tt
]
  where
    opened :
        (p.header.type == begin_type) ≡ true
        → Streams 0 0 p.header.request_id p.begin.flags (p ∷ [])
    opened y =
        let t : p.header.type ≡ begin_type = ground (arith, y) in
        let not_params : (p.header.type == params_type) ≡ false = ground (arith, t) in
        let not_stdin : (p.header.type == stdin_type) ≡ false = ground (arith, t) in
        (
          first p t refl refl,
          closed_same params_type p [] (not_closing_type params_type p not_params),
          closed_same stdin_type p [] (not_closing_type stdin_type p not_stdin),
        )
process_at-Seen param_or_stdin os r p s h e v = elim (Bool-cases (p.header.type == params_type)) [
  | inl y ↦ rw y (
      let t : p.header.type ≡ params_type = ground (arith, y) in
      params_Seen os r p s h param_or_stdin stdin e
        (λ empty. params_Streams 0 0 r.request_id r.flags p h t empty v)
        (λ more. data_Streams 0 0 r.request_id r.flags p h (inl t) more v))
  | inr n ↦ elim (Bool-cases (p.header.type == stdin_type)) [
    | inl y ↦
        rw (n, y)
          (let t : p.header.type ≡ stdin_type = ground (arith, y) in
            stdin_Seen os r p s h param_or_stdin param e
              (λ empty. stdin_Streams 0 0 r.request_id r.flags p h t empty v)
              (λ more. data_Streams 0 0 r.request_id r.flags p h (inr t) more v))
    | inr m ↦ rw (n, m) tt
  ]
]
process_at-Seen param os r p s h e v = elim (Bool-cases (p.header.type == params_type)) [
  | inl y ↦ rw y (
      let t : p.header.type ≡ params_type = ground (arith, y) in
      params_Seen os r p s h param finished e
        (λ empty. params_Streams 0 1 r.request_id r.flags p h t empty v)
        (λ more. data_Streams 0 1 r.request_id r.flags p h (inl t) more v))
  | inr n ↦ rw n tt
]
process_at-Seen stdin os r p s h e v = elim (Bool-cases (p.header.type == stdin_type)) [
  | inl y ↦ rw y (
      let t : p.header.type ≡ stdin_type = ground (arith, y) in
      stdin_Seen os r p s h stdin finished e
        (λ empty. stdin_Streams 1 0 r.request_id r.flags p h t empty v)
        (λ more. data_Streams 1 0 r.request_id r.flags p h (inr t) more v))
  | inr n ↦ rw n tt
]
process_at-Seen finished os r p s h e v = tt
process_at-Seen error os r p s h e v = same_state error r (p ∷ h) e tt

process-Seen :
    (os : Platform) (r : Request) (p : Parser) (s : Store) (h : List Parser)
    → Seen h r
    → Partly (process os r p s) (Seen (p ∷ h))
unfolding process
process-Seen os r p s h v = elim (Bool-cases (is_finished p.state)) [
  | inl y ↦ rw y (process_at-Seen r.state os r p s h refl v)
  | inr n ↦ rw n tt
]

process_all-past :
    (os : Platform) (r : Request) (ps h : List Parser) (s : Store)
    → Seen h r
    → Partly (process_all os r ps s) (Seen (past h ps))
unfolding process_all past
process_all-past os r [] h s v = v
process_all-past os r (p ∷ ps) h s v =
    Partly-bind (process os r p) (λ r'. process_all os r' ps) s (Seen (p ∷ h))
      (Seen (past (p ∷ h) ps)) (process-Seen os r p s h v)
      (λ r' s' v'. process_all-past os r' ps (p ∷ h) s' v')

-- A new request that is handed any records one after another, and whose calls return, is in a state
-- that tells what the records were, unless it is the error state: at the begin state there was none;
-- otherwise there was one begin record, whose number and flags the request has, followed by records
-- of parameters and of input only, among them just as many empty ones of each kind as the state
-- says, so that a request is finished only behind exactly one of each.
pub process_all-Seen :
    (os : Platform) (size : ℕ) (ps : List Parser) (s : Store)
    → Partly (process_all os (init size) ps s) (Seen (past [] ps))
unfolding init
process_all-Seen os size ps s = process_all-past os _ ps [] s refl

process-error :
    (os : Platform) (r : Request) (p : Parser) (s : Store)
    → r.state ≡ error
    → (r' : Request) × (process os r p s ≡ ok r' s) × (r'.state ≡ error)
unfolding process process_at
process-error os r p s e = elim (Bool-cases (is_finished p.state)) [
  | inl y ↦ (r, rw (y, e) refl, e)
  | inr n ↦ (in_request_state r error, rw n refl, refl)
]

-- From the error state no record leads away, and the arena stays as it is.
process_all-error :
    (os : Platform) (r : Request) (ps : List Parser) (s : Store)
    → r.state ≡ error
    → (r' : Request) × (process_all os r ps s ≡ ok r' s) × (r'.state ≡ error)
unfolding process_all
process_all-error os r [] s e = (r, refl, e)
process_all-error os r (p ∷ ps) s e =
    let (r₁, run, e₁) = process-error os r p s e in
    let (r₂, others, e₂) = process_all-error os r₁ ps s e₁ in
    (r₂, ap (λ (m : Run Request). ((λ _. m) >>= (λ q. process_all os q ps)) s) run ∙ others, e₂)
