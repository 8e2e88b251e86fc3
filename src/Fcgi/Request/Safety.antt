-- ===== src/Fcgi/Request/Safety.antt =====
-- sl_fcgi_request_process: what a finished record does to a request, with memory and without.
use mathlib.Core.Path.{subst}
use mathlib.Core.List.{reverse, reverse_aux}
use cpp_the_right_way.Base.{
  ℕ, ◌+◌, ◌^◌, ◌≤◌, ◌<◌, List, [], ◌∷◌, ◌≡◌, refl, arith, true, ◌==◌, if◌then◌else◌, Bool-cases,
  inl, inr, length,
}
use cpp_the_right_way.Arena.{Platform, Store}
use cpp_the_right_way.Run.{
  Run, ok, failed, fault, pure, ◌>>=◌, attempt, Returns, Returns-bind, Returns-map, Returns-attempt,
}
use cpp_the_right_way.Strings.{append_with_buffer}
use cpp_the_right_way.Strings.Append.{IsString, Appended, append_with_buffer-Appended}
use cpp_the_right_way.HashTable.{HashTable}
use cpp_the_right_way.HashTable.Map.{IsMap}
use cpp_the_right_way.Fcgi.Parser.State.{Param, Parser, ParserState}
use cpp_the_right_way.Fcgi.Parser.Invariant.{AllComplete, StdinDone, IsParser, In}
use cpp_the_right_way.Fcgi.Request.{
  RequestState, begin, param_or_stdin, param, stdin, finished, error, Request, begin_type,
  params_type, stdin_type, in_request_state, append_one, append_all, append_param, append_stdin,
  stdin_appended, process_at, is_finished, process,
}
use cpp_the_right_way.Fcgi.Request.Input.{taken}
use cpp_the_right_way.Fcgi.Request.Kept.{LacksName, IsMap-grows, pointed-Full, append_one-Returns}

-- On the way along the parameters there is no memory for the string of a name.
pub data MissesName (os : Platform) : HashTable → List Param → Store → Type 0 where
  here :
      {t : HashTable} {l : Param} {ls : List Param} {s : Store}
      → LacksName os l s
      → MissesName os t (l ∷ ls) s
  later :
      {t t' : HashTable} {l : Param} {ls : List Param} {s s' : Store}
      → append_one os t l s ≡ ok t' s'
      → MissesName os t' ls s'
      → MissesName os t (l ∷ ls) s

append_all-Returns :
    (os : Platform) (limit n : ℕ) (t : HashTable) (ls : List Param) (s : Store)
    → limit ≤ 2 ^ 57
    → n + length ls ≤ 2 ^ 54
    → AllComplete ls
    → IsMap limit n t
    → Returns (append_all os t ls s) (MissesName os t ls s) (IsMap limit (n + length ls))
unfolding append_all
append_all-Returns os limit n t [] s small few c v =
    let same : n ≡ n + 0 = omega arith in rw (← same) v
append_all-Returns os limit n t (l ∷ ls) s small few c v =
    by_first (append_one os t l s) refl
      (append_one-Returns os limit n small (omega arith) t l s c.0 v)
      (λ t' s' w. append_all-Returns os limit (n + 1) t' ls s' small (omega arith) c.1 w)
  where
    by_first :
        (r : Run HashTable)
        → append_one os t l s ≡ r
        → Returns r (LacksName os l s) (IsMap limit (n + 1))
        → ((t' : HashTable) (s' : Store)
            → IsMap limit (n + 1) t'
            → Returns
                (append_all os t' ls s')
                (MissesName os t' ls s')
                (IsMap limit (n + 1 + length ls)))
        → Returns
            (((λ _. r) >>= (λ t'. append_all os t' ls)) s)
            (MissesName os t (l ∷ ls) s)
            (IsMap limit (n + length (l ∷ ls)))
    by_first (failed s') e w ih = absurd w
    by_first fault e w ih = here w
    by_first (ok t' s') e w ih =
        let sum : n + 1 + length ls ≡ n + length (l ∷ ls) = omega arith in
        Returns-map (append_all os t' ls s') _ _ _ _ (ih t' s' w) (later e) (λ t'' k. rw (← sum) k)

AllComplete-reverse_aux :
    (ls rest : List Param) → AllComplete ls → AllComplete rest → AllComplete (reverse_aux ls rest)
AllComplete-reverse_aux [] rest c d = d
AllComplete-reverse_aux (l ∷ ls) rest c d = AllComplete-reverse_aux ls (l ∷ rest) c.1 (c.0, d)

length-reverse_aux : (ls rest : List Param) → length (reverse_aux ls rest) ≡ length ls + length rest
length-reverse_aux [] rest = omega arith
length-reverse_aux (l ∷ ls) rest = omega (arith, length-reverse_aux ls (l ∷ rest))

-- A request that was handed at most `n` parameters and has at most `b` octets of input.
pub record IsRequest (limit n b : ℕ) (r : Request) : Type 0 where
  pub table : IsMap limit n r.parameters
  pub text : IsString r.stdin
  pub short : r.stdin.length ≤ b

-- After a record with `k` parameters.
abbrev Handed : ℕ → ℕ → ℕ → ℕ → Request → Type 0
Handed limit n b k r = IsRequest limit (n + k) (b + 2 ^ 16) r

abbrev MissesAny : Platform → Request → Parser → Store → Type 0
MissesAny os r p s = MissesName os r.parameters (reverse p.params) s

-- The request as it was, but for its state, its number and its flags.
kept :
    (limit n b k : ℕ) (r q : Request)
    → IsRequest limit n b r
    → q.parameters ≡ r.parameters
    → q.stdin ≡ r.stdin
    → Handed limit n b k q
kept limit n b k r q v same_table same_text = record {
  table = rw same_table (IsMap-grows limit n k r.parameters v.table);
  text = rw same_text v.text;
  short = rw same_text (omega (arith, v.short));
}

module _ (os : Platform) (limit n b : ℕ) (r : Request) (p : Parser) (small : limit ≤ 2 ^ 57)
    (few : n + length p.params ≤ 2 ^ 54) (short : b < 2 ^ 60) (v : IsRequest limit n b r)
    (c : AllComplete p.params) (d : StdinDone p.stdin) where
  as_before :
      (q : Request)
      → q.parameters ≡ r.parameters
      → q.stdin ≡ r.stdin
      → Handed limit n b (length p.params) q
  as_before q = kept limit n b (length p.params) r q v

  append_param-Returns :
      (s : Store)
      → Returns (append_param os r p s) (MissesAny os r p s) (Handed limit n b (length p.params))
  unfolding append_param
  append_param-Returns s =
      let count : length (reverse p.params) ≡ length p.params =
        omega (arith, length-reverse_aux p.params []) in
      Returns-bind (append_all os r.parameters (reverse p.params)) _ s (MissesAny os r p s)
        (IsMap limit (n + length (reverse p.params))) (Handed limit n b (length p.params))
        (append_all-Returns os limit n r.parameters (reverse p.params) s small
          (omega (arith, count)) (AllComplete-reverse_aux p.params [] c tt) v.table)
        (λ t s' w. record {
          table = subst (λ (k : ℕ). IsMap limit (n + k) t) count w;
          text = v.text;
          short = omega (arith, v.short);
        })

  append_stdin-Returns :
      (s : Store)
      → Returns (append_stdin os r p s) (MissesAny os r p s) (Handed limit n b (length p.params))
  unfolding append_stdin stdin_appended
  append_stdin-Returns s = elim d [
    | inl none_read ↦
        let empty : (p.stdin.length == 0) ≡ true = ground (arith, none_read.1) in
        rw empty (as_before r refl refl)
    | inr (few_octets, full) ↦ elim (Bool-cases (p.stdin.length == 0)) [
      | inl empty ↦ rw empty (as_before r refl refl)
      | inr more ↦
          let (e, n_octets) = pointed-Full p.stdin.length p.stdin.data_bytes full in
          let octets = taken p.stdin.data_bytes p.stdin.length in
          rw (more, e)
            (Returns-bind (attempt (append_with_buffer os r.stdin octets))
              (λ t. pure (stdin_appended r t)) s (MissesAny os r p s)
              (λ t. Handed limit n b (length p.params) (stdin_appended r t))
              (Handed limit n b (length p.params))
              (Returns-attempt (append_with_buffer os r.stdin octets) s (MissesAny os r p s)
                (Appended r.stdin octets)
                (λ t. Handed limit n b (length p.params) (stdin_appended r t))
                (append_with_buffer-Appended os r.stdin octets v.text
                  (omega (arith, v.short, n_octets)) s)
                (as_before (in_request_state r error) refl refl)
                (λ t a. record {
                  table = IsMap-grows limit n (length p.params) r.parameters v.table;
                  text = a.valid;
                  short = omega (arith, a.grows, v.short, n_octets);
                }))
              (λ t s' w. w))
    ]
  ]

  -- The empty record of a stream leads to the next state, and another one is added.
  params-Returns :
      (next : RequestState) (s : Store)
      → Returns
          ((if p.header.content_length == 0
              then pure (in_request_state r next)
              else append_param os r p)
            s)
          (MissesAny os r p s)
          (Handed limit n b (length p.params))
  params-Returns next s = elim (Bool-cases (p.header.content_length == 0)) [
    | inl empty ↦ rw empty (as_before (in_request_state r next) refl refl)
    | inr more ↦ rw more (append_param-Returns s)
  ]

  stdin-Returns :
      (next : RequestState) (s : Store)
      → Returns
          ((if p.header.content_length == 0
              then pure (in_request_state r next)
              else append_stdin os r p)
            s)
          (MissesAny os r p s)
          (Handed limit n b (length p.params))
  stdin-Returns next s = elim (Bool-cases (p.header.content_length == 0)) [
    | inl empty ↦ rw empty (as_before (in_request_state r next) refl refl)
    | inr more ↦ rw more (append_stdin-Returns s)
  ]

  process_at-Returns :
      (state : RequestState) (s : Store)
      → Returns
          (process_at state os r p s)
          (MissesAny os r p s)
          (Handed limit n b (length p.params))
  unfolding process_at
  process_at-Returns begin s = elim (Bool-cases (p.header.type == begin_type)) [
    | inl begins ↦ rw begins (as_before _ refl refl)
    | inr other ↦ rw other (as_before _ refl refl)
  ]
  process_at-Returns param_or_stdin s = elim (Bool-cases (p.header.type == params_type)) [
    | inl params ↦ rw params (params-Returns stdin s)
    | inr other ↦ elim (Bool-cases (p.header.type == stdin_type)) [
      | inl input ↦ rw (other, input) (stdin-Returns param s)
      | inr neither ↦ rw (other, neither) (as_before _ refl refl)
    ]
  ]
  process_at-Returns param s = elim (Bool-cases (p.header.type == params_type)) [
    | inl params ↦ rw params (params-Returns finished s)
    | inr other ↦ rw other (as_before _ refl refl)
  ]
  process_at-Returns stdin s = elim (Bool-cases (p.header.type == stdin_type)) [
    | inl input ↦ rw input (stdin-Returns finished s)
    | inr other ↦ rw other (as_before _ refl refl)
  ]
  process_at-Returns finished s = as_before _ refl refl
  process_at-Returns error s = as_before r refl refl

finished_buffers :
    (p : Parser) (c : ParserState)
    → is_finished c ≡ true
    → In c p
    → AllComplete p.params × StdinDone p.stdin
unfolding is_finished
finished_buffers p ParserState.finished e b = b
finished_buffers p _ e b = absurd cc

-- A request whose table and input are well formed, within the bounds, is handed a parser whose
-- buffers are as its state says: the call returns and keeps the table and the input so, in every
-- state of the request and the parser, with memory or without. Only where there is no memory for the
-- string of a name, an access can be undefined.
pub process-IsRequest :
    (os : Platform) (limit n b : ℕ) (r : Request) (p : Parser) (s : Store)
    → limit ≤ 2 ^ 57
    → n + length p.params ≤ 2 ^ 54
    → b < 2 ^ 60
    → IsRequest limit n b r
    → IsParser p
    → Returns
        (process os r p s)
        (MissesName os r.parameters (reverse p.params) s)
        (IsRequest limit (n + length p.params) (b + 2 ^ 16))
unfolding process
process-IsRequest os limit n b r p s small few short v w = elim (Bool-cases (is_finished p.state)) [
  | inl whole ↦
      let (c, d) = finished_buffers p p.state whole w.buffers in
      rw whole (process_at-Returns os limit n b r p small few short v c d r.state s)
  | inr partial ↦
      rw partial (kept limit n b (length p.params) r (in_request_state r error) v refl refl)
]
