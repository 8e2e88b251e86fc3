-- ===== src/Main/Connection/Settled.antt =====
-- sl_main_process_connection: when a connection is kept.
use mathlib.Core.List.{append-nil}
use cpp_the_right_way.Base.{
  ℕ, ◌≤◌, Option, none, some, List, [], ◌∷◌, ◌++◌, ◌≡◌, refl, ◌⊎◌, inl, inr, arith, true, false,
  Bool-cases, ◌||◌, if◌then◌else◌, ltb, length, bit_and,
}
use cpp_the_right_way.Arena.{Platform, Store}
use cpp_the_right_way.Run.{
  ok, pure, access, ◌>>=◌, Partly, Partly-bind, Partly-then, Partly-run, Partly-map,
}
use cpp_the_right_way.Strings.{number}
use cpp_the_right_way.Fcgi.Parser.State.{Parser, ParserState, log_write_format}
use cpp_the_right_way.Fcgi.Parser.State
use cpp_the_right_way.Fcgi.Request.{Request, RequestState}
use cpp_the_right_way.Fcgi.Request
use cpp_the_right_way.Net.{Connection, System, init_connection}
use cpp_the_right_way.Net.Fresh.{IsNew, Possibly, init_connection-Possibly}
use cpp_the_right_way.Main.Reply.{Writev, response_octets}
use cpp_the_right_way.Main.Records.{IsWritev}
use cpp_the_right_way.Main.Execute.{reply_text}
use cpp_the_right_way.Main.Loop.{Turn, is_error, parse_buffer}
use cpp_the_right_way.Main.Loop.Rounds.{Replied, Ends, parse_buffer-Ends}
use cpp_the_right_way.Main.Connection.{
  recv_buffer_size, arena_preallocate, params_preallocate, received_format, is_request_error,
  is_request_finished, keeps_connection, is_broken, Session, turned, recv_loop, with_session,
  Settlement, current_store, settle, process_connection,
}

-- All that is sent is the reply, under some request's number.
abbrev AllReplies : List (List ℕ) → Type 0
AllReplies [] = Unit {0}
AllReplies (octets ∷ rest) =
    ((id : ℕ) × (octets ≡ response_octets id reply_text (length reply_text))) × AllReplies rest

-- recv fills a buffer of 10240 octets.
abbrev pub AllShort : List (Option (List ℕ)) → Type 0
AllShort [] = Unit {0}
AllShort (none ∷ answers) = AllShort answers
AllShort (some octets ∷ answers) = (length octets ≤ recv_buffer_size) × AllShort answers

-- What the reads left ends in an error.
abbrev pub Broken : Session → Type 0
Broken x = (x.request.state ≡ RequestState.error) ⊎ (x.parser.state ≡ ParserState.error)

-- It is a finished request, or one with the flag to keep the connection, of value 1.
abbrev pub MayStay : Session → Type 0
MayStay x = (x.request.state ≡ RequestState.finished) ⊎ (bit_and x.request.flags 1 ≡ 1)

-- The connection is kept: it is busy, on the same socket, with a new parser and a new request.
abbrev IsKept : Connection → Settlement → Type 0
IsKept c t =
    (t.code ≡ 1)
    × (t.connection.is_busy ≡ true)
    × (t.connection.socket_fd ≡ c.socket_fd)
    × (t.connection.parser ≡ State.init)
    × (t.connection.request ≡ Request.init params_preallocate)

-- The connection is given up, as the reads left it.
abbrev IsGivenUp : Connection → Session → Store → Settlement → Type 0
IsGivenUp c x s t = (t.code ≡ 0) × (t.connection ≡ with_session c x s)

-- How a connection is settled behind reads that left this session and this store.
abbrev pub Settled : Connection → Session → Store → Settlement → Type 0
Settled c x s t =
    AllReplies t.replies
    × (t.replies ≡ x.replies)
    × ((¬ Broken x × MayStay x × IsKept c t) ⊎ ((Broken x ⊎ ¬ MayStay x) × IsGivenUp c x s t))

-- What the loop of reads starts with.
abbrev pub opened : Connection → Session
opened c = record { request = c.request; parser = c.parser; replies = [] }

-- The reads, and what they come to.
pub record Concluded (os : Platform) (writev : Writev) (c : Connection)
    (answers : List (Option (List ℕ))) (s : Store) (t : Settlement) : Type 0 where
  pub session : Session
  pub store : Store
  pub run : recv_loop os writev (opened c) answers s ≡ ok session store
  pub settled : Settled c session store t

request_error : (c : RequestState) → is_request_error c ≡ true → c ≡ RequestState.error
unfolding is_request_error
request_error RequestState.error e = refl
request_error _ e = absurd cc

parser_error : (c : ParserState) → is_error c ≡ true → c ≡ ParserState.error
unfolding is_error
parser_error ParserState.error e = refl
parser_error _ e = absurd cc

is_broken-Broken : (x : Session) → is_broken x.request x.parser ≡ true → Broken x
unfolding is_broken
is_broken-Broken x e = elim (Bool-cases (is_request_error x.request.state)) [
  | inl refused ↦ inl (request_error x.request.state refused)
  | inr fine ↦ inr (parser_error x.parser.state (rw fine at e))
]

not-Broken : (x : Session) → is_broken x.request x.parser ≡ false → ¬ Broken x
unfolding is_broken is_request_error is_error
not-Broken x e (inl h) =
    let refused : is_request_error x.request.state ≡ true = rw h refl in absurd cc
not-Broken x e (inr h) = let refused : is_error x.parser.state ≡ true = rw h refl in ground arith

finished_state : (c : RequestState) → is_request_finished c ≡ true → c ≡ RequestState.finished
unfolding is_request_finished
finished_state RequestState.finished e = refl
finished_state _ e = absurd cc

not-MayStay :
    (x : Session)
    → is_request_finished x.request.state ≡ false
    → keeps_connection x.request.flags ≡ false
    → ¬ MayStay x
unfolding is_request_finished keeps_connection
not-MayStay x e k (inl h) = absurd cc
not-MayStay x e k (inr h) = ground arith

AllReplies-append :
    (xs : List (List ℕ)) (octets : List ℕ) (id : ℕ)
    → AllReplies xs
    → octets ≡ response_octets id reply_text (length reply_text)
    → AllReplies (xs ++ octets ∷ [])
AllReplies-append [] octets id v e = ((id, e), tt)
AllReplies-append (x ∷ xs) octets id v e = (v.0, AllReplies-append xs octets id v.1 e)

turned-AllReplies :
    (x : Session) (t : Turn) → AllReplies x.replies → Replied t → AllReplies (turned x t).replies
unfolding turned
turned-AllReplies x t v (inl quiet) = rw (quiet, append-nil x.replies) v
turned-AllReplies x t v (inr (done, sent)) =
    rw sent (AllReplies-append x.replies _ t.request.request_id v refl)

by_turn :
    (os : Platform) (writev : Writev) (x : Session) (octets : List ℕ)
    (answers : List (Option (List ℕ))) (turn : Option Turn) (s : Store)
    → Ends turn
    → AllReplies x.replies
    → ((x' : Session) (s' : Store)
        → AllReplies x'.replies
        → Partly (recv_loop os writev x' answers s') (λ y. AllReplies y.replies))
    → Partly
        ((access turn >>= (λ t.
            if is_broken t.request t.parser || ltb (length octets) recv_buffer_size
            then pure (turned x t)
            else recv_loop os writev (turned x t) answers))
          s)
        (λ y. AllReplies y.replies)
by_turn os writev x octets answers none s e v go = absurd e
by_turn os writev x octets answers (some t) s e v go =
    elim (Bool-cases (is_broken t.request t.parser || ltb (length octets) recv_buffer_size)) [
      | inl stop ↦ rw stop (turned-AllReplies x t v e)
      | inr onward ↦ rw onward (go (turned x t) s (turned-AllReplies x t v e))
    ]

recv_loop-AllReplies :
    (os : Platform) (writev : Writev) (x : Session) (answers : List (Option (List ℕ))) (s : Store)
    → IsWritev writev
    → AllShort answers
    → AllReplies x.replies
    → Partly (recv_loop os writev x answers s) (λ x'. AllReplies x'.replies)
unfolding recv_loop
recv_loop-AllReplies os writev x [] s w short v = v
recv_loop-AllReplies os writev x (none ∷ answers) s w short v = v
recv_loop-AllReplies os writev x (some [] ∷ answers) s w short v = v
recv_loop-AllReplies os writev x (some (octet ∷ octets) ∷ answers) s w (small, short) v =
    Partly-then (log_write_format os received_format (number (length (octet ∷ octets)) ∷ [])) _ s
      (λ x'. AllReplies x'.replies)
      (λ _ s₁.
        Partly-bind (parse_buffer os writev x.request x.parser (octet ∷ octets)) _ s₁ Ends
          (λ x'. AllReplies x'.replies)
          (parse_buffer-Ends os writev x.request x.parser (octet ∷ octets) s₁ w (omega arith))
          (λ turn s₂ e.
            by_turn os writev x (octet ∷ octets) answers turn s₂ e v
              (λ x' s' v'. recv_loop-AllReplies os writev x' answers s' w short v')))

-- The connection is set up again.
renewed-IsKept :
    (system : System) (c : Connection) (x : Session) (s s' : Store)
    → AllReplies x.replies
    → ¬ Broken x
    → MayStay x
    → Partly
        ((access (
              init_connection system
                (with_session c x s)
                c.log
                c.socket_fd
                c.address
                arena_preallocate
                params_preallocate)
            >>= (λ fresh. pure (record {
              connection = record fresh { is_busy = true };
              code = 1;
              replies = x.replies;
            })))
          s')
        (Settled c x s)
renewed-IsKept system c x s s' v sound stays =
    go
      (init_connection system (with_session c x s) c.log c.socket_fd c.address arena_preallocate
        params_preallocate)
      (init_connection-Possibly system (with_session c x s) c.log c.socket_fd c.address
        arena_preallocate params_preallocate)
  where
    go :
        (o : Option Connection)
        → Possibly o (IsNew c.socket_fd params_preallocate)
        → Partly
            ((access o >>= (λ fresh. pure (record {
              connection = record fresh { is_busy = true };
              code = 1;
              replies = x.replies;
            })))
              s')
            (Settled c x s)
    go none h = tt
    go (some fresh) (socket, parser, request) =
        (v, refl, inl (sound, stays, (refl, refl, socket, parser, request)))

settle-Settled :
    (system : System) (c : Connection) (x : Session) (s : Store)
    → AllReplies x.replies
    → Partly (settle system c x s) (Settled c x s)
unfolding settle current_store
settle-Settled system c x s v = elim (Bool-cases (is_broken x.request x.parser)) [
  | inl broken ↦ rw broken (v, refl, inr (inl (is_broken-Broken x broken), (refl, refl)))
  | inr sound ↦ elim (Bool-cases (is_request_finished x.request.state)) [
    | inl done ↦
        rw (sound, done)
          (renewed-IsKept system c x s s v (not-Broken x sound)
            (inl (finished_state x.request.state done)))
    | inr under_way ↦ elim (Bool-cases (keeps_connection x.request.flags)) [
      | inl keeps ↦
          rw (sound, under_way, keeps)
            (renewed-IsKept system c x s s v (not-Broken x sound) (inr (ground arith)))
      | inr drops ↦
          rw (sound, under_way, drops)
            (v, refl, inr (inr (not-MayStay x under_way drops), (refl, refl)))
    ]
  ]
]

-- sl_main_process_connection, with any answers of recv that fit its buffer, and where writev answers
-- at most the number of octets that it is given, if it returns: all that was sent during the reads
-- are replies, each with some request's number. If the reads left neither the request nor the parser
-- in error, and the request finished or with the flag to keep the connection, then the code is 1 and
-- the connection is busy on its socket with a new parser and a new request, so that nothing of a
-- request survives the call. In every other case the code is 0 and the connection is as the reads
-- left it.
pub process_connection-Settled :
    (os : Platform) (writev : Writev) (system : System) (c : Connection)
    (answers : List (Option (List ℕ))) (s : Store)
    → IsWritev writev
    → AllShort answers
    → Partly (process_connection os writev system c answers s) (Concluded os writev c answers s)
unfolding process_connection
process_connection-Settled os writev system c answers s w short =
    Partly-run (recv_loop os writev (opened c) answers) (λ x. settle system c x) s
      (λ x. AllReplies x.replies) (Concluded os writev c answers s)
      (recv_loop-AllReplies os writev (opened c) answers s w short tt)
      (λ x s' e v.
        Partly-map (settle system c x s') (Settled c x s') (Concluded os writev c answers s)
          (settle-Settled system c x s' v)
          (λ t h. record { session = x; store = s'; run = e; settled = h }))
