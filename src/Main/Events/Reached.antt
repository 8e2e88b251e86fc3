-- ===== src/Main/Events/Reached.antt =====
-- sl_main_event_loop: the pools that a worker can come to.
use mathlib.Core.Path.{subst}
use cpp_the_right_way.Base.{
  ℕ, Option, none, some, List, [], ◌∷◌, ◌≡◌, sym, ap, ◌∙◌, inl, inr, Bool, true, false, not,
  Bool-cases, Option-cases, ◌<◌, get_elem?, set,
}
use cpp_the_right_way.Arena.{Platform, Store}
use cpp_the_right_way.Run.{Run, ok, failed, fault, Partly}
use cpp_the_right_way.Log.{Log}
use cpp_the_right_way.Net.{
  Address, System, Connection, init_connection, find_connection, find_free_connection,
}
use cpp_the_right_way.Net.Fresh.{IsNew, Possibly, Possibly-map, init_connection-Possibly}
use cpp_the_right_way.Net.Pool.{IsFirst, find_free_connection-IsFirst}
use cpp_the_right_way.Main.Reply.{Writev}
use cpp_the_right_way.Main.Records.{IsWritev}
use cpp_the_right_way.Main.Connection.{
  Session, Settlement, process_connection, arena_preallocate, params_preallocate,
}
use cpp_the_right_way.Main.Connection.Settled.{
  AllShort, Settled, Concluded, process_connection-Settled,
}
use cpp_the_right_way.Main.Events.Order.{
  NoneBusy, Ordered, find_connection-busy, place-Ordered, update-Ordered,
}
use cpp_the_right_way.Main.Events.{
  Event, failed_accept, incoming, readable, watch, Outcome, busy, place_connection,
  accept_connection, after_connection, read_connection, handle_event,
}

-- `P` holds of the outcome, if there is one.
abbrev OnOutcome : Option Outcome → (Outcome → Type 0) → Type 0
OnOutcome none P = Unit {0}
OnOutcome (some o) P = P o

-- What the system can report: accept gives a socket that no connection is busy with, and only the
-- sockets of busy connections are readable, by the answers of recv.
abbrev pub IsPossible : List Connection → Event → Type 0
IsPossible pool failed_accept = Unit {0}
IsPossible pool (incoming client_socket address nonblocking added) = NoneBusy client_socket pool
IsPossible pool (readable socket_fd answers) =
    AllShort answers
    × ((n : ℕ) × (c : Connection) × (get_elem? pool n ≡ some c)
        × (c.is_busy ≡ true)
        × (c.socket_fd ≡ socket_fd))

busy_lem :
    (pool : List Connection) (n client_socket : ℕ) (o : Option Connection)
    → Ordered pool
    → NoneBusy client_socket pool
    → ((m : ℕ) (x : Connection) → m < n → get_elem? pool m ≡ some x → not x.is_busy ≡ false)
    → Possibly o (λ c'. c'.socket_fd ≡ client_socket)
    → OnOutcome
        (elim (elim o as (λ _. Option (List Connection)) [
          | none ↦ none
          | some c' ↦ some (set pool n (busy c' true))
        ])
          as (λ _. Option Outcome) [
            | none ↦ none
            | some pool' ↦
                some (record { pool = pool'; actions = watch client_socket ∷ []; replies = [] })
          ])
        (λ t. Ordered t.pool)
busy_lem pool n client_socket none v h before f = tt
busy_lem pool n client_socket (some c') v h before f =
    place-Ordered pool n (busy c' true) v (subst (λ (fd : ℕ). NoneBusy fd pool) (sym f) h) before

place_connection-Ordered :
    (system : System) (log : Log) (pool : List Connection) (client_socket : ℕ) (address : Address)
    (n : ℕ)
    → Ordered pool
    → NoneBusy client_socket pool
    → ((m : ℕ) (x : Connection) → m < n → get_elem? pool m ≡ some x → not x.is_busy ≡ false)
    → OnOutcome
        (elim (place_connection system log pool n client_socket address) as (λ _. Option Outcome) [
          | none ↦ none
          | some pool' ↦
              some (record { pool = pool'; actions = watch client_socket ∷ []; replies = [] })
        ])
        (λ t. Ordered t.pool)
unfolding place_connection
place_connection-Ordered system log pool client_socket address n v h before =
    elim (Option-cases (get_elem? pool n)) [
      | inl outside ↦ rw outside tt
      | inr (c, e) ↦ rw e (
          busy_lem pool n client_socket
            (init_connection system c log client_socket address arena_preallocate
              params_preallocate)
            v h before
            (Possibly-map _ (IsNew client_socket params_preallocate) _
              (init_connection-Possibly system c log client_socket address arena_preallocate
                params_preallocate)
              (λ c' f. f.0)))
    ]

accept_connection-Ordered :
    (system : System) (log : Log) (pool : List Connection) (client_socket : ℕ) (address : Address)
    (nonblocking added : Bool)
    → Ordered pool
    → NoneBusy client_socket pool
    → OnOutcome
        (accept_connection system log pool client_socket address nonblocking added)
        (λ t. Ordered t.pool)
unfolding accept_connection
accept_connection-Ordered system log pool client_socket address false added v h = v
accept_connection-Ordered system log pool client_socket address true added v h =
    elim (Option-cases (find_free_connection pool)) [
      | inl full ↦ rw full v
      | inr (n, e) ↦ rw e (elim (Bool-cases added) [
        | inl watched ↦ rw watched (
            place_connection-Ordered system log pool client_socket address n v h
              (subst (IsFirst (λ c. not c.is_busy) pool) e (find_free_connection-IsFirst pool)).3)
        | inr refused ↦ rw refused v
      ])
    ]

after_connection-Ordered :
    (pool : List Connection) (n socket_fd : ℕ) (c : Connection) (x : Session) (s : Store)
    (t : Settlement)
    → Ordered pool
    → get_elem? pool n ≡ some c
    → c.is_busy ≡ true
    → Settled c x s t
    → Ordered (after_connection pool n socket_fd t).pool
unfolding after_connection
after_connection-Ordered pool n socket_fd c x s t v e b (_, _, inl (_, _, (code, _, same, _, _))) =
    rw code (update-Ordered pool n c t.connection v e same (λ _. b))
after_connection-Ordered pool n socket_fd c x s t v e b (_, _, inr (_, (code, left))) =
    rw code
      (update-Ordered pool n c (busy t.connection false) v e (ap (λ d. d.socket_fd) left) (λ _. b))

read_connection-Ordered :
    (os : Platform) (writev : Writev) (system : System) (pool : List Connection) (socket_fd : ℕ)
    (answers : List (Option (List ℕ))) (n : ℕ) (c : Connection)
    → IsWritev writev
    → AllShort answers
    → Ordered pool
    → get_elem? pool n ≡ some c
    → c.is_busy ≡ true
    → c.socket_fd ≡ socket_fd
    → OnOutcome (read_connection os writev system pool socket_fd answers) (λ t. Ordered t.pool)
unfolding read_connection
read_connection-Ordered os writev system pool socket_fd answers n c w short v e b same =
    let found : find_connection pool socket_fd ≡ some n =
      ap (find_connection pool) (sym same) ∙ find_connection-busy pool n c v e b in
    rw (found, e, read_connection)
      (go (process_connection os writev system c answers c.store)
        (process_connection-Settled os writev system c answers c.store w short))
  where
    go :
        (r : Run Settlement)
        → Partly r (Concluded os writev c answers c.store)
        → OnOutcome
            (elim r as (λ _. Option Outcome) [
              | ok t s ↦ some (after_connection pool n socket_fd t)
              | failed s ↦ none
              | fault ↦ none
            ])
            (λ t. Ordered t.pool)
    go (ok t s) h = after_connection-Ordered pool n socket_fd c h.session h.store t v e b h.settled
    go (failed s) h = tt
    go fault h = tt

handle_event-Ordered :
    (os : Platform) (writev : Writev) (system : System) (log : Log) (pool : List Connection)
    (event : Event)
    → IsWritev writev
    → Ordered pool
    → IsPossible pool event
    → OnOutcome (handle_event os writev system log pool event) (λ t. Ordered t.pool)
unfolding handle_event
handle_event-Ordered os writev system log pool failed_accept w v possible = v
handle_event-Ordered os writev system log pool (incoming client_socket address nonblocking added) w
      v possible =
    accept_connection-Ordered system log pool client_socket address nonblocking added v possible
handle_event-Ordered os writev system log pool (readable socket_fd answers) w v
      (short, (n, c, e, b, same)) =
    read_connection-Ordered os writev system pool socket_fd answers n c w short v e b same

abbrev AllFree : List Connection → Type 0
AllFree [] = Unit {0}
AllFree (c ∷ cs) = (c.is_busy ≡ false) × AllFree cs

AllFree-NoneBusy : (fd : ℕ) (cs : List Connection) → AllFree cs → NoneBusy fd cs
AllFree-NoneBusy fd [] v = tt
AllFree-NoneBusy fd (c ∷ cs) v = (λ b. absurd cc, AllFree-NoneBusy fd cs v.1)

AllFree-Ordered : (cs : List Connection) → AllFree cs → Ordered cs
AllFree-Ordered [] v = tt
AllFree-Ordered (c ∷ cs) v = (AllFree-NoneBusy c.socket_fd cs v.1, AllFree-Ordered cs v.1)

-- The pools that a worker can come to, from one in which no connection is busy.
pub data Reached (os : Platform) (writev : Writev) (system : System) (log : Log)
    : List Connection → Type 0 where
  at_start : (pool : List Connection) → AllFree pool → Reached os writev system log pool
  behind :
      (pool : List Connection) (event : Event) (t : Outcome)
      → Reached os writev system log pool
      → IsPossible pool event
      → handle_event os writev system log pool event ≡ some t
      → Reached os writev system log t.pool

Reached-Ordered :
    (os : Platform) (writev : Writev) (system : System) (log : Log) (pool : List Connection)
    → IsWritev writev
    → Reached os writev system log pool
    → Ordered pool
Reached-Ordered os writev system log pool w (at_start _ v) = AllFree-Ordered pool v
Reached-Ordered os writev system log pool w (behind before event t r possible e) =
    subst (λ (o : Option Outcome). OnOutcome o (λ t'. Ordered t'.pool)) e
      (handle_event-Ordered os writev system log before event w
        (Reached-Ordered os writev system log before w r) possible)

-- In every pool that a worker can come to by events, of which each is one that the system can report
-- then (`IsPossible`), and where writev answers at most the number of octets that it is given, the
-- search for the socket of a busy connection finds that connection, although it does not ask whether
-- a connection is busy and a free one keeps its old socket.
pub Reached-find_connection :
    (os : Platform) (writev : Writev) (system : System) (log : Log) (pool : List Connection) (n : ℕ)
    (c : Connection)
    → IsWritev writev
    → Reached os writev system log pool
    → get_elem? pool n ≡ some c
    → c.is_busy ≡ true
    → find_connection pool c.socket_fd ≡ some n
Reached-find_connection os writev system log pool n c w r e b =
    find_connection-busy pool n c (Reached-Ordered os writev system log pool w r) e b
