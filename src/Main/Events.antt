-- ===== src/Main/Events.antt =====
-- sl_main_event_loop: what a worker does with one event.
pub mod Order
pub mod Reached
use cpp_the_right_way.Base.{
  ℕ, Option, none, some, List, [], ◌∷◌, Bool, true, false, ◌==◌, if◌then◌else◌, get_elem?, set,
}
use cpp_the_right_way.Arena.{Platform}
use cpp_the_right_way.Run.{Run, ok, failed, fault}
use cpp_the_right_way.Log.{Log}
use cpp_the_right_way.Net.{
  Address, System, Connection, init_connection, find_connection, find_free_connection,
}
use cpp_the_right_way.Main.Reply.{Writev}
use cpp_the_right_way.Main.Connection.{
  Settlement, process_connection, arena_preallocate, params_preallocate,
}

-- An event, with what the system answers to the calls that it leads to. accept gives a socket or
-- fails (`none`); the two tests are sl_net_set_nonblocking_socket and epoll_ctl.
pub data Event : Type 0 where
  failed_accept : Event
  incoming : (client_socket : ℕ) → Address → (nonblocking added : Bool) → Event
  readable : (socket_fd : ℕ) → (answers : List (Option (List ℕ))) → Event

-- The calls on sockets that the worker makes.
pub data Action : Type 0 where
  watch close unwatch : ℕ → Action

-- The pool after an event, the calls in their order, and the replies.
pub record Outcome : Type 0 where
  pub pool : List Connection
  pub actions : List Action
  pub replies : List (List ℕ)

abbrev pub busy : Connection → Bool → Connection
busy c is_busy = record c { is_busy = is_busy }

-- A new connection in the place that is found.
unfoldable pub place_connection :
    System → Log → List Connection → ℕ → ℕ → Address → Option (List Connection)
place_connection system log pool place client_socket address = elim (get_elem? pool place) [
  | none ↦ none
  | some c ↦
      elim (init_connection system c log client_socket address arena_preallocate
        params_preallocate) [ none ↦ none | some c' ↦ some (set pool place (busy c' true)) ]
]

-- The branches of the server's socket behind accept. `none` is an access that is undefined.
unfoldable pub accept_connection :
    System → Log → List Connection → ℕ → Address → Bool → Bool → Option Outcome
unfolding place_connection
accept_connection system log pool client_socket address nonblocking added =
    if nonblocking
    then elim (find_free_connection pool) [
      | none ↦ some (record { pool = pool; actions = close client_socket ∷ []; replies = [] })
      | some place ↦
          if added
          then elim (place_connection system log pool place client_socket address) [
            | none ↦ none
            | some pool' ↦
                some (record { pool = pool'; actions = watch client_socket ∷ []; replies = [] })
          ]
          else some (record { pool = pool; actions = close client_socket ∷ []; replies = [] })
    ]
    else some (record { pool = pool; actions = close client_socket ∷ []; replies = [] })

-- What follows sl_main_process_connection.
unfoldable pub after_connection : List Connection → ℕ → ℕ → Settlement → Outcome
after_connection pool place socket_fd t =
    if t.code == 0
    then record {
      pool = set pool place (busy t.connection false);
      actions = unwatch socket_fd ∷ close socket_fd ∷ [];
      replies = t.replies;
    }
    else record { pool = set pool place t.connection; actions = []; replies = t.replies }

-- The branches of a client's socket. Without a connection a message is put together in the arena of
-- NULL.
unfoldable pub read_connection :
    Platform → Writev → System → List Connection → ℕ → List (Option (List ℕ)) → Option Outcome
unfolding after_connection
read_connection os writev system pool socket_fd answers = elim (find_connection pool socket_fd) [
  | none ↦ none
  | some place ↦ elim (get_elem? pool place) [
    | none ↦ none
    | some c ↦ elim (process_connection os writev system c answers c.store) [
      | ok t s ↦ some (after_connection pool place socket_fd t)
      | failed s ↦ none
      | fault ↦ none
    ]
  ]
]

-- One round of the loop over the events.
unfoldable pub handle_event :
    Platform → Writev → System → Log → List Connection → Event → Option Outcome
unfolding accept_connection read_connection
handle_event os writev system log pool failed_accept =
    some (record { pool = pool; actions = []; replies = [] })
handle_event os writev system log pool (incoming client_socket address nonblocking added) =
    accept_connection system log pool client_socket address nonblocking added
handle_event os writev system log pool (readable socket_fd answers) =
    read_connection os writev system pool socket_fd answers
