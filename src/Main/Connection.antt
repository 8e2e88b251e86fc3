-- ===== src/Main/Connection.antt =====
-- sl_main_process_connection: the reads of one event, and what becomes of the connection.
pub mod Settled
use cpp_the_right_way.Base.{
  ℕ, zero, suc, ◌+◌, Option, none, some, List, [], ◌∷◌, ◌++◌, Bool, true, false, ◌==◌, ◌||◌,
  if◌then◌else◌, ltb, length, bit_and,
}
use cpp_the_right_way.Arena.{Platform, Store}
use cpp_the_right_way.Run.{M, ok, pure, access, ◌>>=◌}
use cpp_the_right_way.Strings.{number}
use cpp_the_right_way.Fcgi.Parser.State.{Parser, log_write_format}
use cpp_the_right_way.Fcgi.Request.{RequestState, Request}
use cpp_the_right_way.Net.{Connection, System, init_connection}
use cpp_the_right_way.Main.Reply.{Writev}
use cpp_the_right_way.Main.Loop.{Turn, is_error, parse_buffer}

abbrev pub recv_buffer_size : ℕ
recv_buffer_size = 10240

abbrev pub arena_preallocate : ℕ
arena_preallocate = 102400

abbrev pub params_preallocate : ℕ
params_preallocate = 64

-- "Received %z bytes"
abbrev pub received_format : List ℕ
received_format =
    82 ∷ 101 ∷ 99 ∷ 101 ∷ 105 ∷ 118 ∷ 101 ∷ 100 ∷ 32 ∷ 37 ∷ 122 ∷ 32 ∷ 98 ∷ 121 ∷ 116 ∷ 101 ∷ 115
    ∷ []

unfoldable pub is_request_error : RequestState → Bool
is_request_error RequestState.error = true
is_request_error _ = false

unfoldable pub is_request_finished : RequestState → Bool
is_request_finished RequestState.finished = true
is_request_finished _ = false

-- SL_FCGI_FLAG_KEEP_CONN is 1.
unfoldable pub keeps_connection : ℕ → Bool
keeps_connection flags = bit_and flags 1 == 1

unfoldable pub is_broken : Request → Parser → Bool
unfolding is_request_error
is_broken r p = is_request_error r.state || is_error p.state

-- The request and the parser of a connection between two reads, and the replies so far.
pub record Session : Type 0 where
  pub request : Request
  pub parser : Parser
  pub replies : List (List ℕ)

abbrev reply_of : Option (List ℕ) → List (List ℕ)
reply_of none = []
reply_of (some octets) = octets ∷ []

unfoldable pub turned : Session → Turn → Session
turned x t = record {
  request = t.request;
  parser = t.parser;
  replies = x.replies ++ reply_of t.sent;
}

-- The loop of reads. The list holds the answers of recv one after the other, `none` for -1, and an
-- empty list of octets for 0; behind its end recv answers -1. A sl_main_parse_buffer without an end
-- would be a fault.
unfoldable pub recv_loop : Platform → Writev → Session → List (Option (List ℕ)) → M Session
unfolding is_broken turned
recv_loop os writev x [] = pure x
recv_loop os writev x (none ∷ answers) = pure x
recv_loop os writev x (some [] ∷ answers) = pure x
recv_loop os writev x (some (octet ∷ octets) ∷ answers) = do
  _ ← log_write_format os received_format (number (length (octet ∷ octets)) ∷ [])
  turn ← parse_buffer os writev x.request x.parser (octet ∷ octets)
  t ← access turn
  (if is_broken t.request t.parser || ltb (length (octet ∷ octets)) recv_buffer_size
      then pure (turned x t)
      else recv_loop os writev (turned x t) answers)

-- What a call does: the connection, the code that is returned, and the replies.
pub record Settlement : Type 0 where
  pub connection : Connection
  pub code : ℕ
  pub replies : List (List ℕ)

unfoldable pub current_store : M Store
current_store s = ok s s

abbrev pub with_session : Connection → Session → Store → Connection
with_session c x s = record c { store = s; parser = x.parser; request = x.request }

-- What follows the loop of reads.
unfoldable pub settle : System → Connection → Session → M Settlement
unfolding is_broken is_request_finished keeps_connection current_store
settle system c x = do
  s ← current_store
  let read = with_session c x s
  (if is_broken x.request x.parser
      then pure (record { connection = read; code = 0; replies = x.replies })
      else if is_request_finished x.request.state || keeps_connection x.request.flags
      then (do
        fresh ← access (
            init_connection system read read.log read.socket_fd read.address arena_preallocate
              params_preallocate)
        pure (record {
          connection = record fresh { is_busy = true };
          code = 1;
          replies = x.replies;
        }))
      else pure (record { connection = read; code = 0; replies = x.replies }))

unfoldable pub process_connection :
    Platform → Writev → System → Connection → List (Option (List ℕ)) → M Settlement
unfolding recv_loop settle
process_connection os writev system c answers = do
  x ← recv_loop os writev (record { request = c.request; parser = c.parser; replies = [] }) answers
  settle system c x
