-- ===== src/Net.antt =====
-- sl_net.c: the connections of a worker, and the pool that they stand in.
pub mod Pool
pub mod Fresh
use cpp_the_right_way.Base.{
  ℕ, suc, Option, none, some, List, [], ◌∷◌, ◌++◌, Bool, true, false, not, bit_or, ◌==◌,
  if◌then◌else◌,
}
use cpp_the_right_way.Arena.{Arena, Store, rewind, destroy}
use cpp_the_right_way.Arena
use cpp_the_right_way.Log.{Log, set_pid, set_ip_address_port, ◌>>=◌}
use cpp_the_right_way.Log
use cpp_the_right_way.Fcgi.Parser.State.{Parser}
use cpp_the_right_way.Fcgi.Parser.State
use cpp_the_right_way.Fcgi.Request.{Request}
use cpp_the_right_way.Fcgi.Request

-- sockaddr_in, with the address and the port in the order of the host.
pub record Address : Type 0 where
  pub family : ℕ
  pub ip_address : ℕ
  pub port : ℕ

-- What the system answers: getpid, and the bytes behind the pointer of inet_ntoa.
pub record System : Type 0 where
  pub getpid : ℕ
  pub inet_ntoa : ℕ → List ℕ

-- sl_net_connection; the store is its arena.
pub record Connection : Type 0 where
  pub socket_fd : ℕ
  pub address : Address
  pub is_busy : Bool
  pub store : Store
  pub log : Log
  pub parser : Parser
  pub request : Request

abbrev af_inet : ℕ
af_inet = 2

unfoldable create_address : ℕ → ℕ → Address
create_address ip_address port = record { family = af_inet; ip_address = ip_address; port = port }

-- What the system answers to the calls that set a socket up: socket a number or -1 (`none`), bind and
-- listen success, and fcntl the flags of a socket, or success.
pub record Sockets : Type 0 where
  pub socket : Option ℕ
  pub bind : ℕ → Address → Bool
  pub listen : ℕ → ℕ → Bool
  pub get_flags : ℕ → Option ℕ
  pub set_flags : ℕ → ℕ → Bool

abbrev o_nonblock : ℕ
o_nonblock = 2048

-- `none` is -1. The answer of setsockopt is not looked at, and a socket is not closed on a failure.
unfoldable create_listen_socket : Sockets → ℕ → ℕ → ℕ → Option ℕ
unfolding create_address
create_listen_socket os ip_address port backlog = do
  listen_socket ← os.socket
  (if not (os.bind listen_socket (create_address ip_address port))
      then none
      else if not (os.listen listen_socket backlog)
      then none
      else some listen_socket)

-- Is 0 returned, and not -1?
unfoldable set_nonblocking_socket : Sockets → ℕ → Bool
set_nonblocking_socket os socket_fd = elim (os.get_flags socket_fd) [
  | none ↦ false
  | some flags ↦ os.set_flags socket_fd (bit_or flags o_nonblock)
]

-- The arena of a connection that is set up again keeps its blocks.
unfoldable pub reset_arena : Arena → ℕ → Arena
reset_arena arena arena_preallocate = elim arena.blocks [
  | [] ↦ Arena.init arena_preallocate
  | b ∷ bs ↦ rewind arena
]

-- `none` is an access outside an array of the log.
unfoldable pub init_connection : System → Connection → Log → ℕ → Address → ℕ → ℕ → Option Connection
unfolding reset_arena
init_connection system c log socket_fd address arena_preallocate param_hashtable_size = do
  named ← set_pid (Log.init log.min_level log.log_fd) system.getpid
  placed ← set_ip_address_port named (system.inet_ntoa address.ip_address) address.port
  some (record {
    socket_fd = socket_fd;
    address = address;
    is_busy = false;
    store = record c.store { arena = reset_arena c.store.arena arena_preallocate };
    log = placed;
    parser = State.init;
    request = Request.init param_hashtable_size;
  })

-- The place in the pool; `none` is NULL.
unfoldable pub find_connection : List Connection → ℕ → Option ℕ
find_connection [] socket_fd = none
find_connection (c ∷ cs) socket_fd =
    let rest = find_connection cs socket_fd in
    if c.socket_fd == socket_fd then some 0 else elim rest [ none ↦ none | some n ↦ some (suc n) ]

unfoldable pub find_free_connection : List Connection → Option ℕ
find_free_connection [] = none
find_free_connection (c ∷ cs) =
    let rest = find_free_connection cs in
    if c.is_busy then elim rest [ none ↦ none | some n ↦ some (suc n) ] else some 0

-- One round of sl_net_destroy_connections: the connection, and the addresses that are freed.
unfoldable pub destroy_connection : Connection → Connection × List ℕ
destroy_connection c = elim c.store.arena.blocks [
  | [] ↦ (c, [])
  | b ∷ bs ↦ (
    record c { store = record c.store { arena = (destroy c.store.arena).0 } },
    (destroy c.store.arena).1,
  )
]

unfoldable pub destroy_connections : List Connection → List Connection × List ℕ
unfolding destroy_connection
destroy_connections [] = ([], [])
destroy_connections (c ∷ cs) =
    let (c', freed) = destroy_connection c in
    let (cs', others) = destroy_connections cs in (c' ∷ cs', freed ++ others)
