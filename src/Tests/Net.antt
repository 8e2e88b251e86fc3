-- ===== src/Tests/Net.antt =====
-- sl_net.c and the numbers of sl_log.c at concrete values.
use cpp_the_right_way.Base.{ℕ, some, List, [], ◌∷◌, ◌≡◌, arith, Bool, true, false, replicate}
use cpp_the_right_way.Arena.Lifetime.{init-IsArena}
use cpp_the_right_way.Log.{
  Log, cstring, set_pid, set_ip_address_port, max_pid_length, max_port_length,
}
use cpp_the_right_way.Log
use cpp_the_right_way.Fcgi.Parser.State
use cpp_the_right_way.Fcgi.Request
use cpp_the_right_way.Arena
use cpp_the_right_way.Net.{Address, System, Connection, init_connection, destroy_connections}
use cpp_the_right_way.Net.Fresh.{IsSystem, Fresh, init_connection-Fresh}
use cpp_the_right_way.Net.Pool.{NoBlocks, pool_addresses, destroy_connections_lem}

abbrev pub new_log : Log
new_log = Log.init 2 1

-- "127.0.0.1" in a buffer of 18 bytes
abbrev pub system : System
system = record {
  getpid = 4711;
  inet_ntoa = λ ip_address. 49 ∷ 50 ∷ 55 ∷ 46 ∷ 48 ∷ 46 ∷ 48 ∷ 46 ∷ 49 ∷ replicate 9 0;
}

system-IsSystem : IsSystem system
system-IsSystem = record { pid_range = omega arith; text_length = λ ip_address. omega arith }

abbrev pub local_address : Address
local_address = record { family = 2; ip_address = 2130706433; port = 9000 }

abbrev pub idle : Bool → ℕ → Connection
idle is_busy socket_fd = record {
  socket_fd = socket_fd;
  address = local_address;
  is_busy = is_busy;
  store = record { arena = Arena.init 102400; mallocs = 0 };
  log = new_log;
  parser = State.init;
  request = Request.init 64;
}

abbrev pub connection : Connection
connection = idle true 5

abbrev pool : List Connection
pool = idle true 5 ∷ idle false 6 ∷ idle true 7 ∷ []

init_connection-Fresh_example :
    (c' : Connection) × (init_connection system connection new_log 9 local_address 102400 64
      ≡ some c')
    × Fresh system 9 local_address 64 c'
init_connection-Fresh_example =
    init_connection-Fresh system connection new_log 9 local_address 102400 64 system-IsSystem
      (init-IsArena 102400 (omega arith)).0 (omega arith) (omega arith)

destroy_connections_lem_example :
    ((destroy_connections pool).1 ≡ pool_addresses pool) × NoBlocks (destroy_connections pool).0
destroy_connections_lem_example = destroy_connections_lem pool
