-- ===== src/Tests/Events.antt =====
-- sl_main_event_loop at a pool of two connections.
use cpp_the_right_way.Base.{some, List, [], ◌∷◌, ◌≡◌, refl, true, false, replicate}
use cpp_the_right_way.Arena
use cpp_the_right_way.Log.{set_pid, set_ip_address_port}
use cpp_the_right_way.Log
use cpp_the_right_way.Fcgi.Parser.State
use cpp_the_right_way.Fcgi.Request
use cpp_the_right_way.Net.{
  Connection, find_connection, find_free_connection, init_connection, reset_arena,
}
use cpp_the_right_way.Main.Events.{Event, incoming, Outcome, watch, handle_event}
use cpp_the_right_way.Main.Events.Reached.{Reached, at_start, behind, Reached-find_connection}
use cpp_the_right_way.Tests.Platform.{machine}
use cpp_the_right_way.Tests.Net.{system, local_address, idle, new_log}
use cpp_the_right_way.Tests.Main.{sends_all, sends_all-IsWritev}

abbrev free_pool : List Connection
free_pool = idle false 0 ∷ idle false 0 ∷ []

abbrev client : Event
client = incoming 5 local_address true true

-- The connection that is set up for the client.
abbrev served : Connection
served = record (idle true 5) {
  log = record {
    min_level = 2;
    log_fd = 1;
    pid = 52 ∷ 55 ∷ 49 ∷ 49 ∷ 0 ∷ 0 ∷ 0 ∷ 52 ∷ 55 ∷ 49 ∷ 49 ∷ [];
    ip_address = 49 ∷ 50 ∷ 55 ∷ 46 ∷ 48 ∷ 46 ∷ 48 ∷ 46 ∷ 49 ∷ replicate 7 0;
    ip_port = 57 ∷ 48 ∷ 48 ∷ 48 ∷ 0 ∷ 48 ∷ [];
  };
}

abbrev outcome : Outcome
outcome = record { pool = served ∷ idle false 0 ∷ []; actions = watch 5 ∷ []; replies = [] }

client_accepted : handle_event machine sends_all system new_log free_pool client ≡ some outcome
unfolding handle_event find_free_connection init_connection reset_arena Arena.init Log.init
    State.init Request.init set_pid set_ip_address_port Log.itoa cpp_the_right_way.Strings.itoa
    cpp_the_right_way.Strings.itoa_fill cpp_the_right_way.Memory.store_at
    cpp_the_right_way.Strings.itoa_move cpp_the_right_way.Memory.read_bytes
    cpp_the_right_way.Memory.memcpy
client_accepted = refl

outcome-Reached : Reached machine sends_all system new_log outcome.pool
outcome-Reached =
    behind free_pool client outcome (at_start free_pool (refl, (refl, tt)))
      ((λ b. absurd cc), ((λ b. absurd cc), tt)) client_accepted

Reached-find_connection_example : find_connection (served ∷ idle false 0 ∷ []) 5 ≡ some 0
Reached-find_connection_example =
    Reached-find_connection machine sends_all system new_log outcome.pool 0 served
      sends_all-IsWritev outcome-Reached refl refl
