-- ===== src/Net/Fresh.antt =====
-- sl_net_init_connection: what a connection is set up as.
use mathlib.Core.Path.{subst}
use cpp_the_right_way.Base.{
  ℕ, ◌^◌, ◌≤◌, ◌<◌, Option, none, some, List, [], ◌∷◌, ◌≡◌, refl, ap, ◌∙◌, inl, inr, Option-cases,
  false, length,
}
use cpp_the_right_way.Arena.{Block, Arena, rewind}
use cpp_the_right_way.Arena
use cpp_the_right_way.Arena.Regions.{Live}
use cpp_the_right_way.Arena.Allocate.{IsArena}
use cpp_the_right_way.Arena.Lifetime.{init-IsArena, rewind-IsArena}
use cpp_the_right_way.Strings.Digits.{decimal}
use cpp_the_right_way.Log.{
  Log, cstring, set_pid, set_ip_address_port, max_pid_length, max_port_length,
}
use cpp_the_right_way.Log
use cpp_the_right_way.Log.Number.{set_pid-cstring, set_ip_address_port-cstring}
use cpp_the_right_way.Fcgi.Parser.State
use cpp_the_right_way.Fcgi.Request
use cpp_the_right_way.Net.{Address, System, Connection, reset_arena, init_connection}

-- What getpid and inet_ntoa are taken to answer: a number of 32 bits, and the start of a buffer of at
-- least 15 bytes.
pub record IsSystem (system : System) : Type 0 where
  pub pid_range : system.getpid < 2 ^ 32
  pub text_length : (ip_address : ℕ) → 15 ≤ length (system.inet_ntoa ip_address)

-- A connection as it is set up.
pub record Fresh (system : System) (socket_fd : ℕ) (address : Address) (size : ℕ) (c : Connection)
    : Type 0 where
  pub socket : c.socket_fd ≡ socket_fd
  pub address_kept : c.address ≡ address
  pub free : c.is_busy ≡ false
  pub arena : IsArena c.store.arena
  pub no_bytes : (x : ℕ) → ¬ Live c.store.arena.blocks x
  pub pid_text : cstring c.log.pid ≡ some (decimal max_pid_length system.getpid)
  pub port_text : cstring c.log.ip_port ≡ some (decimal max_port_length address.port)
  pub parser : c.parser ≡ State.init
  pub request : c.request ≡ Request.init size

reset_arena-IsArena :
    (arena : Arena) (preallocate : ℕ)
    → IsArena arena
    → preallocate < 2 ^ 62
    → IsArena (reset_arena arena preallocate)
      × ((x : ℕ) → ¬ Live (reset_arena arena preallocate).blocks x)
unfolding reset_arena Arena.init
reset_arena-IsArena arena preallocate v small = go arena.blocks refl
  where
    go :
        (bs : List Block)
        → arena.blocks ≡ bs
        → IsArena (reset_arena arena preallocate)
          × ((x : ℕ) → ¬ Live (reset_arena arena preallocate).blocks x)
    go [] e = rw e ((init-IsArena preallocate small).0, λ x o. o)
    go (b ∷ bs) e =
        let v' : IsArena (record arena { blocks = b ∷ bs }) =
          subst (λ (xs : List Block). IsArena (record arena { blocks = xs })) e v in
        let (w, no_bytes, _) = rewind-IsArena (record arena { blocks = b ∷ bs }) v' in
        rw e (w, no_bytes)

-- sl_net_init_connection on a connection with a sound arena, for every socket and every port: it
-- makes no access out of bounds, and gives a connection that is not busy, whose arena is sound and
-- has no byte in use, whose log has the texts of the process and the port, and whose parser and
-- request are new.
pub init_connection-Fresh :
    (system : System) (c : Connection) (log : Log) (socket_fd : ℕ) (address : Address)
    (preallocate size : ℕ)
    → IsSystem system
    → IsArena c.store.arena
    → address.port < 2 ^ 16
    → preallocate < 2 ^ 62
    → (c' : Connection) × (init_connection system c log socket_fd address preallocate size
        ≡ some c')
      × Fresh system socket_fd address size c'
unfolding init_connection Log.init
init_connection-Fresh system c log socket_fd address preallocate size y v port small =
    let (named, named_run, pid_text, same_ip, same_port) =
      set_pid-cstring (Log.init log.min_level log.log_fd) system.getpid refl y.pid_range in
    let (placed, placed_run, _, port_text, same) =
      set_ip_address_port-cstring named (system.inet_ntoa address.ip_address) address.port
        (ap length same_ip) (ap length same_port) (y.text_length address.ip_address) port in
    let (w, no_bytes) = reset_arena-IsArena c.store.arena preallocate v small in
    let c' : Connection = record {
      socket_fd = socket_fd;
      address = address;
      is_busy = false;
      store = record c.store { arena = reset_arena c.store.arena preallocate };
      log = placed;
      parser = State.init;
      request = Request.init size;
    } in
    (
      c',
      rw (named_run, placed_run) refl,
      record {
        socket = refl;
        address_kept = refl;
        free = refl;
        arena = w;
        no_bytes = no_bytes;
        pid_text = ap cstring same ∙ pid_text;
        port_text = port_text;
        parser = refl;
        request = refl;
      },
    )

-- `P` holds of the value, if there is one.
abbrev pub Possibly : Option Connection → (Connection → Type 0) → Type 0
Possibly none P = Unit {0}
Possibly (some c) P = P c

pub Possibly-map :
    (o : Option Connection) (P Q : Connection → Type 0)
    → Possibly o P
    → ((c : Connection) → P c → Q c)
    → Possibly o Q
Possibly-map none P Q h k = tt
Possibly-map (some c) P Q h k = k c h

-- What does not depend on the system's answers.
abbrev pub IsNew : ℕ → ℕ → Connection → Type 0
IsNew socket_fd size c =
    (c.socket_fd ≡ socket_fd) × (c.parser ≡ State.init) × (c.request ≡ Request.init size)

pub init_connection-Possibly :
    (system : System) (c : Connection) (log : Log) (socket_fd : ℕ) (address : Address)
    (preallocate size : ℕ)
    → Possibly
        (init_connection system c log socket_fd address preallocate size)
        (IsNew socket_fd size)
unfolding init_connection
init_connection-Possibly system c log socket_fd address preallocate size =
    elim (Option-cases (set_pid (Log.init log.min_level log.log_fd) system.getpid)) [
      | inl failed_pid ↦ rw failed_pid tt
      | inr (named, e) ↦
          elim (Option-cases
            (set_ip_address_port named (system.inet_ntoa address.ip_address) address.port)) [
              | inl failed_address ↦ rw (e, failed_address) tt
              | inr (placed, e') ↦ rw (e, e') (refl, refl, refl)
            ]
    ]
