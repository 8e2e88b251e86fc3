-- ===== src/Net/Pool.antt =====
-- The pool of connections: finding one, and giving all memory back.
use mathlib.Core.Path.{subst}
use cpp_the_right_way.Base.{
  ℕ, zero, suc, ◌<◌, Option, none, some, List, [], ◌∷◌, ◌++◌, map, ◌≡◌, refl, sym, ap, ap₂, inl,
  inr, arith, Bool, true, false, Bool-cases, not, ◌==◌, if◌then◌else◌, get_elem?,
}
use cpp_the_right_way.Arena.{Block, init}
use cpp_the_right_way.Arena.Lifetime.{destroy_lem}
use cpp_the_right_way.Net.{
  Connection, find_connection, find_free_connection, destroy_connection, destroy_connections,
}

-- The first place of the pool whose connection passes a test, `none` if there is none.
abbrev pub IsFirst : (Connection → Bool) → List Connection → Option ℕ → Type 0
IsFirst f cs none = (n : ℕ) (c : Connection) → get_elem? cs n ≡ some c → f c ≡ false
IsFirst f cs (some n) =
    (c : Connection) × (get_elem? cs n ≡ some c)
    × (f c ≡ true)
    × ((m : ℕ) (d : Connection) → m < n → get_elem? cs m ≡ some d → f d ≡ false)

IsFirst-here :
    (f : Connection → Bool) (c : Connection) (cs : List Connection)
    → f c ≡ true
    → IsFirst f (c ∷ cs) (some 0)
IsFirst-here f c cs h = (c, refl, h, λ m d below _. absurd (omega (arith, below)))

IsFirst-later :
    (f : Connection → Bool) (c : Connection) (cs : List Connection) (o : Option ℕ)
    → f c ≡ false
    → IsFirst f cs o
    → IsFirst f (c ∷ cs) (elim o [ none ↦ none | some n ↦ some (suc n) ])
IsFirst-later f c cs none h v = go
  where
    go : (n : ℕ) (d : Connection) → get_elem? (c ∷ cs) n ≡ some d → f d ≡ false
    go zero d e = cc
    go (suc n) d e = v n d e
IsFirst-later f c cs (some n) h (d, e, t, before) = (d, e, t, go)
  where
    go : (m : ℕ) (x : Connection) → m < suc n → get_elem? (c ∷ cs) m ≡ some x → f x ≡ false
    go zero x below e' = cc
    go (suc m) x below e' = before m x (omega arith) e'

-- sl_net_find_connection gives the first connection of the pool with the socket, busy or not, and
-- NULL only if there is none.
find_connection-IsFirst :
    (cs : List Connection) (socket_fd : ℕ)
    → IsFirst (λ c. c.socket_fd == socket_fd) cs (find_connection cs socket_fd)
unfolding find_connection
find_connection-IsFirst [] socket_fd = λ n c e. absurd cc
find_connection-IsFirst (c ∷ cs) socket_fd = elim (Bool-cases (c.socket_fd == socket_fd)) [
  | inl same ↦ rw same (IsFirst-here (λ d. d.socket_fd == socket_fd) c cs same)
  | inr other ↦ rw other (
      IsFirst-later (λ d. d.socket_fd == socket_fd) c cs (find_connection cs socket_fd) other
        (find_connection-IsFirst cs socket_fd))
]

-- sl_net_find_free_connection gives the first connection of the pool that is not busy, and NULL only
-- if all are.
pub find_free_connection-IsFirst :
    (cs : List Connection) → IsFirst (λ c. not c.is_busy) cs (find_free_connection cs)
unfolding find_free_connection
find_free_connection-IsFirst [] = λ n c e. absurd cc
find_free_connection-IsFirst (c ∷ cs) =
    let later : Option ℕ = elim (find_free_connection cs) [ none ↦ none | some n ↦ some (suc n) ] in
    let goal : Bool → Type 0 =
      λ b. IsFirst (λ d. not d.is_busy) (c ∷ cs) (if b then later else some 0) in
    elim (Bool-cases c.is_busy) [
      | inl busy ↦ subst goal (sym busy) (
          IsFirst-later (λ d. not d.is_busy) c cs (find_free_connection cs) (ap not busy)
            (find_free_connection-IsFirst cs))
      | inr free ↦ subst goal (sym free) (IsFirst-here (λ d. not d.is_busy) c cs (ap not free))
    ]

-- The addresses of all blocks of a pool, connection by connection.
abbrev pub pool_addresses : List Connection → List ℕ
pool_addresses [] = []
pool_addresses (c ∷ cs) = map (λ b. b.address) c.store.arena.blocks ++ pool_addresses cs

abbrev pub NoBlocks : List Connection → Type 0
NoBlocks [] = Unit {0}
NoBlocks (c ∷ cs) = (c.store.arena.blocks ≡ []) × NoBlocks cs

destroy_connection_lem :
    (c : Connection)
    → ((destroy_connection c).1 ≡ map (λ b. b.address) c.store.arena.blocks)
      × ((destroy_connection c).0.store.arena.blocks ≡ [])
unfolding destroy_connection init
destroy_connection_lem c = go c.store.arena.blocks refl
  where
    go :
        (bs : List Block)
        → c.store.arena.blocks ≡ bs
        → ((destroy_connection c).1 ≡ map (λ b. b.address) c.store.arena.blocks)
          × ((destroy_connection c).0.store.arena.blocks ≡ [])
    go [] e = (rw e refl, rw e refl)
    go (b ∷ bs) e =
        let (freed, empty) = destroy_lem (record c.store.arena { blocks = b ∷ bs }) in
        (rw e freed, rw e (ap (λ a. a.blocks) empty))

-- sl_net_destroy_connections frees every block of every connection exactly once, in the order of the
-- pool, and leaves no connection a block.
pub destroy_connections_lem :
    (cs : List Connection)
    → ((destroy_connections cs).1 ≡ pool_addresses cs) × NoBlocks (destroy_connections cs).0
unfolding destroy_connections
destroy_connections_lem [] = (refl, tt)
destroy_connections_lem (c ∷ cs) =
    let (freed, none_left) = destroy_connection_lem c in
    let (others, rest) = destroy_connections_lem cs in
    (ap₂ (λ (xs ys : List ℕ). xs ++ ys) freed others, (none_left, rest))
