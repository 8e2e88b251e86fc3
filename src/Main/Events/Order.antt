-- ===== src/Main/Events/Order.antt =====
-- sl_main_event_loop: a pool in which no connection hides one that is busy.
use mathlib.Core.Path.{subst}
use cpp_the_right_way.Base.{
  ℕ, zero, suc, some, List, [], ◌∷◌, ◌≡◌, ◌≢◌, refl, sym, ap, ◌∙◌, arith, Bool, true, false, not,
  ◌<◌, ◌==◌, get_elem?, set,
}
use cpp_the_right_way.Net.{Connection, find_connection}

-- No connection of the pool is busy with the socket.
abbrev pub NoneBusy : ℕ → List Connection → Type 0
NoneBusy fd [] = Unit {0}
NoneBusy fd (c ∷ cs) = (c.is_busy ≡ true → c.socket_fd ≢ fd) × NoneBusy fd cs

-- Behind no connection, busy or not, is one busy with the same socket.
abbrev pub Ordered : List Connection → Type 0
Ordered [] = Unit {0}
Ordered (c ∷ cs) = NoneBusy c.socket_fd cs × Ordered cs

some_path : (d c : Connection) → some d ≡ some c → d ≡ c
some_path d c e = cc

NoneBusy-at :
    (fd : ℕ) (cs : List Connection) (n : ℕ) (c : Connection)
    → NoneBusy fd cs
    → get_elem? cs n ≡ some c
    → c.is_busy ≡ true
    → c.socket_fd ≢ fd
NoneBusy-at fd [] n c v e b = absurd cc
NoneBusy-at fd (d ∷ cs) zero c v e b =
    let same : d ≡ c = some_path d c e in
    subst (λ (x : Connection). x.is_busy ≡ true → x.socket_fd ≢ fd) same v.0 b
NoneBusy-at fd (d ∷ cs) (suc n) c v e b = NoneBusy-at fd cs n c v.1 e b

NoneBusy-set :
    (fd : ℕ) (cs : List Connection) (n : ℕ) (c : Connection)
    → NoneBusy fd cs
    → (c.is_busy ≡ true → c.socket_fd ≢ fd)
    → NoneBusy fd (set cs n c)
NoneBusy-set fd [] n c v h = tt
NoneBusy-set fd (d ∷ cs) zero c v h = (h, v.1)
NoneBusy-set fd (d ∷ cs) (suc n) c v h = (v.0, NoneBusy-set fd cs n c v.1 h)

-- The search stops at the connection that is busy with the socket.
pub find_connection-busy :
    (cs : List Connection) (n : ℕ) (c : Connection)
    → Ordered cs
    → get_elem? cs n ≡ some c
    → c.is_busy ≡ true
    → find_connection cs c.socket_fd ≡ some n
unfolding find_connection
find_connection-busy [] n c v e b = absurd cc
find_connection-busy (d ∷ cs) zero c v e b =
    let same : (d.socket_fd == c.socket_fd) ≡ true =
      ground (arith, ap (λ (x : Connection). x.socket_fd) (some_path d c e)) in
    rw same refl
find_connection-busy (d ∷ cs) (suc n) c v e b =
    let other : (d.socket_fd == c.socket_fd) ≡ false =
      ground (arith, NoneBusy-at d.socket_fd cs n c v.0 e b) in
    rw (other, find_connection-busy cs n c v.1 e b) refl

not-false : (b : Bool) → not b ≡ false → b ≡ true
not-false true e = refl
not-false false e = sym e

-- A connection behind busy ones, with a socket of its own.
pub place-Ordered :
    (cs : List Connection) (n : ℕ) (c : Connection)
    → Ordered cs
    → NoneBusy c.socket_fd cs
    → ((m : ℕ) (x : Connection) → m < n → get_elem? cs m ≡ some x → not x.is_busy ≡ false)
    → Ordered (set cs n c)
place-Ordered [] n c v h before = tt
place-Ordered (d ∷ cs) zero c v h before = (h.1, v.1)
place-Ordered (d ∷ cs) (suc n) c v h before =
    let head_busy : d.is_busy ≡ true = not-false d.is_busy (before 0 d (omega arith) refl) in
    (
      NoneBusy-set d.socket_fd cs n c v.0 (λ _ q. h.0 head_busy (sym q)),
      place-Ordered cs n c v.1 h.1 (λ m x below e. before (suc m) x (omega arith) e),
    )

-- A connection in the place of one with the same socket.
pub update-Ordered :
    (cs : List Connection) (n : ℕ) (c d : Connection)
    → Ordered cs
    → get_elem? cs n ≡ some c
    → d.socket_fd ≡ c.socket_fd
    → (d.is_busy ≡ true → c.is_busy ≡ true)
    → Ordered (set cs n d)
update-Ordered [] n c d v e same b = absurd cc
update-Ordered (x ∷ cs) zero c d v e same b = (
  subst (λ (fd : ℕ). NoneBusy fd cs)
      (ap (λ (y : Connection). y.socket_fd) (some_path x c e) ∙ sym same) v.0,
  v.1,
)
update-Ordered (x ∷ cs) (suc n) c d v e same b = (
  NoneBusy-set x.socket_fd cs n d v.0
      (λ t q. NoneBusy-at x.socket_fd cs n c v.0 e (b t) (sym same ∙ q)),
  update-Ordered cs n c d v.1 e same b,
)
