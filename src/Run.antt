-- ===== src/Run.antt =====
-- How a call of the program ends, and the state that it is threaded through.
use cpp_the_right_way.Base.{ℕ, Option, none, some, ◌≡◌, refl, ap}
use cpp_the_right_way.Arena.{Platform, Store, allocate}

-- `ok` is a normal return, and `failed` the return of NULL or -1; both leave the arena as it is
-- then. `fault` is an access outside a buffer or through NULL, which C leaves undefined.
pub data Run {ℓ} (A : Type ℓ) : Type ℓ where
  ok : A → Store → Run A
  failed : Store → Run A
  fault : Run A

abbrev pub M {ℓ} : Type ℓ → Type ℓ
M A = Store → Run A

abbrev pub pure {ℓ} : {A : Type ℓ} → A → M A
pure a s = ok a s

infixl 5 ◌>>=◌ ◌>>◌
abbrev pub ◌>>=◌ {ℓ κ} : {A : Type ℓ} {B : Type κ} → M A → (A → M B) → M B
◌>>=◌ m f s = elim (m s) [ ok a s' ↦ f a s' | failed s' ↦ failed s' | fault ↦ fault ]

abbrev pub ◌>>◌ {ℓ} : {B : Type ℓ} → M (Unit {0}) → M B → M B
m >> k = m >>= λ _. k

-- An access that is undefined behaviour where the value is `none`.
abbrev pub access {ℓ} : {A : Type ℓ} → Option A → M A
access none s = fault
access (some a) s = ok a s

abbrev pub give_up {ℓ} : {A : Type ℓ} → M A
give_up s = failed s

-- A call whose NULL or -1 the caller looks at, or ignores.
abbrev pub attempt {ℓ} : {A : Type ℓ} → M A → M (Option A)
attempt m s = elim (m s) [ ok a s' ↦ ok (some a) s' | failed s' ↦ ok none s' | fault ↦ fault ]

-- `sl_arena_allocate` where the caller returns on NULL: the pointer.
abbrev unless_null : Option ℕ × Store → Run ℕ
unless_null (none, s) = failed s
unless_null (some p, s) = ok p s

unfoldable pub allocate_or_fail : Platform → ℕ → M ℕ
allocate_or_fail os size s = unless_null (allocate os s size)

-- No undefined behaviour, and `P` holds of the value and the store of a normal return.
abbrev pub Safe {ℓ} : {A : Type ℓ} → Run A → (A → Store → Type 0) → Type 0
Safe (ok a s) P = P a s
Safe (failed s) P = Unit {0}
Safe fault P = ⊥

pub Safe-bind {ℓ κ} :
    {A : Type ℓ} {B : Type κ} (m : M A) (f : A → M B) (s : Store) (P : A → Store → Type 0)
    (Q : B → Store → Type 0)
    → Safe (m s) P
    → ((a : A) (s' : Store) → P a s' → Safe (f a s') Q)
    → Safe ((m >>= f) s) Q
Safe-bind {A} {B} m f s P Q h k = go (m s) h
  where
    go :
        (r : Run A)
        → Safe r P
        → Safe
            (elim r as (λ _. Run B) [ ok a s' ↦ f a s' | failed s' ↦ failed s' | fault ↦ fault ])
            Q
    go (ok a s') p = k a s' p
    go (failed s') p = tt
    go fault p = absurd p

pub Safe-map {ℓ} :
    {A : Type ℓ} (r : Run A) (P Q : A → Store → Type 0)
    → Safe r P
    → ((a : A) (s' : Store) → P a s' → Q a s')
    → Safe r Q
Safe-map (ok a s') P Q h k = k a s' h
Safe-map (failed s') P Q h k = tt
Safe-map fault P Q h k = absurd h

unless_null-Safe : (r : Option ℕ × Store) → Safe (unless_null r) (λ p s'. Unit {0})
unless_null-Safe (none, s) = tt
unless_null-Safe (some p, s) = tt

pub allocate_or_fail-Safe :
    (os : Platform) (size : ℕ) (s : Store) → Safe (allocate_or_fail os size s) (λ p s'. Unit {0})
unfolding allocate_or_fail
allocate_or_fail-Safe os size s = unless_null-Safe (allocate os s size)

-- Both answers of a call whose failure is looked at.
pub Safe-attempt {ℓ κ} :
    {A : Type ℓ} {B : Type κ} (m : M A) (f : Option A → M B) (s : Store) (P : A → Store → Type 0)
    (Q : B → Store → Type 0)
    → Safe (m s) P
    → ((a : A) (s' : Store) → P a s' → Safe (f (some a) s') Q)
    → ((s' : Store) → Safe (f none s') Q)
    → Safe ((attempt m >>= f) s) Q
Safe-attempt {A} {B} m f s P Q h yes_case no_case = go (m s) h
  where
    go : (r : Run A) → Safe r P → Safe ((attempt (λ _. r) >>= f) s) Q
    go (ok a s') p = yes_case a s' p
    go (failed s') p = no_case s'
    go fault p = absurd p

pub bind-ok {ℓ κ} :
    {A : Type ℓ} {B : Type κ} (m : M A) (f : A → M B) (s : Store) (a : A) (s' : Store)
    → m s ≡ ok a s'
    → (m >>= f) s ≡ f a s'
bind-ok {B} m f s a s' e = ap (λ r. ((λ _. r) >>= f) s) e

pub attempt-ok {ℓ κ} :
    {A : Type ℓ} {B : Type κ} (m : M A) (f : Option A → M B) (s : Store) (a : A) (s' : Store)
    → m s ≡ ok a s'
    → (attempt m >>= f) s ≡ f (some a) s'
attempt-ok {B} m f s a s' e = ap (λ r. (attempt (λ _. r) >>= f) s) e

pub attempt-failed {ℓ κ} :
    {A : Type ℓ} {B : Type κ} (m : M A) (f : Option A → M B) (s s' : Store)
    → m s ≡ failed s'
    → (attempt m >>= f) s ≡ f none s'
attempt-failed {B} m f s s' e = ap (λ r. (attempt (λ _. r) >>= f) s) e

-- `P` holds of the value of a normal return, if there is one.
abbrev pub Partly {ℓ} : {A : Type ℓ} → Run A → (A → Type 0) → Type 0
Partly (ok a s) P = P a
Partly (failed s) P = Unit {0}
Partly fault P = Unit {0}

pub Partly-bind {ℓ κ} :
    {A : Type ℓ} {B : Type κ} (m : M A) (f : A → M B) (s : Store) (P : A → Type 0) (Q : B → Type 0)
    → Partly (m s) P
    → ((a : A) (s' : Store) → P a → Partly (f a s') Q)
    → Partly ((m >>= f) s) Q
Partly-bind {A} {B} m f s P Q h k = go (m s) h
  where
    go : (r : Run A) → Partly r P → Partly (((λ _. r) >>= f) s) Q
    go (ok a s') p = k a s' p
    go (failed s') p = tt
    go fault p = tt

-- What follows a call that returned knows its value.
pub Partly-run {ℓ κ} :
    {A : Type ℓ} {B : Type κ} (m : M A) (f : A → M B) (s : Store) (P : A → Type 0) (Q : B → Type 0)
    → Partly (m s) P
    → ((a : A) (s' : Store) → m s ≡ ok a s' → P a → Partly (f a s') Q)
    → Partly ((m >>= f) s) Q
Partly-run {A} {B} m f s P Q h k = go (m s) refl h
  where
    go : (r : Run A) → m s ≡ r → Partly r P → Partly (((λ _. r) >>= f) s) Q
    go (ok a s') e p = k a s' e p
    go (failed s') e p = tt
    go fault e p = tt

-- Where nothing need be known of the value.
pub Partly-any {ℓ} : {A : Type ℓ} (r : Run A) → Partly r (λ _. Unit {0})
Partly-any (ok a s) = tt
Partly-any (failed s) = tt
Partly-any fault = tt

pub Partly-then {ℓ κ} :
    {A : Type ℓ} {B : Type κ} (m : M A) (f : A → M B) (s : Store) (Q : B → Type 0)
    → ((a : A) (s' : Store) → Partly (f a s') Q)
    → Partly ((m >>= f) s) Q
Partly-then m f s Q k = Partly-bind m f s (λ _. Unit {0}) Q (Partly-any (m s)) (λ a s' _. k a s')

pub Partly-map {ℓ} :
    {A : Type ℓ} (r : Run A) (P Q : A → Type 0) → Partly r P → ((a : A) → P a → Q a) → Partly r Q
Partly-map (ok a s) P Q h k = k a h
Partly-map (failed s) P Q h k = tt
Partly-map fault P Q h k = tt

pub Safe-Partly {ℓ} : {A : Type ℓ} (r : Run A) (P : A → Type 0) → Safe r (λ a s. P a) → Partly r P
Safe-Partly (ok a s) P h = h
Safe-Partly (failed s) P h = tt
Safe-Partly fault P h = absurd h

pub attempt-Partly {ℓ} :
    {A : Type ℓ} (m : M A) (s : Store) (P : A → Type 0) (Q : Option A → Type 0)
    → Partly (m s) P
    → Q none
    → ((a : A) → P a → Q (some a))
    → Partly (attempt m s) Q
attempt-Partly {A} m s P Q h no_case yes_case = go (m s) h
  where
    go : (r : Run A) → Partly r P → Partly (attempt (λ _. r) s) Q
    go (ok a s') p = yes_case a p
    go (failed s') p = no_case
    go fault p = tt

-- A normal return with a value that `P` holds of, or undefined behaviour where `F` holds. There is no
-- return of NULL or -1.
abbrev pub Returns {ℓ} : {A : Type ℓ} → Run A → Type 0 → (A → Type 0) → Type 0
Returns (ok a s) F P = P a
Returns (failed s) F P = ⊥
Returns fault F P = F

pub Returns-bind {ℓ κ} :
    {A : Type ℓ} {B : Type κ} (m : M A) (f : A → M B) (s : Store) (F : Type 0) (P : A → Type 0)
    (Q : B → Type 0)
    → Returns (m s) F P
    → ((a : A) (s' : Store) → P a → Returns (f a s') F Q)
    → Returns ((m >>= f) s) F Q
Returns-bind {A} {B} m f s F P Q h k = go (m s) h
  where
    go : (r : Run A) → Returns r F P → Returns (((λ _. r) >>= f) s) F Q
    go (ok a s') p = k a s' p
    go (failed s') p = absurd p
    go fault p = p

pub Returns-attempt {ℓ} :
    {A : Type ℓ} (m : M A) (s : Store) (F : Type 0) (P : A → Type 0) (Q : Option A → Type 0)
    → Safe (m s) (λ a _. P a)
    → Q none
    → ((a : A) → P a → Q (some a))
    → Returns (attempt m s) F Q
Returns-attempt {A} m s F P Q h no_case yes_case = go (m s) h
  where
    go : (r : Run A) → Safe r (λ a _. P a) → Returns (attempt (λ _. r) s) F Q
    go (ok a s') p = yes_case a p
    go (failed s') p = no_case
    go fault p = absurd p

-- Where undefined behaviour is admitted, nothing need be known of the call.
pub attempt-any {ℓ} :
    {A : Type ℓ} (m : M A) (s : Store) (F : Type 0) → F → Returns (attempt m s) F (λ _. Unit {0})
attempt-any {A} m s F f = go (m s)
  where
    go : (r : Run A) → Returns (attempt (λ _. r) s) F (λ _. Unit {0})
    go (ok a s') = tt
    go (failed s') = tt
    go fault = f

pub Returns-map {ℓ} :
    {A : Type ℓ} (r : Run A) (F G : Type 0) (P Q : A → Type 0)
    → Returns r F P
    → (F → G)
    → ((a : A) → P a → Q a)
    → Returns r G Q
Returns-map (ok a s) F G P Q h g k = k a h
Returns-map (failed s) F G P Q h g k = absurd h
Returns-map fault F G P Q h g k = g h

-- The call never returns NULL or -1.
abbrev pub NeverFails {ℓ} : {A : Type ℓ} → Run A → Type 0
NeverFails (ok a s) = Unit {0}
NeverFails (failed s) = ⊥
NeverFails fault = Unit {0}

pub NeverFails-bind {ℓ κ} :
    {A : Type ℓ} {B : Type κ} (m : M A) (f : A → M B) (s : Store)
    → NeverFails (m s)
    → ((a : A) (s' : Store) → NeverFails (f a s'))
    → NeverFails ((m >>= f) s)
NeverFails-bind {A} {B} m f s h k = go (m s) h
  where
    go : (r : Run A) → NeverFails r → NeverFails (((λ _. r) >>= f) s)
    go (ok a s') p = k a s'
    go (failed s') p = absurd p
    go fault p = tt

pub NeverFails-access {ℓ} : {A : Type ℓ} (o : Option A) (s : Store) → NeverFails (access o s)
NeverFails-access none s = tt
NeverFails-access (some a) s = tt

pub NeverFails-attempt {ℓ} : {A : Type ℓ} (m : M A) (s : Store) → NeverFails (attempt m s)
NeverFails-attempt {A} m s = go (m s)
  where
    go : (r : Run A) → NeverFails (attempt (λ _. r) s)
    go (ok a s') = tt
    go (failed s') = tt
    go fault = tt

pub Safe-Returns {ℓ} :
    {A : Type ℓ} (r : Run A) (F : Type 0) (P : A → Type 0)
    → Safe r (λ a _. P a)
    → NeverFails r
    → Returns r F P
Safe-Returns (ok a s) F P h n = h
Safe-Returns (failed s) F P h n = absurd n
Safe-Returns fault F P h n = absurd h

pub Returns-and {ℓ} :
    {A : Type ℓ} (r : Run A) (F : Type 0) (P Q : A → Type 0)
    → Returns r F P
    → Partly r Q
    → Returns r F (λ a. P a × Q a)
Returns-and (ok a s) F P Q h k = (h, k)
Returns-and (failed s) F P Q h k = absurd h
Returns-and fault F P Q h k = h

pub Safe-ok {ℓ} :
    {A : Type ℓ} (r : Run A) (P : A → Store → Type 0)
    → Safe r P
    → NeverFails r
    → (a : A) × (s' : Store) × (r ≡ ok a s')
Safe-ok (ok a s) P h n = (a, s, refl)
Safe-ok (failed s) P h n = absurd n
Safe-ok fault P h n = absurd h

-- What follows a call knows how the call ended.
pub Returns-run {ℓ κ} :
    {A : Type ℓ} {B : Type κ} (m : M A) (f : A → M B) (s : Store) (F G : Type 0) (P : A → Type 0)
    (Q : B → Type 0)
    → Returns (m s) F P
    → (F → G)
    → ((a : A) (s' : Store) → m s ≡ ok a s' → P a → Returns (f a s') G Q)
    → Returns ((m >>= f) s) G Q
Returns-run {A} {B} m f s F G P Q h g k = go (m s) refl h
  where
    go : (r : Run A) → m s ≡ r → Returns r F P → Returns (((λ _. r) >>= f) s) G Q
    go (ok a s') e p = k a s' e p
    go (failed s') e p = absurd p
    go fault e p = g p
