-- ===== src/HashTable/Moves.antt =====
-- Copying the nodes of a chain into the new array, and what it means for the keys.
use mathlib.Core.Option.{or_else}
use native.Mathlib.Nat.{mod-lt}
use cpp_the_right_way.Base.{
  Option, ℕ, zero, suc, ◌-◌, ◌^◌, ◌≤◌, ◌<◌, Option, none, some, List, [], ◌∷◌, ◌++◌, ◌≡◌, ◌≢◌, refl,
  sym, ap, ◌∙◌, inl, inr, arith, Bool-cases, length, get_elem?, set, get_elem?-set_self,
  get_elem?-set_ne, length-set, if◌then◌else◌, sub64, ◌==◌,
}
use cpp_the_right_way.Bits.{bit_and_mask, two_pow_pos}
use cpp_the_right_way.Arena.{Platform, Store}
use cpp_the_right_way.Run.{
  M, Safe, Safe-bind, Safe-map, Safe-attempt, allocate_or_fail, allocate_or_fail-Safe, pure,
}
use cpp_the_right_way.Strings.{SlString}
use cpp_the_right_way.Strings.Append.{IsString}
use cpp_the_right_way.HashTable.{
  Bucket, index_of, is_match, find, find_in, compute_hash, create_bucket, Moving, Status, done,
  minus_one, move_node, link_moved, unless_stopped, move_chain, sizeof_bucket,
}
use cpp_the_right_way.HashTable.Placement.{
  IsNode, AllNodes, AllNodes-append, ArePlaced, ArePlaced-get, ArePlaced-set, find_in-home,
  find-append,
}

get_elem?-below {ℓ} :
    {A : Type ℓ} (xs : List A) (i : ℕ) → i < length xs → (x : A) × (get_elem? xs i ≡ some x)
get_elem?-below [] i h = absurd (omega arith)
get_elem?-below (x ∷ xs) zero h = (x, refl)
get_elem?-below (x ∷ xs) (suc i) h = get_elem?-below xs i (omega arith)

-- A power of two that fits a `size_t`.
pub record IsPower (size : ℕ) : Type 0 where
  pub exponent : ℕ
  pub small : exponent ≤ 63
  pub power : size ≡ 2 ^ exponent

pub index-lt : (hash size : ℕ) → IsPower size → size < 2 ^ 64 → index_of hash size < size
index-lt hash size p fits =
    let pos = two_pow_pos p.exponent in
    let mask : sub64 size 1 ≡ 2 ^ p.exponent - 1 = omega (arith, p.power) in
    rw mask (omega (arith, bit_and_mask p.exponent hash, mod-lt hash pos, p.power))

-- An array of `size` chains with every node in its place.
pub record IsArray (size : ℕ) (buckets : List (List Bucket)) : Type 0 where
  pub width : length buckets ≡ size
  pub placed : ArePlaced size 0 buckets

module _ (size : ℕ) (p : IsPower size) (fits : size < 2 ^ 64) where
  -- The chain at the index of a hash.
  pub chain_at :
      (h : ℕ) (buckets : List (List Bucket))
      → IsArray size buckets
      → (c : List Bucket) × (get_elem? buckets (index_of h size) ≡ some c)
        × AllNodes size (index_of h size) c
        × ((q : SlString) → find_in h q buckets ≡ find h q c)
  chain_at h buckets v =
      let (c, e) =
        get_elem?-below buckets (index_of h size)
          (omega (arith, index-lt h size p fits, v.width)) in
      (
        c,
        e,
        ArePlaced-get size 0 (index_of h size) (index_of h size) buckets c (omega arith) v.placed e,
        λ q. find_in-home h q size 0 (index_of h size) buckets c v.placed (omega arith) e,
      )

  -- One chain is replaced: only the hashes of its index read otherwise.
  pub IsArray-set :
      (i : ℕ) (buckets : List (List Bucket)) (c : List Bucket)
      → IsArray size buckets
      → AllNodes size i c
      → IsArray size (set buckets i c)
  IsArray-set i buckets c v w = record {
    width = length-set buckets i c ∙ v.width;
    placed = ArePlaced-set size 0 i i buckets c (omega arith) v.placed w;
  }

  pub find_in-set :
      (i h : ℕ) (q : SlString) (buckets : List (List Bucket)) (c : List Bucket)
      → IsArray size buckets
      → AllNodes size i c
      → find_in h q (set buckets i c)
        ≡ (if index_of h size == i then find h q c else find_in h q buckets)
  find_in-set i h q buckets c v w =
      let v' = IsArray-set i buckets c v w in
      let lt : index_of h size < length buckets = omega (arith, index-lt h size p fits, v.width) in
      elim (Bool-cases (index_of h size == i)) [
        | inl same ↦
            let here : index_of h size ≡ i = ground arith in
            rw same (
              find_in-home h q size 0 (index_of h size) (set buckets i c) c v'.placed (omega arith)
                (ap (get_elem? (set buckets i c)) here
                  ∙ get_elem?-set_self buckets i c (omega arith)))
        | inr other ↦
            let differ : i ≢ index_of h size = ground arith in
            let (d, e, _, reads) = chain_at h buckets v in
            rw other (
              find_in-home h q size 0 (index_of h size) (set buckets i c) d v'.placed (omega arith)
                (get_elem?-set_ne buckets i (index_of h size) c differ ∙ e)
              ∙ sym (reads q))
      ]

pub create_bucket-Safe :
    (os : Platform) (hash : ℕ) (key : SlString) (value : Option SlString) (s : Store)
    → Safe
        (create_bucket os hash key value s)
        λ b s'. b ≡ record { hash = hash; key = key; value = value }
unfolding create_bucket
create_bucket-Safe os hash key value s =
    Safe-bind (allocate_or_fail os sizeof_bucket)
      (λ _. pure (record { hash = hash; key = key; value = value })) s (λ _ _. Unit {0})
      (λ b _. b ≡ record { hash = hash; key = key; value = value })
      (allocate_or_fail-Safe os sizeof_bucket s) (λ _ _ _. refl)

or_else_assoc :
    (a b c : Option (Option SlString)) → or_else (or_else a b) c ≡ or_else a (or_else b c)
unfolding or_else
or_else_assoc none b c = refl
or_else_assoc (some x) b c = refl

or_else-none : (a : Option (Option SlString)) → or_else a none ≡ a
unfolding or_else
or_else-none none = refl
or_else-none (some x) = refl

module _ (size : ℕ) (p : IsPower size) (fits : size < 2 ^ 64) (old i₀ : ℕ) where
  -- If no allocation failed, the array reads as before, and then as the list of nodes.
  abbrev pub Moved : List (List Bucket) → List Bucket → Moving → Type 0
  Moved buckets nodes m =
      m.status ≡ done
      → IsArray size m.buckets
        × ((q : SlString)
            → IsString q
            → find_in (compute_hash q) q m.buckets
              ≡ or_else (find_in (compute_hash q) q buckets) (find (compute_hash q) q nodes))

  -- A node at the end of its chain is found behind all that was there.
  add_node-reads :
      (j : ℕ) (buckets : List (List Bucket)) (c : List Bucket) (n : Bucket)
      → IsArray size buckets
      → index_of n.hash size ≡ j
      → AllNodes size j c
      → n.hash ≡ compute_hash n.key
      → IsString n.key
      → ((q : SlString) (h : ℕ) → index_of h size ≡ j → find_in h q buckets ≡ find h q c)
      → IsArray size (set buckets j (c ++ n ∷ []))
        × ((q : SlString)
            → IsString q
            → find_in (compute_hash q) q (set buckets j (c ++ n ∷ []))
              ≡ or_else (find_in (compute_hash q) q buckets) (find (compute_hash q) q (n ∷ [])))
  unfolding find is_match or_else
  add_node-reads j buckets c n v at w hashed key reads =
      let w' =
        AllNodes-append size j c (n ∷ []) w
          (record { place = at; hashed = hashed; key = key }, tt) in
      (
        IsArray-set size p fits j buckets (c ++ n ∷ []) v w',
        λ q vq.
            let h = compute_hash q in
            find_in-set size p fits j h q buckets (c ++ n ∷ []) v w'
            ∙ elim (Bool-cases (index_of h size == j)) [
              | inl same ↦
                  let here : index_of h size ≡ j = ground arith in
                  rw (same, reads q h here) (find-append h q c (n ∷ []))
              | inr other ↦
                  let differ : n.hash ≢ h = λ e.
                    let again : index_of h size ≡ j = ap (λ x. index_of x size) (sym e) ∙ at in
                    ground arith in
                  rw other (ground (arith, or_else-none (find_in h q buckets)))
            ],
      )

  move_node-Moved :
      (os : Platform) (n : Bucket) (m : Moving) (s : Store)
      → IsArray size m.buckets
      → IsNode old i₀ n
      → Safe (move_node os size n m s) (λ m' s'. Moved m.buckets (n ∷ []) m')
  unfolding move_node link_moved
  move_node-Moved os n m s v w =
      let j = index_of n.hash size in
      let (c, e, nodes, _) = chain_at size p fits n.hash m.buckets v in
      let (array, reads) =
        add_node-reads j m.buckets c n v refl nodes w.hashed w.key
          (λ q h at. find_in-home h q size 0 j m.buckets c v.placed (omega arith) e) in
      rw e (
        Safe-attempt (create_bucket os n.hash n.key n.value) (λ r. pure (link_moved j c m r)) s
          (λ b _. b ≡ n) (λ m' _. Moved m.buckets (n ∷ []) m')
          (create_bucket-Safe os n.hash n.key n.value s)
          (λ b s' same. rw same (λ _. (array, reads))) (λ s' stopped. cc))

  -- One after the other.
  pub Moved-append :
      (m m' m'' : Moving) (a b : List Bucket)
      → m'.status ≡ done
      → Moved m.buckets a m'
      → Moved m'.buckets b m''
      → Moved m.buckets (a ++ b) m''
  Moved-append m m' m'' a b running f g ended =
      let (array, second) = g ended in
      (
        array,
        λ q vq.
            second q vq
            ∙ (ap (λ o. or_else o (find (compute_hash q) q b)) ((f running).1 q vq)
                ∙ (or_else_assoc _ _ _
                    ∙ ap (or_else (find_in (compute_hash q) q m.buckets))
                        (sym (find-append (compute_hash q) q a b)))),
      )

  pub Moved-nil : (m : Moving) → IsArray size m.buckets → Moved m.buckets [] m
  unfolding find
  Moved-nil m v _ = (v, λ q vq. sym (or_else-none _))

  pub unless_stopped-Safe :
      (m' : Moving) (rest : M Moving) (s : Store) (P : Moving → Type 0)
      → (m'.status ≡ minus_one → P m')
      → (m'.status ≡ done → Safe (rest s) (λ m'' _. P m''))
      → Safe (unless_stopped m' rest s) (λ m'' _. P m'')
  unfolding unless_stopped
  unless_stopped-Safe m' rest s P stop go = by_status m'.status refl
    where
      by_status :
          (c : Status)
          → m'.status ≡ c
          → Safe
              ((elim c as (λ _. M Moving) [ minus_one ↦ pure m' | done ↦ rest ]) s)
              (λ m'' _. P m'')
      by_status done e = go e
      by_status minus_one e = stop e

  pub move_chain-Moved :
      (os : Platform) (nodes : List Bucket) (m : Moving) (s : Store)
      → IsArray size m.buckets
      → AllNodes old i₀ nodes
      → Safe (move_chain os size nodes m s) (λ m' s'. Moved m.buckets nodes m')
  unfolding move_chain
  move_chain-Moved os [] m s v w = Moved-nil m v
  move_chain-Moved os (n ∷ nodes) m s v w =
      Safe-bind (move_node os size n m) (λ m'. unless_stopped m' (move_chain os size nodes m')) s
        (λ m' _. Moved m.buckets (n ∷ []) m') (λ m' _. Moved m.buckets (n ∷ nodes) m')
        (move_node-Moved os n m s v w.0)
        (λ m' s' f.
          unless_stopped-Safe m' (move_chain os size nodes m') s' (Moved m.buckets (n ∷ nodes))
            (λ stop running. cc)
            (λ running.
              Safe-map (move_chain os size nodes m' s') _ _
                (move_chain-Moved os nodes m' s' (f running).0 w.1)
                (λ m'' _ g. Moved-append m m' m'' (n ∷ []) nodes running f g)))
