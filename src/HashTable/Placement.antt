-- ===== src/HashTable/Placement.antt =====
-- The chain that a node belongs to by its hash: the walk over one chain and over the whole table.
use mathlib.Core.Option.{or_else}
use cpp_the_right_way.Base.{
  Option, ℕ, zero, suc, ◌+◌, ◌<◌, none, some, List, [], ◌∷◌, ◌++◌, true, ◌≡◌, ◌≢◌, refl, sym, ap,
  ◌∙◌, arith, Option-cases, Bool-cases, get_elem?, set, replicate, if◌then◌else◌, inl, inr,
}
use cpp_the_right_way.Strings.{SlString}
use cpp_the_right_way.Strings.Append.{IsString}
use cpp_the_right_way.HashTable.{
  Bucket, index_of, is_match, find, find_in, replace, compute_hash, are_keys_equal,
}
use cpp_the_right_way.HashTable.Keys.{
  compute_hash_congr, are_keys_equal_congr, are_keys_equal_congr_left,
}

-- A node of chain `i` among `size`.
pub record IsNode (size i : ℕ) (node : Bucket) : Type 0 where
  pub place : index_of node.hash size ≡ i
  pub hashed : node.hash ≡ compute_hash node.key
  pub key : IsString node.key

abbrev pub AllNodes : ℕ → ℕ → List Bucket → Type 0
AllNodes size i [] = Unit {0}
AllNodes size i (node ∷ nodes) = IsNode size i node × AllNodes size i nodes

-- The chains from number `i` on.
abbrev pub ArePlaced : ℕ → ℕ → List (List Bucket) → Type 0
ArePlaced size i [] = Unit {0}
ArePlaced size i (c ∷ cs) = AllNodes size i c × ArePlaced size (suc i) cs

pub AllNodes-append :
    (size i : ℕ) (a b : List Bucket)
    → AllNodes size i a
    → AllNodes size i b
    → AllNodes size i (a ++ b)
AllNodes-append size i [] b va vb = vb
AllNodes-append size i (n ∷ a) b va vb = (va.0, AllNodes-append size i a b va.1 vb)

pub ArePlaced-get :
    (size i j k : ℕ) (cs : List (List Bucket)) (c : List Bucket)
    → i + j ≡ k
    → ArePlaced size i cs
    → get_elem? cs j ≡ some c
    → AllNodes size k c
ArePlaced-get size i j k [] c e v h = absurd (cc)
ArePlaced-get size i zero k (d ∷ cs) c e v h =
    let same : i ≡ k = omega arith in let here : d ≡ c = cc in rw (← same, ← here) v.0
ArePlaced-get size i (suc j) k (d ∷ cs) c e v h =
    ArePlaced-get size (suc i) j k cs c (omega arith) v.1 h

pub ArePlaced-set :
    (size i j k : ℕ) (cs : List (List Bucket)) (c : List Bucket)
    → i + j ≡ k
    → ArePlaced size i cs
    → AllNodes size k c
    → ArePlaced size i (set cs j c)
ArePlaced-set size i j k [] c e v w = tt
ArePlaced-set size i zero k (d ∷ cs) c e v w = let same : k ≡ i = omega arith in (rw same at w, v.1)
ArePlaced-set size i (suc j) k (d ∷ cs) c e v w =
    (v.0, ArePlaced-set size (suc i) j k cs c (omega arith) v.1 w)

pub ArePlaced-replicate : (size i n : ℕ) → ArePlaced size i (replicate n [])
ArePlaced-replicate size i zero = tt
ArePlaced-replicate size i (suc n) = (tt, ArePlaced-replicate size (suc i) n)

module _ (h : ℕ) (q : SlString) (size : ℕ) where
  find_elsewhere :
      (i : ℕ) (c : List Bucket) → index_of h size ≢ i → AllNodes size i c → find h q c ≡ none
  unfolding find is_match
  find_elsewhere i [] ne v = refl
  find_elsewhere i (n ∷ c) ne v =
      let differ : n.hash ≢ h = λ e. ne (ap (λ x. index_of x size) (sym e) ∙ v.0.place) in
      ground (arith, differ, find_elsewhere i c ne v.1)

  find_in_after :
      (i : ℕ) (cs : List (List Bucket))
      → index_of h size < i
      → ArePlaced size i cs
      → find_in h q cs ≡ none
  unfolding find_in
  find_in_after i [] lt v = refl
  find_in_after i (c ∷ cs) lt v =
      ground
        (arith, find_elsewhere i c (omega arith) v.0, find_in_after (suc i) cs (omega arith) v.1)

  -- The walk over all chains is the walk along the one at the index of the hash.
  pub find_in-home :
      (i j : ℕ) (cs : List (List Bucket)) (c : List Bucket)
      → ArePlaced size i cs
      → index_of h size ≡ i + j
      → get_elem? cs j ≡ some c
      → find_in h q cs ≡ find h q c
  unfolding find_in
  find_in-home i j [] c v e g = absurd (cc)
  find_in-home i zero (d ∷ cs) c v e g =
      let here : d ≡ c = cc in
      ground (arith, find_in_after (suc i) cs (omega arith) v.1, ap (find h q) here)
  find_in-home i (suc j) (d ∷ cs) c v e g =
      ground (
        arith,
        find_elsewhere i d (omega arith) v.0,
        find_in-home (suc i) j cs c v.1 (omega arith) g,
      )

pub find-append :
    (h : ℕ) (q : SlString) (a b : List Bucket)
    → find h q (a ++ b) ≡ or_else (find h q a) (find h q b)
unfolding find or_else
find-append h q [] b = refl
find-append h q (n ∷ a) b = ground (arith, find-append h q a b)

-- A node matches a key exactly if the two keys are equal: the hash decides nothing more.
pub is_match-key :
    (size i : ℕ) (q : SlString) (n : Bucket)
    → IsString q
    → IsNode size i n
    → is_match (compute_hash q) q n ≡ are_keys_equal n.key q
unfolding is_match
is_match-key size i q n vq v = ground (arith, compute_hash_congr n.key q v.key vq, v.hashed)

-- A node in which the key and the value are written over with an equal key stays in its place.
IsNode-write :
    (size i : ℕ) (key : SlString) (value : Option SlString) (n : Bucket)
    → IsString key
    → IsNode size i n
    → are_keys_equal n.key key ≡ true
    → IsNode size i (record n { key = key; value = value })
IsNode-write size i key value n vk v m = record {
  place = v.place;
  hashed = v.hashed ∙ compute_hash_congr n.key key v.key vk m;
  key = vk;
}

module _ (size i : ℕ) (key : SlString) (value : Option SlString) (vk : IsString key) where
  pub AllNodes-replace :
      (c c' : List Bucket)
      → AllNodes size i c
      → replace (compute_hash key) key value c ≡ some c'
      → AllNodes size i c'
  unfolding replace
  AllNodes-replace [] c' v e = absurd (cc)
  AllNodes-replace (n ∷ c) c' v e =
      let same = is_match-key size i key n vk v.0 in
      elim (Bool-cases (is_match (compute_hash key) key n)) [
        | inl m ↦
            let here : c' ≡ record n { key = key; value = value } ∷ c = ground arith in
            rw here (IsNode-write size i key value n vk v.0 (sym same ∙ m), v.1)
        | inr m ↦ elim (Option-cases (replace (compute_hash key) key value c)) [
          | inl no_match ↦ absurd (ground arith)
          | inr (c'', found) ↦
              let here : c' ≡ n ∷ c'' = ground arith in
              rw here (v.0, AllNodes-replace c c'' v.1 found)
        ]
      ]

  module _ (q : SlString) (vq : IsString q) where
    -- A key that is written over in its chain reads as the new value, and other keys as before.
    pub find-replace :
        (c c' : List Bucket)
        → AllNodes size i c
        → replace (compute_hash key) key value c ≡ some c'
        → find (compute_hash q) q c'
          ≡ (if are_keys_equal key q then some value else find (compute_hash q) q c)
    unfolding find replace
    find-replace [] c' v e = absurd (cc)
    find-replace (n ∷ c) c' v e =
        let same = is_match-key size i key n vk v.0 in
        let reads = is_match-key size i q n vq v.0 in
        elim (Bool-cases (is_match (compute_hash key) key n)) [
          | inl m ↦
              let n' = IsNode-write size i key value n vk v.0 (sym same ∙ m) in
              ground (
                arith,
                is_match-key size i q (record n { key = key; value = value }) vq n',
                are_keys_equal_congr_left n.key key q v.0.key vk vq,
              )
          | inr m ↦ elim (Option-cases (replace (compute_hash key) key value c)) [
            | inl no_match ↦ absurd (ground arith)
            | inr (c'', found) ↦ ground (
              arith,
              find-replace c c'' v.1 found,
              are_keys_equal_congr n.key key q v.0.key vk vq,
            )
          ]
        ]

    -- A key that no node matches is found at the end, where it is added.
    pub find_absent :
        (c : List Bucket)
        → AllNodes size i c
        → replace (compute_hash key) key value c ≡ none
        → are_keys_equal key q ≡ true
        → find (compute_hash q) q c ≡ none
    unfolding find replace
    find_absent [] v e h = refl
    find_absent (n ∷ c) v e h =
        let same = is_match-key size i key n vk v.0 in
        let reads = is_match-key size i q n vq v.0 in
        let differ : replace (compute_hash key) key value c ≡ none = ground arith in
        ground (arith, find_absent c v.1 differ, are_keys_equal_congr n.key key q v.0.key vk vq)
