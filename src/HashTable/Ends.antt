-- ===== src/HashTable/Ends.antt =====
-- sl_hashtable_set always returns a code: it is never cut off by an allocation that fails.
use cpp_the_right_way.Base.{
  ℕ, Option, none, some, List, [], ◌∷◌, ◌==◌, if◌then◌else◌, Bool-cases, inl, inr, u64, ◌*◌, leb,
  ◌<<<◌, get_elem?, ◌≡◌, ◌⊎◌, refl,
}
use cpp_the_right_way.Arena.{Platform, Store, pow2_size}
use cpp_the_right_way.Run.{
  M, pure, ◌>>=◌, access, attempt, allocate_or_fail, NeverFails, NeverFails-bind, NeverFails-access,
  NeverFails-attempt,
}
use cpp_the_right_way.Strings.{SlString}
use cpp_the_right_way.HashTable.{
  HashTable, Bucket, Moving, Status, done, minus_one, index_of, create_bucket, null_buckets,
  move_node, move_chain, move_chains, unless_stopped, fill_resized, unless_missing, fill_first,
  first_size, allocate_table, resize, needs_resize, grow, grow_linked, link_node, add_node,
  write_or_add, replace, compute_hash, set_in, set_after, set_key, sizeof_pointer,
}

by_status : (c : Status) → (c ≡ minus_one) ⊎ (c ≡ done)
by_status minus_one = inl refl
by_status done = inr refl

module _ (os : Platform) where
  stopped :
      (m : Moving) (rest : M Moving) (s : Store)
      → NeverFails (rest s)
      → NeverFails (unless_stopped m rest s)
  unfolding unless_stopped
  stopped m rest s h = elim (by_status m.status) [ inl stops ↦ rw stops tt | inr runs ↦ rw runs h ]

  move_node-Ends :
      (size : ℕ) (node : Bucket) (m : Moving) (s : Store) → NeverFails (move_node os size node m s)
  unfolding move_node
  move_node-Ends size node m s =
      NeverFails-bind (access (get_elem? m.buckets (index_of node.hash size))) _ s
        (NeverFails-access (get_elem? m.buckets (index_of node.hash size)) s)
        (λ chain s'.
          NeverFails-bind (attempt (create_bucket os node.hash node.key node.value)) _ s'
            (NeverFails-attempt (create_bucket os node.hash node.key node.value) s') (λ _ _. tt))

  move_chain-Ends :
      (size : ℕ) (nodes : List Bucket) (m : Moving) (s : Store)
      → NeverFails (move_chain os size nodes m s)
  unfolding move_chain
  move_chain-Ends size [] m s = tt
  move_chain-Ends size (node ∷ nodes) m s =
      NeverFails-bind (move_node os size node m) _ s (move_node-Ends size node m s)
        (λ m' s'. stopped m' (move_chain os size nodes m') s' (move_chain-Ends size nodes m' s'))

  move_chains-Ends :
      (size : ℕ) (chains : List (List Bucket)) (m : Moving) (s : Store)
      → NeverFails (move_chains os size chains m s)
  unfolding move_chains
  move_chains-Ends size [] m s = tt
  move_chains-Ends size (chain ∷ chains) m s =
      NeverFails-bind (move_chain os size chain m) _ s (move_chain-Ends size chain m s) (λ m' s'.
        stopped m' (move_chains os size chains m') s' (move_chains-Ends size chains m' s'))

  missing :
      (t : HashTable) (rest : M (Status × HashTable)) (r : Option ℕ) (s : Store)
      → NeverFails (rest s)
      → NeverFails (unless_missing t rest r s)
  unfolding unless_missing
  missing t rest none s h = tt
  missing t rest (some p) s h = h

  -- An array that is asked for, and what is done with it.
  asked-Ends :
      (t : HashTable) (size : ℕ) (rest : M (Status × HashTable)) (s : Store)
      → ((s' : Store) → NeverFails (rest s'))
      → NeverFails ((attempt (allocate_or_fail os size) >>= unless_missing t rest) s)
  asked-Ends t size rest s h =
      NeverFails-bind (attempt (allocate_or_fail os size)) (unless_missing t rest) s
        (NeverFails-attempt (allocate_or_fail os size) s) (λ r s'. missing t rest r s' (h s'))

  pub allocate_table-Ends :
      (t : HashTable) (size : ℕ) (s : Store) → NeverFails (allocate_table os t size s)
  unfolding allocate_table fill_first
  allocate_table-Ends t size s =
      asked-Ends t (u64 (sizeof_pointer * first_size t size)) (fill_first t (first_size t size)) s
        (λ s'.
          NeverFails-bind (access (null_buckets (first_size t size))) _ s'
            (NeverFails-access (null_buckets (first_size t size)) s') (λ _ _. tt))

  fill_resized-Ends : (t : HashTable) (size : ℕ) (s : Store) → NeverFails (fill_resized os t size s)
  unfolding fill_resized
  fill_resized-Ends t size s =
      NeverFails-bind (access (null_buckets size)) _ s (NeverFails-access (null_buckets size) s)
        (λ fresh s'.
          let m : Moving = record { status = done; buckets = fresh; wasted = t.wasted } in
          NeverFails-bind (move_chains os size t.buckets m) _ s'
            (move_chains-Ends size t.buckets m s') (λ _ _. tt))

  resize-Ends : (t : HashTable) (size : ℕ) (s : Store) → NeverFails (resize os t size s)
  unfolding resize
  resize-Ends t size s = elim (Bool-cases (leb (pow2_size size) t.size)) [
    | inl enough ↦ rw enough tt
    | inr more ↦ rw more (
        asked-Ends t (u64 (sizeof_pointer * pow2_size size)) (fill_resized os t (pow2_size size)) s
          (fill_resized-Ends t (pow2_size size)))
  ]

  grow-Ends : (t : HashTable) (s : Store) → NeverFails (grow os t s)
  unfolding grow
  grow-Ends t s = elim (Bool-cases (needs_resize t)) [
    | inl full ↦ rw full (resize-Ends t (u64 (t.size <<< 1)) s)
    | inr room ↦ rw room tt
  ]

  grow_linked-Ends :
      (t : HashTable) (i : ℕ) (chain : List Bucket) (r : Option Bucket) (s : Store)
      → NeverFails (grow_linked os t i chain r s)
  unfolding grow_linked
  grow_linked-Ends t i chain none s = tt
  grow_linked-Ends t i chain (some node) s = grow-Ends (link_node t i chain node) s

  write_or_add-Ends :
      (t : HashTable) (i : ℕ) (chain : List Bucket) (key : SlString) (value : Option SlString)
      (r : Option (List Bucket)) (s : Store)
      → NeverFails (write_or_add os t i chain key value r s)
  unfolding write_or_add add_node
  write_or_add-Ends t i chain key value (some chain') s = tt
  write_or_add-Ends t i chain key value none s =
      NeverFails-bind (attempt (create_bucket os (compute_hash key) key value))
        (grow_linked os t i chain) s
        (NeverFails-attempt (create_bucket os (compute_hash key) key value) s)
        (grow_linked-Ends t i chain)

  set_after-Ends :
      (key : SlString) (value : Option SlString) (c : Status) (t : HashTable) (s : Store)
      → NeverFails (set_after os key value c t s)
  unfolding set_after set_in
  set_after-Ends key value minus_one t s = tt
  set_after-Ends key value done t s =
      NeverFails-bind (access (get_elem? t.buckets (index_of (compute_hash key) t.size))) _ s
        (NeverFails-access (get_elem? t.buckets (index_of (compute_hash key) t.size)) s)
        (λ chain s'.
          write_or_add-Ends t (index_of (compute_hash key) t.size) chain key value
            (replace (compute_hash key) key value chain) s')

  -- The array before a key is set or found to be NULL.
  array-Ends :
      (t : HashTable) (s : Store)
      → NeverFails ((if t.size == 0 then allocate_table os t t.preallocate else pure (done, t)) s)
  array-Ends t s = elim (Bool-cases (t.size == 0)) [
    | inl new ↦ rw new (allocate_table-Ends t t.preallocate s)
    | inr old ↦ rw old tt
  ]

  pub set_key-Ends :
      (t : HashTable) (key : SlString) (value : Option SlString) (s : Store)
      → NeverFails (set_key os t key value s)
  unfolding set_key
  set_key-Ends t key value s =
      NeverFails-bind (if t.size == 0 then allocate_table os t t.preallocate else pure (done, t))
        (λ r. set_after os key value r.0 r.1) s (array-Ends t s)
        (λ r s'. set_after-Ends key value r.0 r.1 s')
