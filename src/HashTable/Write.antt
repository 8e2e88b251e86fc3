-- ===== src/HashTable/Write.antt =====
-- sl_hashtable_set and sl_hashtable_get, on a table that has its array.
use mathlib.Core.Option.{or_else}
use native.Mathlib.Nat.{le-div_iff_mul-le}
use cpp_the_right_way.Base.{
  ◌≤◌, ◌+◌, ◌*◌, ◌/◌, true, Option, ℕ, ◌^◌, ◌<◌, none, some, List, [], ◌∷◌, ◌++◌, false, ◌≡◌, refl,
  ap, ◌∙◌, ◌⊎◌, inl, inr, arith, Bool-cases, Option-cases, u64, ◌<<<◌, ◌==◌, if◌then◌else◌, set,
  add64,
}
use cpp_the_right_way.Bits.{two_pow_pos}
use cpp_the_right_way.Arena.{Platform, Store}
use cpp_the_right_way.Run.{Safe, Safe-map, Safe-attempt}
use cpp_the_right_way.Strings.{SlString}
use cpp_the_right_way.Strings.Append.{IsString}
use cpp_the_right_way.HashTable.{
  Bucket, HashTable, Status, minus_one, index_of, find, find_in, replace, compute_hash,
  are_keys_equal, create_bucket, lookup, grow, needs_resize, resize, link_node, grow_linked,
  add_node, write_or_add, set_in, set_after, set_key,
}
use cpp_the_right_way.HashTable.Keys.{compute_hash_congr}
use cpp_the_right_way.HashTable.Placement.{
  IsNode, AllNodes, AllNodes-append, AllNodes-replace, find-replace, find_absent, find-append,
  is_match-key, find_in-home,
}
use cpp_the_right_way.HashTable.Moves.{
  IsPower, IsArray, chain_at, IsArray-set, find_in-set, create_bucket-Safe,
}
use cpp_the_right_way.HashTable.Resize.{IsTable, Resized, Resized-same, resize-Resized}

-- `t'` reads as `t`, but for `key`, which reads as `value`.
pub record Written (t : HashTable) (key : SlString) (value : Option SlString) (t' : HashTable)
    : Type 0 where
  pub power : IsPower t'.size
  pub array : IsArray t'.size t'.buckets
  pub bound : t'.size < 2 ^ 60
  pub count_least : t.count ≤ t'.count
  pub count_most : t'.count ≤ t.count + 1
  pub load : (t'.size ≡ t.size) ⊎ (t'.size ≤ 6 * t'.count)
  pub reads :
      (q : SlString)
      → IsString q
      → lookup t' q ≡ (if are_keys_equal key q then some value else lookup t q)

-- A return of 0 has written; one of -1 has written, or has changed nothing.
abbrev pub Answers : HashTable → SlString → Option SlString → Status × HashTable → Type 0
Answers t key value r = Written t key value r.1 ⊎ ((r.0 ≡ minus_one) × Resized 0 t r.1)

module _ (t : HashTable) (v : IsTable t) (few : t.count < 2 ^ 56) (key : SlString)
    (value : Option SlString) (vk : IsString key) where
  abbrev home : ℕ
  home = index_of (compute_hash key) t.size

  -- A chain in which the key reads as the value, and the other keys as before.
  chain-Written :
      (c c' : List Bucket) (count : ℕ)
      → AllNodes t.size home c'
      → ((q : SlString)
          → IsString q
          → find (compute_hash q) q c'
            ≡ (if are_keys_equal key q then some value else find (compute_hash q) q c))
      → ((q : SlString)
          → index_of (compute_hash q) t.size ≡ home
          → find_in (compute_hash q) q t.buckets ≡ find (compute_hash q) q c)
      → t.count ≤ count
      → count ≤ t.count + 1
      → Written t key value (record t { buckets = set t.buckets home c'; count = count })
  unfolding lookup
  chain-Written c c' count w new same_index least most =
      let fits : t.size < 2 ^ 64 = omega (arith, v.small) in
      record {
        power = v.power;
        array = IsArray-set t.size v.power fits home t.buckets c' v.array w;
        bound = omega (arith, v.small);
        count_least = least;
        count_most = most;
        load = inl refl;
        reads = λ q vq.
            let h = compute_hash q in
            find_in-set t.size v.power fits home h q t.buckets c' v.array w
            ∙ elim (Bool-cases (index_of h t.size == home)) [
              | inl same ↦
                  let at : index_of h t.size ≡ home = ground arith in
                  rw (same, same_index q at) (new q vq)
              | inr other ↦
                  let hashes = compute_hash_congr key q vk vq in
                  elim (Bool-cases (are_keys_equal key q)) [
                    | inl equal ↦
                        let at : home ≡ index_of h t.size =
                          ap (λ x. index_of x t.size) (hashes equal) in
                        absurd (ground arith)
                    | inr differ ↦ rw (other, differ)
                  ]
            ];
      }

  Resized-limit :
      (t' t'' : HashTable) → Resized (2 * (2 * t.size)) t' t'' → Resized (4 * t.size) t' t''
  Resized-limit t' t'' k = record {
    count = k.count;
    sized = elim k.sized [ inl e ↦ inl e | inr less ↦ inr (omega (arith, less)) ];
    power = k.power;
    array = k.array;
    bound = k.bound;
    reads = k.reads;
  }

  -- The load at which a table grows bounds its new size by its count.
  grown_load :
      (t' t'' : HashTable)
      → t'.size ≡ t.size
      → t'.count < 2 ^ 57
      → needs_resize t' ≡ true
      → Resized (4 * t.size) t' t''
      → (t''.size ≡ t.size) ⊎ (t''.size ≤ 6 * t''.count)
  unfolding needs_resize
  grown_load t' t'' same few' full k = elim k.sized [
    | inl e ↦ inl (e ∙ same)
    | inr less ↦
        let loaded : 75 ≤ u64 (t'.count * 100) / t'.size = ground arith in
        let pos : 0 < t'.size = rw same (rw v.power.power (two_pow_pos v.power.exponent)) in
        let product : 75 * t'.size ≤ u64 (t'.count * 100) = (le-div_iff_mul-le pos).0 loaded in
        inr (omega (arith, k.count))
  ]

  grow-Written :
      (os : Platform) (t' : HashTable) (s : Store)
      → t'.size ≡ t.size
      → Written t key value t'
      → Safe (grow os t' s) (λ r s'. Written t key value r.1)
  unfolding grow
  grow-Written os t' s same w =
      let few' : t'.count < 2 ^ 57 = omega (arith, few, w.count_most) in
      let here : IsTable t' = record {
        power = w.power;
        small = omega (arith, v.small);
        array = w.array;
      } in
      let request : u64 (t'.size <<< 1) ≡ 2 * t.size = omega (arith, v.small) in
      let after : (t'' : HashTable)
          → needs_resize t' ≡ true
          → Resized (4 * t.size) t' t''
          → Written t key value t'' =
        λ t'' full k. record {
          power = k.power;
          array = k.array;
          bound = k.bound;
          count_least = omega (arith, k.count, w.count_least);
          count_most = omega (arith, k.count, w.count_most);
          load = grown_load t' t'' same few' full k;
          reads = λ q vq. k.reads q vq ∙ w.reads q vq;
        } in
      let pos : 0 < t'.size = rw w.power.power (two_pow_pos w.power.exponent) in
      elim (Bool-cases (needs_resize t')) [
        | inl full ↦
            rw (full, request)
              (Safe-map (resize os t' (2 * t.size) s) _ _
                (resize-Resized os t' (2 * t.size) s here (omega arith) (omega (arith, v.small)))
                (λ r _ k. after r.1 full (Resized-limit t' r.1 k)))
        | inr room ↦ rw room w
      ]

  -- A key that is at no node of its chain is added at the end.
  added-reads :
      (c : List Bucket) (q : SlString)
      → AllNodes t.size home c
      → IsString q
      → replace (compute_hash key) key value c ≡ none
      → find
          (compute_hash q)
          q
          (c ++ record { hash = compute_hash key; key = key; value = value } ∷ [])
        ≡ (if are_keys_equal key q then some value else find (compute_hash q) q c)
  unfolding find or_else
  added-reads c q nodes vq missing =
      let n : Bucket = record { hash = compute_hash key; key = key; value = value } in
      let w : IsNode t.size home n = record { place = refl; hashed = refl; key = vk } in
      find-append (compute_hash q) q c (n ∷ [])
      ∙ ground (
        arith,
        is_match-key t.size home q n vq w,
        find_absent t.size home key value vk q vq c nodes missing,
      )

  pub set_in-Answers :
      (os : Platform) (s : Store) → Safe (set_in os t key value s) (λ r s'. Answers t key value r)
  unfolding set_in write_or_add add_node grow_linked link_node
  set_in-Answers os s =
      let fits : t.size < 2 ^ 64 = omega (arith, v.small) in
      let h = compute_hash key in
      let (c, e, nodes, reads) = chain_at t.size v.power fits h t.buckets v.array in
      let same_index = λ (q : SlString) (at : index_of (compute_hash q) t.size ≡ home).
        find_in-home (compute_hash q) q t.size 0 home t.buckets c v.array.placed (omega (arith, at))
          e in
      let n : Bucket = record { hash = h; key = key; value = value } in
      elim (Option-cases (replace h key value c)) [
        | inr (c', found) ↦
            rw (e, found)
              (inl (
                chain-Written c c' t.count
                  (AllNodes-replace t.size home key value vk c c' nodes found)
                  (λ q vq. find-replace t.size home key value vk q vq c c' nodes found) same_index
                  (omega arith) (omega arith)))
        | inl missing ↦
            let w =
              AllNodes-append t.size home c (n ∷ []) nodes
                (record { place = refl; hashed = refl; key = vk }, tt) in
            let linked =
              chain-Written c (c ++ n ∷ []) (add64 t.count 1) w
                (λ q vq. added-reads c q nodes vq missing) same_index (omega (arith, few))
                (omega (arith, few)) in
            rw (e, missing)
              (Safe-attempt (create_bucket os h key value) (grow_linked os t home c) s
                (λ b _. b ≡ n) (λ r _. Answers t key value r) (create_bucket-Safe os h key value s)
                (λ b s' same. rw same (
                  Safe-map (grow os (link_node t home c n) s') _ _
                    (grow-Written os (link_node t home c n) s' refl linked) (λ r _ k. inl k)))
                (λ s'. inr (refl, Resized-same 0 t t v refl refl refl)))
      ]

-- sl_hashtable_set with a well-formed key, on a table with an array of fewer than 2 ^ 58 chains and
-- fewer than 2 ^ 56 nodes: it makes no undefined access, and a return of 0 means that the key reads
-- as the value and every other key as before. A return of -1 means that, or that every key reads as
-- before. In every case each node is in the chain of its hash, the count grows by at most one, and
-- the array is as large as before or at most six times the count.
pub set_key-Answers :
    (os : Platform) (t : HashTable) (key : SlString) (value : Option SlString) (s : Store)
    → IsTable t
    → t.count < 2 ^ 56
    → IsString key
    → Safe (set_key os t key value s) (λ r s'. Answers t key value r)
unfolding set_key set_after
set_key-Answers os t key value s v few vk =
    let pos : 0 < t.size = rw v.power.power (two_pow_pos v.power.exponent) in
    let some_size : (t.size == 0) ≡ false = ground arith in
    rw some_size (set_in-Answers t v few key value vk os s)
