-- ===== src/HashTable/Map.antt =====
-- A table as a map, new or with its array, through any number of calls of sl_hashtable_set.
use cpp_the_right_way.Base.{
  ℕ, ◌+◌, ◌*◌, ◌^◌, ◌≤◌, Option, some, ◌≡◌, refl, ap, sym, ◌∙◌, ◌⊎◌, inl, inr, arith, true, ◌==◌,
  if◌then◌else◌,
}
use cpp_the_right_way.Arena.{Platform, Store}
use cpp_the_right_way.Run.{Safe, Safe-bind, Safe-map}
use cpp_the_right_way.Strings.{SlString}
use cpp_the_right_way.Strings.Append.{IsString}
use cpp_the_right_way.HashTable.{
  HashTable, Status, done, minus_one, lookup, are_keys_equal, allocate_table, set_in, set_after,
  set_key,
}
use cpp_the_right_way.HashTable.Moves.{IsPower, IsArray}
use cpp_the_right_way.HashTable.Resize.{IsTable}
use cpp_the_right_way.HashTable.Write.{Answers, set_in-Answers, set_key-Answers}
use cpp_the_right_way.HashTable.First.{IsFresh, Made, allocate_table-Made, IsFresh-ReadsNone}

-- A table with an array and at most `n` nodes.
pub record IsLoaded (limit n : ℕ) (t : HashTable) : Type 0 where
  pub power : IsPower t.size
  pub array : IsArray t.size t.buckets
  pub counted : t.count ≤ n
  pub load : t.size ≤ limit + 6 * n

-- A table after at most `n` calls of sl_hashtable_set.
abbrev pub IsMap : ℕ → ℕ → HashTable → Type 0
IsMap limit n t = IsFresh limit t ⊎ IsLoaded limit n t

-- `key` reads as `value`, and the other keys as before.
abbrev Updated : HashTable → SlString → Option SlString → HashTable → Type 0
Updated t key value t' =
    (q : SlString)
    → IsString q
    → lookup t' q ≡ (if are_keys_equal key q then some value else lookup t q)

abbrev Unchanged : HashTable → HashTable → Type 0
Unchanged t t' = (q : SlString) → IsString q → lookup t' q ≡ lookup t q

-- What a call with `key` and `value` comes to.
abbrev pub Sets : ℕ → ℕ → HashTable → SlString → Option SlString → Status × HashTable → Type 0
Sets limit n t key value r =
    IsMap limit (n + 1) r.1 × (Updated t key value r.1 ⊎ ((r.0 ≡ minus_one) × Unchanged t r.1))

IsLoaded-IsTable :
    (limit n : ℕ) (t : HashTable) → limit ≤ 2 ^ 57 → n ≤ 2 ^ 54 → IsLoaded limit n t → IsTable t
IsLoaded-IsTable limit n t small few v = record {
  power = v.power;
  small = omega (arith, v.load);
  array = v.array;
}

Answers-Sets :
    (limit n : ℕ) (t : HashTable) (key : SlString) (value : Option SlString)
    (r : Status × HashTable)
    → IsLoaded limit n t
    → Answers t key value r
    → Sets limit n t key value r
Answers-Sets limit n t key value r v (inl w) = (
  inr (record {
    power = w.power;
    array = w.array;
    counted = omega (arith, v.counted, w.count_most);
    load = elim w.load [
      | inl same ↦ omega (arith, v.load, same)
      | inr loaded ↦ omega (arith, v.counted, w.count_most, loaded)
    ];
  }),
  inl w.reads,
)
Answers-Sets limit n t key value r v (inr (e, k)) = (
  inr (record {
    power = k.power;
    array = k.array;
    counted = omega (arith, v.counted, k.count);
    load = elim k.sized [
      | inl same ↦ omega (arith, v.load, same)
      | inr less ↦ absurd (omega (arith, less))
    ];
  }),
  inr (e, k.reads),
)

set_after-Sets :
    (os : Platform) (limit n : ℕ) (key : SlString) (value : Option SlString) (t : HashTable)
    (c : Status) (t' : HashTable) (s : Store)
    → limit ≤ 2 ^ 57
    → IsFresh limit t
    → IsString key
    → Made limit t (c, t')
    → Safe (set_after os key value c t' s) (λ r s'. Sets limit n t key value r)
unfolding set_after
set_after-Sets os limit n key value t minus_one t' s small f vk (inl (e, v)) = absurd cc
set_after-Sets os limit n key value t minus_one t' s small f vk (inr (e, same)) =
    rw same (inl f, inr (refl, λ q vq. refl))
set_after-Sets os limit n key value t done t' s small f vk (inl (e, v)) =
    let first : IsLoaded limit n t' = record {
      power = v.table.power;
      array = v.table.array;
      counted = omega (arith, v.none_yet);
      load = omega (arith, v.sized);
    } in
    let none_before =
      λ (q : SlString) (vq : IsString q). v.reads q vq ∙ sym (IsFresh-ReadsNone limit t f q vq) in
    Safe-map (set_in os t' key value s) (λ r _. Answers t' key value r) _
      (set_in-Answers t' v.table (omega (arith, v.none_yet)) key value vk os s)
      (λ r _ a.
        let (kept, reads) = Answers-Sets limit n t' key value r first a in
        (
          kept,
          elim reads [
            | inl u ↦ inl (λ q vq.
                u q vq
                ∙ ap (λ o. if are_keys_equal key q then some value else o) (none_before q vq))
            | inr (failed, u) ↦ inr (failed, λ q vq. u q vq ∙ none_before q vq)
          ],
        ))
set_after-Sets os limit n key value t done t' s small f vk (inr (e, same)) = absurd cc

-- sl_hashtable_set with a well-formed key, on a new table or one with its array, after at most 2 ^ 54
-- earlier calls and with a first array of at most 2 ^ 57 chains: it makes no undefined access and
-- keeps the invariant, by which the array is never larger than the first one and six chains for each
-- call. Either the key reads as the value and every other key as before, or -1 is returned and every
-- key reads as before.
pub set_key-Sets :
    (os : Platform) (limit n : ℕ) (t : HashTable) (key : SlString) (value : Option SlString)
    (s : Store)
    → limit ≤ 2 ^ 57
    → n ≤ 2 ^ 54
    → IsMap limit n t
    → IsString key
    → Safe (set_key os t key value s) (λ r s'. Sets limit n t key value r)
unfolding set_key
set_key-Sets os limit n t key value s small few (inl f) vk =
    let no_size : (t.size == 0) ≡ true = ground (arith, f.no_size) in
    rw no_size (
      Safe-bind (allocate_table os t t.preallocate) (λ r. set_after os key value r.0 r.1) s
        (λ r _. Made limit t r) (λ r _. Sets limit n t key value r)
        (allocate_table-Made os limit t s f (omega arith))
        (λ r s' m. set_after-Sets os limit n key value t r.0 r.1 s' small f vk m))
set_key-Sets os limit n t key value s small few (inr v) vk =
    let w = IsLoaded-IsTable limit n t small few v in
    Safe-map (set_key os t key value s) (λ r _. Answers t key value r) _
      (set_key-Answers os t key value s w (omega (arith, v.counted)) vk)
      (λ r _ a. Answers-Sets limit n t key value r v a)
