-- ===== src/HashTable/First.antt =====
-- sl_hashtable_allocate: the first sl_hashtable_set of a new table, which makes the array.
use cpp_the_right_way.Base.{
  Option, ℕ, ◌*◌, ◌^◌, ◌≤◌, ◌<◌, none, some, [], ◌≡◌, refl, ap, ◌∙◌, ◌⊎◌, inl, inr, arith, Bool,
  Bool-cases, u64, ltb, ltb→lt, if◌then◌else◌,
}
use cpp_the_right_way.Arena.{Platform, Store, pow2_size}
use cpp_the_right_way.Arena.Pow2.{pow2_size-IsLeast}
use cpp_the_right_way.Run.{
  Safe, Safe-bind, Safe-map, Safe-attempt, allocate_or_fail, allocate_or_fail-Safe,
}
use cpp_the_right_way.Strings.{SlString}
use cpp_the_right_way.Strings.Append.{IsString}
use cpp_the_right_way.HashTable.{
  HashTable, Status, done, minus_one, init, lookup, find_in, compute_hash, are_keys_equal,
  first_size, fill_first, unless_missing, allocate_table, set_in, set_after, set_key,
  sizeof_pointer,
}
use cpp_the_right_way.HashTable.Moves.{IsPower, IsArray}
use cpp_the_right_way.HashTable.Resize.{
  IsTable, find_in-replicate, replicate-IsArray, null_buckets_lem,
}
use cpp_the_right_way.HashTable.Write.{Answers, set_in-Answers}

-- No key reads as anything.
abbrev ReadsNone : HashTable → Type 0
ReadsNone t = (q : SlString) → IsString q → lookup t q ≡ none

-- `t` has no array yet, and the first one has fewer than `limit` chains.
pub record IsFresh (limit : ℕ) (t : HashTable) : Type 0 where
  pub empty : t.buckets ≡ []
  pub no_size : t.size ≡ 0
  pub some_chains : 0 < t.preallocate
  pub limited : 2 * t.preallocate ≤ limit

-- A new array with nothing in it.
pub record IsEmpty (limit : ℕ) (t : HashTable) : Type 0 where
  pub table : IsTable t
  pub sized : t.size < limit
  pub none_yet : t.count ≡ 0
  pub reads : ReadsNone t

-- A table with an empty array, or the failure to make one, which leaves the table as it was.
abbrev pub Made : ℕ → HashTable → Status × HashTable → Type 0
Made limit t r = ((r.0 ≡ done) × IsEmpty limit r.1) ⊎ ((r.0 ≡ minus_one) × (r.1 ≡ t))

fill_first-Made :
    (limit : ℕ) (t : HashTable) (size : ℕ) (s : Store)
    → IsPower size
    → size < limit
    → limit ≤ 2 ^ 58
    → Safe (fill_first t size s) (λ r s'. Made limit t r)
unfolding fill_first lookup
fill_first-Made limit t size s p small below = rw (null_buckets_lem size (omega arith)) (
    inl (
      refl,
      record {
        table = record { power = p; small = omega arith; array = replicate-IsArray size };
        sized = small;
        none_yet = refl;
        reads = λ q vq. find_in-replicate (compute_hash q) q size;
      },
    ))

-- The size of the first array is the power of two that its argument is rounded up to.
first_size-IsPower :
    (t : HashTable)
    → 0 < t.preallocate
    → t.preallocate ≤ 2 ^ 57
    → IsPower (first_size t t.preallocate) × (first_size t t.preallocate < 2 * t.preallocate)
unfolding first_size
first_size-IsPower t pos small =
    let (k, le, e, lo, hi) = pow2_size-IsLeast t.preallocate pos (omega arith) in
    elim (Bool-cases (ltb (pow2_size t.preallocate) t.preallocate)) [
      | inl below ↦ absurd (omega (arith, e, ltb→lt _ _ below))
      | inr enough ↦ rw enough (record { exponent = k; small = le; power = e }, omega arith)
    ]

pub allocate_table-Made :
    (os : Platform) (limit : ℕ) (t : HashTable) (s : Store)
    → IsFresh limit t
    → limit ≤ 2 ^ 58
    → Safe (allocate_table os t t.preallocate s) (λ r s'. Made limit t r)
unfolding allocate_table unless_missing
allocate_table-Made os limit t s v below =
    let (p, less) = first_size-IsPower t v.some_chains (omega (arith, v.limited)) in
    let size = first_size t t.preallocate in
    let request = u64 (sizeof_pointer * size) in
    Safe-attempt (allocate_or_fail os request) (unless_missing t (fill_first t size)) s
      (λ _ _. Unit {0}) (λ r _. Made limit t r) (allocate_or_fail-Safe os request s)
      (λ _ s' _. fill_first-Made limit t size s' p (omega (arith, v.limited)) below)
      (λ s'. inr (refl, refl))

pub IsFresh-ReadsNone : (limit : ℕ) (t : HashTable) → IsFresh limit t → ReadsNone t
unfolding lookup find_in
IsFresh-ReadsNone limit t v q vq = rw v.empty refl

-- The key reads as the value, and no other key as anything.
pub record Only (key : SlString) (value : Option SlString) (t : HashTable) : Type 0 where
  pub array : IsArray t.size t.buckets
  pub reads :
      (q : SlString) → IsString q → lookup t q ≡ (if are_keys_equal key q then some value else none)

abbrev pub AnswersFirst : SlString → Option SlString → Status × HashTable → Type 0
AnswersFirst key value r = Only key value r.1 ⊎ ((r.0 ≡ minus_one) × ReadsNone r.1)

Answers-First :
    (t : HashTable) (key : SlString) (value : Option SlString) (r : Status × HashTable)
    → ReadsNone t
    → Answers t key value r
    → AnswersFirst key value r
Answers-First t key value r n (inl w) = inl (record {
  array = w.array;
  reads = λ q vq. w.reads q vq ∙ ap (λ o. if are_keys_equal key q then some value else o) (n q vq);
})
Answers-First t key value r n (inr (e, kept)) = inr (e, λ q vq. kept.reads q vq ∙ n q vq)

set_after-First :
    (os : Platform) (limit : ℕ) (key : SlString) (value : Option SlString) (t : HashTable)
    (c : Status) (t' : HashTable) (s : Store)
    → IsFresh limit t
    → IsString key
    → Made limit t (c, t')
    → Safe (set_after os key value c t' s) (λ r s'. AnswersFirst key value r)
unfolding set_after
set_after-First os limit key value t minus_one t' s f vk (inl (e, v)) = absurd cc
set_after-First os limit key value t minus_one t' s f vk (inr (e, same)) =
    inr (refl, rw same (IsFresh-ReadsNone limit t f))
set_after-First os limit key value t done t' s f vk (inl (e, v)) =
    Safe-map (set_in os t' key value s) (λ r _. Answers t' key value r) _
      (set_in-Answers t' v.table (omega (arith, v.none_yet)) key value vk os s)
      (λ r _ a. Answers-First t' key value r v.reads a)
set_after-First os limit key value t done t' s f vk (inr (e, same)) = absurd cc

pub init-IsFresh : (n : ℕ) (resize : Bool) → 0 < n → n ≤ 2 ^ 56 → IsFresh (4 * n) (init n resize)
unfolding init
init-IsFresh n resize pos small =
    let (k, le, e, lo, hi) = pow2_size-IsLeast n pos (omega arith) in
    record { empty = refl; no_size = refl; some_chains = omega arith; limited = omega arith }

-- sl_hashtable_set with a well-formed key, on a new table with a preallocation from 1 to 2 ^ 56
-- chains: it makes the array with no undefined access, and a return of 0 means that the key reads
-- as the value and no other key as anything. A return of -1 means that, or that no key reads as
-- anything.
pub set_key-AnswersFirst :
    (os : Platform) (n : ℕ) (resize : Bool) (key : SlString) (value : Option SlString) (s : Store)
    → 0 < n
    → n ≤ 2 ^ 56
    → IsString key
    → Safe (set_key os (init n resize) key value s) (λ r s'. AnswersFirst key value r)
unfolding set_key init
set_key-AnswersFirst os n resize key value s pos small vk =
    let t = init n resize in
    let f = init-IsFresh n resize pos small in
    Safe-bind (allocate_table os t t.preallocate) (λ r. set_after os key value r.0 r.1) s
      (λ r _. Made (4 * n) t r) (λ r _. AnswersFirst key value r)
      (allocate_table-Made os (4 * n) t s f (omega arith))
      (λ r s' m. set_after-First os (4 * n) key value t r.0 r.1 s' f vk m)
