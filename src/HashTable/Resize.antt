-- ===== src/HashTable/Resize.antt =====
-- sl_hashtable_resize: what it does to the array and to what keys read, failures included.
use mathlib.Core.Option.{or_else}
use mathlib.Core.List.{flatten}
use cpp_the_right_way.Base.{
  ◌⊎◌, ℕ, zero, suc, ◌*◌, ◌^◌, ◌≤◌, ◌<◌, none, some, List, [], ◌∷◌, ◌++◌, ◌≡◌, refl, sym, ap, ◌∙◌,
  inl, inr, arith, Bool-cases, replicate, length-replicate, u64, leb, lt→ltb,
}
use cpp_the_right_way.Arena.{Platform, Store, pow2_size}
use cpp_the_right_way.Arena.Pow2.{pow2_size-IsLeast}
use cpp_the_right_way.Run.{
  Safe, Safe-bind, Safe-map, Safe-attempt, allocate_or_fail, allocate_or_fail-Safe, pure,
}
use cpp_the_right_way.Strings.{SlString}
use cpp_the_right_way.Strings.Append.{IsString}
use cpp_the_right_way.HashTable.{
  Bucket, HashTable, find, find_in, compute_hash, Moving, Status, done, minus_one, move_chain,
  move_chains, unless_stopped, finish_resize, fill_resized, unless_missing, resize, null_buckets,
  lookup, sizeof_pointer,
}
use cpp_the_right_way.HashTable.Placement.{ArePlaced, ArePlaced-replicate, find-append}
use cpp_the_right_way.HashTable.Moves.{
  IsPower, IsArray, Moved, Moved-nil, Moved-append, move_chain-Moved, unless_stopped-Safe,
}

-- A table with an array: a power of two of chains, below 2 ^ 58, with every node in its place.
pub record IsTable (t : HashTable) : Type 0 where
  pub power : IsPower t.size
  pub small : t.size < 2 ^ 58
  pub array : IsArray t.size t.buckets

find_in-flatten :
    (h : ℕ) (q : SlString) (cs : List (List Bucket)) → find_in h q cs ≡ find h q (flatten cs)
unfolding find_in flatten find or_else
find_in-flatten h q [] = refl
find_in-flatten h q (c ∷ cs) =
    ground (arith, find-append h q c (flatten cs), find_in-flatten h q cs)

pub find_in-replicate : (h : ℕ) (q : SlString) (n : ℕ) → find_in h q (replicate n []) ≡ none
unfolding find_in find
find_in-replicate h q zero = refl
find_in-replicate h q (suc n) = find_in-replicate h q n

move_chains-Moved :
    (size : ℕ) (p : IsPower size) (fits : size < 2 ^ 64) (old i : ℕ) (os : Platform)
    (chains : List (List Bucket)) (m : Moving) (s : Store)
    → IsArray size m.buckets
    → ArePlaced old i chains
    → Safe
        (move_chains os size chains m s)
        λ m' s'. Moved size p fits old i m.buckets (flatten chains) m'
unfolding move_chains flatten
move_chains-Moved size p fits old i os [] m s v w = Moved-nil size p fits old i m v
move_chains-Moved size p fits old i os (c ∷ cs) m s v w =
    let goal = Moved size p fits old i m.buckets (c ++ flatten cs) in
    Safe-bind (move_chain os size c m) (λ m'. unless_stopped m' (move_chains os size cs m')) s
      (λ m' _. Moved size p fits old i m.buckets c m') (λ m' _. goal m')
      (move_chain-Moved size p fits old i os c m s v w.0)
      (λ m' s' f.
        unless_stopped-Safe size p fits old i m' (move_chains os size cs m') s' goal
          (λ stop running. cc)
          (λ running.
            Safe-map (move_chains os size cs m' s') _ _
              (move_chains-Moved size p fits old (suc i) os cs m' s' (f running).0 w.1)
              (λ m'' _ g. Moved-append size p fits old i m m' m'' c (flatten cs) running f g)))

-- What a resize keeps: the invariant but for the bounds, the count, and every reading. The size is as
-- before, or below `limit`.
pub record Resized (limit : ℕ) (t t' : HashTable) : Type 0 where
  pub count : t'.count ≡ t.count
  pub sized : (t'.size ≡ t.size) ⊎ (t'.size < limit)
  pub power : IsPower t'.size
  pub array : IsArray t'.size t'.buckets
  pub bound : t'.size < 2 ^ 60
  pub reads : (q : SlString) → IsString q → lookup t' q ≡ lookup t q

pub Resized-same :
    (limit : ℕ) (t t' : HashTable)
    → IsTable t
    → t'.size ≡ t.size
    → t'.buckets ≡ t.buckets
    → t'.count ≡ t.count
    → Resized limit t t'
unfolding lookup
Resized-same limit t t' v e f g = record {
  count = g;
  sized = inl e;
  power = rw e v.power;
  array = rw (e, f) v.array;
  bound = omega (arith, v.small);
  reads = λ q _. ap (find_in (compute_hash q) q) f;
}

finish_resize-Resized :
    (limit : ℕ) (t : HashTable) (size : ℕ) (p : IsPower size) (fits : size < 2 ^ 64) (c : Status)
    (m : Moving)
    → IsTable t
    → size < 2 ^ 60
    → size < limit
    → m.status ≡ c
    → Moved size p fits t.size 0 (replicate size []) (flatten t.buckets) m
    → Resized limit t (finish_resize c t size m).1
unfolding finish_resize lookup or_else
finish_resize-Resized limit t size p fits minus_one m v below less e f =
    Resized-same limit t _ v refl refl refl
finish_resize-Resized limit t size p fits done m v below less e f =
    let (array, reads) = f e in
    record {
      count = refl;
      sized = inr less;
      power = p;
      array = array;
      bound = below;
      reads = λ q vq.
          let h = compute_hash q in
          reads q vq
          ∙ (ap (λ o. or_else o (find h q (flatten t.buckets))) (find_in-replicate h q size)
              ∙ sym (find_in-flatten h q t.buckets));
    }

pub replicate-IsArray : (size : ℕ) → IsArray size (replicate size [])
replicate-IsArray size = record {
  width = length-replicate size [];
  placed = ArePlaced-replicate size 0 size;
}

pub null_buckets_lem : (size : ℕ) → size < 2 ^ 60 → null_buckets size ≡ some (replicate size [])
unfolding null_buckets
null_buckets_lem size small =
    let fits : sizeof_pointer * size < 2 ^ 64 = omega arith in rw (lt→ltb _ _ fits)

fill_resized-Resized :
    (os : Platform) (limit : ℕ) (t : HashTable) (size : ℕ) (s : Store)
    → IsTable t
    → IsPower size
    → size < 2 ^ 60
    → size < limit
    → Safe (fill_resized os t size s) (λ r s'. Resized limit t r.1)
unfolding fill_resized
fill_resized-Resized os limit t size s v p small less =
    let fresh = replicate size [] in
    let start : Moving = record { status = done; buckets = fresh; wasted = t.wasted } in
    let fits : size < 2 ^ 64 = omega arith in
    rw (null_buckets_lem size small) (
      Safe-bind (move_chains os size t.buckets start) (λ m. pure (finish_resize m.status t size m))
        s (λ m _. Moved size p fits t.size 0 fresh (flatten t.buckets) m)
        (λ r _. Resized limit t r.1)
        (move_chains-Moved size p fits t.size 0 os t.buckets start s (replicate-IsArray size)
          v.array.placed)
        (λ m s' f. finish_resize-Resized limit t size p fits m.status m v small less refl f))

-- Growing a table with an array to a size from 1 to 2 ^ 59 makes no undefined access, and, whether it
-- succeeds or not, every well-formed key reads as before, each node is in the chain of its hash, and
-- the size is as before or less than twice the size asked for.
pub resize-Resized :
    (os : Platform) (t : HashTable) (size : ℕ) (s : Store)
    → IsTable t
    → 0 < size
    → size ≤ 2 ^ 59
    → Safe (resize os t size s) (λ r s'. Resized (2 * size) t r.1)
unfolding resize unless_missing
resize-Resized os t size s v pos small =
    let (k, le, e, lo, hi) = pow2_size-IsLeast size pos (omega arith) in
    let p : IsPower (pow2_size size) = record { exponent = k; small = le; power = e } in
    let new = pow2_size size in
    let request = u64 (sizeof_pointer * new) in
    elim (Bool-cases (leb new t.size)) [
      | inl enough ↦ rw enough (Resized-same (2 * size) t t v refl refl refl)
      | inr more ↦ rw more (
          Safe-attempt (allocate_or_fail os request) (unless_missing t (fill_resized os t new)) s
            (λ _ _. Unit {0}) (λ r _. Resized (2 * size) t r.1) (allocate_or_fail-Safe os request s)
            (λ _ s' _. fill_resized-Resized os (2 * size) t new s' v p (omega arith) (omega arith))
            (λ _. Resized-same (2 * size) t t v refl refl refl))
    ]
