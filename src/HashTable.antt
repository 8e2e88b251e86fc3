-- ===== src/HashTable.antt =====
-- sl_hashtable.c: a table of chains with string keys that doubles at three quarters full.
-- The array of chains is a list of `size` lists, and a chain is the list behind its `next` pointers.
-- A table owns no string: it keeps the key and the value that it was given, of which the value is
-- never looked at and may be NULL, that is `none`.
pub mod Keys
pub mod Placement
pub mod Moves
pub mod Resize
pub mod Write
pub mod First
pub mod Map
pub mod Ends
use cpp_the_right_way.Base.{
  ℕ, ◌+◌, ◌-◌, ◌*◌, ◌/◌, ◌^◌, bit_and, Option, none, some, List, [], ◌∷◌, ◌++◌, Bool, true, false,
  ◌&&◌, leb, ltb, ◌==◌, if◌then◌else◌, get_elem?, set, replicate, u64, add64, sub64, ◌<<<◌,
}
use cpp_the_right_way.Arena.{Platform, pow2_size}
use cpp_the_right_way.Run.{M, pure, ◌>>=◌, access, attempt, allocate_or_fail}
use cpp_the_right_way.Strings.{SlString, contents}

pub record Bucket : Type 0 where
  pub hash : ℕ
  pub key : SlString
  pub value : Option SlString

pub record HashTable : Type 0 where
  pub buckets : List (List Bucket)
  pub resize : Bool
  pub preallocate : ℕ
  pub size : ℕ
  pub count : ℕ
  pub resizes : ℕ
  pub wasted : ℕ

abbrev pub max_load : ℕ
max_load = 75

abbrev pub sizeof_bucket : ℕ
sizeof_bucket = 32

abbrev pub sizeof_pointer : ℕ
sizeof_pointer = 8

-- The returned code.
pub data Status : Type 0 where
  done minus_one : Status

-- The comparison of the bytes, of which both sides have as many.
unfoldable pub same_bytes : List ℕ → List ℕ → Bool
same_bytes [] ys = true
same_bytes (x ∷ xs) [] = false
same_bytes (x ∷ xs) (y ∷ ys) = if x == y then same_bytes xs ys else false

unfoldable pub are_keys_equal : SlString → SlString → Bool
are_keys_equal a b = if a.length == b.length then same_bytes (contents a) (contents b) else false

-- A `char` of the key, which is signed, as a `size_t`.
unfoldable pub widen_char : ℕ → ℕ
widen_char c = if ltb c 128 then c else c + 2 ^ 64 - 2 ^ 8

unfoldable pub hash_bytes : ℕ → List ℕ → ℕ
unfolding widen_char
hash_bytes hash [] = hash
hash_bytes hash (c ∷ cs) = hash_bytes (sub64 (add64 (widen_char c) (u64 (hash <<< 5))) hash) cs

unfoldable pub compute_hash : SlString → ℕ
compute_hash key = hash_bytes 0 (contents key)

unfoldable pub create_bucket : Platform → ℕ → SlString → Option SlString → M Bucket
create_bucket os hash key value = do
  _ ← allocate_or_fail os sizeof_bucket
  pure (record { hash = hash; key = key; value = value })

-- The loop that clears a new array: `size` pointers in an array of `8 * size` bytes, if that
-- product did not wrap around.
unfoldable pub null_buckets : ℕ → Option (List (List Bucket))
null_buckets size = if ltb (sizeof_pointer * size) (2 ^ 64) then some (replicate size []) else none

-- The new array while nodes are copied into it, with the code that is returned if it is not `done`.
pub record Moving : Type 0 where
  pub status : Status
  pub buckets : List (List Bucket)
  pub wasted : ℕ

abbrev pub index_of : ℕ → ℕ → ℕ
index_of hash size = bit_and hash (sub64 size 1)

-- The copy of a node, if there is one, goes to the end of its chain `i`.
unfoldable pub link_moved : ℕ → List Bucket → Moving → Option Bucket → Moving
link_moved i chain m none = record m { status = minus_one }
link_moved i chain m (some new) = record m {
  buckets = set m.buckets i (chain ++ new ∷ []);
  wasted = add64 m.wasted sizeof_bucket;
}

-- One node, into the new array of `size` chains.
unfoldable pub move_node : Platform → ℕ → Bucket → Moving → M Moving
move_node os size node m = do
  let i = index_of node.hash size
  chain ← access (get_elem? m.buckets i)
  r ← attempt (create_bucket os node.hash node.key node.value)
  pure (link_moved i chain m r)

-- The step after a node or a chain: a failure ends the loop.
unfoldable pub unless_stopped : Moving → M Moving → M Moving
unless_stopped m rest = elim m.status [ minus_one ↦ pure m | done ↦ rest ]

-- The loop over one chain, and the loop over the old array; both end at the first failure.
unfoldable pub move_chain : Platform → ℕ → List Bucket → Moving → M Moving
move_chain os size [] m = pure m
move_chain os size (node ∷ nodes) m = do
  m' ← move_node os size node m
  unless_stopped m' (move_chain os size nodes m')

unfoldable pub move_chains : Platform → ℕ → List (List Bucket) → Moving → M Moving
move_chains os size [] m = pure m
move_chains os size (chain ∷ chains) m = do
  m' ← move_chain os size chain m
  unless_stopped m' (move_chains os size chains m')

-- The end of sl_hashtable_resize, by what the loops came to. The count of wasted bytes is kept
-- also where the new array is given up.
unfoldable pub finish_resize : Status → HashTable → ℕ → Moving → Status × HashTable
finish_resize minus_one t size m = (minus_one, record t { wasted = m.wasted })
finish_resize done t size m = (
  done,
  record t {
    resizes = add64 t.resizes 1;
    wasted = add64 m.wasted (u64 (t.size * sizeof_pointer));
    buckets = m.buckets;
    size = size;
  },
)

-- What sl_hashtable_resize does once the new array is allocated: clear it, and copy the nodes.
unfoldable pub fill_resized : Platform → HashTable → ℕ → M (Status × HashTable)
fill_resized os t size = do
  fresh ← access (null_buckets size)
  m ← move_chains os size t.buckets (record { status = done; buckets = fresh; wasted = t.wasted })
  pure (finish_resize m.status t size m)

-- The answer of an allocation, without which -1 is returned and the table is as before.
unfoldable pub unless_missing :
    HashTable → M (Status × HashTable) → Option ℕ → M (Status × HashTable)
unless_missing t rest none = pure (minus_one, t)
unless_missing t rest (some p) = rest

-- sl_hashtable_allocate: the size of the first array, its clearing, and the whole.
unfoldable pub first_size : HashTable → ℕ → ℕ
first_size t size =
    let new_pow2_size = pow2_size size in
    if ltb new_pow2_size t.preallocate then t.preallocate else new_pow2_size

unfoldable pub fill_first : HashTable → ℕ → M (Status × HashTable)
fill_first t size = do
  buckets ← access (null_buckets size)
  pure (done, record t { buckets = buckets; size = size; count = 0 })

unfoldable pub allocate_table : Platform → HashTable → ℕ → M (Status × HashTable)
allocate_table os t size = do
  let new_size = first_size t size
  r ← attempt (allocate_or_fail os (u64 (sizeof_pointer * new_size)))
  unless_missing t (fill_first t new_size) r

unfoldable pub resize : Platform → HashTable → ℕ → M (Status × HashTable)
resize os t size =
    let new_pow2_size = pow2_size size in
    if leb new_pow2_size t.size then pure (done, t) else (do
      r ← attempt (allocate_or_fail os (u64 (sizeof_pointer * new_pow2_size)))
      unless_missing t (fill_resized os t new_pow2_size) r)

unfoldable pub needs_resize : HashTable → Bool
needs_resize t = t.resize && leb max_load (u64 (t.count * 100) / t.size)

unfoldable pub init : ℕ → Bool → HashTable
init preallocate resize = record {
  buckets = [];
  resize = resize;
  preallocate = pow2_size preallocate;
  size = 0;
  count = 0;
  resizes = 0;
  wasted = 0;
}

-- The test of a node against a key and its hash.
unfoldable pub is_match : ℕ → SlString → Bucket → Bool
is_match hash key node = node.hash == hash && are_keys_equal node.key key

-- The walk along one chain, and the walk over all of them.
unfoldable pub find : ℕ → SlString → List Bucket → Option (Option SlString)
find hash key [] = none
find hash key (node ∷ nodes) =
    if is_match hash key node then some node.value else find hash key nodes

unfoldable pub find_in : ℕ → SlString → List (List Bucket) → Option (Option SlString)
find_in hash key [] = none
find_in hash key (chain ∷ chains) =
    let rest = find_in hash key chains in
    elim (find hash key chain) [ some value ↦ some value | none ↦ rest ]

-- The value under the key, if there is a node for it; sl_hashtable_get returns NULL for both a
-- missing node and a value that is NULL.
unfoldable pub lookup : HashTable → SlString → Option (Option SlString)
lookup t key = find_in (compute_hash key) key t.buckets

unfoldable get : HashTable → SlString → Option SlString
unfolding lookup
get t key = elim (lookup t key) [ none ↦ none | some value ↦ value ]

-- The walk of sl_hashtable_set along a chain: the chain with the first match written, if any.
unfoldable pub replace : ℕ → SlString → Option SlString → List Bucket → Option (List Bucket)
replace hash key value [] = none
replace hash key value (node ∷ nodes) =
    let rest = replace hash key value nodes in
    if is_match hash key node
    then some (record node { key = key; value = value } ∷ nodes)
    else elim rest [ none ↦ none | some nodes' ↦ some (node ∷ nodes') ]

unfoldable pub grow : Platform → HashTable → M (Status × HashTable)
grow os t = if needs_resize t then resize os t (u64 (t.size <<< 1)) else pure (done, t)

-- The table with a new node at the end of its chain `i`, which may be empty.
unfoldable pub link_node : HashTable → ℕ → List Bucket → Bucket → HashTable
link_node t i chain node = record t {
  buckets = set t.buckets i (chain ++ node ∷ []);
  count = add64 t.count 1;
}

unfoldable pub grow_linked :
    Platform → HashTable → ℕ → List Bucket → Option Bucket → M (Status × HashTable)
grow_linked os t i chain none = pure (minus_one, t)
grow_linked os t i chain (some node) = grow os (link_node t i chain node)

unfoldable pub add_node :
    Platform → HashTable → ℕ → List Bucket → ℕ → SlString → Option SlString → M (Status × HashTable)
add_node os t i chain hash key value = do
  r ← attempt (create_bucket os hash key value)
  grow_linked os t i chain r

-- The end of the walk along chain `i`, by the chain that the walk wrote into.
unfoldable pub write_or_add :
    Platform
    → HashTable
    → ℕ
    → List Bucket
    → SlString
    → Option SlString
    → Option (List Bucket)
    → M (Status × HashTable)
write_or_add os t i chain key value (some chain') =
    pure (done, record t { buckets = set t.buckets i chain' })
write_or_add os t i chain key value none = add_node os t i chain (compute_hash key) key value

-- What sl_hashtable_set does once there is an array.
unfoldable pub set_in : Platform → HashTable → SlString → Option SlString → M (Status × HashTable)
set_in os t key value = do
  let hash = compute_hash key
  let i = index_of hash t.size
  chain ← access (get_elem? t.buckets i)
  write_or_add os t i chain key value (replace hash key value chain)

unfoldable pub set_after :
    Platform → SlString → Option SlString → Status → HashTable → M (Status × HashTable)
set_after os key value minus_one t = pure (minus_one, t)
set_after os key value done t = set_in os t key value

-- sl_hashtable_set
unfoldable pub set_key : Platform → HashTable → SlString → Option SlString → M (Status × HashTable)
set_key os t key value = do
  r ← if t.size == 0 then allocate_table os t t.preallocate else pure (done, t)
  set_after os key value r.0 r.1
