-- ===== src/Strings/Append.antt =====
-- Creating and appending: the bytes that a string holds afterwards, and the accesses on the way.
use cpp_the_right_way.Base.{
  true, false, if◌then◌else◌, ℕ, ◌+◌, ◌-◌, ◌*◌, ◌^◌, ◌≤◌, ◌<◌, List, ◌++◌, ◌≡◌, refl, ap, ◌∙◌,
  arith, inl, inr, Bool-cases, leb, length, take, u64, add64, sub64, ◌<<<◌, leb→le, le→leb,
  length-take,
}
use cpp_the_right_way.Arena.{Platform, Store, pow2_size}
use cpp_the_right_way.Arena.Pow2.{pow2_size-IsLeast}
use cpp_the_right_way.Run.{Safe, Safe-bind, allocate_or_fail-Safe, allocate_or_fail, ◌>>=◌, pure}
use cpp_the_right_way.Memory.{
  junk_bytes, length-junk_bytes, read_bytes_lem, memcpy-Filled, memset-Filled,
}
use cpp_the_right_way.Strings.{
  SlString, sizeof_string, contents, allocate_buffer, create_from_buffer, append_moving, fill_moved,
  fill_created, append_with_buffer,
}

-- The bytes in use are allocated, and the buffer is as long as it is said to be.
pub record IsString (t : SlString) : Type 0 where
  pub within : t.length ≤ t.allocated
  pub whole : t.allocated ≤ length t.buffer

-- The size of the new buffer: at least twice the length, with no wrap.
pub pow2_room : (n : ℕ) → 0 < n → n ≤ 2 ^ 62 → (n ≤ pow2_size n) × (pow2_size n < 2 ^ 63)
pow2_room n pos fits =
    let (k, small, e, lo, hi) = pow2_size-IsLeast n pos (omega arith) in omega arith

pub allocate_buffer-Safe :
    (os : Platform) (size : ℕ) (s : Store)
    → Safe (allocate_buffer os size s) (λ b s'. length b ≡ size)
unfolding allocate_buffer
allocate_buffer-Safe os size s =
    Safe-bind (allocate_or_fail os size) (λ _. pure (junk_bytes os s.arena.allocations 0 size)) s
      (λ _ _. Unit {0}) (λ b s'. length b ≡ size) (allocate_or_fail-Safe os size s)
      (λ _ _ _. length-junk_bytes os s.arena.allocations 0 size)

-- The size of the buffer after `n` more bytes.
abbrev pub next_allocated : ℕ → ℕ → ℕ → ℕ
next_allocated len allocated n =
    if leb (len + n) allocated then allocated else pow2_size (2 * (len + n))

-- `t'` is `t` with `bytes` behind its contents.
pub record Appended (t : SlString) (bytes : List ℕ) (t' : SlString) : Type 0 where
  pub valid : IsString t'
  pub grows : t'.length ≡ t.length + length bytes
  pub holds : contents t' ≡ contents t ++ bytes
  pub allocates : t'.allocated ≡ next_allocated t.length t.allocated (length bytes)

module _ (os : Platform) (t : SlString) (bytes : List ℕ) (v : IsString t)
    (small : t.length + length bytes < 2 ^ 61) where
  fill_moved-Appended :
      (s : Store) (size : ℕ) (new : List ℕ)
      → t.length + length bytes ≤ size
      → size < 2 ^ 63
      → length new ≡ size
      → size ≡ next_allocated t.length t.allocated (length bytes)
      → Safe (fill_moved t bytes size new s) (λ t' s'. Appended t bytes t')
  unfolding fill_moved
  fill_moved-Appended s size new room fits whole needed =
      let old = take t.length t.buffer in
      let old_length : length old ≡ t.length =
        omega (arith, length-take t.length t.buffer, v.within, v.whole) in
      let e0 = read_bytes_lem t.buffer t.length (omega (arith, v.within, v.whole)) in
      let (moved, e1, f1) = memcpy-Filled new 0 old (omega arith) in
      let (copied, e2, f2) = memcpy-Filled moved t.length bytes (omega (arith, f1.same_length)) in
      let sum : add64 t.length (length bytes) ≡ t.length + length bytes = omega arith in
      let rest : sub64 (sub64 size t.length) (length bytes) ≡ size - t.length - length bytes =
        omega arith in
      let (cleared, e3, f3) =
        memset-Filled copied (t.length + length bytes) 0 (size - t.length - length bytes)
          (omega (arith, f1.same_length, f2.same_length)) in
      let first : take t.length moved ≡ old = ap (λ n. take n moved) (omega arith) ∙ f1.end in
      rw (e0, e1, e2, sum, rest, e3)
        (record {
          valid = record {
            within = room;
            whole = omega (arith, f1.same_length, f2.same_length, f3.same_length);
          };
          grows = refl;
          holds =
              f3.start (t.length + length bytes) (omega arith)
              ∙ f2.end
              ∙ ap (λ l. l ++ bytes) first;
          allocates = needed;
        })

  no_room_left :
      t.allocated < t.length + length bytes
      → pow2_size (2 * (t.length + length bytes))
        ≡ next_allocated t.length t.allocated (length bytes)
  no_room_left more =
      let test : leb (t.length + length bytes) t.allocated ≡ false = ground arith in rw test

  room_left :
      add64 t.length (length bytes) ≤ t.allocated
      → t.allocated ≡ next_allocated t.length t.allocated (length bytes)
  room_left fits =
      let test : leb (t.length + length bytes) t.allocated ≡ true = ground arith in rw test

  append_moving-Appended :
      (s : Store)
      → t.allocated < t.length + length bytes
      → Safe (append_moving os t bytes s) (λ t' s'. Appended t bytes t')
  unfolding append_moving
  append_moving-Appended s more =
      let size = pow2_size (u64 (add64 t.length (length bytes) <<< 1)) in
      let doubled : u64 (add64 t.length (length bytes) <<< 1) ≡ 2 * (t.length + length bytes) =
        omega arith in
      let (lo, hi) =
        pow2_room (u64 (add64 t.length (length bytes) <<< 1)) (omega arith) (omega arith) in
      Safe-bind (allocate_buffer os size) (fill_moved t bytes size) s (λ b _. length b ≡ size)
        (λ t' _. Appended t bytes t') (allocate_buffer-Safe os size s)
        (λ new s' e.
          fill_moved-Appended s' size new (omega arith) hi e
            (ap pow2_size doubled ∙ no_room_left more))

  -- Appending to a well-formed string, with a sum of the lengths below 2 ^ 61, makes no access out of
  -- bounds; a result is well formed and holds the old contents and then exactly the bytes, in the old
  -- buffer or in a new one.
  pub append_with_buffer-Appended :
      (s : Store) → Safe (append_with_buffer os t bytes s) (λ t' s'. Appended t bytes t')
  unfolding append_with_buffer
  append_with_buffer-Appended s =
      let sum : add64 t.length (length bytes) ≡ t.length + length bytes = omega arith in
      elim (Bool-cases (leb (add64 t.length (length bytes)) t.allocated)) [
        | inr no_room ↦ rw no_room (append_moving-Appended s (ground arith))
        | inl room ↦
            let fits = leb→le (add64 t.length (length bytes)) t.allocated room in
            let (after, e, f) = memcpy-Filled t.buffer t.length bytes (omega (arith, v.whole)) in
            rw (room, e, sum)
              (record {
                valid = record {
                  within = omega arith;
                  whole = omega (arith, f.same_length, v.whole);
                };
                grows = refl;
                holds = f.end;
                allocates = room_left (leb→le _ _ room);
              })
      ]

-- `t` holds `bytes` in a buffer of `size` bytes.
pub record Created (bytes : List ℕ) (size : ℕ) (t : SlString) : Type 0 where
  pub valid : IsString t
  pub same_length : t.length ≡ length bytes
  pub holds : contents t ≡ bytes
  pub allocated : t.allocated ≡ size
  pub exact : length t.buffer ≡ size

pub fill_created-Created :
    (bytes : List ℕ) (size : ℕ) (new : List ℕ) (s : Store)
    → length bytes ≤ size
    → size < 2 ^ 63
    → length new ≡ size
    → Safe (fill_created bytes size new s) (λ t s'. Created bytes size t)
unfolding fill_created
fill_created-Created bytes size new s room fits whole =
    let (copied, e1, f1) = memcpy-Filled new 0 bytes (omega arith) in
    let rest : sub64 size (length bytes) ≡ size - length bytes = omega arith in
    let (cleared, e2, f2) =
      memset-Filled copied (length bytes) 0 (size - length bytes) (omega (arith, f1.same_length)) in
    rw (e1, rest, e2)
      (record {
        valid = record { within = room; whole = omega (arith, f1.same_length, f2.same_length) };
        same_length = refl;
        holds =
            f2.start (length bytes) (omega arith)
            ∙ (ap (λ n. take n copied) (omega arith) ∙ f1.end);
        allocated = refl;
        exact = omega (arith, f1.same_length, f2.same_length);
      })

-- With a preallocation from 1 to 2 ^ 62 that the bytes fit in, creating makes no access out of
-- bounds, and a result holds the bytes in a buffer whose size is the preallocation, rounded up to a
-- power of two.
pub create_from_buffer-Created :
    (os : Platform) (bytes : List ℕ) (preallocate : ℕ) (s : Store)
    → 0 < preallocate
    → length bytes ≤ preallocate
    → preallocate ≤ 2 ^ 62
    → Safe
        (create_from_buffer os bytes preallocate s)
        (λ t s'. Created bytes (pow2_size preallocate) t)
unfolding create_from_buffer
create_from_buffer-Created os bytes preallocate s pos fits small =
    let (lo, hi) = pow2_room preallocate pos small in
    let size = pow2_size preallocate in
    rw (le→leb _ _ fits) (
      Safe-bind (allocate_or_fail os sizeof_string)
        (λ _. allocate_buffer os size >>= fill_created bytes size) s (λ _ _. Unit {0})
        (λ t _. Created bytes size t) (allocate_or_fail-Safe os sizeof_string s)
        (λ _ s' _.
          Safe-bind (allocate_buffer os size) (fill_created bytes size) s' (λ b _. length b ≡ size)
            (λ t _. Created bytes size t) (allocate_buffer-Safe os size s')
            (λ new s'' e. fill_created-Created bytes size new s'' (omega arith) hi e)))
