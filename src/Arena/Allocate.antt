-- ===== src/Arena/Allocate.antt =====
-- sl_arena_allocate: the invariant of an arena, and what an allocation gives.
use cpp_the_right_way.Base.{
  ℕ, ◌+◌, ◌^◌, ◌≤◌, ◌<◌, none, some, List, [], ◌∷◌, ◌++◌, ◌≡◌, refl, ◌⊎◌, inl, inr, arith,
  Option-cases, u64, add64, length, length-append,
}
use cpp_the_right_way.Arena.{
  Platform, Block, Arena, Store, block_header, create_block, allocate_from_block, block_size,
  count_allocation, allocate_in, allocate_new, allocate,
}
use cpp_the_right_way.Arena.Regions.{
  Inside, OwnedBy, Owned, Live, Apart, IsBlock, AllBlocks, Took, Taken, Taken-here, Taken-there,
  allocate_in-Taken, Full, allocate_in-Full,
}

abbrev total_allocated : List Block → ℕ
total_allocated [] = 0
total_allocated (b ∷ bs) = b.allocated + total_allocated bs

-- Every block is in bounds, no two share a byte, and the counters count the blocks.
pub record IsArena (a : Arena) : Type 0 where
  pub valid : AllBlocks a.blocks
  pub apart : Apart a.blocks
  pub small : a.preallocate < 2 ^ 62
  pub counted : a.block_count ≡ u64 (length a.blocks)

-- What malloc promises of its next answer: bytes that no block of the arena owns.
abbrev pub GivesFresh : Platform → Store → Type 0
GivesFresh os s =
    (n p : ℕ) → os.malloc s.mallocs n ≡ some p → (x : ℕ) → Inside p n x → ¬ Owned s.arena.blocks x

AllBlocks-snoc : (bs : List Block) (b : Block) → AllBlocks bs → IsBlock b → AllBlocks (bs ++ b ∷ [])
AllBlocks-snoc [] b v w = (w, tt)
AllBlocks-snoc (c ∷ bs) b v w = (v.0, AllBlocks-snoc bs b v.1 w)

Owned-snoc :
    (bs : List Block) (b : Block) (x : ℕ) → Owned (bs ++ b ∷ []) x → Owned bs x ⊎ OwnedBy b x
Owned-snoc [] b x (inl h) = inr h
Owned-snoc [] b x (inr h) = absurd h
Owned-snoc (c ∷ bs) b x (inl h) = inl (inl h)
Owned-snoc (c ∷ bs) b x (inr h) = elim (Owned-snoc bs b x h) [ inl o ↦ inl (inr o) | inr o ↦ inr o ]

Apart-snoc :
    (bs : List Block) (b : Block)
    → Apart bs
    → ((x : ℕ) → OwnedBy b x → ¬ Owned bs x)
    → Apart (bs ++ b ∷ [])
Apart-snoc [] b a fresh = (λ x h o. o, tt)
Apart-snoc (c ∷ bs) b a fresh = (
  λ x h o. elim (Owned-snoc bs b x o) [ inl old ↦ a.0 x h old | inr new ↦ fresh x new (inl h) ],
  Apart-snoc bs b a.1 (λ x h o. fresh x h (inr o)),
)

-- A block that nothing was taken from adds no live byte.
Live-snoc_empty :
    (bs : List Block) (b : Block) (x : ℕ) → b.used ≡ 0 → Live (bs ++ b ∷ []) x → Live bs x
Live-snoc_empty [] b x e (inl h) = omega arith
Live-snoc_empty [] b x e (inr h) = h
Live-snoc_empty (c ∷ bs) b x e (inl h) = inl h
Live-snoc_empty (c ∷ bs) b x e (inr h) = inr (Live-snoc_empty bs b x e h)

Live-snoc_old : (bs : List Block) (b : Block) (x : ℕ) → Live bs x → Live (bs ++ b ∷ []) x
Live-snoc_old [] b x h = absurd h
Live-snoc_old (c ∷ bs) b x (inl h) = inl h
Live-snoc_old (c ∷ bs) b x (inr h) = inr (Live-snoc_old bs b x h)

Taken-last :
    (bs : List Block) (b b' : Block) (size p : ℕ)
    → AllBlocks (bs ++ b ∷ [])
    → Apart (bs ++ b ∷ [])
    → Took b size p b'
    → Taken (bs ++ b ∷ []) size p (bs ++ b' ∷ [])
Taken-last [] b b' size p v a t = Taken-here b b' [] size p v a t
Taken-last (c ∷ bs) b b' size p v a t =
    Taken-there c (bs ++ b ∷ []) (bs ++ b' ∷ []) size p v a (Taken-last bs b b' size p v.1 a.1 t)

length-allocate_in :
    (bs bs' : List Block) (size p : ℕ)
    → allocate_in bs size ≡ some (p, bs')
    → length bs' ≡ length bs
unfolding allocate_in
length-allocate_in [] bs' size p h = cc
length-allocate_in (b ∷ bs) bs' size p h = elim (Option-cases (allocate_from_block b size)) [
  | inr (r, e) ↦ ground arith
  | inl e ↦ elim (Option-cases (allocate_in bs size)) [
    | inl e' ↦ absurd (ground arith)
    | inr ((q, rest), e') ↦ ground (arith, length-allocate_in bs rest size q e')
  ]
]

-- `p` is a pointer to `size` bytes that were in no allocation before and are in one now.
pub record Granted (before : Arena) (size p : ℕ) (after : Arena) : Type 0 where
  pub valid : IsArena after
  pub free : (x : ℕ) → Inside p size x → ¬ Live before.blocks x
  pub live : (x : ℕ) → Inside p size x → Live after.blocks x
  pub kept : (x : ℕ) → Live before.blocks x → Live after.blocks x
  pub exact : (x : ℕ) → Live after.blocks x → Live before.blocks x ⊎ Inside p size x
  pub used : after.used ≡ add64 before.used size
  pub allocations : after.allocations ≡ add64 before.allocations 1

-- The size that is asked of malloc.
block_size_bounds :
    (a : Arena) (size : ℕ)
    → a.preallocate < 2 ^ 62
    → size < 2 ^ 62
    → (size ≤ block_size a size) × (block_header + block_size a size < 2 ^ 64)
unfolding block_size
block_size_bounds a size small h = ground arith

-- The arena after an allocation from a new block at `q` of `n` bytes.
grown : Arena → ℕ → ℕ → ℕ → Arena
grown a q n size = record a {
  blocks = a.blocks ++ record { address = q; allocated = n; used = size } ∷ [];
  block_count = add64 a.block_count 1;
  allocated = add64 a.allocated n;
  allocations = add64 a.allocations 1;
  used = add64 a.used size;
}

abbrev fresh_block : ℕ → ℕ → Block
fresh_block q n = record { address = q; allocated = n; used = 0 }

fresh_block_takes :
    (q n size : ℕ)
    → size ≤ n
    → n < 2 ^ 64
    → allocate_from_block (fresh_block q n) size
      ≡ some (q + block_header, record { address = q; allocated = n; used = size })
unfolding allocate_from_block
fresh_block_takes q n size h w = ground arith

grown-Granted :
    (a : Arena) (q n size : ℕ)
    → IsArena a
    → ((x : ℕ) → Inside q (block_header + n) x → ¬ Owned a.blocks x)
    → size ≤ n
    → block_header + n < 2 ^ 64
    → Granted a size (q + block_header) (grown a q n size)
unfolding grown
grown-Granted a q n size v fresh room fits =
    let b = fresh_block q n in
    let b' : Block = record { address = q; allocated = n; used = size } in
    let valid = AllBlocks-snoc a.blocks b v.valid (omega arith) in
    let apart = Apart-snoc a.blocks b v.apart fresh in
    let took : Took b size (q + block_header) b' = omega arith in
    let t = Taken-last a.blocks b b' size (q + block_header) valid apart took in
    record {
      valid = record {
        valid = t.valid;
        apart = t.apart;
        small = v.small;
        counted = omega (arith, length-append a.blocks (b' ∷ []), v.counted);
      };
      free = λ x h l. t.free x h (Live-snoc_old a.blocks b x l);
      live = t.live;
      kept = λ x l. t.kept x (Live-snoc_old a.blocks b x l);
      exact = λ x l. elim (t.exact x l) [
        | inl old ↦ inl (Live-snoc_empty a.blocks b x refl old)
        | inr new ↦ inr new
      ];
      used = refl;
      allocations = refl;
    }

-- The arena after an allocation from one of its blocks.
reused : Arena → List Block → ℕ → Arena
reused a bs size = record a {
  blocks = bs;
  allocations = add64 a.allocations 1;
  used = add64 a.used size;
}

reused-Granted :
    (a : Arena) (bs : List Block) (size p : ℕ)
    → IsArena a
    → Taken a.blocks size p bs
    → length bs ≡ length a.blocks
    → Granted a size p (reused a bs size)
unfolding reused
reused-Granted a bs size p v t same = record {
  valid = record {
    valid = t.valid;
    apart = t.apart;
    small = v.small;
    counted = omega (arith, v.counted);
  };
  free = t.free;
  live = t.live;
  kept = t.kept;
  exact = t.exact;
  used = refl;
  allocations = refl;
}

module _ (os : Platform) (s : Store) (size : ℕ) where
  abbrev request : ℕ
  request = add64 block_header (block_size s.arena size)

  -- What allocate_new does, by the answer of malloc.
  allocate_new_null :
      os.malloc s.mallocs request ≡ none
      → allocate_new os s size ≡ (none, record s { mallocs = s.mallocs + 1 })
  unfolding allocate_new create_block
  allocate_new_null e = ground arith

  allocate_new_block :
      (q : ℕ)
      → size ≤ block_size s.arena size
      → block_size s.arena size < 2 ^ 64
      → os.malloc s.mallocs request ≡ some q
      → allocate_new os s size ≡ (
        some (q + block_header),
        record { arena = grown s.arena q (block_size s.arena size) size; mallocs = s.mallocs + 1 },
      )
  unfolding allocate_new create_block grown
  allocate_new_block q room fits e =
      let n = block_size s.arena size in
      let taken = fresh_block_takes q n size room fits in ground arith

  module _ (v : IsArena s.arena) (fresh : GivesFresh os s) (small : size < 2 ^ 62) where
    allocate_new-Granted :
        (p : ℕ) (s' : Store)
        → allocate_new os s size ≡ (some p, s')
        → Granted s.arena size p s'.arena
    allocate_new-Granted p s' h =
        let (room, fits) = block_size_bounds s.arena size v.small small in
        elim (Option-cases (os.malloc s.mallocs request)) [
          | inl e ↦ absurd (cc (allocate_new_null e))
          | inr (q, e) ↦
              let n = block_size s.arena size in
              let exact_request : request ≡ block_header + n = omega arith in
              let g =
                grown-Granted s.arena q n size v (λ x i. fresh request q e x (rw exact_request i))
                  room fits in
              let made = allocate_new_block q room (omega arith) e in
              let here : p ≡ q + block_header = cc made in
              let there : s' ≡ record { arena = grown s.arena q n size; mallocs = s.mallocs + 1 } =
                cc made in
              rw (here, there) g
        ]

    -- In an arena with the invariant, where malloc gives memory that no block owns, and for sizes
    -- below 2 ^ 62: a pointer that sl_arena_allocate returns is to `size` bytes of the arena that no
    -- earlier allocation holds; the earlier ones keep theirs, nothing else is taken, and the
    -- invariant holds.
    pub allocate-Granted :
        (p : ℕ) (s' : Store) → allocate os s size ≡ (some p, s') → Granted s.arena size p s'.arena
    unfolding allocate count_allocation reused
    allocate-Granted p s' h = elim (Option-cases (allocate_in s.arena.blocks size)) [
      | inl full ↦ allocate_new-Granted p s' (ground arith)
      | inr ((q, bs), found) ↦
          let t = allocate_in-Taken s.arena.blocks bs size q v.valid v.apart found in
          let here : p ≡ q = ground arith in
          let there : s'.arena ≡ reused s.arena bs size = ground arith in
          rw (here, there)
            (reused-Granted s.arena bs size q v t
              (length-allocate_in s.arena.blocks bs size q found))
    ]

    -- In the same conditions the only reason to return NULL is that no block has room and malloc
    -- returned NULL; then the arena is as before.
    pub allocate_null :
        (s' : Store)
        → allocate os s size ≡ (none, s')
        → Full size s.arena.blocks × (os.malloc s.mallocs request ≡ none) × (s'.arena ≡ s.arena)
    unfolding allocate
    allocate_null s' h = elim (Option-cases (allocate_in s.arena.blocks size)) [
      | inr (r, found) ↦ absurd (ground arith)
      | inl none_left ↦
          let (room, fits) = block_size_bounds s.arena size v.small small in
          elim (Option-cases (os.malloc s.mallocs request)) [
            | inl e ↦ (
              allocate_in-Full s.arena.blocks size v.valid none_left,
              e,
              ground (arith, allocate_new_null e),
            )
            | inr (q, e) ↦ absurd (ground (arith, allocate_new_block q room (omega arith) e))
          ]
    ]
