-- ===== src/Arena.antt =====
-- sl_arena.c: a bump allocator over a linked list of blocks.
-- A pointer is a number, and `none` is NULL. The answers of malloc are a parameter.
pub mod Pow2
pub mod Regions
pub mod Allocate
pub mod Lifetime
use cpp_the_right_way.Base.{
  ℕ, ◌+◌, bit_or, Option, none, some, List, [], ◌∷◌, ◌++◌, ltb, if◌then◌else◌, u64, add64, sub64,
  ◌>>>◌, ◌<<<◌,
}

-- What the C library decides: `malloc k n` is the answer to call number `k`, for `n` bytes, and
-- `junk k i` the byte that stands at offset `i` of allocation number `k` before it is written.
pub record Platform : Type 0 where
  pub malloc : ℕ → ℕ → Option ℕ
  pub junk : ℕ → ℕ → ℕ

-- sl_arena_block: `address` is what malloc returned; the list of blocks stands for `next`.
pub record Block : Type 0 where
  pub address : ℕ
  pub allocated : ℕ
  pub used : ℕ

-- sl_arena: `blocks` is the list from `first` on, in which `last` is the last block;
-- `block_count` is the field that the source calls `blocks`.
pub record Arena : Type 0 where
  pub blocks : List Block
  pub preallocate : ℕ
  pub allocations : ℕ
  pub allocated : ℕ
  pub block_count : ℕ
  pub used : ℕ

-- An arena, with the number of calls of malloc that have been made for it.
pub record Store : Type 0 where
  pub arena : Arena
  pub mallocs : ℕ

abbrev pub block_header : ℕ
block_header = 24

-- `size |= size >> k`
smear : ℕ → ℕ → ℕ
smear k x = bit_or x (x >>> k)

unfoldable pub pow2_size : ℕ → ℕ
unfolding smear
pow2_size size =
    add64 (smear 32 (smear 16 (smear 8 (smear 4 (smear 2 (smear 1 (sub64 size 1))))))) 1

unfoldable pub create_block : Platform → ℕ → ℕ → Option Block
create_block os call size = elim (os.malloc call (add64 block_header size)) [
  | none ↦ none
  | some p ↦ some (record { address = p; allocated = size; used = 0 })
]

-- The pointer, and the block with its bytes taken.
unfoldable pub allocate_from_block : Block → ℕ → Option (ℕ × Block)
allocate_from_block block size =
    if ltb (sub64 block.allocated block.used) size
    then none
    else some
        (block.address + block_header + block.used, record block { used = add64 block.used size })

unfoldable pub init : ℕ → Arena
init preallocate = record {
  blocks = [];
  preallocate = preallocate;
  allocations = 0;
  allocated = 0;
  block_count = 0;
  used = 0;
}

unfoldable pub rewind_blocks : List Block → List Block
rewind_blocks [] = []
rewind_blocks (b ∷ bs) = record b { used = 0 } ∷ rewind_blocks bs

unfoldable pub rewind : Arena → Arena
unfolding rewind_blocks
rewind arena = record arena { blocks = rewind_blocks arena.blocks }

-- The walk that frees the block before the one that it stands on, and the last one behind the loop:
-- `free (NULL)` of an empty arena does nothing. The result lists the addresses in order.
unfoldable pub free_walk : Option Block → List Block → List ℕ
free_walk none [] = []
free_walk (some previous) [] = previous.address ∷ []
free_walk none (b ∷ bs) = free_walk (some b) bs
free_walk (some previous) (b ∷ bs) = previous.address ∷ free_walk (some b) bs

unfoldable pub destroy : Arena → Arena × List ℕ
unfolding init free_walk
destroy arena = (init arena.preallocate, free_walk none arena.blocks)

-- The first loop of sl_arena_allocate: the first block with room.
unfoldable pub allocate_in : List Block → ℕ → Option (ℕ × List Block)
allocate_in [] size = none
allocate_in (b ∷ bs) size =
    let rest = allocate_in bs size in
    elim (allocate_from_block b size) [
      | some (p, b') ↦ some (p, b' ∷ bs)
      | none ↦ elim rest [ none ↦ none | some (p, bs') ↦ some (p, b ∷ bs') ]
    ]

-- The size of the block that is created when no block has room.
unfoldable pub block_size : Arena → ℕ → ℕ
block_size arena size =
    if ltb (arena.preallocate >>> 1) size then u64 (size <<< 1) else arena.preallocate

-- The new block is linked in and counted before the allocation from it is tried.
unfoldable pub link_block : Arena → Block → Arena
link_block arena block = record arena {
  blocks = arena.blocks ++ block ∷ [];
  block_count = add64 arena.block_count 1;
  allocated = add64 arena.allocated block.allocated;
}

unfoldable pub count_allocation : Arena → ℕ → Arena
count_allocation arena size = record arena {
  allocations = add64 arena.allocations 1;
  used = add64 arena.used size;
}

-- What follows the loop: a new block, and the allocation from it, which is tried once.
unfoldable pub allocate_new : Platform → Store → ℕ → Option ℕ × Store
unfolding link_block count_allocation
allocate_new os s size =
    let s' : Store = record s { mallocs = s.mallocs + 1 } in
    elim (create_block os s.mallocs (block_size s.arena size)) [
      | none ↦ (none, s')
      | some block ↦ elim (allocate_from_block block size) [
        | none ↦ (none, record s' { arena = link_block s.arena block })
        | some (p, taken) ↦ (
          some p,
          record s' {
            arena =
                count_allocation
                  (record (link_block s.arena block) { blocks = s.arena.blocks ++ taken ∷ [] })
                  size;
          },
        )
      ]
    ]

unfoldable pub allocate : Platform → Store → ℕ → Option ℕ × Store
unfolding count_allocation
allocate os s size = elim (allocate_in s.arena.blocks size) [
  | some (p, blocks') ↦
      (some p, record s { arena = count_allocation (record s.arena { blocks = blocks' }) size })
  | none ↦ allocate_new os s size
]
