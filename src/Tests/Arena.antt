-- ===== src/Tests/Arena.antt =====
-- sl_arena.c at concrete arenas.
use cpp_the_right_way.Base.{ℕ, ◌+◌, ◌*◌, ◌^◌, ◌≤◌, ◌<◌, some, none, ◌≡◌, refl, arith}
use cpp_the_right_way.Arena.{
  Platform, Store, pow2_size, init, allocate, allocate_in, allocate_new, allocate_from_block,
  create_block, block_size,
}
use cpp_the_right_way.Arena.Pow2.{pow2_size-IsLeast}
use cpp_the_right_way.Arena.Regions.{Full}
use cpp_the_right_way.Arena.Allocate.{IsArena, Granted, GivesFresh, allocate-Granted, allocate_null}
use cpp_the_right_way.Arena.Lifetime.{init-IsArena}
use cpp_the_right_way.Tests.Platform.{machine, new_store}

pow2_size-IsLeast_example :
    (k : ℕ) × (k ≤ 63) × (pow2_size 100 ≡ 2 ^ k) × (100 ≤ 2 ^ k) × (2 ^ k < 2 * 100)
pow2_size-IsLeast_example = pow2_size-IsLeast 100 (omega arith) (omega arith)

pow2_size_runs : pow2_size 100 ≡ 128
unfolding pow2_size
pow2_size_runs = refl

new_store-IsArena : IsArena new_store.arena
unfolding init
new_store-IsArena = (init-IsArena 102400 (omega arith)).0

new_store_fresh : GivesFresh machine new_store
unfolding init
new_store_fresh n p e x i o = o

abbrev first_grant : Store
unfolding allocate allocate_in allocate_new allocate_from_block create_block block_size init
first_grant = (allocate machine new_store 100).1

first_grant_runs : allocate machine new_store 100 ≡ (some (2 ^ 40 + 24), first_grant)
unfolding allocate allocate_in allocate_new allocate_from_block create_block block_size init
first_grant_runs = refl

allocate-Granted_example : Granted new_store.arena 100 (2 ^ 40 + 24) first_grant.arena
allocate-Granted_example =
    allocate-Granted machine new_store 100 new_store-IsArena new_store_fresh (omega arith)
      (2 ^ 40 + 24) first_grant first_grant_runs

-- A C library that has no memory.
abbrev exhausted : Platform
exhausted = record { malloc = λ k n. none; junk = λ k i. 0 }

abbrev no_grant : Store
unfolding init
no_grant = record new_store { mallocs = 1 }

no_grant_runs : allocate exhausted new_store 100 ≡ (none, no_grant)
unfolding allocate allocate_in allocate_new allocate_from_block create_block block_size init
no_grant_runs = refl

exhausted_fresh : GivesFresh exhausted new_store
unfolding init
exhausted_fresh n p e x i o = o

allocate_null_example :
    Full 100 new_store.arena.blocks
    × (exhausted.malloc 0 (24 + 102400) ≡ none)
    × (no_grant.arena ≡ new_store.arena)
unfolding block_size init
allocate_null_example =
    allocate_null exhausted new_store 100 new_store-IsArena exhausted_fresh (omega arith) no_grant
      no_grant_runs
