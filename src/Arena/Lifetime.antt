-- ===== src/Arena/Lifetime.antt =====
-- sl_arena_init, sl_arena_rewind and sl_arena_destroy: where the life of the blocks begins and ends.
use cpp_the_right_way.Base.{
  ℕ, suc, ◌^◌, ◌<◌, none, some, List, [], ◌∷◌, map, ◌≡◌, refl, ap, inl, inr, arith, length,
}
use cpp_the_right_way.Arena.{Block, Arena, init, rewind, rewind_blocks, destroy, free_walk}
use cpp_the_right_way.Arena.Regions.{Owned, Live, Apart, AllBlocks}
use cpp_the_right_way.Arena.Allocate.{IsArena}

-- A new arena with a preallocation below 2 ^ 62 satisfies the invariant, keeps the preallocation and
-- owns no byte.
pub init-IsArena :
    (n : ℕ)
    → n < 2 ^ 62
    → IsArena (init n) × ((init n).preallocate ≡ n) × ((x : ℕ) → ¬ Owned (init n).blocks x)
unfolding init
init-IsArena n h =
    (record { valid = tt; apart = tt; small = h; counted = omega arith }, refl, λ x o. o)

Owned-rewind : (bs : List Block) (x : ℕ) → Owned (rewind_blocks bs) x → Owned bs x
unfolding rewind_blocks
Owned-rewind [] x h = h
Owned-rewind (b ∷ bs) x (inl h) = inl h
Owned-rewind (b ∷ bs) x (inr h) = inr (Owned-rewind bs x h)

AllBlocks-rewind : (bs : List Block) → AllBlocks bs → AllBlocks (rewind_blocks bs)
unfolding rewind_blocks
AllBlocks-rewind [] v = tt
AllBlocks-rewind (b ∷ bs) v = (omega (arith, v.0.fits), AllBlocks-rewind bs v.1)

Apart-rewind : (bs : List Block) → Apart bs → Apart (rewind_blocks bs)
unfolding rewind_blocks
Apart-rewind [] a = tt
Apart-rewind (b ∷ bs) a = (λ x h o. a.0 x h (Owned-rewind bs x o), Apart-rewind bs a.1)

Live-rewind : (bs : List Block) (x : ℕ) → ¬ Live (rewind_blocks bs) x
unfolding rewind_blocks
Live-rewind [] x h = h
Live-rewind (b ∷ bs) x (inl h) = omega arith
Live-rewind (b ∷ bs) x (inr h) = Live-rewind bs x h

length-rewind : (bs : List Block) → length (rewind_blocks bs) ≡ length bs
unfolding rewind_blocks
length-rewind [] = refl
length-rewind (b ∷ bs) = ap suc (length-rewind bs)

-- Rewinding an arena that satisfies the invariant keeps it, leaves no byte in use and as many blocks
-- as before.
pub rewind-IsArena :
    (a : Arena)
    → IsArena a
    → IsArena (rewind a)
      × ((x : ℕ) → ¬ Live (rewind a).blocks x)
      × (length (rewind a).blocks ≡ length a.blocks)
unfolding rewind
rewind-IsArena a v = (
  record {
    valid = AllBlocks-rewind a.blocks v.valid;
    apart = Apart-rewind a.blocks v.apart;
    small = v.small;
    counted = omega (arith, length-rewind a.blocks, v.counted);
  },
  Live-rewind a.blocks,
  length-rewind a.blocks,
)

free_walk_all :
    (b : Block) (bs : List Block) → free_walk (some b) bs ≡ b.address ∷ map (λ c. c.address) bs
unfolding free_walk
free_walk_all b [] = refl
free_walk_all b (c ∷ bs) = ap (λ l. b.address ∷ l) (free_walk_all c bs)

-- Destroying frees every block exactly once, in the order of the list, and leaves an arena that is
-- as new, with the same preallocation.
pub destroy_lem :
    (a : Arena)
    → ((destroy a).1 ≡ map (λ b. b.address) a.blocks) × ((destroy a).0 ≡ init a.preallocate)
unfolding destroy free_walk
destroy_lem a = (walk a.blocks, refl)
  where
    walk : (bs : List Block) → free_walk none bs ≡ map (λ b. b.address) bs
    walk [] = refl
    walk (b ∷ bs) = free_walk_all b bs
