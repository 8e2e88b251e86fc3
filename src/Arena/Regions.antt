-- ===== src/Arena/Regions.antt =====
-- The bytes that the blocks own and the bytes that are handed out, as sets of addresses, and what
-- one block and the search for a block with room do to them.
use cpp_the_right_way.Base.{
  ℕ, ◌+◌, ◌^◌, ◌≤◌, ◌<◌, none, some, List, [], ◌∷◌, ◌≡◌, ◌⊎◌, inl, inr, arith, Option-cases,
  Bool-cases, ltb, ltb→lt, ltb→le,
}
use cpp_the_right_way.Arena.{Block, block_header, allocate_from_block, allocate_in}

abbrev pub Inside : ℕ → ℕ → ℕ → Type 0
Inside start size x = (start ≤ x) × (x < start + size)

-- What malloc gave for the block, its header included.
abbrev pub OwnedBy : Block → ℕ → Type 0
OwnedBy b x = Inside b.address (block_header + b.allocated) x

-- The bytes of the block that allocations hold.
abbrev LiveIn : Block → ℕ → Type 0
LiveIn b x = Inside (b.address + block_header) b.used x

abbrev pub Owned : List Block → ℕ → Type 0
Owned [] x = ⊥
Owned (b ∷ bs) x = OwnedBy b x ⊎ Owned bs x

abbrev pub Live : List Block → ℕ → Type 0
Live [] x = ⊥
Live (b ∷ bs) x = LiveIn b x ⊎ Live bs x

-- No two blocks share a byte.
abbrev pub Apart : List Block → Type 0
Apart [] = Unit {0}
Apart (b ∷ bs) = ((x : ℕ) → OwnedBy b x → ¬ Owned bs x) × Apart bs

pub record IsBlock (b : Block) : Type 0 where
  pub within : b.used ≤ b.allocated
  pub fits : block_header + b.allocated < 2 ^ 64

abbrev pub AllBlocks : List Block → Type 0
AllBlocks [] = Unit {0}
AllBlocks (b ∷ bs) = IsBlock b × AllBlocks bs

Live-Owned : (bs : List Block) (x : ℕ) → AllBlocks bs → Live bs x → Owned bs x
Live-Owned [] x v h = h
Live-Owned (b ∷ bs) x v (inl h) = inl (omega (arith, v.0.within))
Live-Owned (b ∷ bs) x v (inr h) = inr (Live-Owned bs x v.1 h)

-- A block that gives `size` bytes gives the ones behind those in use, inside its buffer.
pub record Took (b : Block) (size p : ℕ) (b' : Block) : Type 0 where
  pub at_end : p ≡ b.address + block_header + b.used
  pub address : b'.address ≡ b.address
  pub allocated : b'.allocated ≡ b.allocated
  pub used : b'.used ≡ b.used + size
  pub room : b.used + size ≤ b.allocated

pub allocate_from_block-Took :
    (b b' : Block) (size p : ℕ)
    → IsBlock b
    → allocate_from_block b size ≡ some (p, b')
    → Took b size p b'
unfolding allocate_from_block
allocate_from_block-Took b b' size p v h = ground arith

-- It gives none exactly when the room is too small.
allocate_from_block-none :
    (b : Block) (size : ℕ)
    → IsBlock b
    → allocate_from_block b size ≡ none
    → b.allocated < b.used + size
unfolding allocate_from_block
allocate_from_block-none b size v h = ground arith

-- From `bs` the bytes from `p` on were taken, which were owned and free; the rest is as before.
pub record Taken (bs : List Block) (size p : ℕ) (bs' : List Block) : Type 0 where
  pub valid : AllBlocks bs'
  pub owned : (x : ℕ) → Inside p size x → Owned bs x
  pub free : (x : ℕ) → Inside p size x → ¬ Live bs x
  pub live : (x : ℕ) → Inside p size x → Live bs' x
  pub kept : (x : ℕ) → Live bs x → Live bs' x
  pub exact : (x : ℕ) → Live bs' x → Live bs x ⊎ Inside p size x
  pub same : (x : ℕ) → Owned bs' x → Owned bs x
  pub apart : Apart bs'

pub Taken-here :
    (b b' : Block) (bs : List Block) (size p : ℕ)
    → AllBlocks (b ∷ bs)
    → Apart (b ∷ bs)
    → Took b size p b'
    → Taken (b ∷ bs) size p (b' ∷ bs)
Taken-here b b' bs size p v a t = record {
  valid = (omega arith, v.1);
  owned = λ x h. inl (omega arith);
  free =
      λ x h l. elim l [ inl m ↦ omega arith | inr m ↦ a.0 x (omega arith) (Live-Owned bs x v.1 m) ];
  live = λ x h. inl (omega arith);
  kept = λ x l. elim l [ inl m ↦ inl (omega arith) | inr m ↦ inr m ];
  exact = λ x l. elim l [
    | inl m ↦ elim (Bool-cases (ltb x (b.address + block_header + b.used))) [
      | inl old ↦ inl (inl (omega (arith, ltb→lt _ _ old)))
      | inr new ↦ inr (omega (arith, ltb→le _ _ new))
    ]
    | inr m ↦ inl (inr m)
  ];
  same = λ x l. elim l [ inl m ↦ inl (omega arith) | inr m ↦ inr m ];
  apart = (λ x h. a.0 x (omega arith), a.1);
}

pub Taken-there :
    (b : Block) (bs bs' : List Block) (size p : ℕ)
    → AllBlocks (b ∷ bs)
    → Apart (b ∷ bs)
    → Taken bs size p bs'
    → Taken (b ∷ bs) size p (b ∷ bs')
Taken-there b bs bs' size p v a t = record {
  valid = (v.0, t.valid);
  owned = λ x h. inr (t.owned x h);
  free = λ x h l. elim l [
    | inl m ↦ a.0 x (omega (arith, v.0.within)) (t.owned x h)
    | inr m ↦ t.free x h m
  ];
  live = λ x h. inr (t.live x h);
  kept = λ x l. elim l [ inl m ↦ inl m | inr m ↦ inr (t.kept x m) ];
  exact = λ x l. elim l [
    | inl m ↦ inl (inl m)
    | inr m ↦ elim (t.exact x m) [ inl k ↦ inl (inr k) | inr k ↦ inr k ]
  ];
  same = λ x l. elim l [ inl m ↦ inl m | inr m ↦ inr (t.same x m) ];
  apart = (λ x h o. a.0 x h (t.same x o), t.apart);
}

-- The two ways in which the search succeeds.
allocate_in-cons :
    (b : Block) (bs bs' : List Block) (size p : ℕ)
    → allocate_in (b ∷ bs) size ≡ some (p, bs')
    → ((b' : Block) × (allocate_from_block b size ≡ some (p, b')) × (bs' ≡ b' ∷ bs))
      ⊎ ((rest : List Block) × (allocate_in bs size ≡ some (p, rest)) × (bs' ≡ b ∷ rest))
unfolding allocate_in
allocate_in-cons b bs bs' size p h = elim (Option-cases (allocate_from_block b size)) [
  | inl full ↦ elim (Option-cases (allocate_in bs size)) [
    | inl none_left ↦ absurd (cc (full, none_left))
    | inr ((q, rest), found) ↦ inr (rest, ground arith, ground arith)
  ]
  | inr ((q, b'), found) ↦ inl (b', ground arith, ground arith)
]

pub allocate_in-Taken :
    (bs bs' : List Block) (size p : ℕ)
    → AllBlocks bs
    → Apart bs
    → allocate_in bs size ≡ some (p, bs')
    → Taken bs size p bs'
allocate_in-Taken [] bs' size p v a h = absurd (unfold allocate_in in cc)
allocate_in-Taken (b ∷ bs) bs' size p v a h = elim (allocate_in-cons b bs bs' size p h) [
  | inl (b', found, e) ↦
      rw e (Taken-here b b' bs size p v a (allocate_from_block-Took b b' size p v.0 found))
  | inr (rest, found, e) ↦
      rw e (Taken-there b bs rest size p v a (allocate_in-Taken bs rest size p v.1 a.1 found))
]

-- Every block lacks the room for `size` bytes.
abbrev pub Full : ℕ → List Block → Type 0
Full size [] = Unit {0}
Full size (b ∷ bs) = (b.allocated < b.used + size) × Full size bs

-- The search gives nothing only if no block has room.
pub allocate_in-Full :
    (bs : List Block) (size : ℕ) → AllBlocks bs → allocate_in bs size ≡ none → Full size bs
unfolding allocate_in
allocate_in-Full [] size v h = tt
allocate_in-Full (b ∷ bs) size v h = elim (Option-cases (allocate_from_block b size)) [
  | inl full ↦
      (allocate_from_block-none b size v.0 full, allocate_in-Full bs size v.1 (ground arith))
  | inr (r, found) ↦ absurd (ground arith)
]
