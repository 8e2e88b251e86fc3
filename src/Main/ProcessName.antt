-- ===== src/Main/ProcessName.antt =====
-- sl_main_set_process_name: a name written over the arguments and the environment of the process.
use mathlib.Core.List.{append_assoc}
use cpp_the_right_way.Base.{
  le→ltb, ltb→le, ℕ, suc, ◌+◌, ◌*◌, ◌^◌, ◌≤◌, ◌<◌, Option, none, some, List, [], ◌∷◌, ◌++◌, ◌≡◌,
  refl, ◌∙◌, ap, arith, ltb, leb, if◌then◌else◌, length, drop, ◌⊎◌, inl, inr, Bool-cases, false,
  add64, length-append, le→leb,
}
use cpp_the_right_way.Memory.{memcpy}
use cpp_the_right_way.Log.{cstring}
use cpp_the_right_way.Log.Number.{AllNonzero, cstring-closed}

-- The loop over the environment, which counts the length of its first string for each of them.
unfoldable count_env : ℕ → List (List ℕ) → ℕ → ℕ
count_env first [] available = available
count_env first (text ∷ env) available = count_env first env (add64 available first)

unfoldable count_argv : List (List ℕ) → ℕ
count_argv [] = 0
count_argv (text ∷ argv) = add64 0 (length text)

unfoldable pub first_length : List (List ℕ) → ℕ
first_length [] = 0
first_length (text ∷ env) = length text

unfoldable copy_name : List (List ℕ) → List ℕ → List ℕ → Option (List ℕ)
copy_name [] name memory = none
copy_name (text ∷ argv) name memory = memcpy memory 0 (name ++ 0 ∷ [])

-- The texts of `argv`, of `env` and of `name` are without the 0 that ends them. `memory` is what
-- argv[0] points into, from there to its end; without arguments argv[0] is null. The result is the
-- memory behind the call, or `none` for an access outside of it.
unfoldable pub set_process_name :
    (argv env : List (List ℕ)) (name memory : List ℕ) → Option (List ℕ)
unfolding count_env count_argv first_length copy_name
set_process_name argv env name memory =
    let length_with_end = add64 (length name) 1 in
    let available = count_env (first_length env) env (count_argv argv) in
    if ltb available length_with_end then some memory else copy_name argv name memory

-- The bytes of texts that stand one behind the other, each with the 0 that ends it.
unfoldable pub texts_size : List (List ℕ) → ℕ
texts_size [] = 0
texts_size (text ∷ texts) = length text + 1 + texts_size texts

-- None is shorter than that.
abbrev AllAtLeast : ℕ → List (List ℕ) → Type 0
AllAtLeast n [] = Unit {0}
AllAtLeast n (text ∷ texts) = (n ≤ length text) × AllAtLeast n texts

count_env_lem :
    (first : ℕ) (env : List (List ℕ)) (available : ℕ)
    → available + length env * first < 2 ^ 64
    → count_env first env available ≡ available + length env * first
unfolding count_env
count_env_lem first [] available h = omega arith
count_env_lem first (text ∷ env) available h =
    let m = length env * first in
    let more : suc (length env) * first ≡ first + m = omega arith in
    let sum : add64 available first ≡ available + first = omega arith in
    let rest = count_env_lem first env (available + first) (omega arith) in
    rw (sum, rest) (omega arith)

-- In numbers that do not wrap, the texts of an environment none of which is shorter than the first
-- have room for what is counted.
count_fits :
    (first : ℕ) (env : List (List ℕ)) → AllAtLeast first env → length env * first ≤ texts_size env
unfolding texts_size
count_fits first [] h = omega arith
count_fits first (text ∷ env) h =
    let rest = count_fits first env h.1 in
    let more : suc (length env) * first ≡ first + length env * first = omega arith in
    omega (arith, h.0)

-- The two ways of the call, in numbers that do not wrap.
set_process_name_cases :
    (text : List ℕ) (argv env : List (List ℕ)) (name memory : List ℕ)
    → length text + length env * first_length env < 2 ^ 64
    → length name + 1 < 2 ^ 64
    → set_process_name (text ∷ argv) env name memory ≡ (
        if ltb (length text + length env * first_length env) (length name + 1)
        then some memory
        else memcpy memory 0 (name ++ 0 ∷ []))
unfolding set_process_name count_argv copy_name
set_process_name_cases text argv env name memory small short =
    let start : add64 0 (length text) ≡ length text = omega arith in
    let counted = count_env_lem (first_length env) env (length text) small in
    let wanted : add64 (length name) 1 ≡ length name + 1 = omega arith in
    rw (start, counted, wanted) refl

copy_from_start :
    (name memory : List ℕ)
    → length name + 1 ≤ length memory
    → memcpy memory 0 (name ++ 0 ∷ []) ≡ some (name ++ 0 ∷ drop (length (name ++ 0 ∷ [])) memory)
unfolding memcpy
copy_from_start name memory room =
    let size = length-append name (0 ∷ []) in
    let behind = drop (length (name ++ 0 ∷ [])) memory in
    let from_start : 0 + length (name ++ 0 ∷ []) ≡ length (name ++ 0 ∷ []) = omega arith in
    rw (from_start, le→leb (length (name ++ 0 ∷ [])) (length memory) (omega (arith, size)))
      (ap some (append_assoc name (0 ∷ []) behind))

-- For a process with an argument: where no text of the environment is shorter than its first one,
-- the memory that argv[0] points into holds that argument and the texts of the environment and has
-- fewer than 2 ^ 64 bytes, and the name has fewer than 2 ^ 63, no access is outside of that memory,
-- and it is as before or argv[0] reads as the name.
pub set_process_name-Fits :
    (text : List ℕ) (argv env : List (List ℕ)) (name memory : List ℕ)
    → AllNonzero name
    → AllAtLeast (first_length env) env
    → length text + 1 + texts_size env ≤ length memory
    → length memory < 2 ^ 64
    → length name < 2 ^ 63
    → (memory' : List ℕ) × (set_process_name (text ∷ argv) env name memory ≡ some memory')
      × ((memory' ≡ memory) ⊎ (cstring memory' ≡ some name))
set_process_name-Fits text argv env name memory nonzero equal room small short =
    let counted = count_fits (first_length env) env equal in
    let cases = set_process_name_cases text argv env name memory (omega arith) (omega arith) in
    elim (Bool-cases (ltb (length text + length env * first_length env) (length name + 1))) [
      | inl long ↦ (memory, cases ∙ (rw long refl), inl refl)
      | inr fits ↦
          let below = ltb→le (length text + length env * first_length env) (length name + 1) fits in
          let copied = copy_from_start name memory (omega arith) in
          (
            name ++ 0 ∷ drop (length (name ++ 0 ∷ [])) memory,
            cases ∙ (rw (fits, copied) refl),
            inr (cstring-closed name (drop (length (name ++ 0 ∷ [])) memory) nonzero),
          )
    ]

-- For a name that fits what is counted (the argument and the first text of the environment as many
-- times as there are texts, below 2 ^ 64) but not the memory that argv[0] points into, the access is
-- undefined.
pub set_process_name_overflows :
    (text : List ℕ) (argv env : List (List ℕ)) (name memory : List ℕ)
    → length memory < length name + 1
    → length name + 1 ≤ length text + length env * first_length env
    → length text + length env * first_length env < 2 ^ 64
    → set_process_name (text ∷ argv) env name memory ≡ none
unfolding memcpy
set_process_name_overflows text argv env name memory over counted small =
    let size = length-append name (0 ∷ []) in
    let no_room : leb (0 + length (name ++ 0 ∷ [])) (length memory) ≡ false =
      ground (arith, size) in
    rw
      (
        set_process_name_cases text argv env name memory small (omega arith),
        le→ltb (length text + length env * first_length env) (length name + 1) counted,
        no_room,
      )
      refl
