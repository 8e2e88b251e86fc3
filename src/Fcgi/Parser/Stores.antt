-- ===== src/Fcgi/Parser/Stores.antt =====
-- The parser's buffers where it begins a parameter, ends a value, or skips padding, and the single
-- stores and allocations.
use cpp_the_right_way.Base.{
  ℕ, ◌+◌, ◌^◌, ◌<◌, Option, none, some, List, [], ◌∷◌, ◌≡◌, refl, arith, length, set, length-set,
  Bool-cases, inl, inr, ◌==◌, u32, bit_or, bit_and, ◌<<<◌,
}
use cpp_the_right_way.Bits.{bit_or-lt, bit_and_mask}
use cpp_the_right_way.Arena.{Platform, Store}
use cpp_the_right_way.Run.{
  M, Returns, Returns-bind, Returns-attempt, Safe-map, access, attempt, allocate_or_fail,
  allocate_or_fail-Safe, ◌>>=◌,
}
use cpp_the_right_way.Memory.{store_at, store_at_lem}
use cpp_the_right_way.Strings.{allocate_buffer}
use cpp_the_right_way.Strings.Append.{allocate_buffer-Safe}
use cpp_the_right_way.Fcgi.Parser.State.{
  ParserState, Param, Parser, name_length_b3, param_padding, last_param, set_last, in_state,
}
use cpp_the_right_way.Fcgi.Parser.Params.{
  change_last, start_param, param_allocated, link_param, first_name_length, sizeof_param,
  pad_params, end_value,
}
use cpp_the_right_way.Fcgi.Parser.Invariant.{IsParser, Last, AllComplete, NoStdin, Full}

-- What the last parameter is where `Last` holds.
pub record Ends (P : Param → Type 0) (ps : List Param) : Type 0 where
  pub last : Param
  pub earlier : List Param
  pub whole : ps ≡ last ∷ earlier
  pub holds : P last
  pub complete : AllComplete earlier

pub Last-Ends : (P : Param → Type 0) (ps : List Param) → Last P ps → Ends P ps
Last-Ends P [] h = absurd h
Last-Ends P (l ∷ ls) h = record {
  last = l;
  earlier = ls;
  whole = refl;
  holds = h.0;
  complete = h.1;
}

-- A store at an index in bounds goes on with a buffer of the same length.
pub store-Returns {ℓ} :
    {B : Type ℓ} (buffer : List ℕ) (i v : ℕ) (f : List ℕ → M B) (s : Store) (F : Type 0)
    (Q : B → Type 0)
    → i < length buffer
    → ((b : List ℕ) → length b ≡ length buffer → Returns (f b s) F Q)
    → Returns ((access (store_at buffer i v) >>= f) s) F Q
store-Returns buffer i v f s F Q h k =
    rw (store_at_lem buffer i v h) (k (set buffer i v) (length-set buffer i v))

-- What an allocation for `n` octets and a terminator gives.
abbrev pub Given : ℕ → Option (List ℕ) → Type 0
Given n none = Unit {0}
Given n (some b) = length b ≡ n + 1

pub allocate_buffer-Given :
    (os : Platform) (size n : ℕ) (s : Store) (F : Type 0)
    → size ≡ n + 1
    → Returns (attempt (allocate_buffer os size) s) F (Given n)
allocate_buffer-Given os size n s F e =
    Returns-attempt (allocate_buffer os size) s F (λ b. length b ≡ n + 1) (Given n)
      (Safe-map (allocate_buffer os size s) _ _ (allocate_buffer-Safe os size s)
        (λ b _ same. omega arith))
      tt (λ b same. same)

pub full-Returns {ℓ} :
    {B : Type ℓ} (n : ℕ) (o : Option (List ℕ)) (f : List ℕ → M B) (s : Store) (F : Type 0)
    (Q : B → Type 0)
    → Full n o
    → ((b : List ℕ) → length b ≡ n + 1 → Returns (f b s) F Q)
    → Returns ((access o >>= f) s) F Q
full-Returns n none f s F Q h k = absurd h
full-Returns n (some b) f s F Q h k = k b h

pub last-Returns {ℓ} :
    {B : Type ℓ} (ps ls : List Param) (l : Param) (f : Param → M B) (s : Store) (F : Type 0)
    (Q : B → Type 0)
    → ps ≡ l ∷ ls
    → Returns (f l s) F Q
    → Returns ((access (last_param ps) >>= f) s) F Q
unfolding last_param
last-Returns ps ls l f s F Q e h = rw e h

pub change_last-Returns :
    (p : Parser) (f : Param → Param) (next : ParserState) (s : Store) (F : Type 0)
    (P : Param → Type 0) (Q : Parser → Type 0)
    → Last P p.params
    → ((l : Param) (ls : List Param)
        → P l
        → AllComplete ls
        → Q (record p { params = f l ∷ ls; state = next }))
    → Returns (change_last p f next s) F Q
unfolding change_last last_param set_last
change_last-Returns p f next s F P Q h k =
    let e = Last-Ends P p.params h in rw e.whole (k e.last e.earlier e.holds e.complete)

-- An octet joined to a length keeps it below 2 ^ 31.
pub joined-lt :
    (n octet k : ℕ) → n < 2 ^ 31 → octet <<< k < 2 ^ 31 → u32 (bit_or n (octet <<< k)) < 2 ^ 31
joined-lt n octet k small room = omega (arith, bit_or-lt 31 n (octet <<< k) small room)

module _ (os : Platform) (octet : ℕ) (is_octet : octet < 2 ^ 8) where
  first_length-lt : u32 (bit_and octet 0x7f <<< 24) < 2 ^ 31
  first_length-lt = omega (arith, bit_and_mask 7 octet)

  pub start_param-IsParser :
      (p : Parser) (s : Store) (F : Type 0)
      → p.header.content_length < 2 ^ 16
      → AllComplete p.params
      → NoStdin p.stdin
      → Returns (start_param os p octet s) F IsParser
  unfolding start_param param_allocated link_param last_param set_last first_name_length
  start_param-IsParser p s F c ps st =
      Returns-bind (attempt (allocate_or_fail os sizeof_param)) (param_allocated p octet) s F
        (λ _. Unit {0}) IsParser
        (Returns-attempt (allocate_or_fail os sizeof_param) s F (λ _. Unit {0}) (λ _. Unit {0})
          (allocate_or_fail-Safe os sizeof_param s) tt (λ _ _. tt))
        (λ r s' _. linked r s')
    where
      linked : (r : Option ℕ) (s' : Store) → Returns (param_allocated p octet r s') F IsParser
      linked none s' = record { content = c; buffers = tt }
      linked (some address) s' = elim (Bool-cases (bit_and octet 0x80 == 0x80)) [
        | inl long ↦ rw long (record {
          content = c;
          buffers = ((((first_length-lt, omega arith), refl, refl), ps), st);
        })
        | inr short ↦
            rw short (record {
              content = c;
              buffers = ((((omega arith, omega arith), refl, refl), ps), st);
            })
      ]

  pub pad_params-IsParser :
      (p : Parser)
      → p.state ≡ param_padding
      → p.header.content_length < 2 ^ 16
      → AllComplete p.params
      → NoStdin p.stdin
      → IsParser (pad_params p)
  unfolding pad_params
  pad_params-IsParser p e c ps st = elim (Bool-cases (p.read_counter == 0)) [
    | inl last ↦ rw last (record { content = c; buffers = (ps, inl st) })
    | inr more ↦ rw (more, e) (record { content = c; buffers = (ps, st) })
  ]

  pub end_value-IsParser :
      (p : Parser) (s : Store) (F : Type 0)
      → p.header.content_length < 2 ^ 16
      → AllComplete p.params
      → NoStdin p.stdin
      → Returns (end_value os p octet s) F IsParser
  unfolding end_value
  end_value-IsParser p s F c ps st = elim (Bool-cases (p.message_size == p.header.content_length)) [
    | inr more ↦ rw more (start_param-IsParser (in_state p name_length_b3) s F c ps st)
    | inl whole ↦ elim (Bool-cases (p.header.padding_length == 0)) [
      | inl bare ↦ rw (whole, bare) (record { content = c; buffers = (ps, inl st) })
      | inr padded ↦ rw (whole, padded) (record { content = c; buffers = (ps, st) })
    ]
  ]
