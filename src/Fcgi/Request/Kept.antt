-- ===== src/Fcgi/Request/Kept.antt =====
-- sl_fcgi_request_append_param: the table of parameters, and the string of a name that there is no
-- memory for, whose NULL is read as a key.
use mathlib.Core.Path.{subst}
use cpp_the_right_way.Base.{
  ℕ, ◌+◌, ◌^◌, ◌≤◌, ◌<◌, Option, none, some, List, [], ◌∷◌, ◌≡◌, refl, arith, true, false, ◌==◌,
  inl, inr, length, length-take,
}
use cpp_the_right_way.Bits.{two_pow_pos}
use cpp_the_right_way.Arena.{Platform, Store, pow2_size}
use cpp_the_right_way.Run.{
  M, Run, ok, failed, fault, pure, ◌>>=◌, access, attempt, allocate_or_fail, allocate_or_fail-Safe,
  Safe, Safe-bind, Safe-map, Safe-Returns, Returns, Returns-bind, Returns-attempt, NeverFails,
}
use cpp_the_right_way.Memory.{read_bytes_lem}
use cpp_the_right_way.Strings.{
  SlString, create_from_buffer, sizeof_string, allocate_buffer, fill_created,
}
use cpp_the_right_way.Strings.Append.{
  IsString, create_from_buffer-Created, fill_created-Created, allocate_buffer-Safe,
}
use cpp_the_right_way.HashTable.{HashTable, Status, done, minus_one, allocate_table, set_key}
use cpp_the_right_way.HashTable.First.{Made, allocate_table-Made}
use cpp_the_right_way.HashTable.Map.{IsMap, set_key-Sets}
use cpp_the_right_way.HashTable.Ends.{allocate_table-Ends, set_key-Ends}
use cpp_the_right_way.Fcgi.Parser.State.{Param}
use cpp_the_right_way.Fcgi.Parser.Invariant.{Full, Complete}
use cpp_the_right_way.Fcgi.Request.{pointed, set_pointer, append_one}
use cpp_the_right_way.Fcgi.Request.Input.{taken}

create_empty-IsString :
    (os : Platform) (s : Store) → Safe (create_from_buffer os [] 0 s) (λ t _. IsString t)
unfolding create_from_buffer pow2_size
create_empty-IsString os s =
    Safe-bind (allocate_or_fail os sizeof_string) (λ _. allocate_buffer os 0 >>= fill_created [] 0)
      s (λ _ _. Unit {0}) (λ t _. IsString t) (allocate_or_fail-Safe os sizeof_string s)
      (λ _ s₁ _.
        Safe-bind (allocate_buffer os 0) (fill_created [] 0) s₁ (λ b _. length b ≡ 0)
          (λ t _. IsString t) (allocate_buffer-Safe os 0 s₁)
          (λ new s₂ e.
            Safe-map (fill_created [] 0 new s₂) _ _
              (fill_created-Created [] 0 new s₂ (omega arith) (omega arith) e) (λ t _ c. c.valid)))

-- A string of as many octets as are preallocated, perhaps none.
create_from_buffer-IsString :
    (os : Platform) (bytes : List ℕ) (s : Store)
    → length bytes < 2 ^ 31
    → Safe (create_from_buffer os bytes (length bytes) s) (λ t _. IsString t)
create_from_buffer-IsString os [] s small = create_empty-IsString os s
create_from_buffer-IsString os (c ∷ cs) s small =
    Safe-map (create_from_buffer os (c ∷ cs) (length (c ∷ cs)) s) _ _
      (create_from_buffer-Created os (c ∷ cs) (length (c ∷ cs)) s (omega arith) (omega arith)
        (omega arith))
      (λ t _ made. made.valid)

-- The octets behind the pointer of a complete name or value.
pub pointed-Full :
    (n : ℕ) (o : Option (List ℕ))
    → Full n o
    → (pointed o n ≡ some (taken o n)) × (length (taken o n) ≡ n)
unfolding pointed
pointed-Full n none h = absurd h
pointed-Full n (some b) h =
    (read_bytes_lem b n (omega (arith, h)), omega (arith, h, length-take n b))

pub create_taken-IsString :
    (os : Platform) (n : ℕ) (o : Option (List ℕ)) (s : Store)
    → Full n o
    → n < 2 ^ 31
    → Safe (create_from_buffer os (taken o n) n s) (λ t _. IsString t)
create_taken-IsString os n o s h small =
    let same = (pointed-Full n o h).1 in
    subst (λ k. Safe (create_from_buffer os (taken o n) k s) (λ t _. IsString t)) same
      (create_from_buffer-IsString os (taken o n) s (omega (arith, same)))

-- There is no memory for the string of the parameter's name.
abbrev pub LacksName : Platform → Param → Store → Type 0
LacksName os l s =
    (s' : Store) × (create_from_buffer os (taken l.name l.name_length) l.name_length s ≡ failed s')

pub IsMap-grows : (limit n k : ℕ) (t : HashTable) → IsMap limit n t → IsMap limit (n + k) t
IsMap-grows limit n k t (inl fresh) = inl fresh
IsMap-grows limit n k t (inr v) = inr (record {
  power = v.power;
  array = v.array;
  counted = omega (arith, v.counted);
  load = omega (arith, v.load);
})

module _ (os : Platform) (limit n : ℕ) (small : limit ≤ 2 ^ 57) (few : n ≤ 2 ^ 54) where
  -- With NULL for the key, a table that has its array is left with an undefined access.
  null_key-Returns :
      (t : HashTable) (value : Option SlString) (s : Store) (F : Type 0)
      → F
      → IsMap limit n t
      → Returns (set_pointer os t none value s) F (λ r. IsMap limit (n + 1) r.1)
  unfolding set_pointer
  null_key-Returns t value s F f (inr v) =
      let sized : (t.size == 0) ≡ false =
        ground (arith, v.power.power, two_pow_pos v.power.exponent) in
      rw sized f
  null_key-Returns t value s F f (inl fresh) =
      let new : (t.size == 0) ≡ true = ground (arith, fresh.no_size) in
      rw new (
        Returns-bind (allocate_table os t t.preallocate) after s F (Made limit t)
          (λ r. IsMap limit (n + 1) r.1)
          (Safe-Returns (allocate_table os t t.preallocate s) F (Made limit t)
            (allocate_table-Made os limit t s fresh (omega arith)) (table_ends s))
          (λ r s' m. by_status r.0 r.1 s' m))
    where
      after : Status × HashTable → M (Status × HashTable)
      after r = elim r.0 [ minus_one ↦ pure r | done ↦ access none ]

      table_ends : (s : Store) → NeverFails (allocate_table os t t.preallocate s)
      table_ends s = allocate_table-Ends os t t.preallocate s

      by_status :
          (c : Status) (t' : HashTable) (s' : Store)
          → Made limit t (c, t')
          → Returns (after (c, t') s') F (λ r. IsMap limit (n + 1) r.1)
      by_status done t' s' m = f
      by_status minus_one t' s' (inl (e, v)) = absurd cc
      by_status minus_one t' s' (inr (e, same)) = rw same (inl fresh)

  key-Returns :
      (t : HashTable) (key : SlString) (value : Option SlString) (s : Store) (F : Type 0)
      → IsString key
      → IsMap limit n t
      → Returns (set_pointer os t (some key) value s) F (λ r. IsMap limit (n + 1) r.1)
  unfolding set_pointer
  key-Returns t key value s F vk v =
      Safe-Returns (set_key os t key value s) F (λ r. IsMap limit (n + 1) r.1)
        (Safe-map (set_key os t key value s) _ _
          (set_key-Sets os limit n t key value s small few v vk) (λ r _ w. w.0))
        (set_key-Ends os t key value s)

  -- The value, whose string may be missing, and what is done with it.
  value-Returns {ℓ} :
      {B : Type ℓ} (l : Param) (f : Option SlString → M B) (s : Store) (F : Type 0) (Q : B → Type 0)
      → Complete l
      → ((v : Option SlString) (s' : Store) → Returns (f v s') F Q)
      → Returns
          ((access (pointed l.value l.value_length)
              >>= (λ bytes. attempt (create_from_buffer os bytes l.value_length) >>= f))
            s)
          F
          Q
  value-Returns l f s F Q c k = rw (pointed-Full l.value_length l.value c.2).0 (
      Returns-bind (attempt (create_from_buffer os (taken l.value l.value_length) l.value_length)) f
        s F (λ _. Unit {0}) Q
        (Returns-attempt (create_from_buffer os (taken l.value l.value_length) l.value_length) s F
          IsString (λ _. Unit {0}) (create_taken-IsString os l.value_length l.value s c.2 c.0.1) tt
          (λ _ _. tt))
        (λ v s' _. k v s'))

  pub append_one-Returns :
      (t : HashTable) (l : Param) (s : Store)
      → Complete l
      → IsMap limit n t
      → Returns (append_one os t l s) (LacksName os l s) (IsMap limit (n + 1))
  unfolding append_one
  append_one-Returns t l s c v = rw (pointed-Full l.name_length l.name c.1).0 (
      by_name (create_from_buffer os (taken l.name l.name_length) l.name_length s) refl
        (create_taken-IsString os l.name_length l.name s c.1 c.0.0))
    where
      set_name : Option SlString → Option SlString → M HashTable
      set_name name value = set_pointer os t name value >>= (λ r. pure r.1)

      after : Option SlString → M HashTable
      after name = access (pointed l.value l.value_length) >>= (λ bytes.
          attempt (create_from_buffer os bytes l.value_length) >>= (λ value. set_name name value))

      by_name :
          (r : Run SlString)
          → create_from_buffer os (taken l.name l.name_length) l.name_length s ≡ r
          → Safe r (λ key _. IsString key)
          → Returns ((attempt (λ _. r) >>= after) s) (LacksName os l s) (IsMap limit (n + 1))
      by_name fault e h = absurd h
      by_name (ok key s₁) e h =
          value-Returns l (set_name (some key)) s₁ (LacksName os l s) (IsMap limit (n + 1)) c
            (λ value s₂.
              Returns-bind (set_pointer os t (some key) value) (λ r. pure r.1) s₂ (LacksName os l s)
                (λ r. IsMap limit (n + 1) r.1) (IsMap limit (n + 1))
                (key-Returns t key value s₂ (LacksName os l s) h v) (λ r s₃ m. m))
      by_name (failed s₁) e h =
          value-Returns l (set_name none) s₁ (LacksName os l s) (IsMap limit (n + 1)) c (λ value s₂.
            Returns-bind (set_pointer os t none value) (λ r. pure r.1) s₂ (LacksName os l s)
              (λ r. IsMap limit (n + 1) r.1) (IsMap limit (n + 1))
              (null_key-Returns t value s₂ (LacksName os l s) (s₁, e) v) (λ r s₃ m. m))
