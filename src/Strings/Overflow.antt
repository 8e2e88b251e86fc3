-- ===== src/Strings/Overflow.antt =====
-- The formatter where an argument fills the buffer and a literal character follows.
use cpp_the_right_way.Base.{
  ℕ, ◌+◌, ◌*◌, ◌^◌, ◌<◌, some, List, [], ◌∷◌, ◌≡◌, ◌≢◌, arith, length, take, length-take, leb, ltb,
  ◌++◌, refl, ◌∙◌, set, length-set, length-append, ◌≤◌, ◌==◌, u64, add64, ◌<<<◌, true, false, ◌⊎◌,
  inl, inr,
}
use cpp_the_right_way.Arena.{Platform, Store, pow2_size}
use cpp_the_right_way.Run.{Run, ok, failed, fault, Safe}
use cpp_the_right_way.Memory.{read_bytes_lem, memcpy-Filled, store_at, store_at_lem}
use cpp_the_right_way.Strings.{
  SlString, Argument, string, create_from_buffer, append_with_buffer, append_with_string,
  string_directive, append_argument, put_char, format_loop, format_buffer,
}
use cpp_the_right_way.Strings.Counts.{AllPlain}
use cpp_the_right_way.Strings.Format.{literal_step}
use cpp_the_right_way.Strings.Append.{IsString, Created, create_from_buffer-Created, pow2_room}

-- A literal character behind a full buffer.
literal_faults :
    (os : Platform) (t : SlString) (c : ℕ) (rest : List ℕ) (args : List Argument) (s : Store)
    → length t.buffer ≡ t.length
    → c ≢ b'%'
    → format_loop os (c ∷ rest) args t s ≡ fault
unfolding format_loop put_char store_at
literal_faults os t c [] args s full literal =
    let other : (c == b'%') ≡ false = ground arith in
    let outside : ltb t.length (length t.buffer) ≡ false = ground arith in rw (other, outside)
literal_faults os t c (d ∷ rest) args s full literal =
    let other : (c == b'%') ≡ false = ground arith in
    let outside : ltb t.length (length t.buffer) ≡ false = ground arith in rw (other, outside)

-- What the loop's string is after plain octets that there was room for.
record Moved (n : ℕ) (t t' : SlString) : Type 0 where
  pub grows : t'.length ≡ t.length + n
  pub allocated : t'.allocated ≡ t.allocated
  same_room : length t'.buffer ≡ length t.buffer

plain_steps :
    (os : Platform) (front rest : List ℕ) (args : List Argument) (t : SlString) (s : Store)
    → AllPlain front
    → t.length + length front ≤ length t.buffer
    → length t.buffer < 2 ^ 63
    → (t' : SlString) × (format_loop os (front ++ rest) args t s ≡ format_loop os rest args t' s)
      × Moved (length front) t t'
unfolding put_char
plain_steps os [] rest args t s p room small =
    (t, refl, record { grows = omega arith; allocated = refl; same_room = refl })
plain_steps os (c ∷ cs) rest args t s p room small =
    let after = set t.buffer t.length c in
    let e0 = store_at_lem t.buffer t.length c (omega arith) in
    let same = length-set t.buffer t.length c in
    let t₁ = record t { length = add64 t.length 1; buffer = after } in
    let step = literal_step os s c (cs ++ rest) args t t₁ p.0 (rw e0 refl) in
    let (t', run, m) =
      plain_steps os cs rest args t₁ s p.1 (omega (arith, same)) (omega (arith, same)) in
    (
      t',
      step ∙ run,
      record {
        grows = omega (arith, m.grows);
        allocated = m.allocated;
        same_room = omega (arith, m.same_room, same);
      },
    )

-- An argument of exactly the size of the room that is left fills it.
argument_fills :
    (os : Platform) (t key : SlString) (s : Store)
    → t.length + key.length ≡ t.allocated
    → length t.buffer ≡ t.allocated
    → IsString key
    → t.allocated < 2 ^ 63
    → (t' : SlString) × (append_with_string os t key s ≡ ok t' s) × (length t'.buffer ≡ t'.length)
unfolding append_with_string append_with_buffer
argument_fills os t key s exact whole v small =
    let bytes = take key.length key.buffer in
    let n : length bytes ≡ key.length =
      omega (arith, length-take key.length key.buffer, v.within, v.whole) in
    let e0 = read_bytes_lem key.buffer key.length (omega (arith, v.within, v.whole)) in
    let fits : leb (add64 t.length (length bytes)) t.allocated ≡ true = ground arith in
    let (after, e1, f) = memcpy-Filled t.buffer t.length bytes (omega arith) in
    (
      record t { length = add64 t.length (length bytes); buffer = after },
      rw (e0, fits, e1),
      omega (arith, f.same_length),
    )

loop_faults :
    (os : Platform) (t key : SlString) (c : ℕ) (rest : List ℕ) (args : List Argument) (s : Store)
    → t.length + key.length ≡ t.allocated
    → length t.buffer ≡ t.allocated
    → IsString key
    → t.allocated < 2 ^ 63
    → c ≢ b'%'
    → format_loop os (b'%' ∷ b'S' ∷ c ∷ rest) (string (some key) ∷ args) t s ≡ fault
unfolding format_loop append_argument string_directive
loop_faults os t key c rest args s exact whole v small literal =
    let (t', run, full) = argument_fills os t key s exact whole v small in
    ground (arith, run, literal_faults os t' c rest args s full literal)

-- Plain octets, an argument that fills what they leave of a new buffer, and one more octet.
pub format_loop_faults :
    (os : Platform) (front : List ℕ) (t key : SlString) (c : ℕ) (rest : List ℕ)
    (args : List Argument) (s : Store) (size : ℕ)
    → AllPlain front
    → Created [] size t
    → IsString key
    → length front + key.length ≡ size
    → size < 2 ^ 63
    → c ≢ b'%'
    → format_loop os (front ++ b'%' ∷ b'S' ∷ c ∷ rest) (string (some key) ∷ args) t s ≡ fault
format_loop_faults os front t key c rest args s size p made v exact small literal =
    let (t', run, m) =
      plain_steps os front (b'%' ∷ b'S' ∷ c ∷ rest) (string (some key) ∷ args) t s p
        (omega (arith, made.same_length, made.exact)) (omega (arith, made.exact)) in
    run
    ∙ loop_faults os t' key c rest args s
        (omega (arith, m.grows, m.allocated, made.same_length, made.allocated))
        (omega (arith, m.same_room, m.allocated, made.exact, made.allocated)) v
        (omega (arith, m.allocated, made.allocated)) literal

-- A format begins with octets other than %, goes on with %S and a character other than %, and has
-- fewer than 2 ^ 60 octets behind that; a well-formed first argument fills, behind the first octets,
-- the formatter's buffer (twice the length of the format, rounded up to a power of two). Then the
-- formatter makes an undefined access, unless creating its string returns NULL: then it returns NULL
-- too.
pub format_buffer_overflows_behind :
    (os : Platform) (front : List ℕ) (key : SlString) (c : ℕ) (rest : List ℕ) (args : List Argument)
    (s : Store)
    → AllPlain front
    → IsString key
    → c ≢ b'%'
    → length front + length rest < 2 ^ 60
    → length front + key.length ≡ pow2_size (2 * (length front + length rest + 3))
    → (format_buffer os (front ++ b'%' ∷ b'S' ∷ c ∷ rest) (string (some key) ∷ args) s ≡ fault)
      ⊎ ((s' : Store) × (create_from_buffer os [] (2 * (length front + length rest + 3)) s
            ≡ failed s')
          × (format_buffer os (front ++ b'%' ∷ b'S' ∷ c ∷ rest) (string (some key) ∷ args) s
              ≡ failed s'))
unfolding format_buffer
format_buffer_overflows_behind os front key c rest args s p v literal small exact =
    let format = front ++ b'%' ∷ b'S' ∷ c ∷ rest in
    let n = 2 * (length front + length rest + 3) in
    let size : u64 (length format <<< 1) ≡ n =
      omega (arith, length-append front (b'%' ∷ b'S' ∷ c ∷ rest)) in
    let made = create_from_buffer-Created os [] n s (omega arith) (omega arith) (omega arith) in
    let (lo, hi) = pow2_room n (omega arith) (omega arith) in
    rw size (go hi (create_from_buffer os [] n s) refl made)
  where
    go :
        pow2_size (2 * (length front + length rest + 3)) < 2 ^ 63
        → (r : Run SlString) → create_from_buffer os [] (2 * (length front + length rest + 3)) s ≡ r
        → Safe r (λ t _. Created [] (pow2_size (2 * (length front + length rest + 3))) t)
        → (elim r as (λ _. Run SlString) [
          | ok t s' ↦
              format_loop os (front ++ b'%' ∷ b'S' ∷ c ∷ rest) (string (some key) ∷ args) t s'
          | failed s' ↦ failed s'
          | fault ↦ fault
        ]
            ≡ fault)
          ⊎ ((s' : Store) × (create_from_buffer os [] (2 * (length front + length rest + 3)) s
                ≡ failed s')
              × (elim r as (λ _. Run SlString) [
                | ok t s' ↦
                    format_loop os (front ++ b'%' ∷ b'S' ∷ c ∷ rest) (string (some key) ∷ args) t s'
                | failed s' ↦ failed s'
                | fault ↦ fault
              ]
                  ≡ failed s'))
    go hi (ok t s') e made = inl (
        format_loop_faults os front t key c rest args s'
          (pow2_size (2 * (length front + length rest + 3))) p made v exact hi literal)
    go hi (failed s') e made = inr (s', e, refl)
    go hi fault e made = absurd made
