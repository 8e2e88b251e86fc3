-- ===== src/Strings/Fits.antt =====
-- The formatter where it moves its buffer, and with numbers: the messages that it writes in bounds.
use mathlib.Core.List.{append_assoc, append-nil}
use cpp_the_right_way.Base.{
  ℕ, ◌+◌, ◌*◌, ◌^◌, ◌<◌, ◌≤◌, none, some, List, [], ◌∷◌, ◌++◌, ◌≡◌, ◌≢◌, refl, sym, ap, ◌∙◌, arith,
  length, u64, ◌<<<◌,
}
use cpp_the_right_way.Arena.{Platform, Store, pow2_size}
use cpp_the_right_way.Run.{M, Safe, Safe-bind, Safe-map, pure, ◌>>=◌}
use cpp_the_right_way.Memory.{read_bytes_lem, junk_bytes, length-junk_bytes}
use cpp_the_right_way.Strings.{
  SlString, contents, Argument, string, cstring, number, create_from_buffer, append_with_buffer,
  append_with_string, append_number, number_directive, string_directive, cstring_directive,
  append_argument, format_loop, format_buffer,
}
use cpp_the_right_way.Strings.Append.{
  IsString, Appended, Created, create_from_buffer-Created, next_allocated,
  append_with_buffer-Appended,
}
use cpp_the_right_way.Strings.Format.{put_char-Wrote, literal_step}
use cpp_the_right_way.Strings.Digits.{decimal, itoa-decimal, length-decimal}

-- `Fits format args len allocated out`: the formatter, with `len` bytes written in a buffer of
-- `allocated`, has room for every literal character on the way to adding the message `out`. The text
-- of an argument moves the buffer where it needs to; literal characters do not.
pub data Fits : List ℕ → List Argument → ℕ → ℕ → List ℕ → Type 0 where
  nothing_left : {args : List Argument} {len allocated : ℕ} → Fits [] args len allocated []
  literal :
      {c : ℕ} {rest : List ℕ} {args : List Argument} {len allocated : ℕ} {out : List ℕ}
      → c ≢ b'%'
      → len < allocated
      → allocated < 2 ^ 63
      → Fits rest args (len + 1) allocated out
      → Fits (c ∷ rest) args len allocated (c ∷ out)
  string_next :
      {rest : List ℕ} {args : List Argument} {len allocated : ℕ} {out : List ℕ} (v : SlString)
      → IsString v
      → len + length (contents v) < 2 ^ 61
      → Fits rest args
          (len + length (contents v))
          (next_allocated len allocated (length (contents v)))
          out
      → Fits (b'%' ∷ b'S' ∷ rest) (string (some v) ∷ args) len allocated (contents v ++ out)
  string_null :
      {rest : List ℕ} {args : List Argument} {len allocated : ℕ} {out : List ℕ}
      → Fits rest args len allocated out
      → Fits (b'%' ∷ b'S' ∷ rest) (string none ∷ args) len allocated out
  cstring_next :
      {rest : List ℕ} {args : List Argument} {len allocated : ℕ} {out : List ℕ} (bytes : List ℕ)
      → len + length bytes < 2 ^ 61
      → Fits rest args (len + length bytes) (next_allocated len allocated (length bytes)) out
      → Fits (b'%' ∷ b's' ∷ rest) (cstring (some bytes) ∷ args) len allocated (bytes ++ out)
  cstring_null :
      {rest : List ℕ} {args : List Argument} {len allocated : ℕ} {out : List ℕ}
      → Fits rest args len allocated out
      → Fits (b'%' ∷ b's' ∷ rest) (cstring none ∷ args) len allocated out
  number_next :
      {rest : List ℕ} {args : List Argument} {len allocated : ℕ} {out : List ℕ} (value : ℕ)
      → value < 2 ^ 64
      → len < 2 ^ 60
      → Fits rest args
          (len + length (decimal 20 value))
          (next_allocated len allocated (length (decimal 20 value)))
          out
      → Fits (b'%' ∷ b'z' ∷ rest) (number value ∷ args) len allocated (decimal 20 value ++ out)

-- `t'` is `t` with `bytes` added: its length and the size of its buffer are `n` and `size`.
record Adds (n size : ℕ) (t : SlString) (bytes : List ℕ) (t' : SlString) : Type 0 where
  pub valid : IsString t'
  pub long : t'.length ≡ n
  pub room : t'.allocated ≡ size
  pub holds : contents t' ≡ contents t ++ bytes

Appended-Adds :
    (t : SlString) (bytes : List ℕ) (t' : SlString)
    → Appended t bytes t'
    → Adds (t.length + length bytes) (next_allocated t.length t.allocated (length bytes)) t bytes t'
Appended-Adds t bytes t' a = record {
  valid = a.valid;
  long = a.grows;
  room = a.allocates;
  holds = a.holds;
}

-- What the loop comes to, from a string `t`.
abbrev Message : SlString → List ℕ → SlString → Type 0
Message t bytes t' = IsString t' × (contents t' ≡ contents t ++ bytes)

Message-after :
    (t t₁ t₂ : SlString) (xs ys : List ℕ)
    → contents t₁ ≡ contents t ++ xs
    → Message t₁ ys t₂
    → Message t (xs ++ ys) t₂
Message-after t t₁ t₂ xs ys e m =
    (m.0, m.1 ∙ (ap (λ l. l ++ ys) e ∙ append_assoc (contents t) xs ys))

module _ (os : Platform) where
  directive_Safe :
      (d : ℕ) (rest : List ℕ) (args args' : List Argument) (t : SlString) (s : Store)
      (m : M SlString) (P : SlString → Type 0) (Q : SlString → Store → Type 0)
      → append_argument os t d args ≡ (m >>= λ t'. pure (t', args'))
      → Safe (m s) (λ t' _. P t')
      → ((t' : SlString) (s' : Store) → P t' → Safe (format_loop os rest args' t' s') Q)
      → Safe (format_loop os (b'%' ∷ d ∷ rest) args t s) Q
  unfolding format_loop
  directive_Safe d rest args args' t s m P Q e h k =
      Safe-bind (append_argument os t d args) (λ r. format_loop os rest r.1 r.0) s
        (λ r _. (r.1 ≡ args') × P r.0) Q
        (rw e (
          Safe-bind m (λ t'. pure (t', args')) s (λ t' _. P t') (λ r _. (r.1 ≡ args') × P r.0) h
            (λ t' s' p. (refl, p))))
        (λ r s' p. rw p.0 (k r.0 s' p.1))

  append_string-Adds :
      (t v : SlString) (s : Store)
      → IsString t
      → IsString v
      → t.length + length (contents v) < 2 ^ 61
      → Safe (append_with_string os t v s) (λ t' _.
        Adds
          (t.length + length (contents v))
          (next_allocated t.length t.allocated (length (contents v)))
          t
          (contents v)
          t')
  unfolding append_with_string
  append_string-Adds t v s vt vv small =
      let e = read_bytes_lem v.buffer v.length (omega (arith, vv.within, vv.whole)) in
      rw e (
        Safe-map (append_with_buffer os t (contents v) s) _ _
          (append_with_buffer-Appended os t (contents v) vt small s)
          (λ t' _ a. Appended-Adds t (contents v) t' a))

  append_number-Adds :
      (t : SlString) (value : ℕ) (s : Store)
      → IsString t
      → value < 2 ^ 64
      → t.length < 2 ^ 60
      → Safe (append_number os t value s) (λ t' _.
        Adds
          (t.length + length (decimal 20 value))
          (next_allocated t.length t.allocated (length (decimal 20 value)))
          t
          (decimal 20 value)
          t')
  unfolding append_number
  append_number-Adds t value s vt range small =
      let junk = junk_bytes os s.mallocs 0 20 in
      let few = length-decimal 20 value in
      let (b, run, holds, size) =
        itoa-decimal value junk 20 (length-junk_bytes os s.mallocs 0 20) (omega arith)
          (omega arith) in
      let e = read_bytes_lem b (length (decimal 20 value)) (omega (arith, size)) in
      rw (run, e, holds)
        (Safe-map (append_with_buffer os t (decimal 20 value) s) _ _
          (append_with_buffer-Appended os t (decimal 20 value) vt (omega arith) s)
          (λ t' _ a. Appended-Adds t (decimal 20 value) t' a))

  -- The loop adds the message, by the same moves of the buffer.
  format_loop-Fits :
      {format : List ℕ} {args : List Argument} {len allocated : ℕ} {bytes : List ℕ} (t : SlString)
      (s : Store)
      → Fits format args len allocated bytes
      → IsString t
      → t.length ≡ len
      → t.allocated ≡ allocated
      → Safe (format_loop os format args t s) (λ t' _. Message t bytes t')
  unfolding format_loop append_argument string_directive cstring_directive number_directive
  format_loop-Fits t s nothing_left v l a = (v, sym (append-nil (contents t)))
  format_loop-Fits t s (literal {c} {rest} {args} {len} {allocated} {out} other room below f) v l
        a =
      let (t₁, run, w) = put_char-Wrote os s t c v (omega (arith, l, a)) (omega (arith, a)) in
      rw (literal_step os s c rest args t t₁ other run) (
        Safe-map (format_loop os rest args t₁ s) _ _
          (format_loop-Fits t₁ s f w.valid (omega (arith, w.grows, l)) (w.allocated ∙ a))
          (λ t₂ _ m. Message-after t t₁ t₂ (c ∷ []) out w.holds m))
  format_loop-Fits t s (string_next {rest} {args} {len} {allocated} {out} x vx small f) v l a =
      directive_Safe b'S' rest (string (some x) ∷ args) args t s (append_with_string os t x)
        (Adds (t.length + length (contents x))
          (next_allocated t.length t.allocated (length (contents x))) t (contents x))
        (λ t' _. Message t (contents x ++ out) t') refl
        (append_string-Adds t x s v vx (omega (arith, l)))
        (λ t₁ s' w.
          Safe-map (format_loop os rest args t₁ s') _ _
            (format_loop-Fits t₁ s' f w.valid (omega (arith, w.long, l)) (rw (← l, ← a) w.room))
            (λ t₂ _ m. Message-after t t₁ t₂ (contents x) out w.holds m))
  format_loop-Fits t s (string_null {rest} {args} {len} {allocated} {out} f) v l a =
      format_loop-Fits t s f v l a
  format_loop-Fits t s (cstring_next {rest} {args} {len} {allocated} {out} x small f) v l a =
      directive_Safe b's' rest (cstring (some x) ∷ args) args t s (append_with_buffer os t x)
        (Adds (t.length + length x) (next_allocated t.length t.allocated (length x)) t x)
        (λ t' _. Message t (x ++ out) t') refl
        (Safe-map (append_with_buffer os t x s) _ _
          (append_with_buffer-Appended os t x v (omega (arith, l)) s)
          (λ t' _ b. Appended-Adds t x t' b))
        (λ t₁ s' w.
          Safe-map (format_loop os rest args t₁ s') _ _
            (format_loop-Fits t₁ s' f w.valid (omega (arith, w.long, l)) (rw (← l, ← a) w.room))
            (λ t₂ _ m. Message-after t t₁ t₂ x out w.holds m))
  format_loop-Fits t s (cstring_null {rest} {args} {len} {allocated} {out} f) v l a =
      format_loop-Fits t s f v l a
  format_loop-Fits t s (number_next {rest} {args} {len} {allocated} {out} x range small f) v l a =
      directive_Safe b'z' rest (number x ∷ args) args t s (append_number os t x)
        (Adds (t.length + length (decimal 20 x))
          (next_allocated t.length t.allocated (length (decimal 20 x))) t (decimal 20 x))
        (λ t' _. Message t (decimal 20 x ++ out) t') refl
        (append_number-Adds t x s v range (omega (arith, l)))
        (λ t₁ s' w.
          Safe-map (format_loop os rest args t₁ s') _ _
            (format_loop-Fits t₁ s' f w.valid (omega (arith, w.long, l)) (rw (← l, ← a) w.room))
            (λ t₂ _ m. Message-after t t₁ t₂ (decimal 20 x) out w.holds m))

-- With a format of 1 to 2 ^ 60 octets and arguments of the types that its directives read, where no
-- literal character meets a full buffer on the way (`Fits`), the formatter makes no access out of
-- bounds, moves its buffer where it needs to, and a result is well formed and holds exactly the
-- message: literal characters, the texts of the strings, nothing for NULL, and decimal digits.
pub format_buffer-Fits :
    (os : Platform) (format : List ℕ) (args : List Argument) (bytes : List ℕ) (s : Store)
    → 0 < length format
    → length format ≤ 2 ^ 60
    → Fits format args 0 (pow2_size (2 * length format)) bytes
    → Safe (format_buffer os format args s) (λ t s'. IsString t × (contents t ≡ bytes))
unfolding format_buffer
format_buffer-Fits os format args bytes s pos small f =
    let n = 2 * length format in
    let size : u64 (length format <<< 1) ≡ n = omega arith in
    rw size (
      Safe-bind (create_from_buffer os [] n) (format_loop os format args) s
        (λ t _. Created [] (pow2_size n) t) (λ t _. IsString t × (contents t ≡ bytes))
        (create_from_buffer-Created os [] n s (omega arith) (omega arith) (omega arith))
        (λ t s' c.
          Safe-map (format_loop os format args t s') _ _
            (format_loop-Fits os t s' f c.valid c.same_length c.allocated)
            (λ t' _ m. (m.0, m.1 ∙ ap (λ l. l ++ bytes) c.holds))))
