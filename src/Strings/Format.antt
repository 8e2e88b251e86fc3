-- ===== src/Strings/Format.antt =====
-- The formatter on a message that its first buffer has room for.
use mathlib.Core.List.{append_assoc, append-nil}
use cpp_the_right_way.Base.{
  sym, ℕ, zero, suc, ◌+◌, ◌*◌, ◌^◌, ◌<◌, ◌≤◌, some, List, [], ◌∷◌, ◌++◌, ◌≡◌, ◌≢◌, refl, ap, ◌∙◌,
  arith, length, take, length-append, length-set, set, leb, ◌==◌, u64, add64, ◌<<<◌, true, false,
  le→leb,
}
use cpp_the_right_way.Arena.{Platform, Store, pow2_size}
use cpp_the_right_way.Run.{M, ◌>>=◌, ok, Safe, Safe-bind}
use cpp_the_right_way.Memory.{read_bytes_lem, memcpy-Filled, store_at_lem}
use cpp_the_right_way.Strings.{
  SlString, contents, Argument, string, cstring, create_from_buffer, append_with_buffer,
  append_with_string, string_directive, cstring_directive, append_argument, put_char, format_loop,
  format_buffer,
}
use cpp_the_right_way.Strings.Append.{IsString, Created, create_from_buffer-Created, pow2_room}

-- The message of a format with %s and %S: literal characters are themselves, and each directive is
-- the text of the next argument.
pub data Expands : List ℕ → List Argument → List ℕ → Type 0 where
  nothing_left : {args : List Argument} → Expands [] args []
  literal :
      {c : ℕ} {rest : List ℕ} {args : List Argument} {out : List ℕ}
      → c ≢ b'%'
      → Expands rest args out
      → Expands (c ∷ rest) args (c ∷ out)
  string_next :
      {rest : List ℕ} {args : List Argument} {out : List ℕ} (v : SlString)
      → IsString v
      → Expands rest args out
      → Expands (b'%' ∷ b'S' ∷ rest) (string (some v) ∷ args) (contents v ++ out)
  cstring_next :
      {rest : List ℕ} {args : List Argument} {out : List ℕ} (bytes : List ℕ)
      → Expands rest args out
      → Expands (b'%' ∷ b's' ∷ rest) (cstring (some bytes) ∷ args) (bytes ++ out)

-- `bytes` are added to `t` in place.
pub record Wrote (t : SlString) (bytes : List ℕ) (t' : SlString) : Type 0 where
  pub valid : IsString t'
  pub grows : t'.length ≡ t.length + length bytes
  pub holds : contents t' ≡ contents t ++ bytes
  pub allocated : t'.allocated ≡ t.allocated

Wrote-append :
    (t t₁ t₂ : SlString) (xs ys : List ℕ) → Wrote t xs t₁ → Wrote t₁ ys t₂ → Wrote t (xs ++ ys) t₂
Wrote-append t t₁ t₂ xs ys w₁ w₂ = record {
  valid = w₂.valid;
  grows = omega (arith, w₁.grows, w₂.grows, length-append xs ys);
  holds = w₂.holds ∙ (ap (λ l. l ++ ys) w₁.holds ∙ append_assoc (contents t) xs ys);
  allocated = w₂.allocated ∙ w₁.allocated;
}

take-set : (xs : List ℕ) (i v : ℕ) → i < length xs → take (suc i) (set xs i v) ≡ take i xs ++ v ∷ []
take-set [] i v h = absurd (omega arith)
take-set (x ∷ xs) zero v h = refl
take-set (x ∷ xs) (suc i) v h = ap (λ l. x ∷ l) (take-set xs i v (omega arith))

pub bind_ok {ℓ κ} :
    {A : Type ℓ} {B : Type κ} (m : M A) (f : A → M B) (s : Store) (a : A) (s' : Store)
    → m s ≡ ok a s'
    → (m >>= f) s ≡ f a s'
bind_ok m f s a s' e = ap (λ r. ((λ _. r) >>= f) s) e

module _ (os : Platform) (s : Store) where
  append_in_place :
      (t : SlString) (bytes : List ℕ)
      → IsString t
      → t.length + length bytes ≤ t.allocated
      → t.allocated < 2 ^ 63
      → (t' : SlString) × (append_with_buffer os t bytes s ≡ ok t' s) × Wrote t bytes t'
  unfolding append_with_buffer
  append_in_place t bytes v room small =
      let sum : add64 t.length (length bytes) ≡ t.length + length bytes = omega arith in
      let (after, e, f) = memcpy-Filled t.buffer t.length bytes (omega (arith, v.whole)) in
      let fits : leb (add64 t.length (length bytes)) t.allocated ≡ true =
        rw sum (le→leb _ _ room) in
      (
        record t { length = add64 t.length (length bytes); buffer = after },
        rw (fits, e),
        record {
          valid = record { within = omega arith; whole = omega (arith, f.same_length, v.whole) };
          grows = sum;
          holds = ap (λ n. take n after) sum ∙ f.end;
          allocated = refl;
        },
      )

  append_string_in_place :
      (t v : SlString)
      → IsString t
      → IsString v
      → t.length + length (contents v) ≤ t.allocated
      → t.allocated < 2 ^ 63
      → (t' : SlString) × (append_with_string os t v s ≡ ok t' s) × Wrote t (contents v) t'
  unfolding append_with_string
  append_string_in_place t v vt vv room small =
      let e = read_bytes_lem v.buffer v.length (omega (arith, vv.within, vv.whole)) in
      rw e (append_in_place t (contents v) vt room small)

  pub put_char-Wrote :
      (t : SlString) (c : ℕ)
      → IsString t
      → t.length + 1 ≤ t.allocated
      → t.allocated < 2 ^ 63
      → (t' : SlString) × (put_char t c s ≡ ok t' s) × Wrote t (c ∷ []) t'
  unfolding put_char
  put_char-Wrote t c v room small =
      let e = store_at_lem t.buffer t.length c (omega (arith, v.whole)) in
      let sum : add64 t.length 1 ≡ t.length + 1 = omega arith in
      let after = set t.buffer t.length c in
      let next : add64 t.length 1 ≡ suc t.length = omega arith in
      (
        record t { length = add64 t.length 1; buffer = after },
        rw e,
        record {
          valid = record {
            within = omega arith;
            whole = omega (arith, length-set t.buffer t.length c, v.whole);
          };
          grows = sum;
          holds =
              ap (λ n. take n after) next ∙ take-set t.buffer t.length c (omega (arith, v.whole));
          allocated = refl;
        },
      )

  pub literal_step :
      (c : ℕ) (rest : List ℕ) (args : List Argument) (t t₁ : SlString)
      → c ≢ b'%'
      → put_char t c s ≡ ok t₁ s
      → format_loop os (c ∷ rest) args t s ≡ format_loop os rest args t₁ s
  unfolding format_loop
  literal_step c [] args t t₁ other e =
      let test : (c == b'%') ≡ false = ground arith in rw (test, e)
  literal_step c (d ∷ rest) args t t₁ other e =
      let test : (c == b'%') ≡ false = ground arith in
      rw test (bind_ok (put_char t c) (format_loop os (d ∷ rest) args) s t₁ s e)

  string_step :
      (rest : List ℕ) (args : List Argument) (t t₁ x : SlString)
      → append_with_string os t x s ≡ ok t₁ s
      → format_loop os (b'%' ∷ b'S' ∷ rest) (string (some x) ∷ args) t s
        ≡ format_loop os rest args t₁ s
  unfolding format_loop append_argument string_directive
  string_step rest args t t₁ x e = ground (arith, e)

  cstring_step :
      (rest : List ℕ) (args : List Argument) (t t₁ : SlString) (x : List ℕ)
      → append_with_buffer os t x s ≡ ok t₁ s
      → format_loop os (b'%' ∷ b's' ∷ rest) (cstring (some x) ∷ args) t s
        ≡ format_loop os rest args t₁ s
  unfolding format_loop append_argument cstring_directive
  cstring_step rest args t t₁ x e = ground (arith, e)

  -- The formatter's loop adds the message in place, where there is room for all of it.
  format_loop-Wrote :
      {format : List ℕ} {args : List Argument} {bytes : List ℕ} (t : SlString)
      → Expands format args bytes
      → IsString t
      → t.length + length bytes ≤ t.allocated
      → t.allocated < 2 ^ 63
      → (t' : SlString) × (format_loop os format args t s ≡ ok t' s) × Wrote t bytes t'
  unfolding format_loop
  format_loop-Wrote t nothing_left v room small = (
    t,
    refl,
    record {
      valid = v;
      grows = omega arith;
      holds = sym (append-nil (contents t));
      allocated = refl;
    },
  )
  format_loop-Wrote t (literal {c} {rest} {args} {out} other e) v room small =
      let (t₁, run₁, w₁) = put_char-Wrote t c v (omega arith) small in
      let (t₂, run₂, w₂) =
        format_loop-Wrote t₁ e w₁.valid (omega (arith, w₁.grows, w₁.allocated))
          (omega (arith, w₁.allocated)) in
      (t₂, literal_step c rest args t t₁ other run₁ ∙ run₂, Wrote-append t t₁ t₂ (c ∷ []) out w₁ w₂)
  format_loop-Wrote t (string_next {rest} {args} {out} x vx e) v room small =
      let total = length-append (contents x) out in
      let (t₁, run₁, w₁) = append_string_in_place t x v vx (omega (arith, total)) small in
      let (t₂, run₂, w₂) =
        format_loop-Wrote t₁ e w₁.valid (omega (arith, total, w₁.grows, w₁.allocated))
          (omega (arith, w₁.allocated)) in
      (t₂, string_step rest args t t₁ x run₁ ∙ run₂, Wrote-append t t₁ t₂ (contents x) out w₁ w₂)
  format_loop-Wrote t (cstring_next {rest} {args} {out} x e) v room small =
      let total = length-append x out in
      let (t₁, run₁, w₁) = append_in_place t x v (omega (arith, total)) small in
      let (t₂, run₂, w₂) =
        format_loop-Wrote t₁ e w₁.valid (omega (arith, total, w₁.grows, w₁.allocated))
          (omega (arith, w₁.allocated)) in
      (t₂, cstring_step rest args t t₁ x run₁ ∙ run₂, Wrote-append t t₁ t₂ x out w₁ w₂)

-- With a format of 1 to 2 ^ 60 octets and arguments of the types that its directives %s and %S read,
-- none of them NULL, a message that is not longer than the formatter's first buffer (twice the length
-- of the format, rounded up to a power of two) is written with no access out of bounds, and a result
-- is well formed and holds exactly the message.
pub format_buffer-Expands :
    (os : Platform) (format : List ℕ) (args : List Argument) (bytes : List ℕ) (s : Store)
    → 0 < length format
    → length format ≤ 2 ^ 60
    → Expands format args bytes
    → length bytes ≤ pow2_size (2 * length format)
    → Safe (format_buffer os format args s) (λ t s'. IsString t × (contents t ≡ bytes))
unfolding format_buffer
format_buffer-Expands os format args bytes s pos small e room =
    let n = 2 * length format in
    let size : u64 (length format <<< 1) ≡ n = omega arith in
    let (lo, hi) = pow2_room n (omega arith) (omega arith) in
    rw size (
      Safe-bind (create_from_buffer os [] n) (format_loop os format args) s
        (λ t _. Created [] (pow2_size n) t) (λ t _. IsString t × (contents t ≡ bytes))
        (create_from_buffer-Created os [] n s (omega arith) (omega arith) (omega arith))
        (λ t s' c.
          let (t', run, w) =
            format_loop-Wrote os s' t e c.valid (omega (arith, c.same_length, c.allocated))
              (omega (arith, c.allocated)) in
          rw run (w.valid, w.holds ∙ ap (λ l. l ++ bytes) c.holds)))
