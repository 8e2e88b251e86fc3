-- ===== src/Fcgi/Parser/LongName.antt =====
-- The parameter whose name has 48 octets: the message at the end of its value.
use cpp_the_right_way.Base.{ℕ, ◌+◌, ◌≡◌, refl, ap, ◌∙◌, some, List, [], ◌∷◌, arith, length, set}
use cpp_the_right_way.Arena.{Platform, Store, pow2_size}
use cpp_the_right_way.Run.{M, Run, ok, fault, Safe, attempt, pure, ◌>>=◌}
use cpp_the_right_way.Memory.{store_at_lem}
use cpp_the_right_way.Strings.{
  SlString, Argument, string, init_with_buffer, create_from_buffer, format_loop, format_buffer,
}
use cpp_the_right_way.Strings.Append.{Created, create_from_buffer-Created}
use cpp_the_right_way.Strings.Format.{bind_ok}
use cpp_the_right_way.Strings.Overflow.{format_loop_faults}
use cpp_the_right_way.Fcgi.Parser.State.{Param, Parser, value_data, last_param, log_write_format}
use cpp_the_right_way.Fcgi.Parser.Params.{
  param_format, parse_params, params_at, parse_value, value_by_buffer, value_octet,
}
use cpp_the_right_way.Fcgi.Parser.{judge, kind, octet_of_kind, parse_octet}
use cpp_the_right_way.Fcgi.Parser.Logged.{param_text, text-IsString}
use mathlib.Core.Path.{subst}

first_buffer :
    (os : Platform) (s s' : Store) (t : SlString)
    → create_from_buffer os [] 42 s ≡ ok t s'
    → Created [] 64 t
unfolding pow2_size
first_buffer os s s' t made =
    subst (λ (r : Run SlString). Safe r (λ t _. Created [] (pow2_size 42) t)) made
      (create_from_buffer-Created os [] 42 s (omega arith) (omega arith) (omega arith))

bind_fault {ℓ κ} :
    {A : Type ℓ} {B : Type κ} (m : M A) (f : A → M B) (s : Store)
    → m s ≡ fault
    → (m >>= f) s ≡ fault
bind_fault {A} m f s e = ap (λ (r : Run A). ((λ _. r) >>= f) s) e

attempt_fault {ℓ} : {A : Type ℓ} (m : M A) (s : Store) → m s ≡ fault → attempt m s ≡ fault
attempt_fault {A} m s e = ap (λ (r : Run A). attempt (λ _. r) s) e

-- The message of such a parameter, where there is memory for it.
message_faults :
    (os : Platform) (name : List ℕ) (value : Argument) (s s' : Store) (t : SlString)
    → length name ≡ 49
    → create_from_buffer os [] 42 s ≡ ok t s'
    → log_write_format os param_format (string (some (init_with_buffer name 48)) ∷ value ∷ []) s
      ≡ fault
unfolding log_write_format format_buffer
message_faults os name value s s' t size made =
    let args = string (some (init_with_buffer name 48)) ∷ value ∷ [] in
    let over =
      format_loop_faults os param_text t (init_with_buffer name 48) 61 (37 ∷ 83 ∷ []) (value ∷ [])
        s' 64 (ground arith) (first_buffer os s s' t made) (text-IsString name 48 size)
        (of_length name) (omega arith) (omega arith) in
    bind_fault (attempt (format_buffer os param_format args)) (λ _. pure tt) s
      (attempt_fault (format_buffer os param_format args) s (
        bind_ok (create_from_buffer os [] 42) (format_loop os param_format args) s t s' made
        ∙ over))
  where
    of_length : (name : List ℕ) → 16 + (init_with_buffer name 48).length ≡ 64
    of_length name = unfold init_with_buffer in refl

abbrev long_named : List ℕ → ℕ → List ℕ → Param
long_named name v value = record {
  name_length = 48;
  value_length = v;
  name = some name;
  value = some value;
}

value_octet_faults :
    (os : Platform) (p : Parser) (v : ℕ) (name value : List ℕ) (octet : ℕ) (s s' : Store)
    (t : SlString)
    → p.read_counter ≡ 0
    → length name ≡ 49
    → length value ≡ v + 1
    → create_from_buffer os [] 42 s ≡ ok t s'
    → value_octet os p (long_named name v value) value octet s ≡ fault
unfolding value_octet
value_octet_faults os p v name value octet s s' t ended size vsize made =
    let stored = store_at_lem value v 0 (omega arith) in
    rw (ended, stored)
      (bind_fault
        (log_write_format os param_format (
          string (some (init_with_buffer name 48))
          ∷ string (some (init_with_buffer (set value v 0) v))
          ∷ []))
        _ s
        (message_faults os name (string (some (init_with_buffer (set value v 0) v))) s s' t size
          made))

-- At the octet behind the value of a parameter whose name has 48 octets, a parser that has memory
-- for the message writes behind the end of the buffer that the message is formatted in.
pub long_name_faults :
    (os : Platform) (p : Parser) (ls : List Param) (v : ℕ) (name value : List ℕ) (octet : ℕ)
    (s s' : Store) (t : SlString)
    → p.state ≡ value_data
    → p.read_counter ≡ 0
    → p.params
      ≡ record { name_length = 48; value_length = v; name = some name; value = some value } ∷ ls
    → length name ≡ 49
    → length value ≡ v + 1
    → create_from_buffer os [] 42 s ≡ ok t s'
    → parse_octet os p octet s ≡ fault
unfolding parse_octet octet_of_kind kind parse_params params_at parse_value value_by_buffer
    last_param
long_name_faults os p ls v name value octet s s' t state ended ps size vsize made =
    let q = record p { state = value_data; params = long_named name v value ∷ ls } in
    rw (state, ps)
      (bind_fault (parse_params os q octet) judge s
        (value_octet_faults os q v name value octet s s' t ended size vsize made))
