-- ===== src/Fcgi/Request/NullName.antt =====
-- sl_fcgi_request_append_param where there is no memory for the string of a name.
use cpp_the_right_way.Base.{Option, none, some, ◌≡◌, ◌≢◌, refl, ap, ◌∙◌, arith, false, ◌==◌}
use cpp_the_right_way.Arena.{Platform, Store}
use cpp_the_right_way.Run.{M, Run, ok, failed, fault, pure, ◌>>=◌, access, attempt, Safe}
use cpp_the_right_way.Strings.{SlString, create_from_buffer}
use cpp_the_right_way.Strings.Append.{IsString}
use cpp_the_right_way.HashTable.{HashTable}
use cpp_the_right_way.Fcgi.Parser.State.{Param}
use cpp_the_right_way.Fcgi.Parser.Invariant.{Complete}
use cpp_the_right_way.Fcgi.Request.{pointed, set_pointer, append_one}
use cpp_the_right_way.Fcgi.Request.Input.{taken}
use cpp_the_right_way.Fcgi.Request.Kept.{LacksName, pointed-Full, create_taken-IsString}

-- A NULL key, on a table with its array.
null_key_faults :
    (os : Platform) (t : HashTable) (value : Option SlString) (s : Store)
    → t.size ≢ 0
    → set_pointer os t none value s ≡ fault
unfolding set_pointer
null_key_faults os t value s sized =
    let test : (t.size == 0) ≡ false = ground (arith, sized) in rw test refl

-- The parameter of a complete record, on a table that has its array, when there is no memory for the
-- string of its name: NULL is passed on as the key and read, whatever becomes of the value.
pub null_name_faults :
    (os : Platform) (t : HashTable) (l : Param) (s : Store)
    → t.size ≢ 0
    → Complete l
    → LacksName os l s
    → append_one os t l s ≡ fault
unfolding append_one
null_name_faults os t l s sized c (s₁, e) = rw ((pointed-Full l.name_length l.name c.1).0) (
    ap (λ (r : Run SlString). ((attempt (λ _. r)) >>= after) s) e
    ∙ rw ((pointed-Full l.value_length l.value c.2).0) (
        by_value (create_from_buffer os (taken l.value l.value_length) l.value_length s₁)
          (create_taken-IsString os l.value_length l.value s₁ c.2 c.0.1)))
  where
    set_null : Option SlString → M HashTable
    set_null value = set_pointer os t none value >>= (λ r. pure r.1)

    after : Option SlString → M HashTable
    after name = access (pointed l.value l.value_length) >>= (λ bytes.
        attempt (create_from_buffer os bytes l.value_length)
        >>= (λ value. set_pointer os t name value >>= (λ r. pure r.1)))

    faults_on : (value : Option SlString) (s₂ : Store) → set_null value s₂ ≡ fault
    faults_on value s₂ =
        ap (λ (r : Run _). ((λ _. r) >>= (λ r'. pure r'.1)) s₂)
          (null_key_faults os t value s₂ sized)

    by_value :
        (r : Run SlString)
        → Safe r (λ v _. IsString v)
        → ((attempt (λ _. r) >>= set_null) s₁) ≡ fault
    by_value (ok v s₂) h = faults_on (some v) s₂
    by_value (failed s₂) h = faults_on none s₂
    by_value fault h = absurd h
