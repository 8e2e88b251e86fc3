-- ===== src/Fcgi/Parser/Pairs.antt =====
-- A name and a value in a PARAMS record, from the octets of their lengths on.
use cpp_the_right_way.Base.{
  ℕ, ◌+◌, ◌^◌, ◌<◌, none, some, List, [], ◌∷◌, ◌++◌, ◌≡◌, refl, ap, ◌∙◌, arith, length, set,
  length-set, take-set_le, add64,
}
use cpp_the_right_way.Arena.{Platform, Store}
use cpp_the_right_way.Run.{access, Partly-any}
use cpp_the_right_way.Memory.{store_at, store_at_lem}
use cpp_the_right_way.Strings.{string, init_with_buffer}
use cpp_the_right_way.Fcgi.Parser.State.{
  Header, Begin, Stdin, Param, Parser, ParserState, name_data, value_data, last_param, set_last,
  log_write_format,
}
use cpp_the_right_way.Fcgi.Parser.Params.{
  parse_params, params_at, parse_name, name_by_buffer, name_octet, parse_value, value_by_buffer,
  value_octet, end_value, param_format,
}
use cpp_the_right_way.Fcgi.Parser.{kind, verdict}
use cpp_the_right_way.Fcgi.Parser.Goal.{Aim, Reaches, Goes, Goes-Reaches, Reaches-Goes, Goes-then}
use cpp_the_right_way.Fcgi.Parser.Octets.{
  in_param, Holds, name_Stores, value_Stores, name_begun, value_begun, text_Reaches,
}

Holds-ended : (cs b : List ℕ) → Holds cs b → Holds cs (set b (length cs) 0)
Holds-ended cs b h = record {
  size = omega (arith, h.size, length-set b (length cs) 0);
  front = take-set_le (length cs) (length cs) b 0 (omega arith) ∙ h.front;
}

module _ (os : Platform) (aim : Aim) (header : Header) (begin : Begin) (stdin : Stdin)
    (ls : List Param) where
  abbrev at_last : ParserState → ℕ → ℕ → Param → Parser
  at_last c rc ms l = in_param header begin stdin c rc ms l ls

  -- The octet behind a name ends it and is the first one of the value.
  name_ended :
      (name : List ℕ) (v ms octet : ℕ) (b rest : List ℕ) (total : ℕ)
      → Holds name b
      → ((b' : List ℕ)
          → Holds name b'
          → Reaches os aim
              (at_last value_data 0 ms (record {
                name_length = length name;
                value_length = v;
                name = some b';
                value = none;
              }))
              (octet ∷ rest)
              total)
      → Reaches os aim
          (at_last name_data 0 ms
            (record { name_length = length name; value_length = v; name = some b; value = none }))
          (octet ∷ rest)
          total
  unfolding parse_params params_at parse_name name_by_buffer name_octet last_param set_last kind
  name_ended name v ms octet b rest total h k =
      let stored = store_at_lem b (length name) 0 (omega (arith, h.size)) in
      Goes-Reaches os aim _ octet rest total refl (λ s.
        Goes-then os aim (access (store_at b (length name) 0)) _ rest total s
          (λ ended. ended ≡ set b (length name) 0) (rw stored refl)
          (λ ended s' same.
            Reaches-Goes os aim
              (at_last value_data 0 ms (record {
                name_length = length name;
                value_length = v;
                name = some ended;
                value = none;
              }))
              octet rest total s' refl (k ended (rw same (Holds-ended name b h)))))

  -- The octet behind a value ends it; the message is logged, and `end_value` goes on.
  value_ended :
      (name value : List ℕ) (ms octet : ℕ) (a b rest : List ℕ) (total : ℕ)
      → Holds value b
      → ((b' : List ℕ) (s' : Store)
          → Holds value b'
          → Goes os aim rest total
              (end_value os
                (at_last value_data 0 ms (record {
                  name_length = length name;
                  value_length = length value;
                  name = some a;
                  value = some b';
                }))
                octet)
              s')
      → Reaches os aim
          (at_last value_data 0 ms (record {
            name_length = length name;
            value_length = length value;
            name = some a;
            value = some b;
          }))
          (octet ∷ rest)
          total
  unfolding parse_params params_at parse_value value_by_buffer value_octet last_param set_last kind
  value_ended name value ms octet a b rest total h k =
      let stored = store_at_lem b (length value) 0 (omega (arith, h.size)) in
      Goes-Reaches os aim _ octet rest total refl (λ s.
        Goes-then os aim (access (store_at b (length value) 0)) _ rest total s
          (λ ended. ended ≡ set b (length value) 0) (rw stored refl)
          (λ ended s₁ same.
            Goes-then os aim
              (log_write_format os param_format (
                string (some (init_with_buffer a (length name)))
                ∷ string (some (init_with_buffer ended (length value)))
                ∷ []))
              _ rest total s₁ (λ _. Unit {0}) (Partly-any (log_write_format os param_format _ s₁))
              (λ _ s₂ _. k ended s₂ (rw same (Holds-ended value b h)))))

  -- From the lengths on: the octets of the name, of the value, and the one behind them.
  pub texts_Reaches :
      (name value : List ℕ) (rc ms octet : ℕ) (rest : List ℕ) (total : ℕ)
      → length name < 2 ^ 31
      → length value < 2 ^ 31
      → ((a b : List ℕ) (s : Store)
          → Holds name a
          → Holds value b
          → Goes os aim rest
              (total + length name + length value)
              (end_value os
                (at_last value_data 0 (add64 (add64 ms (length name)) (length value)) (record {
                  name_length = length name;
                  value_length = length value;
                  name = some a;
                  value = some b;
                }))
                octet)
              s)
      → Reaches os aim
          (at_last name_data rc ms (record {
            name_length = length name;
            value_length = length value;
            name = none;
            value = none;
          }))
          (name ++ (value ++ octet ∷ rest))
          total
  texts_Reaches name value rc ms octet rest total n v k = by_value value refl
    where
      ms₁ : ℕ
      ms₁ = add64 ms (length name)

      of_value :
          (x : ℕ) (xs : List ℕ)
          → value ++ octet ∷ rest ≡ x ∷ xs
          → Reaches os aim
              (at_last name_data rc ms (record {
                name_length = length name;
                value_length = length value;
                name = none;
                value = none;
              }))
              (name ++ x ∷ xs)
              total
      of_value x xs e =
          text_Reaches os aim header begin stdin ls name_data ms₁
            (λ b. record {
              name_length = length name;
              value_length = length value;
              name = some b;
              value = none;
            })
            _ name x xs total (unfold kind in refl) (unfold verdict in refl)
            (name_Stores os aim header begin stdin ls (length name) (length value) ms₁) n
            (λ y ys.
              name_begun os aim header begin stdin ls (length name) (length value) rc ms y ys total
                n)
            (λ a ha. name_ended name (length value) ms₁ x a xs (total + length name) ha (λ a' ha'.
              rw (← e) (
                text_Reaches os aim header begin stdin ls value_data (add64 ms₁ (length value))
                  (λ b. record {
                    name_length = length name;
                    value_length = length value;
                    name = some a';
                    value = some b;
                  })
                  _ value octet rest (total + length name) (unfold kind in refl)
                  (unfold verdict in refl)
                  (value_Stores os aim header begin stdin ls (length name) (length value)
                    (add64 ms₁ (length value)) a')
                  v
                  (λ y ys.
                    value_begun os aim header begin stdin ls (length name) (length value) 0 ms₁ y a'
                      ys (total + length name) v)
                  (λ b hb.
                    value_ended name value (add64 ms₁ (length value)) octet a' b rest
                      (total + length name + length value) hb (λ b' s hb'. k a' b' s ha' hb')))))

      by_value :
          (w : List ℕ)
          → value ≡ w
          → Reaches os aim
              (at_last name_data rc ms (record {
                name_length = length name;
                value_length = length value;
                name = none;
                value = none;
              }))
              (name ++ (value ++ octet ∷ rest))
              total
      by_value [] e = let same = ap (λ w. w ++ octet ∷ rest) e in rw same (of_value octet rest same)
      by_value (x ∷ xs) e =
          let same = ap (λ w. w ++ octet ∷ rest) e in rw same (of_value x (xs ++ octet ∷ rest) same)
