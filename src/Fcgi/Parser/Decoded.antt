-- ===== src/Fcgi/Parser/Decoded.antt =====
-- The names and values of a whole PARAMS record.
use mathlib.Core.Path.{subst}
use mathlib.Core.List.{reverse, reverse_aux}
use cpp_the_right_way.Base.{
  ℕ, ◌+◌, ◌^◌, ◌<◌, some, List, [], ◌∷◌, ◌++◌, map, ◌≡◌, refl, ap, ap₂, ◌∙◌, ◌⊎◌, inl, inr, arith,
  true, false, ◌==◌, length, sub64, add64,
}
use cpp_the_right_way.Arena.{Platform, Store}
use cpp_the_right_way.Run.{M}
use cpp_the_right_way.Fcgi.Parser.State.{
  Header, Begin, Stdin, Param, Parser, ParserState, name_length_b3, value_data, param_padding,
  finished, error,
}
use cpp_the_right_way.Fcgi.Parser.Params.{
  parse_params, params_at, end_value, start_param, pad_params,
}
use cpp_the_right_way.Fcgi.Parser.{kind, verdict, proceed}
use cpp_the_right_way.Fcgi.Request.Input.{taken}
use cpp_the_right_way.Fcgi.Parser.Goal.{Aim, Reaches, Reaches-octet, Goes, Goes-Reaches}
use cpp_the_right_way.Fcgi.Parser.Octets.{in_param, Holds}
use cpp_the_right_way.Fcgi.Parser.Pairs.{texts_Reaches}
use cpp_the_right_way.Fcgi.Parser.Lengths.{
  length_octets, length_head, length_tail, before, IsLinked, lengths_Goes,
}

-- The name and the value that a parameter reads as.
abbrev pub reads : Param → List ℕ × List ℕ
reads l = (taken l.name l.name_length, taken l.value l.value_length)

-- The octets of names and values, with the lengths of each pair in front, and then `tail`.
unfoldable pub pairs_octets : List (List ℕ × List ℕ) → List ℕ → List ℕ
pairs_octets [] tail = tail
pairs_octets ((name, value) ∷ pairs) tail =
    length_octets (length name)
    ++ (length_octets (length value) ++ (name ++ (value ++ pairs_octets pairs tail)))

-- How many there are without the tail.
unfoldable pub pairs_size : List (List ℕ × List ℕ) → ℕ
pairs_size [] = 0
pairs_size ((name, value) ∷ pairs) =
    length (length_octets (length name))
    + length (length_octets (length value))
    + length name
    + length value
    + pairs_size pairs

-- The parser is in error, or finished with these parameters after so many octets.
abbrev pub Finishes : List (List ℕ × List ℕ) → ℕ → Parser × ℕ → Type 0
Finishes pairs n r =
    (r.0.state ≡ error)
    ⊎ ((r.0.state ≡ finished) × (map reads (reverse r.0.params) ≡ pairs) × (r.1 ≡ n))

-- The same with the last parameter first.
pub record IsDecoded (pairs : List (List ℕ × List ℕ)) (n : ℕ) (r : Parser × ℕ) : Type 0 where
  pub state : r.0.state ≡ finished
  pub params : map reads r.0.params ≡ pairs
  pub read : r.1 ≡ n

abbrev pub decoding : List (List ℕ × List ℕ) → ℕ → Aim
decoding pairs n = record {
  holds = λ r. (r.0.state ≡ error) ⊎ IsDecoded pairs n r;
  broken = λ r e. inl e;
}

module _ (os : Platform) (header : Header) (begin : Begin) (stdin : Stdin)
    (all : List (List ℕ × List ℕ)) (n : ℕ) (next : ℕ) (more : List ℕ) where
  abbrev pub aim : Aim
  aim = decoding all n

  abbrev Feeds : (ℕ → M Parser) → List ℕ → ℕ → Type 0
  Feeds m [] total = Unit {0}
  Feeds m (x ∷ xs) total = (s : Store) → Goes os aim xs total (m x) s

  -- The octets of the padding, and the one behind it.
  padding_Reaches :
      (pads : List ℕ) (rc ms : ℕ) (l : Param) (ls : List Param) (total : ℕ)
      → rc ≡ length pads
      → rc < 2 ^ 16
      → map reads (l ∷ ls) ≡ all
      → total + length pads ≡ n
      → Reaches os aim
          (in_param header begin stdin param_padding rc ms l ls)
          (pads ++ next ∷ more)
          total
  unfolding parse_params params_at pad_params kind verdict proceed
  padding_Reaches [] rc ms l ls total e small same sum =
      let last : (rc == 0) ≡ true = ground arith in
      Goes-Reaches os aim _ next more total refl
        (λ s. rw last (inr (record { state = refl; params = same; read = omega arith })))
  padding_Reaches (x ∷ pads) rc ms l ls total e small same sum =
      let some_left : (rc == 0) ≡ false = ground arith in
      let less : sub64 rc 1 ≡ length pads = omega arith in
      Reaches-octet os aim _ x (pads ++ next ∷ more) total refl (λ s.
        rw (some_left, less)
          (inr (
            refl,
            padding_Reaches pads (length pads) ms l ls (total + 1) refl (omega arith) same
                (omega arith),
          )))

  -- The octet behind the last value: a record without padding is finished, and the padding begins.
  last_Feeds :
      (pads : List ℕ) (ms : ℕ) (l : Param) (ls : List Param) (total : ℕ)
      → ms ≡ header.content_length
      → header.padding_length ≡ length pads
      → length pads < 2 ^ 16
      → map reads (l ∷ ls) ≡ all
      → total + length pads ≡ n
      → Feeds
          (end_value os (in_param header begin stdin value_data 0 ms l ls))
          (pads ++ next ∷ more)
          total
  unfolding end_value pad_params verdict proceed
  last_Feeds [] ms l ls total whole bare small same sum = λ s.
      let over : (ms == header.content_length) ≡ true = ground arith in
      let none_left : (header.padding_length == 0) ≡ true = ground arith in
      rw (over, none_left) (inr (record { state = refl; params = same; read = omega arith }))
  last_Feeds (x ∷ pads) ms l ls total whole padded small same sum = λ s.
      let over : (ms == header.content_length) ≡ true = ground arith in
      let some_left : (header.padding_length == 0) ≡ false = ground arith in
      rw (over, some_left)
        (padding_Reaches pads (sub64 header.padding_length 1) ms l ls (total + 1) (omega arith)
          (omega arith) same (omega arith) s)

  -- One name and its value, up to the octet behind them.
  pair_Goes :
      (name value : List ℕ) (x : ℕ) (xs : List ℕ) (ls : List Param) (rc ms : ℕ) (c : ParserState)
      (total : ℕ) (s : Store)
      → length name < 2 ^ 31
      → length value < 2 ^ 31
      → IsLinked ls ms
      → ((a b : List ℕ)
          → Holds name a
          → Holds value b
          → Feeds
              (end_value os (
                in_param header begin stdin value_data 0
                  (add64
                    (add64
                      (add64
                        (add64 ms (length (length_octets (length name))))
                        (length (length_octets (length value))))
                      (length name))
                    (length value))
                  (record {
                    name_length = length name;
                    value_length = length value;
                    name = some a;
                    value = some b;
                  })
                  ls))
              (x ∷ xs)
              (total
                + length (length_octets (length name))
                + length (length_octets (length value))
                + length name
                + length value))
      → Goes os aim
          (length_tail (length name)
            ++ (length_octets (length value) ++ (name ++ (value ++ x ∷ xs))))
          total
          (start_param os (before os aim header begin stdin ls c rc ms) (length_head (length name)))
          s
  pair_Goes name value x xs ls rc ms c total s ns vs first k =
      lengths_Goes os aim header begin stdin ls (length name) (length value) rc ms c
        (name ++ (value ++ x ∷ xs)) total s ns vs first
        (texts_Reaches os aim header begin stdin ls name value rc
          (add64 (add64 ms (length (length_octets (length name))))
            (length (length_octets (length value))))
          x xs
          (total + length (length_octets (length name)) + length (length_octets (length value))) ns
          vs (λ a b s' ha hb. k a b ha hb s'))

  -- There is an octet behind any of the pairs.
  more_octets :
      (pairs : List (List ℕ × List ℕ)) (pads : List ℕ)
      → (x : ℕ) × (xs : List ℕ) × (pairs_octets pairs (pads ++ next ∷ more) ≡ x ∷ xs)
  unfolding pairs_octets
  more_octets [] [] = (next, more, refl)
  more_octets [] (p ∷ pads) = (p, pads ++ next ∷ more, refl)
  more_octets ((name, value) ∷ pairs) pads = (_, _, refl)

  abbrev after_pair : ℕ → List ℕ → List ℕ → ℕ
  after_pair k name value =
      k
      + length (length_octets (length name))
      + length (length_octets (length value))
      + length name
      + length value

  -- One name and its value, and then the other pairs.
  pair_then :
      (name value : List ℕ) (pairs : List (List ℕ × List ℕ)) (pads : List ℕ) (ls : List Param)
      (rc ms : ℕ) (c : ParserState) (total : ℕ) (s : Store)
      → IsLinked ls ms
      → after_pair ms name value < 2 ^ 16
      → ((v : Param)
          → reads v ≡ (name, value)
          → Feeds
              (end_value os
                (in_param header begin stdin value_data 0 (after_pair ms name value) v ls))
              (pairs_octets pairs (pads ++ next ∷ more))
              (after_pair total name value))
      → Goes os aim
          (length_tail (length name)
            ++ (length_octets (length value)
                ++ (name ++ (value ++ pairs_octets pairs (pads ++ next ∷ more)))))
          total
          (start_param os (before os aim header begin stdin ls c rc ms) (length_head (length name)))
          s
  pair_then name value pairs pads ls rc ms c total s first small rest =
      let (x, xs, e) = more_octets pairs pads in
      rw e (
        pair_Goes name value x xs ls rc ms c total s (omega arith) (omega arith) first (λ a b ha hb.
          let v : Param = record {
            name_length = length name;
            value_length = length value;
            name = some a;
            value = some b;
          } in
          let sum : add64
                (add64
                  (add64 (add64 ms (length (length_octets (length name))))
                    (length (length_octets (length value))))
                  (length name))
                (length value)
              ≡ after_pair ms name value =
            omega arith in
          rw sum (
            subst
              (λ (w : List ℕ).
                Feeds
                  (end_value os
                    (in_param header begin stdin value_data 0 (after_pair ms name value) v ls))
                  w (after_pair total name value))
              e (rest v (ap₂ (λ (k m : List ℕ). (k, m)) ha.front hb.front)))))

  pairs_Feeds :
      (pairs : List (List ℕ × List ℕ)) (pads : List ℕ) (ms : ℕ) (l : Param) (ls : List Param)
      (total : ℕ)
      → ms + pairs_size pairs ≡ header.content_length
      → header.content_length < 2 ^ 16
      → header.padding_length ≡ length pads
      → length pads < 2 ^ 16
      → reverse_aux pairs (map reads (l ∷ ls)) ≡ all
      → total + pairs_size pairs + length pads ≡ n
      → Feeds
          (end_value os (in_param header begin stdin value_data 0 ms l ls))
          (pairs_octets pairs (pads ++ next ∷ more))
          total
  unfolding pairs_octets pairs_size end_value
  pairs_Feeds [] pads ms l ls total whole small padded few same sum =
      last_Feeds pads ms l ls total (omega arith) padded few same (omega arith)
  pairs_Feeds ((name, value) ∷ pairs) pads ms l ls total whole small padded few same sum = λ s.
      let not_over : (ms == header.content_length) ≡ false = ground arith in
      rw not_over (
        pair_then name value pairs pads (l ∷ ls) 0 ms name_length_b3 total s tt (omega arith)
          (λ v e.
            pairs_Feeds pairs pads (after_pair ms name value) v (l ∷ ls)
              (after_pair total name value) (omega arith) small padded few
              (ap (λ r. reverse_aux pairs (r ∷ map reads (l ∷ ls))) e ∙ same) (omega arith)))

  -- All of them, from the state behind the header.
  pub pairs_Reaches :
      (pairs : List (List ℕ × List ℕ)) (pads : List ℕ) (total : ℕ)
      → pairs_size pairs ≡ header.content_length
      → 0 < header.content_length
      → header.content_length < 2 ^ 16
      → header.padding_length ≡ length pads
      → length pads < 2 ^ 16
      → reverse pairs ≡ all
      → total + pairs_size pairs + length pads ≡ n
      → Reaches os aim
          (before os aim header begin stdin [] name_length_b3 0 0)
          (pairs_octets pairs (pads ++ next ∷ more))
          total
  unfolding pairs_octets pairs_size parse_params params_at kind
  pairs_Reaches [] pads total whole some_content small padded few same sum = absurd (omega arith)
  pairs_Reaches ((name, value) ∷ pairs) pads total whole some_content small padded few same sum =
      Goes-Reaches os aim _ (length_head (length name)) _ total refl (λ s.
        pair_then name value pairs pads [] 0 0 name_length_b3 total s refl (omega arith) (λ v e.
          pairs_Feeds pairs pads (after_pair 0 name value) v [] (after_pair total name value)
            (omega arith) small padded few (ap (λ r. reverse_aux pairs (r ∷ [])) e ∙ same)
            (omega arith)))
