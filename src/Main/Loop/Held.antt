-- ===== src/Main/Loop/Held.antt =====
-- The body of the loop of sl_main_parse_buffer, behind the call of the parser: what the request and
-- the parser hold.
use mathlib.Core.List.{reverse}
use cpp_the_right_way.Base.{
  ℕ, ◌+◌, ◌-◌, ◌*◌, ◌^◌, ◌≤◌, ◌<◌, [], ◌∷◌, ◌≡◌, arith, true, Bool-cases, inl, inr, length,
}
use cpp_the_right_way.Arena.{Platform, Store, pow2_size}
use cpp_the_right_way.Run.{pure, attempt, Safe-map, Returns, Returns-bind, Returns-attempt}
use cpp_the_right_way.Strings.{number, format_buffer}
use cpp_the_right_way.Strings.Counts.{count_digits-Safe}
use cpp_the_right_way.Strings.Digits.{length-decimal_lt}
use cpp_the_right_way.Fcgi.Parser.State.{Param, Parser, ParserState, log_write_format}
use cpp_the_right_way.Fcgi.Parser.State
use cpp_the_right_way.Fcgi.Parser.Invariant.{IsParser, init-IsParser}
use cpp_the_right_way.HashTable.First.{init-IsFresh}
use cpp_the_right_way.HashTable.Map.{IsMap}
use cpp_the_right_way.Fcgi.Request.{Request, RequestState, is_finished, process}
use cpp_the_right_way.Fcgi.Request
use cpp_the_right_way.Fcgi.Request.Kept.{IsMap-grows}
use cpp_the_right_way.Fcgi.Request.Safety.{IsRequest, MissesName, process-IsRequest}
use cpp_the_right_way.Main.Reply.{Writev, execute}
use cpp_the_right_way.Main.Records.{IsWritev}
use cpp_the_right_way.Main.Execute.{execute-reply_text}
use cpp_the_right_way.Main.Loop.{
  Turn, Next, go_on, leave, is_error, after_process, after_parse, parsed_format,
}

-- A parser with sound buffers and a request with a sound table and input: no more than `limit_params`
-- parameters have been begun for the request, and no more than `limit_input` octets are its input.
pub record Held (limit limit_params limit_input : ℕ) (r : Request) (p : Parser) : Type 0 where
  pub count : ℕ
  pub request : IsRequest limit count limit_input r
  pub bounded : count + length p.params ≤ limit_params
  pub parser : IsParser p

pub IsRequest-weaken :
    (limit n n' b b' : ℕ) (r : Request)
    → n ≤ n'
    → b ≤ b'
    → IsRequest limit n b r
    → IsRequest limit n' b' r
IsRequest-weaken limit n n' b b' r le le' v = record {
  table = more (IsMap-grows limit n (n' - n) r.parameters v.table);
  text = v.text;
  short = omega (arith, v.short);
}
  where
    more : IsMap limit (n + (n' - n)) r.parameters → IsMap limit n' r.parameters
    more w = let same : n + (n' - n) ≡ n' = omega arith in rw (← same) w

-- What a round leaves behind, by the way it ends.
abbrev pub Onto : ℕ → ℕ → ℕ → Turn × Next → Type 0
Onto limit n b (t, go_on) = Held limit n b t.request t.parser
Onto limit n b (t, leave) = IsRequest limit n b t.request × IsParser t.parser

-- "Parsed %z bytes"
pub parsed-Returns :
    (os : Platform) (value : ℕ) (s : Store) (F : Type 0)
    → value < 2 ^ 40
    → Returns (log_write_format os parsed_format (number value ∷ []) s) F (λ _. Unit {0})
unfolding log_write_format pow2_size
parsed-Returns os value s F range =
    Returns-bind (attempt (format_buffer os parsed_format (number value ∷ []))) (λ _. pure tt) s F
      (λ _. Unit {0}) (λ _. Unit {0})
      (Returns-attempt (format_buffer os parsed_format (number value ∷ [])) s F (λ _. Unit {0})
        (λ _. Unit {0})
        (Safe-map (format_buffer os parsed_format (number value ∷ []) s) _ _
          (count_digits-Safe os (80 ∷ 97 ∷ 114 ∷ 115 ∷ 101 ∷ 100 ∷ 32 ∷ [])
            (32 ∷ 98 ∷ 121 ∷ 116 ∷ 101 ∷ 115 ∷ []) value 13 s (ground arith) (ground arith)
            (omega arith) (length-decimal_lt 13 20 value (omega arith)) (omega arith) (omega arith))
          (λ _ _ _. tt))
        tt (λ _ _. tt))
      (λ _ _ _. tt)

module _ (os : Platform) (writev : Writev) (limit n b : ℕ) (w : IsWritev writev) where
  new_parser : (r : Request) → IsRequest limit n b r → Held limit n b r State.init
  unfolding State.init
  new_parser r v = record { count = n; request = v; bounded = omega arith; parser = init-IsParser }

  after_process-Onto :
      (c : RequestState) (r : Request) (p : Parser) (s : Store) (F : Type 0)
      → IsRequest limit n b r
      → IsParser p
      → Returns (after_process c os writev r p s) F (Onto limit n b)
  unfolding after_process
  after_process-Onto RequestState.error r p s F v q = (v, q)
  after_process-Onto RequestState.finished r p s F v q =
      Returns-bind (attempt (execute os writev r)) _ s F (λ _. Unit {0}) (Onto limit n b)
        (Returns-attempt (execute os writev r) s F (λ _. Unit {0}) (λ _. Unit {0})
          (Safe-map (execute os writev r s) _ _ (execute-reply_text os writev r s w) (λ _ _ _. tt))
          tt (λ _ _. tt))
        (λ _ _ _. (v, q))
  after_process-Onto RequestState.begin r p s F v q = new_parser r v
  after_process-Onto RequestState.param_or_stdin r p s F v q = new_parser r v
  after_process-Onto RequestState.param r p s F v q = new_parser r v
  after_process-Onto RequestState.stdin r p s F v q = new_parser r v

pub after_parse-Onto :
    (os : Platform) (writev : Writev) (limit n b : ℕ) (r : Request) (p : Parser) (s : Store)
    → IsWritev writev
    → limit ≤ 2 ^ 57
    → n ≤ 2 ^ 54
    → b < 2 ^ 60
    → Held limit n b r p
    → Returns
        (after_parse os writev r p s)
        (MissesName os r.parameters (reverse p.params) s)
        (Onto limit n (b + 2 ^ 16))
unfolding after_parse
after_parse-Onto os writev limit n b r p s w small few short h =
    elim (Bool-cases (is_error p.state)) [
      | inl broken ↦ rw broken (
        IsRequest-weaken limit h.count n b (b + 2 ^ 16) r (omega (arith, h.bounded)) (omega arith)
            h.request,
        h.parser,
      )
      | inr fine ↦ elim (Bool-cases (is_finished p.state)) [
        | inr partial ↦
            rw (fine, partial)
              (record {
                count = h.count;
                request =
                    IsRequest-weaken limit h.count h.count b (b + 2 ^ 16) r (omega arith)
                      (omega arith) h.request;
                bounded = h.bounded;
                parser = h.parser;
              })
        | inl whole ↦
            rw (fine, whole)
              (Returns-bind (process os r p) (λ r'. after_process r'.state os writev r' p) s
                (MissesName os r.parameters (reverse p.params) s)
                (IsRequest limit (h.count + length p.params) (b + 2 ^ 16))
                (Onto limit n (b + 2 ^ 16))
                (process-IsRequest os limit h.count b r p s small (omega (arith, h.bounded)) short
                  h.request h.parser)
                (λ r' s' v.
                  after_process-Onto os writev limit n (b + 2 ^ 16) w r'.state r' p s'
                    (MissesName os r.parameters (reverse p.params) s)
                    (IsRequest-weaken limit (h.count + length p.params) n (b + 2 ^ 16) (b + 2 ^ 16)
                      r' (omega (arith, h.bounded)) (omega arith) v)
                    h.parser))
      ]
    ]

-- A new request, whose table is to have 1 to 2 ^ 54 chains at first, and a new parser.
pub init-Held :
    (size : ℕ) → 0 < size → size ≤ 2 ^ 54 → Held (4 * size) 0 0 (Request.init size) State.init
unfolding Request.init State.init
init-Held size pos small = record {
  count = 0;
  request = record {
    table = inl (init-IsFresh size true pos (omega arith));
    text = record { within = omega arith; whole = omega arith };
    short = omega arith;
  };
  bounded = omega arith;
  parser = init-IsParser;
}
