-- ===== src/Main/Loop/Total.antt =====
-- sl_main_parse_buffer as a whole, with the two ways in which it can make an undefined access.
use mathlib.Core.List.{reverse}
use cpp_the_right_way.Base.{
  ℕ, zero, suc, ◌+◌, ◌-◌, ◌*◌, ◌^◌, ◌≤◌, ◌<◌, Option, none, some, List, [], ◌∷◌, ◌≡◌, refl, ap, ◌∙◌,
  arith, Bool-cases, inl, inr, length, length-drop, drop, add64, sub64, ltb,
}
use cpp_the_right_way.Arena.{Platform, Store}
use cpp_the_right_way.Run.{M, Run, ok, pure, ◌>>=◌, Returns, Returns-and, Returns-run, Returns-map}
use cpp_the_right_way.Strings.{number}
use cpp_the_right_way.Fcgi.Parser.State.{Parser, log_write_format}
use cpp_the_right_way.Fcgi.Parser.{parse}
use cpp_the_right_way.Fcgi.Parser.Invariant.{IsParser}
use cpp_the_right_way.Fcgi.Parser.Total.{AreOctets, MeetsLongName}
use cpp_the_right_way.Fcgi.Request.{Request}
use cpp_the_right_way.Fcgi.Request.Safety.{IsRequest, MissesName}
use cpp_the_right_way.Main.Reply.{Writev}
use cpp_the_right_way.Main.Records.{IsWritev}
use cpp_the_right_way.Main.Loop.{
  Turn, Next, go_on, leave, after_parse, parsed_format, parse_rounds, parse_buffer,
}
use cpp_the_right_way.Main.Loop.Held.{
  Held, Onto, IsRequest-weaken, parsed-Returns, after_parse-Onto,
}
use cpp_the_right_way.Main.Loop.Rounds.{Ends, parse_buffer-Ends}
use cpp_the_right_way.Main.Loop.Trouble.{
  Trouble, long_name, null_name, onward, AreOctets-drop, Parsed, parse-Parsed,
}

-- What the loop leaves behind.
abbrev pub Kept : ℕ → ℕ → ℕ → Option Turn → Type 0
Kept limit n b none = Unit {0}
Kept limit n b (some t) = IsRequest limit n b t.request × IsParser t.parser

Kept-weaken :
    (limit n n' b b' : ℕ) (o : Option Turn)
    → n ≤ n'
    → b ≤ b'
    → Kept limit n b o
    → Kept limit n' b' o
Kept-weaken limit n n' b b' none le le' v = tt
Kept-weaken limit n n' b b' (some t) le le' v =
    (IsRequest-weaken limit n n' b b' t.request le le' v.0, v.1)

Held-Kept :
    (limit n b n' b' : ℕ) (r : Request) (p : Parser)
    → n ≤ n'
    → b ≤ b'
    → Held limit n b r p
    → Kept limit n' b' (some (record { request = r; parser = p; sent = none }))
Held-Kept limit n b n' b' r p le le' h =
    (IsRequest-weaken limit h.count n' b b' r (omega (arith, h.bounded)) le' h.request, h.parser)

-- A round that is over, by whether the loop goes on.
by_next :
    (os : Platform) (writev : Writev) (limit n b n' b' fuel : ℕ) (t : Turn) (next : Next)
    (buffer : List ℕ) (now : ℕ) (s : Store)
    → n' ≤ n
    → b' ≤ b
    → (F : Type 0) → (next ≡ go_on → Trouble os writev buffer t.request t.parser now now s → F)
    → (Held limit n' b' t.request t.parser
        → Returns
            (parse_rounds os writev fuel t.request t.parser buffer now now s)
            (Trouble os writev buffer t.request t.parser now now s)
            (Kept limit n b))
    → Onto limit n' b' (t, next)
    → Returns
        (elim next as (λ _. M (Option Turn)) [
          | leave ↦ pure (some t)
          | go_on ↦ parse_rounds os writev fuel t.request t.parser buffer now now
        ]
          s)
        F
        (Kept limit n b)
by_next os writev limit n b n' b' fuel t leave buffer now s le le' F trouble rest o =
    (IsRequest-weaken limit n' n b' b t.request le le' o.0, o.1)
by_next os writev limit n b n' b' fuel t go_on buffer now s le le' F trouble rest o =
    Returns-map (parse_rounds os writev fuel t.request t.parser buffer now now s) _ _ _ _ (rest o)
      (trouble refl) (λ _ k. k)

same_next :
    {r : Run (Turn × Next)} {t : Turn × Next} {s : Store}
    → r ≡ ok t s
    → t.1 ≡ go_on
    → r ≡ ok (t.0, go_on) s
same_next {r} {t} {s} e same = e ∙ ap (λ c. ok (t.0, c) s) same

module _ (os : Platform) (writev : Writev) (limit : ℕ) (buffer : List ℕ) (w : IsWritev writev)
    (small : limit ≤ 2 ^ 57) (octets : AreOctets buffer) (short : length buffer < 2 ^ 40) where
  -- What is left of a round behind the call of the parser, which answers `q`.
  round-Kept :
      (fuel n b n' b' : ℕ) (r : Request) (p : Parser) (bytes_parsed previous : ℕ) (s s₁ : Store)
      (q : Parser × ℕ)
      → parse os p (drop bytes_parsed buffer) s ≡ ok q s₁
      → sub64 (add64 bytes_parsed q.1) previous < 2 ^ 40
      → n' ≤ 2 ^ 54
      → b + 2 ^ 16 < 2 ^ 60
      → n' ≤ n
      → b + 2 ^ 16 ≤ b'
      → Held limit n' b r q.0
      → ((t : Turn) (s' : Store)
          → Held limit n' (b + 2 ^ 16) t.request t.parser
          → Returns
              (parse_rounds os writev fuel t.request t.parser buffer
                (add64 bytes_parsed q.1)
                (add64 bytes_parsed q.1)
                s')
              (Trouble os writev buffer t.request t.parser
                (add64 bytes_parsed q.1)
                (add64 bytes_parsed q.1)
                s')
              (Kept limit n b'))
      → Returns
          ((log_write_format os parsed_format
                (number (sub64 (add64 bytes_parsed q.1) previous) ∷ [])
              >>= (λ _. after_parse os writev r q.0 >>= (λ x. elim x.1 [
                | leave ↦ pure (some x.0)
                | go_on ↦
                    parse_rounds os writev fuel x.0.request x.0.parser buffer
                      (add64 bytes_parsed q.1)
                      (add64 bytes_parsed q.1)
              ])))
            s₁)
          (Trouble os writev buffer r p bytes_parsed previous s)
          (Kept limit n b')
  round-Kept fuel n b n' b' r p bytes_parsed previous s s₁ q e₁ read few room le le' h rest =
      let trouble = Trouble os writev buffer r p bytes_parsed previous s in
      let count = number (sub64 (add64 bytes_parsed q.1) previous) ∷ [] in
      Returns-run (log_write_format os parsed_format count) _ s₁ ⊥ trouble (λ _. Unit {0})
        (Kept limit n b') (parsed-Returns os (sub64 (add64 bytes_parsed q.1) previous) s₁ ⊥ read)
        (λ x. absurd x)
        (λ _ s₂ e₂ _.
          Returns-run (after_parse os writev r q.0) _ s₂
            (MissesName os r.parameters (reverse q.0.params) s₂) trouble
            (Onto limit n' (b + 2 ^ 16)) (Kept limit n b')
            (after_parse-Onto os writev limit n' b r q.0 s₂ w small few (omega arith) h)
            (null_name e₁ e₂)
            (λ x s₃ e₃ o.
              by_next os writev limit n b' n' (b + 2 ^ 16) fuel x.0 x.1 buffer
                (add64 bytes_parsed q.1) s₃ le le' trouble
                (λ same. onward e₁ e₂ (same_next e₃ same)) (rest x.0 s₃) o))

  parse_rounds-Kept :
      (fuel n b : ℕ) (r : Request) (p : Parser) (bytes_parsed previous : ℕ) (s : Store)
      → bytes_parsed ≤ length buffer
      → previous ≤ bytes_parsed
      → n + (length buffer - bytes_parsed) + fuel ≤ 2 ^ 54
      → b + fuel * 2 ^ 16 < 2 ^ 60
      → Held limit n b r p
      → Returns
          (parse_rounds os writev fuel r p buffer bytes_parsed previous s)
          (Trouble os writev buffer r p bytes_parsed previous s)
          (Kept limit (n + (length buffer - bytes_parsed) + fuel) (b + fuel * 2 ^ 16))
  unfolding parse_rounds
  parse_rounds-Kept zero n b r p bytes_parsed previous s within behind few room h = tt
  parse_rounds-Kept (suc fuel) n b r p bytes_parsed previous s within behind few room h =
      let n_end = n + (length buffer - bytes_parsed) + suc fuel in
      let b_end = b + suc fuel * 2 ^ 16 in
      elim (Bool-cases (ltb bytes_parsed (length buffer))) [
        | inr over ↦ rw over (Held-Kept limit n b n_end b_end r p (omega arith) (omega arith) h)
        | inl more ↦ rw more (
            Returns-run (parse os p (drop bytes_parsed buffer)) _ s
              (MeetsLongName os p (drop bytes_parsed buffer) 0 s)
              (Trouble os writev buffer r p bytes_parsed previous s)
              (Parsed p (length (drop bytes_parsed buffer))) (Kept limit n_end b_end)
              (parse-Parsed os p (drop bytes_parsed buffer) s
                (AreOctets-drop bytes_parsed buffer octets) h.parser)
              long_name
              (λ q s₁ e₁ f.
                let size = length-drop bytes_parsed buffer in
                let now : add64 bytes_parsed q.1 ≡ bytes_parsed + q.1 =
                  omega (arith, f.most, size) in
                let held : Held limit (n + q.1 + 1) b r q.0 = record {
                  count = h.count;
                  request = h.request;
                  bounded = omega (arith, h.bounded, f.params);
                  parser = f.parser;
                } in
                round-Kept fuel n_end b (n + q.1 + 1) b_end r p bytes_parsed previous s s₁ q e₁
                  (omega (arith, now, f.most, size)) (omega (arith, f.most, size)) (omega arith)
                  (omega (arith, f.most, size)) (omega arith) held
                  (λ t s' g.
                    Returns-map
                      (parse_rounds os writev fuel t.request t.parser buffer
                        (add64 bytes_parsed q.1) (add64 bytes_parsed q.1) s')
                      _ _ _ _
                      (parse_rounds-Kept fuel (n + q.1 + 1) (b + 2 ^ 16) t.request t.parser
                        (add64 bytes_parsed q.1) (add64 bytes_parsed q.1) s'
                        (omega (arith, now, f.most, size)) (omega arith)
                        (omega (arith, now, f.most, size)) (omega arith) g)
                      (λ trouble. trouble)
                      (λ o.
                        Kept-weaken limit
                          (n + q.1 + 1 + (length buffer - add64 bytes_parsed q.1) + fuel) n_end
                          (b + 2 ^ 16 + fuel * 2 ^ 16) b_end o (omega (arith, now, f.most, size))
                          (omega arith)))))
      ]

-- sl_main_parse_buffer on fewer than 2 ^ 40 octets, where writev answers at most the number of octets
-- that it is given, from a parser whose buffers are as its state says and a request whose table and
-- input are well formed, within the bounds: it returns, with memory or without, keeps both so, and
-- what it gives to writev is the reply of a finished request. Or it makes an undefined access, and
-- then, after some rounds of the loop, the octets up to some point announce a parameter whose name
-- has exactly 48 octets, or there is no memory for the string of a parameter's name.
pub parse_buffer-Kept :
    (os : Platform) (writev : Writev) (limit n b : ℕ) (r : Request) (p : Parser) (buffer : List ℕ)
    (s : Store)
    → IsWritev writev
    → limit ≤ 2 ^ 57
    → AreOctets buffer
    → length buffer < 2 ^ 40
    → n ≤ 2 ^ 53
    → b ≤ 2 ^ 58
    → Held limit n b r p
    → Returns
        (parse_buffer os writev r p buffer s)
        (Trouble os writev buffer r p 0 0 s)
        (λ o. Kept limit (n + 2 * length buffer + 2) (b + (length buffer + 2) * 2 ^ 16) o × Ends o)
unfolding parse_buffer
parse_buffer-Kept os writev limit n b r p buffer s w small octets short few room h =
    Returns-and (parse_buffer os writev r p buffer s) (Trouble os writev buffer r p 0 0 s)
      (Kept limit (n + 2 * length buffer + 2) (b + (length buffer + 2) * 2 ^ 16)) Ends
      (Returns-map (parse_rounds os writev (suc (suc (length buffer))) r p buffer 0 0 s) _ _ _ _
        (parse_rounds-Kept os writev limit buffer w small octets short (suc (suc (length buffer))) n
          b r p 0 0 s (omega arith) (omega arith) (omega arith) (omega arith) h)
        (λ trouble. trouble)
        (λ o.
          Kept-weaken limit (n + (length buffer - 0) + suc (suc (length buffer)))
            (n + 2 * length buffer + 2) (b + suc (suc (length buffer)) * 2 ^ 16)
            (b + (length buffer + 2) * 2 ^ 16) o (omega arith) (omega arith)))
      (parse_buffer-Ends os writev r p buffer s w (omega arith))
