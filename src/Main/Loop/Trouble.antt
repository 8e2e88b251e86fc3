-- ===== src/Main/Loop/Trouble.antt =====
-- sl_main_parse_buffer: a call of the parser in a round of the loop, and what can go wrong in one.
use mathlib.Core.List.{reverse}
use cpp_the_right_way.Base.{
  ℕ, zero, suc, ◌+◌, ◌≤◌, List, [], ◌∷◌, ◌≡◌, arith, length, drop, add64, sub64,
}
use cpp_the_right_way.Arena.{Platform, Store}
use cpp_the_right_way.Run.{ok, Returns, Returns-and, Returns-map}
use cpp_the_right_way.Strings.{number}
use cpp_the_right_way.Fcgi.Parser.State.{Parser, log_write_format}
use cpp_the_right_way.Fcgi.Parser.{parse}
use cpp_the_right_way.Fcgi.Parser.Invariant.{IsParser}
use cpp_the_right_way.Fcgi.Parser.Total.{AreOctets, MeetsLongName, parse-IsParser}
use cpp_the_right_way.Fcgi.Parser.Counted.{Counted, parse-Counted}
use cpp_the_right_way.Fcgi.Parser.Progress.{Progress, parse_from-Progress}
use cpp_the_right_way.Fcgi.Request.{Request}
use cpp_the_right_way.Fcgi.Request.Safety.{MissesName}
use cpp_the_right_way.Main.Reply.{Writev}
use cpp_the_right_way.Main.Loop.{Turn, go_on, after_parse, parsed_format}

-- In a round of the loop the parser meets a name of 48 octets, or there is no memory for the string
-- of a name.
pub data Trouble (os : Platform) (writev : Writev) (buffer : List ℕ)
    : Request → Parser → ℕ → ℕ → Store → Type 0 where
  long_name :
      {r : Request} {p : Parser} {bytes_parsed previous : ℕ} {s : Store}
      → MeetsLongName os p (drop bytes_parsed buffer) 0 s
      → Trouble os writev buffer r p bytes_parsed previous s
  null_name :
      {r : Request} {p p' : Parser} {bytes_parsed previous n : ℕ} {s s₁ s₂ : Store}
      → parse os p (drop bytes_parsed buffer) s ≡ ok (p', n) s₁
      → log_write_format os parsed_format (number (sub64 (add64 bytes_parsed n) previous) ∷ []) s₁
        ≡ ok tt s₂
      → MissesName os r.parameters (reverse p'.params) s₂
      → Trouble os writev buffer r p bytes_parsed previous s
  onward :
      {r : Request} {p p' : Parser} {bytes_parsed previous n : ℕ} {t : Turn} {s s₁ s₂ s₃ : Store}
      → parse os p (drop bytes_parsed buffer) s ≡ ok (p', n) s₁
      → log_write_format os parsed_format (number (sub64 (add64 bytes_parsed n) previous) ∷ []) s₁
        ≡ ok tt s₂
      → after_parse os writev r p' s₂ ≡ ok (t, go_on) s₃
      → Trouble os writev buffer t.request t.parser (add64 bytes_parsed n) (add64 bytes_parsed n) s₃
      → Trouble os writev buffer r p bytes_parsed previous s

pub AreOctets-drop : (n : ℕ) (bytes : List ℕ) → AreOctets bytes → AreOctets (drop n bytes)
AreOctets-drop zero bytes h = h
AreOctets-drop (suc n) [] h = tt
AreOctets-drop (suc n) (c ∷ cs) h = AreOctets-drop n cs h.1

-- What a call of the parser comes to.
pub record Parsed (p : Parser) (more : ℕ) (q : Parser × ℕ) : Type 0 where
  pub parser : IsParser q.0
  pub params : length q.0.params ≤ length p.params + q.1 + 1
  pub most : q.1 ≤ more

pub parse-Parsed :
    (os : Platform) (p : Parser) (bytes : List ℕ) (s : Store)
    → AreOctets bytes
    → IsParser p
    → Returns (parse os p bytes s) (MeetsLongName os p bytes 0 s) (Parsed p (length bytes))
unfolding parse
parse-Parsed os p bytes s octets v =
    Returns-map (parse os p bytes s) _ (MeetsLongName os p bytes 0 s) _ (Parsed p (length bytes))
      (Returns-and (parse os p bytes s) (MeetsLongName os p bytes 0 s) _
        (λ q. Progress 0 (length bytes) q.0 q.1)
        (Returns-and (parse os p bytes s) (MeetsLongName os p bytes 0 s) _ (Counted p 0)
          (parse-IsParser os p bytes s octets v) (parse-Counted os p bytes s))
        (parse_from-Progress os p bytes 0 s))
      (λ f. f)
      (λ q w. record {
        parser = w.0.0;
        params = omega (arith, w.0.1);
        most = omega (arith, w.1.most);
      })
