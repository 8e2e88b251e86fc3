-- ===== src/Main/Loop/Rounds.antt =====
-- sl_main_parse_buffer: how often its loop goes round.
use cpp_the_right_way.Base.{
  ℕ, zero, suc, ◌+◌, ◌-◌, ◌^◌, ◌≤◌, ◌<◌, Option, none, some, List, [], ◌∷◌, ◌≡◌, refl, ap, ◌⊎◌, inl,
  inr, arith, false, Bool-cases, ltb, ltb→lt, ltb→le, le→ltb, lt→ltb, length, length-drop, drop,
  add64, sub64,
}
use cpp_the_right_way.Arena.{Platform, Store}
use cpp_the_right_way.Run.{
  M, pure, attempt, attempt-Partly, Safe-Partly, Partly, Partly-bind, Partly-then,
}
use cpp_the_right_way.Strings.{number}
use cpp_the_right_way.Fcgi.Parser.State.{Parser, ParserState, log_write_format}
use cpp_the_right_way.Fcgi.Parser.State
use cpp_the_right_way.Fcgi.Parser.{parse, parse_from, parse_octet, proceed}
use cpp_the_right_way.Fcgi.Parser.Progress.{Progress, parse_from-Progress, IsStopped}
use cpp_the_right_way.Fcgi.Request.{RequestState, Request, is_finished, process}
use cpp_the_right_way.Main.Reply.{Writev, response_octets, execute}
use cpp_the_right_way.Main.Records.{IsWritev}
use cpp_the_right_way.Main.Execute.{reply_text, execute-reply_text}
use cpp_the_right_way.Main.Loop.{
  Turn, Next, go_on, leave, parsed_format, is_error, after_process, after_parse, parse_rounds,
  parse_buffer,
}

-- A parser that has read nothing yet reads at least one of the octets that it is given.
parse-least :
    (os : Platform) (octet : ℕ) (rest : List ℕ) (s : Store)
    → Partly (parse os State.init (octet ∷ rest) s) (λ r. Progress 1 (length rest) r.0 r.1)
unfolding parse parse_from parse_octet proceed State.init
parse-least os octet rest s = parse_from-Progress os _ rest 1 s

-- What is given to writev is the reply of a request that is finished.
abbrev pub Replied : Turn → Type 0
Replied t =
    (t.sent ≡ none)
    ⊎ ((t.request.state ≡ RequestState.finished)
        × (t.sent ≡ some (response_octets t.request.request_id reply_text (length reply_text))))

-- Where the loop goes on, the parser is new or waits for more octets.
abbrev Continues : Parser → Turn × Next → Type 0
Continues p (t, leave) = Replied t
Continues p (t, go_on) = (t.parser ≡ State.init) ⊎ ((t.parser ≡ p) × ¬ IsStopped p.state)

abbrev pub Ends : Option Turn → Type 0
Ends none = ⊥
Ends (some t) = Replied t

not-IsStopped : (c : ParserState) → is_error c ≡ false → is_finished c ≡ false → ¬ IsStopped c
unfolding is_error is_finished
not-IsStopped c e f (inl h) = absurd cc
not-IsStopped c e f (inr h) = absurd cc

after_process-Continues :
    (c : RequestState) (os : Platform) (writev : Writev) (r : Request) (p : Parser) (s : Store)
    → IsWritev writev
    → r.state ≡ c
    → Partly (after_process c os writev r p s) (Continues p)
unfolding after_process
after_process-Continues RequestState.error os writev r p s w e = inl refl
after_process-Continues RequestState.finished os writev r p s w e =
    Partly-bind (attempt (execute os writev r)) _ s
      (λ sent. Replied (record { request = r; parser = p; sent = sent })) (Continues p)
      (attempt-Partly (execute os writev r) s _ _
        (Safe-Partly (execute os writev r s) _ (execute-reply_text os writev r s w)) (inl refl)
        (λ octets h. inr (e, ap some h)))
      (λ sent s' h. h)
after_process-Continues RequestState.begin os writev r p s w e = inl refl
after_process-Continues RequestState.param_or_stdin os writev r p s w e = inl refl
after_process-Continues RequestState.param os writev r p s w e = inl refl
after_process-Continues RequestState.stdin os writev r p s w e = inl refl

after_parse-Continues :
    (os : Platform) (writev : Writev) (r : Request) (p : Parser) (s : Store)
    → IsWritev writev
    → Partly (after_parse os writev r p s) (Continues p)
unfolding after_parse
after_parse-Continues os writev r p s w = elim (Bool-cases (is_error p.state)) [
  | inl failed ↦ rw failed (inl refl)
  | inr fine ↦ elim (Bool-cases (is_finished p.state)) [
    | inl whole ↦
        rw (fine, whole)
          (Partly-then (process os r p) (λ r'. after_process r'.state os writev r' p) s
            (Continues p) (λ r' s'. after_process-Continues r'.state os writev r' p s' w refl))
    | inr partial ↦ rw (fine, partial) (inr (refl, not-IsStopped p.state fine partial))
  ]
]

-- What is left of the buffer behind the octets that are read.
left_of : List ℕ → ℕ → ℕ
left_of buffer bytes_parsed = length buffer - bytes_parsed

-- The loop ends where nothing is left.
parse_rounds_over :
    (os : Platform) (writev : Writev) (fuel : ℕ) (r : Request) (p : Parser) (buffer : List ℕ)
    (bytes_parsed previous : ℕ) (s : Store)
    → length buffer ≤ bytes_parsed
    → Partly (parse_rounds os writev (suc fuel) r p buffer bytes_parsed previous s) Ends
unfolding parse_rounds
parse_rounds_over os writev fuel r p buffer bytes_parsed previous s over =
    rw (le→ltb bytes_parsed (length buffer) over) (inl refl)

-- What a round needs of the rounds behind it: they start with a new parser.
abbrev Onward : Platform → Writev → ℕ → ℕ → List ℕ → ℕ → Type 0
Onward os writev fuel least buffer bytes_parsed =
    (r : Request) (now : ℕ) (s : Store)
    → bytes_parsed + least ≤ now
    → now ≤ length buffer
    → Partly (parse_rounds os writev (suc fuel) r State.init buffer now now s) Ends

by_next :
    (os : Platform) (writev : Writev) (fuel least n : ℕ) (p : Parser) (buffer : List ℕ)
    (bytes_parsed : ℕ) (t : Turn) (next : Next) (s : Store)
    → length buffer < 2 ^ 64
    → least ≤ 1
    → bytes_parsed < length buffer
    → Progress least (length (drop bytes_parsed buffer) - least) p n
    → Onward os writev fuel least buffer bytes_parsed
    → Continues p (t, next)
    → Partly
        (elim next as (λ _. M (Option Turn)) [
          | leave ↦ pure (some t)
          | go_on ↦
              parse_rounds os writev
                (suc fuel)
                t.request
                t.parser
                buffer
                (add64 bytes_parsed n)
                (add64 bytes_parsed n)
        ]
          s)
        Ends
by_next os writev fuel least n p buffer bytes_parsed t leave s small low more f go c = c
by_next os writev fuel least n p buffer bytes_parsed t go_on s small low more f go (inl fresh) =
    let size = length-drop bytes_parsed buffer in
    let now : add64 bytes_parsed n ≡ bytes_parsed + n = omega (arith, f.most, size) in
    rw (fresh, now)
      (go t.request (bytes_parsed + n) s (omega (arith, f.least)) (omega (arith, f.most, size)))
by_next os writev fuel least n p buffer bytes_parsed t go_on s small low more f go
      (inr (e, waits)) =
    let size = length-drop bytes_parsed buffer in
    elim f.stopped [
      | inl whole ↦
          parse_rounds_over os writev fuel t.request t.parser buffer (add64 bytes_parsed n)
            (add64 bytes_parsed n) s (omega (arith, whole, size))
      | inr stops ↦ absurd (waits stops)
    ]

-- One round, by the least number of octets that its call of the parser reads.
parse_rounds_step :
    (os : Platform) (writev : Writev) (fuel least : ℕ) (r : Request) (p : Parser) (buffer : List ℕ)
    (bytes_parsed previous : ℕ) (s : Store)
    → IsWritev writev
    → length buffer < 2 ^ 64
    → least ≤ 1
    → bytes_parsed < length buffer
    → Partly
        (parse os p (drop bytes_parsed buffer) s)
        (λ q. Progress least (length (drop bytes_parsed buffer) - least) q.0 q.1)
    → Onward os writev fuel least buffer bytes_parsed
    → Partly (parse_rounds os writev (suc (suc fuel)) r p buffer bytes_parsed previous s) Ends
unfolding parse_rounds
parse_rounds_step os writev fuel least r p buffer bytes_parsed previous s w small low more read go =
    rw (lt→ltb bytes_parsed (length buffer) more) (
      Partly-bind (parse os p (drop bytes_parsed buffer)) _ s
        (λ q. Progress least (length (drop bytes_parsed buffer) - least) q.0 q.1) Ends read
        (λ q s₁ f.
          Partly-then
            (log_write_format os parsed_format
              (number (sub64 (add64 bytes_parsed q.1) previous) ∷ []))
            _ s₁ Ends
            (λ _ s₂.
              Partly-bind (after_parse os writev r q.0) _ s₂ (Continues q.0) Ends
                (after_parse-Continues os writev r q.0 s₂ w)
                (λ t s₃ c.
                  by_next os writev fuel least q.1 q.0 buffer bytes_parsed t.0 t.1 s₃ small low more
                    f go c))))

parse_at-least :
    (os : Platform) (bytes : List ℕ) (s : Store)
    → 0 < length bytes
    → Partly (parse os State.init bytes s) (λ q. Progress 1 (length bytes - 1) q.0 q.1)
parse_at-least os [] s h = absurd (omega arith)
parse_at-least os (octet ∷ rest) s h =
    let others : suc (length rest) - 1 ≡ length rest = omega arith in
    rw others (parse-least os octet rest s)

parse_any :
    (os : Platform) (p : Parser) (bytes : List ℕ) (s : Store)
    → Partly (parse os p bytes s) (λ q. Progress 0 (length bytes - 0) q.0 q.1)
unfolding parse
parse_any os p bytes s =
    let all : length bytes - 0 ≡ length bytes = omega arith in
    rw all (parse_from-Progress os p bytes 0 s)

-- From a new parser on, each round reads an octet.
parse_rounds_fresh :
    (os : Platform) (writev : Writev) (fuel : ℕ) (r : Request) (buffer : List ℕ)
    (bytes_parsed previous : ℕ) (s : Store)
    → IsWritev writev
    → length buffer < 2 ^ 64
    → bytes_parsed ≤ length buffer
    → length buffer ≤ bytes_parsed + fuel
    → Partly (parse_rounds os writev (suc fuel) r State.init buffer bytes_parsed previous s) Ends
parse_rounds_fresh os writev zero r buffer bytes_parsed previous s w small within room =
    parse_rounds_over os writev zero r State.init buffer bytes_parsed previous s (omega arith)
parse_rounds_fresh os writev (suc fuel) r buffer bytes_parsed previous s w small within room =
    elim (Bool-cases (ltb bytes_parsed (length buffer))) [
      | inl more ↦
          let below = ltb→lt bytes_parsed (length buffer) more in
          parse_rounds_step os writev fuel 1 r State.init buffer bytes_parsed previous s w small
            (omega arith) below
            (parse_at-least os (drop bytes_parsed buffer) s
              (omega (arith, below, length-drop bytes_parsed buffer)))
            (λ r' now s' after le.
              parse_rounds_fresh os writev fuel r' buffer now now s' w small le (omega arith))
      | inr over ↦
          parse_rounds_over os writev (suc fuel) r State.init buffer bytes_parsed previous s
            (ltb→le bytes_parsed (length buffer) over)
    ]

-- sl_main_parse_buffer on fewer than 2 ^ 64 octets, from any request and parser, where writev answers
-- at most the number of octets that it is given: its loop tests its condition at most as often as
-- there are octets, and two times more. If it gives octets to writev at all, then once and with
-- success they are the three records of the reply, under the number of the request, which is in its
-- finished state.
pub parse_buffer-Ends :
    (os : Platform) (writev : Writev) (r : Request) (p : Parser) (buffer : List ℕ) (s : Store)
    → IsWritev writev
    → length buffer < 2 ^ 64
    → Partly (parse_buffer os writev r p buffer s) Ends
unfolding parse_buffer
parse_buffer-Ends os writev r p buffer s w small = elim (Bool-cases (ltb 0 (length buffer))) [
  | inl more ↦
      parse_rounds_step os writev (length buffer) 0 r p buffer 0 0 s w small (omega arith)
        (ltb→lt 0 (length buffer) more) (parse_any os p (drop 0 buffer) s)
        (λ r' now s' after le.
          parse_rounds_fresh os writev (length buffer) r' buffer now now s' w small le
            (omega arith))
  | inr over ↦
      parse_rounds_over os writev (suc (length buffer)) r p buffer 0 0 s
        (ltb→le 0 (length buffer) over)
]
