-- ===== src/Main/Loop.antt =====
-- sl_main_parse_buffer: the octets of one read, taken apart into records.
pub mod Rounds
pub mod Held
pub mod Trouble
pub mod Total
use cpp_the_right_way.Base.{
  ℕ, zero, suc, ◌+◌, Option, none, some, List, [], ◌∷◌, Bool, true, false, if◌then◌else◌, ltb,
  length, drop, add64, sub64,
}
use cpp_the_right_way.Arena.{Platform}
use cpp_the_right_way.Run.{M, pure, attempt, ◌>>=◌, ◌>>◌}
use cpp_the_right_way.Strings.{number}
use cpp_the_right_way.Fcgi.Parser.State.{Parser, ParserState, log_write_format}
use cpp_the_right_way.Fcgi.Parser.State
use cpp_the_right_way.Fcgi.Parser.{parse}
use cpp_the_right_way.Fcgi.Request.{RequestState, Request, is_finished, process}
use cpp_the_right_way.Main.Reply.{Writev, execute}

-- What a call has done: the request, the parser, and what was given to writev, if a reply was.
pub record Turn : Type 0 where
  pub request : Request
  pub parser : Parser
  pub sent : Option (List ℕ)

-- `leave` is a break.
pub data Next : Type 0 where
  go_on leave : Next

-- "Parsed %z bytes"
abbrev pub parsed_format : List ℕ
parsed_format =
    80 ∷ 97 ∷ 114 ∷ 115 ∷ 101 ∷ 100 ∷ 32 ∷ 37 ∷ 122 ∷ 32 ∷ 98 ∷ 121 ∷ 116 ∷ 101 ∷ 115 ∷ []

unfoldable pub is_error : ParserState → Bool
is_error ParserState.error = true
is_error _ = false

-- What follows sl_fcgi_request_process, by the state of the request.
unfoldable pub after_process : RequestState → Platform → Writev → Request → Parser → M (Turn × Next)
after_process RequestState.error os writev r p =
    pure (record { request = r; parser = p; sent = none }, leave)
after_process RequestState.finished os writev r p = do
  sent ← attempt (execute os writev r)
  pure (record { request = r; parser = p; sent = sent }, leave)
after_process _ os writev r p =
    pure (record { request = r; parser = State.init; sent = none }, go_on)

-- The body of the loop, behind the call of the parser.
unfoldable pub after_parse : Platform → Writev → Request → Parser → M (Turn × Next)
unfolding after_process is_error is_finished
after_parse os writev r p =
    if is_error p.state
    then pure (record { request = r; parser = p; sent = none }, leave)
    else if is_finished p.state
    then (do r' ← process os r p; after_process r'.state os writev r' p)
    else pure (record { request = r; parser = p; sent = none }, go_on)

-- The loop, on at most `fuel` tests of its condition: `none` if they do not suffice.
unfoldable pub parse_rounds :
    Platform → Writev → ℕ → Request → Parser → List ℕ → ℕ → ℕ → M (Option Turn)
unfolding after_parse
parse_rounds os writev zero r p buffer bytes_parsed previous = pure none
parse_rounds os writev (suc fuel) r p buffer bytes_parsed previous =
    if ltb bytes_parsed (length buffer)
    then (do
      (p', n) ← parse os p (drop bytes_parsed buffer)
      let now = add64 bytes_parsed n
      _ ← log_write_format os parsed_format (number (sub64 now previous) ∷ [])
      (t, next) ← after_parse os writev r p'
      elim next [
        | leave ↦ pure (some t)
        | go_on ↦ parse_rounds os writev fuel t.request t.parser buffer now now
      ])
    else pure (some (record { request = r; parser = p; sent = none }))

-- How much fuel is given.
abbrev pub enough : List ℕ → ℕ
enough buffer = suc (suc (length buffer))

unfoldable pub parse_buffer : Platform → Writev → Request → Parser → List ℕ → M (Option Turn)
unfolding parse_rounds
parse_buffer os writev r p buffer = parse_rounds os writev (enough buffer) r p buffer 0 0
