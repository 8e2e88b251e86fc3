-- ===== src/Tests/Request.antt =====
-- The requests of sl_fcgi.c at concrete records.
use cpp_the_right_way.Base.{ℕ, Option, some, List, [], ◌∷◌, ◌≡◌, refl, arith}
use cpp_the_right_way.Run.{Run, ok, Partly}
use cpp_the_right_way.Fcgi.Parser.State.{Parser, ParserState, init}
use cpp_the_right_way.Fcgi.Request.{
  Request, RequestState, begin_type, params_type, stdin_type, in_request_state,
}
use cpp_the_right_way.Fcgi.Request
use cpp_the_right_way.Fcgi.Request.Trace.{process_all, Seen, past, process_all-Seen}
use cpp_the_right_way.Fcgi.Request.Input.{HasInput, input, piece, process_all-input}
use cpp_the_right_way.Tests.Platform.{machine, new_store}

-- A finished parser whose record has a type and no content, with the request's number 7.
abbrev finished_record : ℕ → Parser
finished_record type = record init {
  state = ParserState.finished;
  header = record {
    version = 1;
    type = type;
    request_id = 7;
    content_length = 0;
    padding_length = 0;
    reserved = 0;
  };
}

abbrev records : List Parser
records = finished_record begin_type ∷ finished_record params_type ∷ finished_record stdin_type ∷ []

abbrev state_after : Run Request → Option RequestState
state_after (ok r s) = some r.state
state_after _ = Option.none

run_finishes :
    state_after (process_all machine (Request.init 64) records new_store)
    ≡ some RequestState.finished
unfolding process_all Request.init
run_finishes = refl

process_all-Seen_example :
    Partly (process_all machine (Request.init 64) records new_store) (Seen (past [] records))
process_all-Seen_example = process_all-Seen machine 64 records new_store

-- A record of the input with the content 79, 75.
abbrev stdin_record : Parser
stdin_record = record (finished_record stdin_type) {
  header = record {
    version = 1;
    type = stdin_type;
    request_id = 7;
    content_length = 2;
    padding_length = 0;
    reserved = 0;
  };
  stdin = record { length = 2; data_bytes = some (79 ∷ 75 ∷ []) };
}

abbrev with_input : List Parser
with_input =
    finished_record begin_type ∷ stdin_record ∷ stdin_record ∷ finished_record params_type ∷ []

process_all-input_example :
    Partly
      (process_all machine (Request.init 64) with_input new_store)
      (HasInput (79 ∷ 75 ∷ 79 ∷ 75 ∷ []))
unfolding input piece
process_all-input_example = process_all-input machine 64 with_input new_store (omega arith)
