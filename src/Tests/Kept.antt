-- ===== src/Tests/Kept.antt =====
-- Requests and the loop of sl_main_parse_buffer, on a record with the parameter A=B.
use mathlib.Core.List.{reverse}
use cpp_the_right_way.Base.{true, ◌+◌, ◌*◌, ◌^◌, none, some, [], ◌∷◌, ◌≡◌, refl, arith, length, inl}
use cpp_the_right_way.Arena.{
  Platform, allocate, allocate_in, allocate_new, create_block, block_size,
}
use cpp_the_right_way.Run.{fault, Returns, allocate_or_fail}
use cpp_the_right_way.Strings.{create_from_buffer}
use cpp_the_right_way.HashTable.{HashTable}
use cpp_the_right_way.HashTable.First.{init-IsFresh}
use cpp_the_right_way.Fcgi.Parser.State.{Parser, ParserState, Param}
use cpp_the_right_way.Fcgi.Parser.State
use cpp_the_right_way.Fcgi.Parser.Invariant.{IsParser}
use cpp_the_right_way.Fcgi.Request.{Request, RequestState, process, append_one}
use cpp_the_right_way.Fcgi.Request
use cpp_the_right_way.Fcgi.Request.Kept.{LacksName}
use cpp_the_right_way.Fcgi.Request.NullName.{null_name_faults}
use cpp_the_right_way.Fcgi.Request.Safety.{IsRequest, MissesName, process-IsRequest}
use cpp_the_right_way.Main.Loop.{parse_buffer}
use cpp_the_right_way.Main.Loop.Held.{init-Held}
use cpp_the_right_way.Main.Loop.Trouble.{Trouble}
use cpp_the_right_way.Main.Loop.Total.{Kept, parse_buffer-Kept}
use cpp_the_right_way.Main.Loop.Rounds.{Ends}
use cpp_the_right_way.Tests.Platform.{machine, new_store}
use cpp_the_right_way.Tests.Main.{sends_all, sends_all-IsWritev}
use cpp_the_right_way.Tests.Parser.{one_param}

-- The parameter A=B, with the terminators of its name and its value.
abbrev a_is_b : Param
a_is_b = record {
  name_length = 1;
  value_length = 1;
  name = some (65 ∷ 0 ∷ []);
  value = some (66 ∷ 0 ∷ []);
}

abbrev param_record : Parser
unfolding State.init
param_record = record State.init {
  state = ParserState.finished;
  header = record {
    version = 1;
    type = 4;
    request_id = 7;
    content_length = 4;
    padding_length = 4;
    reserved = 0;
  };
  params = a_is_b ∷ [];
}

param_record-IsParser : IsParser param_record
unfolding State.init
param_record-IsParser = record {
  content = omega arith;
  buffers = ((((omega arith, omega arith), refl, refl), tt), inl (refl, refl));
}

abbrev begun_request : Request
unfolding Request.init
begun_request = record (Request.init 64) { state = RequestState.param_or_stdin }

begun_request-IsRequest : IsRequest 256 0 0 begun_request
unfolding Request.init
begun_request-IsRequest = record {
  table = inl (init-IsFresh 64 true (omega arith) (omega arith));
  text = record { within = omega arith; whole = omega arith };
  short = omega arith;
}

process-IsRequest_example :
    Returns
      (process machine begun_request param_record new_store)
      (MissesName machine begun_request.parameters (reverse param_record.params) new_store)
      (IsRequest 256 (0 + length param_record.params) (0 + 2 ^ 16))
unfolding param_record
process-IsRequest_example =
    process-IsRequest machine 256 0 0 begun_request param_record new_store (omega arith)
      (omega arith) (omega arith) begun_request-IsRequest param_record-IsParser

-- No call of malloc is answered.
abbrev full_machine : Platform
full_machine = record { malloc = λ k n. none; junk = λ k i. 170 }

abbrev empty_table : HashTable
empty_table = record {
  buckets = [] ∷ [] ∷ [];
  resize = true;
  preallocate = 2;
  size = 2;
  count = 0;
  resizes = 0;
  wasted = 0;
}

a_is_b-LacksName : LacksName full_machine a_is_b new_store
unfolding create_from_buffer allocate_or_fail allocate allocate_in allocate_new create_block
    block_size
a_is_b-LacksName = (record new_store { mallocs = 1 }, refl)

null_name_faults_example : append_one full_machine empty_table a_is_b new_store ≡ fault
null_name_faults_example =
    null_name_faults full_machine empty_table a_is_b new_store (omega arith)
      ((omega arith, omega arith), refl, refl) a_is_b-LacksName

parse_buffer-Kept_example :
    Returns
      (parse_buffer machine sends_all (Request.init 64) State.init one_param new_store)
      (Trouble machine sends_all one_param (Request.init 64) State.init 0 0 new_store)
      (λ o.
        Kept 256 (0 + 2 * length one_param + 2) (0 + (length one_param + 2) * 2 ^ 16) o × Ends o)
parse_buffer-Kept_example =
    parse_buffer-Kept machine sends_all 256 0 0 (Request.init 64) State.init one_param new_store
      sends_all-IsWritev (omega arith) (ground arith) (omega arith) (omega arith) (omega arith)
      (init-Held 64 (omega arith) (omega arith))
