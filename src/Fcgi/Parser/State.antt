-- ===== src/Fcgi/Parser/State.antt =====
-- The structures of sl_fcgi.h that the parser works on.
use cpp_the_right_way.Base.{ℕ, Option, none, some, List, [], ◌∷◌}
use cpp_the_right_way.Arena.{Platform}
use cpp_the_right_way.Run.{M, pure, attempt, ◌>>=◌}
use cpp_the_right_way.Strings.{Argument, format_buffer}

pub data ParserState : Type 0 where
  version type request_id_b1 request_id_b0 : ParserState
  content_length_b1 content_length_b0 padding_length padding_reserved : ParserState
  begin_role_b1 begin_role_b0 begin_flags : ParserState
  begin_skip5 begin_skip4 begin_skip3 begin_skip2 begin_skip1 : ParserState
  name_length_b3 name_length_b2 name_length_b1 name_length_b0 : ParserState
  value_length_b3 value_length_b2 value_length_b1 value_length_b0 : ParserState
  name_data value_data param_padding : ParserState
  stdin_data stdin_padding : ParserState
  finished error : ParserState

pub record Header : Type 0 where
  pub version : ℕ
  pub type : ℕ
  pub request_id : ℕ
  pub content_length : ℕ
  pub padding_length : ℕ
  pub reserved : ℕ

pub record Begin : Type 0 where
  pub role : ℕ
  pub flags : ℕ

-- `none` is NULL, before the buffer is allocated.
pub record Param : Type 0 where
  pub name_length : ℕ
  pub value_length : ℕ
  pub name : Option (List ℕ)
  pub value : Option (List ℕ)

pub record Stdin : Type 0 where
  pub length : ℕ
  pub data_bytes : Option (List ℕ)

-- `params` is the list between first_param and last_param, the last one first.
pub record Parser : Type 0 where
  pub state : ParserState
  pub read_counter : ℕ
  pub message_size : ℕ
  pub header : Header
  pub begin : Begin
  pub params : List Param
  pub stdin : Stdin

abbrev pub in_state : Parser → ParserState → Parser
in_state p next = record p { state = next }

unfoldable pub init : Parser
init = record {
  state = version;
  read_counter = 0;
  message_size = 0;
  header = record {
    version = 0;
    type = 0;
    request_id = 0;
    content_length = 0;
    padding_length = 0;
    reserved = 0;
  };
  begin = record { role = 0; flags = 0 };
  params = [];
  stdin = record { length = 0; data_bytes = none };
}

-- `parser->last_param`, `none` if it is NULL
unfoldable pub last_param : List Param → Option Param
last_param [] = none
last_param (last ∷ earlier) = some last

-- `*parser->last_param = param`
unfoldable pub set_last : List Param → Param → List Param
set_last [] param = []
set_last (last ∷ earlier) param = param ∷ earlier

-- What a call of sl_log_write_format does to the arena: the message is always formatted, and the
-- level is tested afterwards. What is written is no part of the parser.
unfoldable pub log_write_format : Platform → List ℕ → List Argument → M (Unit {0})
log_write_format os format args = do _ ← attempt (format_buffer os format args); pure tt
