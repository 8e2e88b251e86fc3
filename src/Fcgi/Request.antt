-- ===== src/Fcgi/Request.antt =====
-- sl_fcgi_request_*: a request is put together from the records that the parser has finished.
pub mod Trace
pub mod Input
pub mod Kept
pub mod Safety
pub mod NullName
use mathlib.Core.List.{reverse}
use cpp_the_right_way.Base.{
  ℕ, Option, none, some, List, [], ◌∷◌, Bool, true, false, ◌==◌, if◌then◌else◌,
}
use cpp_the_right_way.Arena.{Platform}
use cpp_the_right_way.Run.{M, pure, access, attempt, ◌>>=◌}
use cpp_the_right_way.Memory.{read_bytes}
use cpp_the_right_way.Strings.{SlString, create_from_buffer, append_with_buffer}
use cpp_the_right_way.HashTable.{
  HashTable, Status, done, minus_one, allocate_table, set_key, init as table_init,
}
use cpp_the_right_way.Fcgi.Parser.State.{Parser, ParserState, Param}

pub data RequestState : Type 0 where
  begin param_or_stdin param stdin : RequestState
  finished error : RequestState

pub record Request : Type 0 where
  pub state : RequestState
  pub request_id : ℕ
  pub flags : ℕ
  pub parameters : HashTable
  pub stdin : SlString

abbrev pub begin_type : ℕ
begin_type = 1

abbrev pub params_type : ℕ
params_type = 4

abbrev pub stdin_type : ℕ
stdin_type = 5

-- `(sl_string) {0}`
abbrev pub zero_string : SlString
zero_string = record { allocated = 0; length = 0; buffer = [] }

abbrev pub in_request_state : Request → RequestState → Request
in_request_state r next = record r { state = next }

unfoldable pub init : ℕ → Request
init param_hashtable_size = record {
  state = begin;
  request_id = 0;
  flags = 0;
  parameters = table_init param_hashtable_size true;
  stdin = zero_string;
}

-- `n` bytes behind a pointer, of which none are read if `n` is 0.
unfoldable pub pointed : Option (List ℕ) → ℕ → Option (List ℕ)
pointed (some buffer) n = read_bytes buffer n
pointed none n = if n == 0 then some [] else none

-- sl_hashtable_set with a key that may be NULL: the key is read once there is an array.
unfoldable pub set_pointer :
    Platform → HashTable → Option SlString → Option SlString → M (Status × HashTable)
set_pointer os t (some key) value = set_key os t key value
set_pointer os t none value = do
  r ← if t.size == 0 then allocate_table os t t.preallocate else pure (done, t)
  elim r.0 [ minus_one ↦ pure r | done ↦ access none ]

-- One round of the loop of sl_fcgi_request_append_param. NULL from either creation, and the code
-- that is returned, are ignored.
unfoldable pub append_one : Platform → HashTable → Param → M HashTable
append_one os t parameter = do
  name_bytes ← access (pointed parameter.name parameter.name_length)
  name ← attempt (create_from_buffer os name_bytes parameter.name_length)
  value_bytes ← access (pointed parameter.value parameter.value_length)
  value ← attempt (create_from_buffer os value_bytes parameter.value_length)
  r ← set_pointer os t name value
  pure r.1

unfoldable pub append_all : Platform → HashTable → List Param → M HashTable
append_all os t [] = pure t
append_all os t (parameter ∷ rest) = do t' ← append_one os t parameter; append_all os t' rest

-- The list goes from first_param on.
unfoldable pub append_param : Platform → Request → Parser → M Request
append_param os r p = do
  t ← append_all os r.parameters (reverse p.params)
  pure (record r { parameters = t })

-- The end of sl_fcgi_request_append_stdin, by the answer of the call.
unfoldable pub stdin_appended : Request → Option SlString → Request
stdin_appended r none = in_request_state r error
stdin_appended r (some t) = record r { stdin = t }

unfoldable pub append_stdin : Platform → Request → Parser → M Request
unfolding stdin_appended
append_stdin os r p = if p.stdin.length == 0 then pure r else (do
  bytes ← access (pointed p.stdin.data_bytes p.stdin.length)
  t ← attempt (append_with_buffer os r.stdin bytes)
  pure (stdin_appended r t))

-- The switch of sl_fcgi_request_process, by the state of the request.
unfoldable pub process_at : RequestState → Platform → Request → Parser → M Request
process_at begin os r p =
    if p.header.type == begin_type
    then pure (record r {
      flags = p.begin.flags;
      request_id = p.header.request_id;
      state = param_or_stdin;
    })
    else pure (in_request_state r error)
process_at param_or_stdin os r p =
    if p.header.type == params_type
    then (if p.header.content_length == 0
        then pure (in_request_state r stdin)
        else append_param os r p)
    else if p.header.type == stdin_type
    then (if p.header.content_length == 0
        then pure (in_request_state r param)
        else append_stdin os r p)
    else pure (in_request_state r error)
process_at param os r p =
    if p.header.type == params_type
    then (if p.header.content_length == 0
        then pure (in_request_state r finished)
        else append_param os r p)
    else pure (in_request_state r error)
process_at stdin os r p =
    if p.header.type == stdin_type
    then (if p.header.content_length == 0
        then pure (in_request_state r finished)
        else append_stdin os r p)
    else pure (in_request_state r error)
process_at finished os r p = pure (in_request_state r error)
process_at error os r p = pure r

unfoldable pub is_finished : ParserState → Bool
is_finished ParserState.finished = true
is_finished _ = false

unfoldable pub process : Platform → Request → Parser → M Request
unfolding process_at is_finished
process os r p =
    if is_finished p.state then process_at r.state os r p else pure (in_request_state r error)
