-- ===== src/Fcgi/Response.antt =====
-- sl_fcgi_response_*: the headers and the output of a response, and the text that they make.
pub mod Text
pub mod Process
use cpp_the_right_way.Base.{ℕ, Option, some, List, [], ◌∷◌, true}
use cpp_the_right_way.Arena.{Platform}
use cpp_the_right_way.Run.{M, pure, allocate_or_fail, ◌>>=◌}
use cpp_the_right_way.Strings.{
  SlString, sizeof_string, string, format_buffer, append_with_buffer, append_with_string,
}
use cpp_the_right_way.HashTable.{HashTable, Bucket, Status, set_key, init as table_init}
use cpp_the_right_way.Fcgi.Request.{zero_string}

pub record Response : Type 0 where
  pub headers : HashTable
  pub stdout : SlString

unfoldable pub init : ℕ → Response
init header_hashtable_size = record {
  headers = table_init header_hashtable_size true;
  stdout = zero_string;
}

unfoldable pub append_header :
    Platform → Response → SlString → Option SlString → M (Status × Response)
append_header os r name value = do
  t ← set_key os r.headers name value
  pure (t.0, record r { headers = t.1 })

unfoldable pub append_output : Platform → Response → SlString → M Response
append_output os r output = do
  t ← append_with_string os r.stdout output
  pure (record r { stdout = t })

-- "%S: %S\r\n"
abbrev pub header_format : List ℕ
header_format = b'%' ∷ b'S' ∷ b':' ∷ b' ' ∷ b'%' ∷ b'S' ∷ 13 ∷ 10 ∷ []

abbrev pub line_end : List ℕ
line_end = 13 ∷ 10 ∷ []

-- One round of the inner loop of sl_fcgi_response_process.
unfoldable pub append_node : Platform → Bucket → SlString → M SlString
append_node os node output = do
  header ← format_buffer os header_format (string (some node.key) ∷ string node.value ∷ [])
  append_with_string os output header

-- The loop over one chain, and the loop over the array.
unfoldable pub append_chain : Platform → List Bucket → SlString → M SlString
append_chain os [] output = pure output
append_chain os (node ∷ nodes) output = do
  output' ← append_node os node output
  append_chain os nodes output'

unfoldable pub append_chains : Platform → List (List Bucket) → SlString → M SlString
append_chains os [] output = pure output
append_chains os (chain ∷ chains) output = do
  output' ← append_chain os chain output
  append_chains os chains output'

unfoldable pub process : Platform → Response → M SlString
process os r = do
  _ ← allocate_or_fail os sizeof_string
  headers ← append_chains os r.headers.buckets zero_string
  ended ← append_with_buffer os headers line_end
  append_with_string os ended r.stdout
