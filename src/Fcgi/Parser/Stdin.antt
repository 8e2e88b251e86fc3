-- ===== src/Fcgi/Parser/Stdin.antt =====
-- sl_fcgi_parser_parse_stdin
use cpp_the_right_way.Base.{
  ℕ, ◌+◌, Option, none, some, List, [], ◌∷◌, ltb, ◌==◌, if◌then◌else◌, add64, sub64,
}
use cpp_the_right_way.Arena.{Platform}
use cpp_the_right_way.Run.{M, pure, access, attempt, ◌>>=◌, ◌>>◌}
use cpp_the_right_way.Memory.{store_at}
use cpp_the_right_way.Strings.{string, init_with_buffer, allocate_buffer}
use cpp_the_right_way.Fcgi.Parser.State.{
  Parser, ParserState, stdin_data, stdin_padding, finished, error, in_state, log_write_format,
}

-- "FCGI stdin: %S"
abbrev pub stdin_format : List ℕ
stdin_format = 70 ∷ 67 ∷ 71 ∷ 73 ∷ 32 ∷ 115 ∷ 116 ∷ 100 ∷ 105 ∷ 110 ∷ 58 ∷ 32 ∷ 37 ∷ 83 ∷ []

-- STDIN_PADDING: `read_counter-- == 0` takes one also when it finds 0.
unfoldable pub pad_stdin : Parser → Parser
pad_stdin p = record p {
  state = if p.read_counter == 0 then finished else p.state;
  read_counter = sub64 p.read_counter 1;
}

-- The end of the content. Without padding the source sets FINISHED and continues, so that the
-- switch is entered at FINISHED, which is its default case.
unfoldable pub end_stdin : Parser → Parser
unfolding pad_stdin
end_stdin p =
    if ltb 0 p.header.padding_length
    then pad_stdin (record p { read_counter = p.header.padding_length; state = stdin_padding })
    else in_state (in_state p finished) error

-- STDIN_DATA with the buffer in place
unfoldable pub stdin_octet : Platform → Parser → List ℕ → ℕ → M Parser
unfolding end_stdin
stdin_octet os p buffer octet =
    if p.read_counter == 0
    then (do
      ended ← access (store_at buffer p.stdin.length 0)
      log_write_format os stdin_format (string (some (init_with_buffer ended p.stdin.length)) ∷ [])
      pure (end_stdin (record p { stdin = record p.stdin { data_bytes = some ended } })))
    else (do
      stored ← access (store_at buffer (sub64 p.stdin.length p.read_counter) octet)
      pure (record p {
        stdin = record p.stdin { data_bytes = some stored };
        read_counter = sub64 p.read_counter 1;
      }))

-- The parser once the buffer for the content is allocated.
unfoldable pub stdin_started : Parser → List ℕ → Parser
stdin_started p buffer =
    let n = p.header.content_length in
    record p {
      stdin = record { length = n; data_bytes = some buffer };
      read_counter = n;
      message_size = add64 p.message_size n;
    }

unfoldable pub start_stdin : Platform → Parser → ℕ → Option (List ℕ) → M Parser
unfolding stdin_started
start_stdin os p octet none = pure (record p {
  state = error;
  stdin = record { length = p.header.content_length; data_bytes = none };
})
start_stdin os p octet (some buffer) = stdin_octet os (stdin_started p buffer) buffer octet

unfoldable pub stdin_by_data : Platform → Parser → ℕ → Option (List ℕ) → M Parser
unfolding start_stdin
stdin_by_data os p octet (some buffer) = stdin_octet os p buffer octet
stdin_by_data os p octet none = do
  r ← attempt (allocate_buffer os (p.header.content_length + 1))
  start_stdin os p octet r

unfoldable pub stdin_at : ParserState → Platform → Parser → ℕ → M Parser
unfolding stdin_by_data pad_stdin
stdin_at stdin_data os p octet = stdin_by_data os p octet p.stdin.data_bytes
stdin_at stdin_padding os p octet = pure (pad_stdin p)
stdin_at _ os p octet = pure (in_state p error)

unfoldable pub parse_stdin : Platform → Parser → ℕ → M Parser
unfolding stdin_at
parse_stdin os p octet = stdin_at p.state os p octet
