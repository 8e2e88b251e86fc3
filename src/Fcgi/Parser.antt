-- ===== src/Fcgi/Parser.antt =====
-- The parser of sl_fcgi.c: one octet at a time, with the state of sl_fcgi.h.
-- A `continue` of the source's loops enters the switch again at the state that was just set; here
-- it is a call of that state's function.
pub mod State
pub mod Params
pub mod Stdin
pub mod Unpadded
pub mod Progress
pub mod Messages
pub mod Logged
pub mod Invariant
pub mod Stores
pub mod Texts
pub mod Safety
pub mod Content
pub mod Total
pub mod LongName
pub mod Grown
pub mod Counted
pub mod Goal
pub mod Octets
pub mod Pairs
pub mod Lengths
pub mod Decoded
pub mod Roundtrip
use cpp_the_right_way.Base.{ℕ, ◌+◌, List, [], ◌∷◌, ◌<<<◌, ◌==◌, if◌then◌else◌, u16, bit_or}
use cpp_the_right_way.Arena.{Platform}
use cpp_the_right_way.Run.{M, pure, ◌>>=◌}
use State.{
  Header, Begin, Param, ParserState, Parser, version, type, request_id_b1, request_id_b0,
  content_length_b1, content_length_b0, padding_length, padding_reserved, begin_role_b1,
  begin_role_b0, begin_flags, begin_skip5, begin_skip4, begin_skip3, begin_skip2, begin_skip1,
  name_length_b3, name_length_b2, name_length_b1, name_length_b0, value_length_b3, value_length_b2,
  value_length_b1, value_length_b0, name_data, value_data, param_padding, stdin_data, stdin_padding,
  finished, error, in_state,
}
use Params.{parse_params}
use Stdin.{parse_stdin}

unfoldable pub dispatch_type : ℕ → ParserState
dispatch_type t =
    if t == 1
    then begin_role_b1
    else if t == 4
    then name_length_b3
    else if t == 5
    then stdin_data
    else error

abbrev pub with_header : Parser → Header → ParserState → Parser
with_header p h next = record p { header = h; state = next }

-- sl_fcgi_parser_parse_begin_request, by the state
unfoldable pub begin_at : ParserState → Parser → ℕ → Parser
begin_at begin_role_b1 p octet = record p {
  begin = record p.begin { role = u16 (octet <<< 8) };
  state = begin_role_b0;
}
begin_at begin_role_b0 p octet = record p {
  begin = record p.begin { role = u16 (bit_or p.begin.role octet) };
  state = begin_flags;
}
begin_at begin_flags p octet = record p {
  begin = record p.begin { flags = octet };
  state = begin_skip5;
}
begin_at begin_skip5 p octet = in_state p begin_skip4
begin_at begin_skip4 p octet = in_state p begin_skip3
begin_at begin_skip3 p octet = in_state p begin_skip2
begin_at begin_skip2 p octet = in_state p begin_skip1
begin_at begin_skip1 p octet = record p { message_size = 16; state = finished }
begin_at _ p octet = in_state p error

unfoldable pub parse_begin_request : Parser → ℕ → Parser
unfolding begin_at
parse_begin_request p octet = begin_at p.state p octet

-- How the loop of sl_fcgi_parser_parse goes on after an octet: with the next one, by a return that
-- counts the octet, or by a return that leaves it unread.
pub data Verdict : Type 0 where
  go_on return_after return_before : Verdict

-- The last header octet: a record without content is complete.
unfoldable pub end_header : Parser → ℕ → Parser × Verdict
unfolding dispatch_type
end_header p octet =
    let h = record p.header { reserved = octet } in
    if p.header.content_length == 0
    then (with_header p h finished, return_after)
    else (with_header p h (dispatch_type p.header.type), go_on)

-- What follows the two calls: a message that ended, well or not, leaves the octet unread.
unfoldable pub verdict : ParserState → Verdict
verdict finished = return_before
verdict error = return_before
verdict _ = go_on

unfoldable pub judge : Parser → M (Parser × Verdict)
judge p = pure (p, verdict p.state)

-- The kinds of states that the switch of sl_fcgi_parser_parse treats alike.
pub data Kind : Type 0 where
  header_kind begin_kind params_kind stdin_kind ended_kind : Kind

unfoldable pub kind : ParserState → Kind
kind version = header_kind
kind type = header_kind
kind request_id_b1 = header_kind
kind request_id_b0 = header_kind
kind content_length_b1 = header_kind
kind content_length_b0 = header_kind
kind padding_length = header_kind
kind padding_reserved = header_kind
kind begin_role_b1 = begin_kind
kind begin_role_b0 = begin_kind
kind begin_flags = begin_kind
kind begin_skip5 = begin_kind
kind begin_skip4 = begin_kind
kind begin_skip3 = begin_kind
kind begin_skip2 = begin_kind
kind begin_skip1 = begin_kind
kind stdin_data = stdin_kind
kind stdin_padding = stdin_kind
kind finished = ended_kind
kind error = ended_kind
kind _ = params_kind

unfoldable pub header_at : ParserState → Parser → ℕ → Parser × Verdict
unfolding end_header
header_at version p octet = (with_header p (record p.header { version = octet }) type, go_on)
header_at type p octet = (with_header p (record p.header { type = octet }) request_id_b1, go_on)
header_at request_id_b1 p octet =
    (with_header p (record p.header { request_id = u16 (octet <<< 8) }) request_id_b0, go_on)
header_at request_id_b0 p octet = (
  with_header p (record p.header { request_id = u16 (bit_or p.header.request_id octet) })
      content_length_b1,
  go_on,
)
header_at content_length_b1 p octet = (
  with_header p (record p.header { content_length = u16 (octet <<< 8) }) content_length_b0,
  go_on,
)
header_at content_length_b0 p octet = (
  with_header p (record p.header { content_length = u16 (bit_or p.header.content_length octet) })
      padding_length,
  go_on,
)
header_at padding_length p octet =
    (with_header p (record p.header { padding_length = octet }) padding_reserved, go_on)
header_at padding_reserved p octet = end_header p octet
header_at _ p octet = (in_state p error, return_before)

unfoldable pub octet_of_kind : Platform → Kind → Parser → ℕ → M (Parser × Verdict)
unfolding header_at parse_begin_request judge verdict
octet_of_kind os header_kind p octet = pure (header_at p.state p octet)
octet_of_kind os begin_kind p octet = pure (parse_begin_request p octet, go_on)
octet_of_kind os params_kind p octet = do p' ← parse_params os p octet; judge p'
octet_of_kind os stdin_kind p octet = do p' ← parse_stdin os p octet; judge p'
octet_of_kind os ended_kind p octet = pure (p, return_before)

unfoldable pub parse_octet : Platform → Parser → ℕ → M (Parser × Verdict)
unfolding octet_of_kind kind
parse_octet os p octet = octet_of_kind os (kind p.state) p octet

-- The rest of the loop, by the verdict on the octet before.
unfoldable pub proceed : Verdict → Parser → ℕ → M (Parser × ℕ) → M (Parser × ℕ)
proceed go_on p total rest = rest
proceed return_after p total rest = pure (p, total + 1)
proceed return_before p total rest = pure (p, total)

-- sl_fcgi_parser_parse: the parser, and the number of octets read
unfoldable pub parse_from : Platform → Parser → List ℕ → ℕ → M (Parser × ℕ)
unfolding parse_octet proceed
parse_from os p [] total = pure (p, total)
parse_from os p (octet ∷ rest) total = do
  r ← parse_octet os p octet
  proceed r.1 r.0 total (parse_from os r.0 rest (total + 1))

unfoldable pub parse : Platform → Parser → List ℕ → M (Parser × ℕ)
unfolding parse_from
parse os p bytes = parse_from os p bytes 0
