-- ===== src/Tests/Fcgi.antt =====
-- The parser of sl_fcgi.c at concrete records.
use cpp_the_right_way.Base.{List, length, ◌≤◌, ◌<◌, ℕ, ◌+◌, ◌*◌, [], ◌∷◌, ◌≡◌, ◌⊎◌, refl, arith}
use cpp_the_right_way.Run.{Run, ok}
use cpp_the_right_way.Arena.{
  Store, allocate, allocate_in, allocate_new, allocate_from_block, create_block, block_size,
}
use cpp_the_right_way.Memory.{junk_bytes, store_at}
use cpp_the_right_way.Strings.{allocate_buffer}
use cpp_the_right_way.Run.{allocate_or_fail}
use cpp_the_right_way.Fcgi.Parser.State.{Parser, init, begin_role_b1, stdin_data, finished, error}
use cpp_the_right_way.Fcgi.Parser.{parse}
use cpp_the_right_way.Fcgi.Parser.Stdin.{parse_stdin, stdin_octet}
use cpp_the_right_way.Fcgi.Parser.Messages.{
  Octets, wire, AreOctets, decoded, StartsAt, header_result, parse_header-StartsAt, parse_begin_lem,
}
use cpp_the_right_way.Fcgi.Parser.Progress.{IsStopped, parse_progress}
use cpp_the_right_way.Fcgi.Parser.Unpadded.{unpadded_stdin_unfinished}
use cpp_the_right_way.Tests.Platform.{machine, new_store}

-- The header of a begin record of request 258, with 8 octets of content.
abbrev begin_header : Octets
begin_header = record {
  version = 1;
  type = 1;
  id_hi = 1;
  id_lo = 2;
  length_hi = 0;
  length_lo = 8;
  padding = 0;
  reserved = 0;
}

begin_header-AreOctets : AreOctets begin_header
begin_header-AreOctets = omega arith

parse_header-StartsAt_example :
    parse machine init (wire begin_header (0 ∷ 1 ∷ [])) new_store
    ≡ header_result begin_role_b1 machine
        (record init { header = decoded begin_header; state = begin_role_b1 })
        (0 ∷ 1 ∷ [])
        new_store
parse_header-StartsAt_example =
    parse_header-StartsAt machine begin_header begin_role_b1 (0 ∷ 1 ∷ []) new_store
      begin_header-AreOctets (StartsAt.begin_request refl (omega arith))

abbrev begun_octets : List ℕ
begun_octets = wire begin_header (0 ∷ 1 ∷ 1 ∷ 0 ∷ 0 ∷ 0 ∷ 0 ∷ 0 ∷ 1 ∷ [])

parse_begin_lem_example :
    parse machine init (wire begin_header (0 ∷ 1 ∷ 1 ∷ 0 ∷ 0 ∷ 0 ∷ 0 ∷ 0 ∷ 1 ∷ [])) new_store
    ≡ ok
        (
          record init {
            header = decoded begin_header;
            begin = record { role = 0 * 256 + 1; flags = 1 };
            message_size = 16;
            state = finished;
          },
          16,
        )
        new_store
parse_begin_lem_example =
    parse_begin_lem machine begin_header 0 1 1 0 0 0 0 0 (1 ∷ []) new_store begin_header-AreOctets
      refl (omega arith) (omega arith) (omega arith)

abbrev begun : Parser
begun = record init {
  header = decoded begin_header;
  begin = record { role = 0 * 256 + 1; flags = 1 };
  message_size = 16;
  state = finished;
}

parse_progress_example :
    (16 ≤ length begun_octets) × (16 < length begun_octets → IsStopped begun.state)
parse_progress_example =
    parse_progress machine init begun begun_octets 16 new_store new_store parse_begin_lem_example

-- A parser at the first content octet of an unpadded STDIN record of 1 octet.
abbrev at_stdin : Parser
unfolding init
at_stdin = record init {
  state = stdin_data;
  header = record {
    version = 1;
    type = 5;
    request_id = 1;
    content_length = 1;
    padding_length = 0;
    reserved = 0;
  };
}

abbrev parsed_of : Run (Parser × ℕ) → Parser
parsed_of (ok r s) = r.0
parsed_of _ = at_stdin

abbrev store_of : Run (Parser × ℕ) → Store
store_of (ok r s) = s
store_of _ = new_store

abbrev content_only : Run (Parser × ℕ)
unfolding parse allocate_buffer allocate_or_fail allocate allocate_in allocate_new
    allocate_from_block create_block block_size junk_bytes store_at init parse_stdin stdin_octet
content_only = parse machine at_stdin (97 ∷ []) new_store

content_only_runs :
    parse machine at_stdin (97 ∷ []) new_store
    ≡ ok (parsed_of content_only, 1) (store_of content_only)
unfolding parse allocate_buffer allocate_or_fail allocate allocate_in allocate_new
    allocate_from_block create_block block_size junk_bytes store_at init parse_stdin stdin_octet
content_only_runs = refl

unpadded_stdin_unfinished_example :
    ((parsed_of content_only).state ≡ stdin_data) ⊎ ((parsed_of content_only).state ≡ error)
unfolding init
unpadded_stdin_unfinished_example =
    unpadded_stdin_unfinished machine at_stdin (parsed_of content_only) (97 ∷ []) 1 new_store
      (store_of content_only) refl refl content_only_runs
