-- ===== src/Tests/Run.antt =====
-- A whole request, from its octets to its reply.
use cpp_the_right_way.Base.{ℕ, Option, none, some, List, [], ◌∷◌, ◌≡◌, refl, length}
use cpp_the_right_way.Run.{Run, ok}
use cpp_the_right_way.Fcgi.Parser.State
use cpp_the_right_way.Fcgi.Request
use cpp_the_right_way.Main.Reply.{response_octets}
use cpp_the_right_way.Main.Execute.{reply_text}
use cpp_the_right_way.Main.Loop.{Turn, parse_buffer}
use cpp_the_right_way.Tests.Platform.{machine, new_store}
use cpp_the_right_way.Tests.Main.{sends_all}

-- Request number 7: a begin record, no parameters, and no input.
abbrev request_octets : List ℕ
request_octets =
    1 ∷ 1 ∷ 0 ∷ 7 ∷ 0 ∷ 8 ∷ 0 ∷ 0 ∷ 0 ∷ 1 ∷ 0 ∷ 0 ∷ 0 ∷ 0 ∷ 0 ∷ 0 ∷ 1 ∷ 4 ∷ 0 ∷ 7 ∷ 0 ∷ 0 ∷ 0 ∷ 0
    ∷ 1 ∷ 5 ∷ 0 ∷ 7 ∷ 0 ∷ 0 ∷ 0 ∷ 0 ∷ []

abbrev sent_by : Run (Option Turn) → Option (List ℕ)
sent_by (ok (some t) s) = t.sent
sent_by _ = none

reply_sent :
    sent_by (parse_buffer machine sends_all (Request.init 64) State.init request_octets new_store)
    ≡ some (response_octets 7 reply_text (length reply_text))
unfolding cpp_the_right_way.Arena.pow2_size cpp_the_right_way.Arena.create_block
    cpp_the_right_way.Arena.allocate_from_block cpp_the_right_way.Arena.init
    cpp_the_right_way.Arena.allocate_in cpp_the_right_way.Arena.block_size
    cpp_the_right_way.Arena.link_block cpp_the_right_way.Arena.count_allocation
    cpp_the_right_way.Arena.allocate_new cpp_the_right_way.Arena.allocate
    cpp_the_right_way.Memory.read_bytes cpp_the_right_way.Memory.store_at
    cpp_the_right_way.Memory.memcpy cpp_the_right_way.Memory.memset
    cpp_the_right_way.Memory.junk_bytes cpp_the_right_way.Run.allocate_or_fail
    cpp_the_right_way.Strings.allocate_buffer cpp_the_right_way.Strings.init_with_buffer
    cpp_the_right_way.Strings.init_with_cstring cpp_the_right_way.Strings.fill_created
    cpp_the_right_way.Strings.create_from_buffer cpp_the_right_way.Strings.create_with_buffer
    cpp_the_right_way.Strings.fill_moved cpp_the_right_way.Strings.append_moving
    cpp_the_right_way.Strings.append_with_buffer cpp_the_right_way.Strings.create_from_string
    cpp_the_right_way.Strings.create_with_string cpp_the_right_way.Strings.append_with_string
    cpp_the_right_way.Strings.itoa_fill cpp_the_right_way.Strings.itoa_move
    cpp_the_right_way.Strings.itoa cpp_the_right_way.Strings.put_char
    cpp_the_right_way.Strings.append_number cpp_the_right_way.Strings.number_directive
    cpp_the_right_way.Strings.cstring_directive cpp_the_right_way.Strings.string_directive
    cpp_the_right_way.Strings.append_argument cpp_the_right_way.Strings.format_loop
    cpp_the_right_way.Strings.format_buffer cpp_the_right_way.HashTable.same_bytes
    cpp_the_right_way.HashTable.are_keys_equal cpp_the_right_way.HashTable.widen_char
    cpp_the_right_way.HashTable.hash_bytes cpp_the_right_way.HashTable.compute_hash
    cpp_the_right_way.HashTable.create_bucket cpp_the_right_way.HashTable.null_buckets
    cpp_the_right_way.HashTable.link_moved cpp_the_right_way.HashTable.move_node
    cpp_the_right_way.HashTable.unless_stopped cpp_the_right_way.HashTable.move_chain
    cpp_the_right_way.HashTable.move_chains cpp_the_right_way.HashTable.finish_resize
    cpp_the_right_way.HashTable.fill_resized cpp_the_right_way.HashTable.unless_missing
    cpp_the_right_way.HashTable.first_size cpp_the_right_way.HashTable.fill_first
    cpp_the_right_way.HashTable.allocate_table cpp_the_right_way.HashTable.needs_resize
    cpp_the_right_way.HashTable.init cpp_the_right_way.HashTable.is_match
    cpp_the_right_way.HashTable.replace cpp_the_right_way.HashTable.grow
    cpp_the_right_way.HashTable.link_node cpp_the_right_way.HashTable.grow_linked
    cpp_the_right_way.HashTable.add_node cpp_the_right_way.HashTable.write_or_add
    cpp_the_right_way.HashTable.set_in cpp_the_right_way.HashTable.set_after
    cpp_the_right_way.HashTable.set_key cpp_the_right_way.Fcgi.Parser.State.init
    cpp_the_right_way.Fcgi.Parser.State.last_param cpp_the_right_way.Fcgi.Parser.State.set_last
    cpp_the_right_way.Fcgi.Parser.State.log_write_format
    cpp_the_right_way.Fcgi.Parser.Params.link_param
    cpp_the_right_way.Fcgi.Parser.Params.first_name_length
    cpp_the_right_way.Fcgi.Parser.Params.first_value_length
    cpp_the_right_way.Fcgi.Parser.Params.param_allocated
    cpp_the_right_way.Fcgi.Parser.Params.start_param cpp_the_right_way.Fcgi.Parser.Params.pad_params
    cpp_the_right_way.Fcgi.Parser.Params.end_value cpp_the_right_way.Fcgi.Parser.Params.value_octet
    cpp_the_right_way.Fcgi.Parser.Params.value_allocated
    cpp_the_right_way.Fcgi.Parser.Params.value_by_buffer
    cpp_the_right_way.Fcgi.Parser.Params.parse_value cpp_the_right_way.Fcgi.Parser.Params.name_octet
    cpp_the_right_way.Fcgi.Parser.Params.name_allocated
    cpp_the_right_way.Fcgi.Parser.Params.name_by_buffer
    cpp_the_right_way.Fcgi.Parser.Params.parse_name cpp_the_right_way.Fcgi.Parser.Params.change_last
    cpp_the_right_way.Fcgi.Parser.Params.params_at cpp_the_right_way.Fcgi.Parser.Params.parse_params
    cpp_the_right_way.Fcgi.Parser.Stdin.pad_stdin cpp_the_right_way.Fcgi.Parser.Stdin.end_stdin
    cpp_the_right_way.Fcgi.Parser.Stdin.stdin_octet
    cpp_the_right_way.Fcgi.Parser.Stdin.stdin_started
    cpp_the_right_way.Fcgi.Parser.Stdin.start_stdin
    cpp_the_right_way.Fcgi.Parser.Stdin.stdin_by_data cpp_the_right_way.Fcgi.Parser.Stdin.stdin_at
    cpp_the_right_way.Fcgi.Parser.Stdin.parse_stdin cpp_the_right_way.Fcgi.Parser.dispatch_type
    cpp_the_right_way.Fcgi.Parser.begin_at cpp_the_right_way.Fcgi.Parser.parse_begin_request
    cpp_the_right_way.Fcgi.Parser.end_header cpp_the_right_way.Fcgi.Parser.verdict
    cpp_the_right_way.Fcgi.Parser.judge cpp_the_right_way.Fcgi.Parser.kind
    cpp_the_right_way.Fcgi.Parser.header_at cpp_the_right_way.Fcgi.Parser.octet_of_kind
    cpp_the_right_way.Fcgi.Parser.parse_octet cpp_the_right_way.Fcgi.Parser.proceed
    cpp_the_right_way.Fcgi.Parser.parse_from cpp_the_right_way.Fcgi.Parser.parse
    cpp_the_right_way.Fcgi.Request.init cpp_the_right_way.Fcgi.Request.pointed
    cpp_the_right_way.Fcgi.Request.set_pointer cpp_the_right_way.Fcgi.Request.append_one
    cpp_the_right_way.Fcgi.Request.append_all cpp_the_right_way.Fcgi.Request.append_param
    cpp_the_right_way.Fcgi.Request.stdin_appended cpp_the_right_way.Fcgi.Request.append_stdin
    cpp_the_right_way.Fcgi.Request.process_at cpp_the_right_way.Fcgi.Request.is_finished
    cpp_the_right_way.Fcgi.Request.process cpp_the_right_way.Fcgi.Response.init
    cpp_the_right_way.Fcgi.Response.append_header cpp_the_right_way.Fcgi.Response.append_output
    cpp_the_right_way.Fcgi.Response.append_node cpp_the_right_way.Fcgi.Response.append_chain
    cpp_the_right_way.Fcgi.Response.append_chains cpp_the_right_way.Fcgi.Response.process
    cpp_the_right_way.Main.Reply.header_octets cpp_the_right_way.Main.Reply.response_octets
    cpp_the_right_way.Main.Reply.send_response cpp_the_right_way.Main.Reply.unless_failed
    cpp_the_right_way.Main.Reply.execute cpp_the_right_way.Main.Loop.is_error
    cpp_the_right_way.Main.Loop.after_process cpp_the_right_way.Main.Loop.after_parse
    cpp_the_right_way.Main.Loop.parse_rounds cpp_the_right_way.Main.Loop.parse_buffer
reply_sent = refl
