-- ===== src/Main/Reply.antt =====
-- sl_main_request_send_response and sl_main_request_execute: the octets that answer a request.
use cpp_the_right_way.Base.{ℕ, ◌/◌, Option, none, some, List, [], ◌∷◌, ◌++◌, replicate, u8, u16}
use cpp_the_right_way.Arena.{Platform}
use cpp_the_right_way.Run.{M, pure, give_up, access, ◌>>=◌, ◌>>◌}
use cpp_the_right_way.Memory.{read_bytes}
use cpp_the_right_way.Strings.{SlString, number, init_with_cstring}
use cpp_the_right_way.HashTable.{Status, done, minus_one}
use cpp_the_right_way.Fcgi.Parser.State.{log_write_format}
use cpp_the_right_way.Fcgi.Request.{Request}
use cpp_the_right_way.Fcgi.Response.{Response, append_header, append_output, process, init}

abbrev pub stdout_type : ℕ
stdout_type = 6

abbrev pub end_type : ℕ
end_type = 3

-- `htons` of a 16-bit value, as the two octets that lie in memory then.
abbrev htons : ℕ → List ℕ
htons n = u8 (n / 256) ∷ u8 n ∷ []

-- The octets of the structure sl_fcgi_msg_header with the two fields passed through htons.
unfoldable pub header_octets : ℕ → ℕ → ℕ → List ℕ
header_octets type request_id content_length =
    1 ∷ type ∷ (htons request_id ++ (htons content_length ++ 0 ∷ 0 ∷ []))

-- `{0}`, of 8 octets
abbrev pub end_message : List ℕ
end_message = replicate 8 0

-- The five buffers of writev, one after the other; `length` is a uint16_t.
unfoldable pub response_octets : ℕ → List ℕ → ℕ → List ℕ
unfolding header_octets
response_octets request_id body length =
    header_octets stdout_type request_id length
    ++ (body
        ++ (header_octets stdout_type request_id 0
            ++ (header_octets end_type request_id 8 ++ end_message)))

-- "Sent %z bytes response"
abbrev pub sent_format : List ℕ
sent_format =
    83 ∷ 101 ∷ 110 ∷ 116 ∷ 32 ∷ 37 ∷ 122 ∷ 32 ∷ 98 ∷ 121 ∷ 116 ∷ 101 ∷ 115 ∷ 32 ∷ 114 ∷ 101 ∷ 115
    ∷ 112 ∷ 111 ∷ 110 ∷ 115 ∷ 101 ∷ []

-- What `writev` answers to the octets it is given: `none` is -1.
abbrev pub Writev : Type 0
Writev = List ℕ → Option ℕ

-- What was given to writev. The length is cut to 16 bits where it is passed.
unfoldable pub send_response : Platform → Writev → Request → SlString → M (List ℕ)
unfolding response_octets
send_response os writev r raw = do
  body ← access (read_bytes raw.buffer (u16 raw.length))
  let octets = response_octets r.request_id body (u16 raw.length)
  elim (writev octets) [
    | none ↦ give_up
    | some sent ↦ log_write_format os sent_format (number sent ∷ []) >> pure octets
  ]

-- "Content-Type", "text/plain" and "OK\n"
abbrev pub header_name : List ℕ
header_name = 67 ∷ 111 ∷ 110 ∷ 116 ∷ 101 ∷ 110 ∷ 116 ∷ 45 ∷ 84 ∷ 121 ∷ 112 ∷ 101 ∷ []

abbrev pub value_name : List ℕ
value_name = 116 ∷ 101 ∷ 120 ∷ 116 ∷ 47 ∷ 112 ∷ 108 ∷ 97 ∷ 105 ∷ 110 ∷ []

abbrev pub output_text : List ℕ
output_text = 79 ∷ 75 ∷ 10 ∷ []

abbrev pub headers_preallocate : ℕ
headers_preallocate = 16

-- A code of -1 from the table ends the request.
unfoldable pub unless_failed : Status × Response → M Response
unless_failed (done, r) = pure r
unless_failed (minus_one, r) = give_up

unfoldable pub execute : Platform → Writev → Request → M (List ℕ)
unfolding unless_failed
execute os writev r = do
  named ←
      append_header os (init headers_preallocate) (init_with_cstring header_name)
        (some (init_with_cstring value_name))
  response ← unless_failed named
  full ← append_output os response (init_with_cstring output_text)
  raw ← process os full
  send_response os writev r raw
