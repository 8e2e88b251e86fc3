-- ===== src/Main/Records.antt =====
-- The octets of a reply against an independent reader of FastCGI records.
use mathlib.Core.Path.{subst}
use cpp_the_right_way.Base.{
  ◌%◌, ◌⊎◌, true, ap₂, Option-cases, inl, inr, ℕ, zero, suc, ◌+◌, ◌*◌, ◌^◌, ◌/◌, ◌<◌, ◌≤◌, Option,
  none, some, List, [], ◌∷◌, ◌++◌, ◌≡◌, refl, sym, ap, ◌∙◌, arith, length, length-append, take,
  drop, leb, if◌then◌else◌, u8, u16, length-take, le→leb, drop-append_length, take-append_le,
  take-all,
}
use cpp_the_right_way.Arena.{Platform, Store, pow2_size}
use cpp_the_right_way.Run.{
  ok, failed, Safe, Safe-bind, Safe-map, Safe-attempt, Safe-ok, NeverFails-bind, NeverFails-attempt,
  attempt, bind-ok, pure,
}
use cpp_the_right_way.Memory.{read_bytes_lem, take-take}
use cpp_the_right_way.Strings.{SlString, number, contents, format_buffer}
use cpp_the_right_way.Strings.Counts.{count_message-Safe}
use cpp_the_right_way.Strings.Append.{IsString}
use cpp_the_right_way.Fcgi.Parser.State.{log_write_format}
use cpp_the_right_way.Fcgi.Request.{Request}
use cpp_the_right_way.Main.Reply.{
  sent_format, header_octets, response_octets, end_message, stdout_type, end_type, Writev,
  send_response,
}

-- A record as a peer reads it.
pub record Message : Type 0 where
  pub type : ℕ
  pub request_id : ℕ
  pub content : List ℕ

-- The first record of a stream: 8 octets, the content and the padding.
unfoldable pub read_record : List ℕ → Option (Message × List ℕ)
read_record (version ∷ type ∷ id_hi ∷ id_lo ∷ len_hi ∷ len_lo ∷ padding ∷ reserved ∷ rest) =
    let n = len_hi * 256 + len_lo in
    if leb (n + padding) (length rest)
    then some (
      record { type = type; request_id = id_hi * 256 + id_lo; content = take n rest },
      drop (n + padding) rest,
    )
    else none
read_record _ = none

-- `k` records that are the whole stream.
unfoldable pub read_records : ℕ → List ℕ → Option (List Message)
read_records zero [] = some []
read_records zero (x ∷ xs) = none
read_records (suc k) octets = elim (read_record octets) [
  | none ↦ none
  | some (m, rest) ↦ elim (read_records k rest) [ none ↦ none | some ms ↦ some (m ∷ ms) ]
]

-- A record that the header and the content of `n` octets make, in front of the rest of a stream.
read_record-header_octets :
    (type id n : ℕ) (content rest : List ℕ)
    → id < 2 ^ 16
    → n < 2 ^ 16
    → length content ≡ n
    → read_record (header_octets type id n ++ (content ++ rest))
      ≡ some (record { type = type; request_id = id; content = content }, rest)
unfolding read_record header_octets
read_record-header_octets type id n content rest small few size =
    let number : (m : ℕ) → m < 2 ^ 16 → u8 (m / 256) * 256 + u8 m ≡ m = λ m h. omega arith in
    let none_behind : n + 0 ≡ n = omega arith in
    let fits : leb n (length (content ++ rest)) ≡ true =
      le→leb _ _ (omega (arith, length-append content rest)) in
    rw (number id small, number n few, none_behind, fits)
      (ap₂
        (λ (c : List ℕ) (r : List ℕ).
          some (record { type = type; request_id = id; content = c }, r))
        (take-append_le n content rest (omega arith) ∙ take-all n content (omega arith))
        (ap (λ k. drop k (content ++ rest)) (sym size) ∙ drop-append_length content rest))

read_records_step :
    (k : ℕ) (octets rest : List ℕ) (m : Message) (ms : List Message)
    → read_record octets ≡ some (m, rest)
    → read_records k rest ≡ some ms
    → read_records (suc k) octets ≡ some (m ∷ ms)
unfolding read_records
read_records_step k octets rest m ms first others = rw (first, others, read_records)

-- A peer reads the octets of a reply as the record of its body, the empty record that ends the
-- output, and the record that ends the request, all with the request's number, and nothing else:
-- for numbers and lengths of 16 bits.
pub read_records-response_octets :
    (id : ℕ) (body : List ℕ)
    → id < 2 ^ 16
    → length body < 2 ^ 16
    → read_records 3 (response_octets id body (length body))
      ≡ some (
          record { type = stdout_type; request_id = id; content = body }
          ∷ record { type = stdout_type; request_id = id; content = [] }
          ∷ record { type = end_type; request_id = id; content = end_message }
          ∷ [])
unfolding read_records response_octets
read_records-response_octets id body small few =
    let ended = header_octets end_type id 8 ++ end_message in
    let closed = header_octets stdout_type id 0 ++ ended in
    let first = read_record-header_octets stdout_type id (length body) body closed small few refl in
    let second = read_record-header_octets stdout_type id 0 [] ended small (omega arith) refl in
    let third : read_record ended
        ≡ some (record { type = end_type; request_id = id; content = end_message }, []) =
      read_record-header_octets end_type id 8 end_message [] small (omega arith) refl in
    read_records_step 2 _ closed _ _ first
      (read_records_step 1 _ ended _ _ second (read_records_step 0 ended [] _ [] third refl))

-- What writev is taken to answer: at most the number of the octets that it was given.
abbrev pub IsWritev : Writev → Type 0
IsWritev writev = (octets : List ℕ) (n : ℕ) → writev octets ≡ some n → n ≤ length octets

length-response_octets :
    (id : ℕ) (body : List ℕ) (n : ℕ) → length (response_octets id body n) ≡ length body + 32
unfolding response_octets header_octets
length-response_octets id body n = omega (
  arith,
  length-append body
      (header_octets stdout_type id 0 ++ (header_octets end_type id 8 ++ end_message)),
)

sent_message-Safe :
    (os : Platform) (sent : ℕ) (s : Store)
    → sent < 2 ^ 64
    → Safe (log_write_format os sent_format (number sent ∷ []) s) (λ _ s'. Unit {0})
unfolding log_write_format pow2_size
sent_message-Safe os sent s range =
    Safe-attempt (format_buffer os sent_format (number sent ∷ [])) (λ _. pure tt) s
      (λ _ _. Unit {0}) (λ _ _. Unit {0})
      (Safe-map (format_buffer os sent_format (number sent ∷ []) s) _ _
        (count_message-Safe os (83 ∷ 101 ∷ 110 ∷ 116 ∷ 32 ∷ [])
          (32 ∷ 98 ∷ 121 ∷ 116 ∷ 101 ∷ 115 ∷ 32 ∷ 114 ∷ 101 ∷ 115 ∷ 112 ∷ 111 ∷ 110 ∷ 115 ∷ 101
            ∷ [])
          sent s (omega arith) (omega arith) range (omega arith) (omega arith))
        (λ _ _ _. tt))
      (λ _ s' _. tt) (λ s'. tt)

-- The octets that are given to writev, by their parts.
pub send_response_lem :
    (os : Platform) (writev : Writev) (r : Request) (raw : SlString) (s : Store)
    → IsString raw
    → IsWritev writev
    → Safe (send_response os writev r raw s) (λ octets s'.
      octets ≡ response_octets r.request_id (take (u16 raw.length) raw.buffer) (u16 raw.length))
unfolding send_response
send_response_lem os writev r raw s v w =
    let e = read_bytes_lem raw.buffer (u16 raw.length) (omega (arith, v.within, v.whole)) in
    let body = take (u16 raw.length) raw.buffer in
    let octets = response_octets r.request_id body (u16 raw.length) in
    let short : length octets < 2 ^ 63 = omega (
      arith,
      length-response_octets r.request_id body (u16 raw.length),
      length-take (u16 raw.length) raw.buffer,
    ) in
    rw e (elim (Option-cases (writev octets)) [
      | inl failed_write ↦ rw failed_write tt
      | inr (sent, answer) ↦ rw answer (
          Safe-bind (log_write_format os sent_format (number sent ∷ [])) (λ _. pure octets) s
            (λ _ _. Unit {0}) (λ o _. o ≡ octets)
            (sent_message-Safe os sent s (omega (arith, w octets sent answer))) (λ _ _ _. refl))
    ])

sent_message_runs :
    (os : Platform) (sent : ℕ) (s : Store)
    → sent < 2 ^ 64
    → (s' : Store) × (log_write_format os sent_format (number sent ∷ []) s ≡ ok tt s')
unfolding log_write_format
sent_message_runs os sent s range =
    let format = format_buffer os sent_format (number sent ∷ []) in
    let (_, s', e) =
      Safe-ok (log_write_format os sent_format (number sent ∷ []) s) _
        (sent_message-Safe os sent s range)
        (NeverFails-bind (attempt format) (λ _. pure tt) s (NeverFails-attempt format s)
          (λ _ _. tt)) in
    (s', e)

-- The three records that answer a request with these octets of a text.
abbrev pub reply_records : ℕ → List ℕ → List Message
reply_records id body =
    record { type = stdout_type; request_id = id; content = body }
    ∷ record { type = stdout_type; request_id = id; content = [] }
    ∷ record { type = end_type; request_id = id; content = end_message }
    ∷ []

-- sl_main_request_send_response with a well-formed text and a request's number of 16 bits, where
-- writev answers at most the number of octets that it is given: it makes no access out of bounds and
-- gives to writev octets that a peer reads as the output with the first octets of the text, as many
-- as its length modulo 2 ^ 16, the end of the output, and the end of the request, and as nothing else.
-- It fails if writev does, and else returns.
pub send_response-read_records :
    (os : Platform) (writev : Writev) (r : Request) (raw : SlString) (s : Store)
    → IsString raw
    → IsWritev writev
    → r.request_id < 2 ^ 16
    → (octets : List ℕ) × (read_records 3 octets
        ≡ some (reply_records r.request_id (take (raw.length % 2 ^ 16) (contents raw))))
      × (((writev octets ≡ none) × (send_response os writev r raw s ≡ failed s))
          ⊎ ((sent : ℕ) × (s' : Store) × (writev octets ≡ some sent)
              × (send_response os writev r raw s ≡ ok octets s')))
unfolding send_response
send_response-read_records os writev r raw s v w small =
    let n = u16 raw.length in
    let body = take n raw.buffer in
    let octets = response_octets r.request_id body n in
    let e = read_bytes_lem raw.buffer n (omega (arith, v.within, v.whole)) in
    let size : length body ≡ n = omega (arith, length-take n raw.buffer, v.within, v.whole) in
    let short : length octets < 2 ^ 63 =
      omega (arith, length-response_octets r.request_id body n, size) in
    let same : take n (contents raw) ≡ body = take-take n raw.length raw.buffer (omega arith) in
    let readable : read_records 3 octets ≡ some (reply_records r.request_id body) =
      subst
        (λ (k : ℕ).
          read_records 3 (response_octets r.request_id body k)
          ≡ some (reply_records r.request_id body))
        size (read_records-response_octets r.request_id body small (omega (arith, size))) in
    (
      octets,
      rw same readable,
      elim (Option-cases (writev octets)) [
        | inl failed_write ↦ inl (failed_write, rw (send_response, e, failed_write) refl)
        | inr (sent, answer) ↦
            let (s', run) = sent_message_runs os sent s (omega (arith, w octets sent answer)) in
            inr (
              sent,
              s',
              answer,
              rw (send_response, e, answer)
                  (bind-ok (log_write_format os sent_format (number sent ∷ [])) (λ _. pure octets) s
                    tt s' run),
            )
      ],
    )
