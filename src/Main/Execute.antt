-- ===== src/Main/Execute.antt =====
-- sl_main_request_execute: the whole reply that the server gives.
use mathlib.Core.List.{flatten}
use cpp_the_right_way.Base.{
  ap₂, ℕ, some, List, [], ◌∷◌, ◌++◌, ◌≡◌, ◌⊎◌, inl, inr, refl, ap, ◌∙◌, arith, length, take, u16,
  true, replicate,
}
use cpp_the_right_way.Arena.{Platform, Store, pow2_size}
use cpp_the_right_way.Run.{
  Safe, Safe-bind, Safe-map, Safe-attempt, allocate_or_fail, allocate_or_fail-Safe, pure, ◌>>=◌,
}
use cpp_the_right_way.Strings.{SlString, contents, init_with_cstring, append_with_string}
use cpp_the_right_way.Strings.Append.{IsString}
use cpp_the_right_way.HashTable.{
  index_of, Bucket, HashTable, Status, done, minus_one, null_buckets, first_size, fill_first,
  unless_missing, allocate_table, set_in, write_or_add, add_node, grow_linked, link_node, grow,
  needs_resize, replace, hash_bytes, compute_hash, create_bucket, set_after, set_key,
  init as table_init,
}
use cpp_the_right_way.HashTable.Keys.{length-contents}
use cpp_the_right_way.HashTable.Moves.{create_bucket-Safe}
use cpp_the_right_way.Fcgi.Request.{Request, zero_string}
use cpp_the_right_way.Fcgi.Response.{
  Response, line_end, append_header, append_output, process, init,
}
use cpp_the_right_way.Fcgi.Response.Text.{IsLine, lines, Output, append_text-Output}
use cpp_the_right_way.Fcgi.Response.Process.{response_text, process-response_text}
use cpp_the_right_way.Main.Reply.{
  header_name, value_name, output_text, headers_preallocate, Writev, send_response, unless_failed,
  execute, response_octets,
}
use cpp_the_right_way.Main.Records.{IsWritev, send_response_lem}

abbrev node : Bucket
unfolding init_with_cstring compute_hash hash_bytes
node = record {
  hash = compute_hash (init_with_cstring header_name);
  key = init_with_cstring header_name;
  value = some (init_with_cstring value_name);
}

-- The table before and after its array is made.
abbrev new_table : HashTable
unfolding table_init pow2_size
new_table = table_init headers_preallocate true

abbrev made_table : HashTable
unfolding table_init pow2_size
made_table = record new_table { buckets = replicate 16 []; size = 16; count = 0 }

abbrev Holds : Status × HashTable → Type 0
Holds r = (r.0 ≡ minus_one) ⊎ (flatten r.1.buckets ≡ node ∷ [])

set_in-Holds :
    (os : Platform) (s : Store)
    → Safe
        (set_in os made_table
          (init_with_cstring header_name)
          (some (init_with_cstring value_name))
          s)
        (λ r s'. Holds r)
unfolding set_in write_or_add add_node grow_linked link_node grow needs_resize replace compute_hash
    init_with_cstring flatten table_init pow2_size hash_bytes
set_in-Holds os s =
    Safe-attempt (create_bucket os node.hash node.key node.value)
      (grow_linked os made_table (index_of node.hash 16) []) s (λ b _. b ≡ node) (λ r _. Holds r)
      (create_bucket-Safe os node.hash node.key node.value s) (λ b s' e. rw e (inr refl))
      (λ s'. inl refl)

allocate_table-Holds :
    (os : Platform) (s : Store)
    → Safe
        (allocate_table os new_table new_table.preallocate s)
        (λ r s'. (r ≡ (minus_one, new_table)) ⊎ (r ≡ (done, made_table)))
unfolding allocate_table unless_missing first_size fill_first null_buckets table_init pow2_size
allocate_table-Holds os s =
    Safe-attempt (allocate_or_fail os 128) (unless_missing new_table (fill_first new_table 16)) s
      (λ _ _. Unit {0}) (λ r _. (r ≡ (minus_one, new_table)) ⊎ (r ≡ (done, made_table)))
      (allocate_or_fail-Safe os 128 s) (λ _ s' _. inr refl) (λ s'. inl refl)

set_key-Holds :
    (os : Platform) (s : Store)
    → Safe
        (set_key os new_table
          (init_with_cstring header_name)
          (some (init_with_cstring value_name))
          s)
        (λ r s'. Holds r)
unfolding set_key set_after table_init pow2_size
set_key-Holds os s =
    let name = init_with_cstring header_name in
    let value = some (init_with_cstring value_name) in
    Safe-bind (allocate_table os new_table new_table.preallocate)
      (λ r. set_after os name value r.0 r.1) s
      (λ r _. (r ≡ (minus_one, new_table)) ⊎ (r ≡ (done, made_table))) (λ r _. Holds r)
      (allocate_table-Holds os s)
      (λ r s' h. elim h [ inl e ↦ rw e (inl refl) | inr e ↦ rw e (set_in-Holds os s') ])

abbrev HasHeader : Response → Type 0
HasHeader r = (flatten r.headers.buckets ≡ node ∷ []) × (r.stdout ≡ zero_string)

append_header-HasHeader :
    (os : Platform) (s : Store)
    → Safe
        (append_header os
          (init headers_preallocate)
          (init_with_cstring header_name)
          (some (init_with_cstring value_name))
          s)
        (λ r s'. (r.0 ≡ minus_one) ⊎ HasHeader r.1)
unfolding append_header init table_init new_table
append_header-HasHeader os s =
    Safe-bind
      (set_key os new_table (init_with_cstring header_name) (some (init_with_cstring value_name)))
      (λ t. pure (t.0, record (init headers_preallocate) { headers = t.1 })) s (λ r _. Holds r)
      (λ r _. (r.0 ≡ minus_one) ⊎ HasHeader r.1) (set_key-Holds os s)
      (λ t s' h. elim h [ inl e ↦ inl e | inr e ↦ inr (e, refl) ])

unless_failed-HasHeader :
    (c : Status) (r : Response) (s : Store)
    → (c ≡ minus_one) ⊎ HasHeader r
    → Safe (unless_failed (c, r) s) (λ r' s'. HasHeader r')
unfolding unless_failed
unless_failed-HasHeader minus_one r s h = tt
unless_failed-HasHeader done r s (inl e) = absurd cc
unless_failed-HasHeader done r s (inr h) = h

-- "Content-Type: text/plain", an empty line and "OK"
abbrev pub reply_text : List ℕ
reply_text = header_name ++ b':' ∷ b' ' ∷ (value_name ++ (line_end ++ (line_end ++ output_text)))

node-IsLine : IsLine node
unfolding node init_with_cstring pow2_size
node-IsLine = record {
  key = record { within = omega arith; whole = omega arith };
  value = record { within = omega arith; whole = omega arith };
  fits = record {
    name_room = omega arith;
    value_room = omega arith;
    name_small = omega arith;
    value_small = omega arith;
    short = omega arith;
  };
}

node_line : lines (node ∷ []) ++ (line_end ++ output_text) ≡ reply_text
unfolding node init_with_cstring
node_line = refl

append_output-HasHeader :
    (os : Platform) (r : Response) (s : Store)
    → HasHeader r
    → Safe (append_output os r (init_with_cstring output_text) s) (λ r' s'.
      (flatten r'.headers.buckets ≡ node ∷ [])
      × IsString r'.stdout
      × (contents r'.stdout ≡ output_text))
unfolding append_output init_with_cstring
append_output-HasHeader os r s h =
    let text = init_with_cstring output_text in
    let zero_valid : IsString zero_string = record { within = omega arith; whole = omega arith } in
    let valid : IsString text = record { within = omega arith; whole = omega arith } in
    rw h.1 (
      Safe-bind (append_with_string os zero_string text) (λ t. pure (record r { stdout = t })) s
        (λ t _. Output zero_string (contents text) t)
        (λ r' _.
          (flatten r'.headers.buckets ≡ node ∷ [])
          × IsString r'.stdout
          × (contents r'.stdout ≡ output_text))
        (append_text-Output os zero_string text s zero_valid valid (omega arith))
        (λ t s' f. (h.0, f.0, f.1)))

-- What the response reads as once its header and its output are in place.
process-reply_text :
    (os : Platform) (r : Response) (s : Store)
    → (flatten r.headers.buckets ≡ node ∷ [])
      × IsString r.stdout
      × (contents r.stdout ≡ output_text)
    → Safe (process os r s) (λ t s'. IsString t × (contents t ≡ reply_text))
process-reply_text os r s (e, v, o) =
    let text : response_text r ≡ reply_text =
      ap (λ (nodes : List Bucket). lines nodes ++ (line_end ++ contents r.stdout)) e
      ∙ (ap (λ (l : List ℕ). lines (node ∷ []) ++ (line_end ++ l)) o ∙ node_line) in
    Safe-map (process os r s) _ _
      (process-response_text os r s (rw e (node-IsLine, tt)) v (omega (arith, ap length text)))
      (λ t _ f. (f.0, f.1 ∙ text))

send-reply_text :
    (os : Platform) (writev : Writev) (r : Request) (t : SlString) (s : Store)
    → IsWritev writev
    → IsString t
    → contents t ≡ reply_text
    → Safe
        (send_response os writev r t s)
        (λ octets s'. octets ≡ response_octets r.request_id reply_text (length reply_text))
send-reply_text os writev r t s w v e =
    let size : t.length ≡ length reply_text = omega (arith, length-contents t v, ap length e) in
    let cut : u16 t.length ≡ t.length = omega (arith, size) in
    Safe-map (send_response os writev r t s) _ _ (send_response_lem os writev r t s v w)
      (λ octets _ f.
        f
        ∙ (ap (λ k. response_octets r.request_id (take k t.buffer) k) cut
            ∙ ap₂ (response_octets r.request_id) e size))

-- sl_main_request_execute, where writev answers at most the number of octets that it is given: it
-- makes no access out of bounds, and where it succeeds it has given to writev the reply of the
-- request with the text "Content-Type: text/plain", an empty line and "OK".
pub execute-reply_text :
    (os : Platform) (writev : Writev) (r : Request) (s : Store)
    → IsWritev writev
    → Safe
        (execute os writev r s)
        (λ octets s'. octets ≡ response_octets r.request_id reply_text (length reply_text))
unfolding execute
execute-reply_text os writev r s w =
    let goal =
      λ (octets : List ℕ). octets ≡ response_octets r.request_id reply_text (length reply_text) in
    let after_header = λ (response : Response).
      append_output os response (init_with_cstring output_text)
      >>= (λ full. process os full >>= (λ raw. send_response os writev r raw)) in
    let after_output =
      λ (full : Response). process os full >>= (λ raw. send_response os writev r raw) in
    Safe-bind
      (append_header os (init headers_preallocate) (init_with_cstring header_name)
        (some (init_with_cstring value_name)))
      (λ named. unless_failed named >>= after_header) s
      (λ named _. (named.0 ≡ minus_one) ⊎ HasHeader named.1) (λ o _. goal o)
      (append_header-HasHeader os s)
      (λ named s₁ h.
        Safe-bind (unless_failed named) after_header s₁ (λ r' _. HasHeader r') (λ o _. goal o)
          (unless_failed-HasHeader named.0 named.1 s₁ h)
          (λ response s₂ k.
            Safe-bind (append_output os response (init_with_cstring output_text)) after_output s₂
              (λ r' _.
                (flatten r'.headers.buckets ≡ node ∷ [])
                × IsString r'.stdout
                × (contents r'.stdout ≡ output_text))
              (λ o _. goal o) (append_output-HasHeader os response s₂ k)
              (λ full s₃ f.
                Safe-bind (process os full) (λ raw. send_response os writev r raw) s₃
                  (λ t _. IsString t × (contents t ≡ reply_text)) (λ o _. goal o)
                  (process-reply_text os full s₃ f)
                  (λ raw s₄ g. send-reply_text os writev r raw s₄ w g.0 g.1))))
