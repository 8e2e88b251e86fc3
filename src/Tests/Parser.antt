-- ===== src/Tests/Parser.antt =====
-- The parameters of a record, and one whose name has 48 octets.
use cpp_the_right_way.Base.{ℕ, ◌+◌, List, [], ◌∷◌, ◌++◌, ◌≡◌, refl, some, arith, replicate}
use cpp_the_right_way.Arena.{
  Store, allocate, allocate_in, allocate_new, allocate_from_block, create_block, block_size,
  pow2_size,
}
use cpp_the_right_way.Run.{Run, ok, fault, Returns, allocate_or_fail}
use cpp_the_right_way.Memory.{junk_bytes, memcpy, memset}
use cpp_the_right_way.Strings.{SlString, allocate_buffer, create_from_buffer, fill_created}
use cpp_the_right_way.Fcgi.Parser.State.{Parser, init, value_data}
use cpp_the_right_way.Fcgi.Parser.{parse, parse_octet}
use cpp_the_right_way.Fcgi.Parser.Invariant.{IsParser, init-IsParser}
use cpp_the_right_way.Fcgi.Parser.Total.{MeetsLongName, parse-IsParser}
use cpp_the_right_way.Fcgi.Parser.LongName.{long_name_faults}
use cpp_the_right_way.Fcgi.Parser.Total
use cpp_the_right_way.Fcgi.Parser.Messages.{Octets, wire}
use cpp_the_right_way.Fcgi.Parser.Lengths.{length_head, length_tail}
use cpp_the_right_way.Fcgi.Parser.Decoded.{pairs_octets, pairs_size, Finishes}
use cpp_the_right_way.Fcgi.Parser.Roundtrip.{parse_pairs}
use cpp_the_right_way.Tests.Platform.{machine, new_store}

-- The parameter A=B, with four octets of padding.
abbrev pub one_param : List ℕ
one_param = 1 ∷ 4 ∷ 0 ∷ 1 ∷ 0 ∷ 4 ∷ 4 ∷ 0 ∷ 1 ∷ 1 ∷ 65 ∷ 66 ∷ 0 ∷ 0 ∷ 0 ∷ 0 ∷ []

parse-IsParser_example :
    Returns
      (parse machine init one_param new_store)
      (MeetsLongName machine init one_param 0 new_store)
      (λ r. IsParser r.0)
parse-IsParser_example =
    parse-IsParser machine init one_param new_store (ground arith) init-IsParser

abbrev long_name : List ℕ
long_name = replicate 49 65

-- The parser behind the value "B" of a parameter whose name has 48 octets.
abbrev behind_value : Parser
unfolding init
behind_value = record init {
  state = value_data;
  params =
      record {
        name_length = 48;
        value_length = 1;
        name = some long_name;
        value = some (66 ∷ 170 ∷ []);
      }
      ∷ [];
}

abbrev string_of : Run SlString → SlString
string_of (ok t s) = t
string_of _ = record { allocated = 0; length = 0; buffer = [] }

abbrev store_of : Run SlString → Store
store_of (ok t s) = s
store_of _ = new_store

abbrev created : Run SlString
unfolding create_from_buffer allocate_buffer allocate_or_fail allocate allocate_in allocate_new
    allocate_from_block create_block block_size junk_bytes memcpy memset fill_created pow2_size
created = create_from_buffer machine [] 42 new_store

created_runs :
    create_from_buffer machine [] 42 new_store ≡ ok (string_of created) (store_of created)
unfolding create_from_buffer allocate_buffer allocate_or_fail allocate allocate_in allocate_new
    allocate_from_block create_block block_size junk_bytes memcpy memset fill_created pow2_size
created_runs = refl

long_name_faults_example : parse_octet machine behind_value 0 new_store ≡ fault
unfolding init
long_name_faults_example =
    long_name_faults machine behind_value [] 1 long_name (66 ∷ 170 ∷ []) 0 new_store
      (store_of created) (string_of created) refl refl refl refl refl created_runs

abbrev one_header : Octets
one_header = record {
  version = 1;
  type = 4;
  id_hi = 0;
  id_lo = 1;
  length_hi = 0;
  length_lo = 4;
  padding = 4;
  reserved = 0;
}

abbrev one_pair : List (List ℕ × List ℕ)
one_pair = (65 ∷ [], 66 ∷ []) ∷ []

abbrev four_pads : List ℕ
four_pads = 0 ∷ 0 ∷ 0 ∷ 0 ∷ []

abbrev one_record : List ℕ
one_record = wire one_header (pairs_octets one_pair (four_pads ++ 1 ∷ []))

one_record-AreOctets : Total.AreOctets one_record
unfolding pairs_octets length_head length_tail
one_record-AreOctets = ground arith

one_pair-size : pairs_size one_pair ≡ 4
unfolding pairs_size length_head length_tail
one_pair-size = refl

parse_pairs_example :
    Returns
      (parse machine init one_record new_store)
      (MeetsLongName machine init one_record 0 new_store)
      (λ r. IsParser r.0 × Finishes one_pair (8 + pairs_size one_pair + 4) r)
parse_pairs_example =
    parse_pairs machine one_header one_pair four_pads 1 [] new_store one_record-AreOctets refl
      one_pair-size (omega (arith, one_pair-size)) refl (omega arith)
