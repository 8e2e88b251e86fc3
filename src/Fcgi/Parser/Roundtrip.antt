-- ===== src/Fcgi/Parser/Roundtrip.antt =====
-- A PARAMS record, from its octets to its names and values.
use mathlib.Core.List.{reverse, reverse_aux}
use cpp_the_right_way.Base.{
  ℕ, ◌+◌, ◌*◌, ◌^◌, ◌<◌, List, [], ◌∷◌, ◌++◌, map, ◌≡◌, refl, ap, ◌∙◌, inl, inr, arith, false, ◌==◌,
  length,
}
use cpp_the_right_way.Arena.{Platform, Store}
use cpp_the_right_way.Run.{Partly, Partly-map, Returns, Returns-and}
use cpp_the_right_way.Fcgi.Parser.State.{Param, Parser, name_length_b3, init}
use cpp_the_right_way.Fcgi.Parser.{dispatch_type, parse_from, parse}
use cpp_the_right_way.Fcgi.Parser.Invariant.{IsParser, init-IsParser}
use cpp_the_right_way.Fcgi.Parser.Total.{MeetsLongName, parse-IsParser}
use cpp_the_right_way.Fcgi.Parser.Total
use cpp_the_right_way.Fcgi.Parser.Messages.{Octets, wire, AreOctets, decoded, parse_header_lem}
use cpp_the_right_way.Fcgi.Parser.Decoded.{
  reads, pairs_octets, pairs_size, Finishes, decoding, pairs_Reaches,
}

map-reverse_aux :
    (ls rest : List Param)
    → map reads (reverse_aux ls rest) ≡ reverse_aux (map reads ls) (map reads rest)
map-reverse_aux [] rest = refl
map-reverse_aux (l ∷ ls) rest = map-reverse_aux ls (l ∷ rest)

reverse_aux-reverse_aux {ℓ} :
    {A : Type ℓ} (xs ys : List A) → reverse_aux (reverse_aux xs ys) [] ≡ reverse_aux ys xs
reverse_aux-reverse_aux [] ys = refl
reverse_aux-reverse_aux (x ∷ xs) ys = reverse_aux-reverse_aux xs (x ∷ ys)

decoded-Finishes :
    (pairs : List (List ℕ × List ℕ)) (n : ℕ) (r : Parser × ℕ)
    → (decoding (reverse pairs) n).holds r
    → Finishes pairs n r
decoded-Finishes pairs n r (inl broken) = inl broken
decoded-Finishes pairs n r (inr d) = inr (
  d.state,
  map-reverse_aux r.0.params []
      ∙ (ap (λ l. reverse_aux l []) d.params ∙ reverse_aux-reverse_aux pairs []),
  d.read,
)

parse_pairs-Finishes :
    (os : Platform) (o : Octets) (pairs : List (List ℕ × List ℕ)) (pads : List ℕ) (next : ℕ)
    (more : List ℕ) (s : Store)
    → AreOctets o
    → o.type ≡ 4
    → pairs_size pairs ≡ o.length_hi * 256 + o.length_lo
    → 0 < pairs_size pairs
    → o.padding ≡ length pads
    → length pads < 2 ^ 16
    → Partly
        (parse os init (wire o (pairs_octets pairs (pads ++ next ∷ more))) s)
        (Finishes pairs (8 + pairs_size pairs + length pads))
unfolding init
parse_pairs-Finishes os o pairs pads next more s v params whole some_pairs padded few =
    let n = 8 + pairs_size pairs + length pads in
    let bytes = pairs_octets pairs (pads ++ next ∷ more) in
    let some_content : (o.length_hi * 256 + o.length_lo == 0) ≡ false = ground arith in
    let target : dispatch_type o.type ≡ name_length_b3 =
      ap dispatch_type params ∙ (unfold dispatch_type in refl) in
    rw (parse_header_lem os o bytes s v, some_content, target)
      (Partly-map
        (parse_from os (record init { header = decoded o; state = name_length_b3 }) bytes 8 s)
        (decoding (reverse pairs) n).holds (Finishes pairs n)
        (pairs_Reaches os (decoded o) init.begin init.stdin (reverse pairs) n next more pairs pads 8
          whole (omega arith) (omega (arith, v.length_hi, v.length_lo)) padded few refl refl s)
        (decoded-Finishes pairs n))

wire-AreOctets : (o : Octets) (rest : List ℕ) → Total.AreOctets (wire o rest) → AreOctets o
wire-AreOctets o rest octets = record {
  id_hi = octets.1.1.0;
  id_lo = octets.1.1.1.0;
  length_hi = octets.1.1.1.1.0;
  length_lo = octets.1.1.1.1.1.0;
}

-- A PARAMS record with one name and value or more, with the length of each in one octet or in four,
-- with padding or without, and an octet behind it, handed to a new parser: it is finished with exactly
-- these names and values in order, having read exactly the record, or it is in error. The call returns
-- but where the octets announce, up to some point, a parameter whose name has exactly 48 octets.
pub parse_pairs :
    (os : Platform) (o : Octets) (pairs : List (List ℕ × List ℕ)) (pads : List ℕ) (next : ℕ)
    (more : List ℕ) (s : Store)
    → Total.AreOctets (wire o (pairs_octets pairs (pads ++ next ∷ more)))
    → o.type ≡ 4
    → pairs_size pairs ≡ o.length_hi * 256 + o.length_lo
    → 0 < pairs_size pairs
    → o.padding ≡ length pads
    → length pads < 2 ^ 16
    → Returns
        (parse os init (wire o (pairs_octets pairs (pads ++ next ∷ more))) s)
        (MeetsLongName os init (wire o (pairs_octets pairs (pads ++ next ∷ more))) 0 s)
        (λ r. IsParser r.0 × Finishes pairs (8 + pairs_size pairs + length pads) r)
parse_pairs os o pairs pads next more s octets params whole some_pairs padded few =
    let v : AreOctets o = wire-AreOctets o (pairs_octets pairs (pads ++ next ∷ more)) octets in
    let bytes = wire o (pairs_octets pairs (pads ++ next ∷ more)) in
    Returns-and (parse os init bytes s) (MeetsLongName os init bytes 0 s) (λ r. IsParser r.0)
      (Finishes pairs (8 + pairs_size pairs + length pads))
      (parse-IsParser os init bytes s octets init-IsParser)
      (parse_pairs-Finishes os o pairs pads next more s v params whole some_pairs padded few)
