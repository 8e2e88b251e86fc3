-- ===== src/Fcgi/Parser/Messages.antt =====
-- What the parser makes of the octets of a record: the header by its type and content, and a complete
-- begin record.
use cpp_the_right_way.Base.{
  ℕ, ◌+◌, ◌*◌, ◌^◌, ◌<◌, bit_or, List, [], ◌∷◌, ◌≡◌, ◌≢◌, refl, ap, ◌∙◌, arith, u16, ◌<<<◌, ◌==◌,
  if◌then◌else◌, false, Bool-cases, inl, inr,
}
use cpp_the_right_way.Bits.{bit_or_fields}
use cpp_the_right_way.Arena.{Platform, Store}
use cpp_the_right_way.Run.{Run, ok}
use cpp_the_right_way.Fcgi.Parser.State.{
  Header, Parser, ParserState, init, finished, error, begin_role_b1, name_length_b3, stdin_data,
}
use cpp_the_right_way.Fcgi.Parser.{end_header, dispatch_type, parse_from, parse}

-- Two octets, the high one first, as the parser joins them.
two_octets :
    (hi lo : ℕ) → hi < 2 ^ 8 → lo < 2 ^ 8 → u16 (bit_or (u16 (hi <<< 8)) lo) ≡ hi * 256 + lo
two_octets hi lo h l =
    let e : u16 (hi <<< 8) ≡ hi * 2 ^ 8 = omega arith in
    ap (λ t. u16 (bit_or t lo)) e ∙ omega (arith, bit_or_fields 8 hi lo l)

-- The octets of a header.
pub record Octets : Type 0 where
  pub version : ℕ
  pub type : ℕ
  pub id_hi : ℕ
  pub id_lo : ℕ
  pub length_hi : ℕ
  pub length_lo : ℕ
  pub padding : ℕ
  pub reserved : ℕ

abbrev pub wire : Octets → List ℕ → List ℕ
wire o rest =
    o.version ∷ o.type ∷ o.id_hi ∷ o.id_lo ∷ o.length_hi ∷ o.length_lo ∷ o.padding ∷ o.reserved
    ∷ rest

pub record AreOctets (o : Octets) : Type 0 where
  pub id_hi : o.id_hi < 2 ^ 8
  pub id_lo : o.id_lo < 2 ^ 8
  pub length_hi : o.length_hi < 2 ^ 8
  pub length_lo : o.length_lo < 2 ^ 8

-- The header that the octets stand for: numbers of two octets have the high one first.
abbrev pub decoded : Octets → Header
decoded o = record {
  version = o.version;
  type = o.type;
  request_id = o.id_hi * 256 + o.id_lo;
  content_length = o.length_hi * 256 + o.length_lo;
  padding_length = o.padding;
  reserved = o.reserved;
}

-- Behind the header that the octets stand for.
pub parse_header_lem :
    (os : Platform) (o : Octets) (rest : List ℕ) (s : Store)
    → AreOctets o
    → parse os init (wire o rest) s ≡ (
        if o.length_hi * 256 + o.length_lo == 0
        then ok (record init { header = decoded o; state = finished }, 8) s
        else parse_from os
            (record init { header = decoded o; state = dispatch_type o.type })
            rest
            8
            s)
unfolding parse init
parse_header_lem os o rest s v =
    let id = two_octets o.id_hi o.id_lo v.id_hi v.id_lo in
    let len = two_octets o.length_hi o.length_lo v.length_hi v.length_lo in
    rw (id, len)
      (elim (Bool-cases (o.length_hi * 256 + o.length_lo == 0)) [
        | inl empty ↦ rw (empty, end_header)
        | inr more ↦ rw (more, end_header)
      ])

-- The state behind the header of a record with this type and content length, by the types of
-- FastCGI: 1 begins a request, 4 has parameters, 5 has input, and no other type is known.
pub data StartsAt (type content : ℕ) : ParserState → Type 0 where
  empty : content ≡ 0 → StartsAt type content finished
  begin_request : type ≡ 1 → 0 < content → StartsAt type content begin_role_b1
  params : type ≡ 4 → 0 < content → StartsAt type content name_length_b3
  stdin : type ≡ 5 → 0 < content → StartsAt type content stdin_data
  unknown : type ≢ 1 → type ≢ 4 → type ≢ 5 → 0 < content → StartsAt type content error

-- Whether the parser stops there.
abbrev pub header_result : ParserState → Platform → Parser → List ℕ → Store → Run (Parser × ℕ)
header_result finished os p rest s = ok (p, 8) s
header_result error os p rest s = ok (p, 8) s
header_result _ os p rest s = parse_from os p rest 8 s

header_dispatches :
    (os : Platform) (o : Octets) (c : ParserState) (rest : List ℕ) (s : Store)
    → AreOctets o
    → 0 < o.length_hi * 256 + o.length_lo
    → dispatch_type o.type ≡ c
    → parse os init (wire o rest) s
      ≡ parse_from os (record init { header = decoded o; state = c }) rest 8 s
header_dispatches os o c rest s v some_content target =
    let more : (o.length_hi * 256 + o.length_lo == 0) ≡ false = ground arith in
    rw (parse_header_lem os o rest s v, more, target) refl

stopped_error :
    (os : Platform) (p : Parser) (rest : List ℕ) (s : Store)
    → p.state ≡ error
    → parse_from os p rest 8 s ≡ ok (p, 8) s
unfolding parse_from
stopped_error os p [] s e = refl
stopped_error os p (octet ∷ rest) s e = rw (e, parse_from)

-- A new parser that is handed a record decodes its header, numbers of two octets with the high one
-- first. A record without content is finished and one of an unknown type is an error, whatever the
-- padding and the octets behind it: the call returns with 8 octets read. Any other is read on from
-- the first state of its type, 1 a begin record, 4 parameters, and 5 input.
pub parse_header-StartsAt :
    (os : Platform) (o : Octets) (c : ParserState) (rest : List ℕ) (s : Store)
    → AreOctets o
    → StartsAt o.type (o.length_hi * 256 + o.length_lo) c
    → parse os init (wire o rest) s
      ≡ header_result c os (record init { header = decoded o; state = c }) rest s
unfolding dispatch_type
parse_header-StartsAt os o c rest s v (empty none_left) =
    rw (parse_header_lem os o rest s v, none_left) refl
parse_header-StartsAt os o c rest s v (begin_request t some_content) =
    header_dispatches os o c rest s v some_content (rw t refl)
parse_header-StartsAt os o c rest s v (params t some_content) =
    header_dispatches os o c rest s v some_content (rw t refl)
parse_header-StartsAt os o c rest s v (stdin t some_content) =
    header_dispatches os o c rest s v some_content (rw t refl)
parse_header-StartsAt os o c rest s v (unknown n1 n4 n5 some_content) =
    header_dispatches os o c rest s v some_content (ground arith)
    ∙ stopped_error os (record init { header = decoded o; state = error }) rest s refl

-- The eight octets of a begin record, behind any header.
begin_body :
    (os : Platform) (h : Header) (role_hi role_lo flags a b c d e : ℕ) (rest : List ℕ) (s : Store)
    → role_hi < 2 ^ 8
    → role_lo < 2 ^ 8
    → parse_from os
        (record init { header = h; state = begin_role_b1 })
        (role_hi ∷ role_lo ∷ flags ∷ a ∷ b ∷ c ∷ d ∷ e ∷ rest)
        8
        s
      ≡ ok
          (
            record init {
              header = h;
              begin = record { role = role_hi * 256 + role_lo; flags = flags };
              message_size = 16;
              state = finished;
            },
            16,
          )
          s
unfolding parse_from init
begin_body os h role_hi role_lo flags a b c d e [] s hi lo = rw (two_octets role_hi role_lo hi lo)
begin_body os h role_hi role_lo flags a b c d e (r ∷ rest) s hi lo =
    rw (two_octets role_hi role_lo hi lo)

-- A begin record with content, whatever its padding length, is complete for a new parser after 16
-- octets: the role and the flags
-- are decoded, and what follows is not read.
pub parse_begin_lem :
    (os : Platform) (o : Octets) (role_hi role_lo flags a b c d e : ℕ) (rest : List ℕ) (s : Store)
    → AreOctets o
    → o.type ≡ 1
    → 0 < o.length_hi * 256 + o.length_lo
    → role_hi < 2 ^ 8
    → role_lo < 2 ^ 8
    → parse os init (wire o (role_hi ∷ role_lo ∷ flags ∷ a ∷ b ∷ c ∷ d ∷ e ∷ rest)) s
      ≡ ok
          (
            record init {
              header = decoded o;
              begin = record { role = role_hi * 256 + role_lo; flags = flags };
              message_size = 16;
              state = finished;
            },
            16,
          )
          s
parse_begin_lem os o role_hi role_lo flags a b c d e rest s v begins content hi lo =
    let some_content : (o.length_hi * 256 + o.length_lo == 0) ≡ false = ground arith in
    let target : dispatch_type o.type ≡ begin_role_b1 =
      ap dispatch_type begins ∙ (unfold dispatch_type in refl) in
    parse_header_lem os o (role_hi ∷ role_lo ∷ flags ∷ a ∷ b ∷ c ∷ d ∷ e ∷ rest) s v
    ∙ rw (some_content, target)
        (begin_body os (decoded o) role_hi role_lo flags a b c d e rest s hi lo)
