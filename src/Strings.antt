-- ===== src/Strings.antt =====
-- sl_string.c: counted strings whose buffers lie in an arena, and the formatter.
-- A string is taken by value: `buffer` holds the bytes behind the pointer, as far as they are
-- allocated. The pointer to the structure itself is only compared with NULL.
pub mod Append
pub mod Overflow
pub mod Format
pub mod Digits
pub mod Fits
pub mod Counts
use cpp_the_right_way.Base.{
  ℕ, zero, suc, ◌+◌, ◌-◌, ◌*◌, ◌/◌, ◌%◌, ◌^◌, Option, none, some, List, [], ◌∷◌, ◌++◌, Bool, true,
  false, leb, ltb, ◌==◌, if◌then◌else◌, length, get_elem?, take, u64, add64, sub64, ◌<<<◌,
}
use cpp_the_right_way.Arena.{Platform, Store, pow2_size}
use cpp_the_right_way.Run.{
  Run, ok, failed, fault, M, pure, ◌>>=◌, ◌>>◌, access, attempt, allocate_or_fail,
}
use cpp_the_right_way.Memory.{read_bytes, store_at, memcpy, memset, junk_bytes}

pub record SlString : Type 0 where
  pub allocated : ℕ
  pub length : ℕ
  pub buffer : List ℕ

abbrev pub sizeof_string : ℕ
sizeof_string = 24

-- The bytes that the string holds.
abbrev pub contents : SlString → List ℕ
contents t = take t.length t.buffer

-- A buffer of `size` bytes of the arena, not yet written.
unfoldable pub allocate_buffer : Platform → ℕ → M (List ℕ)
allocate_buffer os size s =
    (do _ ← allocate_or_fail os size; pure (junk_bytes os s.arena.allocations 0 size)) s

-- The two forms that lie about a caller's buffer, of which they own nothing.
unfoldable pub init_with_buffer : List ℕ → ℕ → SlString
init_with_buffer buffer length = record { allocated = length; length = length; buffer = buffer }

unfoldable pub init_with_cstring : List ℕ → SlString
init_with_cstring cstring = record {
  allocated = length cstring;
  length = length cstring;
  buffer = cstring;
}

-- The copies into a new buffer of `size` bytes. `length` is the length of `bytes`.
unfoldable pub fill_created : List ℕ → ℕ → List ℕ → M SlString
fill_created bytes size new = do
  copied ← access (memcpy new 0 bytes)
  cleared ← access (memset copied (length bytes) 0 (sub64 size (length bytes)))
  pure (record { allocated = size; length = length bytes; buffer = cleared })

unfoldable pub create_from_buffer : Platform → List ℕ → ℕ → M SlString
create_from_buffer os bytes preallocate = do
  _ ← allocate_or_fail os sizeof_string
  let size =
      pow2_size (if leb (length bytes) preallocate then preallocate else u64 (length bytes <<< 1))
  new ← allocate_buffer os size
  fill_created bytes size new

unfoldable pub create_with_buffer : Platform → List ℕ → ℕ → M SlString
unfolding init_with_buffer
create_with_buffer os buffer length = do
  _ ← allocate_or_fail os sizeof_string
  pure (init_with_buffer buffer length)

-- The copies into the new buffer of `size` bytes.
unfoldable pub fill_moved : SlString → List ℕ → ℕ → List ℕ → M SlString
fill_moved t bytes size new = do
  old ← access (read_bytes t.buffer t.length)
  moved ← access (memcpy new 0 old)
  copied ← access (memcpy moved t.length bytes)
  cleared ←
      access (
        memset copied (add64 t.length (length bytes)) 0
          (sub64 (sub64 size t.length) (length bytes)))
  pure (record { allocated = size; length = add64 t.length (length bytes); buffer = cleared })

-- The branch of sl_string_append_with_buffer that moves the string to a larger buffer.
unfoldable pub append_moving : Platform → SlString → List ℕ → M SlString
append_moving os t bytes = do
  let size = pow2_size (u64 (add64 t.length (length bytes) <<< 1))
  new ← allocate_buffer os size
  fill_moved t bytes size new

-- A failure leaves the string as it was.
unfoldable pub append_with_buffer : Platform → SlString → List ℕ → M SlString
append_with_buffer os t bytes =
    let total = add64 t.length (length bytes) in
    if leb total t.allocated
    then (do
      copied ← access (memcpy t.buffer t.length bytes)
      pure (record t { length = total; buffer = copied }))
    else append_moving os t bytes

unfoldable pub create_from_string : Platform → SlString → ℕ → M SlString
create_from_string os t preallocate = do
  bytes ← access (read_bytes t.buffer t.length)
  create_from_buffer os bytes preallocate

unfoldable pub create_with_string : Platform → SlString → M SlString
create_with_string os t = create_with_buffer os t.buffer t.length

unfoldable pub append_with_string : Platform → SlString → SlString → M SlString
append_with_string os destination source = do
  bytes ← access (read_bytes source.buffer source.length)
  append_with_buffer os destination bytes

-- sl_string_itoa. The result of its first loop: `length`, the buffer and `value_length`.
pub record Filling : Type 0 where
  pub left : ℕ
  pub buffer : List ℕ
  pub count : ℕ

-- The first loop writes digits from the end. With no room left the test itself takes one from
-- `length`, which wraps around.
unfoldable pub itoa_fill : ℕ → ℕ → List ℕ → ℕ → Option Filling
itoa_fill zero value buffer count =
    if value == 0
    then some (record { left = 0; buffer = buffer; count = count })
    else some (record { left = sub64 0 1; buffer = buffer; count = count })
itoa_fill (suc l) value buffer count = elim (value == 0) [
  | true ↦ some (record { left = suc l; buffer = buffer; count = count })
  | false ↦ elim (store_at buffer l (b'0' + value % 10)) [
    | none ↦ none
    | some buffer' ↦ itoa_fill l (value / 10) buffer' (count + 1)
  ]
]

-- The second loop moves the digits to the front: `rounds` more of them, from index `n` on.
unfoldable pub itoa_move : ℕ → ℕ → ℕ → List ℕ → Option (List ℕ)
itoa_move zero n left buffer = some buffer
itoa_move (suc rounds) n left buffer = elim (get_elem? buffer (add64 n left)) [
  | none ↦ none
  | some c ↦ elim (store_at buffer n c) [
    | none ↦ none
    | some buffer' ↦ itoa_move rounds (n + 1) left buffer'
  ]
]

-- The number of digits, and the buffer.
unfoldable pub itoa : ℕ → List ℕ → ℕ → Option (ℕ × List ℕ)
itoa value buffer length = elim (itoa_fill length value buffer 0) [
  | none ↦ none
  | some f ↦ elim (itoa_move f.count 0 f.left f.buffer) [
    | none ↦ none
    | some digits ↦ some (f.count, digits)
  ]
]

-- What the formatter takes from its argument list: %z, %s and %S, the last two perhaps NULL.
pub data Argument : Type 0 where
  number : ℕ → Argument
  cstring : Option (List ℕ) → Argument
  string : Option SlString → Argument

-- One literal character, written with no test of the room.
unfoldable pub put_char : SlString → ℕ → M SlString
put_char t c = do
  written ← access (store_at t.buffer t.length c)
  pure (record t { length = add64 t.length 1; buffer = written })

-- %z, with a buffer of 20 digits
unfoldable pub append_number : Platform → SlString → ℕ → M SlString
append_number os t value s =
    (do
      (count, digits) ← access (itoa value (junk_bytes os s.mallocs 0 20) 20)
      bytes ← access (read_bytes digits count)
      append_with_buffer os t bytes)
      s

-- The three directives. An argument that is missing, or is not of the type that the directive
-- reads, is undefined.
unfoldable pub number_directive : Platform → SlString → List Argument → M (SlString × List Argument)
number_directive os t (number v ∷ rest) = do t' ← append_number os t v; pure (t', rest)
number_directive os t _ = access none

unfoldable pub cstring_directive :
    Platform → SlString → List Argument → M (SlString × List Argument)
cstring_directive os t (cstring none ∷ rest) = pure (t, rest)
cstring_directive os t (cstring (some c) ∷ rest) = do
  t' ← append_with_buffer os t c
  pure (t', rest)
cstring_directive os t _ = access none

unfoldable pub string_directive : Platform → SlString → List Argument → M (SlString × List Argument)
string_directive os t (string none ∷ rest) = pure (t, rest)
string_directive os t (string (some v) ∷ rest) = do t' ← append_with_string os t v; pure (t', rest)
string_directive os t _ = access none

-- An unknown directive takes no argument.
unfoldable pub append_argument :
    Platform → SlString → ℕ → List Argument → M (SlString × List Argument)
append_argument os t d args =
    if d == b'z'
    then number_directive os t args
    else if d == b's'
    then cstring_directive os t args
    else if d == b'S'
    then string_directive os t args
    else pure (t, args)

-- The loop over the format. With a `%` at the end it reads the terminator as a directive and then
-- runs on, since its count wraps around.
unfoldable pub format_loop : Platform → List ℕ → List Argument → SlString → M SlString
format_loop os [] args t = pure t
format_loop os (c ∷ []) args t = if c == b'%' then access none else put_char t c
format_loop os (c ∷ d ∷ rest) args t =
    if c == b'%'
    then (do r ← append_argument os t d args; format_loop os rest r.1 r.0)
    else (do t' ← put_char t c; format_loop os (d ∷ rest) args t')

unfoldable pub format_buffer : Platform → List ℕ → List Argument → M SlString
format_buffer os format args = do
  t ← create_from_buffer os [] (u64 (length format <<< 1))
  format_loop os format args t
