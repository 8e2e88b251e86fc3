-- ===== src/Log.antt =====
-- sl_log.c: a line of the log, put together in a buffer of fixed size.
-- A `char` array is a list of bytes of its size, and `none` is an access outside an array.
pub mod Written
pub mod Number
pub mod Message
use cpp_the_right_way.Base.{
  ℕ, ◌+◌, Option, none, some, List, [], ◌∷◌, Bool, true, false, ◌&&◌, ◌||◌, not, ltb, leb, ◌==◌,
  if◌then◌else◌, length, take, replicate, get_elem?, add64, sub64,
}
use cpp_the_right_way.Memory.{memcpy, read_bytes, store_at}
use cpp_the_right_way.Strings

abbrev pub max_message_length : ℕ
max_message_length = 1024

abbrev pub max_pid_length : ℕ
max_pid_length = 11

abbrev pub max_ip_length : ℕ
max_ip_length = 16

abbrev pub max_port_length : ℕ
max_port_length = 6

-- The levels are the numbers of the enumeration.
abbrev level_debug : ℕ
level_debug = 0

abbrev level_info : ℕ
level_info = 1

abbrev pub level_error : ℕ
level_error = 2

abbrev pub level_max : ℕ
level_max = 3

pub record Log : Type 0 where
  pub min_level : ℕ
  pub log_fd : ℕ
  pub pid : List ℕ
  pub ip_address : List ℕ
  pub ip_port : List ℕ

infixl 5 ◌>>=◌
abbrev pub ◌>>=◌ {ℓ κ} : {A : Type ℓ} {B : Type κ} → Option A → (A → Option B) → Option B
none >>= f = none
some a >>= f = f a

-- The loops are those of sl_string_itoa, word for word; the digits are closed by a 0.
unfoldable pub itoa : ℕ → List ℕ → ℕ → Option (List ℕ)
itoa value buffer length = do
  (value_length, digits) ← Strings.itoa value buffer length
  store_at digits value_length 0

-- The buffer of a line, with the bytes that are used.
pub record Line : Type 0 where
  pub buffer : List ℕ
  pub used : ℕ

-- sl_log_append: what does not fit is cut off.
unfoldable pub append : ℕ → List ℕ → Line → Option Line
append dest_size src line = do
  let room = sub64 dest_size line.used
  let src_size = if ltb room (length src) then room else length src
  buffer ← memcpy line.buffer line.used (take src_size src)
  some (record { buffer = buffer; used = add64 line.used src_size })

unfoldable pub init : ℕ → ℕ → Log
init min_level log_fd = record {
  min_level = min_level;
  log_fd = log_fd;
  pid = replicate max_pid_length 0;
  ip_address = replicate max_ip_length 0;
  ip_port = replicate max_port_length 0;
}

-- A text up to the 0 that ends it, for strlen; with none it is read behind its end.
unfoldable pub cstring : List ℕ → Option (List ℕ)
cstring [] = none
cstring (c ∷ cs) =
    let rest = cstring cs in
    if c == 0 then some [] else elim rest [ none ↦ none | some text ↦ some (c ∷ text) ]

-- What the system answers: the date that strftime writes, errno, and the text of strerror.
pub record Environment : Type 0 where
  pub date : List ℕ
  pub errno : ℕ
  pub strerror : ℕ → List ℕ

-- "[debug] ", "[info] " and "[error] "
unfoldable pub level_text : ℕ → List ℕ
level_text level =
    if level == level_debug
    then 91 ∷ 100 ∷ 101 ∷ 98 ∷ 117 ∷ 103 ∷ 93 ∷ 32 ∷ []
    else if level == level_info
    then 91 ∷ 105 ∷ 110 ∷ 102 ∷ 111 ∷ 93 ∷ 32 ∷ []
    else 91 ∷ 101 ∷ 114 ∷ 114 ∷ 111 ∷ 114 ∷ 93 ∷ 32 ∷ []

-- Is `text[0]` other than 0?
unfoldable pub is_set : List ℕ → Option Bool
is_set text = do c ← get_elem? text 0; some (not (c == 0))

unfoldable pub append_all : List (List ℕ) → Line → Option Line
append_all [] line = some line
append_all (src ∷ srcs) line = do line' ← append max_message_length src line; append_all srcs line'

unfoldable pub append_pid : Log → Line → Option Line
append_pid log line = do
  has_pid ← is_set log.pid
  elim has_pid [
    | true ↦ do pid ← cstring log.pid; append_all ((b'#' ∷ []) ∷ pid ∷ (b' ' ∷ []) ∷ []) line
    | false ↦ some line
  ]

unfoldable pub append_address : Log → Line → Option Line
append_address log line = do
  has_ip ← is_set log.ip_address
  has_port ← is_set log.ip_port
  elim (has_ip && has_port) [
    | true ↦ do
      ip_address ← cstring log.ip_address
      ip_port ← cstring log.ip_port
      append_all (ip_address ∷ (b':' ∷ []) ∷ ip_port ∷ (b' ' ∷ []) ∷ []) line
    | false ↦ some line
  ]

unfoldable pub append_error : Environment → ℕ → Line → Option Line
append_error env level line =
    if (level == level_error) && ltb 0 env.errno
    then append_all ((b':' ∷ b' ' ∷ []) ∷ env.strerror env.errno ∷ []) line
    else some line

-- sl_log_write_buffer: the octets that are written, or `some none` where the level keeps them back.
unfoldable pub write_buffer : Environment → Log → ℕ → List ℕ → Option (Option (List ℕ))
unfolding append_pid append_address append_error append_all
write_buffer env log level message =
    if ltb level log.min_level || leb level_max level then some none else (do
      dated ←
          append_all (env.date ∷ level_text level ∷ [])
            (record { buffer = replicate max_message_length 0; used = 0 })
      named ← append_pid log dated
      placed ← append_address log named
      told ← append_all (message ∷ []) placed
      explained ← append_error env level told
      ended ← append_all ((10 ∷ []) ∷ []) explained
      written ← read_bytes ended.buffer ended.used
      some (some written))

unfoldable pub set_pid : Log → ℕ → Option Log
set_pid log pid = do digits ← itoa pid log.pid max_pid_length; some (record log { pid = digits })

-- `text` is what inet_ntoa returns, of which 15 bytes are copied, and `port` is in the order of the
-- host.
unfoldable pub set_ip_address_port : Log → List ℕ → ℕ → Option Log
set_ip_address_port log text port = do
  bytes ← read_bytes text 15
  ip_address ← memcpy log.ip_address 0 bytes
  digits ← itoa port log.ip_port max_port_length
  some (record log { ip_address = ip_address; ip_port = digits })
