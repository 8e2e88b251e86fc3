-- ===== src/Log/Message.antt =====
-- sl_log_write and sl_log_write_format: the messages that the program logs.
use cpp_the_right_way.Base.{
  ℕ, ◌*◌, ◌^◌, ◌≤◌, ◌<◌, Option, none, some, List, ◌≡◌, refl, ap, ◌∙◌, ◌⊎◌, inl, inr, arith,
  if◌then◌else◌, ◌||◌, ◌&&◌, ◌==◌, ltb, leb, length, take,
}
use cpp_the_right_way.Arena.{Platform, Store, pow2_size}
use cpp_the_right_way.Run.{
  M, Run, ok, failed, fault, access, attempt, ◌>>=◌, Safe, attempt-ok, attempt-failed,
}
use cpp_the_right_way.Memory.{read_bytes, read_bytes_lem}
use cpp_the_right_way.Strings.{SlString, Argument, contents, format_buffer}
use cpp_the_right_way.Strings.Append.{IsString}
use cpp_the_right_way.Strings.Fits.{Fits, format_buffer-Fits}
use cpp_the_right_way.Log.{
  Log, Environment, cstring, write_buffer, max_message_length, level_max, level_error,
}
use cpp_the_right_way.Log
use cpp_the_right_way.Log.Written.{line_text, write_buffer-line_text}

-- The errno that sl_log_write_buffer leaves behind.
unfoldable errno_after : Environment → Log → ℕ → ℕ
errno_after env log level =
    if ltb level log.min_level || leb level_max level
    then env.errno
    else if (level == level_error) && ltb 0 env.errno
    then 0
    else env.errno

-- `message` is an array that ends with a 0.
unfoldable pub write : Environment → Log → ℕ → List ℕ → Option (Option (List ℕ))
unfolding write_buffer
write env log level message = Log.◌>>=◌ (cstring message) (λ text. write_buffer env log level text)

-- The octets of the message that is formatted, or of the format where there is no memory.
unfoldable message_octets : List ℕ → Option SlString → Option (List ℕ)
message_octets format none = some format
message_octets format (some message) = read_bytes message.buffer message.length

-- What is written, or `none` where the level keeps it back.
unfoldable pub write_format :
    Platform → Environment → Log → ℕ → List ℕ → List Argument → M (Option (List ℕ))
unfolding message_octets write_buffer
write_format os env log level format args = do
  message ← attempt (format_buffer os format args)
  octets ← access (message_octets format message)
  access (write_buffer env log level octets)

-- What a call with a message comes to.
abbrev pub logged : Environment → Log → ℕ → List ℕ → List ℕ → List ℕ → List ℕ → Option (List ℕ)
logged env log level pid ip port message =
    if ltb level log.min_level || leb level_max level
    then none
    else some (take max_message_length (line_text env level pid ip port message))

-- The two ways of a call: with what is formatted, and without.
write_formatted :
    (os : Platform) (env : Environment) (log : Log) (level : ℕ) (format : List ℕ)
    (args : List Argument) (t : SlString) (octets : List ℕ) (line : Option (List ℕ)) (s s' : Store)
    → format_buffer os format args s ≡ ok t s'
    → read_bytes t.buffer t.length ≡ some octets
    → write_buffer env log level octets ≡ some line
    → write_format os env log level format args s ≡ ok line s'
unfolding write_format message_octets
write_formatted os env log level format args t octets line s s' run read written =
    attempt-ok (format_buffer os format args) _ s t s' run ∙ (rw (read, written) refl)

write_unformatted :
    (os : Platform) (env : Environment) (log : Log) (level : ℕ) (format : List ℕ)
    (args : List Argument) (line : Option (List ℕ)) (s s' : Store)
    → format_buffer os format args s ≡ failed s'
    → write_buffer env log level format ≡ some line
    → write_format os env log level format args s ≡ ok line s'
unfolding write_format message_octets
write_unformatted os env log level format args line s s' run written =
    attempt-failed (format_buffer os format args) _ s s' run ∙ (rw written refl)

-- sl_log_write_format with a format and arguments for which the formatter has room (`Fits`), on a log
-- whose arrays hold texts: it makes no access out of bounds. Where the formatter returns a string,
-- the first 1024 octets of the line with the formatted message are written; where it returns NULL,
-- those of the line with the format itself; and nothing where the level is kept back.
pub write_format-line_text :
    (os : Platform) (env : Environment) (log : Log) (level : ℕ) (format : List ℕ)
    (args : List Argument) (bytes pid ip port : List ℕ) (s : Store)
    → cstring log.pid ≡ some pid
    → cstring log.ip_address ≡ some ip
    → cstring log.ip_port ≡ some port
    → 0 < length format
    → length format ≤ 2 ^ 60
    → Fits format args 0 (pow2_size (2 * length format)) bytes
    → (s' : Store) × (((t : SlString) × (format_buffer os format args s ≡ ok t s')
          × (write_format os env log level format args s
              ≡ ok (logged env log level pid ip port bytes) s'))
        ⊎ ((format_buffer os format args s ≡ failed s')
            × (write_format os env log level format args s
                ≡ ok (logged env log level pid ip port format) s')))
write_format-line_text os env log level format args bytes pid ip port s e f g pos small fits =
    go (format_buffer os format args s) refl
      (format_buffer-Fits os format args bytes s pos small fits)
  where
    go :
        (r : Run SlString)
        → format_buffer os format args s ≡ r
        → Safe r (λ t _. IsString t × (contents t ≡ bytes))
        → (s' : Store) × (((t : SlString) × (format_buffer os format args s ≡ ok t s')
              × (write_format os env log level format args s
                  ≡ ok (logged env log level pid ip port bytes) s'))
            ⊎ ((format_buffer os format args s ≡ failed s')
                × (write_format os env log level format args s
                    ≡ ok (logged env log level pid ip port format) s')))
    go (ok t s') run h =
        let octets : read_bytes t.buffer t.length ≡ some bytes =
          read_bytes_lem t.buffer t.length (omega (arith, h.0.within, h.0.whole)) ∙ ap some h.1 in
        let line = write_buffer-line_text env log level bytes pid ip port e f g in
        (
          s',
          inl (t, run, write_formatted os env log level format args t bytes _ s s' run octets line),
        )
    go (failed s') run h =
        let line = write_buffer-line_text env log level format pid ip port e f g in
        (s', inr (run, write_unformatted os env log level format args _ s s' run line))
    go fault run h = absurd h
