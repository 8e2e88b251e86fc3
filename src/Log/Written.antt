-- ===== src/Log/Written.antt =====
-- sl_log_append and sl_log_write_buffer: the line that is written.
use mathlib.Core.List.{append_assoc, append-nil}
use cpp_the_right_way.Base.{
  min, ℕ, ◌+◌, ◌-◌, ◌<◌, ◌≤◌, Option, none, some, List, [], ◌∷◌, ◌++◌, Bool, true, false, ◌≡◌, refl,
  sym, ap, ◌∙◌, inl, inr, arith, Bool-cases, Option-cases, ltb, leb, ltb→lt, ltb→le, ◌==◌, ◌&&◌,
  ◌||◌, if◌then◌else◌, length, length-take, take, take-all, take-append_le, take-append_ge,
  replicate, sub64, add64,
}
use cpp_the_right_way.Memory.{memcpy-Filled, read_bytes_lem}
use cpp_the_right_way.Log.{
  Log, Line, Environment, append, append_all, append_pid, append_address, append_error,
  write_buffer, cstring, is_set, level_text, level_error, level_max, max_message_length,
}

-- The buffer holds the first 1024 bytes of `text`.
record Holds (text : List ℕ) (line : Line) : Type 0 where
  pub whole : length line.buffer ≡ 1024
  pub used : line.used ≡ length (take 1024 text)
  pub front : take line.used line.buffer ≡ take 1024 text

take-min : (k : ℕ) (src : List ℕ) → take (min k (length src)) src ≡ take k src
take-min k src = elim (Bool-cases (ltb k (length src))) [
  | inl less ↦ ap (λ n. take n src) (first (ltb→lt _ _ less))
  | inr more ↦
      ap (λ n. take n src) (least (ltb→le _ _ more))
      ∙ (take-all (length src) src (omega arith) ∙ sym (take-all k src (ltb→le _ _ more)))
]
  where
    first : k < length src → min k (length src) ≡ k
    first h = omega arith

    least : length src ≤ k → min k (length src) ≡ length src
    least h = omega arith

-- The bytes that there is room for, behind a text.
cut :
    (text src : List ℕ)
    → take 1024 text ++ take (min (1024 - length (take 1024 text)) (length src)) src
      ≡ take 1024 (text ++ src)
cut text src = elim (Bool-cases (ltb 1024 (length text))) [
  | inl long ↦
      let full : length (take 1024 text) ≡ 1024 =
        omega (arith, length-take 1024 text, ltb→lt _ _ long) in
      let none_left : min (1024 - length (take 1024 text)) (length src) ≡ 0 = omega (arith, full) in
      ap (λ k. take 1024 text ++ take k src) none_left
      ∙ (append-nil (take 1024 text)
          ∙ sym (take-append_le 1024 text src (omega (arith, ltb→lt _ _ long))))
  | inr short ↦
      let fits : length text ≤ 1024 = ltb→le _ _ short in
      let all : take 1024 text ≡ text = take-all 1024 text fits in
      ap (λ l. l ++ take (min (1024 - length l) (length src)) src) all
      ∙ (ap (λ l. text ++ l) (take-min (1024 - length text) src)
          ∙ sym (take-append_ge 1024 text src fits))
]

smaller : (k m : ℕ) → (if ltb k m then k else m) ≡ min k m
smaller k m = ground arith

append-Holds :
    (text src : List ℕ) (line : Line)
    → Holds text line
    → (line' : Line) × (append max_message_length src line ≡ some line') × Holds (text ++ src) line'
unfolding append
append-Holds text src line h =
    let few : length (take 1024 text) ≤ 1024 = omega (arith, length-take 1024 text) in
    let room : sub64 1024 line.used ≡ 1024 - length (take 1024 text) = omega (arith, h.used) in
    let n = if ltb (sub64 1024 line.used) (length src) then sub64 1024 line.used else length src in
    let n_value : n ≡ min (1024 - length (take 1024 text)) (length src) =
      smaller (sub64 1024 line.used) (length src) ∙ ap (λ k. min k (length src)) room in
    let fits : (n ≤ 1024 - length (take 1024 text)) × (n ≤ length src) = omega (arith, n_value) in
    let size : length (take n src) ≡ n = omega (arith, length-take n src) in
    let (after, run, f) =
      memcpy-Filled line.buffer line.used (take n src) (omega (arith, h.whole, h.used, size)) in
    let total : add64 line.used n ≡ line.used + length (take n src) = omega (arith, h.used, size) in
    let together : take (add64 line.used n) after ≡ take 1024 (text ++ src) =
      ap (λ k. take k after) total
      ∙ (f.end
          ∙ (ap (λ l. l ++ take n src) h.front
              ∙ (ap (λ k. take 1024 text ++ take k src) n_value ∙ cut text src))) in
    (
      record { buffer = after; used = add64 line.used n },
      rw run,
      record {
        whole = omega (arith, f.same_length, h.whole);
        used = omega (
          arith,
          ap length together,
          length-take (add64 line.used n) after,
          f.same_length,
          h.whole,
          h.used,
          total,
          size,
        );
        front = together;
      },
    )

-- The texts, one after the other.
abbrev pub joined : List (List ℕ) → List ℕ
joined [] = []
joined (x ∷ xs) = x ++ joined xs

append_all_step :
    (src : List ℕ) (srcs : List (List ℕ)) (line line₁ : Line)
    → append max_message_length src line ≡ some line₁
    → append_all (src ∷ srcs) line ≡ append_all srcs line₁
unfolding append_all
append_all_step src srcs line line₁ run = rw run

append_all-Holds :
    (srcs : List (List ℕ)) (text : List ℕ) (line : Line)
    → Holds text line
    → (line' : Line) × (append_all srcs line ≡ some line') × Holds (text ++ joined srcs) line'
unfolding append_all
append_all-Holds [] text line h = (line, refl, rw (append-nil text) h)
append_all-Holds (src ∷ srcs) text line h =
    let (line₁, run₁, h₁) = append-Holds text src line h in
    let (line₂, run₂, h₂) = append_all-Holds srcs (text ++ src) line₁ h₁ in
    (
      line₂,
      append_all_step src srcs line line₁ run₁ ∙ run₂,
      rw (← append_assoc text src (joined srcs)) h₂,
    )

-- A text that is empty leaves out its part of the line.
abbrev unless_empty : List ℕ → List ℕ → List ℕ
unless_empty [] part = []
unless_empty (c ∷ cs) part = part

is_not_empty : List ℕ → Bool
is_not_empty [] = false
is_not_empty (c ∷ cs) = true

is_set-cstring :
    (array text : List ℕ) → cstring array ≡ some text → is_set array ≡ some (is_not_empty text)
unfolding cstring is_set is_not_empty
is_set-cstring [] text h = cc
is_set-cstring (c ∷ cs) text h = elim (Bool-cases (c == 0)) [
  | inl ended ↦ ground arith
  | inr more ↦ elim (Option-cases (cstring cs)) [
    | inl none_left ↦ absurd (ground arith)
    | inr (rest, e) ↦ let here : text ≡ c ∷ rest = ground arith in rw (here, more)
  ]
]

abbrev pid_part : List ℕ → List ℕ
pid_part pid = unless_empty pid (joined ((b'#' ∷ []) ∷ pid ∷ (b' ' ∷ []) ∷ []))

abbrev address_part : List ℕ → List ℕ → List ℕ
address_part ip port =
    unless_empty ip (unless_empty port (joined (ip ∷ (b':' ∷ []) ∷ port ∷ (b' ' ∷ []) ∷ [])))

abbrev error_part : Environment → ℕ → List ℕ
error_part env level =
    if (level == level_error) && ltb 0 env.errno
    then joined ((b':' ∷ b' ' ∷ []) ∷ env.strerror env.errno ∷ [])
    else []

-- The date, the level, the process, the peer, the message, the error, and the end of the line.
abbrev pub line_text : Environment → ℕ → List ℕ → List ℕ → List ℕ → List ℕ → List ℕ
line_text env level pid ip port message =
    joined (env.date ∷ level_text level ∷ [])
    ++ pid_part pid
    ++ address_part ip port
    ++ joined (message ∷ [])
    ++ error_part env level
    ++ joined ((10 ∷ []) ∷ [])

-- What a stage adds.
abbrev Stage : List ℕ → Line → Option Line → List ℕ → Type 0
Stage text line r part = (line' : Line) × (r ≡ some line') × Holds (text ++ part) line'

append_pid-Holds :
    (log : Log) (pid text : List ℕ) (line : Line)
    → cstring log.pid ≡ some pid
    → Holds text line
    → Stage text line (append_pid log line) (pid_part pid)
unfolding append_pid is_not_empty
append_pid-Holds log [] text line e h =
    (line, rw (is_set-cstring log.pid [] e), rw (append-nil text) h)
append_pid-Holds log (c ∷ cs) text line e h =
    let (line', run, h') =
      append_all-Holds ((b'#' ∷ []) ∷ (c ∷ cs) ∷ (b' ' ∷ []) ∷ []) text line h in
    (line', rw (is_set-cstring log.pid (c ∷ cs) e, e, run), h')

append_address-Holds :
    (log : Log) (ip port text : List ℕ) (line : Line)
    → cstring log.ip_address ≡ some ip
    → cstring log.ip_port ≡ some port
    → Holds text line
    → Stage text line (append_address log line) (address_part ip port)
unfolding append_address is_not_empty
append_address-Holds log [] port text line e g h = (
  line,
  rw (is_set-cstring log.ip_address [] e, is_set-cstring log.ip_port port g),
  rw (append-nil text) h,
)
append_address-Holds log (c ∷ cs) [] text line e g h = (
  line,
  rw (is_set-cstring log.ip_address (c ∷ cs) e, is_set-cstring log.ip_port [] g),
  rw (append-nil text) h,
)
append_address-Holds log (c ∷ cs) (d ∷ ds) text line e g h =
    let (line', run, h') =
      append_all-Holds ((c ∷ cs) ∷ (b':' ∷ []) ∷ (d ∷ ds) ∷ (b' ' ∷ []) ∷ []) text line h in
    (
      line',
      rw (
        is_set-cstring log.ip_address (c ∷ cs) e,
        is_set-cstring log.ip_port (d ∷ ds) g,
        e,
        g,
        run,
      ),
      h',
    )

append_error-Holds :
    (env : Environment) (level : ℕ) (text : List ℕ) (line : Line)
    → Holds text line
    → Stage text line (append_error env level line) (error_part env level)
unfolding append_error
append_error-Holds env level text line h =
    elim (Bool-cases ((level == level_error) && ltb 0 env.errno)) [
      | inl told ↦
          rw told (append_all-Holds ((b':' ∷ b' ' ∷ []) ∷ env.strerror env.errno ∷ []) text line h)
      | inr quiet ↦ rw quiet (line, refl, rw (append-nil text) h)
    ]

empty-Holds : Holds [] (record { buffer = replicate max_message_length 0; used = 0 })
empty-Holds = record { whole = refl; used = refl; front = refl }

-- sl_log_write_buffer, at a level that is kept back, writes nothing. At any other it makes no access
-- out of bounds and writes the first 1024 octets of the line: the date, the level, the process and
-- the peer if they are known, the message, the error if there is one, and the end of the line. `pid`,
-- `ip` and `port` are the texts in the arrays of the log.
pub write_buffer-line_text :
    (env : Environment) (log : Log) (level : ℕ) (message pid ip port : List ℕ)
    → cstring log.pid ≡ some pid
    → cstring log.ip_address ≡ some ip
    → cstring log.ip_port ≡ some port
    → write_buffer env log level message
      ≡ some (
          if ltb level log.min_level || leb level_max level
          then none
          else some (take max_message_length (line_text env level pid ip port message)))
unfolding write_buffer
write_buffer-line_text env log level message pid ip port e f g =
    elim (Bool-cases (ltb level log.min_level || leb level_max level)) [
      | inl quiet ↦ rw quiet
      | inr loud ↦
          let (l₁, r₁, h₁) = append_all-Holds (env.date ∷ level_text level ∷ []) [] _ empty-Holds in
          let (l₂, r₂, h₂) = append_pid-Holds log pid _ l₁ e h₁ in
          let (l₃, r₃, h₃) = append_address-Holds log ip port _ l₂ f g h₂ in
          let (l₄, r₄, h₄) = append_all-Holds (message ∷ []) _ l₃ h₃ in
          let (l₅, r₅, h₅) = append_error-Holds env level _ l₄ h₄ in
          let (l₆, r₆, h₆) = append_all-Holds ((10 ∷ []) ∷ []) _ l₅ h₅ in
          let read = read_bytes_lem l₆.buffer l₆.used (
            omega (
              arith,
              h₆.whole,
              h₆.used,
              length-take 1024 (line_text env level pid ip port message),
            )) in
          rw (loud, r₁, r₂, r₃, r₄, r₅, r₆, read, h₆.front)
    ]
