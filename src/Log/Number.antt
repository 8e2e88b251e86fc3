-- ===== src/Log/Number.antt =====
-- sl_log_itoa, sl_log_set_pid and sl_log_set_ip_address_port: the texts of numbers.
use native.Mathlib.Nat.{pow-suc}
use cpp_the_right_way.Base.{
  ℕ, zero, suc, ◌+◌, ◌/◌, ◌%◌, ◌^◌, ◌<◌, ◌≤◌, some, List, [], ◌∷◌, ◌++◌, ◌≡◌, ◌≢◌, refl, sym, ap,
  ◌∙◌, inl, inr, arith, Bool-cases, ◌==◌, true, false, length, length-append, length-set,
  length-take, take, drop, set, take-set_le, drop-set_self, take-append-drop,
}
use cpp_the_right_way.Memory.{store_at_lem, memcpy-Filled, read_bytes_lem}
use cpp_the_right_way.Strings.Digits.{decimal, decimal_zero, decimal_more, itoa-decimal}
use cpp_the_right_way.Log.{
  Log, itoa, cstring, set_pid, set_ip_address_port, max_ip_length, max_port_length, max_pid_length,
}

abbrev pub AllNonzero : List ℕ → Type 0
AllNonzero [] = Unit {0}
AllNonzero (c ∷ cs) = (c ≢ 0) × AllNonzero cs

AllNonzero-append : (xs : List ℕ) (c : ℕ) → AllNonzero xs → c ≢ 0 → AllNonzero (xs ++ c ∷ [])
AllNonzero-append [] c h k = (k, tt)
AllNonzero-append (x ∷ xs) c h k = (h.0, AllNonzero-append xs c h.1 k)

decimal-AllNonzero : (l value : ℕ) → AllNonzero (decimal l value)
unfolding decimal
decimal-AllNonzero zero value = tt
decimal-AllNonzero (suc l) value = elim (Bool-cases (value == 0)) [
  | inl none_left ↦ rw (decimal_zero l value none_left) tt
  | inr more ↦ rw (decimal_more l value more) (
      AllNonzero-append (decimal l (value / 10)) (b'0' + value % 10)
        (decimal-AllNonzero l (value / 10)) (omega arith))
]

-- A number below 10 ^ m has at most m digits.
length-decimal_le : (l m value : ℕ) → value < 10 ^ m → length (decimal l value) ≤ m
unfolding decimal
length-decimal_le zero m value h = omega arith
length-decimal_le (suc l) zero value h =
    let none_left : (value == 0) ≡ true = ground arith in
    rw (decimal_zero l value none_left) (omega arith)
length-decimal_le (suc l) (suc m) value h = elim (Bool-cases (value == 0)) [
  | inl none_left ↦ rw (decimal_zero l value none_left) (omega arith)
  | inr more ↦ rw (decimal_more l value more) (
      omega (
        arith,
        length-decimal_le l m (value / 10) (omega (arith, pow-suc 10 m)),
        length-append (decimal l (value / 10)) ((b'0' + value % 10) ∷ []),
      ))
]

pub cstring-closed : (text tail : List ℕ) → AllNonzero text → cstring (text ++ 0 ∷ tail) ≡ some text
unfolding cstring
cstring-closed [] tail h = refl
cstring-closed (c ∷ cs) tail h =
    let more : (c == 0) ≡ false = ground (arith, h.0) in rw (more, cstring-closed cs tail h.1)

closed_array :
    (b ds : List ℕ)
    → take (length ds) b ≡ ds
    → length ds < length b
    → AllNonzero ds
    → cstring (set b (length ds) 0) ≡ some ds
closed_array b ds front room h =
    let n = length ds in
    let split : set b n 0 ≡ ds ++ 0 ∷ drop (suc n) b =
      sym (take-append-drop n (set b n 0))
      ∙ (ap (λ l. l ++ drop n (set b n 0)) (take-set_le n n b 0 (omega arith) ∙ front)
          ∙ ap (λ l. ds ++ l) (drop-set_self n b 0 room)) in
    ap cstring split ∙ cstring-closed ds (drop (suc n) b) h

-- sl_log_itoa on a number with fewer digits than the array has places: no access out of bounds, and
-- the array holds the decimal digits, closed by a 0.
itoa-cstring :
    (value m : ℕ) (buffer : List ℕ)
    → value < 10 ^ m
    → m < length buffer
    → length buffer < 2 ^ 64
    → value < 10 ^ length buffer
    → (b : List ℕ) × (itoa value buffer (length buffer) ≡ some b)
      × (cstring b ≡ some (decimal (length buffer) value))
      × (length b ≡ length buffer)
unfolding itoa
itoa-cstring value m buffer small room fits below =
    let ds = decimal (length buffer) value in
    let (b, run, holds, size) = itoa-decimal value buffer (length buffer) refl fits below in
    let few = length-decimal_le (length buffer) m value small in
    (
      set b (length ds) 0,
      rw (run, store_at_lem b (length ds) 0 (omega (arith, size))),
      closed_array b ds holds (omega (arith, size)) (decimal-AllNonzero (length buffer) value),
      length-set b (length ds) 0 ∙ size,
    )

-- sl_log_set_pid on a log whose array of the process number has its size, for every number of 32
-- bits: no access out of bounds, the number reads as its decimal digits, and the other arrays stay.
pub set_pid-cstring :
    (log : Log) (pid : ℕ)
    → length log.pid ≡ max_pid_length
    → pid < 2 ^ 32
    → (log' : Log) × (set_pid log pid ≡ some log')
      × (cstring log'.pid ≡ some (decimal max_pid_length pid))
      × (log'.ip_address ≡ log.ip_address)
      × (log'.ip_port ≡ log.ip_port)
unfolding set_pid
set_pid-cstring log pid size small =
    let (b, run, text, _) =
      itoa-cstring pid 10 log.pid (omega arith) (omega (arith, size)) (omega (arith, size))
        (rw size (omega arith)) in
    (record log { pid = b }, rw (← size, run), rw (← size) text, refl, refl)

-- sl_log_set_ip_address_port on a log whose arrays have their sizes, for every port, where inet_ntoa
-- points to 15 bytes at least: no access out of bounds, the first 15 bytes of the address are those
-- of inet_ntoa, and the port reads as its decimal digits.
pub set_ip_address_port-cstring :
    (log : Log) (text : List ℕ) (port : ℕ)
    → length log.ip_address ≡ max_ip_length
    → length log.ip_port ≡ max_port_length
    → 15 ≤ length text
    → port < 2 ^ 16
    → (log' : Log) × (set_ip_address_port log text port ≡ some log')
      × (take 15 log'.ip_address ≡ take 15 text)
      × (cstring log'.ip_port ≡ some (decimal max_port_length port))
      × (log'.pid ≡ log.pid)
unfolding set_ip_address_port
set_ip_address_port-cstring log text port ip_size port_size long small =
    let front = take 15 text in
    let count = length-take 15 text in
    let (b, run, shown, _) =
      itoa-cstring port 5 log.ip_port (omega arith) (omega (arith, port_size))
        (omega (arith, port_size)) (rw port_size (omega arith)) in
    let (a, copied, filled) =
      memcpy-Filled log.ip_address 0 front (omega (arith, ip_size, count)) in
    let fifteen : 0 + length front ≡ 15 = omega (arith, count) in
    (
      record log { ip_address = a; ip_port = b },
      rw (read_bytes_lem text 15 long, copied, ← port_size, run),
      ap (λ n. take n a) (sym fifteen) ∙ filled.end,
      rw (← port_size) shown,
      refl,
    )
