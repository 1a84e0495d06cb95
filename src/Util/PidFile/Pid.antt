-- ===== src/Util/PidFile/Pid.antt =====
-- src/util/src/pid_file.cpp: the number in a PID file, as `operator<<` writes it and `operator>>` reads
-- an `int`.
use file_inspect_key_analyse.Base.{
  ℕ, ℤ, zero, suc, pos, ◌+◌, ◌-◌, ◌≤◌, ◌<◌, ◌*◌, Bytes, codes, Bool, ◌&&◌, ◌||◌, [], ◌∷◌, ◌++◌,
  Option, none, some, if◌then◌else◌, ◌≡◌, refl, sym, ap, ◌∙◌, inl, inr, arith, Bool-cases, Result,
  ok, thrown, ltb, ◌==◌,
}
use file_inspect_key_analyse.Base.{negsuc}
use Prim.Native.Nat.{◌/◌, ◌%◌}

unfoldable pub is_digit : ℕ → Bool
is_digit c = ltb 47 c && ltb c 58

-- A blank, or one of tab, newline, vertical tab, form feed and carriage return.
unfoldable pub is_space : ℕ → Bool
is_space c = c == 32 || ltb 8 c && ltb c 14

-- The digits of a number in front of a text; `fuel` bounds their number.
unfoldable pub write_digits : ℕ → ℕ → Bytes → Bytes
write_digits zero n rest = rest
write_digits (suc fuel) n rest =
    let more = write_digits fuel (n / 10) ((b'0' + n % 10) ∷ rest) in
    if ltb n 10 then (b'0' + n) ∷ rest else more

-- `<< getpid() << "\n"`
unfoldable pub pid_text : ℕ → Bytes
unfolding write_digits
pid_text pid = write_digits (suc pid) pid (codes "\n")

-- The number that the digits at the start of a text continue.
unfoldable pub read_digits : ℕ → Bytes → ℕ
unfolding is_digit
read_digits so_far [] = so_far
read_digits so_far (c ∷ s) =
    let more = read_digits (so_far * 10 + (c - b'0')) s in if is_digit c then more else so_far

unfoldable pub skip_spaces : Bytes → Bytes
unfolding is_space
skip_spaces [] = []
skip_spaces (c ∷ s) = let rest = skip_spaces s in if is_space c then rest else c ∷ s

-- An `int`: what does not fit becomes the nearest one.
abbrev pub int_max : ℕ
int_max = 2147483647

unfoldable pub clamped : ℕ → ℤ
clamped n = if ltb int_max n then pos int_max else pos n

unfoldable pub clamped_negative : ℕ → ℤ
clamped_negative zero = pos 0
clamped_negative (suc n) = if ltb int_max n then negsuc int_max else negsuc n

-- `>> pid`; a text with no number gives 0.
unfoldable pub read_int : Bytes → ℤ
unfolding read_digits clamped clamped_negative
read_int [] = pos 0
read_int (c ∷ s) =
    if c == b'-'
    then clamped_negative (read_digits 0 s)
    else if c == b'+'
    then clamped (read_digits 0 s)
    else clamped (read_digits 0 (c ∷ s))

-- `pidfile_lock::read_pid`; `content` gives what a file holds, if it can be opened.
unfoldable pub read_pid : (Bytes → Option Bytes) → Bytes → Result ℤ
unfolding read_int skip_spaces
read_pid content pid_path = elim (content pid_path) [
  | none ↦ thrown (codes "Cannot open PID file: " ++ pid_path)
  | some text ↦ ok (read_int (skip_spaces text))
]

-- The digits are read back.
read_digits-write_digits :
    (fuel n : ℕ) (rest : Bytes)
    → n < fuel
    → read_digits 0 (write_digits fuel n rest) ≡ read_digits n rest
unfolding read_digits write_digits
read_digits-write_digits zero n rest h = absurd (omega arith)
read_digits-write_digits (suc fuel) n rest h =
    ground (arith, read_digits-write_digits fuel (n / 10) ((b'0' + n % 10) ∷ rest))

-- A number begins with a digit.
write_digits-head :
    (fuel n : ℕ) (rest : Bytes)
    → n < fuel
    → (c : ℕ) × (s : Bytes) × (write_digits fuel n rest ≡ c ∷ s) × (b'0' ≤ c) × (c < 58)
unfolding write_digits
write_digits-head zero n rest h = absurd (omega arith)
write_digits-head (suc fuel) n rest h = elim (Bool-cases (ltb n 10)) [
  | inl small ↦ (b'0' + n, rest, rw small refl, omega arith, ground arith)
  | inr large ↦
      let (c, s, e, low, high) =
        write_digits-head fuel (n / 10) ((b'0' + n % 10) ∷ rest) (ground arith) in
      (c, s, rw large e, low, high)
]

read_int-digit :
    (c : ℕ) (s : Bytes)
    → b'0' ≤ c
    → c < 58
    → read_int (skip_spaces (c ∷ s)) ≡ clamped (read_digits 0 (c ∷ s))
unfolding read_int skip_spaces is_space
read_int-digit c s low high = ground arith

-- The number of every process that fits an `int` is read back from the file that holds it.
pub read_pid-pid_text :
    (content : Bytes → Option Bytes) (pid_path : Bytes) (pid : ℕ)
    → pid ≤ int_max
    → content pid_path ≡ some (pid_text pid)
    → read_pid content pid_path ≡ ok (pos pid)
unfolding read_pid pid_text clamped
read_pid-pid_text content pid_path pid fits there =
    let (c, s, e, low, high) = write_digits-head (suc pid) pid (codes "\n") (omega arith) in
    let back : read_digits 0 (c ∷ s) ≡ pid =
      ap (read_digits 0) (sym e)
      ∙ read_digits-write_digits (suc pid) pid (codes "\n") (omega arith) in
    let same : clamped pid ≡ pos pid = ground arith in
    let read =
      ap (λ t. read_int (skip_spaces t)) e ∙ read_int-digit c s low high ∙ ap clamped back ∙ same in
    rw (there, read_pid) (ap ok read)
