-- ===== src/Ingestd/Ids.antt =====
-- `generate_unique_id` of src/ingestd/src/ingestd.cpp with the numbers that it is made of: the time in
-- milliseconds and a random number.
use file_inspect_key_analyse.Base.{
  ℕ, zero, suc, ◌+◌, ◌≤◌, ◌<◌, ◌*◌, Bytes, [], ◌∷◌, ◌++◌, All, All-append, ◌≡◌, refl, sym, ap, ◌∙◌,
  inl, inr, ◌↔◌, arith, Bool-cases, ok, length, take, drop, ltb, length-append, drop-append,
  take-append, take_all,
}
use Prim.Native.Nat.{◌/◌, ◌%◌}
use mathlib.Core.List.{append_assoc}
use file_inspect_key_analyse.Global.CString.{c_str}
use file_inspect_key_analyse.Global.FileJob.{FileJob, FileJobShm, to_file_job}
use file_inspect_key_analyse.Util.Pickup.{FileSystem}
use file_inspect_key_analyse.Util.PidFile.Pid.{write_digits, read_digits}
use file_inspect_key_analyse.Ingestd.{generate_unique_id, submitted}
use file_inspect_key_analyse.Ingestd.Submission.{submitted_ok, new_job}

-- `std::to_string` of a number that is not negative: a `long long` has at most 19 digits.
unfoldable pub to_string : ℕ → Bytes
unfolding write_digits
to_string n = write_digits 20 n []

-- The milliseconds and the number that were drawn.
unfoldable pub drawn_id : ℕ → ℕ → Bytes
unfolding generate_unique_id to_string
drawn_id t rand_hex = generate_unique_id (to_string t) (to_string rand_hex)

abbrev pub power_of_ten : ℕ → ℕ
power_of_ten zero = 1
power_of_ten (suc k) = 10 * power_of_ten k

power_pos : (k : ℕ) → 1 ≤ power_of_ten k
power_pos zero = omega arith
power_pos (suc k) = omega (arith, power_pos k)

-- The digits are read back, if there is room for them.
read_digits-write_digits :
    (fuel n : ℕ) (rest : Bytes)
    → n < power_of_ten fuel
    → read_digits 0 (write_digits (suc fuel) n rest) ≡ read_digits n rest
unfolding read_digits write_digits
read_digits-write_digits zero n rest h = ground arith
read_digits-write_digits (suc fuel) n rest h =
    ground (arith, read_digits-write_digits fuel (n / 10) ((b'0' + n % 10) ∷ rest))

write_digits-append :
    (fuel n : ℕ) (rest : Bytes) → write_digits fuel n rest ≡ write_digits fuel n [] ++ rest
unfolding write_digits
write_digits-append zero n rest = refl
write_digits-append (suc fuel) n rest = elim (Bool-cases (ltb n 10)) [
  | inl small ↦ rw small refl
  | inr large ↦
      let d = b'0' + n % 10 in
      rw large (
        write_digits-append fuel (n / 10) (d ∷ rest)
        ∙ sym (append_assoc (write_digits fuel (n / 10) []) (d ∷ []) rest)
        ∙ ap (λ s. s ++ rest) (sym (write_digits-append fuel (n / 10) (d ∷ []))))
]

length-write_digits :
    (fuel k n : ℕ) (rest : Bytes)
    → k < fuel
    → power_of_ten k ≤ n
    → n < power_of_ten (suc k)
    → length (write_digits fuel n rest) ≡ suc k + length rest
unfolding write_digits
length-write_digits zero k n rest small low high = absurd (omega arith)
length-write_digits (suc fuel) zero n rest small low high = ground arith
length-write_digits (suc fuel) (suc k) n rest small low high =
    let up = power_pos k in
    ground (arith, length-write_digits fuel k (n / 10) ((b'0' + n % 10) ∷ rest))

write_digits-le :
    (fuel n : ℕ) (rest : Bytes) → length (write_digits fuel n rest) ≤ fuel + length rest
unfolding write_digits
write_digits-le zero n rest = omega arith
write_digits-le (suc fuel) n rest =
    ground (arith, write_digits-le fuel (n / 10) ((b'0' + n % 10) ∷ rest))

-- A text without a NUL.
abbrev IsFull : Bytes → Type 0
IsFull s = All (λ c. 1 ≤ c) s

write_digits-IsFull : (fuel n : ℕ) (rest : Bytes) → IsFull rest → IsFull (write_digits fuel n rest)
unfolding write_digits
write_digits-IsFull zero n rest h = h
write_digits-IsFull (suc fuel) n rest h = elim (Bool-cases (ltb n 10)) [
  | inl small ↦ rw small (omega arith, h)
  | inr large ↦
      rw large (write_digits-IsFull fuel (n / 10) ((b'0' + n % 10) ∷ rest) (omega arith, h))
]

c_str-IsFull : (s : Bytes) → IsFull s → c_str s ≡ s
unfolding c_str
c_str-IsFull [] h = refl
c_str-IsFull (c ∷ s) h = let nonzero : 1 ≤ c = h.0 in ground (arith, c_str-IsFull s h.1)

to_string-IsFull : (n : ℕ) → IsFull (to_string n)
unfolding to_string
to_string-IsFull n = write_digits-IsFull 20 n [] tt

-- An id is read back whole.
drawn_id-whole : (t r : ℕ) → take 63 (c_str (drawn_id t r)) ≡ drawn_id t r
unfolding drawn_id generate_unique_id to_string
drawn_id-whole t r =
    let full : IsFull (drawn_id t r) = (
      omega arith,
      (
        omega arith,
        (
          omega arith,
          (
            omega arith,
            All-append (λ c. 1 ≤ c) (to_string t) (to_string r) (to_string-IsFull t)
                (to_string-IsFull r),
          ),
        ),
      ),
    ) in
    ap (take 63) (c_str-IsFull (drawn_id t r) full)
    ∙ take_all 63 (drawn_id t r) (
        omega (
          arith,
          length-append {0} (to_string t) (to_string r),
          write_digits-le 20 t [],
          write_digits-le 20 r [],
        ))

to_string_inj :
    (n n' : ℕ) → n < power_of_ten 19 → n' < power_of_ten 19 → to_string n ≡ to_string n' → n ≡ n'
unfolding to_string read_digits
to_string_inj n n' h h' e =
    sym (read_digits-write_digits 19 n [] h)
    ∙ ap (read_digits 0) e
    ∙ read_digits-write_digits 19 n' [] h'

length-to_string : (t : ℕ) → power_of_ten 12 ≤ t → t < power_of_ten 13 → length (to_string t) ≡ 13
unfolding to_string
length-to_string t low high = length-write_digits 20 12 t [] (omega arith) low high

-- The milliseconds from September 2001 to November 2286, and the numbers of the distribution.
abbrev pub IsDrawn : ℕ → ℕ → Type 0
IsDrawn t rand_hex = (power_of_ten 12 ≤ t) × (t < power_of_ten 13) × (rand_hex ≤ 65535)

drawn_id_inj :
    (t t' r r' : ℕ)
    → IsDrawn t r
    → IsDrawn t' r'
    → drawn_id t r ≡ drawn_id t' r'
    → (t ≡ t') × (r ≡ r')
unfolding drawn_id generate_unique_id
drawn_id_inj t t' r r' (low, high, small) (low', high', small') e =
    let digits : to_string t ++ to_string r ≡ to_string t' ++ to_string r' = ap (drop 4) e in
    let size : length (to_string t) ≡ length (to_string t') =
      length-to_string t low high ∙ sym (length-to_string t' low' high') in
    let times : to_string t ≡ to_string t' =
      sym (take-append (to_string t) (to_string r))
      ∙ (λ i. take (size i) (digits i))
      ∙ take-append (to_string t') (to_string r') in
    let numbers : to_string r ≡ to_string r' =
      sym (drop-append (to_string t) (to_string r))
      ∙ (λ i. drop (size i) (digits i))
      ∙ drop-append (to_string t') (to_string r') in
    (
      to_string_inj t t' (omega arith) (omega arith) times,
      to_string_inj r r' (omega arith) (omega arith) numbers,
    )

-- Two ids that are drawn between September 2001 and November 2286 reach the queue manager whole: the
-- jobs of the two uploads, as it reads them, have the same id exactly if the milliseconds and the
-- random numbers are the same.
pub submitted_iff :
    (F : FileSystem) (t t' r r' : ℕ) (dst dst' : Bytes)
    → IsDrawn t r
    → IsDrawn t' r'
    → (m m' : FileJobShm) × (job job' : FileJob) × (submitted F (drawn_id t r) dst ≡ ok m)
      × (submitted F (drawn_id t' r') dst' ≡ ok m')
      × (to_file_job m ≡ ok job)
      × (to_file_job m' ≡ ok job')
      × ((job.job_id ≡ job'.job_id) ↔ ((t ≡ t') × (r ≡ r')))
submitted_iff F t t' r r' dst dst' d d' =
    let (m, made, read, _) = submitted_ok F (drawn_id t r) dst in
    let (m', made', read', _) = submitted_ok F (drawn_id t' r') dst' in
    (
      m,
      m',
      new_job (drawn_id t r) dst,
      new_job (drawn_id t' r') dst',
      made,
      made',
      read,
      read',
      (
        (λ e. drawn_id_inj t t' r r' d d' (sym (drawn_id-whole t r) ∙ e ∙ drawn_id-whole t' r')),
        (λ h i. take 63 (c_str (drawn_id (h.0 i) (h.1 i)))),
      ),
    )
