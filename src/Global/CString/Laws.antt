-- ===== src/Global/CString/Laws.antt =====
-- A text that was written into an array is read back up to its first NUL and the array's size.
use file_inspect_key_analyse.Base.{
  >>=-ok_parts, ℕ, zero, suc, ◌<◌, Bytes, [], ◌∷◌, ◌==◌, if◌then◌else◌, ok, undefined, ◌>>=◌, take,
  length, ◌≡◌, refl, arith, ap,
}
use file_inspect_key_analyse.Global.CString.{
  zeros, c_str, strncpy, read_c_string, copy_terminated, IsTerminated, HasNoNul,
}

read_c_string-zeros : (n : ℕ) → read_c_string (strncpy n [] (zeros (suc n))) ≡ ok []
unfolding read_c_string strncpy
read_c_string-zeros zero = refl
read_c_string-zeros (suc n) = refl

-- What is read back after `strncpy(a, s, n)` into a zeroed array of more than `n` bytes.
pub read_c_string-strncpy :
    (n : ℕ) (s : Bytes) → read_c_string (strncpy n s (zeros (suc n))) ≡ ok (take n (c_str s))
unfolding read_c_string strncpy c_str
read_c_string-strncpy zero s = refl
read_c_string-strncpy (suc n) [] = refl
read_c_string-strncpy (suc n) (c ∷ s) = ground (arith, read_c_string-strncpy n s)

length-zeros : (n : ℕ) → length (zeros n) ≡ n
length-zeros zero = refl
length-zeros (suc n) = omega (arith, length-zeros n)

pub length-strncpy : (n : ℕ) (s d : Bytes) → length (strncpy n s d) ≡ length d
unfolding strncpy
length-strncpy zero s d = refl
length-strncpy (suc n) s [] = refl
length-strncpy (suc n) [] (d ∷ ds) = omega (arith, length-strncpy n [] ds)
length-strncpy (suc n) (c ∷ s) (d ∷ ds) =
    omega (arith, length-strncpy n (if c == 0 then [] else s) ds)

pub strncpy-IsTerminated : (n : ℕ) (s : Bytes) → IsTerminated (strncpy n s (zeros (suc n)))
unfolding strncpy
strncpy-IsTerminated zero s = tt
strncpy-IsTerminated (suc n) [] = tt
strncpy-IsTerminated (suc n) (zero ∷ s) = tt
strncpy-IsTerminated (suc n) (suc c ∷ s) = strncpy-IsTerminated n (if suc c == 0 then [] else s)

-- `read_c_string` is defined exactly on the arrays that hold a NUL.
pub read_c_string_ok :
    (a : Bytes)
    → IsTerminated a
    → (s : Bytes) × (read_c_string a ≡ ok s) × (length s < length a) × HasNoNul s
unfolding read_c_string
read_c_string_ok [] h = absurd h
read_c_string_ok (zero ∷ cs) h = ([], refl, omega arith, tt)
read_c_string_ok (suc c ∷ cs) h =
    let (s, e, l, p) = read_c_string_ok cs h in (suc c ∷ s, ground arith, omega arith, p)

read_c_string_undefined : (a : Bytes) → HasNoNul a → read_c_string a ≡ undefined
unfolding read_c_string
read_c_string_undefined [] h = refl
read_c_string_undefined (zero ∷ cs) h = absurd h
read_c_string_undefined (suc c ∷ cs) h = ground (arith, read_c_string_undefined cs h)

pub c_str_id : (s : Bytes) → HasNoNul s → c_str s ≡ s
unfolding c_str
c_str_id [] h = refl
c_str_id (zero ∷ s) h = absurd h
c_str_id (suc c ∷ s) h = ground (arith, c_str_id s h)

-- What the array holds after `copy` and the terminator written by `at`.
after_copy : ℕ → Bytes → Bytes
after_copy zero s = 0 ∷ []
after_copy (suc n) [] = zeros (suc (suc n))
after_copy (suc n) (c ∷ s) = c ∷ after_copy n s

copy_terminated_lem : (n : ℕ) (s : Bytes) → copy_terminated n s ≡ ok (after_copy n s)
unfolding copy_terminated after_copy
copy_terminated_lem zero s = refl
copy_terminated_lem (suc n) [] = refl
copy_terminated_lem (suc n) (c ∷ s) = ap (λ r. r >>= λ a. ok (c ∷ a)) (copy_terminated_lem n s)

after_copy_lem :
    (n : ℕ) (s : Bytes)
    → (read_c_string (after_copy n s) ≡ ok (take n (c_str s))) × (length (after_copy n s) ≡ suc n)
unfolding after_copy read_c_string c_str
after_copy_lem zero s = (refl, refl)
after_copy_lem (suc n) [] = (refl, omega (arith, length-zeros n))
after_copy_lem (suc n) (c ∷ s) = ground (arith, after_copy_lem n s)

-- `copy` and the terminator never leave the array, and are read back as `strncpy` is.
pub copy_terminated_ok :
    (n : ℕ) (s : Bytes)
    → (a : Bytes) × (copy_terminated n s ≡ ok a)
      × (read_c_string a ≡ ok (take n (c_str s)))
      × (length a ≡ suc n)
copy_terminated_ok n s =
    let (r, l) = after_copy_lem n s in (after_copy n s, copy_terminated_lem n s, r, l)

-- What can be read as a text ends in NUL.
pub read-IsTerminated : (a s : Bytes) → read_c_string a ≡ ok s → IsTerminated a
unfolding read_c_string
read-IsTerminated [] s h = cc h
read-IsTerminated (zero ∷ cs) s h = tt
read-IsTerminated (suc c ∷ cs) s h =
    let h' : (read_c_string cs >>= λ t. ok (suc c ∷ t)) ≡ ok s = ground arith in
    let (rest, read, _) = >>=-ok_parts (read_c_string cs) _ h' in read-IsTerminated cs rest read
