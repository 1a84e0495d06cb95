-- ===== src/Global/CString.antt =====
-- The fixed character arrays of the messages: `std::strncpy`, `std::string::copy`, `array::at`, and
-- the construction of a `std::string` from `array::data()`.
pub mod Laws
use file_inspect_key_analyse.Base.{
  ℕ, zero, suc, Bytes, Bool, List, [], ◌∷◌, ◌==◌, if◌then◌else◌, Result, ok, thrown, undefined,
  ◌>>=◌, codes, replicate, take, length,
}

-- A `std::array<char, n>` that is value-initialised.
abbrev pub zeros : ℕ → Bytes
zeros n = replicate n 0

-- The bytes of a text up to its first NUL: what a C function sees of it.
unfoldable pub c_str : Bytes → Bytes
c_str [] = []
c_str (c ∷ s) = if c == 0 then [] else c ∷ c_str s

-- `std::strncpy(dst, src.c_str(), n)`: `n` bytes are written, NULs once `src` has ended.
unfoldable pub strncpy : ℕ → Bytes → Bytes → Bytes
strncpy zero s d = d
strncpy (suc n) s [] = []
strncpy (suc n) [] (d ∷ ds) = 0 ∷ strncpy n [] ds
strncpy (suc n) (c ∷ s) (d ∷ ds) = c ∷ strncpy n (if c == 0 then [] else s) ds

-- `src.copy(dst, n)`: at most `n` bytes are written, NULs of `src` included, and no terminator.
unfoldable pub copy : ℕ → Bytes → Bytes → Bytes
copy zero s d = d
copy (suc n) [] d = d
copy (suc n) (c ∷ s) [] = []
copy (suc n) (c ∷ s) (d ∷ ds) = c ∷ copy n s ds

-- What `copy` returns.
abbrev pub copied : ℕ → Bytes → ℕ
copied n s = length (take n s)

-- `a.at(i) = v`
unfoldable pub set_at : Bytes → ℕ → ℕ → Result Bytes
set_at [] i v = thrown (codes "array::at")
set_at (x ∷ xs) zero v = ok (v ∷ xs)
set_at (x ∷ xs) (suc i) v = set_at xs i v >>= λ ys. ok (x ∷ ys)

-- `std::string{a.data()}`: up to the first NUL. With none, it reads past the array.
unfoldable pub read_c_string : Bytes → Result Bytes
read_c_string [] = undefined
read_c_string (c ∷ cs) =
    let rest = read_c_string cs >>= λ s. ok (c ∷ s) in if c == 0 then ok [] else rest

-- `auto len = s.copy(a.data(), a.size() - 1); a.at(len) = '\0';` on a zeroed array of `suc n` bytes.
unfoldable pub copy_terminated : ℕ → Bytes → Result Bytes
unfolding copy set_at
copy_terminated n s = set_at (copy n s (zeros (suc n))) (copied n s) 0

-- The array holds a NUL.
abbrev pub IsTerminated : Bytes → Type 0
IsTerminated [] = ⊥
IsTerminated (zero ∷ cs) = Unit
IsTerminated (suc c ∷ cs) = IsTerminated cs

-- The text holds none.
abbrev pub HasNoNul : Bytes → Type 0
HasNoNul [] = Unit
HasNoNul (zero ∷ cs) = ⊥
HasNoNul (suc c ∷ cs) = HasNoNul cs
