-- ===== src/Util/Msg/Paths.antt =====
-- What is logged of a path.
use file_inspect_key_analyse.Base.{
  ℕ, ◌+◌, Bytes, true, false, [], ◌∷◌, ◌++◌, All, none, some, ◌≡◌, refl, ap, ◌∙◌, length, drop,
  drop-add, drop-append,
}
use file_inspect_key_analyse.Util.Msg.{is_separator, find_last_of, filename_only}

-- No byte of the name is a separator.
abbrev pub IsBare : Bytes → Type 0
IsBare name = All (λ c. is_separator c ≡ false) name

find_last_of_bare : (name : Bytes) → IsBare name → find_last_of name ≡ none
unfolding find_last_of
find_last_of_bare [] h = refl
find_last_of_bare (c ∷ name) h = rw (find_last_of_bare name h.1) (rw h.0 refl)

find_last_of-append :
    (dir name : Bytes) (c : ℕ)
    → is_separator c ≡ true
    → IsBare name
    → find_last_of (dir ++ c ∷ name) ≡ some (length dir)
unfolding find_last_of
find_last_of-append [] name c sep h = rw (find_last_of_bare name h) (rw sep refl)
find_last_of-append (d ∷ dir) name c sep h = rw (find_last_of-append dir name c sep h) refl

drop-length : (dir name : Bytes) (c : ℕ) → drop (length dir + 1) (dir ++ c ∷ name) ≡ name
drop-length dir name c =
    drop-add (length dir) 1 (dir ++ c ∷ name) ∙ ap (drop 1) (drop-append dir (c ∷ name))

-- A name with no separator is kept whole, and of a path that ends in a separator and such a name, the
-- name is kept, whatever separators stand before.
filename_only_lem :
    (dir name : Bytes) (c : ℕ)
    → IsBare name
    → is_separator c ≡ true
    → (filename_only name ≡ name) × (filename_only (dir ++ c ∷ name) ≡ name)
unfolding filename_only
filename_only_lem dir name c h sep = (
  rw (filename_only, find_last_of_bare name h) refl,
  rw (filename_only, find_last_of-append dir name c sep h) (drop-length dir name c),
)
