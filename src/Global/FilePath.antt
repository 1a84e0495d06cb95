-- ===== src/Global/FilePath.antt =====
-- What the program uses of `std::filesystem::path`, on POSIX.
use file_inspect_key_analyse.Base.{
  Bytes, codes, starts_with, Bool, true, [], ◌∷◌, ◌++◌, if◌then◌else◌, ◌==◌,
}

-- `path.filename()`: what stands behind the last slash.
unfoldable pub filename_from : Bytes → Bytes → Bytes
filename_from name [] = name
filename_from name (c ∷ path) = filename_from (if c == b'/' then [] else name ++ c ∷ []) path

unfoldable pub filename : Bytes → Bytes
unfolding filename_from
filename path = filename_from [] path

-- `std::filesystem::path::operator/`: an absolute right side replaces the left one.
abbrev ends_in_slash : Bytes → Bool
ends_in_slash [] = true
ends_in_slash (c ∷ []) = c == b'/'
ends_in_slash (c ∷ (d ∷ s)) = ends_in_slash (d ∷ s)

unfoldable pub join_path : Bytes → Bytes → Bytes
join_path dir name =
    if starts_with (codes "/") name
    then name
    else if ends_in_slash dir
    then dir ++ name
    else dir ++ codes "/" ++ name
