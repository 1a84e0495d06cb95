-- ===== src/Tests/Disk.antt =====
-- A file system in memory.
use file_inspect_key_analyse.Base.{
  Bytes, eq_bytes, Bool, true, false, ◌||◌, List, [], ◌∷◌, if◌then◌else◌,
}
use file_inspect_key_analyse.Util.Pickup.{FileSystem}

-- The names of the files that are there.
abbrev Files : Type 0
Files = List Bytes

abbrev pub has : Files → Bytes → Bool
has [] f = false
has (g ∷ fs) f = eq_bytes g f || has fs f

abbrev pub without : Files → Bytes → Files
without [] f = []
without (g ∷ fs) f = let rest = without fs f in if eq_bytes g f then rest else g ∷ rest

abbrev pub memory : FileSystem
memory = record {
  Disk = Files;
  exists = has;
  rename = λ d src dst. if has d src then (dst ∷ without d src, 0) else (d, 2);
  remove = λ d f. if has d f then (without d f, true, 0) else (d, false, 0);
}
