-- ===== src/Util/Pickup.antt =====
-- src/util/include/pickup.h and src/util/src/pickup.cpp: the moves of files. The file system is a
-- parameter: `std::filesystem::rename` and `remove` with their error codes, 0 for no error.
use file_inspect_key_analyse.Base.{ℕ, Bytes, Bool, if◌then◌else◌, ◌==◌}

pub record FileSystem : Type 1 where
  pub Disk : Type 0
  pub exists : Disk → Bytes → Bool
  pub rename : Disk → Bytes → Bytes → Disk × ℕ
  pub remove : Disk → Bytes → Disk × Bool × ℕ

-- `std::expected<void, std::error_code>`
pub data Expected : Type 0 where
  value : Expected
  unexpected : ℕ → Expected

-- `std::errc::no_such_file_or_directory`
abbrev pub no_such_file : ℕ
no_such_file = 2

module _ (F : FileSystem) where
  open F use {Disk, rename, remove}

  unfoldable pub move_file : Disk → Bytes → Bytes → Disk × Expected
  move_file d src dst =
      let (d', ec) = rename d src dst in if ec == 0 then (d', value) else (d', unexpected ec)

  unfoldable pub remove_file : Disk → Bytes → Disk × Expected
  remove_file d file =
      let (d', removed, ec) = remove d file in
      if removed
      then (d', value)
      else if ec == 0
      then (d', unexpected no_such_file)
      else (d', unexpected ec)
