-- ===== src/Detect/Magic.antt =====
-- src/detect/include/magic_handle.h, src/detect/src/magic_handle.cpp and the interface `magic_api`:
-- the one detector of the program. libmagic itself is a parameter.
pub mod Handles
use file_inspect_key_analyse.Base.{
  ℤ, zero, pos, Bytes, codes, Bool, true, false, Option, none, some, if◌then◌else◌, Result, ok,
  thrown, undefined,
}
use file_inspect_key_analyse.Detect.{FileDetector}

-- `magic_api`: null pointers are `none`.
pub record MagicApi : Type 1 where
  pub Handle : Type 0
  pub open_with : ℤ → Option Handle
  pub load : Handle → Option Bytes → ℤ
  pub file : Handle → Bytes → Option Bytes
  pub error : Handle → Option Bytes

-- `throw std::runtime_error(api_->error(handle_))`; of a null pointer no exception can be made.
unfoldable pub throw_error {ℓ} : {A : Type ℓ} → Option Bytes → Result A
throw_error none = undefined
throw_error (some what) = thrown what

unfoldable pub is_zero : ℤ → Bool
is_zero (pos zero) = true
is_zero _ = false

module _ (M : MagicApi) where
  open M use {Handle, open_with, load, file, error}

  -- The second test of the constructor.
  unfoldable pub load_database : Handle → Result Handle
  unfolding is_zero throw_error
  load_database handle =
      if is_zero (load handle none) then ok handle else throw_error (error handle)

  -- The constructor of `magic_handle`.
  unfoldable pub magic_handle : ℤ → Result Handle
  unfolding load_database
  magic_handle flags = elim (open_with flags) [
    | none ↦ thrown (codes "Failed to open libmagic handle")
    | some handle ↦ load_database handle
  ]

  -- `magic_handle::detect`
  unfoldable pub detect : Handle → Bytes → Result Bytes
  unfolding throw_error
  detect handle filepath = elim (file handle filepath) [
    | none ↦ throw_error (error handle)
    | some res ↦ ok res
  ]

  -- The object as a `file_detector`.
  unfoldable pub magic_detector : Handle → FileDetector
  magic_detector handle = record { detect = detect handle; name = codes "libmagic" }
