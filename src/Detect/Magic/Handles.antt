-- ===== src/Detect/Magic/Handles.antt =====
-- The handles of libmagic: which the constructor of `magic_handle` opens and its destructor closes, in
-- the block of src/detect/src/main.cpp that owns the object.
use file_inspect_key_analyse.Base.{
  ℤ, Bytes, codes, List, [], ◌∷◌, ◌++◌, Option, none, some, if◌then◌else◌, ◌≡◌, refl, inl, inr,
  Bool-cases, Result, ok, thrown, undefined, ◌>>=◌,
}
use file_inspect_key_analyse.Detect.Magic.{
  MagicApi, is_zero, load_database, magic_handle, throw_error,
}

module _ (M : MagicApi) where
  open M use {Handle, open_with, load}

  pub data Call : Type 0 where
    opened : Handle → Call
    closed : Handle → Call

  -- The constructor, with the calls that it makes. If it throws, there is no object to be destroyed.
  unfoldable pub construct : ℤ → List Call → Result Handle × List Call
  unfolding load_database
  construct flags calls = elim (open_with flags) [
    | none ↦ (thrown (codes "Failed to open libmagic handle"), calls)
    | some handle ↦ (load_database M handle, calls ++ opened handle ∷ [])
  ]

  -- The destructor.
  unfoldable pub destroy : Option Handle → List Call → List Call
  destroy none calls = calls
  destroy (some handle) calls = calls ++ closed handle ∷ []

  -- The rest of the block that owns the object, which is destroyed when the block is left, by an
  -- exception too.
  unfoldable pub leave {ℓ} :
      {T : Type ℓ} → (Handle → Result T) → Result Handle × List Call → Result T × List Call
  unfolding destroy
  leave body (ok handle, calls) = (body handle, destroy (some handle) calls)
  leave body (thrown what, calls) = (thrown what, calls)
  leave body (undefined, calls) = (undefined, calls)

  -- The whole block.
  unfoldable pub owning {ℓ} : {T : Type ℓ} → ℤ → (Handle → Result T) → Result T × List Call
  unfolding construct leave
  owning flags body = leave body (construct flags [])

  -- The calls of a block on a libmagic that opens this handle, or none.
  abbrev pub expected : Option Handle → List Call
  expected none = []
  expected (some handle) =
      if is_zero (load handle none) then opened handle ∷ closed handle ∷ [] else opened handle ∷ []

  leave-throw_error {ℓ} :
      {T : Type ℓ} (what : Option Bytes) (body : Handle → Result T) (calls : List Call)
      → ((leave body (throw_error what, calls)).0 ≡ (throw_error what >>= body))
        × ((leave body (throw_error what, calls)).1 ≡ calls)
  unfolding leave throw_error
  leave-throw_error none body calls = (refl, refl)
  leave-throw_error (some what) body calls = (refl, refl)

  -- Whatever a block does that owns a libmagic handle, it opens none, or opens one and closes it, or,
  -- where the database cannot be loaded, opens one and never closes it; and it gives what its body
  -- gives on the handle of `magic_handle`.
  pub owning-magic_handle {ℓ} :
      {T : Type ℓ} (flags : ℤ) (body : Handle → Result T)
      → ((owning flags body).0 ≡ (magic_handle M flags >>= body))
        × ((owning flags body).1 ≡ expected (open_with flags))
  unfolding owning construct destroy leave magic_handle load_database throw_error
  owning-magic_handle {T = T} flags body = go (open_with flags) refl
    where
      go :
          (o : Option Handle)
          → open_with flags ≡ o
          → ((owning flags body).0 ≡ (magic_handle M flags >>= body))
            × ((owning flags body).1 ≡ expected (open_with flags))
      go none e = (rw (e, magic_handle, construct) refl, rw (e, construct) refl)
      go (some handle) e = elim (Bool-cases (is_zero (load handle none))) [
        | inl loaded ↦ (
          rw (e, magic_handle, construct, load_database, loaded) refl,
          rw (e, construct, load_database, loaded) refl,
        )
        | inr failed ↦
            let (given, kept) = leave-throw_error (M.error handle) body (opened handle ∷ []) in
            (
              rw (e, magic_handle, construct, load_database, failed) given,
              rw (e, construct, load_database, failed) kept,
            )
      ]
