-- ===== src/Base/Maps.antt =====
-- `std::map<std::string, V>` and `std::unordered_map<std::string, V>` as association lists.
use mathlib.Core.Path.{subst, ◌≡◌, refl}
use mathlib.Core.Option.{Option, none, some}
use mathlib.Core.List.{List, [], ◌∷◌}
use native.Mathlib.Omega.{arith}
use mathlib.Core.Logic.{inl, inr}
use file_inspect_key_analyse.Base.Tests.{if◌then◌else◌, Bool-cases}
use file_inspect_key_analyse.Base.Lists.{All}
use file_inspect_key_analyse.Base.Text.{Bytes, eq_bytes, eq_bytes_iff}

abbrev pub Dict {ℓ} : Type ℓ → Type ℓ
Dict V = List (Bytes × V)

module _ {ℓ} {V : Type ℓ} where
  -- `m.find(key)`; `none` is `m.end()`.
  unfoldable pub lookup : Bytes → Dict V → Option V
  lookup key [] = none
  lookup key ((name, found) ∷ rest) = if eq_bytes name key then some found else lookup key rest

  -- `m[key] = v`: a key that is there keeps its place.
  unfoldable pub insert : Bytes → V → Dict V → Dict V
  insert key v [] = (key, v) ∷ []
  insert key v ((name, old) ∷ rest) =
      if eq_bytes name key then (key, v) ∷ rest else (name, old) ∷ insert key v rest

  -- A key that has been written holds what was written; the others hold what they held.
  pub lookup-insert :
      (key other : Bytes) (v : V) (m : Dict V)
      → lookup other (insert key v m) ≡ (if eq_bytes key other then some v else lookup other m)
  unfolding lookup insert
  lookup-insert key other v [] = refl
  lookup-insert key other v ((name, old) ∷ rest) = ground (
    arith,
    lookup-insert key other v rest,
    eq_bytes_iff key other,
    eq_bytes_iff name other,
    eq_bytes_iff name key,
  )

  -- What is true of every value is true of the one that is found.
  pub lookup-All {κ} :
      (Pr : V → Type κ) (key : Bytes) (m : Dict V) (v : V)
      → All (λ entry. Pr entry.1) m
      → lookup key m ≡ some v
      → Pr v
  unfolding lookup
  lookup-All Pr key [] v h e = absurd (ground arith)
  lookup-All Pr key ((name, old) ∷ rest) v h e = elim (Bool-cases (eq_bytes name key)) [
    | inl same ↦ let found : some old ≡ some v = rw same at e in subst Pr (cc found) h.0
    | inr other ↦ lookup-All Pr key rest v h.1 (rw other at e)
  ]
