-- ===== src/Base/Outcome.antt =====
-- The outcome of C++ code: a value, a thrown exception with its `what()`, or undefined behaviour
-- (a read past an array, a call through a null pointer), which no `catch` handles.
use mathlib.Core.Path.{subst, ◌≡◌, refl}
use mathlib.Core.Logic.{◌⊎◌, inl, inr}
use file_inspect_key_analyse.Base.Text.{Bytes}

pub data Result {ℓ} (A : Type ℓ) : Type ℓ where
  undefined : Result A
  thrown : Bytes → Result A
  ok : A → Result A

-- One statement behind another.
infixl 5 ◌>>=◌
abbrev pub ◌>>=◌ {ℓ κ} : {S : Type ℓ} {T : Type κ} → Result S → (S → Result T) → Result T
undefined >>= next = undefined
thrown what >>= next = thrown what
ok s >>= next = next s

-- `try { m } catch (…) { h }`
abbrev pub catch {ℓ} : {A : Type ℓ} → Result A → (Bytes → Result A) → Result A
catch (ok a) h = ok a
catch (thrown e) h = h e
catch undefined h = undefined

-- Where two statements succeed, the first does, and so does the second on its value.
pub >>=-ok_parts {ℓ κ} :
    {S : Type ℓ} {T : Type κ} {v : T} (first : Result S) (next : S → Result T)
    → (first >>= next) ≡ ok v
    → (s : S) × (first ≡ ok s) × (next s ≡ ok v)
>>=-ok_parts undefined next e = cc
>>=-ok_parts (thrown what) next e = cc
>>=-ok_parts (ok s) next e = (s, refl, e)

-- A handler that never fails: the value is that of the code, or that of the handler.
pub catch-eq-ok {ℓ} :
    {A : Type ℓ} (m : Result A) (d : A) {x : A} → catch m (λ _. ok d) ≡ ok x → (m ≡ ok x) ⊎ (x ≡ d)
catch-eq-ok (ok a) d h = inl h
catch-eq-ok (thrown e) d h = inr (cc)
catch-eq-ok undefined d h = cc

-- What holds of a result holds of the one that it is equal to.
pub subst-ok {ℓ κ} : {A : Type ℓ} (Pr : A → Type κ) {a b : A} → ok a ≡ ok b → Pr a → Pr b
subst-ok Pr e h = subst Pr (cc e) h

pub ok-inj {ℓ} : {T : Type ℓ} {a b : T} → ok a ≡ ok b → a ≡ b
ok-inj e = cc e
