-- ===== src/Util/QueueName/Laws.antt =====
-- A queue's name is parsed into the names that it was made of, and only such names are parsed.
use mathlib.Core.List.{append_assoc}
use file_inspect_key_analyse.Base.{
  ℕ, zero, suc, ◌+◌, ◌-◌, ◌≤◌, Bytes, codes, is_empty, starts_with, starts_with-append, Bool, true,
  false, ◌||◌, [], ◌∷◌, ◌++◌, Option, none, some, if◌then◌else◌, ◌≡◌, refl, sym, ap, ◌∙◌, inl, inr,
  ◌≢◌, ◌↔◌, arith, Bool-cases, length, take, drop, length-append, drop-add, drop-append,
  take-append,
}
use file_inspect_key_analyse.Util.QueueName.{
  make_sender, make_receiver, direct_prefix, inbox_prefix, sep, get_direct_queue, get_inbox_queue,
  find, cut_at, parse_direct_queue, parse_inbox_queue,
}

-- `p` stands at the front of `s`.
starts_with_split : (p s : Bytes) → starts_with p s ≡ true → p ++ drop (length p) s ≡ s
unfolding starts_with
starts_with_split [] s h = refl
starts_with_split (x ∷ p) [] h = cc
starts_with_split (x ∷ p) (c ∷ s) h = ground (arith, starts_with_split p s)

-- What follows the first `length p` bytes does not matter.
starts_with_longer :
    (p s t : Bytes) → length p ≤ length s → starts_with p (s ++ t) ≡ starts_with p s
unfolding starts_with
starts_with_longer [] s t h = refl
starts_with_longer (x ∷ p) [] t h = absurd (omega arith)
starts_with_longer (x ∷ p) (c ∷ s) t h = ground (arith, starts_with_longer p s t)

-- `.to.` without its last byte.
abbrev sep_head : Bytes
sep_head = codes ".to"

-- A name in which no separator begins before its end.
abbrev pub IsPlain : Bytes → Type 0
IsPlain s = find sep (s ++ sep_head) ≡ none

starts_with-sep :
    (c : ℕ) (s t : Bytes)
    → starts_with sep (c ∷ (s ++ (sep ++ t))) ≡ starts_with sep (c ∷ (s ++ sep_head))
starts_with-sep c s t = rw (← append_assoc s sep_head (b'.' ∷ t)) (
    starts_with_longer sep (c ∷ (s ++ sep_head)) (b'.' ∷ t)
      (omega (arith, length-append s sep_head)))

find_plain : (s t : Bytes) → IsPlain s → find sep (s ++ (sep ++ t)) ≡ some (length s)
unfolding find
find_plain [] t h = rw (starts_with-append sep t)
find_plain (c ∷ s) t h = ground (arith, starts_with-sep c s t, find_plain s t)

find_at_zero : (c : ℕ) (s : Bytes) → find sep (c ∷ s) ≡ some 0 → starts_with sep (c ∷ s) ≡ true
unfolding find
find_at_zero c s h = ground arith

find_later :
    (c n : ℕ) (s : Bytes)
    → find sep (c ∷ s) ≡ some (suc n)
    → (starts_with sep (c ∷ s) ≡ false) × (find sep s ≡ some n)
unfolding find
find_later c n s h = ground arith

find_nil : (n : ℕ) → find sep [] ≡ some n → ⊥
unfolding find starts_with
find_nil n h = cc

IsPlain-nil : IsPlain []
unfolding find starts_with
IsPlain-nil = refl

IsPlain-cons :
    (c : ℕ) (s : Bytes)
    → starts_with sep (c ∷ (s ++ sep_head)) ≡ false
    → IsPlain s
    → IsPlain (c ∷ s)
unfolding find
IsPlain-cons c s differs h = rw (differs, h)

find_split : (s : Bytes) (n : ℕ) → find sep s ≡ some n → take n s ++ (sep ++ drop 4 (drop n s)) ≡ s
find_split [] n h = absurd (find_nil n h)
find_split (c ∷ s) zero h = starts_with_split sep (c ∷ s) (find_at_zero c s h)
find_split (c ∷ s) (suc n) h = ap (◌∷◌ c) (find_split s n (find_later c n s h).1)

find_first : (s : Bytes) (n : ℕ) → find sep s ≡ some n → IsPlain (take n s)
find_first [] n h = absurd (find_nil n h)
find_first (c ∷ s) zero h = IsPlain-nil
find_first (c ∷ s) (suc n) h =
    let (differs, later) = find_later c n s h in
    IsPlain-cons c (take n s)
      (sym (starts_with-sep c (take n s) (drop 4 (drop n s)))
        ∙ (rw (← find_split s n later) at differs))
      (find_first s n later)

abbrev both : Bytes → Bytes → Option (Bytes × Bytes)
both a b = if is_empty a || is_empty b then none else some (a, b)

-- The two names at the separator in what follows the prefix.
abbrev halves : Bytes → ℕ → Option (Bytes × Bytes)
halves rest i = both (take i rest) (drop 4 (drop i rest))

cut_at_lem : (q : Bytes) (i : ℕ) → cut_at q (12 + i) ≡ halves (drop 12 q) i
unfolding cut_at
cut_at_lem q i =
    let shift : 12 + i - 12 ≡ i = omega arith in
    let far : drop (12 + i + 4) q ≡ drop 4 (drop i (drop 12 q)) =
      drop-add (12 + i) 4 q ∙ ap (drop 4) (drop-add 12 i q) in
    rw (shift, far)

-- What a parsed name is made of.
pub record IsDirect (q sender receiver : Bytes) : Type 0 where
  pub made : q ≡ get_direct_queue (make_sender sender) (make_receiver receiver)
  pub from_given : sender ≢ []
  pub to_given : receiver ≢ []
  pub plain : IsPlain sender

halves_inv : (a b s r : Bytes) → both a b ≡ some (s, r) → (a ≡ s) × (b ≡ r) × (s ≢ []) × (r ≢ [])
halves_inv [] b s r h = cc
halves_inv (x ∷ a) [] s r h = cc
halves_inv (x ∷ a) (y ∷ b) s r h = (cc, cc, λ e. cc, λ e. cc)

halves_split :
    (rest : Bytes) (i : ℕ) (s r : Bytes)
    → find sep rest ≡ some i
    → halves rest i ≡ some (s, r)
    → (s ++ (sep ++ r) ≡ rest) × (s ≢ []) × (r ≢ []) × IsPlain s
halves_split rest i s r found h =
    let (front, back, given, aimed) = halves_inv (take i rest) (drop 4 (drop i rest)) s r h in
    (
      rw (← front, ← back) (find_split rest i found),
      given,
      aimed,
      rw (← front) (find_first rest i found),
    )

parse_inv :
    (q s r : Bytes) (b : Bool) (f : Option ℕ)
    → starts_with direct_prefix q ≡ b
    → find sep (drop 12 q) ≡ f
    → parse_direct_queue q ≡ some (s, r)
    → (i : ℕ) × (starts_with direct_prefix q ≡ true)
      × (find sep (drop 12 q) ≡ some i)
      × (halves (drop 12 q) i ≡ some (s, r))
unfolding parse_direct_queue
parse_inv q s r false f eb ef h = absurd (ground arith)
parse_inv q s r true none eb ef h = absurd (ground arith)
parse_inv q s r true (some i) eb ef h = (i, eb, ef, sym (cut_at_lem q i) ∙ (rw (eb, ef) at h))

parse_direct_queue_sound : (q s r : Bytes) → parse_direct_queue q ≡ some (s, r) → IsDirect q s r
unfolding get_direct_queue make_sender make_receiver
parse_direct_queue_sound q s r h =
    let (i, front, found, cut) = parse_inv q s r _ _ refl refl h in
    let (rest, given, aimed, plain) = halves_split (drop 12 q) i s r found cut in
    record {
      made = sym (ap (◌++◌ direct_prefix) rest ∙ starts_with_split direct_prefix q front);
      from_given = given;
      to_given = aimed;
      plain = plain;
    }

both_given : (s r : Bytes) → s ≢ [] → r ≢ [] → both s r ≡ some (s, r)
both_given [] r hs hr = absurd (hs refl)
both_given (x ∷ s) [] hs hr = absurd (hr refl)
both_given (x ∷ s) (y ∷ r) hs hr = refl

halves_made : (s r : Bytes) → halves (s ++ (sep ++ r)) (length s) ≡ both s r
halves_made s r = rw (take-append s (sep ++ r), drop-append s (sep ++ r))

parse_direct_queue_complete :
    (s r : Bytes)
    → s ≢ []
    → r ≢ []
    → IsPlain s
    → parse_direct_queue (get_direct_queue (make_sender s) (make_receiver r)) ≡ some (s, r)
unfolding parse_direct_queue get_direct_queue make_sender make_receiver
parse_direct_queue_complete s r hs hr plain =
    let q = direct_prefix ++ (s ++ (sep ++ r)) in
    rw (starts_with-append direct_prefix (s ++ (sep ++ r)))
      (rw (find_plain s r plain) (cut_at_lem q (length s) ∙ halves_made s r ∙ both_given s r hs hr))

-- Only names that `get_direct_queue` makes of a non-empty sender without separator and a non-empty
-- receiver are parsed, and they are parsed into these two.
pub parse_direct_queue_iff :
    (q sender receiver : Bytes)
    → (parse_direct_queue q ≡ some (sender, receiver)) ↔ IsDirect q sender receiver
parse_direct_queue_iff q s r = (
  parse_direct_queue_sound q s r,
  λ d. rw d.made (parse_direct_queue_complete s r d.from_given d.to_given d.plain),
)

given_inv : (a r : Bytes) → (if is_empty a then none else some a) ≡ some r → (a ≡ r) × (r ≢ [])
given_inv [] r h = cc
given_inv (x ∷ a) r h = (cc, λ e. cc)

inbox_sound :
    (q r : Bytes)
    → parse_inbox_queue q ≡ some r
    → (q ≡ get_inbox_queue (make_receiver r)) × (r ≢ [])
unfolding parse_inbox_queue get_inbox_queue make_receiver
inbox_sound q r h = elim (Bool-cases (starts_with inbox_prefix q)) [
  | inl front ↦
      let (same, given) = given_inv (drop 11 q) r (rw front at h) in
      (sym (ap (◌++◌ inbox_prefix) (sym same) ∙ starts_with_split inbox_prefix q front), given)
  | inr other ↦ absurd (ground arith)
]

inbox_complete :
    (r : Bytes) → r ≢ [] → parse_inbox_queue (get_inbox_queue (make_receiver r)) ≡ some r
unfolding parse_inbox_queue get_inbox_queue make_receiver
inbox_complete [] given = absurd (given refl)
inbox_complete (x ∷ r) given = rw (starts_with-append inbox_prefix (x ∷ r))

-- Likewise for an inbox: the parsed name is the receiver's, which is not empty.
parse_inbox_queue_iff :
    (q receiver : Bytes)
    → (parse_inbox_queue q ≡ some receiver)
      ↔ ((q ≡ get_inbox_queue (make_receiver receiver)) × (receiver ≢ []))
parse_inbox_queue_iff q r = (inbox_sound q r, λ (made, given). rw made (inbox_complete r given))
