-- ===== src/Pdf/Contents.antt =====
-- What the parser makes of a document: the texts of its pages in order, and the values that it has for
-- the keys.
use file_inspect_key_analyse.Base.{
  eq_bytes_iff, false, ℕ, zero, suc, ◌+◌, Bytes, codes, eq_bytes, eq_bytes_iff, Bool, true, false,
  not, ◌&&◌, ◌||◌, List, [], ◌∷◌, ◌++◌, All, Option, none, some, if◌then◌else◌, ◌≡◌, refl, sym,
  subst, ap, ◌∙◌, inl, inr, arith, Bool-cases, ok, undefined, ◌⊎◌, Dict, lookup, insert,
  lookup-insert,
}
use mathlib.Core.List.{append-nil, append_assoc}
use file_inspect_key_analyse.Base.{
  ℕ, zero, suc, ◌+◌, sym, ap, subst, Bool-cases, inl, inr, insert, lookup, lookup-insert, none,
  true, Dict, ◌∙◌,
}
use file_inspect_key_analyse.Global.CString.{read_c_string, c_str, IsTerminated}
use file_inspect_key_analyse.Global.FileJob.{FileJob, FileJobShm, to_file_job}
use file_inspect_key_analyse.Pdf.{
  PopplerApi, PdfParser, keys, read_keys, read_pages, read_document, parse,
}

read_c_string-c_str : (a : Bytes) → IsTerminated a → read_c_string a ≡ ok (c_str a)
unfolding read_c_string c_str
read_c_string-c_str [] h = absurd h
read_c_string-c_str (zero ∷ cs) h = refl
read_c_string-c_str (suc c ∷ cs) h = ground (arith, read_c_string-c_str cs h)

-- An array holds a NUL, or the code reads past it.
read_c_string-cases : (a : Bytes) → IsTerminated a ⊎ (read_c_string a ≡ undefined)
unfolding read_c_string
read_c_string-cases [] = inr refl
read_c_string-cases (zero ∷ cs) = inl tt
read_c_string-cases (suc c ∷ cs) = elim (read_c_string-cases cs) [
  | inl ends ↦ inl ends
  | inr past ↦ inr (ground (arith, past))
]

-- Whether the key is among these.
abbrev pub is_key : Bytes → List Bytes → Bool
is_key key [] = false
is_key key (k ∷ ks) = eq_bytes k key || is_key key ks

module _ (A : PopplerApi) (doc : A.Document) where
  -- The document's pages, from one on; some cannot be had.
  abbrev pub page_list : ℕ → ℕ → List (Option A.Page)
  page_list zero i = []
  page_list (suc left) i = A.create_page doc i ∷ page_list left (i + 1)

  -- The text of a page, up to a NUL, and a line's end.
  abbrev pub page_text : Option A.Page → Bytes
  page_text none = []
  page_text (some p) = c_str (A.to_utf8 (A.text p)) ++ codes "\n"

  abbrev pub join_texts : List (Option A.Page) → Bytes
  join_texts [] = []
  join_texts (p ∷ ps) = page_text p ++ join_texts ps

  -- The array that poppler gives for the page's text holds a NUL.
  abbrev pub CanRead : Option A.Page → Type 0
  CanRead none = Unit
  CanRead (some p) = IsTerminated (A.to_utf8 (A.text p))

  read_pages-join_texts :
      (left i : ℕ) (so_far : Bytes)
      → All CanRead (page_list left i)
      → read_pages A doc left i so_far ≡ ok (so_far ++ join_texts (page_list left i))
  unfolding read_pages
  read_pages-join_texts zero i so_far h = ap ok (sym (append-nil so_far))
  read_pages-join_texts (suc left) i so_far h =
      go (A.create_page doc i) refl h.0 (λ more. read_pages-join_texts left (i + 1) more h.1)
    where
      go :
          (p : Option A.Page)
          → A.create_page doc i ≡ p
          → CanRead p
          → ((more : Bytes)
              → read_pages A doc left (i + 1) more
                ≡ ok (more ++ join_texts (page_list left (i + 1))))
          → read_pages A doc (suc left) i so_far
            ≡ ok
                (so_far ++ (page_text (A.create_page doc i) ++ join_texts (page_list left (i + 1))))
      go none e can rest = rw (e, read_pages) (rest so_far)
      go (some p) e can rest =
          let t = c_str (A.to_utf8 (A.text p)) in
          let j = join_texts (page_list left (i + 1)) in
          let regroup : so_far ++ t ++ codes "\n" ++ j ≡ so_far ++ (t ++ codes "\n" ++ j) =
            simp append_assoc in
          rw (e, read_pages)
            (rw (read_c_string-c_str (A.to_utf8 (A.text p)) can)
              (rest (so_far ++ t ++ codes "\n") ∙ ap ok regroup))

  -- What the document says of a key, up to a NUL.
  abbrev pub value_of : Bytes → Bytes
  value_of key = c_str (A.to_utf8 (A.info_key doc key))

  abbrev pub has_value : Bytes → Bool
  has_value key = not (A.empty (A.info_key doc key))

  -- The value that the document has for the key, if any, is in an array that holds a NUL.
  abbrev pub CanReadKey : Bytes → Type 0
  CanReadKey key = has_value key ≡ true → IsTerminated (A.to_utf8 (A.info_key doc key))

  -- What the map of metadata holds.
  abbrev pub Holds : List Bytes → Dict Bytes → Dict Bytes → Type 0
  Holds ks before after =
      (key : Bytes)
      → lookup key after
        ≡ (if is_key key ks && has_value key then some (value_of key) else lookup key before)

  read_keys-Holds :
      (ks : List Bytes) (before : Dict Bytes)
      → All CanReadKey ks
      → (after : Dict Bytes) × (read_keys A doc ks before ≡ ok after) × Holds ks before after
  unfolding read_keys
  read_keys-Holds [] before can = (before, refl, λ key. refl)
  read_keys-Holds (k ∷ ks) before can = elim (Bool-cases (has_value k)) [
    | inr nothing ↦
        let (after, went, holds) = read_keys-Holds ks before can.1 in
        (
          after,
          rw nothing went,
          λ key. elim (Bool-cases (eq_bytes k key)) [
            | inr other ↦ holds key ∙ rw other refl
            | inl same ↦
                let e : k ≡ key = (eq_bytes_iff k key).0 same in
                let none_here : has_value key ≡ false =
                  subst (λ x. has_value x ≡ false) e nothing in
                ground (arith, holds key)
          ],
        )
    | inl there ↦
        let (after, went, holds) = read_keys-Holds ks (insert k (value_of k) before) can.1 in
        (
          after,
          rw there (rw (read_c_string-c_str _ (can.0 there)) went),
          λ key. elim (Bool-cases (eq_bytes k key)) [
            | inr other ↦
                let kept = lookup-insert k key (value_of k) before in
                ground (arith, holds key, kept)
            | inl same ↦
                let e : k ≡ key = (eq_bytes_iff k key).0 same in
                let some_here : has_value key ≡ true = subst (λ x. has_value x ≡ true) e there in
                let value : value_of k ≡ value_of key = ap value_of e in
                let kept = lookup-insert k key (value_of k) before in
                ground (arith, holds key, kept)
          ],
        )
  ]

  read_pages-cases :
      (left i : ℕ)
      → All CanRead (page_list left i)
        ⊎ ((so_far : Bytes) → read_pages A doc left i so_far ≡ undefined)
  unfolding read_pages
  read_pages-cases zero i = inl tt
  read_pages-cases (suc left) i = go (A.create_page doc i) refl (read_pages-cases left (i + 1))
    where
      go :
          (p : Option A.Page)
          → A.create_page doc i ≡ p
          → All CanRead (page_list left (i + 1))
            ⊎ ((so_far : Bytes) → read_pages A doc left (i + 1) so_far ≡ undefined)
          → (CanRead p × All CanRead (page_list left (i + 1)))
            ⊎ ((so_far : Bytes) → read_pages A doc (suc left) i so_far ≡ undefined)
      go none e (inl can) = inl (tt, can)
      go none e (inr past) = inr (λ so_far. rw (e, read_pages) (past so_far))
      go (some p) e later = elim (read_c_string-cases (A.to_utf8 (A.text p))) [
        | inr past ↦ inr (λ so_far. rw (e, read_pages) (rw past refl))
        | inl ends ↦ elim later [
          | inl can ↦ inl (ends, can)
          | inr past ↦ inr (λ so_far.
              rw (e, read_pages)
                (rw (read_c_string-c_str (A.to_utf8 (A.text p)) ends)
                  (past (so_far ++ c_str (A.to_utf8 (A.text p)) ++ codes "\n"))))
        ]
      ]

  read_keys-cases :
      (ks : List Bytes)
      → All CanReadKey ks ⊎ ((before : Dict Bytes) → read_keys A doc ks before ≡ undefined)
  unfolding read_keys
  read_keys-cases [] = inl tt
  read_keys-cases (k ∷ ks) = elim (Bool-cases (has_value k)) [
    | inr nothing ↦ elim (read_keys-cases ks) [
      | inl can ↦ inl ((λ there. cc (nothing, there)), can)
      | inr past ↦ inr (λ before. rw nothing (past before))
    ]
    | inl there ↦ elim (read_c_string-cases (A.to_utf8 (A.info_key doc k))) [
      | inr past ↦ inr (λ before. rw there (rw past refl))
      | inl ends ↦ elim (read_keys-cases ks) [
        | inl can ↦ inl ((λ has. ends), can)
        | inr past ↦ inr (λ before. rw there (
            rw (read_c_string-c_str (A.to_utf8 (A.info_key doc k)) ends)
              (past (insert k (value_of k) before))))
      ]
    ]
  ]

  -- Each array that the parser reads holds a NUL.
  abbrev pub CanReadAll : Type 0
  CanReadAll = All CanReadKey keys × All CanRead (page_list (A.pages doc) 0)

  -- What the parser makes of the document.
  abbrev pub Contents : FileJobShm → PdfParser → Type 0
  Contents job self =
      (after : PdfParser) × (parse A job self ≡ ok after)
      × (after.text ≡ join_texts (page_list (A.pages doc) 0))
      × ((key : Bytes)
          → lookup key after.metadata
            ≡ (if is_key key keys && has_value key then some (value_of key) else none))
      × (after.embedded_files ≡ [])
      × (after.warnings ≡ [])

  pub parse_ok :
      (job : FileJobShm) (fjob : FileJob) (self : PdfParser)
      → to_file_job job ≡ ok fjob
      → A.load_from_file fjob.path ≡ some doc
      → CanReadAll
      → Contents job self
  unfolding parse read_document lookup
  parse_ok job fjob self sent loaded (can_keys, can) =
      let (metadata, kept, holds) = read_keys-Holds keys [] can_keys in
      let text = join_texts (page_list (A.pages doc) 0) in
      let paged : read_pages A doc (A.pages doc) 0 [] ≡ ok text =
        read_pages-join_texts (A.pages doc) 0 [] can in
      (
        record { metadata = metadata; text = text; embedded_files = []; warnings = [] },
        rw (sent, loaded) (rw (kept, paged) refl),
        refl,
        holds,
        refl,
        refl,
      )

  -- On a job whose file poppler loads: if each array that the parser reads, of the values for the eight
  -- keys and of the texts of the pages, holds a NUL, then it succeeds; the text is that of the pages, each
  -- with a line's end, in their order and without those that cannot be had; the metadata has exactly
  -- those of the eight keys for which the document has a value; embedded files and warnings are empty,
  -- whatever the document holds. If one of them does not, its behaviour is undefined.
  pub parse-Contents :
      (job : FileJobShm) (fjob : FileJob) (self : PdfParser)
      → to_file_job job ≡ ok fjob
      → A.load_from_file fjob.path ≡ some doc
      → (CanReadAll × Contents job self) ⊎ ((¬ CanReadAll) × (parse A job self ≡ undefined))
  unfolding parse read_document
  parse-Contents job fjob self sent loaded = elim (read_keys-cases keys) [
    | inr past ↦ fails (rw (sent, loaded) (rw (past []) refl))
    | inl can_keys ↦ elim (read_pages-cases (A.pages doc) 0) [
      | inl can ↦ inl ((can_keys, can), parse_ok job fjob self sent loaded (can_keys, can))
      | inr past ↦
          let (metadata, kept, _) = read_keys-Holds keys [] can_keys in
          fails (rw (sent, loaded) (rw (kept, past []) refl))
    ]
  ]
    where
      fails :
          parse A job self ≡ undefined
          → (CanReadAll × Contents job self) ⊎ ((¬ CanReadAll) × (parse A job self ≡ undefined))
      fails past = inr (
        λ can.
            let (after, did, _, _, _, _) = parse_ok job fjob self sent loaded can in cc (did, past),
        past,
      )
