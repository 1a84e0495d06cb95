-- ===== src/Parse.antt =====
-- src/parse: the registry of parsers and the service that asks it.
pub mod Main
pub mod Handler
pub mod Outcome
use file_inspect_key_analyse.Base.{
  ℕ, ℤ, zero, suc, pos, ◌+◌, ◌-◌, ◌≤◌, ◌<◌, ◌*◌, Bytes, String, codes, eq_bytes, eq_bytes_iff,
  eq_bytes_refl, is_empty, starts_with, starts_with-append, Bool, true, false, not, ◌&&◌, ◌||◌,
  List, [], ◌∷◌, ◌++◌, map, All, All-append, Memᴰ, Option, none, some, if◌then◌else◌, ◌≡◌, refl,
  sym, ap, ◌∙◌, ◌⊎◌, inl, inr, ◌≢◌, ◌↔◌, arith, Bool-cases, Result, ok, thrown, undefined, ◌>>=◌,
  catch, Dict, lookup, insert, lookup-insert, length, take, drop, replicate, ltb, ◌==◌,
  length-append, drop-add, drop-append, take-append,
}
use file_inspect_key_analyse.Global.MimeType.{MimeType, pdf, text_plain, image_jpeg, eq_type}

-- `Parser` stands for the objects of the class `parser`.
module _ (Parser : Type 0) where
  -- `parsers_`
  abbrev pub ParserRegistry : Type 0
  ParserRegistry = List (MimeType × Parser)

  -- Every case of the `switch` returns the null pointer.
  unfoldable pub create_parser : MimeType → Option Parser
  create_parser pdf = none
  create_parser text_plain = none
  create_parser image_jpeg = none
  create_parser _ = none

  unfoldable pub registered : MimeType → ParserRegistry → Option Parser
  registered t [] = none
  registered t ((t', p) ∷ parsers) = if eq_type t' t then some p else registered t parsers

  -- `parser_registry::find_parser`
  unfoldable pub find_parser : ParserRegistry → MimeType → ParserRegistry × Option Parser
  unfolding create_parser
  find_parser parsers t = elim (registered t parsers) [
    | some p ↦ (parsers, some p)
    | none ↦ elim (create_parser t) [ some p ↦ ((t, p) ∷ parsers, some p) | none ↦ (parsers, none) ]
  ]
