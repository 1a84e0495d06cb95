-- ===== src/Util/QueueName.antt =====
-- src/util/include/qn_rslv.h and src/util/src/qn_rslv.cpp: the names of the message queues.
pub mod Laws
use mathlib.Core.Option
use file_inspect_key_analyse.Base.{
  ℕ, ℤ, zero, suc, pos, ◌+◌, ◌-◌, ◌≤◌, ◌<◌, ◌*◌, Bytes, String, codes, eq_bytes, eq_bytes_iff,
  eq_bytes_refl, is_empty, starts_with, Bool, true, false, not, ◌&&◌, ◌||◌, List, [], ◌∷◌, ◌++◌,
  map, All, All-append, Memᴰ, Option, none, some, if◌then◌else◌, ◌≡◌, refl, sym, ap, ◌∙◌, ◌⊎◌, inl,
  inr, ◌≢◌, ◌↔◌, arith, Bool-cases, Result, ok, thrown, undefined, ◌>>=◌, catch, Dict, lookup,
  insert, lookup-insert, length, take, drop, replicate, ltb, ◌==◌, length-append,
}

pub record SenderId : Type 0 where
  pub name : Bytes

pub record ReceiverId : Type 0 where
  pub name : Bytes

unfoldable pub make_sender : Bytes → SenderId
make_sender sender = record { name = sender }

unfoldable pub make_receiver : Bytes → ReceiverId
make_receiver receiver = record { name = receiver }

-- The constants of the names.
abbrev pub direct_prefix : Bytes
direct_prefix = codes "fika.direct."

abbrev pub inbox_prefix : Bytes
inbox_prefix = codes "fika.inbox."

abbrev pub sep : Bytes
sep = codes ".to."

unfoldable pub get_direct_queue : SenderId → ReceiverId → Bytes
get_direct_queue from to = direct_prefix ++ (from.name ++ (sep ++ to.name))

unfoldable pub get_inbox_queue : ReceiverId → Bytes
get_inbox_queue to = inbox_prefix ++ to.name

-- `s.find(p)`, and `s.find(p, start)` below.
unfoldable pub find : Bytes → Bytes → Option ℕ
find p [] = if starts_with p [] then some 0 else none
find p (c ∷ s) =
    let rest = Option.map suc (find p s) in if starts_with p (c ∷ s) then some 0 else rest

abbrev pub find_from : Bytes → Bytes → ℕ → Option ℕ
find_from p s start = Option.map (λ i. start + i) (find p (drop start s))

-- `s.substr(start, count)`
abbrev pub substr : Bytes → ℕ → ℕ → Bytes
substr s start count = take count (drop start s)

-- The names as the code cuts them out at the separator's position, and its last test.
unfoldable pub cut_at : Bytes → ℕ → Option (Bytes × Bytes)
cut_at queue_name at_pos =
    let sender = substr queue_name (length direct_prefix) (at_pos - length direct_prefix) in
    let receiver = drop (at_pos + length sep) queue_name in
    if is_empty sender || is_empty receiver then none else some (sender, receiver)

unfoldable pub parse_direct_queue : Bytes → Option (Bytes × Bytes)
parse_direct_queue queue_name =
    if starts_with direct_prefix queue_name
    then elim (find_from sep queue_name (length direct_prefix)) [
      | none ↦ none
      | some i ↦ cut_at queue_name i
    ]
    else none

unfoldable pub parse_inbox_queue : Bytes → Option Bytes
parse_inbox_queue queue_name =
    let binary = drop (length inbox_prefix) queue_name in
    if starts_with inbox_prefix queue_name
    then if is_empty binary then none else some binary
    else none
