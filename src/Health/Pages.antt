-- ===== src/Health/Pages.antt =====
-- `_page`, and the ids of the conversations in its rows.
use codex_monitor.Common.{
  ℕ, zero, suc, String, Bool, true, false, not, ◌&&◌, ◌||◌, Option, none, some, List, [], ◌∷◌, ◌++◌,
  ltb, if◌then◌else◌, ◌==◌, length, member,
}
use codex_monitor.Json.{Value, Items, nil, cons, null, text, array, object, get_field, entry}
use codex_monitor.Session.Inspect.{falsy, hashable}
use codex_monitor.Health.Words.{Fault}
use codex_monitor.Health.Peer.{
  lists_loaded, Answer, answered, rejected, broken, crashed, Trace, Peer,
}

-- The rows of all pages, or how a call failed.
pub data Paged : Type 0 where
  rows : List Value → Paged
  page_rejected : Fault → Paged
  page_broken : Paged
  page_crashed : Paged

abbrev pub with_items : List Value → Items → List Value
with_items vs nil = vs
with_items vs (cons x xs) = with_items (vs ++ x ∷ []) xs

-- A cursor that is no text ends the list where it is false.
abbrev pub odd_cursor : List Value → Bool → Trace → Paged × Trace
odd_cursor vs true t = (rows vs, t)
odd_cursor vs false t = (page_broken, t)

abbrev pub next_page :
    List Value
    → List String
    → (String → Trace → Paged × Trace)
    → Option Value
    → Trace
    → Paged × Trace
next_page vs seen next none t = (rows vs, t)
next_page vs seen next (some (text c)) t =
    if c == "" then (rows vs, t) else if member c seen then (page_broken, t) else next c t
next_page vs seen next (some v) t = odd_cursor vs (falsy v) t

abbrev pub max_thread_ids : ℕ
max_thread_ids = 4096

-- `data` and the cursor of a page, behind the rows of the pages before it.
abbrev pub page_data :
    List Value
    → List String
    → (List Value → String → Trace → Paged × Trace)
    → Option Value
    → Option Value
    → Trace
    → Paged × Trace
page_data vs seen next (some (array xs)) cursor t =
    if ltb max_thread_ids (length (with_items vs xs))
    then (page_broken, t)
    else next_page (with_items vs xs) seen (next (with_items vs xs)) cursor t
page_data vs seen next _ cursor t = (page_broken, t)

abbrev pub page_answer :
    List Value
    → List String
    → (List Value → String → Trace → Paged × Trace)
    → Answer
    → Trace
    → Paged × Trace
page_answer vs seen next (answered v) t =
    page_data vs seen next (entry "data" v) (entry "nextCursor" v) t
page_answer vs seen next (rejected e) t = (page_rejected e, t)
page_answer vs seen next (broken auth) t = (page_broken, t)
page_answer vs seen next crashed t = (page_crashed, t)

-- The number counts the pages that may still be read.
unfoldable pub read_pages :
    Peer → ℕ → Option String → List String → List Value → Trace → Paged × Trace
read_pages owner zero cursor seen vs t = (page_broken, t)
read_pages owner (suc left) cursor seen vs t =
    page_answer vs seen (λ ws c. read_pages owner left (some c) (c ∷ seen) ws)
      (owner.call t (lists_loaded cursor)) (lists_loaded cursor ∷ t)

abbrev with_id : Option Value → Option (List Value) → Option (List Value)
with_id none ids = ids
with_id (some null) ids = ids
with_id (some v) none = none
with_id (some v) (some ids) = if hashable v then some (v ∷ ids) else none

-- `loaded_ids`; `none` where an id cannot be in a set.
unfoldable pub loaded_ids : List Value → Option (List Value)
loaded_ids [] = some []
loaded_ids (text s ∷ vs) = with_id (some (text s)) (loaded_ids vs)
loaded_ids (object fs ∷ vs) = with_id (get_field "id" fs) (loaded_ids vs)
loaded_ids (v ∷ vs) = loaded_ids vs

abbrev text_id : Value → Bool
text_id (text s) = true
text_id v = false

unfoldable pub any_id : (Value → Bool) → List Value → Bool
any_id p [] = false
any_id p (v ∷ vs) = p v || any_id p vs

-- `sorted` compares texts with texts and numbers with numbers only.
abbrev pub sortable : List Value → Bool
sortable ids = not (any_id text_id ids && any_id (λ v. not (text_id v)) ids)
