-- ===== src/Monitor/Labels.antt =====
-- `set_conversation_metadata` and `conversation_metadata` of `Monitor`: the project and the label of
-- a conversation. `str.strip` is a parameter.
use codex_monitor.Common.{
  ℕ, String, Bool, true, false, ◌&&◌, ◌||◌, Option, none, some, List, [], ◌∷◌, ◌++◌, eqb, ltb, leb,
  if◌then◌else◌, Result, ok, ◌>>=◌, ◌>>◌, require, refuse_if, any_row, select_rows, update_rows,
  codes, length, ◌==◌,
}
use codex_monitor.Json.{is_name}
use codex_monitor.Endpoint.{any_code}
use codex_monitor.Monitor.State.{Binding, Metadata, Db}

abbrev default_project : String
default_project = "Ungrouped"

-- `ord(char) < 32 or 0x7F <= ord(char) <= 0x9F`
abbrev is_control : ℕ → Bool
is_control c = ltb c 32 || (leb 127 c && leb c 159)

-- `_metadata_text`
unfoldable pub metadata_text : (String → String) → String → Result String
metadata_text strip s = do
  refuse_if (strip s == "") 400 "must be a nonempty string"
  refuse_if (ltb 200 (length (codes (strip s))) || any_code is_control (codes (strip s))) 400
      "is too long or contains control characters"
  ok (strip s)

abbrev pub given_or : Option String → String → String
given_or none default = default
given_or (some s) default = s

abbrev pub of_thread : String → Metadata → Bool
of_thread thread m = m.thread == thread

-- INSERT ... ON CONFLICT(thread) DO UPDATE
unfoldable pub upsert : Metadata → List Metadata → List Metadata
upsert m ms =
    if any_row (of_thread m.thread) ms
    then update_rows (of_thread m.thread)
        (λ k. record k { project = m.project; display_name = m.display_name }) ms
    else ms ++ m ∷ []

unfoldable pub set_conversation_metadata :
    (String → String) → String → Option String → Option String → Db → Result (Db × Metadata)
unfolding metadata_text upsert
set_conversation_metadata strip thread project display_name db = do
  require (is_name thread) 400 "thread must be a nonempty identifier"
  project ← metadata_text strip (given_or project default_project)
  name ← metadata_text strip (given_or display_name thread)
  ok (
    record db {
      metadata =
          upsert (record { thread = thread; project = project; display_name = name }) db.metadata;
    },
    record { thread = thread; project = project; display_name = name },
  )

abbrev default_label : String → Metadata
default_label thread = record { thread = thread; project = default_project; display_name = thread }

-- `metadata.setdefault` for the thread of each binding
unfoldable pub with_defaults : List Binding → List Metadata → List Metadata
with_defaults [] ms = ms
with_defaults (b ∷ bs) ms =
    let known = with_defaults bs ms in
    let added = with_defaults bs (ms ++ default_label b.thread ∷ []) in
    if any_row (of_thread b.thread) ms then known else added

-- The order of texts: by their code points.
unfoldable pub codes_before : List ℕ → List ℕ → Bool
codes_before [] ds = true
codes_before (c ∷ cs) [] = false
codes_before (c ∷ cs) (d ∷ ds) = let rest = codes_before cs ds in ltb c d || (eqb c d && rest)

unfoldable pub insert_label : Metadata → List Metadata → List Metadata
unfolding codes_before
insert_label m [] = m ∷ []
insert_label m (k ∷ ks) =
    let rest = insert_label m ks in
    if codes_before (codes m.thread) (codes k.thread) then m ∷ k ∷ ks else k ∷ rest

unfoldable pub sort_labels : List Metadata → List Metadata
unfolding insert_label
sort_labels [] = []
sort_labels (m ∷ ms) = insert_label m (sort_labels ms)

abbrev pub asked_for : Option String → String → Bool
asked_for none thread = true
asked_for (some asked) thread = thread == asked

abbrev check_asked : Option String → Result (Unit {0})
check_asked none = ok tt
check_asked (some thread) = require (is_name thread) 400 "thread must be a nonempty identifier"

unfoldable pub conversation_metadata : Option String → Db → Result (List Metadata)
unfolding with_defaults sort_labels
conversation_metadata asked db = do
  check_asked asked
  ok (
      sort_labels (
        with_defaults (select_rows (λ b. asked_for asked b.thread) db.bindings)
          (select_rows (λ m. asked_for asked m.thread) db.metadata)))
