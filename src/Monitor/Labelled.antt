-- ===== src/Monitor/Labelled.antt =====
-- The label that is set for a conversation is the one that is read.
use codex_monitor.Common.{
  ◌≡◌, refl, subst, String, true, false, Option, some, List, [], ◌∷◌, ◌++◌, map, Result, ok,
  bind_ok, require_ok, any_row, select_rows, update_rows, All, All-select_rows, All-always,
  All-mono, Distinct, ◌==◌, eq_refl, eq_iff, arith, Bool-cases, inl, inr,
}
use codex_monitor.Json.{is_name}
use codex_monitor.Monitor.State.{Binding, Metadata, Db}
use codex_monitor.Monitor.Labels.{
  metadata_text, given_or, of_thread, upsert, set_conversation_metadata, with_defaults,
  insert_label, sort_labels, conversation_metadata,
}

abbrev pub DistinctThreads : List Metadata → Type 0
DistinctThreads ms = Distinct (map (λ m. m.thread) ms)

select_none :
    (thread : String) (ms : List Metadata)
    → All (λ j. (thread == j) ≡ false) (map (λ m. m.thread) ms)
    → select_rows (of_thread thread) ms ≡ []
unfolding select_rows
select_none thread [] h = refl
select_none thread (m ∷ ms) h =
    ground (arith, h.0, eq_iff m.thread thread, eq_iff thread m.thread, select_none thread ms h.1)

select_absent :
    (thread : String) (m : Metadata) (ms : List Metadata)
    → m.thread ≡ thread
    → any_row (of_thread thread) ms ≡ false
    → select_rows (of_thread thread) (ms ++ m ∷ []) ≡ m ∷ []
unfolding select_rows any_row
select_absent thread m [] e h = ground (arith, e, eq_refl thread)
select_absent thread m (k ∷ ms) e h = ground (arith, h, select_absent thread m ms e)

abbrev renamed : Metadata → Metadata → Metadata
renamed m k = record k { project = m.project; display_name = m.display_name }

keep_none :
    (m : Metadata) (ms : List Metadata)
    → All (λ j. (m.thread == j) ≡ false) (map (λ k. k.thread) ms)
    → select_rows (of_thread m.thread) (update_rows (of_thread m.thread) (renamed m) ms) ≡ []
unfolding select_rows update_rows
keep_none m [] h = refl
keep_none m (k ∷ ms) h =
    ground (arith, h.0, eq_iff m.thread k.thread, eq_iff k.thread m.thread, keep_none m ms h.1)

select_present :
    (m : Metadata) (ms : List Metadata)
    → DistinctThreads ms
    → any_row (of_thread m.thread) ms ≡ true
    → select_rows (of_thread m.thread) (update_rows (of_thread m.thread) (renamed m) ms) ≡ m ∷ []
unfolding select_rows update_rows any_row
select_present m [] d h = cc
select_present m (k ∷ ms) d h = elim (Bool-cases (k.thread == m.thread)) [
  | inl t ↦
      let same : k.thread ≡ m.thread = ground (arith, t, eq_iff k.thread m.thread) in
      let rest =
        keep_none m ms
          (subst (λ x. All (λ j. (x == j) ≡ false) (map (λ q. q.thread) ms)) same d.0) in
      rw t (rw t (λ i. record m { thread = same i } ∷ rest i))
  | inr t ↦ rw t (rw t (select_present m ms d.1 (ground (arith, t, h))))
]

upsert_select :
    (m : Metadata) (ms : List Metadata)
    → DistinctThreads ms
    → select_rows (of_thread m.thread) (upsert m ms) ≡ m ∷ []
unfolding upsert
upsert_select m ms d = elim (Bool-cases (any_row (of_thread m.thread) ms)) [
  | inl t ↦ rw t (select_present m ms d t)
  | inr t ↦ rw t (select_absent m.thread m ms refl t)
]

-- A conversation that has metadata needs no defaults.
defaults_known :
    (m : Metadata) (bs : List Binding)
    → All (λ b. (b.thread == m.thread) ≡ true) bs
    → with_defaults bs (m ∷ []) ≡ m ∷ []
unfolding with_defaults any_row
defaults_known m [] h = refl
defaults_known m (b ∷ bs) h =
    ground (arith, h.0, eq_iff b.thread m.thread, eq_iff m.thread b.thread, defaults_known m bs h.1)

read_back :
    (m : Metadata) (db : Db)
    → DistinctThreads db.metadata
    → is_name m.thread ≡ true
    → conversation_metadata (some m.thread) (record db { metadata = upsert m db.metadata })
      ≡ ok (m ∷ [])
unfolding conversation_metadata sort_labels insert_label
read_back m db d named =
    let picked =
      All-select_rows (λ b. Unit {0}) (λ b. b.thread == m.thread) db.bindings
        (All-always (λ b. Unit {0}) (λ b. tt) db.bindings) in
    let known =
      defaults_known m (select_rows (λ b. b.thread == m.thread) db.bindings)
        (All-mono _ _ (λ b h. h.1) _ picked) in
    rw named (rw (upsert_select m db.metadata d) (rw known refl))

stored_same :
    (a b : Db) (x y : Metadata)
    → ◌≡◌ {A = Result (Db × Metadata)} (ok (a, x)) (ok (b, y))
    → (a ≡ b) × (x ≡ y)
stored_same a b x y e = (cc, cc)

-- What `set_conversation_metadata` stores is what `conversation_metadata` then gives for that
-- conversation, and nothing else, whatever was stored for it before and however many routes it has;
-- the threads of the table are distinct, as its primary key has it.
pub set-conversation_metadata :
    (strip : String → String) (thread : String) (project display_name : Option String) (db db' : Db)
    (m : Metadata)
    → DistinctThreads db.metadata
    → set_conversation_metadata strip thread project display_name db ≡ ok (db', m)
    → conversation_metadata (some thread) db' ≡ ok (m ∷ [])
unfolding set_conversation_metadata
set-conversation_metadata strip thread project display_name db db' m d e =
    let (named, e1) = require_ok (is_name thread) 400 "thread must be a nonempty identifier" _ e in
    let (p, _, e2) = bind_ok (metadata_text strip (given_or project "Ungrouped")) _ e1 in
    let (n, _, e3) = bind_ok (metadata_text strip (given_or display_name thread)) _ e2 in
    let made : Metadata = record { thread = thread; project = p; display_name = n } in
    let (tables, label) =
      stored_same (record db { metadata = upsert made db.metadata }) db' made m e3 in
    subst (λ x. conversation_metadata (some thread) x ≡ ok (m ∷ [])) tables
      (subst
        (λ x.
          conversation_metadata (some thread) (record db { metadata = upsert made db.metadata })
          ≡ ok (x ∷ []))
        label (read_back made db d named))
