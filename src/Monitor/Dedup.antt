-- ===== src/Monitor/Dedup.antt =====
-- What `ingest` leaves of an event that it took, and what it answers where it finds that.
use codex_monitor.Common.{
  ℕ, ◌≡◌, refl, subst, sym, String, true, false, some, inl, inr, arith, ok, err, find_row,
  find_row-append, Option-cases, eq_refl, ◌&&◌, member, ◌==◌, eq_iff, ◌≢◌,
}
use codex_monitor.Monitor.State.{Binding, Event, Db, Limits, Codec}
use codex_monitor.Monitor.Intake.{
  Header, Receipt, same_event, named, new_event, insert_event, admit, intake,
}

same_event-new :
    (seq : ℕ) (fresh : String) (now : ℕ) (binding : String) (h : Header)
    → same_event binding h (new_event seq fresh now binding h) ≡ true
same_event-new seq fresh now binding h = simp (eq_refl)

-- What `admit` does when it does not refuse.
pub admit_ok :
    (codec : Codec) (l : Limits) (fresh : String) (now : ℕ) (binding : String) (h : Header)
    (target : Binding) (db db' : Db) (r : Receipt)
    → admit codec l fresh now binding h target db ≡ ok (db', r)
    → (db' ≡ insert_event fresh now binding h db)
      × (r ≡ record { delivery_id = fresh; duplicate = false })
unfolding admit
admit_ok codec l fresh now binding h target db db' r e = ground arith

-- What the tables hold for a header that was taken, now or before.
pub record IsTaken (binding : String) (h : Header) (delivery_id : String) (db : Db) : Type 0 where
  pub target : Binding
  pub event : Event
  pub routed : find_row (named binding) db.bindings ≡ some target
  pub allowed : member h.source target.sources ≡ true
  pub stored : find_row (same_event binding h) db.events ≡ some event
  pub content : event.envelope ≡ h.encoded
  pub receipt : event.id ≡ delivery_id

pub intake-IsTaken :
    (codec : Codec) (l : Limits) (fresh : String) (now : ℕ) (binding : String) (h : Header)
    (db db' : Db) (r : Receipt)
    → intake codec l fresh now binding h db ≡ ok (db', r)
    → IsTaken binding h r.delivery_id db'
unfolding intake insert_event
intake-IsTaken codec l fresh now binding h db db' r e =
    elim (Option-cases (find_row (named binding) db.bindings)) [
      | inl missing ↦ absurd (ground arith)
      | inr (t, found) ↦ elim (Option-cases (find_row (same_event binding h) db.events)) [
        | inl unknown ↦
            let admitted = admit_ok codec l fresh now binding h t db db' r in
            record {
              target = t;
              event = new_event db.next_seq fresh now binding h;
              routed = ground (arith, admitted);
              allowed = ground arith;
              stored = ground (
                arith,
                admitted,
                find_row-append (same_event binding h) db.events
                    (new_event db.next_seq fresh now binding h),
                same_event-new db.next_seq fresh now binding h,
              );
              content = refl;
              receipt = ground (arith, admitted);
            }
        | inr (x, known) ↦ record {
          target = t;
          event = x;
          routed = ground arith;
          allowed = ground arith;
          stored = ground arith;
          content = ground (arith, eq_iff x.envelope h.encoded);
          receipt = ground arith;
        }
      ]
    ]

-- A header that was taken is answered by its receipt.
pub intake_again :
    (codec : Codec) (l : Limits) (fresh : String) (now : ℕ) (binding : String) (h : Header)
    (db : Db) {id : String}
    → IsTaken binding h id db
    → intake codec l fresh now binding h db ≡ ok (db, record { delivery_id = id; duplicate = true })
unfolding intake
intake_again codec l fresh now binding h db taken =
    ground (arith, eq_iff taken.event.envelope h.encoded)

same_event_by :
    (binding : String) (h other : Header)
    → other.id ≡ h.id
    → other.source ≡ h.source
    → same_event binding other ≡ same_event binding h
same_event_by binding h other i s =
    λ k e. e.binding == binding && (e.source == s k && e.event_id == i k)

-- Another content under the same identification is refused.
pub intake_refused :
    (codec : Codec) (l : Limits) (fresh : String) (now : ℕ) (binding : String) (h other : Header)
    (db : Db) {id : String}
    → IsTaken binding h id db
    → other.id ≡ h.id
    → other.source ≡ h.source
    → other.encoded ≢ h.encoded
    → intake codec l fresh now binding other db
      ≡ err 409 "event ID already used for different content"
unfolding intake
intake_refused codec l fresh now binding h other db taken i s differs =
    ground (arith, known, eq_iff taken.event.envelope other.encoded)
  where
    known : find_row (same_event binding other) db.events ≡ some taken.event
    known =
        subst (λ q. find_row q db.events ≡ some taken.event)
          (sym (same_event_by binding h other i s)) taken.stored
