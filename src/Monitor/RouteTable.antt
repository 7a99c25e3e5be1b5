-- ===== src/Monitor/RouteTable.antt =====
-- A property of the routes that every operation of the receiver keeps: the operations insert a route
-- under a new name, or update rows whose name and sources stay and whose tombstone is not taken away.
use codex_monitor.Common.{
  ℕ, ◌≡◌, refl, String, Bool, true, false, Option, List, [], ◌∷◌, ◌++◌, arith, Bool-cases, inl, inr,
  any_row, update_rows, ◌⊎◌, leb, Result, ok, err, require, refuse_if, ◌>>=◌, ◌>>◌, member,
}
use codex_monitor.Json.{Value}
use codex_monitor.Endpoint.{Url, validate_endpoint}
use codex_monitor.Monitor.State.{Binding, Db, Codec, ManagedWatch}
use codex_monitor.Monitor.Intake.{named, insert_event}
use codex_monitor.Monitor.Routes.{
  managed_source, new_binding, insert_binding, bind, live_named, exact_route,
}
use codex_monitor.Monitor.Managed.{
  add_watch, managed_row, managed_create, managed_validate, condition_text, new_watch,
  managed_heartbeat,
}
use codex_monitor.Monitor.Machine.{
  Op, ingests, dispatches, crashes, resolves, binds, rebinds, enables, acts, creates, switches,
  removes, reports, beats, Setup, after, step,
}
use codex_monitor.Monitor.Cases.{ingest_cases, dispatch_cases, crash_cases}
use codex_monitor.Monitor.Routing.{
  route_of_row, bindings-resolve, bindings-rebind, bindings-set_enabled, bindings-dashboard_action,
  bindings-managed_set_enabled, bindings-managed_remove, bindings-managed_set_worker,
  bindings-add_watch,
}

-- What an operation may do to the routes that it updates.
pub record IsSafeUpdate (p : Binding → Bool) (f : Binding → Binding) : Type 0 where
  pub name : (b : Binding) → (f b).name ≡ b.name
  pub sources : (b : Binding) → (f b).sources ≡ b.sources
  pub tombstone : (b : Binding) → p b ≡ true → b.removed ≡ true → (f b).removed ≡ true

-- What keeps a property of the routes.
pub record Keeps (P : List Binding → Type 0) : Type 0 where
  pub grow :
      (b : Binding) (bs : List Binding)
      → any_row (named b.name) bs ≡ false
      → P bs
      → P (bs ++ b ∷ [])
  pub update :
      (p : Binding → Bool) (f : Binding → Binding) (bs : List Binding)
      → IsSafeUpdate p f
      → P bs
      → P (update_rows p f bs)

safe :
    (p : Binding → Bool) (f : Binding → Binding)
    → ((b : Binding) → (f b).name ≡ b.name)
    → ((b : Binding) → (f b).sources ≡ b.sources)
    → ((b : Binding) → p b ≡ true → b.removed ≡ true → (f b).removed ≡ true)
    → IsSafeUpdate p f
safe p f n s t = record { name = n; sources = s; tombstone = t }

module _ (P : List Binding → Type 0) (k : Keeps P) where
  insert-kept :
      (b : Binding) (db : Db) → P db.bindings → P (after db (insert_binding b db)).bindings
  insert-kept b db r = elim (Bool-cases (any_row (named b.name) db.bindings)) [
    | inl t ↦ rw t r
    | inr t ↦ rw t (k.grow b db.bindings t r)
  ]

  bind-kept :
      (x thread endpoint : String) (sources : List String) (db : Db)
      → P db.bindings
      → P (after db (bind x thread endpoint sources db)).bindings
  unfolding bind
  bind-kept x thread endpoint sources db r = checked (member managed_source sources) _
    where
      checked :
          (a b : Bool)
          → P
              (after db (
                refuse_if a 403 "reserved managed source cannot be registered externally"
                >> (require b 400 "binding, thread and sources must be nonempty identifiers"
                    >> insert_binding (new_binding x thread endpoint sources) db))).bindings
      checked true b = r
      checked false false = r
      checked false true = insert-kept (new_binding x thread endpoint sources) db r

  -- One of two outcomes for the routes.
  either_way :
      (p : Binding → Bool) (f : Binding → Binding) (bs cs : List Binding)
      → IsSafeUpdate p f
      → P bs
      → (cs ≡ bs) ⊎ (cs ≡ update_rows p f bs)
      → P cs
  either_way p f bs cs safe r (inl e) = rw e r
  either_way p f bs cs safe r (inr e) = rw e (k.update p f bs safe r)

  add_watch-kept :
      (w : ManagedWatch) (endpoint : String) (db : Db)
      → P db.bindings
      → P (after db (add_watch w endpoint db)).bindings
  add_watch-kept w endpoint db r = go (bindings-add_watch w endpoint db)
    where
      go :
          ((after db (add_watch w endpoint db)).bindings ≡ db.bindings)
            ⊎ ((after db (add_watch w endpoint db)).bindings
                ≡ (after db (
                    insert_binding
                      (new_binding w.binding w.thread endpoint (managed_source ∷ []))
                      db)).bindings)
          → P (after db (add_watch w endpoint db)).bindings
      go (inl e) = rw e r
      go (inr e) = rw e (insert-kept _ db r)

  managed_create-kept :
      (codec : Codec) (urlsplit : String → Option Url) (fresh : String) (now : ℕ)
      (thread x path : String) (interval : ℕ) (endpoint : String) (debounce : ℕ)
      (condition : Option Value) (db : Db)
      → P db.bindings
      → P
          (after db (
            managed_create codec urlsplit fresh now thread x path interval endpoint debounce
              condition db)).bindings
  unfolding managed_create
  managed_create-kept codec urlsplit fresh now thread x path interval endpoint debounce condition db
        r =
      start (validate_endpoint urlsplit endpoint) (managed_validate thread x path interval)
        (leb debounce 86_400_000_000) (condition_text codec condition)
    where
      start :
          (v : Result String) (m : Result (Unit {0})) (b : Bool) (c : Result (Option String))
          → P
              (after db (
                v >>= λ target.
                m
                >> (require b 400 "debounce seconds must be between 0 and 86400"
                    >> (c >>= λ condition_json.
                        add_watch
                          (new_watch fresh now thread x path interval debounce condition_json)
                          target
                          db)))).bindings
      start (err k e) m b c = r
      start (ok target) (err k e) b c = r
      start (ok target) (ok _) false c = r
      start (ok target) (ok _) true (err k e) = r
      start (ok target) (ok _) true (ok condition_json) = add_watch-kept _ target db r

  pub bindings-kept : (u : Setup) (db : Db) (op : Op) → P db.bindings → P (step u db op).bindings
  unfolding step managed_heartbeat
  bindings-kept u db (ingests fresh now binding envelope) r =
      ingest_cases (λ d. P d.bindings) u.codec u.limits fresh now binding db r envelope
        λ h target valid found admitted. unfold insert_event in r
  bindings-kept u db (dispatches owner now later) r =
      dispatch_cases (λ d. P d.bindings) u.limits now db r (λ row due p. r) owner later
        λ row o due. r
  bindings-kept u db (crashes owner now called) r =
      crash_cases (λ d. P d.bindings) u.limits now db r (λ row due p. r) λ row due. r
  bindings-kept u db (resolves now id action reason) r =
      rw (bindings-resolve u.blank now id action reason db) r
  bindings-kept u db (binds x thread endpoint sources) r = bind-kept x thread endpoint sources db r
  bindings-kept u db (rebinds x thread previous endpoint) r =
      either_way (named x) _ db.bindings _ (safe _ _ (λ b. refl) (λ b. refl) λ b _ h. h) r
        (bindings-rebind u.urlsplit x thread previous endpoint db)
  bindings-kept u db (enables x enabled) r =
      either_way (live_named x) _ db.bindings _ (safe _ _ (λ b. refl) (λ b. refl) λ b _ h. h) r
        (bindings-set_enabled x enabled db)
  bindings-kept u db (acts now x thread endpoint action) r =
      either_way (exact_route x thread endpoint) _ db.bindings _
        (safe _ _ (λ b. refl) (λ b. refl) λ b t h. ground arith) r
        (bindings-dashboard_action now x thread endpoint action db)
  bindings-kept u db (creates fresh now thread x path interval endpoint debounce condition) r =
      managed_create-kept u.codec u.urlsplit fresh now thread x path interval endpoint debounce
        condition db r
  bindings-kept u db (switches now thread x enabled) r =
      either_way (named (route_of_row (managed_row thread x db))) _ db.bindings _
        (safe _ _ (λ b. refl) (λ b. refl) λ b _ h. h) r
        (bindings-managed_set_enabled now thread x enabled db)
  bindings-kept u db (removes now thread x) r =
      either_way (named (route_of_row (managed_row thread x db))) _ db.bindings _
        (safe _ _ (λ b. refl) (λ b. refl) λ b _ h. refl) r (bindings-managed_remove now thread x db)
  bindings-kept u db (reports now id state error delivery sample_error) r =
      rw (bindings-managed_set_worker now id state error delivery sample_error db) r
  bindings-kept u db (beats now later id) r = r
