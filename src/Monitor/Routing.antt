-- ===== src/Monitor/Routing.antt =====
-- What the operations on routes and watches do to the routes: nothing, or one update.
use codex_monitor.Common.{
  ℕ, ◌≡◌, String, Bool, true, false, Option, [], ◌∷◌, arith, update_rows, ◌⊎◌, Result, ok, err,
}
use codex_monitor.Endpoint.{Url, validate_endpoint}
use codex_monitor.Monitor.State.{Db, ManagedWatch}
use codex_monitor.Monitor.Intake.{named}
use codex_monitor.Monitor.Routes.{
  Action, enables as enables_action, removes as removes_action, managed_source, new_binding,
  insert_binding, rebind, live_named, set_enabled, exact_route, dashboard_action,
}
use codex_monitor.Monitor.Dispatch.{Resolution, resolve}
use codex_monitor.Monitor.Managed.{
  add_watch, managed_row, managed_set_enabled, managed_remove, managed_set_worker,
}
use codex_monitor.Monitor.Machine.{after}

abbrev pub target_of : Result String → String
target_of (ok t) = t
target_of (err c m) = ""

pub bindings-rebind :
    (urlsplit : String → Option Url) (x thread previous endpoint : String) (db : Db)
    → ((after db (rebind urlsplit x thread previous endpoint db)).bindings ≡ db.bindings)
      ⊎ ((after db (rebind urlsplit x thread previous endpoint db)).bindings
          ≡ update_rows
              (named x)
              (λ b. record b { endpoint = target_of (validate_endpoint urlsplit endpoint) })
              db.bindings)
unfolding rebind
bindings-rebind urlsplit x thread previous endpoint db = ground arith

pub bindings-set_enabled :
    (x : String) (enabled : Bool) (db : Db)
    → ((after db (set_enabled x enabled db)).bindings ≡ db.bindings)
      ⊎ ((after db (set_enabled x enabled db)).bindings
          ≡ update_rows (live_named x) (λ b. record b { enabled = enabled }) db.bindings)
unfolding set_enabled
bindings-set_enabled x enabled db = ground arith

pub bindings-dashboard_action :
    (now : ℕ) (x thread endpoint : String) (action : Action) (db : Db)
    → ((after db (dashboard_action now x thread endpoint action db)).bindings ≡ db.bindings)
      ⊎ ((after db (dashboard_action now x thread endpoint action db)).bindings
          ≡ update_rows
              (exact_route x thread endpoint)
              (λ b. record b { enabled = enables_action action; removed = removes_action action })
              db.bindings)
unfolding dashboard_action
bindings-dashboard_action now x thread endpoint action db = ground arith

abbrev pub route_of_row : Result ManagedWatch → String
route_of_row (ok w) = w.binding
route_of_row (err c m) = ""

pub bindings-managed_set_enabled :
    (now : ℕ) (thread x : String) (enabled : Bool) (db : Db)
    → ((after db (managed_set_enabled now thread x enabled db)).bindings ≡ db.bindings)
      ⊎ ((after db (managed_set_enabled now thread x enabled db)).bindings
          ≡ update_rows
              (named (route_of_row (managed_row thread x db)))
              (λ b. record b { enabled = enabled })
              db.bindings)
unfolding managed_set_enabled
bindings-managed_set_enabled now thread x enabled db = ground arith

pub bindings-managed_remove :
    (now : ℕ) (thread x : String) (db : Db)
    → ((after db (managed_remove now thread x db)).bindings ≡ db.bindings)
      ⊎ ((after db (managed_remove now thread x db)).bindings
          ≡ update_rows
              (named (route_of_row (managed_row thread x db)))
              (λ b. record b { enabled = false; removed = true })
              db.bindings)
unfolding managed_remove
bindings-managed_remove now thread x db = ground arith

pub bindings-managed_set_worker :
    (now : ℕ) (id state : String) (error delivery sample_error : Option String) (db : Db)
    → (managed_set_worker now id state error delivery sample_error db).bindings ≡ db.bindings
unfolding managed_set_worker
bindings-managed_set_worker now id state error delivery sample_error db = ground arith

pub bindings-add_watch :
    (w : ManagedWatch) (endpoint : String) (db : Db)
    → ((after db (add_watch w endpoint db)).bindings ≡ db.bindings)
      ⊎ ((after db (add_watch w endpoint db)).bindings
          ≡ (after db (
              insert_binding
                (new_binding w.binding w.thread endpoint (managed_source ∷ []))
                db)).bindings)
unfolding add_watch
bindings-add_watch w endpoint db = ground arith

pub bindings-resolve :
    (blank : String → Bool) (now : ℕ) (id : String) (action : Resolution) (reason : String)
    (db : Db)
    → (after db (resolve blank now id action reason db)).bindings ≡ db.bindings
unfolding resolve
bindings-resolve blank now id action reason db = ground arith
