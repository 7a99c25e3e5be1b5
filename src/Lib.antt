-- ===== src/Lib.antt =====
-- codex_monitor: the durable event inbox of a local receiver that hands external events to
-- conversations of a coding agent, in codex_monitor/*.py.
--
-- The parts. `Monitor` (codex_monitor/monitor.py) keeps monitor.sqlite3: routes (`bindings`),
-- events, managed watches and the decisions of operators. `ingest` checks an envelope and stores
-- it; `dispatch_once` takes the next due event, commits a claim, calls a session of the event's
-- owner, and writes the answer. Its predicates on JSON documents are codex_monitor/predicates.py.
-- `RequestStore` (codex_monitor/requests.py) keeps requests.sqlite3: requests that a conversation
-- moves through their states, and an outbox of notifications which are sent through the inbox.
-- `ReplyStore` (codex_monitor/replies.py) keeps the replies to events until their source has
-- acknowledged them, and `ChangeWatcher` (codex_monitor/watch.py) turns samples into events, which
-- `ConditionDebouncer` (codex_monitor/conditions.py) may hold back until they are stable.
-- `RequestDispatcher` (codex_monitor/request_dispatch.py) moves the notifications of the request
-- store into the inbox. The sessions (codex_monitor/session.py) are what a dispatch calls: they
-- speak with the app server of an owner. codex_monitor/owner_health.py probes such an owner for the
-- dashboard, and codex_monitor/owner_recovery.py refreshes its login.
--
-- The files.
--   Common/*     texts, rows of a table, results, used by all
--   Json         JSON values and what the checks read of them; Json.Numeric has the numbers
--   Endpoint     validate_endpoint (codex_monitor/monitor.py)
--   Predicate/*  codex_monitor/predicates.py: pointers, strict equality, conditions
--   Monitor/*    codex_monitor/monitor.py. State has the tables, Intake `ingest`, Routes `bind`,
--                `rebind`, `enable` and `dashboard_action`, Labels the labels of conversations,
--                Dispatch `dispatch_once` and `resolve`, Managed the watches' methods, Machine one
--                step for each method. The other files have the proofs, and Samples small runs.
--   Requests/*   codex_monitor/requests.py. State has the tables and limits, Updates
--                `_transition_db` and what it calls, Lifecycle `create`, `transition` and
--                `expire_due`, Outbox the notifications, Queries the methods that only read,
--                Machine one step for each method that writes; the other files as for Monitor.
--   Replies/*    codex_monitor/replies.py: Outbox has the table and the methods
--   Watch/*      codex_monitor/watch.py: `check`, and rows of checks with failures between
--   Conditions/* codex_monitor/conditions.py: `select`, `commit`, `reset`
--   Dispatcher/* codex_monitor/request_dispatch.py: `pump`, on both databases; Machine has the runs
--   Health/*     codex_monitor/owner_health.py: Words and Answers classify an owner's answers, Pages
--                has `_page`, Probe `probe_owner`, Cache the cache of observations; Retry has
--                codex_monitor/owner_recovery.py
--   Session/*    codex_monitor/session.py: Errors classifies the error of a response, Target has
--                `check_target` and `deliver`, Inspect `inspect` and `reconcile`, Submission the
--                sessions as the owner that a dispatch calls
--
-- A table is a list of rows in the order of their keys; a method that raises IngressError gives
-- `err` with the status and the message and leaves the tables as they are, as the rollback of the
-- transaction does. SQLite's transactions are taken to be atomic, and BEGIN IMMEDIATE to put them
-- in a sequence, so a run is a list of methods in the order of their transactions; `dispatch_once`
-- commits twice, and the operation `crashes` is a receiver that dies between the two commits,
-- before or after its call of the session.
--
-- Times and durations are whole microseconds, where the code has floats, and a uuid is an argument of the method that draws it. What the code
-- uses of the outside is a parameter: the codec (`json.dumps`, `json_extract`), `urlsplit`, texts
-- beyond ASCII (`strip`, `casefold`), and the answers of an owner or of the server of its sessions,
-- of which nothing is assumed but what a theorem names.
--
-- Fuel: `decimal` (Requests/State), the digits of a number, is given one more than the number, which
-- has no more digits than that. `scan` (Session/Inspect) and `read_pages` (Health/Pages) count the
-- pages that the code itself allows, and `read_all` (Requests/Paging), a client of `list_requests`,
-- counts its calls, of which one more than the rows of the table are enough. Other loops are
-- recursion on lists.
--
-- Not modelled: the processes, sockets and terminals around the tables (the HTTP server, the command
-- line, the dashboard's page, the service's installation, the connections of the sessions with their
-- threads), and SQLite; nor the transactions that other threads may commit between the claim of a
-- dispatch and its outcome, while the session is called: they stand before or after it in a run.
pub mod Common
pub mod Json
pub mod Endpoint
pub mod Predicate
pub mod Monitor
pub mod Requests
pub mod Replies
pub mod Watch
pub mod Conditions
pub mod Dispatcher
pub mod Health
pub mod Session
