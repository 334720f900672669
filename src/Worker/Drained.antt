-- ===== src/Worker/Drained.antt =====
-- Rounds of the worker, one after the other, finish every action.
use mathlib.Core.Bool.{Bool-set}
use mathlib.Core.List.Perm
use mathlib.Core.Path.{subst}
use text.Mathlib.TextEquality.{IsScalar-prop}
use support_operations_intel.Actions.{Policy}
use support_operations_intel.Models.Database.{Database, ok, raised, Result, session_scope}
use support_operations_intel.Models.Engine.{after_reads, Clock, Engine, IsEngine}
use support_operations_intel.Models.States.{is_waiting}
use support_operations_intel.Models.Tables.{Action}
use support_operations_intel.Worker.{
  by_due, due_actions, is_due, process_due_actions, run_once, Summary,
}
use support_operations_intel.Worker.Progress.{
  due_if_waiting, need, attempts_left, Advances, IsBatch, IsReady, key, NeverCrashes, work-Advances,
}
use support_operations_intel.Worker.Totals.{is_waiting_of_is_due}
use support_operations_intel.Prelude.{
  ltb, inr, inl, refl, Bool-cases, [], ◌∷◌, sum_of, ◌*◌, All, All_both, All-imp, All-perm,
  All-select, All-select_of, All-Stored, All-take, arith, count, Distinct, Distinct-perm,
  Distinct-select, Distinct-take, length, length-perm, length-select, length-take, List, min, none,
  same_id, select, Stored, true, ℕ, ◌+◌, ◌-◌, ◌<◌, ◌≡◌, ◌≤◌, ◌∙◌, ap,
}

pub Action-set : IsSet Action
Action-set = hlevel IsScalar-prop

Stored-prop : (rows : List Action) (a : Action) → IsProp (Stored key rows a)
Stored-prop rows a = hlevel Action-set

scoped-Advances :
    (policy : Policy) (lease_seconds later n : ℕ) (db : Database) (out : Result Summary × Database)
    → Advances policy lease_seconds later n db out
    → Advances policy lease_seconds later n db (session_scope (λ _. out) db)
unfolding session_scope
scoped-Advances policy lease_seconds later n db (ok t, d) h = h
scoped-Advances policy lease_seconds later n db (raised e, d) h = h

module _ (engine : Engine) (policy : Policy) (limit lease_seconds : ℕ) (laws : IsEngine engine)
    (allowed : 0 < policy.max_attempts) (steady : NeverCrashes policy) where
  -- The rows that the query returns are stored rows that wait, each once.
  due_actions-IsBatch :
      (now stale : ℕ) (db : Database)
      → Distinct (same_id key) db.actions
      → IsBatch db.actions (due_actions engine policy limit now stale db)
  unfolding due_actions
  due_actions-IsBatch now stale db distinct =
      let chosen = select (is_due now stale) db.actions in
      let perm = laws.order_by-perm Action by_due chosen in
      let waiting : All (λ a. is_waiting a.state ≡ true) chosen =
        All-imp _ _ chosen (is_waiting_of_is_due now stale)
          (All-select (is_due now stale) db.actions) in
      let stored : All (Stored key db.actions) chosen =
        All-select_of _ (is_due now stale) db.actions (All-Stored key db.actions distinct) in
      (
        All-take _ limit _ (
            All_both _ _ _ (All-perm _ (λ a. Bool-set _ _) perm waiting)
              (All-perm _ (Stored-prop db.actions) perm stored)),
        Distinct-take (same_id key) limit _ (
            Distinct-perm (same_id key) (λ x y. ground arith) (Perm.symm perm)
              (Distinct-select (same_id key) (is_due now stale) db.actions distinct)),
      )

  length-due_actions :
      (now stale : ℕ) (db : Database)
      → length (due_actions engine policy limit now stale db)
        ≡ min limit (count (is_due now stale) db.actions)
  unfolding due_actions
  length-due_actions now stale db =
      let chosen = select (is_due now stale) db.actions in
      length-take limit (engine.order_by Action by_due chosen)
      ∙ ap (min limit) (
          length-perm (laws.order_by-perm Action by_due chosen)
          ∙ length-select (is_due now stale) db.actions)

  process_due_actions-Advances :
      (clock : Clock) (later : ℕ) (db : Database)
      → clock 0 + policy.retry_delay_seconds ≤ later
      → Distinct (same_id key) db.actions
      → IsReady lease_seconds later db
      → Advances policy lease_seconds later
          (length (due_actions engine policy limit (clock 0) (clock 0 - lease_seconds) db))
          db
          (process_due_actions engine policy limit lease_seconds clock none db)
  unfolding process_due_actions
  process_due_actions-Advances clock later db spaced distinct ready' =
      work-Advances engine policy (clock 0) _ lease_seconds later allowed steady spaced
        (after_reads clock 1)
        (due_actions engine policy limit (clock 0) (clock 0 - lease_seconds) db) _ db distinct
        ready' (due_actions-IsBatch (clock 0) (clock 0 - lease_seconds) db distinct)

  -- One round, in its session.
  run_once-Advances :
      (clock : Clock) (later : ℕ) (db : Database)
      → clock 0 + policy.retry_delay_seconds ≤ later
      → Distinct (same_id key) db.actions
      → IsReady lease_seconds later db
      → Advances policy lease_seconds later
          (min limit (count (is_due (clock 0) (clock 0 - lease_seconds)) db.actions))
          db
          (run_once engine policy limit lease_seconds clock none db)
  unfolding run_once
  run_once-Advances clock later db spaced distinct ready' =
      subst
        (λ n.
          Advances policy lease_seconds later n db
            (run_once engine policy limit lease_seconds clock none db))
        (length-due_actions (clock 0) (clock 0 - lease_seconds) db)
        (scoped-Advances policy lease_seconds later _ db
          (process_due_actions engine policy limit lease_seconds clock none db)
          (process_due_actions-Advances clock later db spaced distinct ready'))

-- The database after rounds that begin when their clocks are first read.
abbrev pub rounds : Engine → Policy → ℕ → ℕ → List Clock → Database → Database
rounds engine policy limit lease_seconds [] db = db
rounds engine policy limit lease_seconds (clock ∷ later) db =
    rounds engine policy limit lease_seconds later
      (run_once engine policy limit lease_seconds clock none db).1

-- The first round is not before a time, and each other one not before the delay of a retry is over.
abbrev pub Spaced : Policy → ℕ → List Clock → Type 0
Spaced policy start [] = Unit
Spaced policy start (clock ∷ later) =
    (start ≤ clock 0) × Spaced policy (clock 0 + policy.retry_delay_seconds) later

abbrev pub waiting_count : Database → ℕ
waiting_count db = count (λ a. is_waiting a.state) db.actions

ready_later :
    (lease_seconds now later : ℕ) (a : Action)
    → now ≤ later
    → due_if_waiting lease_seconds now a ≡ true
    → due_if_waiting lease_seconds later a ≡ true
unfolding is_due
ready_later lease_seconds now later a h r = ground arith

idle_rows :
    (policy : Policy) (lease_seconds now : ℕ) (rows : List Action)
    → All (λ a. due_if_waiting lease_seconds now a ≡ true) rows
    → count (is_due now (now - lease_seconds)) rows ≡ 0
    → sum_of (need policy) rows ≡ 0
idle_rows policy lease_seconds now [] all e = refl
idle_rows policy lease_seconds now (a ∷ rows) (r, all) e =
    ground (arith, idle_rows policy lease_seconds now rows all)

none_waits :
    (policy : Policy) (rows : List Action)
    → sum_of (need policy) rows ≡ 0
    → count (λ a. is_waiting a.state) rows ≡ 0
none_waits policy [] e = refl
none_waits policy (a ∷ rows) e = ground (arith, none_waits policy rows)

need_bound :
    (policy : Policy) (rows : List Action)
    → sum_of (need policy) rows ≤ count (λ a. is_waiting a.state) rows * (policy.max_attempts + 1)
need_bound policy [] = omega arith
need_bound policy (a ∷ rows) = elim (Bool-cases (is_waiting a.state)) [
  | inl e ↦ rw e (grind (arith, need_bound policy rows))
  | inr e ↦ rw e (omega (arith, need_bound policy rows))
]

module _ (engine : Engine) (policy : Policy) (limit lease_seconds : ℕ) (laws : IsEngine engine)
    (allowed : 0 < policy.max_attempts) (steady : NeverCrashes policy) (some_room : 0 < limit) where
  after_round :
      (later n : ℕ) (db : Database) (out : Result Summary × Database)
      → Advances policy lease_seconds later n db out
      → (attempts_left policy out.1 + n ≤ attempts_left policy db)
        × Distinct (same_id key) out.1.actions
        × IsReady lease_seconds later out.1
  after_round later n db (ok t, d) h = h
  after_round later n db (raised e, d) h = absurd h

  rounds_drain :
      (clocks : List Clock) (start : ℕ) (db : Database)
      → Spaced policy start clocks
      → Distinct (same_id key) db.actions
      → IsReady lease_seconds start db
      → attempts_left policy db ≤ length clocks
      → waiting_count (rounds engine policy limit lease_seconds clocks db) ≡ 0
  rounds_drain [] start db spaced distinct ready' enough =
      none_waits policy db.actions (omega arith)
  rounds_drain (clock ∷ clocks) start db (on_time, spaced) distinct ready' enough =
      let now = clock 0 in
      let later = now + policy.retry_delay_seconds in
      let out = run_once engine policy limit lease_seconds clock none db in
      let ready_now =
        All-imp _ _ db.actions (λ a. ready_later lease_seconds start now a on_time) ready' in
      let ready_then =
        All-imp _ _ db.actions (λ a. ready_later lease_seconds now later a (omega arith))
          ready_now in
      let (fewer, distinct', ready'') = after_round later _ db out (
        run_once-Advances engine policy limit lease_seconds laws allowed steady clock later db
          (omega arith) distinct ready_then) in
      let due = count (is_due now (now - lease_seconds)) db.actions in
      rounds_drain clocks later out.1 spaced distinct' ready'' (elim (Bool-cases (ltb 0 due)) [
        | inl some_due ↦ let pos : 0 < due = ground arith in omega arith
        | inr none_due ↦
            let zero_due : due ≡ 0 = ground arith in
            let idle = idle_rows policy lease_seconds now db.actions ready_now zero_due in
            omega arith
      ])

  -- With an SQL engine that sorts, a policy that allows an attempt, a transport that never crashes
  -- and a batch of at least one: let every waiting action be due at some time, and no two actions
  -- share a key. Then rounds of `run_once` from that time on, each not before the retry delay after
  -- the one before it, leave no action waiting, if there are as many rounds as waiting actions times
  -- the allowed attempts and one.
  pub run_once_drains :
      (clocks : List Clock) (start : ℕ) (db : Database)
      → Spaced policy start clocks
      → Distinct (same_id key) db.actions
      → IsReady lease_seconds start db
      → waiting_count db * (policy.max_attempts + 1) ≤ length clocks
      → waiting_count (rounds engine policy limit lease_seconds clocks db) ≡ 0
  run_once_drains clocks start db spaced distinct ready' enough =
      rounds_drain clocks start db spaced distinct ready'
        (omega (arith, need_bound policy db.actions))
