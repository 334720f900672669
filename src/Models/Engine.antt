-- ===== src/Models/Engine.antt =====
-- What the code relies on of the SQL engine and of the run it stands in: fresh primary keys, ORDER
-- BY, the clock and `uuid4`. They are parameters; the laws are the documented behaviour.
use mathlib.Core.List.{Perm, Pairwise}
use support_operations_intel.Prelude.{
  leb, none, some, false, Option, ◌+◌, ℕ, ◌<◌, Bool, true, List, String, ◌≡◌, ◌⊎◌, All, ◌≢◌,
}

pub record Engine : Type 1 where
  -- The primary key that an insert gets, from the keys of the table.
  pub next_id : List ℕ → ℕ
  -- ORDER BY, with a condition that says when a row may stand before another.
  pub order_by : (A : Type 0) → (A → A → Bool) → List A → List A
  -- The texts that `uuid4().hex` gives.
  pub uuid : ℕ → String
  -- The RELEASE of a savepoint that no BEGIN precedes commits what was written under it: so with the
  -- sqlite3 driver of Python, which begins a transaction at the first INSERT or UPDATE, and not with
  -- PostgreSQL.
  pub savepoint_commits : Bool
  -- `column.contains(text)`, which is LIKE: SQLite takes no heed of the case of ASCII letters there,
  -- and PostgreSQL does. The text comes first.
  pub like_contains : String → String → Bool

-- The readings of `datetime.now(UTC)` in one call, in program order.
abbrev pub Clock : Type 0
Clock = ℕ → ℕ

-- The clock after some readings.
abbrev pub after_reads : Clock → ℕ → Clock
after_reads clock k = λ n. clock (n + k)

-- `now or datetime.now(UTC)`
abbrev pub or_now : Option ℕ → ℕ → ℕ
or_now none reading = reading
or_now (some now) reading = now

-- `column IS NULL OR column <= limit`, and `column <= limit`, which no NULL meets.
abbrev pub null_or_le : Option ℕ → ℕ → Bool
null_or_le none limit = true
null_or_le (some t) limit = leb t limit

abbrev pub some_le : Option ℕ → ℕ → Bool
some_le none limit = false
some_le (some t) limit = leb t limit

pub record IsEngine (engine : Engine) : Type 1 where
  -- No row of the table has the new key, and it is no zero, which Python would take for false.
  pub next_id-new : (ids : List ℕ) → All (λ i. i ≢ engine.next_id ids) ids
  pub next_id-pos : (ids : List ℕ) → 0 < engine.next_id ids
  -- The same rows come back.
  pub order_by-perm :
      (A : Type 0) (le : A → A → Bool) (rows : List A) → Perm (engine.order_by A le rows) rows
  -- By a condition that compares all rows and is transitive they come back sorted.
  pub order_by-sorted :
      (A : Type 0) (le : A → A → Bool) (rows : List A)
      → ((a b : A) → (le a b ≡ true) ⊎ (le b a ≡ true))
      → ((a b c : A) → le a b ≡ true → le b c ≡ true → le a c ≡ true)
      → Pairwise (λ a b. le a b ≡ true) (engine.order_by A le rows)
