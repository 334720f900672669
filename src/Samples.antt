-- ===== src/Samples.antt =====
-- An SQL engine in memory, which meets the laws that the theorems ask of the real one, and sample
-- rows for the tests.

use support_operations_intel.Prelude.{
  lower_text, contains, true, ℕ, ◌+◌, ◌≤◌, List, [], ◌∷◌, arith, All, All-imp,
}
use support_operations_intel.Models.Engine.{Engine, IsEngine, Clock}
use support_operations_intel.Prelude.Sort.{sort, sort-perm, sort-IsSorted}
use Prim.Native.Nat.{max}

abbrev pub max_id : List ℕ → ℕ
max_id [] = 0
max_id (i ∷ ids) = max i (max_id ids)

le_max_id : (ids : List ℕ) → All (λ i. i ≤ max_id ids) ids
le_max_id [] = tt
le_max_id (i ∷ ids) = (omega arith, All-imp _ _ ids (λ j h. omega arith) (le_max_id ids))

-- Keys count up from one, and ORDER BY is an insertion sort.
abbrev pub sqlite : Engine
sqlite = record {
  next_id = λ ids. max_id ids + 1;
  order_by = λ A le rows. sort le rows;
  uuid = λ n. "0f3c55a8d2e14b7c9a6e0d1f2b3c4d5e";
  savepoint_commits = true;
  like_contains = λ needle text. contains (lower_text needle) (lower_text text);
}

pub sqlite-IsEngine : IsEngine sqlite
sqlite-IsEngine = record {
  next_id-new = λ ids. All-imp _ _ ids (λ i h. omega arith) (le_max_id ids);
  next_id-pos = λ ids. omega arith;
  order_by-perm = λ A le rows. sort-perm le rows;
  order_by-sorted = λ A le rows total trans. sort-IsSorted le total trans rows;
}

-- A clock that stands still, and one that moves a microsecond with each reading.
abbrev pub clock_at : ℕ → Clock
clock_at now = λ n. now + n
