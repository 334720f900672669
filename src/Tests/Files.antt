-- ===== src/Tests/Files.antt =====
-- A workload of two events in a file, and the schema of a fresh database and of an old one.
use support_operations_intel.Prelude.{
  ◌≤◌, map, ◌+◌, [], ◌∷◌, All, arith, none, some, refl, ◌≡◌, str_eq, if◌then◌else◌, f_string,
  Option, List, String,
}
use support_operations_intel.Workload.{SharedEvent}
use support_operations_intel.Workload.Sizes.{built_from, Rng, write_workload}
use support_operations_intel.Workload.Sizes.Mix.{mix, write_workload-mix}
use support_operations_intel.Workload.Files.{
  text_of, dumped, load_workload, read_jsonl, write_jsonl,
}
use support_operations_intel.Workload.RoundTrip.{Travels, write_jsonl-read_jsonl}
use support_operations_intel.Migrations.{Schema}
use support_operations_intel.Connections.{models, columns_of}
use support_operations_intel.Connections.Tables.{Prepared, Prepared}

abbrev critical : SharedEvent
critical = record {
  asset_id = "SYN-7-000000-critical";
  source = "synthetic-source-7";
  category = "offline";
  severity = 92;
  occurred_at = 0;
  message = "critical synthetic event 0";
  executor_mode = "success";
}

abbrev duplicate : SharedEvent
duplicate = record critical { severity = 91; message = "cooldown duplicate synthetic event 1" }

dumps : SharedEvent → String
unfolding f_string
dumps event = f_string ("{\"message\":\"" ∷ event.message ∷ "\"}" ∷ [])

loads : String → Option SharedEvent
unfolding dumps
loads line =
    if str_eq line (dumped dumps critical)
    then some critical
    else if str_eq line (dumped dumps duplicate)
    then some duplicate
    else none

travel : All (Travels dumps loads (λ e. e)) (critical ∷ duplicate ∷ [])
unfolding dumps loads
travel = (
  record { one_line = refl; visible = refl; loaded = refl },
  (record { one_line = refl; visible = refl; loaded = refl }, tt),
)

write_jsonl-read_jsonl_example :
    (read_jsonl loads (some 1) (write_jsonl dumps (critical ∷ duplicate ∷ []))
      ≡ some (critical ∷ []))
    × (load_workload loads (write_jsonl dumps (critical ∷ duplicate ∷ []))
        ≡ some (critical ∷ duplicate ∷ []))
write_jsonl-read_jsonl_example =
    write_jsonl-read_jsonl dumps loads (λ e. e) (some 1) (critical ∷ duplicate ∷ []) travel

-- The tables that are missing are created.
abbrev or_created : Option (List String) → Option (List String) → Option (List String)
or_created none created = created
or_created (some columns) created = some columns

abbrev create_all : Schema → Schema
create_all schema = record schema {
  tables = λ table. or_created (schema.tables table) (columns_of models table);
}

-- A database that was just made.
abbrev fresh : Schema
fresh = record { tables = λ table. none; version = none }

-- A generator that always draws the least number.
abbrev least : Rng
least = λ draw low high. low

write_workload-mix_example :
    let counts = (write_workload dumps least 25).1 in
    let events = built_from least 25 0 in
    (counts ≡ mix 25)
    × (counts.normal + counts.warning + counts.critical ≡ 25)
    × ((write_workload dumps least 25).0 ≡ text_of (map (dumped dumps) events))
    × All (λ e. (10 ≤ e.severity) × (e.severity ≤ 99)) events
write_workload-mix_example = write_workload-mix least (λ draw low high h. (omega arith, h)) dumps 25
