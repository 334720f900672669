-- ===== src/Workload/Sizes.antt =====
-- benchmarks/generate_workloads.py: the random workloads. A dict with the keys of a SharedEvent is
-- one, with its time in seconds since the start; the random generator and `json.dumps` are
-- arguments, and the text of the path in the answer is left out.
pub mod Mix
use support_operations_intel.Prelude.{
  [], ◌∷◌, ◌%◌, ◌*◌, ◌+◌, f_string, if◌then◌else◌, List, leb, ltb, map, str, String, suc, zero, ℕ,
}
use support_operations_intel.Workload.{padded, SharedEvent}
use support_operations_intel.Workload.Files.{dumped, text_of}

-- The draw of that number: `rng.randint(low, high)`.
abbrev pub Rng : Type 0
Rng = ℕ → ℕ → ℕ → ℕ

abbrev pub categories : List String
categories = "offline" ∷ "battery_low" ∷ "latency" ∷ "temperature" ∷ "sync_delay" ∷ []

abbrev pub sources : List String
sources = "north-gateway" ∷ "warehouse" ∷ "edge-agent" ∷ "lab-rig" ∷ "support-simulator" ∷ []

abbrev pub executor_modes : List String
executor_modes = "success" ∷ "success" ∷ "success" ∷ "transient_failure" ∷ "permanent_failure" ∷ []

-- `texts[n]`; every index that the code takes is in range.
abbrev pub item : List String → ℕ → String
item [] n = ""
item (text ∷ texts) zero = text
item (text ∷ texts) (suc n) = item texts n

-- The severity by the roll, with the draw of that number.
unfoldable pub draw_severity : Rng → ℕ → ℕ → ℕ
draw_severity rng draw severity_roll =
    if leb severity_roll 1
    then rng draw 10 45
    else if leb severity_roll 4
    then rng draw 50 79
    else rng draw 80 99

-- `build_event`, whose four draws start at `draw`
unfoldable pub build_event : Rng → ℕ → ℕ → SharedEvent
unfolding draw_severity
build_event rng draw index =
    let category = item categories ((index + rng (draw + 1) 0 3) % 5) in
    record {
      asset_id = f_string ("ASSET-" ∷ padded 4 (rng (draw + 2) 1 120) ∷ []);
      source = item sources (index % 5);
      category = category;
      severity = draw_severity rng draw (index % 10);
      occurred_at = index * 17;
      message = f_string ("Synthetic " ∷ category ∷ " event #" ∷ str index ∷ []);
      executor_mode = item executor_modes ((index + rng (draw + 3) 0 4) % 5);
    }

pub record Counts : Type 0 where
  pub normal : ℕ
  pub warning : ℕ
  pub critical : ℕ

-- The counters after one event.
abbrev pub count_event : SharedEvent → Counts → Counts
count_event event c =
    if ltb event.severity 50
    then record c { normal = c.normal + 1 }
    else if ltb event.severity 80
    then record c { warning = c.warning + 1 }
    else record c { critical = c.critical + 1 }

-- The loop over `range(size)`, from `index` on: the events it writes, and its counters.
unfoldable pub built_from : Rng → ℕ → ℕ → List SharedEvent
built_from rng zero index = []
built_from rng (suc left) index =
    build_event rng (4 * index) index ∷ built_from rng left (suc index)

unfoldable pub counted_from : Rng → ℕ → ℕ → Counts → Counts
unfolding build_event
counted_from rng zero index c = c
counted_from rng (suc left) index c =
    counted_from rng left (suc index) (count_event (build_event rng (4 * index) index) c)

-- `write_workload`: the text of the file, and the counters of the answer
unfoldable pub write_workload : (SharedEvent → String) → Rng → ℕ → String × Counts
unfolding built_from counted_from
write_workload dumps rng size = (
  text_of (map (dumped dumps) (built_from rng size 0)),
  counted_from rng size 0 (record { normal = 0; warning = 0; critical = 0 }),
)
