-- ===== src/Workload/Files.antt =====
-- benchmarks/workload.py and contract.py: workloads in files with a JSON object on each line. A file
-- is its text, after Python's translation of line ends; `json.dumps` and `json.loads` are arguments,
-- and none stands for the exception of a line that gives no row.
use Prim.Native.Char.{code}
use Prim.Native.String.{◌++◌ as text_append}
use support_operations_intel.Prelude.{
  ◌==◌, ◌∷◌, [], ◌||◌, ◌&&◌, ◌+◌, Bool, false, not, leb, if◌then◌else◌, List, Option, none, some,
  String, ℕ, select, map,
}
use support_operations_intel.Workload.{SharedEvent}

abbrev pub is_newline : ℕ → Bool
is_newline c = c == 10

-- The lines that iterating over an open file gives, each with its line end.
abbrev pub lines : String → List String
lines String.[] = []
lines (String.◌∷◌ c s) =
    let rest = lines s in
    if is_newline (code c)
    then String.◌∷◌ c "" ∷ rest
    else elim rest [ [] ↦ String.◌∷◌ c "" ∷ [] | line ∷ others ↦ String.◌∷◌ c line ∷ others ]

-- The text after the calls of `handle.write`.
abbrev pub text_of : List String → String
text_of [] = ""
text_of (s ∷ rest) = text_append s (text_of rest)

-- One line of the file.
abbrev pub dumped : (SharedEvent → String) → SharedEvent → String
dumped dumps event = text_append (dumps event) "\n"

-- `count is not None and len(events) >= count`
abbrev pub is_enough : Option ℕ → ℕ → Bool
is_enough none done = false
is_enough (some count) done = leb count done

-- `line.strip()` is not empty, for ASCII text.
abbrev pub is_space : ℕ → Bool
is_space c = c == 32 || leb 9 c && leb c 13 || leb 28 c && leb c 31

abbrev pub has_text : String → Bool
has_text String.[] = false
has_text (String.◌∷◌ c s) = let rest = has_text s in not (is_space (code c)) || rest

-- The rows so far and those of the lines that follow.
abbrev pub and_rows : {Row : Type 0} → Option Row → Option (List Row) → Option (List Row)
and_rows none rows = none
and_rows (some row) none = none
and_rows (some row) (some rows) = some (row ∷ rows)

module _ {Row : Type 0} (loads : String → Option Row) where
  -- The loop of `read_jsonl`, with the rows read so far counted.
  unfoldable pub read_from : Option ℕ → ℕ → List String → Option (List Row)
  read_from count done [] = some []
  read_from count done (line ∷ rest) =
      let more = read_from count (done + 1) rest in
      if is_enough count done then some [] else and_rows (loads line) more

  -- `read_jsonl`
  abbrev pub read_jsonl : Option ℕ → String → Option (List Row)
  read_jsonl count text = read_from count 0 (lines text)

  unfoldable pub load_rows : List String → Option (List Row)
  load_rows [] = some []
  load_rows (line ∷ rest) = and_rows (loads line) (load_rows rest)

  -- `load_workload` of contract.py
  abbrev pub load_workload : String → Option (List Row)
  load_workload text = load_rows (select has_text (lines text))

-- `write_jsonl`: the text of the file
unfoldable pub write_jsonl : (SharedEvent → String) → List SharedEvent → String
write_jsonl dumps events = text_of (map (dumped dumps) events)
