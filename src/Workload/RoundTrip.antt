-- ===== src/Workload/RoundTrip.antt =====
-- A workload that is written to a file is read back from it.
use Prim.Native.Char.{code}
use Prim.Native.String.{◌++◌ as text_append}
use support_operations_intel.Prelude.{
  ◌∙◌, inr, leb, inl, Bool-cases, if◌then◌else◌, ap, ◌∷◌, [], ◌&&◌, Bool, true, not, List, Option,
  none, some, String, ℕ, map, take, All, ◌≡◌, refl, arith, ◌+◌, ◌-◌, select, zero, suc,
}
use text.Mathlib.TextLemmas.{cons-append, nil-append}
use Prim.Native.Char.{Char}
use support_operations_intel.Workload.{SharedEvent}
use support_operations_intel.Workload.Files.{
  is_enough, dumped, has_text, is_newline, lines, load_rows, load_workload, read_from, read_jsonl,
  write_jsonl,
}

abbrev pub is_one_line : String → Bool
is_one_line String.[] = true
is_one_line (String.◌∷◌ c s) = let rest = is_one_line s in not (is_newline (code c)) && rest

-- The line of an event has no line end but the last and is not blank, and gives its row.
pub record Travels {Row : Type 0} (dumps : SharedEvent → String) (loads : String → Option Row)
    (row : SharedEvent → Row) (event : SharedEvent) : Type 0 where
  pub one_line : is_one_line (dumps event) ≡ true
  pub visible : has_text (dumps event) ≡ true
  pub loaded : loads (dumped dumps event) ≡ some (row event)

append_line :
    (c : Char) (s rest : String)
    → text_append (text_append (String.◌∷◌ c s) "\n") rest
      ≡ String.◌∷◌ c (text_append (text_append s "\n") rest)
append_line c s rest = rw (cons-append c s "\n") (cons-append c (text_append s "\n") rest)

-- The first rows, as many as `count` leaves where some are read.
abbrev pub within_count : {A : Type 0} → Option ℕ → ℕ → List A → List A
within_count none done xs = xs
within_count (some count) done xs = take (count - done) xs

lines-text_append :
    (s rest : String)
    → is_one_line s ≡ true
    → lines (text_append (text_append s "\n") rest) ≡ text_append s "\n" ∷ lines rest
lines-text_append String.[] rest h =
    rw (nil-append "\n", cons-append "\n" "" rest, nil-append rest) refl
lines-text_append (String.◌∷◌ c s) rest h = elim (Bool-cases (is_newline (code c))) [
  | inl e ↦ absurd (ground arith)
  | inr other ↦
      rw
        (append_line c s rest, other, lines-text_append s rest (ground arith), cons-append c s "\n")
        refl
]

has_text-dumped : (s : String) → has_text s ≡ true → has_text (text_append s "\n") ≡ true
has_text-dumped String.[] h = absurd (ground arith)
has_text-dumped (String.◌∷◌ c s) h = rw (cons-append c s "\n") (ground (arith, has_text-dumped s))

module _ {A : Type 0} where
  take-nil : (n : ℕ) → take {A = A} n [] ≡ []
  take-nil zero = refl
  take-nil (suc n) = refl

  within_count-nil : (count : Option ℕ) (done : ℕ) → within_count {A = A} count done [] ≡ []
  within_count-nil none done = refl
  within_count-nil (some count) done = take-nil (count - done)

  within_count-cons :
      (count : Option ℕ) (done : ℕ) (x : A) (xs : List A)
      → within_count count done (x ∷ xs)
        ≡ (if is_enough count done then [] else x ∷ within_count count (done + 1) xs)
  within_count-cons none done x xs = refl
  within_count-cons (some count) done x xs = elim (Bool-cases (leb count done)) [
    | inl e ↦ let none_left : count - done ≡ 0 = ground arith in rw (e, none_left) refl
    | inr e ↦
        let some_left : count - done ≡ suc (count - (done + 1)) = ground arith in
        rw (e, some_left) refl
  ]

module _ {Row : Type 0} (dumps : SharedEvent → String) (loads : String → Option Row)
    (row : SharedEvent → Row) where
  lines-write_jsonl :
      (events : List SharedEvent)
      → All (Travels dumps loads row) events
      → lines (write_jsonl dumps events) ≡ map (dumped dumps) events
  unfolding write_jsonl
  lines-write_jsonl [] all = refl
  lines-write_jsonl (e ∷ events) (this, rest) =
      rw (lines-text_append (dumps e) (write_jsonl dumps events) this.one_line)
        (ap (◌∷◌ (dumped dumps e)) (lines-write_jsonl events rest))

  load_rows-dumped :
      (events : List SharedEvent)
      → All (Travels dumps loads row) events
      → load_rows loads (select has_text (map (dumped dumps) events)) ≡ some (map row events)
  unfolding load_rows
  load_rows-dumped [] all = refl
  load_rows-dumped (e ∷ events) (this, rest) =
      rw (has_text-dumped (dumps e) this.visible, this.loaded, load_rows-dumped events rest) refl

  read_from-dumped :
      (count : Option ℕ) (done : ℕ) (events : List SharedEvent)
      → All (Travels dumps loads row) events
      → read_from loads count done (map (dumped dumps) events)
        ≡ some (map row (within_count count done events))
  unfolding read_from
  read_from-dumped count done [] all = rw (within_count-nil {A = SharedEvent} count done) refl
  read_from-dumped count done (event ∷ events) (this, rest) =
      elim (Bool-cases (is_enough count done)) [
        | inl e ↦ rw (within_count-cons count done event events, e) refl
        | inr open_ ↦
            rw
              (
                within_count-cons count done event events,
                open_,
                this.loaded,
                read_from-dumped count (done + 1) events rest,
              )
              refl
      ]

  -- Where `json.dumps` puts each event on one line that is not blank, and the row comes back from
  -- its line: `read_jsonl` gives the first `count` rows of the file that `write_jsonl` writes, or
  -- all without a count, and `load_workload` gives all rows, in their order.
  pub write_jsonl-read_jsonl :
      (count : Option ℕ) (events : List SharedEvent)
      → All (Travels dumps loads row) events
      → (read_jsonl loads count (write_jsonl dumps events)
          ≡ some (map row (elim count [ none ↦ events | some n ↦ take n events ])))
        × (load_workload loads (write_jsonl dumps events) ≡ some (map row events))
  write_jsonl-read_jsonl count events all = (
    rw (lines-write_jsonl events all) (first_rows count),
    rw (lines-write_jsonl events all) (load_rows-dumped events all),
  )
    where
      first_rows :
          (count : Option ℕ)
          → read_from loads count 0 (map (dumped dumps) events)
            ≡ some (map row (elim count [ none ↦ events | some n ↦ take n events ]))
      first_rows none = read_from-dumped none 0 events all
      first_rows (some n) =
          let whole : n - 0 ≡ n = omega arith in
          read_from-dumped (some n) 0 events all ∙ rw whole refl
