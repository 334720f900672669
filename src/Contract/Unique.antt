-- ===== src/Contract/Unique.antt =====
-- The external ids of the assets that `seed_assets_from_events` of contract.py stores.
use mathlib.Core.List.Perm
use support_operations_intel.Prelude.{
  [], ◌∷◌, All, All-of_mem, ◌⊎◌, any, arith, Bool, Bool-cases, Distinct, Distinct-perm, eq_iff,
  false, inl, inr, List, map, Option-cases, refl, str_eq, String, sym, text_le, true, ◌∙◌, ◌≡◌,
}
use support_operations_intel.Prelude.Sort.{sort, sort-perm}
use support_operations_intel.Integrity.{same_external_id}
use support_operations_intel.Models.Database.{Database}
use support_operations_intel.Models.Engine.{Engine}
use support_operations_intel.Contract.{
  add_new_assets, asset_ids_of, distinct, holds_text, Rows, seed_assets_from_events,
}
use support_operations_intel.Contract.Seeding.{has_external, holds_text-map, turn}

abbrev pub same_text : String → String → Bool
same_text a b = str_eq b a

pub str_eq_comm : (s t : String) → str_eq s t ≡ str_eq t s
str_eq_comm s t = elim (Bool-cases (str_eq s t)) [
  | inl e ↦ rw (← (eq_iff s t).0 e) refl
  | inr e ↦ elim (Bool-cases (str_eq t s)) [
    | inl e' ↦ rw (← (eq_iff t s).0 e') refl
    | inr e' ↦ e ∙ sym e'
  ]
]

pub distinct-Distinct : (texts : List String) → Distinct same_text (distinct texts)
unfolding distinct
distinct-Distinct [] = tt
distinct-Distinct (s ∷ texts) = elim (Bool-cases (holds_text s (distinct texts))) [
  | inl twice ↦ rw twice (distinct-Distinct texts)
  | inr once ↦ rw once (once, distinct-Distinct texts)
]

module _ (engine : Engine) (existing : List String) where
  -- An id that is not among the stored ones from before has no asset yet.
  abbrev IsFresh : Database → String → Type 0
  IsFresh db id = (holds_text id existing ≡ true) ⊎ (has_external id db.assets ≡ false)

  turn-IsFresh :
      (id : String) (ids : List String) (db : Database)
      → any (same_text id) ids ≡ false
      → All (IsFresh db) ids
      → All (IsFresh (turn engine existing id db)) ids
  turn-IsFresh id [] db once all = tt
  turn-IsFresh id (x ∷ ids) db once (fresh, all) =
      let other : str_eq id x ≡ false = str_eq_comm id x ∙ ground arith in
      (
        elim fresh [ inl stored ↦ inl stored | inr none_yet ↦ inr (ground arith) ],
        turn-IsFresh id ids db (ground arith) all,
      )

  turn-Distinct :
      (id : String) (db : Database)
      → IsFresh db id
      → Distinct same_external_id db.assets
      → Distinct same_external_id (turn engine existing id db).assets
  turn-Distinct id db fresh d = elim (Bool-cases (holds_text id existing)) [
    | inl stored ↦ rw stored d
    | inr missing ↦ rw missing (elim fresh [ inl stored ↦ cc | inr none_yet ↦ none_yet ], d)
  ]

  add_new_assets-Distinct :
      (ids : List String) (db : Database)
      → Distinct same_text ids
      → All (IsFresh db) ids
      → Distinct same_external_id db.assets
      → Distinct same_external_id (add_new_assets engine existing ids db).assets
  unfolding add_new_assets
  add_new_assets-Distinct [] db once fresh d = d
  add_new_assets-Distinct (id ∷ ids) db (first, once) (this, fresh) d =
      add_new_assets-Distinct ids (turn engine existing id db) once
        (turn-IsFresh id ids db first fresh) (turn-Distinct id db this d)

-- Where no two stored assets have the same external id, none do after `seed_assets_from_events`,
-- whatever ids the events have and however often, and whether it returns or raises.
pub seed_assets_from_events-Distinct :
    {Row : Type 0} (rows : Rows Row) (engine : Engine) (events : List Row) (db : Database)
    → Distinct same_external_id db.assets
    → Distinct same_external_id (seed_assets_from_events rows engine events db).1.assets
unfolding seed_assets_from_events
seed_assets_from_events-Distinct rows engine events db d =
    elim (Option-cases (asset_ids_of rows events)) [
      | inl e ↦ rw e d
      | inr (ids, e) ↦
          let existing = map (λ a. a.external_id) db.assets in
          let fresh = λ (id : String).
            elim (Bool-cases (holds_text id existing)) as (λ _. IsFresh engine existing db id) [
              | inl stored ↦ inl stored
              | inr missing ↦ inr (sym (holds_text-map db.assets id) ∙ missing)
            ] in
          rw e (
            add_new_assets-Distinct engine existing (sort text_le (distinct ids)) db
              (Distinct-perm same_text (λ a b. str_eq_comm b a)
                (Perm.symm (sort-perm text_le (distinct ids))) (distinct-Distinct ids))
              (All-of_mem _ (sort text_le (distinct ids)) (λ id m. fresh id)) d)
    ]
