-- ===== src/Contract/Seeding.antt =====
-- What `seed_assets_from_events` of contract.py stores.
use mathlib.Core.Bool.{Bool-set}
use mathlib.Core.List.Perm
use mathlib.Core.List.{◌++◌}
use support_operations_intel.Prelude.{
  if◌then◌else◌, [], ◌∷◌, All, All-perm, any, arith, Bool-cases, eq_iff, eq_refl, inl, inr, List,
  map, none, Option, Option-cases, refl, some, str_eq, String, text_le, true, ◌∙◌, ◌≡◌, Bool, ap,
  sym,
}
use support_operations_intel.Prelude.Sort.{sort, sort-perm}
use support_operations_intel.Models.Database.{Database, key_error, ok, raised, Result}
use support_operations_intel.Models.Engine.{Engine}
use support_operations_intel.Models.Tables.{Asset}
use support_operations_intel.Contract.{
  add_new_assets, asset_ids_of, contract_asset, distinct, holds_text, Rows, seed_assets_from_events,
}

-- An asset of that external id is stored.
abbrev pub has_external : String → List Asset → Bool
has_external id assets = any (λ a. str_eq a.external_id id) assets

-- The assets that were there, below new ones of the contract's group.
abbrev pub AddsContract : List Asset → List Asset → Type 0
AddsContract old assets =
    (new : List Asset) × (assets ≡ new ++ old) × All (λ a. str_eq a.group "contract" ≡ true) new

module _ (engine : Engine) (existing : List String) where
  -- One turn of the loop.
  abbrev pub turn : String → Database → Database
  turn id db =
      if holds_text id existing
      then db
      else record db { assets = contract_asset engine id db ∷ db.assets }

  turn-keeps :
      (id x : String) (db : Database)
      → has_external x db.assets ≡ true
      → has_external x (turn id db).assets ≡ true
  turn-keeps id x db h = ground arith

  add_new_assets-keeps :
      (ids : List String) (x : String) (db : Database)
      → has_external x db.assets ≡ true
      → has_external x (add_new_assets engine existing ids db).assets ≡ true
  unfolding add_new_assets
  add_new_assets-keeps [] x db h = h
  add_new_assets-keeps (id ∷ ids) x db h =
      add_new_assets-keeps ids x (turn id db) (turn-keeps id x db h)

  turn-has :
      (id : String) (db : Database)
      → (holds_text id existing ≡ true → has_external id db.assets ≡ true)
      → has_external id (turn id db).assets ≡ true
  turn-has id db stored = elim (Bool-cases (holds_text id existing)) [
    | inl there ↦ rw there (stored there)
    | inr missing ↦ rw missing (ground (arith, eq_refl id))
  ]

  add_new_assets-has :
      (ids : List String) (db : Database)
      → ((x : String) → holds_text x existing ≡ true → has_external x db.assets ≡ true)
      → All (λ x. has_external x (add_new_assets engine existing ids db).assets ≡ true) ids
  unfolding add_new_assets
  add_new_assets-has [] db stored = tt
  add_new_assets-has (id ∷ ids) db stored = (
    add_new_assets-keeps ids id (turn id db) (turn-has id db (stored id)),
    add_new_assets-has ids (turn id db) (λ x h. turn-keeps id x db (stored x h)),
  )

  add_new_assets-AddsContract :
      (ids : List String) (old : List Asset) (db : Database)
      → AddsContract old db.assets
      → AddsContract old (add_new_assets engine existing ids db).assets
  unfolding add_new_assets
  add_new_assets-AddsContract [] old db h = h
  add_new_assets-AddsContract (id ∷ ids) old db (new, e, all) =
      add_new_assets-AddsContract ids old (turn id db) (elim (Bool-cases (holds_text id existing)) [
        | inl there ↦ rw there (new, e, all)
        | inr missing ↦ rw missing (
          contract_asset engine id db ∷ new,
          ap (λ rows. contract_asset engine id db ∷ rows) e,
          (refl, all),
        )
      ])

-- What holds of the elements of a set holds of the texts that it is made from.
All_holds :
    (P : String → Type 0) (texts : List String) (s : String)
    → All P texts
    → holds_text s texts ≡ true
    → P s
All_holds P [] s all h = absurd (ground arith)
All_holds P (t ∷ texts) s (this, all) h = elim (Bool-cases (str_eq t s)) [
  | inl same ↦ rw (← (eq_iff t s).0 same) this
  | inr other ↦ All_holds P texts s all (ground arith)
]

pub All-distinct :
    (P : String → Type 0) (texts : List String) → All P (distinct texts) → All P texts
unfolding distinct
All-distinct P [] all = tt
All-distinct P (s ∷ texts) all = elim (Bool-cases (holds_text s (distinct texts))) [
  | inl twice ↦
      let rest : All P (distinct texts) = rw twice at all in
      (All_holds P (distinct texts) s rest twice, All-distinct P texts rest)
  | inr once ↦
      let whole : All P (s ∷ distinct texts) = rw once at all in
      (whole.0, All-distinct P texts whole.1)
]

pub holds_text-map :
    (assets : List Asset) (x : String)
    → holds_text x (map (λ a. a.external_id) assets) ≡ has_external x assets
holds_text-map [] x = refl
holds_text-map (a ∷ assets) x = ground (arith, holds_text-map assets x)

-- What a call leaves, by the ids that the events have: none where one has no id.
abbrev pub Seeded : Database → Option (List String) → Result (Unit {0}) × Database → Type 0
Seeded db none out = out ≡ (raised key_error, db)
Seeded db (some ids) out =
    (out.0 ≡ ok tt)
    × All (λ id. has_external id out.1.assets ≡ true) ids
    × AddsContract db.assets out.1.assets

-- Where every event has an asset id, `seed_assets_from_events` returns, the asset of each event is
-- stored after it, and the assets that were there are kept below new ones of the contract's group;
-- where an event has none it raises, and changes nothing.
pub seed_assets_from_events-Seeded :
    {Row : Type 0} (rows : Rows Row) (engine : Engine) (events : List Row) (db : Database)
    → Seeded db (asset_ids_of rows events) (seed_assets_from_events rows engine events db)
unfolding seed_assets_from_events
seed_assets_from_events-Seeded rows engine events db =
    elim (Option-cases (asset_ids_of rows events)) [
      | inl e ↦ rw e refl
      | inr (ids, e) ↦
          let existing = map (λ a. a.external_id) db.assets in
          let sorted = sort text_le (distinct ids) in
          let after = (add_new_assets engine existing sorted db).assets in
          let there =
            add_new_assets-has engine existing sorted db
              (λ x h. sym (holds_text-map db.assets x) ∙ h) in
          rw e (
            refl,
            All-distinct (λ id. has_external id after ≡ true) ids
                (All-perm _ (λ id. Bool-set _ _) (Perm.symm (sort-perm text_le (distinct ids)))
                  there),
            add_new_assets-AddsContract engine existing sorted db.assets db ([], refl, tt),
          )
    ]
