-- ===== src/Tests/Rows.antt =====
-- The assets of contract.py on a database that has one of them.
use support_operations_intel.Prelude.{[], ◌∷◌, Distinct, none, refl, some, String}
use support_operations_intel.Samples.{sqlite}
use support_operations_intel.Integrity.{same_external_id}
use support_operations_intel.Models.Database.{Database, empty_database}
use support_operations_intel.Seed.{demo_asset}
use support_operations_intel.Contract.{Rows, seed_assets_from_events}
use support_operations_intel.Contract.Unique.{seed_assets_from_events-Distinct}

abbrev texts : Rows String
texts = record { asset_id = λ row. some row; event_create = λ row. none }

abbrev one_asset : Database
one_asset = record empty_database {
  assets = demo_asset 1 "ASSET-0001" "North pump controller" "water-treatment" ∷ [];
}

seed_assets_from_events-Distinct_example :
    Distinct same_external_id
      (seed_assets_from_events texts sqlite
        ("ASSET-0002" ∷ "ASSET-0001" ∷ "ASSET-0002" ∷ [])
        one_asset).1.assets
seed_assets_from_events-Distinct_example =
    seed_assets_from_events-Distinct texts sqlite ("ASSET-0002" ∷ "ASSET-0001" ∷ "ASSET-0002" ∷ [])
      one_asset (refl, tt)
