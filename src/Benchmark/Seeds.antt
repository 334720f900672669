-- ===== src/Benchmark/Seeds.antt =====
-- What seed_python_database of benchmarks/run_python_vs_dotnet.py stores in an empty database.
use support_operations_intel.Prelude.Sort.{sort, sort-perm}
use mathlib.Core.Bool.{Bool-set}
use mathlib.Core.List.Perm
use support_operations_intel.Contract.{distinct}
use support_operations_intel.Benchmark.Book.{empty_book}
use support_operations_intel.Integrity.Events.{fresh_id}
use support_operations_intel.Benchmark.Books.{critical_rule, warning_rule, KeepsBook, Alike}
use support_operations_intel.Workload.{SharedEvent}
use support_operations_intel.Models.Database.{empty_database, ok, Result, Database}
use support_operations_intel.Seed.{add_rule}
use support_operations_intel.Benchmark.{sort, benchmark_asset, add_assets, seed_python_database}
use support_operations_intel.Prelude.{
  All-perm, Distinct-perm, text_le, ◌==◌, map, ◌∙◌, All_both, refl, arith, str_eq, true, eq_refl,
  ◌∷◌, ◌∷◌, false, Distinct, any, [], All, ◌≡◌, has_id, ℕ, String, List,
}
use support_operations_intel.Models.Tables.{Asset}
use support_operations_intel.Models.Engine.{IsEngine, Engine}
use support_operations_intel.Contract.Unique.{same_text, distinct-Distinct, str_eq_comm}
use support_operations_intel.Contract.Seeding.{All-distinct, has_external}

-- An asset with a new key and a new external id is like the others.
new-Alike :
    (a : Asset) (assets : List Asset)
    → has_id (λ b. b.id) a.id assets ≡ false
    → has_external a.external_id assets ≡ false
    → All (Alike a) assets × All (λ b. Alike b a) assets
new-Alike a [] id name = (tt, tt)
new-Alike a (b ∷ assets) id name =
    let rest = new-Alike a assets (ground arith) (ground arith) in
    let other : str_eq b.external_id a.external_id ≡ false = ground arith in
    let other' : str_eq a.external_id b.external_id ≡ false =
      str_eq_comm a.external_id b.external_id ∙ other in
    let apart : (b.id == a.id) ≡ false = ground arith in
    let apart' : (a.id == b.id) ≡ false = ground arith in
    ((rw (apart', other') refl, rest.0), (rw (apart, other) refl, rest.1))

cons-Alike :
    (a : Asset) (assets : List Asset)
    → has_id (λ b. b.id) a.id assets ≡ false
    → has_external a.external_id assets ≡ false
    → All (λ b. All (Alike b) assets) assets
    → All (λ b. All (Alike b) (a ∷ assets)) (a ∷ assets)
cons-Alike a assets id name alike =
    let (over, under) = new-Alike a assets id name in
    let self : Alike a a = rw (eq_refl a.external_id) (ground arith) in
    ((self, over), All_both _ _ assets under alike)

module _ (engine : Engine) (laws : IsEngine engine) where
  -- What the assets of a set of names are like.
  abbrev Adds : List String → Database → Result (Unit {0}) × Database → Type 0
  Adds ids db out =
      (assets : List Asset) × (out ≡ (ok tt, record db { assets = assets }))
      × All (λ a. All (Alike a) assets) assets
      × All (λ id. has_external id assets ≡ true) ids
      × ((x : String) → has_external x db.assets ≡ true → has_external x assets ≡ true)

  others_free :
      (id : String) (ids : List String) (assets : List Asset)
      → any (same_text id) ids ≡ false
      → All (λ x. has_external x assets ≡ false) ids
      → (row : Asset) → row.external_id ≡ id
      → All (λ x. has_external x (row ∷ assets) ≡ false) ids
  others_free id [] assets once free row named = tt
  others_free id (x ∷ ids) assets once (this, free) row named =
      let other : str_eq id x ≡ false = str_eq_comm id x ∙ ground arith in
      (rw (named, other) this, others_free id ids assets (ground arith) free row named)

  add_assets-Adds :
      (ids : List String) (db : Database)
      → Distinct same_text ids
      → All (λ x. has_external x db.assets ≡ false) ids
      → All (λ a. All (Alike a) db.assets) db.assets
      → Adds ids db (add_assets engine ids db)
  unfolding add_assets
  add_assets-Adds [] db once free alike = (db.assets, refl, alike, tt, λ x h. h)
  add_assets-Adds (id ∷ ids) db (first, once) (this, free) alike =
      let row = benchmark_asset engine id db in
      let next : Database = record db { assets = row ∷ db.assets } in
      let (assets, e, like, stored, kept) =
        add_assets-Adds ids next once (others_free id ids db.assets first free row refl)
          (cons-Alike row db.assets (fresh_id engine laws (λ a. a.id) db.assets) this alike) in
      (
        assets,
        rw this e,
        like,
        (kept id (rw (eq_refl id) refl), stored),
        λ x h. kept x (ground arith),
      )

  all_free : (ids : List String) → All (λ x. has_external x [] ≡ false) ids
  all_free [] = tt
  all_free (x ∷ ids) = (refl, all_free ids)

  All_each : {A : Type 0} → (P : A → Type 0) (xs : List A) → ((x : A) → P x) → All P xs
  All_each P [] h = tt
  All_each P (x ∷ xs) h = (h x, All_each P xs h)

  All-ids :
      (events : List SharedEvent) (P : String → Type 0)
      → All P (map (λ e. e.asset_id) events)
      → All (λ e. P e.asset_id) events
  All-ids [] P all = tt
  All-ids (e ∷ events) P (this, all) = (this, All-ids events P all)

  abbrev first_rule : ℕ
  first_rule = engine.next_id []

  -- The database that a run starts from keeps the empty book, and has the asset of each event.
  pub seed_python_database-KeepsBook :
      (events : List SharedEvent) (start : ℕ)
      → (db : Database) × (seed_python_database engine events empty_database ≡ (ok tt, db))
        × KeepsBook first_rule (engine.next_id (first_rule ∷ [])) start 0 empty_book db
        × All (λ e. has_external e.asset_id db.assets ≡ true) events
  unfolding seed_python_database add_rule
  seed_python_database-KeepsBook events start =
      let names = map (λ e. e.asset_id) events in
      let ids = sort text_le (distinct names) in
      let (assets, e, like, stored, kept) =
        add_assets-Adds ids empty_database
          (Distinct-perm same_text (λ a b. str_eq_comm b a)
            (Perm.symm (sort-perm text_le (distinct names))) (distinct-Distinct names))
          (all_free ids) tt in
      let all : All (λ id. has_external id assets ≡ true) names =
        All-distinct (λ id. has_external id assets ≡ true) names
          (All-perm _ (λ id. Bool-set _ _) (Perm.symm (sort-perm text_le (distinct names)))
            stored) in
      let rules = warning_rule (engine.next_id (first_rule ∷ [])) ∷ critical_rule first_rule ∷ [] in
      (
        record empty_database { assets = assets; automation_rules = rules },
        rw e refl,
        record {
          rules = refl;
          alike = like;
          hit = All_each _ assets (λ a. refl);
          live = tt;
          incidents = refl;
          events = refl;
          suppressions = refl;
          details = refl;
          waiting = tt;
          ids = tt;
        },
        All-ids events (λ id. has_external id assets ≡ true) all,
      )
