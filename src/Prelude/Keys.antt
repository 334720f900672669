-- ===== src/Prelude/Keys.antt =====
-- Columns that tell the rows of a table apart: primary keys, and unique constraints.

use mathlib.Core.Path.{fun_ext, ◌≡◌, refl, ap, ◌∙◌}
use Prim.Native.Nat.{ℕ}
use mathlib.Core.Logic.{◌≢◌, inl, inr}
use mathlib.Core.Bool.{Bool, true, false}
use mathlib.Core.Option.{none, some}
use mathlib.Core.List.{List, [], ◌∷◌, map}
use native.Mathlib.Omega.{arith}
use mathlib.Core.Option
use support_operations_intel.Prelude.Tests.{◌==◌, Bool-cases, if◌then◌else◌}
use support_operations_intel.Prelude.Lists.{any, update_where, find, All}

module _ {ℓ} {A : Type ℓ} where
  -- A row with the key is there.
  abbrev pub has_id : (A → ℕ) → ℕ → List A → Bool
  has_id id k xs = any (λ x. id x == k) xs

  -- No row is the same as a later one.
  abbrev pub Distinct : (A → A → Bool) → List A → Type 0
  Distinct same [] = Unit
  Distinct same (x ∷ xs) = (any (same x) xs ≡ false) × Distinct same xs

  abbrev pub same_id : (A → ℕ) → A → A → Bool
  same_id id x y = id y == id x

  pub any-update_where :
      (q p : A → Bool) (f : A → A) (xs : List A)
      → ((x : A) → p x ≡ true → q (f x) ≡ q x)
      → any q (update_where p f xs) ≡ any q xs
  any-update_where q p f [] same = refl
  any-update_where q p f (x ∷ xs) same = elim (Bool-cases (p x)) [
    | inl e ↦ rw (e, same x e, any-update_where q p f xs same) refl
    | inr e ↦ rw (e, any-update_where q p f xs same) refl
  ]

  pub Distinct-update_where :
      (same : A → A → Bool) (p : A → Bool) (f : A → A) (xs : List A)
      → ((x y : A) → p x ≡ true → same (f x) y ≡ same x y)
      → ((x y : A) → p y ≡ true → same x (f y) ≡ same x y)
      → Distinct same xs
      → Distinct same (update_where p f xs)
  Distinct-update_where same p f [] left right distinct = tt
  Distinct-update_where same p f (x ∷ xs) left right (new, distinct) =
      let rest = Distinct-update_where same p f xs left right distinct in
      elim (Bool-cases (p x)) [
        | inl e ↦ rw e (
          any-update_where (same (f x)) p f xs (λ y. right (f x) y)
              ∙ ap (λ (t : A → Bool). any t xs) (fun_ext λ y. left x y e)
              ∙ new,
          rest,
        )
        | inr e ↦ rw e (any-update_where (same x) p f xs (λ y. right x y) ∙ new, rest)
      ]

  -- A row that a query finds has its key in the table.
  pub has_id-find :
      (id : A → ℕ) (p : A → Bool) (xs : List A) (a : A)
      → find p xs ≡ some a
      → has_id id (id a) xs ≡ true
  has_id-find id p [] a e = cc
  has_id-find id p (x ∷ xs) a e = ground (arith, has_id-find id p xs a)

  -- A key that differs from all keys is in no row.
  pub has_id_fresh :
      (id : A → ℕ) (k : ℕ) (xs : List A) → All (λ i. i ≢ k) (map id xs) → has_id id k xs ≡ false
  has_id_fresh id k [] all = refl
  has_id_fresh id k (x ∷ xs) (ne, all) = ground (arith, has_id_fresh id k xs all)

  -- The first row of a key, where the keys are distinct: a new row in front hides none.
  pub find-cons_fresh :
      (id : A → ℕ) (k : ℕ) (x : A) (xs : List A)
      → has_id id (id x) xs ≡ false
      → has_id id k xs ≡ true
      → find (λ y. id y == k) (x ∷ xs) ≡ find (λ y. id y == k) xs
  find-cons_fresh id k x xs fresh old = elim (Bool-cases (id x == k)) [
    | inl e ↦
        let same : id x ≡ k = ground arith in
        let gone : has_id id k xs ≡ false = rw same at fresh in cc
    | inr e ↦ rw e refl
  ]

  -- Where a query finds no row, none meets its condition.
  pub any-find-none : (p : A → Bool) (xs : List A) → find p xs ≡ none → any p xs ≡ false
  any-find-none p [] e = refl
  any-find-none p (x ∷ xs) e = ground (arith, any-find-none p xs)

  -- A query of rows that were changed where the change is not seen by its condition.
  pub find-update_where :
      (p q : A → Bool) (f : A → A) (xs : List A)
      → ((x : A) → p (f x) ≡ p x)
      → find p (update_where q f xs) ≡ Option.map (λ x. if q x then f x else x) (find p xs)
  find-update_where p q f [] same = refl
  find-update_where p q f (x ∷ xs) same = ground (arith, same x, find-update_where p q f xs same)

  -- A change of no row.
  pub update_where_none :
      (p : A → Bool) (f : A → A) (xs : List A) → any p xs ≡ false → update_where p f xs ≡ xs
  update_where_none p f [] e = refl
  update_where_none p f (x ∷ xs) e = ground (arith, update_where_none p f xs)
