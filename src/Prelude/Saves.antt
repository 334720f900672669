-- ===== src/Prelude/Saves.antt =====
-- Rows by their keys: what is stored under a key, and what a save of one row changes.
use mathlib.Core.Path.{◌≡◌, refl, subst}
use mathlib.Core.Logic.{inl, inr}
use mathlib.Core.Bool.{Bool, true, false}
use mathlib.Core.Option.{some}
use mathlib.Core.List.{List, [], ◌∷◌}
use Prim.Native.Nat.{ℕ, zero, suc, ◌+◌}
use native.Mathlib.Omega.{arith}
use support_operations_intel.Prelude.Tests.{◌==◌, Bool-cases}
use support_operations_intel.Prelude.Lists.{All, any, find, select, sum_of, take, update_where}
use support_operations_intel.Prelude.Keys.{Distinct, same_id}

module _ {A : Type 0} where
  any-select : (p q : A → Bool) (xs : List A) → any p xs ≡ false → any p (select q xs) ≡ false
  any-select p q [] e = refl
  any-select p q (x ∷ xs) e = ground (arith, any-select p q xs)

  pub Distinct-select :
      (same : A → A → Bool) (q : A → Bool) (xs : List A)
      → Distinct same xs
      → Distinct same (select q xs)
  Distinct-select same q [] d = tt
  Distinct-select same q (x ∷ xs) (new, d) = elim (Bool-cases (q x)) [
    | inl e ↦ rw e (any-select (same x) q xs new, Distinct-select same q xs d)
    | inr e ↦ rw e (Distinct-select same q xs d)
  ]

  any-take : (p : A → Bool) (n : ℕ) (xs : List A) → any p xs ≡ false → any p (take n xs) ≡ false
  any-take p zero xs e = refl
  any-take p (suc n) [] e = refl
  any-take p (suc n) (x ∷ xs) e = ground (arith, any-take p n xs)

  pub Distinct-take :
      (same : A → A → Bool) (n : ℕ) (xs : List A) → Distinct same xs → Distinct same (take n xs)
  Distinct-take same zero xs d = tt
  Distinct-take same (suc n) [] d = tt
  Distinct-take same (suc n) (x ∷ xs) (new, d) =
      (any-take (same x) n xs new, Distinct-take same n xs d)

  pub All_none : (p : A → Bool) (xs : List A) → any p xs ≡ false → All (λ x. p x ≡ false) xs
  All_none p [] e = tt
  All_none p (x ∷ xs) e = (ground arith, All_none p xs (ground arith))

module _ {A : Type 0} (id : A → ℕ) where
  -- The row is the one that its key finds.
  abbrev pub Stored : List A → A → Type 0
  Stored rows a = find (λ x. id x == id a) rows ≡ some a

  -- The flush of a changed row.
  abbrev pub saved : A → List A → List A
  saved a rows = update_where (λ x. id x == id a) (λ _. a) rows

  All-Stored_cons :
      (x : A) (rows xs : List A)
      → All (Stored rows) xs
      → All (λ y. (id y == id x) ≡ false) xs
      → All (Stored (x ∷ rows)) xs
  All-Stored_cons x rows [] stored other = tt
  All-Stored_cons x rows (y ∷ xs) (s, stored) (o, other) =
      let apart : (id x == id y) ≡ false = ground arith in
      (rw apart s, All-Stored_cons x rows xs stored other)

  pub All-Stored : (rows : List A) → Distinct (same_id id) rows → All (Stored rows) rows
  All-Stored [] d = tt
  All-Stored (x ∷ xs) (new, d) =
      let found : (id x == id x) ≡ true = ground arith in
      (rw found refl, All-Stored_cons x xs xs (All-Stored xs d) (All_none (same_id id x) xs new))

  -- A save leaves the rows of other keys.
  pub Stored-saved_other :
      (b c : A) (rows : List A) → (id b == id c) ≡ false → Stored rows c → Stored (saved b rows) c
  Stored-saved_other b c [] other s = s
  Stored-saved_other b c (x ∷ rows) other s = ground (arith, Stored-saved_other b c rows other)

  -- Two saves of a key are the last one.
  pub saved-saved : (a b : A) (rows : List A) → id a ≡ id b → saved b (saved a rows) ≡ saved b rows
  saved-saved a b [] same = refl
  saved-saved a b (x ∷ rows) same = ground (arith, saved-saved a b rows same)

  saved_none : (b : A) (rows : List A) → any (λ x. id x == id b) rows ≡ false → saved b rows ≡ rows
  saved_none b [] e = refl
  saved_none b (x ∷ rows) e = ground (arith, saved_none b rows)

  -- What a save does to a sum over the rows.
  pub sum_of-saved :
      (f : A → ℕ) (a b : A) (rows : List A)
      → Distinct (same_id id) rows
      → id b ≡ id a
      → Stored rows a
      → sum_of f (saved b rows) + f a ≡ sum_of f rows + f b
  sum_of-saved f a b [] d same s = cc
  sum_of-saved f a b (x ∷ rows) (new, d) same s = elim (Bool-cases (id x == id a)) [
    | inl e ↦
        let it : (id x == id b) ≡ true = ground arith in
        let first : some x ≡ some a = rw e at s in
        let first' : x ≡ a = cc in
        let key : id x ≡ id b = ground arith in
        let none_other : any (λ y. id y == id b) rows ≡ false =
          subst (λ k. any (λ y. id y == k) rows ≡ false) key new in
        rw (it, saved_none b rows none_other, first') (omega arith)
    | inr e ↦
        let other : (id x == id b) ≡ false = ground arith in
        let later : Stored rows a = rw e at s in
        let rest = sum_of-saved f a b rows d same later in rw other (omega (arith, rest))
  ]
