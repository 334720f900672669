-- ===== src/Prelude/Sort.antt =====
-- Insertion sort by a Boolean condition.
use mathlib.Core.List.Perm
use mathlib.Core.List.{not-mem-nil, Pairwise, Perm, mem-cons, Pairwise-cons}
use mathlib.Core.Logic.Or
use mathlib.Core.Bool.{Bool-set}
use support_operations_intel.Prelude.{
  ◌≡◌, Bool, true, List, [], ◌∷◌, ◌⊎◌, inl, inr, if◌then◌else◌, Bool-cases,
}

module _ {ℓ} {A : Type ℓ} (le : A → A → Bool) where
  unfoldable pub insert : A → List A → List A
  insert a [] = a ∷ []
  insert a (x ∷ xs) = if le a x then a ∷ x ∷ xs else x ∷ insert a xs

  unfoldable pub sort : List A → List A
  unfolding insert
  sort [] = []
  sort (x ∷ xs) = insert x (sort xs)

  insert-perm : (a : A) (xs : List A) → Perm (insert a xs) (a ∷ xs)
  unfolding insert
  insert-perm a [] = Perm.rfl
  insert-perm a (x ∷ xs) = elim (Bool-cases (le a x)) [
    | inl e ↦ rw e Perm.rfl
    | inr e ↦ rw e (Perm.trans (Perm.cons x (insert-perm a xs)) (Perm.swap a x xs))
  ]

  pub sort-perm : (xs : List A) → Perm (sort xs) xs
  unfolding sort
  sort-perm [] = Perm.rfl
  sort-perm (x ∷ xs) = Perm.trans (insert-perm x (sort xs)) (Perm.cons x (sort-perm xs))

  module _ (total : (a b : A) → (le a b ≡ true) ⊎ (le b a ≡ true))
      (trans : (a b c : A) → le a b ≡ true → le b c ≡ true → le a c ≡ true) where
    abbrev IsSorted : List A → Type ℓ
    IsSorted = Pairwise (λ a b. le a b ≡ true)

    insert-IsSorted : (a : A) (xs : List A) → IsSorted xs → IsSorted (insert a xs)
    unfolding insert
    insert-IsSorted a [] s = Pairwise-cons.1 (λ b m. absurd (not-mem-nil m), s)
    insert-IsSorted a (x ∷ xs) s = elim (Bool-cases (le a x)) [
      | inl e ↦ rw e (
          Pairwise-cons.1 (
            λ b m.
                Or.elim (Bool-set _ _) (mem-cons.0 m) (λ same. rw same e)
                  (λ later. trans a x b e ((Pairwise-cons.0 s).0 b later)),
            s,
          ))
      | inr e ↦
          let before : le x a ≡ true = elim (total a x) [ inl h ↦ cc | inr h ↦ h ] in
          rw e (
            Pairwise-cons.1 (
              λ b m.
                  Or.elim (Bool-set _ _) (mem-cons.0 (Perm.subset (insert-perm a xs) b m))
                    (λ same. rw same before) ((Pairwise-cons.0 s).0 b),
              insert-IsSorted a xs (Pairwise-cons.0 s).1,
            ))
    ]

    pub sort-IsSorted : (xs : List A) → IsSorted (sort xs)
    unfolding sort
    sort-IsSorted [] = Pairwise.nil
    sort-IsSorted (x ∷ xs) = insert-IsSorted x (sort xs) (sort-IsSorted xs)
