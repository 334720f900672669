-- ===== src/Prelude/Member.antt =====
-- Which rows a query returns, by the library's membership.
use mathlib.Core.HLevel.{×_prop}
use mathlib.Core.List.Perm
use mathlib.Core.List.{
  Mem, Mem-prop, Perm, Permᴰ, mem-cons, not-mem-nil, mem-cons_self, mem-cons_of_mem,
}
use mathlib.Core.Logic.Or
use mathlib.Core.Logic.{∥∥₁_elim, inl, inr}
use mathlib.Core.Path.{◌≡◌, refl, ap, ◌∙◌}
use mathlib.Core.Bool.{Bool, true, Bool-set}
use mathlib.Core.List.{List, [], ◌∷◌}
use native.Mathlib.Nat.{ℕ_set}
use Prim.Native.Nat.{ℕ, suc}
use native.Mathlib.Omega.{arith}
use support_operations_intel.Prelude.Tests.{Bool-cases}
use mathlib.Core.Option.{some, none}
use mathlib.Core.Bool.{false}
use support_operations_intel.Prelude.Lists.{sum_of, All, select, length, find, any}
use native.Mathlib.Omega.{arith}

module _ {ℓ κ} {A : Type ℓ} where
  pub All-of_mem : (P : A → Type κ) (xs : List A) → ((x : A) → Mem x xs → P x) → All P xs
  All-of_mem P [] h = tt
  All-of_mem P (x ∷ xs) h = (h x mem-cons_self, All-of_mem P xs (λ y m. h y (mem-cons_of_mem x m)))

  pub All_mem :
      (P : A → Type κ)
      → ((x : A) → IsProp (P x))
      → (xs : List A) (a : A) → All P xs
      → Mem a xs
      → P a
  All_mem P prop [] a all m = absurd (not-mem-nil m)
  All_mem P prop (x ∷ xs) a all m =
      Or.elim (prop a) (mem-cons.0 m) (λ e. rw e all.0) (All_mem P prop xs a all.1)

module _ {ℓ} {A : Type ℓ} where
  pub mem-select_of :
      (p : A → Bool) (xs : List A) (a : A) → Mem a xs → p a ≡ true → Mem a (select p xs)
  mem-select_of p [] a m h = m
  mem-select_of p (x ∷ xs) a m h =
      Or.elim Mem-prop (mem-cons.0 m) (λ e. rw (← e, h) mem-cons_self)
        (λ rest. elim (Bool-cases (p x)) [
          | inl e ↦ rw e (mem-cons_of_mem x (mem-select_of p xs a rest h))
          | inr e ↦ rw e (mem-select_of p xs a rest h)
        ])

  pub mem_of_mem-select :
      (p : A → Bool) (xs : List A) (a : A) → Mem a (select p xs) → Mem a xs × (p a ≡ true)
  mem_of_mem-select p [] a m = absurd (not-mem-nil m)
  mem_of_mem-select p (x ∷ xs) a m = elim (Bool-cases (p x)) [
    | inl e ↦
        Or.elim (×_prop Mem-prop (Bool-set _ _)) (mem-cons.0 (rw e at m))
          (λ same. (rw same mem-cons_self, rw same e))
          (λ rest.
            let (found, holds) = mem_of_mem-select p xs a rest in (mem-cons_of_mem x found, holds))
    | inr e ↦
        let (found, holds) = mem_of_mem-select p xs a (rw e at m) in
        (mem-cons_of_mem x found, holds)
  ]

module _ {ℓ} {A : Type ℓ} where
  length-permᴰ : {xs ys : List A} → Permᴰ xs ys → length xs ≡ length ys
  length-permᴰ Permᴰ.nil = refl
  length-permᴰ (Permᴰ.cons _ p) = ap suc (length-permᴰ p)
  length-permᴰ (Permᴰ.swap _ _) = refl
  length-permᴰ (Permᴰ.trans p q) = length-permᴰ p ∙ length-permᴰ q

  pub length-perm : {xs ys : List A} → Perm xs ys → length xs ≡ length ys
  length-perm p = ∥∥₁_elim p (ℕ_set _ _) length-permᴰ

  sum_of-permᴰ : (f : A → ℕ) {xs ys : List A} → Permᴰ xs ys → sum_of f xs ≡ sum_of f ys
  sum_of-permᴰ f Permᴰ.nil = refl
  sum_of-permᴰ f (Permᴰ.cons e p) = let same = ap f e in omega (arith, same, sum_of-permᴰ f p)
  sum_of-permᴰ f (Permᴰ.swap e e') =
      let same = ap f e in let same' = ap f e' in omega (arith, same, same')
  sum_of-permᴰ f (Permᴰ.trans p q) = sum_of-permᴰ f p ∙ sum_of-permᴰ f q

  pub sum_of-perm : (f : A → ℕ) {xs ys : List A} → Perm xs ys → sum_of f xs ≡ sum_of f ys
  sum_of-perm f p = ∥∥₁_elim p (ℕ_set _ _) (sum_of-permᴰ f)

  pub All-perm {κ} :
      (P : A → Type κ)
      → ((x : A) → IsProp (P x))
      → {xs ys : List A} → Perm xs ys
      → All P ys
      → All P xs
  All-perm P prop perm all = All-of_mem P _ (λ x m. All_mem P prop _ x all (Perm.subset perm x m))

module _ {ℓ} {A : Type ℓ} (p : A → Bool) where
  pub find-mem : (xs : List A) (a : A) → find p xs ≡ some a → Mem a xs
  find-mem [] a e = cc
  find-mem (x ∷ xs) a e = elim (Bool-cases (p x)) [
    | inl holds ↦
        let first : some x ≡ some a = rw holds at e in
        let same : x ≡ a = cc in rw (← same) mem-cons_self
    | inr fails ↦ mem-cons_of_mem x (find-mem xs a (rw fails at e))
  ]

  pub find-none : (xs : List A) (a : A) → find p xs ≡ none → Mem a xs → p a ≡ false
  find-none [] a e m = absurd (not-mem-nil m)
  find-none (x ∷ xs) a e m = elim (Bool-cases (p x)) [
    | inl holds ↦ let first : some x ≡ none = rw holds at e in cc
    | inr fails ↦
        Or.elim (Bool-set _ _) (mem-cons.0 m) (λ same. rw same fails)
          (find-none xs a (rw fails at e))
  ]

  pub any_of_mem : (xs : List A) (a : A) → Mem a xs → p a ≡ true → any p xs ≡ true
  any_of_mem [] a m h = absurd (not-mem-nil m)
  any_of_mem (x ∷ xs) a m h =
      Or.elim (Bool-set _ _) (mem-cons.0 m) (λ same. rw (← same, h) refl)
        (λ later. ground (arith, any_of_mem xs a later h))
