-- ===== src/Prelude/Reorder.antt =====
-- Rows that are told apart, in another order or with some left out.
use mathlib.Core.Path.{◌≡◌, refl, ◌∙◌}
use mathlib.Core.Bool.{Bool, true, false, Bool-set}
use mathlib.Core.List.{
  List, [], ◌∷◌, Mem, mem-cons_self, mem-cons_of_mem, Pairwise, Pairwise-cons, Perm,
}
use mathlib.Core.List.Perm
use mathlib.Core.Logic.{inl, inr}
use native.Mathlib.Omega.{arith}
use support_operations_intel.Prelude.Tests.{Bool-cases}
use support_operations_intel.Prelude.Lists.{any}
use support_operations_intel.Prelude.Member.{any_of_mem}
use support_operations_intel.Prelude.Keys.{Distinct}

module _ {A : Type 0} where
  any-mem : (p : A → Bool) (xs : List A) (a : A) → any p xs ≡ false → Mem a xs → p a ≡ false
  any-mem p xs a none m = elim (Bool-cases (p a)) [
    | inl e ↦ let some : any p xs ≡ true = any_of_mem p xs a m e in cc
    | inr e ↦ e
  ]

  any-mem_of : (p : A → Bool) (xs : List A) → ((a : A) → Mem a xs → p a ≡ false) → any p xs ≡ false
  any-mem_of p [] h = refl
  any-mem_of p (x ∷ xs) h =
      let first = h x mem-cons_self in
      let others = any-mem_of p xs (λ a m. h a (mem-cons_of_mem x m)) in
      ground (arith, first, others)

  module _ (same : A → A → Bool) where
    Differs : A → A → Type 0
    Differs x y = same x y ≡ false

    Distinct-Pairwise : (xs : List A) → Distinct same xs → Pairwise Differs xs
    unfolding Differs
    Distinct-Pairwise [] d = Pairwise.nil
    Distinct-Pairwise (x ∷ xs) (first, rest) =
        Pairwise-cons.1 ((λ a m. any-mem (same x) xs a first m), Distinct-Pairwise xs rest)

    Pairwise-Distinct : (xs : List A) → Pairwise Differs xs → Distinct same xs
    unfolding Differs
    Pairwise-Distinct [] p = tt
    Pairwise-Distinct (x ∷ xs) p =
        (any-mem_of (same x) xs (Pairwise-cons.0 p).0, Pairwise-Distinct xs (Pairwise-cons.0 p).1)

    pub Distinct-perm :
        ((x y : A) → same x y ≡ same y x)
        → {xs ys : List A} → Perm xs ys
        → Distinct same xs
        → Distinct same ys
    unfolding Differs
    Distinct-perm symmetric {xs} {ys} perm d = Pairwise-Distinct ys (
        Perm.pairwise (λ a b. Bool-set _ _) (λ a b e. symmetric b a ∙ e) perm
          (Distinct-Pairwise xs d))
