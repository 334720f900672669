-- ===== src/Prelude/Order.antt =====
-- The order of texts by code points, by which ORDER BY sorts a text column.
use Prim.Native.String.{String, compare, then}
use Prim.Native.String.compare as Compare
use Prim.Native.Nat.{Ordering, compare as compare_ℕ}
use Prim.Native.Char.{Char, code}
use mathlib.Core.Logic.{◌⊎◌, inl, inr}
use mathlib.Core.Path.{◌≡◌, refl}
use mathlib.Core.Bool.{true}
use native.Mathlib.Omega.{arith}
use support_operations_intel.Prelude.Text.{text_le}

cons_cons :
    (c d : Char) (s t : String)
    → compare (String.◌∷◌ c s) (String.◌∷◌ d t) ≡ then (compare_ℕ (code c) (code d)) (compare s t)
cons_cons c d s t = Compare.cons-cons c d s t

cons_nil : (c : Char) (s : String) → compare (String.◌∷◌ c s) "" ≡ Ordering.gt
cons_nil c s = Compare.cons-nil c s

nil_le : (b : String) → text_le "" b ≡ true
nil_le String.[] = refl
nil_le (String.◌∷◌ d t) =
    let e : compare "" (String.◌∷◌ d t) ≡ Ordering.lt = Compare.nil-cons d t in rw (e, text_le) refl

pub text_le_total : (a b : String) → (text_le a b ≡ true) ⊎ (text_le b a ≡ true)
text_le_total String.[] b = inl (nil_le b)
text_le_total (String.◌∷◌ c a) String.[] = inr (nil_le (String.◌∷◌ c a))
text_le_total (String.◌∷◌ c a) (String.◌∷◌ d b) =
    ground (arith, cons_cons c d a b, cons_cons d c b a, text_le_total a b)

pub text_le_trans : (a b c : String) → text_le a b ≡ true → text_le b c ≡ true → text_le a c ≡ true
text_le_trans String.[] b c p q = nil_le c
text_le_trans (String.◌∷◌ x a) String.[] c p q = ground (arith, cons_nil x a)
text_le_trans (String.◌∷◌ x a) (String.◌∷◌ y b) String.[] p q = ground (arith, cons_nil y b)
text_le_trans (String.◌∷◌ x a) (String.◌∷◌ y b) (String.◌∷◌ z c) p q =
    ground (arith, cons_cons x y a b, cons_cons y z b c, cons_cons x z a c, text_le_trans a b c)
