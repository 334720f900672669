-- ===== src/Prelude/Digits.antt =====
-- The digits that `str` writes can be read back.
use Prim.Native.Char.{Char, code}
use Prim.Native.Nat.{ℕ, zero, suc, ◌+◌, ◌-◌, ◌*◌, ◌/◌, ◌%◌, ◌<◌}
use Prim.Native.String.{String, ◌++◌ as text_append}
use mathlib.Core.Bool.{false}
use mathlib.Core.Path.{◌≡◌, refl, ap, ◌∙◌}
use mathlib.Core.Logic.{inl, inr}
use text.Mathlib.TextLemmas.{append_assoc, cons-append, nil-append}
use native.Mathlib.Omega.{arith}
use support_operations_intel.Prelude.Tests.{◌==◌, if◌then◌else◌, Bool-cases, ltb}
use support_operations_intel.Prelude.Text.{digit, str, str_from}

-- The number that is read up to the first dash, after `acc`.
pub value : ℕ → String → ℕ
value acc String.[] = acc
value acc (String.◌∷◌ c s) =
    let rest = value (acc * 10 + (code c - b'0')) s in if code c == b'-' then acc else rest

value-cons :
    (acc : ℕ) (c : Char) (rest : String)
    → (code c == b'-') ≡ false
    → value acc (text_append (String.◌∷◌ c String.[]) rest)
      ≡ value (acc * 10 + (code c - b'0')) rest
unfolding value
value-cons acc c rest h =
    ap (value acc) (cons-append c String.[] rest ∙ ap (λ s. String.◌∷◌ c s) (nil-append rest))
    ∙ rw h refl

value-digit :
    (acc d : ℕ) (rest : String)
    → d < 10
    → value acc (text_append (digit d) rest) ≡ value (acc * 10 + d) rest
value-digit acc zero rest h = value-cons acc "0" rest refl
value-digit acc (suc zero) rest h = value-cons acc "1" rest refl
value-digit acc (suc (suc zero)) rest h = value-cons acc "2" rest refl
value-digit acc (suc (suc (suc zero))) rest h = value-cons acc "3" rest refl
value-digit acc (suc (suc (suc (suc zero)))) rest h = value-cons acc "4" rest refl
value-digit acc (suc (suc (suc (suc (suc zero))))) rest h = value-cons acc "5" rest refl
value-digit acc (suc (suc (suc (suc (suc (suc zero)))))) rest h = value-cons acc "6" rest refl
value-digit acc (suc (suc (suc (suc (suc (suc (suc zero))))))) rest h = value-cons acc "7" rest refl
value-digit acc (suc (suc (suc (suc (suc (suc (suc (suc zero)))))))) rest h =
    value-cons acc "8" rest refl
value-digit acc (suc (suc (suc (suc (suc (suc (suc (suc (suc zero))))))))) rest h =
    value-cons acc "9" rest refl
value-digit acc (suc (suc (suc (suc (suc (suc (suc (suc (suc (suc d)))))))))) rest h =
    absurd (omega arith)

value-str_from :
    (fuel n : ℕ) (rest : String)
    → n < fuel
    → value 0 (text_append (str_from fuel n) rest) ≡ value n rest
unfolding str_from
value-str_from zero n rest h = absurd (omega arith)
value-str_from (suc fuel) n rest h = elim (Bool-cases (ltb n 10)) [
  | inl small ↦
      let none_before : 0 * 10 + n ≡ n = omega arith in
      rw small (value-digit 0 n rest (ground arith) ∙ ap (λ m. value m rest) none_before)
  | inr large ↦
      let ten : (n / 10) * 10 + n % 10 ≡ n = omega arith in
      rw large (
        ap (value 0) (append_assoc (str_from fuel (n / 10)) (digit (n % 10)) rest)
        ∙ value-str_from fuel (n / 10) (text_append (digit (n % 10)) rest) (ground arith)
        ∙ value-digit (n / 10) (n % 10) rest (omega arith)
        ∙ ap (λ m. value m rest) ten)
]

pub value-str : (n : ℕ) (rest : String) → value 0 (text_append (str n) rest) ≡ value n rest
unfolding str
value-str n rest = value-str_from (suc n) n rest (omega arith)

-- A zero in front.
pub value_zero : (rest : String) → value 0 (text_append "0" rest) ≡ value 0 rest
value_zero rest = value-digit 0 0 rest (omega arith)

-- A dash ends the number.
pub value_dash : (n : ℕ) (rest : String) → value n (text_append "-" rest) ≡ n
unfolding value
value_dash n rest = ap (value n) (cons-append "-" String.[] rest)
