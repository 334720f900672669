-- ===== src/Benchmark/Names.antt =====
-- The asset names of benchmarks/workload.py: the events of a group that may open an incident have
-- names of their own.
use support_operations_intel.Prelude.{
  zero, inr, inl, ◌^◌, ltb, ap, sym, Bool-cases, ◌∙◌, suc, str, [], ◌≡◌, ◌∷◌, String, f_string, ℕ,
}
use support_operations_intel.Prelude.Digits.{value, value-str, value_zero, value_dash}
use text.Mathlib.TextLemmas.{nil-append, append-nil, append_assoc, append_cancel_left}
use Prim.Native.String.{◌++◌ as text_append}
use support_operations_intel.Workload.{pad_from, padded, asset_name}

value-pad_from :
    (more n : ℕ) (rest : String) → value 0 (text_append (pad_from more n) rest) ≡ value n rest
unfolding pad_from f_string
value-pad_from zero n rest = value-str n rest
value-pad_from (suc more) n rest = elim (Bool-cases (ltb n (10 ^ suc more))) [
  | inl short ↦ rw short (
      ap (value 0) (
        append_assoc "0" (text_append (pad_from more n) "") rest
        ∙ ap (text_append "0") (
            append_assoc (pad_from more n) "" rest
            ∙ ap (text_append (pad_from more n)) (nil-append rest)))
      ∙ value_zero (text_append (pad_from more n) rest)
      ∙ value-pad_from more n rest)
  | inr long ↦ rw long (value-str n rest)
]

-- The text after the seed.
abbrev after_seed : ℕ → String → String
after_seed group kind = f_string (padded 6 group ∷ "-" ∷ kind ∷ [])

value-after_seed : (group : ℕ) (kind : String) → value 0 (after_seed group kind) ≡ group
unfolding padded f_string
value-after_seed group kind =
    value-pad_from 5 group (text_append "-" (text_append kind ""))
    ∙ value_dash group (text_append kind "")

-- A name has one group and one kind.
pub asset_name_inj :
    (seed group group' : ℕ) (kind kind' : String)
    → asset_name seed group kind ≡ asset_name seed group' kind'
    → (group ≡ group') × (kind ≡ kind')
unfolding f_string
asset_name_inj seed group group' kind kind' e =
    let after : after_seed group kind ≡ after_seed group' kind' =
      append_cancel_left "-" _ _
        (append_cancel_left (str seed) _ _ (append_cancel_left "SYN-" _ _ e)) in
    let groups : group ≡ group' =
      sym (value-after_seed group kind) ∙ ap (value 0) after ∙ value-after_seed group' kind' in
    let kinds : text_append kind "" ≡ text_append kind' "" = append_cancel_left "-" _ _ (
      append_cancel_left (padded 6 group) _ _
        (after ∙ ap (λ g. after_seed g kind') (sym groups))) in
    (groups, sym (append-nil kind) ∙ kinds ∙ append-nil kind')
