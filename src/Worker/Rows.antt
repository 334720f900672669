-- ===== src/Worker/Rows.antt =====
-- What services/actions.py leaves of the rows of the actions after a round of the worker.
use support_operations_intel.Models.Tables.{Action}
use support_operations_intel.Models.States.{is_processed, retry}
use support_operations_intel.Prelude.{
  Bool, none, [], ◌∷◌, ◌==◌, ◌≡◌, ◌⊎◌, any, arith, Bool-cases, false, inl, inr, List, refl, true,
  update_where, ◌∙◌,
}

-- An action of the list has the key of the row.
abbrev pub is_taken : List Action → Action → Bool
is_taken taken row = any (λ a. a.id == row.id) taken

-- A row that is not taken stays as it is; one that is taken has ended its attempt.
abbrev pub Moved : List Action → Action → Action → Type 0
Moved taken row row' =
    (row'.id ≡ row.id)
    × (is_taken taken row ≡ false → row' ≡ row)
    × (is_taken taken row ≡ true
        → ((is_processed row'.state ≡ true) ⊎ (row'.state ≡ retry))
          × (row'.lease_id ≡ none)
          × (row'.leased_at ≡ none))

-- The rows before and after, one by one.
abbrev pub AllMoved : List Action → List Action → List Action → Type 0
AllMoved taken [] [] = Unit
AllMoved taken [] (row' ∷ rows') = ⊥
AllMoved taken (row ∷ rows) [] = ⊥
AllMoved taken (row ∷ rows) (row' ∷ rows') = Moved taken row row' × AllMoved taken rows rows'

pub none-AllMoved : (rows : List Action) → AllMoved [] rows rows
none-AllMoved [] = tt
none-AllMoved (row ∷ rows) = ((refl, λ h. refl, λ h. ground arith), none-AllMoved rows)

Moved-trans :
    (action : Action) (taken : List Action) (a b c : Action)
    → Moved (action ∷ []) a b
    → Moved taken b c
    → Moved (action ∷ taken) a c
Moved-trans action taken a b c (same, keeps, ends) (same', keeps', ends') =
    let moved : is_taken taken b ≡ is_taken taken a = rw same refl in
    elim (Bool-cases (is_taken taken a)) [
      | inl later ↦ (same' ∙ same, λ h. ground (arith, later, h), λ h. ends' (moved ∙ later))
      | inr not_later ↦
          let left : c ≡ b = keeps' (moved ∙ not_later) in
          elim (Bool-cases (action.id == a.id)) [
            | inl this ↦
                let first = ends (ground (arith, this)) in
                (same' ∙ same, λ h. ground (arith, this, h), λ h. rw left first)
            | inr other ↦ (
              same' ∙ same,
              λ h. left ∙ keeps (ground (arith, other)),
              λ h. ground (arith, other, not_later, h),
            )
          ]
    ]

pub AllMoved-trans :
    (action : Action) (taken a b c : List Action)
    → AllMoved (action ∷ []) a b
    → AllMoved taken b c
    → AllMoved (action ∷ taken) a c
AllMoved-trans action taken [] [] [] first later = tt
AllMoved-trans action taken [] [] (z ∷ c) first later = absurd later
AllMoved-trans action taken [] (y ∷ b) c first later = absurd first
AllMoved-trans action taken (x ∷ a) [] c first later = absurd first
AllMoved-trans action taken (x ∷ a) (y ∷ b) [] first later = absurd later
AllMoved-trans action taken (x ∷ a) (y ∷ b) (z ∷ c) (one, first) (one', later) =
    (Moved-trans action taken x y z one one', AllMoved-trans action taken a b c first later)

-- The row is written twice: with its lease, and with the end of its attempt.
pub saved-AllMoved :
    (action held ended : Action) (rows : List Action)
    → held.id ≡ action.id
    → ended.id ≡ action.id
    → (is_processed ended.state ≡ true) ⊎ (ended.state ≡ retry)
    → (ended.lease_id ≡ none) × (ended.leased_at ≡ none)
    → AllMoved (action ∷ []) rows (
        update_where
          (λ x. x.id == action.id)
          (λ _. ended)
          (update_where (λ x. x.id == action.id) (λ _. held) rows))
saved-AllMoved action held ended [] leased same over free = tt
saved-AllMoved action held ended (row ∷ rows) leased same over free = (
  elim (Bool-cases (row.id == action.id)) [
    | inl this ↦ rw this (rw leased (ground (arith, same, over, free)))
    | inr other ↦ rw other (rw other (ground arith))
  ],
  saved-AllMoved action held ended rows leased same over free,
)
