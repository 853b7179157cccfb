-- ===== src/Commands/Queries.antt =====
-- The theorems on GetCapability, at a TPM with three properties, of which an answer has one.
use go_tpm.Base.{
  ℕ, zero, suc, ◌≤◌, ◌<◌, ◌≡◌, ◌⊎◌, inl, inr, refl, arith, Bool, true, false, List, [], ◌∷◌, All,
  ltb, Bool-cases, if◌then◌else◌, ok,
}
use go_tpm.Commands.Capability.{
  Item, tpm_property, item_property, CapabilityData, last_property, Asked, get_capability,
}
use go_tpm.Commands.Properties.{get_item}
use go_tpm.Commands.Ends.{IsAnswer, IsResult, get_capability-IsResult}
use go_tpm.Commands.Lookup.{first_from, AnswersFirst, get_item-find}
use go_tpm.Commands.Skips.{get_capability-skips}

abbrev table : List Item
table = tpm_property 1 10 ∷ tpm_property 2 20 ∷ tpm_property 3 30 ∷ []

abbrev from : ℕ → List Item → List Item
from property [] = []
from property (i ∷ items) =
    if ltb (item_property i) property then from property items else i ∷ items

-- The first one of some properties, and whether there are more.
abbrev one_of : ℕ → List Item → Bool × CapabilityData
one_of zero items = (false, record { capability = 6; items = []; pcrs = [] })
one_of (suc count) [] = (false, record { capability = 6; items = []; pcrs = [] })
one_of (suc count) (i ∷ []) = (false, record { capability = 6; items = i ∷ []; pcrs = [] })
one_of (suc count) (i ∷ (j ∷ items)) = (true, record { capability = 6; items = i ∷ []; pcrs = [] })

abbrev raw : Asked ℕ ℕ
raw capability property count s = (ok (one_of count (from property table)), s)

one_of-IsAnswer :
    (count : ℕ) (items : List Item) (s : ℕ)
    → IsAnswer {S = ℕ} {E = ℕ} count (ok (one_of count items), s)
one_of-IsAnswer zero items s = (omega arith, λ e h. absurd (omega arith))
one_of-IsAnswer (suc count) [] s = (omega arith, λ e h. cc)
one_of-IsAnswer (suc count) (i ∷ []) s = (omega arith, λ e h. omega arith)
one_of-IsAnswer (suc count) (i ∷ (j ∷ items)) s = (omega arith, λ e h. omega arith)

get_capability-IsResult_example : IsResult 3 (get_capability raw 6 1 3 0)
get_capability-IsResult_example =
    get_capability-IsResult raw 6
      (λ property count s. one_of-IsAnswer count (from property table) s) 1 3 0 (omega arith)

-- The property 2 is not returned.
get_capability-skips_example :
    (all : List Item) × (get_capability raw 6 1 3 0
      ≡ (ok (record { capability = 6; items = all; pcrs = [] }), 0))
    × All (λ i. (item_property i ≤ 1) ⊎ (2 < item_property i)) all
unfolding last_property
get_capability-skips_example =
    get_capability-skips raw 6 1 3 0 0 0
      (record { capability = 6; items = tpm_property 1 10 ∷ []; pcrs = [] })
      (record { capability = 6; items = tpm_property 3 30 ∷ []; pcrs = [] }) (omega arith)
      (omega arith) (omega arith)
      (refl, refl, refl, refl, omega arith, (omega arith, tt), (omega arith, tt))

single : (property : ℕ) (items : List Item) → (one_of 1 (from property items)).1.capability ≡ 6
single property items = capability_of (from property items)
  where
    capability_of : (l : List Item) → (one_of 1 l).1.capability ≡ 6
    capability_of [] = refl
    capability_of (i ∷ []) = refl
    capability_of (i ∷ (j ∷ l)) = refl

single_items :
    (property : ℕ) (items : List Item)
    → (one_of 1 (from property items)).1.items ≡ first_from property items
single_items property [] = refl
single_items property (i ∷ items) = elim (Bool-cases (ltb (item_property i) property)) [
  | inl before ↦ rw before (single_items property items)
  | inr reached ↦ rw reached (head_of items)
]
  where
    head_of : (l : List Item) → (one_of 1 (i ∷ l)).1.items ≡ i ∷ []
    head_of [] = refl
    head_of (j ∷ l) = refl

raw-AnswersFirst : AnswersFirst raw 6 table 0
raw-AnswersFirst property =
    let answer = one_of 1 (from property table) in
    (
      answer.0,
      answer.1,
      refl,
      single property table,
      single_items property table,
      λ more. (one_of-IsAnswer 1 (from property table) 0).1 more (omega arith),
    )

get_item-find_example : get_item raw 6 2 0 ≡ (ok (tpm_property 2 20), 0)
get_item-find_example =
    get_item-find raw 6 table 2 0 (omega arith)
      ((omega arith, (omega arith, tt)), ((omega arith, tt), (tt, tt))) raw-AnswersFirst
