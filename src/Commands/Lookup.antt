-- ===== src/Commands/Lookup.antt =====
-- What the queries for single properties find in the table of a TPM.
use go_tpm.Base.{
  ℕ, ◌<◌, ◌≤◌, ◌≡◌, ◌≢◌, refl, arith, Bool, true, false, not, ◌||◌, Option, none, some, List, [],
  ◌∷◌, length, ltb, ◌==◌, All, Bool-cases, inl, inr, if◌then◌else◌, Outcome, ok, err,
}
use go_tpm.Commands.Capability.{
  Item, item_property, CapabilityData, capability_pcrs, less_remaining, Asked, take_answer,
  get_capability_from, get_capability,
}
use go_tpm.Commands.Properties.{QueryError, does_not_exist, first_is, get_items, get_item}

-- The first element of a table from a property on.
abbrev pub first_from : ℕ → List Item → List Item
first_from property [] = []
first_from property (i ∷ table) =
    if ltb (item_property i) property then first_from property table else i ∷ []

abbrev pub find : ℕ → List Item → Option Item
find property [] = none
find property (i ∷ table) = if item_property i == property then some i else find property table

-- A table in the order of its properties, each of which it has once.
abbrev pub IsOrdered : List Item → Type 0
IsOrdered [] = Unit
IsOrdered (i ∷ table) = All (λ j. item_property i < item_property j) table × IsOrdered table

abbrev pub found : {E : Type 0} → ℕ → Option Item → Outcome (QueryError E) Item
found property none = err (does_not_exist property)
found property (some i) = ok i

no_later :
    (property : ℕ) (table : List Item)
    → All (λ j. property < item_property j) table
    → find property table ≡ none
no_later property [] h = refl
no_later property (i ∷ table) (h, hs) =
    let other : (item_property i == property) ≡ false = ground arith in
    rw (other, no_later property table hs) refl

later_than :
    (m n : ℕ) (table : List Item)
    → m ≤ n
    → All (λ j. n < item_property j) table
    → All (λ j. m < item_property j) table
later_than m n [] h a = tt
later_than m n (i ∷ table) h (a, later) = (omega arith, later_than m n table h later)

first_is-find :
    {E : Type 0} (property : ℕ) (table : List Item)
    → IsOrdered table
    → first_is {E = E} property (first_from property table) ≡ found property (find property table)
first_is-find property [] o = refl
first_is-find property (i ∷ table) (o, os) = elim (Bool-cases (ltb (item_property i) property)) [
  | inl before ↦
      let other : (item_property i == property) ≡ false = ground arith in
      rw (before, other) (first_is-find property table os)
  | inr reached ↦ elim (Bool-cases (item_property i == property)) [
    | inl same ↦ rw (reached, same) refl
    | inr other ↦
        let later : property ≤ item_property i = ground arith in
        rw
          (
            reached,
            other,
            no_later property table (later_than property (item_property i) table later o),
          )
          refl
  ]
]

module _ {S E : Type 0} (raw : Asked S E) (capability : ℕ) (table : List Item) where
  -- To a request for one property, the TPM answers with the first one of the table from there on.
  abbrev pub AnswersFirst : S → Type 0
  AnswersFirst s =
      (property : ℕ)
      → (more : Bool) × (d : CapabilityData) × (raw capability property 1 s ≡ (ok (more, d), s))
        × (d.capability ≡ capability)
        × (d.items ≡ first_from property table)
        × (more ≡ true → 1 ≤ length d.items)

  short_first : (property : ℕ) (l : List Item) → length (first_from property l) ≤ 1
  short_first property [] = omega arith
  short_first property (i ∷ l) = elim (Bool-cases (ltb (item_property i) property)) [
    | inl before ↦ rw before (short_first property l)
    | inr reached ↦ rw reached (omega arith)
  ]

  one_answer :
      (property : ℕ) (s : S)
      → capability ≢ capability_pcrs
      → AnswersFirst s
      → get_items raw capability property 1 s ≡ (ok (first_from property table), s)
  unfolding get_capability get_capability_from take_answer
  one_answer property s listed answers =
      let (more, d, e, same, items, some_more) = answers property in
      let few : length d.items ≤ 1 = rw items (short_first property table) in
      let asked : (d.capability == capability) ≡ true = ground arith in
      let not_pcrs : (capability == capability_pcrs) ≡ false = ground arith in
      let ends : (not more || (less_remaining 1 (length d.items) == 0)) ≡ true =
        elim (Bool-cases more) [
          | inr none_left ↦ rw none_left refl
          | inl there ↦
              let counted : less_remaining 1 (length d.items) ≡ 0 =
                let l : 1 ≤ length d.items = some_more there in omega arith in
              rw (there, counted) refl
        ] in
      rw (e, asked, not_pcrs, ends, items) refl

  -- Where the TPM answers from a table, in order and without repetition, GetCapabilityTPMProperty and
  -- the like find the property that the table has, and give an error if the table does not have it.
  pub get_item-find :
      (property : ℕ) (s : S)
      → capability ≢ capability_pcrs
      → IsOrdered table
      → AnswersFirst s
      → get_item raw capability property s ≡ (found property (find property table), s)
  unfolding get_item
  get_item-find property s listed o answers =
      rw (one_answer property s listed answers, first_is-find property table o) refl
