-- ===== src/Commands/Ends.antt =====
-- How the loop of GetCapability comes to its end.
use go_tpm.Base.{
  ℕ, zero, suc, ◌+◌, ◌-◌, ◌^◌, ◌≤◌, ◌<◌, ◌≡◌, arith, Bool, true, false, not, ◌||◌, List, [], ◌++◌,
  length, length-append, ◌==◌, Bool-cases, inl, inr, if◌then◌else◌, Outcome, ok, err, panic,
}
use go_tpm.Commands.Capability.{
  Item, CapabilityData, CapabilityError, capability_pcrs, missing_pcrs, less_remaining, Asked,
  Result, with_answer, take_answer, get_capability_from, get_capability,
}

module _ {S E : Type 0} where
  -- An answer with at most as many properties as were asked for, and with one at least if there are
  -- more, or an error.
  abbrev pub IsAnswer : ℕ → Outcome E (Bool × CapabilityData) × S → Type 0
  IsAnswer count (ok (more, d), s) =
      (length d.items ≤ count) × (more ≡ true → 1 ≤ count → 1 ≤ length d.items)
  IsAnswer count (err e, s) = Unit
  IsAnswer count (panic, s) = ⊥

  -- A result with at most so many properties, or an error.
  abbrev pub IsResult : ℕ → Outcome (CapabilityError E) CapabilityData × S → Type 0
  IsResult count (ok d, s) = length d.items ≤ count
  IsResult count (err e, s) = Unit
  IsResult count (panic, s) = ⊥

  module _ (raw : Asked S E) (capability : ℕ)
      (answers : (property count : ℕ) (s : S)
        → IsAnswer count (raw capability property count s)) where
    pcrs-IsResult :
        (count : ℕ) (more : Bool) (d : CapabilityData) (s : S)
        → length d.items ≤ count
        → IsResult count ((if more then err missing_pcrs else ok d), s)
    pcrs-IsResult count true d s h = tt
    pcrs-IsResult count false d s h = h

    answer-IsResult :
        (next : ℕ → ℕ → List Item → S → Result S E) (property remaining count : ℕ)
        (items : List Item) (more : Bool) (d : CapabilityData) (s : S)
        → ((property' remaining' : ℕ) (items' : List Item) (s' : S)
            → remaining' < remaining
            → length items' + remaining' ≤ count
            → IsResult count (next property' remaining' items' s'))
        → length d.items ≤ remaining
        → (more ≡ true → 1 ≤ remaining → 1 ≤ length d.items)
        → remaining < 2 ^ 32
        → length items + remaining ≤ count
        → IsResult count (take_answer capability remaining items next property more d s)
    unfolding take_answer
    answer-IsResult next property remaining count items more d s ends few some_more small room =
        elim (Bool-cases (d.capability == capability)) [
          | inr other ↦ rw other tt
          | inl same ↦ elim (Bool-cases (capability == capability_pcrs)) [
            | inl pcrs ↦ rw (same, pcrs) (pcrs-IsResult count more d s (omega arith))
            | inr not_pcrs ↦
                let left : ℕ = less_remaining remaining (length d.items) in
                let counted : left ≡ remaining - length d.items = omega arith in
                let all = length-append items d.items in
                elim (Bool-cases (not more || (left == 0))) [
                  | inl done ↦ rw (same, not_pcrs, done) (omega arith)
                  | inr again ↦
                      let there : more ≡ true = ground arith in
                      let not_done : 1 ≤ left = ground arith in
                      let some_here : 1 ≤ length d.items = some_more there (omega arith) in
                      rw (same, not_pcrs, again)
                        (ends _ left (items ++ d.items) s (omega arith) (omega arith))
                ]
          ]
        ]

    turn-IsResult :
        (next : ℕ → ℕ → List Item → S → Result S E) (property remaining count : ℕ)
        (items : List Item) (r : Outcome E (Bool × CapabilityData) × S)
        → ((property' remaining' : ℕ) (items' : List Item) (s' : S)
            → remaining' < remaining
            → length items' + remaining' ≤ count
            → IsResult count (next property' remaining' items' s'))
        → IsAnswer remaining r
        → remaining < 2 ^ 32
        → length items + remaining ≤ count
        → IsResult count (with_answer (take_answer capability remaining items next property) r)
    turn-IsResult next property remaining count items (ok (more, d), s) ends a small room =
        answer-IsResult next property remaining count items more d s ends a.0 a.1 small room
    turn-IsResult next property remaining count items (err e, s) ends a small room = tt
    turn-IsResult next property remaining count items (panic, s) ends a small room = absurd a

    from-IsResult :
        (fuel property remaining count : ℕ) (items : List Item) (s : S)
        → remaining < fuel
        → remaining < 2 ^ 32
        → length items + remaining ≤ count
        → IsResult count (get_capability_from raw capability fuel property remaining items s)
    unfolding get_capability_from
    from-IsResult zero property remaining count items s h small room = absurd (omega arith)
    from-IsResult (suc fuel) property remaining count items s h small room =
        turn-IsResult (get_capability_from raw capability fuel) property remaining count items
          (raw capability property remaining s)
          (λ property' remaining' items' s' less within.
            from-IsResult fuel property' remaining' count items' s' (omega arith) (omega arith)
              within)
          (answers property remaining s) small room

    -- Where the TPM answers with at most as many properties as it is asked for, and with one at least
    -- if it says that there are more, GetCapability ends after at most one command more than the number
    -- of properties, and it gives at most that number of properties or an error.
    pub get_capability-IsResult :
        (property count : ℕ) (s : S)
        → count < 2 ^ 32
        → IsResult count (get_capability raw capability property count s)
    unfolding get_capability
    get_capability-IsResult property count s small =
        from-IsResult (suc count) property count count [] s (omega arith) small (omega arith)
