-- ===== src/Commands/Skips.antt =====
-- Which properties GetCapability does not ask for.
use go_tpm.Base.{
  ℕ, zero, suc, ◌+◌, ◌-◌, ◌%◌, ◌^◌, ◌<◌, ◌≤◌, ◌≡◌, ◌≢◌, ◌⊎◌, refl, ◌∙◌, arith, true, false, List,
  [], ◌∷◌, ◌++◌, length, ◌==◌, All, All-append, inl, inr, ok,
}
use go_tpm.Commands.Capability.{
  Item, item_property, CapabilityData, capability_pcrs, less_remaining, last_property, Asked,
  take_answer, get_capability_from, get_capability,
}

weaken :
    (P Q : Item → Type 0) (items : List Item) → ((i : Item) → P i → Q i) → All P items → All Q items
weaken P Q [] f h = tt
weaken P Q (i ∷ items) f (h, hs) = (f i h, weaken P Q items f hs)

module _ {S E : Type 0} (raw : Asked S E) (capability : ℕ)
    (listed : capability ≢ capability_pcrs) where
  first_turn :
      (fuel property remaining : ℕ) (items : List Item) (s s' : S) (d : CapabilityData)
      → raw capability property remaining s ≡ (ok (true, d), s')
      → d.capability ≡ capability
      → length d.items < remaining
      → remaining < 2 ^ 32
      → get_capability_from raw capability (suc fuel) property remaining items s
        ≡ get_capability_from raw capability fuel
            ((property + (last_property d.items + 1)) % 2 ^ 32)
            (remaining - length d.items)
            (items ++ d.items)
            s'
  unfolding get_capability_from take_answer
  first_turn fuel property remaining items s s' d e c fewer small =
      let asked : (d.capability == capability) ≡ true = ground arith in
      let not_pcrs : (capability == capability_pcrs) ≡ false = ground arith in
      let counted : less_remaining remaining (length d.items) ≡ remaining - length d.items =
        omega arith in
      let not_done : (remaining - length d.items == 0) ≡ false = ground arith in
      rw (e, asked, not_pcrs, counted, not_done) refl

  last_turn :
      (fuel property remaining : ℕ) (items : List Item) (s s' : S) (d : CapabilityData)
      → raw capability property remaining s ≡ (ok (false, d), s')
      → d.capability ≡ capability
      → 1 ≤ fuel
      → get_capability_from raw capability fuel property remaining items s
        ≡ (ok (record { capability = capability; items = items ++ d.items; pcrs = [] }), s')
  unfolding get_capability_from take_answer
  last_turn zero property remaining items s s' d e c h = absurd (omega arith)
  last_turn (suc fuel) property remaining items s s' d e c h =
      let asked : (d.capability == capability) ≡ true = ground arith in
      let not_pcrs : (capability == capability_pcrs) ≡ false = ground arith in
      rw (e, asked, not_pcrs) refl

module _ {S E : Type 0} (raw : Asked S E) (capability property count : ℕ) (s s1 s2 : S)
    (d d2 : CapabilityData) where
  -- The property of the second request, which is not the one after the last property that has come.
  abbrev pub second_property : ℕ
  second_property = (property + (last_property d.items + 1)) % 2 ^ 32

  -- A first answer, with properties up to the last one in order, but fewer than were asked for, and a
  -- second answer, with properties from the one that it is asked for on, after which there are no more.
  abbrev pub TwoAnswers : Type 0
  TwoAnswers =
      (raw capability property count s ≡ (ok (true, d), s1))
      × (raw capability second_property (count - length d.items) s1 ≡ (ok (false, d2), s2))
      × (d.capability ≡ capability)
      × (d2.capability ≡ capability)
      × (length d.items < count)
      × All (λ i. item_property i ≤ last_property d.items) d.items
      × All (λ i. second_property ≤ item_property i) d2.items

  -- Where a capability takes two commands, the property of the second one is the sum of the first one's
  -- and of the last property that has come, plus 1: no property is returned that lies above the last
  -- one that has come and up to its sum with the first, whether the TPM has such a property or not.
  pub get_capability-skips :
      capability ≢ capability_pcrs
      → count < 2 ^ 32
      → property + last_property d.items + 1 < 2 ^ 32
      → TwoAnswers
      → (all : List Item) × (get_capability raw capability property count s
          ≡ (ok (record { capability = capability; items = all; pcrs = [] }), s2))
        × All
            (λ i.
              (item_property i ≤ last_property d.items)
              ⊎ (property + last_property d.items < item_property i))
            all
  unfolding get_capability
  get_capability-skips listed small whole (e1, e2, c1, c2, fewer, low, high) =
      let Outside : Item → Type 0 = λ i.
        (item_property i ≤ last_property d.items)
        ⊎ (property + last_property d.items < item_property i) in
      let first =
        first_turn raw capability listed count property count [] s s1 d e1 c1 fewer small in
      let second =
        last_turn raw capability listed count second_property (count - length d.items) d.items s1 s2
          d2 e2 c2 (omega arith) in
      (
        d.items ++ d2.items,
        first ∙ second,
        All-append Outside d.items d2.items (weaken _ Outside d.items (λ i h. inl h) low)
            (weaken _ Outside d2.items (λ i h. inr (omega arith)) high),
      )
