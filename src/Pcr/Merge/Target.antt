-- ===== src/Pcr/Merge/Target.antt =====
-- The target that Merge looks for in the destination list, and what it clears on the way.
use go_tpm.Base.{
  ℕ, suc, ◌+◌, true, false, not, ◌&&◌, Option, none, some, List, [], ◌∷◌, ◌++◌, ◌≡◌, refl, ap,
  arith, length, All, ◌==◌, Bool-cases, inl, inr, ok,
}
use go_tpm.Pcr.Bitmap.{Bitmap, has_pcr, bitmap_has}
use go_tpm.Pcr.Wire.{IsSelection}
use go_tpm.Pcr.Sets.{bitmap_has-clear, length-clear, full_bitmap}
use go_tpm.Pcr.Selection.{Selection, selected}
use go_tpm.Pcr.Lists.{clear_octets, find_target}

-- What is left of the source bitmap: the PCRs that no selection of the bank has.
unfoldable pub Left : ℕ → List Selection → Bitmap → Bitmap → Type 0
Left h out rbmp rbmp' =
    (length rbmp' ≡ length rbmp)
    × ((k : ℕ) → bitmap_has k rbmp' ≡ (bitmap_has k rbmp && not (selected h k out)))

-- The selection that a target stands for.
unfoldable pub FoundIn : ℕ → ℕ → List Selection → Option (ℕ × Bitmap) → Type 0
FoundIn h i out none = (k : ℕ) → selected h k out ≡ false
FoundIn h i out (some (j, lbmp)) =
    (front : List Selection) × (sl : Selection) × (back : List Selection) × (out
      ≡ front ++ sl ∷ back)
    × (j ≡ i + length front)
    × (sl.hash ≡ h)
    × (length lbmp ≡ 255)
    × ((k : ℕ) → bitmap_has k lbmp ≡ has_pcr k sl.select)

-- The selection is not of the bank, or its PCRs are cleared.
Left-skip :
    (h : ℕ) (sl : Selection) (out : List Selection) (rbmp rbmp' : Bitmap)
    → (sl.hash == h) ≡ false
    → Left h out rbmp rbmp'
    → Left h (sl ∷ out) rbmp rbmp'
unfolding Left
Left-skip h sl out rbmp rbmp' other (size, bits) = (size, λ k. rw (bits k, other) refl)

Left-here :
    (h : ℕ) (sl : Selection) (out : List Selection) (rbmp lbmp rbmp' : Bitmap)
    → (sl.hash == h) ≡ true
    → ((k : ℕ) → bitmap_has k lbmp ≡ has_pcr k sl.select)
    → Left h out (clear_octets rbmp lbmp) rbmp'
    → Left h (sl ∷ out) rbmp rbmp'
unfolding Left
Left-here h sl out rbmp lbmp rbmp' here hb (size, bits) = (
  omega (arith, size, length-clear rbmp lbmp),
  λ k. rw (bits k, bitmap_has-clear k rbmp lbmp, hb k, here) (ground arith),
)

-- With a target, the loop only clears.
target_kept :
    (h i : ℕ) (out : List Selection) (t : ℕ × Bitmap) (rbmp : Bitmap)
    → All IsSelection out
    → (rbmp' : Bitmap) × (find_target h i out (some t) rbmp ≡ ok (some t, rbmp'))
      × Left h out rbmp rbmp'
unfolding find_target
target_kept h i [] t rbmp v = (rbmp, refl, unfold Left in (refl, λ k. ground arith))
target_kept h i (sl ∷ out) t rbmp v = elim (Bool-cases (sl.hash == h)) [
  | inl here ↦
      let (lbmp, e1, hl, hb) = full_bitmap sl.select v.0.2 in
      let (rbmp', e, left) = target_kept h (suc i) out t (clear_octets rbmp lbmp) v.1 in
      (rbmp', rw (here, e1) e, Left-here h sl out rbmp lbmp rbmp' here hb left)
  | inr other ↦
      let (rbmp', e, left) = target_kept h (suc i) out t rbmp v.1 in
      (rbmp', rw other e, Left-skip h sl out rbmp rbmp' other left)
]

found_later :
    (h i : ℕ) (sl : Selection) (out : List Selection) (t : Option (ℕ × Bitmap))
    → (sl.hash == h) ≡ false
    → FoundIn h (suc i) out t
    → FoundIn h i (sl ∷ out) t
unfolding FoundIn
found_later h i sl out none other f = λ k. rw (other, f k) refl
found_later h i sl out (some (j, lbmp)) other (front, s, back, e, at, hash, size, bits) =
    (sl ∷ front, s, back, ap (λ l. sl ∷ l) e, omega arith, hash, size, bits)

-- Without a target, the loop takes the first selection of the bank.
pub target_found :
    (h i : ℕ) (out : List Selection) (rbmp : Bitmap)
    → All IsSelection out
    → (t : Option (ℕ × Bitmap)) × (rbmp' : Bitmap) × (find_target h i out none rbmp ≡ ok (t, rbmp'))
      × FoundIn h i out t
      × Left h out rbmp rbmp'
unfolding find_target
target_found h i [] rbmp v =
    (none, rbmp, refl, unfold FoundIn in λ k. refl, unfold Left in (refl, λ k. ground arith))
target_found h i (sl ∷ out) rbmp v = elim (Bool-cases (sl.hash == h)) [
  | inl here ↦
      let (lbmp, e1, hl, hb) = full_bitmap sl.select v.0.2 in
      let (rbmp', e, left) = target_kept h (suc i) out (i, lbmp) (clear_octets rbmp lbmp) v.1 in
      (
        some (i, lbmp),
        rbmp',
        rw (here, e1) e,
        unfold FoundIn in ([], sl, out, refl, omega arith, ground arith, hl, hb),
        Left-here h sl out rbmp lbmp rbmp' here hb left,
      )
  | inr other ↦
      let (t, rbmp', e, found, left) = target_found h (suc i) out rbmp v.1 in
      (
        t,
        rbmp',
        rw other e,
        found_later h i sl out t other found,
        Left-skip h sl out rbmp rbmp' other left,
      )
]
