-- ===== src/Pcr/Remove.antt =====
-- What the loops of Remove leave selected.
use go_tpm.Base.{
  ℕ, ◌≤◌, false, not, ◌&&◌, List, [], ◌∷◌, ◌≡◌, refl, arith, length, All, ◌==◌, Bool-cases, inl,
  inr, ok, ◌>>=◌,
}
use go_tpm.Mu.Marshal.{max_list_length}
use go_tpm.Pcr.Bitmap.{Bitmap, to_pcrs, has_pcr, bitmap_has}
use go_tpm.Pcr.Bits.{InRange, has_pcr-to_pcrs}
use go_tpm.Pcr.Wire.{IsSelection, to_pcrs-InRange}
use go_tpm.Pcr.Sets.{bitmap_has-clear, length-clear, full_bitmap}
use go_tpm.Pcr.Copy.{copy_selections-Copies, Copies-selected, Copies-IsSelection}
use go_tpm.Pcr.Selection.{Selection, copy_selections, selected}
use go_tpm.Pcr.Lists.{clear_octets, remove_from, remove_each}

-- One selection of bank h, without the PCRs of a bitmap.
cleared :
    (h : ℕ) (rbmp : Bitmap) (sl : Selection) (lbmp : Bitmap)
    → length lbmp ≡ 255
    → ((k : ℕ) → bitmap_has k lbmp ≡ has_pcr k sl.select)
    → All InRange (to_pcrs (clear_octets lbmp rbmp))
      × ((k : ℕ)
          → has_pcr k (to_pcrs (clear_octets lbmp rbmp))
            ≡ (has_pcr k sl.select && not (bitmap_has k rbmp)))
cleared h rbmp sl lbmp hl hb = (
  to_pcrs-InRange (clear_octets lbmp rbmp) (omega (arith, length-clear lbmp rbmp, hl)),
  λ k. rw (has_pcr-to_pcrs, bitmap_has-clear, hb) refl,
)

-- The PCRs of a bitmap are taken out of the selections of one bank, and of no other.
remove_from-selected :
    (h : ℕ) (rbmp : Bitmap) (out : List Selection)
    → All IsSelection out
    → (out' : List Selection) × (remove_from h rbmp out ≡ ok out')
      × All IsSelection out'
      × ((h' k : ℕ)
          → selected h' k out' ≡ (selected h' k out && not ((h == h') && bitmap_has k rbmp)))
unfolding remove_from
remove_from-selected h rbmp [] v = ([], refl, tt, λ h' k. refl)
remove_from-selected h rbmp (sl ∷ out) v =
    let (out', e, v', same) = remove_from-selected h rbmp out v.1 in
    elim (Bool-cases (sl.hash == h)) [
      | inl here ↦
          let (lbmp, e1, hl, hb) = full_bitmap sl.select v.0.2 in
          let (ranges, pcrs) = cleared h rbmp sl lbmp hl hb in
          let s' = record sl { select = to_pcrs (clear_octets lbmp rbmp) } in
          (
            s' ∷ out',
            rw (here, e1, e) refl,
            ((v.0.0, v.0.1, ranges), v'),
            λ h' k.
                let hash : sl.hash ≡ h = ground arith in
                rw (pcrs k, same h' k, hash) (ground arith),
          )
      | inr other ↦ (
        sl ∷ out',
        rw (other, e) refl,
        (v.0, v'),
        λ h' k. rw (same h' k) (elim (Bool-cases (h == h')) [
          | inl at ↦
              let apart : (sl.hash == h') ≡ false = ground arith in rw (at, apart) (ground arith)
          | inr off ↦ rw off (ground arith)
        ]),
      )
    ]

remove_each-selected :
    (r out : List Selection)
    → All IsSelection r
    → All IsSelection out
    → (out' : List Selection) × (remove_each r out ≡ ok out')
      × All IsSelection out'
      × ((h k : ℕ) → selected h k out' ≡ (selected h k out && not (selected h k r)))
unfolding remove_each
remove_each-selected [] out vr v = (out, refl, v, λ h k. ground arith)
remove_each-selected (sr ∷ r) out vr v =
    let (rbmp, e1, hl, hb) = full_bitmap sr.select vr.0.2 in
    let (mid, e2, vm, m) = remove_from-selected sr.hash rbmp out v in
    let (out', e3, v', s) = remove_each-selected r mid vr.1 vm in
    (out', rw (e1, e2, e3) refl, v', λ h k. rw (s h k, m h k, hb k) (ground arith))

-- For lists that may be marshalled, the loops of Remove succeed, and a PCR of a bank is selected
-- afterwards exactly if the first list selects it and the second does not. The last loop, which
-- drops the selections that are now empty, is not part of this.
pub remove_each-copy_selections :
    (l r : List Selection)
    → All IsSelection l
    → All IsSelection r
    → length l ≤ max_list_length
    → (out : List Selection) × ((copy_selections l >>= λ copy. remove_each r copy) ≡ ok out)
      × ((h k : ℕ) → selected h k out ≡ (selected h k l && not (selected h k r)))
remove_each-copy_selections l r vl vr hl =
    let (copy, e1, c) = copy_selections-Copies l vl hl in
    let (out, e2, v, s) = remove_each-selected r copy vr (Copies-IsSelection l copy c) in
    (out, rw (e1, e2) refl, λ h k. rw (s h k, Copies-selected h k l copy c) refl)
