-- ===== src/Pcr/Selected.antt =====
-- ComputePCRDigest of policyutil/pcr_digest.go, of the values that AddValues of types.go has added.
use go_tpm.Base.{
  ℕ, ◌+◌, ◌≡◌, inl, inr, refl, sym, ap, ◌∙◌, arith, Bool, true, false, not, none, some,
  Option-cases, Bool-cases, Outcome-cases, List, [], ◌∷◌, ◌++◌, All, ◌==◌, ok, err, panic,
  >>=-eq-ok,
}
use mathlib.Core.Path.{subst}
use go_tpm.Base.Int.{ℤ, pos, negsuc, eq_ℤ, eq_ℤ-refl}
use go_tpm.Base.Maps.{find, insert, find-insert_same, find-insert_other, find-insert_kept}
use go_tpm.Mu.Bytes.{Bytes}
use go_tpm.Names.Algorithm.{is_valid_algorithm}
use go_tpm.Pcr.Bitmap.{Bitmap, PcrSelect, to_pcrs, to_bitmap, has_pcr}
use go_tpm.Pcr.Bits.{InRange, has_pcr-to_pcrs, bitmap_has-to_bitmap, to_bitmap_ok}
use go_tpm.Pcr.Sets.{full_bitmap}
use go_tpm.Pcr.Wire.{to_pcrs-InRange}
use go_tpm.Pcr.Selection.{Selection}
use go_tpm.Pcr.Values.{
  Bank, PcrValues, invalid_digest_size, invalid_digest_algorithm, invalid_selection, bank_of,
  in_bank, digest_in, ensure_bank, or_empty, store, has_size, Added, add_each, add_from, add_values,
  digests_of, selected_digests, compute_pcr_digest,
}
use go_tpm.Pcr.Banks.{==-equal, ==-refl, eq_ℤ-equal, from_in_bank}

abbrev pub Has : PcrValues → ℕ → ℤ → Type 0
Has v h i = (d : Bytes) × (digest_in h i v ≡ some d)

abbrev pub HasBank : PcrValues → ℕ → Type 0
HasBank v h = (b : Bank) × (bank_of h v ≡ some b)

-- What is in the map stays there.
abbrev pub Keeps : PcrValues → PcrValues → Type 0
Keeps v w = ((j : ℕ) (k : ℤ) → Has v j k → Has w j k) × ((j : ℕ) → HasBank v j → HasBank w j)

store-Has : (h : ℕ) (i : ℤ) (d : Bytes) (v : PcrValues) → Has (store h i d v) h i
store-Has h i d v =
    let new : Bank = insert eq_ℤ i d (or_empty (bank_of h v)) in
    let there : bank_of h (store h i d v) ≡ some new =
      find-insert_same ◌==◌ ==-equal ==-refl h new v in
    (
      d,
      ap (in_bank i) there
          ∙ find-insert_same eq_ℤ eq_ℤ-equal eq_ℤ-refl i d (or_empty (bank_of h v)),
    )

store-Keeps : (h : ℕ) (i : ℤ) (d : Bytes) (v : PcrValues) → Keeps v (store h i d v)
store-Keeps h i d v =
    let new : Bank = insert eq_ℤ i d (or_empty (bank_of h v)) in
    (
      λ j k has. elim (Bool-cases (j == h)) [
        | inl here ↦
            let same : j ≡ h = ==-equal j h here in
            let before : find eq_ℤ k (or_empty (bank_of h v)) ≡ some has.0 =
              from_in_bank k (bank_of h v) has.0 (rw (sym same) has.1) in
            let (x, after) =
              find-insert_kept eq_ℤ eq_ℤ-equal eq_ℤ-refl i k d has.0 (or_empty (bank_of h v))
                before in
            let there : bank_of h (store h i d v) ≡ some new =
              find-insert_same ◌==◌ ==-equal ==-refl h new v in
            (x, rw same (ap (in_bank k) there ∙ after))
        | inr away ↦
            (has.0, ap (in_bank k) (find-insert_other ◌==◌ ==-equal ==-refl h j new v away) ∙ has.1)
      ],
      λ j has. find-insert_kept ◌==◌ ==-equal ==-refl h j new has.0 v has.1,
    )

ensure_bank-HasBank :
    (h : ℕ) (v : PcrValues) → HasBank (ensure_bank h v) h × Keeps v (ensure_bank h v)
ensure_bank-HasBank h v = elim (Option-cases (bank_of h v)) [
  | inl no_bank ↦
      let same : ensure_bank h v ≡ insert ◌==◌ h [] v = rw (ensure_bank, no_bank) refl in
      rw same (
        ([], find-insert_same ◌==◌ ==-equal ==-refl h [] v),
        (
          λ j k has. elim (Bool-cases (j == h)) [
            | inl here ↦
                let bad : none ≡ some has.0 =
                  ap (in_bank k) (sym (ap (λ x. bank_of x v) (==-equal j h here) ∙ no_bank))
                  ∙ has.1 in
                cc
            | inr away ↦ (
              has.0,
              ap (in_bank k) (find-insert_other ◌==◌ ==-equal ==-refl h j [] v away) ∙ has.1,
            )
          ],
          λ j has. find-insert_kept ◌==◌ ==-equal ==-refl h j [] has.0 v has.1,
        ),
      )
  | inr (b, eq) ↦
      let same : ensure_bank h v ≡ v = rw (ensure_bank, eq) refl in
      rw same ((b, eq), ((λ j k has. has), (λ j has. has)))
]

Keeps-trans : (u v w : PcrValues) → Keeps u v → Keeps v w → Keeps u w
Keeps-trans u v w (f, g) (f', g') = (λ j k has. f' j k (f j k has), λ j has. g' j (g j has))

-- A map that has a digest for each of these PCRs, and all that another map has.
abbrev Adds : PcrValues → ℕ → PcrSelect → PcrValues → Type 0
Adds v h sel w = All (Has w h) sel × Keeps v w

add_each-Has :
    (h : ℕ) (sel : PcrSelect) (ds : List Bytes) (v : PcrValues) (n : ℕ) (r : List Bytes × ℕ)
    → (add_each h sel ds v n).1 ≡ ok r
    → Adds v h sel (add_each h sel ds v n).0
unfolding add_each
add_each-Has h [] ds v n r e = (tt, ((λ j k has. has), (λ j has. has)))
add_each-Has h (i ∷ sel) [] v n r e = cc
add_each-Has h (i ∷ sel) (d ∷ ds) v n r e = elim (Outcome-cases (has_size h d)) [
  | inr (inr panics) ↦ (let bad : panic ≡ ok r = rw (add_each, panics) at e in cc)
  | inr (inl (x, eq)) ↦ (let bad : err x ≡ ok r = rw (add_each, eq) at e in cc)
  | inl (false, eq) ↦ (let bad : err invalid_digest_size ≡ ok r = rw (add_each, eq) at e in cc)
  | inl (true, eq) ↦
      let rest : Added = add_each h sel ds (store h i d v) (n + 1) in
      let same : add_each h (i ∷ sel) (d ∷ ds) v n ≡ rest = rw (add_each, eq) refl in
      let (all, keeps) =
        add_each-Has h sel ds (store h i d v) (n + 1) r (ap (λ x. x.1) (sym same) ∙ e) in
      subst (λ x. Adds v h (i ∷ sel) x.0) (sym same)
        (
          (keeps.0 h i (store-Has h i d v), all),
          Keeps-trans v (store h i d v) rest.0 (store-Keeps h i d v) keeps,
        )
]

All-has_pcr :
    (w : PcrValues) (h : ℕ) (sel : PcrSelect)
    → All (Has w h) sel
    → (k : ℕ) → has_pcr k sel ≡ true
    → Has w h (pos k)
All-has_pcr w h [] all k e = cc
All-has_pcr w h (i ∷ sel) (first, all) k e = elim (Bool-cases (eq_ℤ (pos k) i)) [
  | inl here ↦ rw (eq_ℤ-equal (pos k) i here) first
  | inr away ↦ All-has_pcr w h sel all k (rw away at e)
]

has_pcr-All :
    (w : PcrValues) (h : ℕ) (sel : PcrSelect)
    → All InRange sel
    → ((k : ℕ) → has_pcr k sel ≡ true → Has w h (pos k))
    → All (Has w h) sel
has_pcr-All w h [] valid has = tt
has_pcr-All w h (negsuc i ∷ sel) valid has = absurd valid.0
has_pcr-All w h (pos i ∷ sel) valid has =
    (has i (rw (==-refl i) refl), has_pcr-All w h sel valid.1 (λ k e. has k (ground arith)))

-- What ComputePCRDigest needs of a map for a selection.
abbrev Covers : PcrValues → Selection → Type 0
Covers w p =
    HasBank w p.hash
    × ((k : ℕ) → has_pcr k p.select ≡ true → Has w p.hash (pos k))
    × All InRange p.select

covers :
    (p : Selection) (bmp : Bitmap) (v w : PcrValues)
    → to_bitmap 0 p.select ≡ ok bmp
    → HasBank w p.hash
    → All (Has w p.hash) (to_pcrs bmp)
    → Covers w p
covers p bmp v w e bank all = (
  bank,
  λ k has.
      All-has_pcr w p.hash (to_pcrs bmp) all k
        (has_pcr-to_pcrs k bmp ∙ bitmap_has-to_bitmap k 0 p.select bmp e ∙ has),
  (to_bitmap_ok 0 p.select).0 (bmp, e),
)

digests_of-ok :
    (h : ℕ) (sel : PcrSelect) (w : PcrValues)
    → All (Has w h) sel
    → (xs : Bytes) × (digests_of h sel w ≡ ok xs)
unfolding digests_of
digests_of-ok h [] w all = ([], refl)
digests_of-ok h (i ∷ sel) w ((d, found), all) =
    let (xs, e) = digests_of-ok h sel w all in (d ++ xs, rw (digests_of, found, e) refl)

selected_digests-cons :
    (p : Selection) (pcrs : List Selection) (w : PcrValues) (b : Bank) (bmp : Bitmap)
    (xs ys : Bytes)
    → bank_of p.hash w ≡ some b
    → to_bitmap 255 p.select ≡ ok bmp
    → digests_of p.hash (to_pcrs bmp) w ≡ ok xs
    → selected_digests pcrs w ≡ ok ys
    → selected_digests (p ∷ pcrs) w ≡ ok (xs ++ ys)
unfolding selected_digests
selected_digests-cons p pcrs w b bmp xs ys bank e e1 e2 =
    rw (selected_digests, bank, e, e1, e2) refl

selected_digests-ok :
    (pcrs : List Selection) (w : PcrValues)
    → All (Covers w) pcrs
    → (xs : Bytes) × (selected_digests pcrs w ≡ ok xs)
unfolding selected_digests
selected_digests-ok [] w all = ([], refl)
selected_digests-ok (p ∷ pcrs) w (((b, bank), has, valid), all) =
    let (bmp, e, long, bits) = full_bitmap p.select valid in
    let (xs, e1) = digests_of-ok p.hash (to_pcrs bmp) w (
      has_pcr-All w p.hash (to_pcrs bmp) (to_pcrs-InRange bmp (omega (arith, long)))
        (λ k h. has k (sym (bits k) ∙ (sym (has_pcr-to_pcrs k bmp) ∙ h)))) in
    let (ys, e2) = selected_digests-ok pcrs w all in
    (xs ++ ys, selected_digests-cons p pcrs w b bmp xs ys bank e e1 e2)

Has-kept :
    (v w : PcrValues) (h : ℕ) (sel : PcrSelect) → Keeps v w → All (Has v h) sel → All (Has w h) sel
Has-kept v w h [] keeps all = tt
Has-kept v w h (i ∷ sel) keeps (has, all) = (keeps.0 h i has, Has-kept v w h sel keeps all)

add_from-Covers :
    (pcrs : List Selection) (ds : List Bytes) (v : PcrValues) (n : ℕ) (r : List Bytes × ℕ)
    → (add_from pcrs ds v n).1 ≡ ok r
    → All (Covers (add_from pcrs ds v n).0) pcrs × Keeps v (add_from pcrs ds v n).0
unfolding add_from add_each
add_from-Covers [] ds v n r e = (tt, ((λ j k has. has), (λ j has. has)))
add_from-Covers (p ∷ pcrs) ds v n r e = elim (Bool-cases (not (is_valid_algorithm p.hash))) [
  | inl bad ↦ (let no : err invalid_digest_algorithm ≡ ok r = rw (add_from, bad) at e in cc)
  | inr valid ↦ elim (Outcome-cases (to_bitmap 0 p.select)) [
    | inr (inr panics) ↦ (let no : panic ≡ ok r = rw (add_from, valid, panics) at e in cc)
    | inr (inl (x, eq)) ↦
        (let no : err (invalid_selection x) ≡ ok r = rw (add_from, valid, eq) at e in cc)
    | inl (bmp, eq) ↦
        let v1 = ensure_bank p.hash v in
        let added : Added = add_each p.hash (to_pcrs bmp) ds v1 n in
        let (bank, keeps0) = ensure_bank-HasBank p.hash v in
        elim (Outcome-cases added.1) [
          | inr (inr panics) ↦
              let gone : add_from (p ∷ pcrs) ds v n ≡ added =
                rw (add_from, valid, eq, panics) refl in
              (let no : panic ≡ ok r = sym panics ∙ (ap (λ x. x.1) (sym gone) ∙ e) in cc)
          | inr (inl (x, failed)) ↦
              let gone : add_from (p ∷ pcrs) ds v n ≡ added =
                rw (add_from, valid, eq, failed) refl in
              (let no : err x ≡ ok r = sym failed ∙ (ap (λ y. y.1) (sym gone) ∙ e) in cc)
          | inl (r1, done) ↦
              let rest : Added = add_from pcrs r1.0 added.0 r1.1 in
              let same : add_from (p ∷ pcrs) ds v n ≡ rest = rw (add_from, valid, eq, done) refl in
              let (all, keeps1) = add_each-Has p.hash (to_pcrs bmp) ds v1 n r1 done in
              let (covered, keeps2) =
                add_from-Covers pcrs r1.0 added.0 r1.1 r (ap (λ x. x.1) (sym same) ∙ e) in
              subst (λ x. All (Covers x.0) (p ∷ pcrs) × Keeps v x.0) (sym same)
                (
                  (
                    covers p bmp v rest.0 eq (keeps2.1 p.hash (keeps1.1 p.hash bank))
                        (Has-kept added.0 rest.0 p.hash (to_pcrs bmp) keeps2 all),
                    covered,
                  ),
                  Keeps-trans v v1 rest.0 keeps0 (Keeps-trans v1 added.0 rest.0 keeps1 keeps2),
                )
        ]
  ]
]

-- When AddValues takes the digests for a list of selections without an error, ComputePCRDigest
-- computes a digest of the same selections from the values that are in the map then, for an
-- algorithm that is linked in.
pub compute_pcr_digest-add_values :
    (available : ℕ → Bool) (hash : ℕ → Bytes → Bytes) (alg : ℕ) (pcrs : List Selection)
    (ds : List Bytes) (v : PcrValues) (n : ℕ)
    → (add_values pcrs ds v).1 ≡ ok n
    → available alg ≡ true
    → (digest : Bytes) × (compute_pcr_digest available hash alg pcrs (add_values pcrs ds v).0
        ≡ ok digest)
unfolding add_values compute_pcr_digest
compute_pcr_digest-add_values available hash alg pcrs ds v n e linked =
    let (r, done, _) = >>=-eq-ok (add_from pcrs ds v 0).1 _ e in
    let (all, _) = add_from-Covers pcrs ds v 0 r done in
    let (xs, found) = selected_digests-ok pcrs (add_from pcrs ds v 0).0 all in
    (hash alg xs, rw (linked, found) refl)
