-- ===== src/Pcr/Banks.antt =====
-- What PCRValues of types.go holds after its operations.
use go_tpm.Base.{
  ℕ, ◌+◌, ◌≡◌, ◌⊎◌, inl, inr, refl, sym, ap, ◌∙◌, arith, true, false, not, Option, none, some,
  Option-cases, Bool-cases, Outcome-cases, ==_iff, List, [], ◌∷◌, length, ◌==◌, ok,
}
use go_tpm.Base.Int.{ℤ, pos, negsuc, eq_ℤ, eq_ℤ-refl}
use go_tpm.Base.Maps.{find, insert, find-insert}
use go_tpm.Mu.Bytes.{Bytes}
use go_tpm.Names.Algorithm.{is_valid_algorithm, algorithm_size}
use go_tpm.Pcr.Bitmap.{PcrSelect, to_pcrs, to_bitmap}
use go_tpm.Pcr.Selection.{Selection}
use go_tpm.Pcr.Values.{
  Bank, PcrValues, bank_of, in_bank, digest_in, ensure_bank, or_empty, store, has_size, Added,
  add_each, add_from, add_values, set_value,
}

pub ==-equal : (a b : ℕ) → (a == b) ≡ true → a ≡ b
==-equal a b e = (==_iff a b).0 e

pub ==-refl : (a : ℕ) → (a == a) ≡ true
==-refl a = ground arith

pub eq_ℤ-equal : (i j : ℤ) → eq_ℤ i j ≡ true → i ≡ j
eq_ℤ-equal (pos n) (pos m) e = ap pos (==-equal n m e)
eq_ℤ-equal (negsuc n) (negsuc m) e = ap negsuc (==-equal n m e)
eq_ℤ-equal (pos n) (negsuc m) e = cc
eq_ℤ-equal (negsuc n) (pos m) e = cc

in_or_empty :
    (i : ℤ) (o : Option Bank) (d : Bytes) → find eq_ℤ i (or_empty o) ≡ some d → in_bank i o ≡ some d
in_or_empty i none d e = cc
in_or_empty i (some b) d e = e

pub from_in_bank :
    (i : ℤ) (o : Option Bank) (d : Bytes) → in_bank i o ≡ some d → find eq_ℤ i (or_empty o) ≡ some d
from_in_bank i none d e = cc
from_in_bank i (some b) d e = e

-- A value that is found after one was stored is that one, or was there before.
pub digest_in-store :
    (h j : ℕ) (i k : ℤ) (d e : Bytes) (v : PcrValues)
    → digest_in j k (store h i d v) ≡ some e
    → ((j ≡ h) × (k ≡ i) × (e ≡ d)) ⊎ (digest_in j k v ≡ some e)
digest_in-store h j i k d e v found =
    let new : Bank = insert eq_ℤ i d (or_empty (bank_of h v)) in
    elim (Option-cases (bank_of j (store h i d v))) [
      | inl no_bank ↦ (let bad : none ≡ some e = rw no_bank at found in cc)
      | inr (b, eq) ↦
          let in_b : find eq_ℤ k b ≡ some e = rw eq at found in
          elim (find-insert ◌==◌ ==-equal ==-refl h j new b v eq) [
            | inl (same, is_new) ↦
                elim (find-insert eq_ℤ eq_ℤ-equal eq_ℤ-refl i k d e (or_empty (bank_of h v))
                  (rw is_new at in_b)) [
                    | inl (same_pcr, same_digest) ↦ inl (same, same_pcr, same_digest)
                    | inr before ↦ inr (rw same (in_or_empty k (bank_of h v) e before))
                  ]
            | inr old ↦ inr (rw old in_b)
          ]
    ]

-- Every digest has the size of its bank's algorithm.
abbrev pub AreSized : PcrValues → Type 0
AreSized v =
    (h : ℕ) (i : ℤ) (d : Bytes) → digest_in h i v ≡ some d → algorithm_size h ≡ some (length d)

has_size-fits : (h : ℕ) (d : Bytes) → has_size h d ≡ ok true → algorithm_size h ≡ some (length d)
has_size-fits h d e = ground arith

store-AreSized :
    (h : ℕ) (i : ℤ) (d : Bytes) (v : PcrValues)
    → algorithm_size h ≡ some (length d)
    → AreSized v
    → AreSized (store h i d v)
store-AreSized h i d v size sized j k e found = elim (digest_in-store h j i k d e v found) [
  | inl (same, _, is_new) ↦ rw (same, is_new) size
  | inr old ↦ sized j k e old
]

digest_in-insert_empty :
    (h j : ℕ) (k : ℤ) (e : Bytes) (v : PcrValues)
    → digest_in j k (insert ◌==◌ h [] v) ≡ some e
    → digest_in j k v ≡ some e
digest_in-insert_empty h j k e v found = elim (Option-cases (bank_of j (insert ◌==◌ h [] v))) [
  | inl no_bank ↦ (let bad : none ≡ some e = rw no_bank at found in cc)
  | inr (b, eq) ↦
      let in_b : find eq_ℤ k b ≡ some e = rw eq at found in
      elim (find-insert ◌==◌ ==-equal ==-refl h j [] b v eq) [
        | inl (_, is_new) ↦ (let bad : none ≡ some e = rw is_new at in_b in cc)
        | inr old ↦ rw old in_b
      ]
]

ensure_bank-AreSized : (h : ℕ) (v : PcrValues) → AreSized v → AreSized (ensure_bank h v)
ensure_bank-AreSized h v sized = elim (Option-cases (bank_of h v)) [
  | inl no_bank ↦
      let same : ensure_bank h v ≡ insert ◌==◌ h [] v = rw (ensure_bank, no_bank) refl in
      λ j k e found.
        sized j k e (digest_in-insert_empty h j k e v (ap (digest_in j k) (sym same) ∙ found))
  | inr (b, eq) ↦
      let same : ensure_bank h v ≡ v = rw (ensure_bank, eq) refl in
      λ j k e found. sized j k e (ap (digest_in j k) (sym same) ∙ found)
]

add_each-AreSized :
    (h : ℕ) (sel : PcrSelect) (ds : List Bytes) (v : PcrValues) (n : ℕ)
    → AreSized v
    → AreSized (add_each h sel ds v n).0
unfolding add_each
add_each-AreSized h [] ds v n sized = sized
add_each-AreSized h (i ∷ sel) [] v n sized = sized
add_each-AreSized h (i ∷ sel) (d ∷ ds) v n sized = elim (Outcome-cases (has_size h d)) [
  | inr (inr panics) ↦ rw (add_each, panics) sized
  | inr (inl (x, eq)) ↦ rw (add_each, eq) sized
  | inl (true, eq) ↦
      rw (add_each, eq)
        (add_each-AreSized h sel ds (store h i d v) (n + 1)
          (store-AreSized h i d v (has_size-fits h d eq) sized))
  | inl (false, eq) ↦ rw (add_each, eq) sized
]

add_from-AreSized :
    (pcrs : List Selection) (ds : List Bytes) (v : PcrValues) (n : ℕ)
    → AreSized v
    → AreSized (add_from pcrs ds v n).0
unfolding add_from
add_from-AreSized [] ds v n sized = sized
add_from-AreSized (p ∷ pcrs) ds v n sized = elim (Bool-cases (not (is_valid_algorithm p.hash))) [
  | inl bad ↦ rw bad sized
  | inr valid ↦ elim (Outcome-cases (to_bitmap 0 p.select)) [
    | inr (inr panics) ↦ rw (valid, panics) sized
    | inr (inl (x, eq)) ↦ rw (valid, eq) sized
    | inl (bmp, eq) ↦
        let added : Added = add_each p.hash (to_pcrs bmp) ds (ensure_bank p.hash v) n in
        let sized2 : AreSized added.0 =
          add_each-AreSized p.hash (to_pcrs bmp) ds (ensure_bank p.hash v) n
            (ensure_bank-AreSized p.hash v sized) in
        elim (Outcome-cases added.1) [
          | inr (inr panics) ↦ rw (valid, eq, panics) sized2
          | inr (inl (x, failed)) ↦ rw (valid, eq, failed) sized2
          | inl (r, done) ↦ rw (valid, eq, done) (add_from-AreSized pcrs r.0 added.0 r.1 sized2)
        ]
  ]
]

set_value-AreSized :
    (h : ℕ) (i : ℤ) (d : Bytes) (v : PcrValues) → AreSized v → AreSized (set_value h i d v).0
unfolding set_value
set_value-AreSized h i d v sized = elim (Bool-cases (not (is_valid_algorithm h))) [
  | inl bad ↦ rw (set_value, bad) sized
  | inr valid ↦ elim (Outcome-cases (to_bitmap 0 (i ∷ []))) [
    | inr (inr panics) ↦ rw (set_value, valid, panics) sized
    | inr (inl (x, eq)) ↦ rw (set_value, valid, eq) sized
    | inl (bmp, eq) ↦ elim (Outcome-cases (has_size h d)) [
      | inr (inr panics) ↦ rw (set_value, valid, eq, panics) sized
      | inr (inl (x, failed)) ↦ rw (set_value, valid, eq, failed) sized
      | inl (false, fit) ↦ rw (set_value, valid, eq, fit) sized
      | inl (true, fit) ↦
          rw (set_value, valid, eq, fit)
            (store-AreSized h i d (ensure_bank h v) (has_size-fits h d fit)
              (ensure_bank-AreSized h v sized))
    ]
  ]
]

-- When every digest in the map has the size of its bank's algorithm, this is so after AddValues and
-- after SetValue, also when they return an error.
pub add_values-AreSized :
    (v : PcrValues)
    → AreSized v
    → ((pcrs : List Selection) (ds : List Bytes) → AreSized (add_values pcrs ds v).0)
      × ((h : ℕ) (i : ℤ) (d : Bytes) → AreSized (set_value h i d v).0)
unfolding add_values
add_values-AreSized v sized =
    (λ pcrs ds. add_from-AreSized pcrs ds v 0 sized, λ h i d. set_value-AreSized h i d v sized)
