-- ===== src/Pcr/ValuesExamples.antt =====
-- The theorems on PCRValues, at two PCRs of the SHA-256 bank.
use go_tpm.Base.{ℕ, ◌≡◌, refl, Bool, true, List, [], ◌∷◌, replicate, ok}
use go_tpm.Base.Int.{ℤ, pos}
use go_tpm.Mu.Bytes.{Bytes}
use go_tpm.Names.Algorithm.{algorithm_sha256}
use go_tpm.Pcr.Bitmap.{to_bitmap, set_pcrs, set_pcr, or_octet, grow, to_pcrs_from, octet_pcrs}
use go_tpm.Pcr.Selection.{Selection}
use go_tpm.Pcr.Values.{PcrValues, add_values, add_from, add_each, set_value, compute_pcr_digest}
use go_tpm.Pcr.Banks.{AreSized, add_values-AreSized}
use go_tpm.Pcr.Selected.{compute_pcr_digest-add_values}

abbrev first_digest : Bytes
first_digest = replicate 32 1

abbrev second_digest : Bytes
second_digest = replicate 32 2

abbrev seventh_and_first : Selection
seventh_and_first = record {
  hash = algorithm_sha256;
  select = pos 7 ∷ pos 0 ∷ [];
  size_of_select = 3;
}

abbrev no_values : PcrValues
no_values = []

no_values-AreSized : AreSized no_values
no_values-AreSized h i d e = cc

two_added :
    (add_values (seventh_and_first ∷ []) (first_digest ∷ second_digest ∷ []) no_values).1 ≡ ok 2
unfolding add_values add_from add_each to_bitmap set_pcrs set_pcr or_octet grow to_pcrs_from
    octet_pcrs
two_added = refl

abbrev every_algorithm : ℕ → Bool
every_algorithm a = true

abbrev same_bytes : ℕ → Bytes → Bytes
same_bytes alg xs = xs

add_values-AreSized_example :
    ((pcrs : List Selection) (ds : List Bytes) → AreSized (add_values pcrs ds no_values).0)
    × ((h : ℕ) (i : ℤ) (d : Bytes) → AreSized (set_value h i d no_values).0)
add_values-AreSized_example = add_values-AreSized no_values no_values-AreSized

compute_pcr_digest-add_values_example :
    (digest : Bytes) × (compute_pcr_digest every_algorithm same_bytes algorithm_sha256
        (seventh_and_first ∷ [])
        (add_values (seventh_and_first ∷ []) (first_digest ∷ second_digest ∷ []) no_values).0
      ≡ ok digest)
compute_pcr_digest-add_values_example =
    compute_pcr_digest-add_values every_algorithm same_bytes algorithm_sha256
      (seventh_and_first ∷ []) (first_digest ∷ second_digest ∷ []) no_values 2 two_added refl
