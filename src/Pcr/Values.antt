-- ===== src/Pcr/Values.antt =====
-- PCRValues of types.go and ComputePCRDigest of policyutil/pcr_digest.go.
use go_tpm.Base.{
  ℕ, ◌+◌, Bool, not, Option, none, some, List, [], ◌∷◌, ◌++◌, length, ◌==◌, if◌then◌else◌, Outcome,
  ok, err, panic, ◌>>=◌,
}
use go_tpm.Base.Int.{ℤ, eq_ℤ}
use go_tpm.Base.Maps.{find, insert}
use go_tpm.Mu.Bytes.{Bytes}
use go_tpm.Names.Algorithm.{is_valid_algorithm, algorithm_size}
use go_tpm.Pcr.Bitmap.{PcrSelect, PcrError, to_pcrs, to_bitmap}
use go_tpm.Pcr.Selection.{Selection}

abbrev pub Bank : Type 0
Bank = List (ℤ × Bytes)

abbrev pub PcrValues : Type 0
PcrValues = List (ℕ × Bank)

pub data ValuesError : Type 0 where
  invalid_digest_algorithm insufficient_digests invalid_digest_size invalid_algorithm : ValuesError
  invalid_pcr algorithm_not_available : ValuesError
  invalid_selection : PcrError → ValuesError
  no_bank : ℕ → ValuesError
  no_digest : ℤ → ℕ → ValuesError

-- `v[h]`
abbrev pub bank_of : ℕ → PcrValues → Option Bank
bank_of h v = find ◌==◌ h v

-- `v[h][i]`, for a bank that is there.
abbrev pub in_bank : ℤ → Option Bank → Option Bytes
in_bank i none = none
in_bank i (some bank) = find eq_ℤ i bank

abbrev pub digest_in : ℕ → ℤ → PcrValues → Option Bytes
digest_in h i v = in_bank i (bank_of h v)

-- `if _, ok := v[h]; !ok { v[h] = make(map[int]Digest) }`
abbrev pub ensure_bank : ℕ → PcrValues → PcrValues
ensure_bank h v = elim (bank_of h v) [ none ↦ insert ◌==◌ h [] v | some bank ↦ v ]

abbrev pub or_empty : Option Bank → Bank
or_empty none = []
or_empty (some bank) = bank

-- `v[h][i] = d`, for a bank that is there.
abbrev pub store : ℕ → ℤ → Bytes → PcrValues → PcrValues
store h i d v = insert ◌==◌ h (insert eq_ℤ i d (or_empty (bank_of h v))) v

abbrev pub has_size : ℕ → Bytes → Outcome ValuesError Bool
has_size h d = elim (algorithm_size h) [ none ↦ panic | some size ↦ ok (length d == size) ]

-- What AddValues leaves in the map, and what it returns: the digests that are left and the count.
abbrev pub Added : Type 0
Added = PcrValues × Outcome ValuesError (List Bytes × ℕ)

-- The inner loop of AddValues.
unfoldable pub add_each : ℕ → PcrSelect → List Bytes → PcrValues → ℕ → Added
add_each h [] ds v n = (v, ok (ds, n))
add_each h (i ∷ sel) [] v n = (v, err insufficient_digests)
add_each h (i ∷ sel) (d ∷ ds) v n =
    let next = add_each h sel ds (store h i d v) (n + 1) in
    elim (has_size h d) [
      | ok fits ↦ if not fits then (v, err invalid_digest_size) else next
      | err e ↦ (v, err e)
      | panic ↦ (v, panic)
    ]

-- AddValues, from a selection on.
unfoldable pub add_from : List Selection → List Bytes → PcrValues → ℕ → Added
add_from [] ds v n = (v, ok (ds, n))
add_from (p ∷ pcrs) ds v n =
    if not (is_valid_algorithm p.hash)
    then (v, err invalid_digest_algorithm)
    else elim (to_bitmap 0 p.select) [
      | ok bmp ↦
          let added = add_each p.hash (to_pcrs bmp) ds (ensure_bank p.hash v) n in
          elim added.1 [ ok r ↦ add_from pcrs r.0 added.0 r.1 | err e ↦ added | panic ↦ added ]
      | err e ↦ (v, err (invalid_selection e))
      | panic ↦ (v, panic)
    ]

-- AddValues
unfoldable pub add_values :
    List Selection → List Bytes → PcrValues → PcrValues × Outcome ValuesError ℕ
add_values pcrs ds v = let added = add_from pcrs ds v 0 in (added.0, (do r ← added.1; ok r.1))

-- SetValue
unfoldable pub set_value : ℕ → ℤ → Bytes → PcrValues → PcrValues × Outcome ValuesError (Unit {0})
set_value h i d v =
    let stored : PcrValues × Outcome ValuesError (Unit {0}) =
      (store h i d (ensure_bank h v), ok tt) in
    if not (is_valid_algorithm h) then (v, err invalid_algorithm) else elim (to_bitmap 0 (i ∷ [])) [
      | ok bmp ↦ elim (has_size h d) [
        | ok fits ↦ if not fits then (v, err invalid_digest_size) else stored
        | err e ↦ (v, err e)
        | panic ↦ (v, panic)
      ]
      | err e ↦ (v, err invalid_pcr)
      | panic ↦ (v, panic)
    ]

-- The inner loop of ComputePCRDigest: what is written to the digest.
unfoldable pub digests_of : ℕ → PcrSelect → PcrValues → Outcome ValuesError Bytes
digests_of h [] v = ok []
digests_of h (i ∷ sel) v = elim (digest_in h i v) [
  | none ↦ err (no_digest i h)
  | some d ↦ (do xs ← digests_of h sel v; ok (d ++ xs))
]

unfoldable pub selected_digests : List Selection → PcrValues → Outcome ValuesError Bytes
selected_digests [] v = ok []
selected_digests (s ∷ pcrs) v = elim (bank_of s.hash v) [
  | none ↦ err (no_bank s.hash)
  | some bank ↦ elim (to_bitmap 255 s.select) [
    | ok bmp ↦ (do
      xs ← digests_of s.hash (to_pcrs bmp) v
      ys ← selected_digests pcrs v
      ok (xs ++ ys))
    | err e ↦ err (invalid_selection e)
    | panic ↦ panic
  ]
]

-- ComputePCRDigest
unfoldable pub compute_pcr_digest :
    (ℕ → Bool) → (ℕ → Bytes → Bytes) → ℕ → List Selection → PcrValues → Outcome ValuesError Bytes
compute_pcr_digest available hash alg pcrs v =
    if not (available alg)
    then err algorithm_not_available
    else (do xs ← selected_digests pcrs v; ok (hash alg xs))
