-- ===== src/Base/Maps.antt =====
-- Go's maps, as association lists in which a key stands once.
use mathlib.Core.Path.{◌≡◌, refl, sym}
use mathlib.Core.Logic.{◌⊎◌, inl, inr}
use mathlib.Core.Bool.{Bool, true, false}
use mathlib.Core.Option.{Option, none, some}
use mathlib.Core.List.{List, [], ◌∷◌}
use go_tpm.Base.Tests.{if◌then◌else◌, Bool-cases}

module _ {K V : Type 0} (same : K → K → Bool) where
  -- `m[k]`
  abbrev pub find : K → List (K × V) → Option V
  find k [] = none
  find k ((j, v) ∷ m) = if same k j then some v else find k m

  -- `m[k] = v`
  abbrev pub insert : K → V → List (K × V) → List (K × V)
  insert k v [] = (k, v) ∷ []
  insert k v ((j, w) ∷ m) = if same k j then (k, v) ∷ m else (j, w) ∷ insert k v m

  module _ (equal : (a b : K) → same a b ≡ true → a ≡ b) (itself : (a : K) → same a a ≡ true) where
    pub find-insert_same : (k : K) (v : V) (m : List (K × V)) → find k (insert k v m) ≡ some v
    find-insert_same k v [] = rw (itself k) refl
    find-insert_same k v ((j, w) ∷ m) = elim (Bool-cases (same k j)) [
      | inl eq ↦ rw (eq, itself k) refl
      | inr ne ↦ rw (ne, ne) (find-insert_same k v m)
    ]

    -- What is found after an insertion is what was inserted, or was there before.
    pub find-insert :
        (k i : K) (v w : V) (m : List (K × V))
        → find i (insert k v m) ≡ some w
        → ((i ≡ k) × (w ≡ v)) ⊎ (find i m ≡ some w)
    find-insert k i v w [] e = elim (Bool-cases (same i k)) [
      | inl eq ↦ (let h : some v ≡ some w = rw eq at e in inl (equal i k eq, cc))
      | inr ne ↦ (let h : none ≡ some w = rw ne at e in cc)
    ]
    find-insert k i v w ((j, x) ∷ m) e = elim (Bool-cases (same k j)) [
      | inl eq ↦
          let stored : (if same i k then some v else find i m) ≡ some w = rw eq at e in
          elim (Bool-cases (same i k)) [
            | inl here ↦ (let h : some v ≡ some w = rw here at stored in inl (equal i k here, cc))
            | inr away ↦
                let off : same i j ≡ false = rw (sym (equal k j eq)) away in
                inr (rw off (rw away at stored))
          ]
      | inr ne ↦
          let stored : (if same i j then some x else find i (insert k v m)) ≡ some w = rw ne at e in
          elim (Bool-cases (same i j)) [
            | inl here ↦ inr (rw here (rw here at stored))
            | inr away ↦ elim (find-insert k i v w m (rw away at stored)) [
              | inl new ↦ inl new
              | inr old ↦ inr (rw away old)
            ]
          ]
    ]

    -- A key that was there is there after an insertion.
    pub find-insert_kept :
        (k i : K) (v w : V) (m : List (K × V))
        → find i m ≡ some w
        → (x : V) × (find i (insert k v m) ≡ some x)
    find-insert_kept k i v w [] e = cc
    find-insert_kept k i v w ((j, x) ∷ m) e = elim (Bool-cases (same k j)) [
      | inl eq ↦ elim (Bool-cases (same i k)) [
        | inl here ↦ (v, rw (eq, here) refl)
        | inr away ↦
            let off : same i j ≡ false = rw (sym (equal k j eq)) away in
            (w, rw (eq, away) (rw off at e))
      ]
      | inr ne ↦ elim (Bool-cases (same i j)) [
        | inl here ↦ (x, rw (ne, here) refl)
        | inr away ↦
            let (y, found) = find-insert_kept k i v w m (rw away at e) in (y, rw (ne, away) found)
      ]
    ]

    -- An insertion leaves the other keys.
    pub find-insert_other :
        (k i : K) (v : V) (m : List (K × V)) → same i k ≡ false → find i (insert k v m) ≡ find i m
    find-insert_other k i v [] away = rw away refl
    find-insert_other k i v ((j, x) ∷ m) away = elim (Bool-cases (same k j)) [
      | inl eq ↦
          let off : same i j ≡ false = rw (sym (equal k j eq)) away in rw (eq, away, off) refl
      | inr ne ↦ elim (Bool-cases (same i j)) [
        | inl here ↦ rw (ne, here) refl
        | inr off ↦ rw (ne, off) (find-insert_other k i v m away)
      ]
    ]
