-- ===== src/Policy/Nodes.antt =====
-- The nodes of one level of a policyOrTree: where a digest stands, and how many nodes there are.
use go_tpm.Base.{
  ℕ, zero, suc, ◌+◌, ◌-◌, ◌/◌, ◌≤◌, ◌<◌, ◌≡◌, refl, ap, ◌∙◌, some, List, [], ◌∷◌, map, arith,
  length, length-take, length-drop, take, drop, get_elem?, ltb, All, Bool-cases, inl, inr,
}
use go_tpm.Mu.Bytes.{Bytes}
use go_tpm.Policy.OrTree.{Node, ensure_sufficient_or_digests, nodes_of}

-- A digest is among those of a node.
abbrev pub Holds : Bytes → Node → Type 0
Holds d node = (j : ℕ) × (get_elem? node j ≡ some d)

get_elem?-take : (n i : ℕ) (ds : List Bytes) → i < n → get_elem? (take n ds) i ≡ get_elem? ds i
get_elem?-take zero i ds h = absurd (omega arith)
get_elem?-take (suc n) i [] h = refl
get_elem?-take (suc n) zero (d ∷ ds) h = refl
get_elem?-take (suc n) (suc i) (d ∷ ds) h = get_elem?-take n i ds (omega arith)

get_elem?-drop :
    (n i : ℕ) (ds : List Bytes) → n ≤ i → get_elem? (drop n ds) (i - n) ≡ get_elem? ds i
get_elem?-drop zero i ds h = ap (λ j. get_elem? ds j) (omega arith)
get_elem?-drop (suc n) zero ds h = absurd (omega arith)
get_elem?-drop (suc n) (suc i) [] h = refl
get_elem?-drop (suc n) (suc i) (d ∷ ds) h =
    ap (λ j. get_elem? (drop n ds) j) (omega arith) ∙ get_elem?-drop n i ds (omega arith)

ensure-Holds :
    (i : ℕ) (ds : List Bytes) (d : Bytes)
    → get_elem? ds i ≡ some d
    → Holds d (ensure_sufficient_or_digests ds)
ensure-Holds i [] d e = (i, e)
ensure-Holds zero (x ∷ []) d e = (0, e)
ensure-Holds (suc i) (x ∷ []) d e = cc
ensure-Holds i (x ∷ y ∷ ds) d e = (i, e)

pub get_elem?-map :
    {A B : Type 0} (f : A → B) (xs : List A) (i : ℕ) (x : A)
    → get_elem? xs i ≡ some x
    → get_elem? (map f xs) i ≡ some (f x)
get_elem?-map f [] i x e = cc
get_elem?-map f (y ∷ xs) zero x e = cc
get_elem?-map f (y ∷ xs) (suc i) x e = get_elem?-map f xs i x e

-- Digest i stands in node i / 8.
pub nodes_of-Holds :
    (fuel i : ℕ) (ds : List Bytes) (d : Bytes)
    → length ds ≤ fuel
    → get_elem? ds i ≡ some d
    → (node : Node) × (get_elem? (nodes_of fuel ds) (i / 8) ≡ some node) × Holds d node
unfolding nodes_of
nodes_of-Holds fuel i [] d h e = cc
nodes_of-Holds zero i (x ∷ ds) d h e = absurd (omega arith)
nodes_of-Holds (suc fuel) i (x ∷ ds) d h e = elim (Bool-cases (ltb i 8)) [
  | inl first ↦
      let low : i / 8 ≡ 0 = ground arith in
      let here : get_elem? (take 8 (x ∷ ds)) i ≡ some d =
        get_elem?-take 8 i (x ∷ ds) (ground arith) ∙ e in
      (
        ensure_sufficient_or_digests (take 8 (x ∷ ds)),
        rw low refl,
        ensure-Holds i (take 8 (x ∷ ds)) d here,
      )
  | inr later ↦
      let big : 8 ≤ i = ground arith in
      let high : i / 8 ≡ suc ((i - 8) / 8) = omega arith in
      let shorter : length (drop 8 (x ∷ ds)) ≤ fuel = omega (arith, length-drop 8 (x ∷ ds)) in
      let (node, at, held) =
        nodes_of-Holds fuel (i - 8) (drop 8 (x ∷ ds)) d shorter
          (get_elem?-drop 8 i (x ∷ ds) big ∙ e) in
      (node, rw high at, held)
]

-- The number of nodes.
pub length-nodes_of :
    (fuel : ℕ) (ds : List Bytes)
    → length ds ≤ fuel
    → length (nodes_of fuel ds) ≡ (length ds + 7) / 8
unfolding nodes_of
length-nodes_of zero [] h = refl
length-nodes_of zero (d ∷ ds) h = absurd (omega arith)
length-nodes_of (suc fuel) [] h = refl
length-nodes_of (suc fuel) (d ∷ ds) h =
    let dropped = length-drop 8 (d ∷ ds) in
    omega (arith, dropped, length-nodes_of fuel (drop 8 (d ∷ ds)) (omega (arith, dropped)))

pub length-map : {A B : Type 0} (f : A → B) (xs : List A) → length (map f xs) ≡ length xs
length-map f [] = refl
length-map f (x ∷ xs) = ap suc (length-map f xs)

-- What TPM2_PolicyOR accepts: 2 to 8 digests.
abbrev pub IsOrNode : Node → Type 0
IsOrNode node = (2 ≤ length node) × (length node ≤ 8)

length-ensure :
    (ds : List Bytes) → 1 ≤ length ds → length ds ≤ 8 → IsOrNode (ensure_sufficient_or_digests ds)
length-ensure [] h1 h8 = absurd (omega arith)
length-ensure (d ∷ []) h1 h8 = omega arith
length-ensure (d ∷ d' ∷ ds) h1 h8 = omega arith

pub nodes_of-IsOrNode : (fuel : ℕ) (ds : List Bytes) → All IsOrNode (nodes_of fuel ds)
unfolding nodes_of
nodes_of-IsOrNode zero ds = tt
nodes_of-IsOrNode (suc fuel) [] = tt
nodes_of-IsOrNode (suc fuel) (d ∷ ds) =
    let taken = length-take 8 (d ∷ ds) in
    (
      length-ensure (take 8 (d ∷ ds)) (omega (arith, taken)) (omega (arith, taken)),
      nodes_of-IsOrNode fuel (drop 8 (d ∷ ds)),
    )
