-- ===== src/Policy/Branches.antt =====
-- The branches of a policyOrTree, and the digests that they lead to.
use go_tpm.Base.{
  ℕ, zero, suc, ◌/◌, ◌^◌, ◌≤◌, ◌≡◌, refl, sym, ap, false, Option, none, some, List, [], ◌∷◌, map,
  arith, length, get_elem?, ltb, ◌==◌, All, Bool-cases, inl, inr, ok, ◌>>=◌, >>=-eq-ok,
  ok-injective,
}
use mathlib.Core.Path.{subst}
use native.Mathlib.Nat.{pow-suc}
use go_tpm.Mu.Bytes.{Bytes}
use go_tpm.Policy.OrTree.{
  Node, Level, policy_or_max_digests, nodes_of, node_digest, levels_of, new_policy_or_tree,
  select_branch,
}
use go_tpm.Policy.Nodes.{
  Holds, IsOrNode, get_elem?-map, nodes_of-Holds, length-nodes_of, length-map, nodes_of-IsOrNode,
}

module _ (hash : ℕ → Bytes → Bytes) (size : ℕ → ℕ) (alg : ℕ) where
  -- The levels of a tree for the digests that start at `start`, up to the digest of its root.
  abbrev next : Level → List Bytes
  next level = map (node_digest hash size alg) level

  -- The PolicyOR assertions that lead from one digest to another: each node holds the digest that
  -- has been reached, and has 2 to 8 digests.
  abbrev pub Leads : Bytes → List Node → Bytes → Type 0
  Leads d [] root = d ≡ root
  Leads d (node ∷ nodes) root =
      Holds d node × IsOrNode node × Leads (node_digest hash size alg node) nodes root

  -- The digest of the single node of the last level.
  abbrev pub root_digest : List Level → Option Bytes
  root_digest [] = none
  root_digest ((node ∷ []) ∷ []) = some (node_digest hash size alg node)
  root_digest (level ∷ []) = none
  root_digest (level ∷ level' ∷ levels) = root_digest (level' ∷ levels)

  single : (level : Level) → length level ≡ 1 → (node : Node) × (level ≡ node ∷ [])
  single [] h = absurd (omega arith)
  single (node ∷ []) h = (node, refl)
  single (node ∷ node' ∷ level) h = absurd (omega arith)

  -- With fuel n, at least 1, the loop ends for 1 to 8 ^ n digests: it makes a tree of at most n
  -- levels.
  pub levels_of-ok :
      (fuel : ℕ) (ds : List Bytes)
      → 1 ≤ length ds
      → length ds ≤ 8 ^ fuel
      → 1 ≤ fuel
      → (levels : List Level) × (levels_of hash size alg fuel ds ≡ ok levels)
        × (length levels ≤ fuel)
  unfolding levels_of
  levels_of-ok zero ds h1 h hf = absurd (omega arith)
  levels_of-ok (suc fuel) ds h1 h hf =
      let current = nodes_of (length ds) ds in
      let count = length-nodes_of (length ds) ds (omega arith) in
      elim (Bool-cases (length current == 1)) [
        | inl one ↦ (current ∷ [], rw one refl, omega arith)
        | inr more ↦
            let mapped = length-map (node_digest hash size alg) current in
            let many : 2 ≤ length current = ground (arith, count) in
            let fewer : length current ≤ 8 ^ fuel = omega (arith, count, pow-suc 8 fuel) in
            let some_fuel : 1 ≤ fuel = fuel_left fuel (length current) many fewer in
            let (levels, e, hl) =
              levels_of-ok fuel (next current) (omega (arith, mapped, many))
                (omega (arith, mapped, fewer)) some_fuel in
            (current ∷ levels, rw (more, e) refl, omega (arith, hl))
      ]
    where
      fuel_left : (fuel n : ℕ) → 2 ≤ n → n ≤ 8 ^ fuel → 1 ≤ fuel
      fuel_left zero n h2 h = absurd (omega arith)
      fuel_left (suc fuel) n h2 h = omega arith

  All-get :
      (level : Level) (i : ℕ) (node : Node)
      → get_elem? level i ≡ some node
      → All IsOrNode level
      → IsOrNode node
  All-get [] i node e h = cc
  All-get (n ∷ level) zero node e h = subst (λ o. is_or o) e h.0
    where
      is_or : Option Node → Type 0
      is_or none = Unit
      is_or (some n') = IsOrNode n'
  All-get (n ∷ level) (suc i) node e h = All-get level i node e h.1

  -- The branch of a digest, and the root that it leads to.
  Branch : List Level → ℕ → Bytes → Type 0
  Branch levels i d =
      (nodes : List Node) × (root : Bytes) × (select_branch levels i ≡ ok nodes)
      × (root_digest levels ≡ some root)
      × Leads d nodes root

  last_level :
      (node' : Node) (i : ℕ) (d : Bytes) (node : Node)
      → get_elem? (node' ∷ []) (i / 8) ≡ some node
      → Holds d node
      → IsOrNode node
      → Branch ((node' ∷ []) ∷ []) i d
  unfolding Branch select_branch
  last_level node' i d node at held or_node = elim (Bool-cases (i / 8 == 0)) [
    | inl first ↦
        let zero_index : i / 8 ≡ 0 = ground arith in
        let same : node' ≡ node = some_injective (rw zero_index at at) in
        (
          node ∷ [],
          node_digest hash size alg node,
          rw at refl,
          ap (λ n. some (node_digest hash size alg n)) same,
          (held, or_node, refl),
        )
    | inr later ↦ absurd (none_there (i / 8) (ground arith) at)
  ]
    where
      some_injective : {a b : Node} → ◌≡◌ {A = Option Node} (some a) (some b) → a ≡ b
      some_injective e = cc

      none_there : (k : ℕ) → 1 ≤ k → get_elem? (node' ∷ []) k ≡ some node → ⊥
      none_there zero h e = omega arith
      none_there (suc k) h e = cc

  next_level :
      (current : Level) (levels : List Level) (i : ℕ) (d : Bytes) (node : Node)
      → get_elem? current (i / 8) ≡ some node
      → Holds d node
      → IsOrNode node
      → Branch levels (i / 8) (node_digest hash size alg node)
      → Branch (current ∷ levels) i d
  unfolding Branch select_branch
  next_level current [] i d node at held or_node (nodes, root, es, er, leads) = cc
  next_level current (level ∷ levels) i d node at held or_node (nodes, root, es, er, leads) =
      (node ∷ nodes, root, rw (at, es) refl, below current er, (held, or_node, leads))
    where
      below :
          (current : Level)
          → root_digest (level ∷ levels) ≡ some root
          → root_digest (current ∷ level ∷ levels) ≡ some root
      below [] e = e
      below (n ∷ []) e = e
      below (n ∷ n' ∷ ns) e = e

  levels_of-Branch :
      (fuel : ℕ) (ds : List Bytes) (levels : List Level) (i : ℕ) (d : Bytes)
      → levels_of hash size alg fuel ds ≡ ok levels
      → get_elem? ds i ≡ some d
      → Branch levels i d
  unfolding levels_of
  levels_of-Branch zero ds levels i d e ei = cc
  levels_of-Branch (suc fuel) ds levels i d e ei =
      let current = nodes_of (length ds) ds in
      let (node, at, held) = nodes_of-Holds (length ds) i ds d (omega arith) ei in
      let or_node = All-get current (i / 8) node at (nodes_of-IsOrNode (length ds) ds) in
      elim (Bool-cases (length current == 1)) [
        | inl one ↦
            let (node', whole) = single current (ground arith) in
            let only : ok (current ∷ []) ≡ ok levels = rw one at e in
            subst (λ ls. Branch ls i d) (ok-injective only)
              (subst (λ level. Branch (level ∷ []) i d) (sym whole)
                (last_level node' i d node (rw whole at at) held or_node))
        | inr more ↦
            let rest : (levels_of hash size alg fuel (next current) >>= λ ls. ok (current ∷ ls))
                ≡ ok levels =
              rw more at e in
            let (above, e1, e2) = >>=-eq-ok (levels_of hash size alg fuel (next current)) _ rest in
            let up = get_elem?-map (node_digest hash size alg) current (i / 8) node at in
            subst (λ ls. Branch ls i d) (ok-injective e2)
              (next_level current above i d node at held or_node (
                levels_of-Branch fuel (next current) above (i / 8) (node_digest hash size alg node)
                  e1 up))
      ]

  some_digest : (ds : List Bytes) (i : ℕ) (d : Bytes) → get_elem? ds i ≡ some d → 1 ≤ length ds
  some_digest [] i d e = cc
  some_digest (x ∷ ds) i d e = omega arith

  -- Of at most 4096 digests a tree of at most four levels is made, and for each digest selectBranch
  -- gives PolicyOR assertions of 2 to 8 digests each that lead from it to the root: the first holds
  -- the digest, each further one holds the result of the one before, and the result of the last one
  -- is the digest of the tree's single root node.
  pub select_branch-Leads :
      (ds : List Bytes) (i : ℕ) (d : Bytes)
      → length ds ≤ policy_or_max_digests
      → get_elem? ds i ≡ some d
      → (levels : List Level) × (new_policy_or_tree hash size alg ds ≡ ok levels)
        × (length levels ≤ 4)
        × (nodes : List Node) × (root : Bytes) × (select_branch levels i ≡ ok nodes)
        × (root_digest levels ≡ some root)
        × Leads d nodes root
  unfolding new_policy_or_tree Branch
  select_branch-Leads ds i d h ei =
      let h1 = some_digest ds i d ei in
      let (levels, e, hl) = levels_of-ok 4 ds h1 (omega arith) (omega arith) in
      let not_none : (length ds == 0) ≡ false = ground arith in
      let not_many : ltb policy_or_max_digests (length ds) ≡ false = ground arith in
      let (nodes, root, es, er, leads) = levels_of-Branch 4 ds levels i d e ei in
      (levels, rw (not_none, not_many) e, hl, nodes, root, es, er, leads)
