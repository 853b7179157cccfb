-- ===== src/Policy/OrTree.antt =====
-- policyOrTree of policyutil/or_tree.go: a tree of PolicyOR assertions over any number of digests.
-- A tree is the list of its levels, the leaf nodes first. The parent of node i of a level is node
-- i >> 3 of the next one.
use go_tpm.Base.{
  ℕ, true, zero, suc, ◌/◌, List, [], ◌∷◌, map, length, take, drop, get_elem?, ltb, ◌==◌,
  if◌then◌else◌, Outcome, ok, err, panic, ◌>>=◌, or_panic,
}
use go_tpm.Mu.Bytes.{Bytes}
use go_tpm.Policy.Session.{PolicyError, no_digests, too_many_digests, new_session, policy_or}

-- The digests of a policyOrNode.
abbrev pub Node : Type 0
Node = List Bytes

abbrev pub Level : Type 0
Level = List Node

abbrev pub policy_or_max_digests : ℕ
policy_or_max_digests = 4096

-- ensureSufficientORDigests
abbrev pub ensure_sufficient_or_digests : List Bytes → List Bytes
ensure_sufficient_or_digests (d ∷ []) = d ∷ d ∷ []
ensure_sufficient_or_digests ds = ds

-- The inner loop of newPolicyOrTree: the nodes of one level. The fuel is a bound on the number of
-- digests, and each turn takes at least one.
unfoldable pub nodes_of : ℕ → List Bytes → Level
nodes_of zero ds = []
nodes_of (suc fuel) [] = []
nodes_of (suc fuel) (d ∷ ds) =
    ensure_sufficient_or_digests (take 8 (d ∷ ds)) ∷ nodes_of fuel (drop 8 (d ∷ ds))

module _ (hash : ℕ → Bytes → Bytes) (size : ℕ → ℕ) (alg : ℕ) where
  -- The digest of a node, from a trial session. An error of PolicyOR is not looked at.
  unfoldable pub node_digest : Node → Bytes
  node_digest ds = let r = policy_or hash size (new_session hash size alg true) ds in r.0.digest

  -- The outer loop: the levels, down to one with a single node. Without fuel it panics.
  unfoldable pub levels_of : ℕ → List Bytes → Outcome PolicyError (List Level)
  levels_of zero ds = panic
  levels_of (suc fuel) ds =
      let current = nodes_of (length ds) ds in
      let above = levels_of fuel (map node_digest current) in
      if length current == 1 then ok (current ∷ []) else (do levels ← above; ok (current ∷ levels))

  -- newPolicyOrTree. Four levels are enough for 4096 digests.
  unfoldable pub new_policy_or_tree : List Bytes → Outcome PolicyError (List Level)
  new_policy_or_tree ds =
      if length ds == 0
      then err no_digests
      else if ltb policy_or_max_digests (length ds)
      then err too_many_digests
      else levels_of 4 ds

-- selectBranch: the digests of the nodes from a leaf to the root.
unfoldable pub select_branch : List Level → ℕ → Outcome PolicyError (List Node)
select_branch [] i = ok []
select_branch (level ∷ levels) i = do
  node ← or_panic (get_elem? level (i / 8))
  nodes ← select_branch levels (i / 8)
  ok (node ∷ nodes)
