-- ===== src/Policy/Examples.antt =====
-- The theorems on policies and policy trees, at a few assertions, at ten digests, and a sum in place of a digest function.
use go_tpm.Base.{
  ◌⊎◌, ℕ, ◌+◌, ◌%◌, ◌≡◌, ◌≤◌, refl, arith, Bool, false, some, List, [], ◌∷◌, length, ok,
}
use go_tpm.Mu.Bytes.{Bytes}
use go_tpm.Policy.OrTree.{Node, Level, new_policy_or_tree, select_branch}
use go_tpm.Policy.Session.{Session, new_session, reset, policy_or, invalid_digest_length}
use go_tpm.Policy.Assertions.{Assertion, or_digests, command_code, cp_hash, assert_policy}
use go_tpm.Policy.Agreement.{trial_of, trial_assert_each, trial_assert_each-Takes}
use go_tpm.Policy.Refused.{assert_policy-refused}
use go_tpm.Policy.Branches.{Leads, root_digest, select_branch-Leads}

abbrev sum : Bytes → ℕ
sum [] = 0
sum (x ∷ xs) = x + sum xs

-- One byte: the sum of the bytes.
abbrev sum_hash : ℕ → Bytes → Bytes
sum_hash alg xs = (sum xs % 256) ∷ []

abbrev one_byte_size : ℕ → ℕ
one_byte_size alg = 1

abbrev ten : List Bytes
ten =
    (1 ∷ [])
    ∷ (2 ∷ [])
    ∷ (3 ∷ [])
    ∷ (4 ∷ [])
    ∷ (5 ∷ [])
    ∷ (6 ∷ [])
    ∷ (7 ∷ [])
    ∷ (8 ∷ [])
    ∷ (9 ∷ [])
    ∷ (10 ∷ [])
    ∷ []

-- The last digest.
select_branch-Leads_example :
    (levels : List Level) × (new_policy_or_tree sum_hash one_byte_size 11 ten ≡ ok levels)
    × (length levels ≤ 4)
    × (nodes : List Node) × (root : Bytes) × (select_branch levels 9 ≡ ok nodes)
    × (root_digest sum_hash one_byte_size 11 levels ≡ some root)
    × Leads sum_hash one_byte_size 11 (10 ∷ []) nodes root
select_branch-Leads_example =
    select_branch-Leads sum_hash one_byte_size 11 ten 9 (10 ∷ []) (omega arith) refl

abbrev start : Session
start = new_session sum_hash one_byte_size 11 false

-- A branch of a PolicyOR, a command code and a cpHash.
abbrev either : Assertion
either = or_digests ((1 ∷ []) ∷ (2 ∷ []) ∷ [])

abbrev after : Session → Assertion → Session
after s a = (assert_policy sum_hash one_byte_size s a).0

abbrev final : Session
final = after (after (after start (command_code 0x15e)) either) (cp_hash (7 ∷ []))

trial_assert_each-Takes_example :
    (occupied : Bool) × (trial_assert_each sum_hash one_byte_size
        (trial_of start false)
        (command_code 0x15e ∷ either ∷ cp_hash (7 ∷ []) ∷ [])
      ≡ some (trial_of final occupied))
unfolding assert_policy policy_or
trial_assert_each-Takes_example =
    trial_assert_each-Takes sum_hash one_byte_size (λ alg xs. refl)
      (command_code 0x15e ∷ either ∷ cp_hash (7 ∷ []) ∷ []) start final false refl
      (
        after start (command_code 0x15e),
        refl,
        (after (after start (command_code 0x15e)) either, refl, (final, refl, refl)),
      )
      refl

-- The second digest is too long.
abbrev wrong : List Bytes
wrong = (1 ∷ []) ∷ (2 ∷ 3 ∷ []) ∷ []

abbrev used : Session
used = after start (command_code 0x15e)

assert_policy-refused_example :
    (after used (or_digests wrong) ≡ used)
    ⊎ ((ds : List Bytes) × (or_digests wrong ≡ or_digests ds)
        × (after used (or_digests wrong) ≡ reset sum_hash one_byte_size used))
unfolding assert_policy policy_or
assert_policy-refused_example =
    assert_policy-refused sum_hash one_byte_size used (after used (or_digests wrong))
      (or_digests wrong) (invalid_digest_length 1) refl
