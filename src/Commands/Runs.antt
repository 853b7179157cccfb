-- ===== src/Commands/Runs.antt =====
-- How execMultipleHelper comes to its end.
use go_tpm.Base.{
  ℕ, zero, suc, ◌≤◌, ◌<◌, ◌≡◌, ◌⊎◌, inl, inr, refl, ap, ◌∙◌, arith, Bool, true, false, Bool-cases,
  Option, none, some, List, [], ◌∷◌, ok, err, All,
}
use go_tpm.Base.Digits.{bit, bit-bit_or}
use go_tpm.Commands.Multiple.{
  SessionContext, Sessions, attr_continue_session, has_policy_session, keep_sessions,
  policy_session_used, Ran, exec_from, exec_multiple,
}

-- The handles of sessions, which a command looks up in the TPM.
abbrev pub session_handles : Sessions → List ℕ
session_handles [] = []
session_handles (none ∷ sessions) = session_handles sessions
session_handles (some s ∷ sessions) = s.handle ∷ session_handles sessions

-- A command with this session leaves it in the TPM.
abbrev pub IsKept : Option SessionContext → Type 0
IsKept none = Unit
IsKept (some s) = bit 0 s.attrs ≡ true

pub session_handles-keep_sessions :
    (sessions : Sessions) → session_handles (keep_sessions sessions) ≡ session_handles sessions
unfolding keep_sessions
session_handles-keep_sessions [] = refl
session_handles-keep_sessions (none ∷ sessions) = session_handles-keep_sessions sessions
session_handles-keep_sessions (some s ∷ sessions) =
    ap (λ l. s.handle ∷ l) (session_handles-keep_sessions sessions)

pub keep_sessions-IsKept : (sessions : Sessions) → All IsKept (keep_sessions sessions)
unfolding keep_sessions bit
keep_sessions-IsKept [] = tt
keep_sessions-IsKept (none ∷ sessions) = (tt, keep_sessions-IsKept sessions)
keep_sessions-IsKept (some s ∷ sessions) =
    (bit-bit_or 0 s.attrs attr_continue_session ∙ ground arith, keep_sessions-IsKept sessions)

module _ {E C : Type 0} (last : C → Bool) (run : Sessions → C → Ran E C) (Before : ℕ → C → Type 0)
    (After : C → Type 0) (sessions : Sessions)
    (step : (n : ℕ) (c : C)
      → Before n c
      → last c ≡ false
      → (m : ℕ) × (c' : C) × (run (keep_sessions sessions) c ≡ (ok tt, c')) × (m < n) × Before m c')
    (finish : (n : ℕ) (c : C)
      → Before n c
      → last c ≡ true
      → (c' : C) × (run sessions c ≡ (ok tt, c')) × After c') where
  finished :
      (fuel n : ℕ) (policy : Bool) (c : C)
      → Before n c
      → last c ≡ true
      → (c' : C) × (exec_from last run fuel policy (keep_sessions sessions) sessions c
          ≡ (ok tt, c'))
        × After c'
  unfolding exec_from
  finished zero n policy c b l = let (c', e, a) = finish n c b l in (c', rw (l, e) refl, a)
  finished (suc fuel) n policy c b l = let (c', e, a) = finish n c b l in (c', rw (l, e) refl, a)

  runs :
      (fuel n : ℕ) (c : C)
      → n ≤ fuel
      → Before n c
      → (c' : C) × (exec_from last run fuel false (keep_sessions sessions) sessions c ≡ (ok tt, c'))
        × After c'
  unfolding exec_from
  runs zero n c h b = elim (Bool-cases (last c)) [
    | inl l ↦ finished zero n false c b l
    | inr l ↦ let (m, c', e, less, b') = step n c b l in absurd (omega arith)
  ]
  runs (suc fuel) n c h b = elim (Bool-cases (last c)) [
    | inl l ↦ finished (suc fuel) n false c b l
    | inr l ↦
        let (m, c', e, less, b') = step n c b l in
        let (c'', e', a) = runs fuel m c' (omega arith) b' in (c'', rw (l, e, e') refl, a)
  ]

  -- A state from which each command makes a number smaller, and which the last command makes what is
  -- wanted.
  pub exec_multiple-After :
      (fuel n : ℕ) (c : C)
      → n ≤ fuel
      → Before n c
      → (has_policy_session sessions ≡ false) ⊎ (last c ≡ true)
      → (c' : C) × (exec_multiple last run fuel sessions c ≡ (ok tt, c')) × After c'
  unfolding exec_multiple
  exec_multiple-After fuel n c h b (inl none_used) = rw none_used (runs fuel n c h b)
  exec_multiple-After fuel n c h b (inr l) = finished fuel n (has_policy_session sessions) c b l

-- With a policy session, a call that would take more than one command sends none.
pub exec_multiple-policy :
    {E C : Type 0} (last : C → Bool) (run : Sessions → C → Ran E C) (fuel : ℕ) (sessions : Sessions)
    (c : C)
    → has_policy_session sessions ≡ true
    → last c ≡ false
    → 1 ≤ fuel
    → exec_multiple last run fuel sessions c ≡ (err policy_session_used, c)
unfolding exec_multiple exec_from
exec_multiple-policy last run zero sessions c p l h = absurd (omega arith)
exec_multiple-policy last run (suc fuel) sessions c p l h = rw (l, p) refl
