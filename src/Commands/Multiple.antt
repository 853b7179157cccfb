-- ===== src/Commands/Multiple.antt =====
-- execMultipleHelper of tpm.go: a call that takes several commands, with the sessions kept between
-- them.
use go_tpm.Base.{
  ℕ, zero, suc, Bool, false, ◌||◌, Option, none, some, List, [], ◌∷◌, bit_or, ◌==◌, if◌then◌else◌,
  Outcome, ok, err, panic,
}
use go_tpm.Names.Algorithm.{handle_type, handle_type_policy_session}

-- A SessionContext: its handle and the attributes that the next command uses it with.
pub record SessionContext : Type 0 where
  pub handle : ℕ
  pub attrs : ℕ

abbrev pub attr_continue_session : ℕ
attr_continue_session = 1

-- IncludeAttrs
abbrev pub include_attrs : ℕ → SessionContext → SessionContext
include_attrs attrs s = record s { attrs = bit_or s.attrs attrs }

-- The sessions of a command, nil where an authorization is with a passphrase.
abbrev pub Sessions : Type 0
Sessions = List (Option SessionContext)

abbrev pub kept_session : Option SessionContext → Option SessionContext
kept_session none = none
kept_session (some s) = some (include_attrs attr_continue_session s)

abbrev pub is_policy_session : Option SessionContext → Bool
is_policy_session none = false
is_policy_session (some s) = handle_type s.handle == handle_type_policy_session

-- The loop over the sessions: whether one is a policy session, and all of them with
-- AttrContinueSession.
unfoldable pub has_policy_session : Sessions → Bool
has_policy_session [] = false
has_policy_session (s ∷ sessions) = is_policy_session s || has_policy_session sessions

unfoldable pub keep_sessions : Sessions → Sessions
keep_sessions [] = []
keep_sessions (s ∷ sessions) = kept_session s ∷ keep_sessions sessions

pub data ExecError (E : Type 0) : Type 0 where
  policy_session_used : ExecError E
  command_failed : E → ExecError E

-- A command changes a state. It fails or has no value.
abbrev pub Ran : Type 0 → Type 0 → Type 0
Ran E C = Outcome E (Unit {0}) × C

abbrev pub as_result : {E C : Type 0} → Ran E C → Ran (ExecError E) C
as_result (ok u, c) = (ok u, c)
as_result (err e, c) = (err (command_failed e), c)
as_result (panic, c) = (panic, c)

-- What follows a command that has not failed.
abbrev pub then_run : {E C : Type 0} → (C → Ran (ExecError E) C) → Ran E C → Ran (ExecError E) C
then_run next (ok u, c) = next c
then_run next (err e, c) = (err (command_failed e), c)
then_run next (panic, c) = (panic, c)

-- The methods `last` and `run` of an execMultipleHelperAction, whose state is C.
module _ {E C : Type 0} (last : C → Bool) (run : Sessions → C → Ran E C) where
  -- `for !action.last()`, and the last command. The fuel counts the commands before the last one.
  unfoldable pub exec_from : ℕ → Bool → Sessions → Sessions → C → Ran (ExecError E) C
  exec_from zero has_policy sessions original c =
      if last c then as_result (run original c) else (panic, c)
  exec_from (suc fuel) has_policy sessions original c =
      let more = then_run (exec_from fuel has_policy sessions original) (run sessions c) in
      if last c
      then as_result (run original c)
      else if has_policy
      then (err policy_session_used, c)
      else more

  -- execMultipleHelper
  unfoldable pub exec_multiple : ℕ → Sessions → C → Ran (ExecError E) C
  unfolding exec_from
  exec_multiple fuel sessions =
      exec_from fuel (has_policy_session sessions) (keep_sessions sessions) sessions
