-- ===== src/Base/Actions.antt =====
-- Calls that change a state and that may fail.
use go_tpm.Base.Results.{Outcome, ok, err, panic}

abbrev pub Action : Type 0 → Type 0 → Type 0 → Type 0
Action E T A = T → Outcome E A × T

-- The action that follows, unless the one before has failed.
abbrev pub after_step : {E T A B : Type 0} → (A → Action E T B) → Outcome E A × T → Outcome E B × T
after_step f (ok a, t) = f a t
after_step f (err e, t) = (err e, t)
after_step f (panic, t) = (panic, t)

infixl 5 ◌>>=◌
abbrev pub ◌>>=◌ : {E T A B : Type 0} → Action E T A → (A → Action E T B) → Action E T B
◌>>=◌ m f t = after_step f (m t)

-- A result that is there without a call.
abbrev pub done : {E T A : Type 0} → Outcome E A → Action E T A
done r t = (r, t)
