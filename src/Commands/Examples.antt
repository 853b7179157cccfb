-- ===== src/Commands/Examples.antt =====
-- The theorems on repeated commands, at a TPM with an NV index or a sequence object of a few bytes, of
-- which a command can write or read two, and at one with three properties.
use go_tpm.Base.{
  ℕ, ◌+◌, ◌^◌, ◌≤◌, ◌≡◌, inl, refl, arith, Bool, true, false, ◌&&◌, none, some, List, [], ◌∷◌, ◌++◌,
  length, take, drop, All, ltb, if◌then◌else◌, Outcome, ok, err,
}
use go_tpm.Base.Digits.{bit}
use go_tpm.Mu.Bytes.{Bytes}
use go_tpm.Commands.Multiple.{Sessions, Ran, has_policy_session}
use go_tpm.Commands.Nv.{WriteContext, nv_write, nv_read}
use go_tpm.Commands.Sequence.{SequenceContext, sequence_execute}
use go_tpm.Commands.Runs.{session_handles, IsKept}
use go_tpm.Commands.Splice.{splice}
use go_tpm.Commands.Written.{Writes, nv_write-splice}
use go_tpm.Commands.ReadBack.{Reads, nv_read-take}
use go_tpm.Commands.Hashed.{Updates, Completes, execute_sequence-result}

-- Bytes, and the number of sessions that are there.
abbrev Tpm : Type 0
Tpm = Bytes × ℕ

abbrev all_kept : Sessions → Bool
all_kept [] = true
all_kept (none ∷ sessions) = all_kept sessions
all_kept (some s ∷ sessions) = bit 0 s.attrs && all_kept sessions

all_kept-IsKept : (sessions : Sessions) → All IsKept sessions → all_kept sessions ≡ true
all_kept-IsKept [] h = refl
all_kept-IsKept (none ∷ sessions) h = all_kept-IsKept sessions h.1
all_kept-IsKept (some s ∷ sessions) h = rw h.0 (all_kept-IsKept sessions h.1)

-- A command with sessions that are not there fails, and one that does not keep them removes them.
abbrev command : {A : Type 0} → Sessions → A → Bytes → Tpm → Outcome ℕ A × Tpm
command sessions a xs (c, n) =
    if ltb n (length (session_handles sessions))
    then (err 1, (c, n))
    else (ok a, (xs, (if all_kept sessions then n else 0)))

abbrev Live : List ℕ → Tpm → Type 0
Live handles (c, n) = length handles ≤ n

command-ok :
    {A : Type 0} (sessions : Sessions) (a : A) (xs : Bytes) (s : Tpm)
    → Live (session_handles sessions) s
    → (s' : Tpm) × (command sessions a xs s ≡ (ok a, s'))
      × (s'.0 ≡ xs)
      × (All IsKept sessions → Live (session_handles sessions) s')
command-ok sessions a xs (c, n) live =
    let enough : ltb n (length (session_handles sessions)) ≡ false = ground arith in
    (
      (xs, (if all_kept sessions then n else 0)),
      rw enough refl,
      refl,
      λ h. rw (all_kept-IsKept sessions h) live,
    )

abbrev write : Sessions → Bytes → ℕ → Tpm → Ran ℕ Tpm
write sessions d offset s = command sessions tt (splice offset d s.0) s

write-Writes : Writes 2 write (λ s. s.0) Live
write-Writes sessions d offset s live few inside =
    command-ok sessions tt (splice offset d s.0) s live

-- A session without AttrContinueSession.
abbrev one_session : Sessions
one_session = some (record { handle = 0x02000001; attrs = 0 }) ∷ []

abbrev index : Bytes
index = 1 ∷ 2 ∷ 3 ∷ 4 ∷ 5 ∷ 6 ∷ 7 ∷ []

abbrev five : Bytes
five = 11 ∷ 12 ∷ 13 ∷ 14 ∷ 15 ∷ []

no_policy : has_policy_session one_session ≡ false
unfolding has_policy_session
no_policy = refl

nv_write-splice_example :
    (c : WriteContext Tpm) × (nv_write 2 write five 1 (some 0) one_session (index, 1) ≡ (ok tt, c))
    × (c.tpm.0 ≡ 1 ∷ 11 ∷ 12 ∷ 13 ∷ 14 ∷ 15 ∷ 7 ∷ [])
    × (c.attrs ≡ some (2 ^ 29))
nv_write-splice_example =
    nv_write-splice 2 write (λ s. s.0) Live write-Writes five 1 (some 0) one_session (index, 1)
      (omega arith) (omega arith) (omega arith) (omega arith) (inl no_policy)

abbrev read : Sessions → ℕ → ℕ → Tpm → Outcome ℕ Bytes × Tpm
read sessions size offset s = command sessions (take size (drop offset s.0)) s.0 s

read-Reads : Reads 2 read (λ s. s.0) Live
read-Reads sessions size offset s live few inside =
    command-ok sessions (take size (drop offset s.0)) s.0 s live

nv_read-take_example :
    (s' : Tpm) × (nv_read 2 read 5 1 one_session (index, 1) ≡ (ok (2 ∷ 3 ∷ 4 ∷ 5 ∷ 6 ∷ []), s'))
    × (s'.0 ≡ index)
nv_read-take_example =
    nv_read-take 2 read (λ s. s.0) Live read-Reads 5 1 one_session (index, 1) (omega arith)
      (omega arith) (omega arith) (omega arith) (inl no_policy)

-- A digest of one byte.
abbrev sum : Bytes → ℕ
sum [] = 0
sum (x ∷ xs) = x + sum xs

abbrev update : Sessions → Bytes → Tpm → Ran ℕ Tpm
update sessions d s = command sessions tt (s.0 ++ d) s

abbrev complete : Sessions → Bytes → Tpm → Outcome ℕ ℕ × Tpm
complete sessions d s = command sessions (sum (s.0 ++ d)) [] s

update-Updates : Updates 2 (λ sessions. sessions) update complete (λ s. s.0) sum Live
update-Updates sessions d s live few = command-ok sessions tt (s.0 ++ d) s live

complete-Completes : Completes 2 (λ sessions. sessions) update complete (λ s. s.0) sum Live
complete-Completes sessions d s live few =
    let (s', e, emptied, kept) = command-ok sessions (sum (s.0 ++ d)) [] s live in (s', e)

execute_sequence-result_example :
    (c : SequenceContext ℕ Tpm) × (sequence_execute 2 update complete five one_session (9 ∷ [], 1)
      ≡ (ok tt, c))
    × (c.result ≡ some 74)
execute_sequence-result_example =
    execute_sequence-result 2 (λ sessions. sessions) update complete (λ s. s.0) sum Live
      update-Updates complete-Completes five one_session (9 ∷ [], 1) (omega arith) (omega arith)
      (inl no_policy)
