-- ===== src/Packet/Takes.antt =====
-- How many bytes each read of a packet takes.
use go_tpm.Base.{ℕ, zero, suc, ◌+◌, ◌≤◌, arith, [], ◌∷◌, length, Outcome, ok, err, panic, ◌>>=◌}
use go_tpm.Mu.Types.{MuError}
use go_tpm.Mu.Bytes.{Bytes, read_full, read_number}
use go_tpm.Packet.Areas.{read_sized, read_auth_command, read_auth_response}
use go_tpm.Packet.Command.{read_header, read_handles}

-- Where a read succeeds, it takes at least k bytes; and it does not panic.
abbrev pub Takes : {A : Type 0} → ℕ → Bytes → Outcome MuError (A × Bytes) → Type 0
Takes k input (ok (a, rest)) = length rest + k ≤ length input
Takes k input (err e) = Unit
Takes k input panic = ⊥

take_more :
    {B : Type 0} (k j n : ℕ) (input rest : Bytes) (m : Outcome MuError (B × Bytes))
    → length rest + k ≤ length input
    → n ≤ k + j
    → Takes j rest m
    → Takes n input m
take_more k j n input rest (ok (b, rest')) h hn t = omega arith
take_more k j n input rest (err e) h hn t = tt
take_more k j n input rest panic h hn t = t

bind-Takes :
    {A B : Type 0} (k j n : ℕ) (input : Bytes) (m : Outcome MuError (A × Bytes))
    (f : A × Bytes → Outcome MuError (B × Bytes))
    → n ≤ k + j
    → Takes k input m
    → ((a : A) (rest : Bytes) → Takes j rest (f (a, rest)))
    → Takes n input (m >>= f)
bind-Takes k j n input (ok (a, rest)) f hn t h =
    take_more k j n input rest (f (a, rest)) t hn (h a rest)
bind-Takes k j n input (err e) f hn t h = tt
bind-Takes k j n input panic f hn t h = t

pub read_full-Takes : (n : ℕ) (input : Bytes) → Takes n input (read_full n input)
unfolding read_full
read_full-Takes zero input = omega arith
read_full-Takes (suc n) [] = tt
read_full-Takes (suc n) (b ∷ input) =
    take_more 1 n (suc n) (b ∷ input) input (read_full n input >>= λ r. ok (b ∷ r.0, r.1))
      (omega arith) (omega arith)
      (bind-Takes n 0 n input (read_full n input) (λ r. ok (b ∷ r.0, r.1)) (omega arith)
        (read_full-Takes n input) (λ xs rest. omega arith))

pub read_number-Takes : (n : ℕ) (input : Bytes) → Takes n input (read_number n input)
unfolding read_number
read_number-Takes n input =
    bind-Takes n 0 n input (read_full n input) _ (omega arith) (read_full-Takes n input)
      (λ xs rest. omega arith)

read_sized-Takes : (input : Bytes) → Takes 2 input (read_sized input)
unfolding read_sized
read_sized-Takes input =
    bind-Takes 2 0 2 input (read_number 2 input) _ (omega arith) (read_number-Takes 2 input)
      (λ size rest.
        take_more 0 size 0 rest rest (read_full size rest) (omega arith) (omega arith)
          (read_full-Takes size rest))

pub read_auth_response-Takes : (input : Bytes) → Takes 1 input (read_auth_response input)
unfolding read_auth_response
read_auth_response-Takes input =
    bind-Takes 2 0 1 input (read_sized input) _ (omega arith) (read_sized-Takes input) (λ nonce r1.
      bind-Takes 1 0 0 r1 (read_number 1 r1) _ (omega arith) (read_number-Takes 1 r1)
        (λ attributes r2.
          bind-Takes 2 0 0 r2 (read_sized r2) _ (omega arith) (read_sized-Takes r2)
            (λ hmac r3. omega arith)))

pub read_auth_command-Takes : (input : Bytes) → Takes 1 input (read_auth_command input)
unfolding read_auth_command
read_auth_command-Takes input =
    bind-Takes 4 0 1 input (read_number 4 input) _ (omega arith) (read_number-Takes 4 input)
      (λ handle r0.
        bind-Takes 2 0 0 r0 (read_sized r0) _ (omega arith) (read_sized-Takes r0) (λ nonce r1.
          bind-Takes 1 0 0 r1 (read_number 1 r1) _ (omega arith) (read_number-Takes 1 r1)
            (λ attributes r2.
              bind-Takes 2 0 0 r2 (read_sized r2) _ (omega arith) (read_sized-Takes r2)
                (λ hmac r3. omega arith))))

pub read_header-Takes : (input : Bytes) → Takes 10 input (read_header input)
unfolding read_header
read_header-Takes input =
    bind-Takes 2 8 10 input (read_number 2 input) _ (omega arith) (read_number-Takes 2 input)
      (λ tag r1.
        bind-Takes 4 4 8 r1 (read_number 4 r1) _ (omega arith) (read_number-Takes 4 r1) (λ size r2.
          bind-Takes 4 0 4 r2 (read_number 4 r2) _ (omega arith) (read_number-Takes 4 r2)
            (λ code r3. omega arith)))

pub read_handles-Takes : (n : ℕ) (input : Bytes) → Takes 0 input (read_handles n input)
unfolding read_handles
read_handles-Takes zero input = omega arith
read_handles-Takes (suc n) input =
    bind-Takes 4 0 0 input (read_number 4 input) _ (omega arith) (read_number-Takes 4 input)
      (λ h rest.
        bind-Takes 0 0 0 rest (read_handles n rest) _ (omega arith) (read_handles-Takes n rest)
          (λ l rest'. omega arith))
