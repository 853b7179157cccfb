-- ===== src/Transport/Submits.antt =====
-- A single submission of a command by runCommand of internal/transportutil/retrier.go.
use go_tpm.Base.{
  ℕ, ◌-◌, ◌≡◌, refl, ap, ◌∙◌, true, Bool-cases, inl, inr, ◌++◌, Option, none, some, Outcome, ok,
  err, panic,
}
use go_tpm.Base.Actions.{Action, after_step}
use go_tpm.Mu.Types.{MuError}
use go_tpm.Mu.Bytes.{Bytes}
use go_tpm.Packet.Command.{Header, read_header}
use go_tpm.Transport.Retrier.{
  RetryError, closed, cannot_send, cannot_unmarshal_header, cannot_read_header, cannot_receive,
  Transport, check_alive, send, receive, decode, submit,
}

module _ {T : Type 0} (transport : Transport T) (command_bytes : Bytes) where
  abbrev pub Gives : (A : Type 0) → Outcome RetryError A × T → Outcome RetryError A × T → Type 0
  Gives A r r' = r ≡ r'

  -- A chain of actions that gives a value has one at its first action.
  pub first_step :
      {A B : Type 0} (r : Outcome RetryError A × T) (next : A → Action RetryError T B) (b : B)
      (t'' : T)
      → Gives B (after_step next r) (ok b, t'')
      → (a : A) × (t1 : T) × (r ≡ (ok a, t1)) × (next a t1 ≡ (ok b, t''))
  first_step (ok a, t1) next b t'' e = (a, t1, refl, e)
  first_step (err x, t1) next b t'' e = cc
  first_step (panic, t1) next b t'' e = cc

  -- A submission: the transport is alive and takes the command, is still alive, and gives a header and
  -- then as many bytes as the header says are left.
  abbrev pub Submits : T → ℕ → Bytes → T → Type 0
  Submits t code rsp t' =
      (t1 : T) × (t2 : T) × (h : Header) × (xs : Bytes) × (ys : Bytes) × (more : Bytes)
      × (transport.alive t ≡ true)
      × (transport.write command_bytes t ≡ (none, t1))
      × (transport.alive t1 ≡ true)
      × (transport.read 10 t1 ≡ (ok xs, t2))
      × (read_header xs ≡ ok (h, more))
      × (transport.read (h.size - 10) t2 ≡ (ok ys, t'))
      × (code ≡ h.code)
      × (rsp ≡ xs ++ ys)

  pub Submits-submit :
      (t : T) (code : ℕ) (rsp : Bytes) (t' : T)
      → Submits t code rsp t'
      → submit transport command_bytes t ≡ (ok (code, rsp), t')
  unfolding submit
  Submits-submit t code rsp t' (t1, t2, h, xs, ys, more, e1, e2, e3, e4, e5, e6, e7, e8) =
      rw (submit, e1, e2, e3, e4, e5, e6, e7, e8) refl

  checked :
      (t : T) (u : Unit {0}) (t1 : T)
      → check_alive transport t ≡ (ok u, t1)
      → (transport.alive t ≡ true) × (t ≡ t1)
  checked t u t1 e = elim (Bool-cases (transport.alive t)) [
    | inl living ↦
        let r : Gives (Unit {0}) (ok tt, t) (ok u, t1) = rw living at e in
        (living, ap (λ (x : Outcome RetryError (Unit {0}) × T). x.1) r)
    | inr dead ↦ let r : Gives (Unit {0}) (err closed, t) (ok u, t1) = rw dead at e in cc
  ]

  sent :
      (r : Option ℕ × T) (u : Unit {0}) (t1 : T)
      → Gives (Unit {0}) (elim r.0 [ none ↦ ok tt | some e ↦ err (cannot_send e) ], r.1) (ok u, t1)
      → r ≡ (none, t1)
  sent (none, t) u t1 e = ap (λ (x : Outcome RetryError (Unit {0}) × T). (none, x.1)) e
  sent (some x, t) u t1 e = cc

  received :
      (wrap : ℕ → RetryError) (r : Outcome ℕ Bytes × T) (xs : Bytes) (t1 : T)
      → Gives Bytes
          (elim r.0 [ ok xs ↦ ok xs | err e ↦ err (wrap e) | panic ↦ panic ], r.1)
          (ok xs, t1)
      → r ≡ (ok xs, t1)
  received wrap (ok ys, t) xs t1 e = cc
  received wrap (err x, t) xs t1 e = cc
  received wrap (panic, t) xs t1 e = cc

  decoded :
      (r : Outcome MuError (Header × Bytes)) (t : T) (h : Header) (t1 : T)
      → Gives Header
          (
            elim r [
              | ok (h, rest) ↦ ok h
              | err e ↦ err (cannot_unmarshal_header e)
              | panic ↦ panic
            ],
            t,
          )
          (ok h, t1)
      → (more : Bytes) × (r ≡ ok (h, more)) × (t ≡ t1)
  decoded (ok (x, rest)) t h t1 e = (rest, cc, cc)
  decoded (err x) t h t1 e = cc
  decoded panic t h t1 e = cc

  gathered :
      (t s1 s2 s3 s4 s5 s6 t' : T) (code : ℕ) (rsp : Bytes) (h : Header) (xs ys more : Bytes)
      → transport.alive t ≡ true
      → t ≡ s1
      → transport.write command_bytes s1 ≡ (none, s2)
      → transport.alive s2 ≡ true
      → s2 ≡ s3
      → transport.read 10 s3 ≡ (ok xs, s4)
      → read_header xs ≡ ok (h, more)
      → s4 ≡ s5
      → transport.read (h.size - 10) s5 ≡ (ok ys, s6)
      → Gives (ℕ × Bytes) (ok (h.code, xs ++ ys), s6) (ok (code, rsp), t')
      → Submits t code rsp t'
  gathered t s1 s2 s3 s4 s5 s6 t' code rsp h xs ys more e1 same1 e2 e3 same3 e4 e5 same5 e6 e7 =
      let last : s6 ≡ t' = ap (λ (x : Outcome RetryError (ℕ × Bytes) × T). x.1) e7 in
      (
        s2,
        s4,
        h,
        xs,
        ys,
        more,
        e1,
        ap (transport.write command_bytes) same1 ∙ e2,
        e3,
        ap (transport.read 10) same3 ∙ e4,
        e5,
        ap (transport.read (h.size - 10)) same5 ∙ e6 ∙ ap (λ (x : T). (ok ys, x)) last,
        cc,
        cc,
      )

  pub submit-Submits :
      (t : T) (code : ℕ) (rsp : Bytes) (t' : T)
      → submit transport command_bytes t ≡ (ok (code, rsp), t')
      → Submits t code rsp t'
  unfolding submit
  submit-Submits t code rsp t' e =
      let (u1, s1, c1, e1) = first_step (check_alive transport t) _ (code, rsp) t' e in
      let (living, same1) = checked t u1 s1 c1 in
      let (u2, s2, c2, e2) = first_step (send transport command_bytes s1) _ (code, rsp) t' e1 in
      let (u3, s3, c3, e3) = first_step (check_alive transport s2) _ (code, rsp) t' e2 in
      let (living3, same3) = checked s2 u3 s3 c3 in
      let (xs, s4, c4, e4) =
        first_step (receive transport cannot_read_header 10 s3) _ (code, rsp) t' e3 in
      let (h, s5, c5, e5) = first_step (decode transport xs s4) _ (code, rsp) t' e4 in
      let (more, read, same5) = decoded (read_header xs) s4 h s5 c5 in
      let (ys, s6, c6, e6) =
        first_step (receive transport cannot_receive (h.size - 10) s5) _ (code, rsp) t' e5 in
      gathered t s1 s2 s3 s4 s5 s6 t' code rsp h xs ys more living same1
        (sent (transport.write command_bytes s1) u2 s2 c2) living3 same3
        (received cannot_read_header (transport.read 10 s3) xs s4 c4) read same5
        (received cannot_receive (transport.read (h.size - 10) s5) ys s6 c6) e6
