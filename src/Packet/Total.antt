-- ===== src/Packet/Total.antt =====
-- Reading a packet always ends: with a packet, or with an error.
use go_tpm.Base.{
  ℕ, Bool, zero, suc, ◌+◌, ◌-◌, ◌≤◌, ◌≡◌, ◌≢◌, refl, arith, true, false, not, ◌&&◌, some, none,
  ◌++◌, length, ltb, take, drop, ◌==◌, Bool-cases, inl, inr, if◌then◌else◌, Outcome, ok, err, panic,
  ◌>>=◌,
}
use go_tpm.Mu.Types.{MuError}
use go_tpm.Mu.Bytes.{Bytes, read_full, read_number}
use go_tpm.Packet.Areas.{
  Part, auth, header, handles, auth_size, parameters, response_handle, parameter_size, reading,
  read_auth_command, read_auth_response, read_area,
}
use go_tpm.Packet.Command.{
  Header, header_size, tag_sessions, tag_no_sessions, read_header, read_handles, read_auth_area,
  read_command_packet,
}
use go_tpm.Packet.Response.{
  tag_rsp_command, check_response_header, read_response_handle, read_response_payload,
  read_response_packet,
}
use go_tpm.ResponseCode.Errors.{response_success}
use go_tpm.Packet.Takes.{
  Takes, read_full-Takes, read_number-Takes, read_auth_response-Takes, read_auth_command-Takes,
  read_header-Takes, read_handles-Takes,
}

-- A packet's part does not panic.
abbrev NoPanic : {E A : Type 0} → Outcome E A → Type 0
NoPanic (ok a) = Unit
NoPanic (err e) = Unit
NoPanic panic = ⊥

bind-NoPanic :
    {E A B : Type 0} (m : Outcome E A) (f : A → Outcome E B)
    → NoPanic m
    → ((a : A) → m ≡ ok a → NoPanic (f a))
    → NoPanic (m >>= f)
bind-NoPanic (ok a) f t h = h a refl
bind-NoPanic (err e) f t h = tt
bind-NoPanic panic f t h = t

reading-NoPanic :
    {A : Type 0} (part : Part) (k : ℕ) (input : Bytes) (m : Outcome MuError (A × Bytes))
    → Takes k input m
    → NoPanic (reading part m)
reading-NoPanic part k input (ok (a, rest)) t = tt
reading-NoPanic part k input (err e) t = tt
reading-NoPanic part k input panic t = t

reading-Takes :
    {A : Type 0} (part : Part) (k : ℕ) (input rest : Bytes) (a : A)
    (m : Outcome MuError (A × Bytes))
    → Takes k input m
    → reading part m ≡ ok (a, rest)
    → length rest + k ≤ length input
reading-Takes part k input rest a (ok (b, rest')) t e = ground arith
reading-Takes part k input rest a (err x) t e = cc
reading-Takes part k input rest a panic t e = cc

module _ {A : Type 0} (read : Bytes → Outcome MuError (A × Bytes))
    (takes : (input : Bytes) → Takes 1 input (read input)) where
  read_area-NoPanic :
      (fuel i n : ℕ) (input : Bytes) → n ≤ fuel → NoPanic (read_area read fuel i n input)
  unfolding read_area
  read_area-NoPanic zero i n input h =
      let none_left : (n == 0) ≡ true = ground arith in rw none_left tt
  read_area-NoPanic (suc fuel) i n input h = elim (Bool-cases (n == 0)) [
    | inl done ↦ rw done tt
    | inr more ↦ rw more (
        bind-NoPanic (reading (auth i) (read (take n input))) _
          (reading-NoPanic (auth i) 1 (take n input) (read (take n input)) (takes (take n input)))
          (λ (a, left) e.
            let shrunk =
              reading-Takes (auth i) 1 (take n input) left a (read (take n input))
                (takes (take n input)) e in
            bind-NoPanic
              (read_area read fuel (suc i) (n - (length (take n input) - length left))
                (left ++ drop n input))
              _ (read_area-NoPanic fuel (suc i) _ (left ++ drop n input) (omega arith))
              (λ r e'. tt)))
  ]

ne_panic : {E A : Type 0} (m : Outcome E A) → NoPanic m → m ≢ panic
ne_panic (ok a) t e = cc
ne_panic (err x) t e = cc
ne_panic panic t e = t

if-NoPanic :
    {E A : Type 0} (b : Bool) (m m' : Outcome E A)
    → NoPanic m
    → NoPanic m'
    → NoPanic (if b then m else m')
if-NoPanic true m m' h h' = h
if-NoPanic false m m' h h' = h'

number-NoPanic :
    (part : Part) (n : ℕ) (input : Bytes) → NoPanic (reading part (read_number n input))
number-NoPanic part n input =
    reading-NoPanic part n input (read_number n input) (read_number-Takes n input)

read_auth_area-NoPanic : (tag : ℕ) (input : Bytes) → NoPanic (read_auth_area tag input)
unfolding read_auth_area
read_auth_area-NoPanic tag input =
    if-NoPanic (tag == tag_sessions) _ _
      (bind-NoPanic (reading auth_size (read_number 4 input)) _ (number-NoPanic auth_size 4 input)
        (λ (size, rest) e.
          read_area-NoPanic read_auth_command read_auth_command-Takes size 0 size rest
            (omega arith)))
      (if-NoPanic (tag == tag_no_sessions) _ _ tt tt)

-- ReadCommandPacket does not panic, whatever the bytes are: the loop over the authorization area
-- takes at least a byte in each turn, so that it ends.
pub read_command_packet-ne-panic :
    (num_handles : ℕ) (input : Bytes) → read_command_packet num_handles input ≢ panic
unfolding read_command_packet
read_command_packet-ne-panic num_handles input = ne_panic (read_command_packet num_handles input) (
    bind-NoPanic (reading header (read_header input)) _
      (reading-NoPanic header 10 input (read_header input) (read_header-Takes input))
      (λ (h, rest) e.
        let shown : Bytes = take (h.size - header_size) rest in
        bind-NoPanic (reading handles (read_handles num_handles shown)) _
          (reading-NoPanic handles 0 shown (read_handles num_handles shown)
            (read_handles-Takes num_handles shown))
          (λ (hs, r1) e1.
            bind-NoPanic (read_auth_area h.tag r1) _ (read_auth_area-NoPanic h.tag r1)
              (λ (auths, r2) e2. tt))))

check-NoPanic : (h : Header) → NoPanic (check_response_header h)
unfolding check_response_header
check-NoPanic h = ground arith

handle-NoPanic :
    (h : Header) (wants_handle : Bool) (input : Bytes)
    → NoPanic (read_response_handle h wants_handle input)
unfolding read_response_handle
handle-NoPanic h wants_handle input =
    if-NoPanic (not (h.tag == tag_rsp_command) && ((h.code == response_success) && wants_handle))
      (reading response_handle (read_number 4 input) >>= λ r. ok (some r.0, r.1)) (ok (none, input))
      (bind-NoPanic (reading response_handle (read_number 4 input)) (λ r. ok (some r.0, r.1))
        (number-NoPanic response_handle 4 input) (λ r e. tt))
      tt

payload-NoPanic : (tag n : ℕ) (input : Bytes) → NoPanic (read_response_payload tag n input)
unfolding read_response_payload
payload-NoPanic tag n input = if-NoPanic (tag == tag_rsp_command) _ _ tt (
    if-NoPanic (tag == tag_sessions) _ _
      (bind-NoPanic (reading parameter_size (read_number 4 input)) _
        (number-NoPanic parameter_size 4 input)
        (λ (size, r1) e1.
          bind-NoPanic (reading parameters (read_full size r1)) _
            (reading-NoPanic parameters size r1 (read_full size r1) (read_full-Takes size r1))
            (λ (xs, r2) e2.
              let left : ℕ = n - (length input - length r2) in
              bind-NoPanic (read_area read_auth_response left 0 left r2) _
                (read_area-NoPanic read_auth_response read_auth_response-Takes left 0 left r2
                  (omega arith))
                (λ r e3. tt))))
      (if-NoPanic (ltb (length input) n) _ _ tt tt))

-- ReadResponsePacket does not panic either.
pub read_response_packet-ne-panic :
    (wants_handle : Bool) (input : Bytes) → read_response_packet wants_handle input ≢ panic
unfolding read_response_packet
read_response_packet-ne-panic wants_handle input =
    ne_panic (read_response_packet wants_handle input) (
      bind-NoPanic (reading header (read_header input)) _
        (reading-NoPanic header 10 input (read_header input) (read_header-Takes input))
        (λ (h, rest) e. bind-NoPanic (check_response_header h) _ (check-NoPanic h) (λ accepted e0.
          let shown : Bytes = take (h.size - header_size) rest in
          bind-NoPanic (read_response_handle h wants_handle shown) _
            (handle-NoPanic h wants_handle shown)
            (λ (handle, r1) e1.
              bind-NoPanic
                (read_response_payload h.tag (h.size - header_size - (length shown - length r1)) r1)
                _ (payload-NoPanic h.tag _ r1) (λ r e2. tt)))))
