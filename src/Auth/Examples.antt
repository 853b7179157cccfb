-- ===== src/Auth/Examples.antt =====
-- The theorems on the authorization of commands, at a password, at an HMAC session that encrypts
-- parameters with a sum in place of the digest functions, and at small responses.
use go_tpm.Base.{
  ℕ, ◌+◌, ◌%◌, ◌≡◌, inl, refl, arith, Bool, true, false, Option, none, some, List, [], ◌∷◌, ◌++◌,
  length, replicate, ok, panic, ◌/◌,
}
use go_tpm.Mu.Bytes.{Bytes, big_endian}
use go_tpm.Packet.Areas.{AuthCommand, AuthResponse}
use go_tpm.Auth.Contexts.{
  xor, SessionData, AuthSession, Resource, SessionParam, new_param, new_extra_session_param,
  new_session_param_for_auth, handle_pw, trim_auth_value, xor_bytes,
}
use go_tpm.Auth.Params.{
  SessionParams, new_session_params, append_session, append_session_for_resource, append_auths,
  append_extra_sessions,
}
use go_tpm.Auth.Hmac.{process_response_auth, compute_cp_hash}
use go_tpm.Auth.Area.{
  compute_caller_nonces, auths_of, build_command_auth_area, process_response_auth_area,
}
use go_tpm.Auth.Nonces.{params_of, with_nonces, first_auth, build_command_auth_area-first_auth}
use go_tpm.Auth.Encrypt.{
  compute_encrypt_nonce, encrypt_data, encrypt_command_parameter, decrypt_response_parameter,
}
use go_tpm.Auth.Indices.{IsParams, append_extra_sessions-append_auths}
use go_tpm.Auth.Responses.{
  response_hmac, process_response_auth-IsAuthentic, process_response_auth_area-panic,
}
use go_tpm.Names.Name.{is_valid_name, name_type}
use go_tpm.Names.Qualified.{compute_policy_cp_hash}
use go_tpm.Auth.CpHash.{AreValid, compute_policy_cp_hash-compute_cp_hash}
use go_tpm.Auth.Decrypts.{
  Hides, by_mask, secret, IsInverse, encrypt_command_parameter-Hides,
  decrypt_response_parameter-Hides,
}

abbrev sum : Bytes → ℕ
sum [] = 0
sum (x ∷ xs) = x + sum xs

abbrev sum_hash : ℕ → Bytes → Bytes
sum_hash alg xs = (sum xs % 256) ∷ []

abbrev sum_hmac : ℕ → Bytes → Bytes → Bytes
sum_hmac alg key xs = ((sum key + sum xs) % 256) ∷ []

abbrev sum_kdfa : ℕ → Bytes → Bytes → Bytes → Bytes → ℕ → Bytes
sum_kdfa alg key label u v bits = replicate (bits / 8) ((sum key + (sum u + sum v)) % 256)

abbrev xor_cipher : Bytes → Bytes → Bytes → Option Bytes
xor_cipher key iv xs = none

abbrev data_of_session : SessionData
data_of_session = record {
  hash_alg = 11;
  is_bound = false;
  bound_entity = [];
  symmetric = xor;
  session_key = 5 ∷ [];
  state = record {
    nonce_tpm = 1 ∷ 2 ∷ [];
    is_audit = false;
    is_exclusive = false;
    needs_password = false;
    needs_auth_value = false;
  };
}

-- A session for the encryption of a command's first parameter.
abbrev session : AuthSession
session = record { handle = 0x02000000; attrs = 33; data_of = some data_of_session }

abbrev password : AuthSession
password = record { handle = handle_pw; attrs = 1; data_of = some data_of_session }

abbrev resource : Resource
resource = record { name = 0x40 ∷ 0 ∷ 0 ∷ 1 ∷ []; auth_value = 9 ∷ 0 ∷ [] }

-- The parameters after the password has been taken, and after the session.
abbrev with_password : SessionParams
with_password = record {
  command_code = 0;
  sessions = new_param password (some resource) true false ∷ [];
  encrypt_index = none;
  decrypt_index = none;
}

abbrev with_both : SessionParams
with_both = record {
  command_code = 0;
  sessions =
      new_param password (some resource) true false ∷ new_param session none false false ∷ [];
  encrypt_index = none;
  decrypt_index = some 1;
}

append_extra_sessions-append_auths_example : IsParams with_both
unfolding append_auths append_extra_sessions append_session_for_resource new_session_param_for_auth
    append_session new_extra_session_param
append_extra_sessions-append_auths_example =
    append_extra_sessions-append_auths ((password, resource) ∷ []) (none ∷ some session ∷ [])
      with_password with_both refl refl

abbrev param : SessionParam
param = new_param session (some resource) false true

abbrev resp : AuthResponse
resp = record { nonce = 3 ∷ []; session_attributes = 1; hmac = 75 ∷ [] }

same_hmac : resp.hmac ≡ response_hmac sum_hash sum_hmac param data_of_session resp 0x131 (7 ∷ [])
unfolding trim_auth_value big_endian
same_hmac = refl

process_response_auth-IsAuthentic_example :
    (process_response_auth sum_hash sum_hmac param resp 0x131 (7 ∷ [])).0 ≡ ok tt
process_response_auth-IsAuthentic_example =
    (process_response_auth-IsAuthentic sum_hash sum_hmac param data_of_session resp 0x131 (7 ∷ [])
        refl refl).0.1
      (inl same_hmac)

process_response_auth_area-panic_example :
    (process_response_auth_area sum_hash sum_hmac sum_kdfa xor_cipher xor_cipher new_session_params
      (resp ∷ [])
      []).0
    ≡ panic
process_response_auth_area-panic_example =
    process_response_auth_area-panic sum_hash sum_hmac sum_kdfa xor_cipher xor_cipher
      new_session_params (resp ∷ []) [] (omega arith)

xor_cipher-IsInverse : IsInverse sum_kdfa xor_cipher xor_cipher
xor_cipher-IsInverse key iv xs ys e = cc

-- The session encrypts the first parameter of the command and of its response.
abbrev encrypting : SessionParam
encrypting = record param { nonce_caller = 4 ∷ [] }

abbrev with_encrypting : SessionParams
with_encrypting = record {
  command_code = 0;
  sessions = encrypting ∷ [];
  encrypt_index = some 0;
  decrypt_index = some 0;
}

abbrev plain : Bytes
plain = 20 ∷ 30 ∷ []

abbrev hidden : Bytes
hidden = 1 ∷ 11 ∷ []

encrypted :
    encrypt_command_parameter sum_kdfa xor_cipher with_encrypting
      (big_endian 2 2 ++ (plain ++ 40 ∷ []))
    ≡ ok (with_encrypting, 0 ∷ 2 ∷ (hidden ++ 40 ∷ []))
unfolding encrypt_command_parameter encrypt_data xor_bytes trim_auth_value big_endian
encrypted = refl

encrypt_command_parameter-Hides_example :
    (ys : Bytes) × (0 ∷ 2 ∷ (hidden ++ 40 ∷ []) ≡ big_endian 2 (length plain) ++ (ys ++ 40 ∷ []))
    × Hides sum_kdfa xor_cipher xor_cipher 11
        (secret encrypting data_of_session)
        (4 ∷ [])
        (1 ∷ 2 ∷ [])
        xor
        plain
        ys
encrypt_command_parameter-Hides_example =
    encrypt_command_parameter-Hides sum_kdfa xor_cipher xor_cipher with_encrypting with_encrypting
      encrypting 0 data_of_session plain (40 ∷ []) (0 ∷ 2 ∷ (hidden ++ 40 ∷ [])) refl refl tt
      (omega arith) encrypted

plain-Hides :
    Hides sum_kdfa xor_cipher xor_cipher 11
      (secret encrypting data_of_session)
      (1 ∷ 2 ∷ [])
      (4 ∷ [])
      xor
      plain
      hidden
unfolding xor_bytes trim_auth_value
plain-Hides = by_mask refl

decrypt_response_parameter-Hides_example :
    decrypt_response_parameter sum_kdfa xor_cipher with_encrypting
      (big_endian 2 (length plain) ++ (hidden ++ 40 ∷ []))
    ≡ ok (big_endian 2 (length plain) ++ (plain ++ 40 ∷ []))
decrypt_response_parameter-Hides_example =
    decrypt_response_parameter-Hides sum_kdfa xor_cipher xor_cipher xor_cipher-IsInverse
      with_encrypting encrypting 0 data_of_session plain hidden (40 ∷ []) refl refl tt (omega arith)
      plain-Hides

abbrev every_algorithm : ℕ → Bool
every_algorithm a = true

owner_hierarchy-AreValid : AreValid ((0x40 ∷ 0 ∷ 0 ∷ 1 ∷ []) ∷ [])
unfolding is_valid_name name_type
owner_hierarchy-AreValid = (refl, tt)

compute_policy_cp_hash-compute_cp_hash_example :
    compute_policy_cp_hash every_algorithm sum_hash 11 0x12b
      ((0x40 ∷ 0 ∷ 0 ∷ 1 ∷ []) ∷ [])
      (0 ∷ 2 ∷ 7 ∷ 7 ∷ [])
    ≡ ok (
        compute_cp_hash sum_hash sum_hmac 11 0x12b
          ((0x40 ∷ 0 ∷ 0 ∷ 1 ∷ []) ∷ [])
          (0 ∷ 2 ∷ 7 ∷ 7 ∷ []))
compute_policy_cp_hash-compute_cp_hash_example =
    compute_policy_cp_hash-compute_cp_hash every_algorithm sum_hash sum_hmac 11 0x12b
      ((0x40 ∷ 0 ∷ 0 ∷ 1 ∷ []) ∷ []) (0 ∷ 2 ∷ 7 ∷ 7 ∷ []) refl owner_hierarchy-AreValid

-- A session that authorizes a resource, and another one that encrypts both parameters.
abbrev fresh_nonce : ℕ → ℕ → Option Bytes
fresh_nonce i alg = some (4 ∷ [])

abbrev extra : SessionParam
extra = record (new_param session none false false) { nonce_caller = 4 ∷ [] }

abbrev before : SessionParams
before = params_of 0 (some 1) (some 1) (param ∷ new_param session none false false ∷ [])

abbrev after : SessionParams
after = params_of 0x131 (some 1) (some 1) (with_nonces encrypting (1 ∷ 2 ∷ []) [] ∷ extra ∷ [])

abbrev sent : Bytes
sent = 0 ∷ 2 ∷ 24 ∷ 18 ∷ 40 ∷ []

abbrev auths : List AuthCommand
auths = auths_of sum_hash sum_hmac sum_kdfa xor_cipher xor_cipher after.sessions 0x131 [] sent

nonces-drawn : compute_caller_nonces fresh_nonce 0 before.sessions ≡ ok (encrypting ∷ extra ∷ [])
unfolding compute_caller_nonces
nonces-drawn = refl

area-built :
    build_command_auth_area sum_hash sum_hmac sum_kdfa xor_cipher xor_cipher fresh_nonce before
      0x131 []
      (0 ∷ 2 ∷ (plain ++ 40 ∷ []))
    ≡ ok (auths, after, sent)
unfolding build_command_auth_area compute_caller_nonces encrypt_command_parameter encrypt_data
    xor_bytes trim_auth_value compute_encrypt_nonce
area-built = refl

build_command_auth_area-first_auth_example :
    (rest : List AuthCommand) × (auths
      ≡ first_auth sum_hash sum_hmac sum_kdfa xor_cipher xor_cipher encrypting data_of_session 0x131
          [] sent
          (1 ∷ 2 ∷ [])
          []
        ∷ rest)
build_command_auth_area-first_auth_example =
    build_command_auth_area-first_auth sum_hash sum_hmac sum_kdfa xor_cipher xor_cipher fresh_nonce
      before after 0x131 [] (0 ∷ 2 ∷ (plain ++ 40 ∷ [])) sent auths encrypting data_of_session
      (extra ∷ []) nonces-drawn refl refl refl refl refl area-built
