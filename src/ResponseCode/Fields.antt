-- ===== src/ResponseCode/Fields.antt =====
-- The fields of a TPM response code: the type ResponseCode of types_constants.go.
-- A uint32 is a number; `none` is a panic of the Go method.
use go_tpm.Base.{ℕ, ◌/◌, ◌%◌, ◌*◌, ◌^◌, bit_and, Bool, not, Option, none, some, ◌==◌, if◌then◌else◌}

abbrev pub response_code_e0 : ℕ
response_code_e0 = 0x7f

abbrev pub response_code_e1 : ℕ
response_code_e1 = 0x3f

abbrev pub response_code_p : ℕ
response_code_p = 2 ^ 6

abbrev pub response_code_f : ℕ
response_code_f = 2 ^ 7

abbrev pub response_code_v : ℕ
response_code_v = 2 ^ 8

abbrev pub response_code_t : ℕ
response_code_t = 2 ^ 10

abbrev pub response_code_s : ℕ
response_code_s = 2 ^ 11

abbrev pub response_code_index : ℕ
response_code_index = 0xf

abbrev pub response_code_index_shift : ℕ
response_code_index_shift = 8

abbrev pub response_code_n : ℕ
response_code_n = response_code_index * 2 ^ response_code_index_shift

unfoldable pub rc_f : ℕ → Bool
rc_f rc = not (bit_and rc response_code_f == 0)

unfoldable pub rc_e : ℕ → ℕ
unfolding rc_f
rc_e rc =
    if rc_f rc then bit_and rc response_code_e1 % 2 ^ 8 else bit_and rc response_code_e0 % 2 ^ 8

unfoldable pub rc_v : ℕ → Option Bool
unfolding rc_f
rc_v rc = if rc_f rc then none else some (not (bit_and rc response_code_v == 0))

unfoldable pub rc_t : ℕ → Option Bool
unfolding rc_f
rc_t rc = if rc_f rc then none else some (not (bit_and rc response_code_t == 0))

unfoldable pub rc_s : ℕ → Option Bool
unfolding rc_f
rc_s rc = if rc_f rc then none else some (not (bit_and rc response_code_s == 0))

unfoldable pub rc_p : ℕ → Option Bool
unfolding rc_f
rc_p rc = if not (rc_f rc) then none else some (not (bit_and rc response_code_p == 0))

unfoldable pub rc_n : ℕ → Option ℕ
unfolding rc_f
rc_n rc =
    if not (rc_f rc)
    then none
    else some (bit_and rc response_code_n / 2 ^ response_code_index_shift % 2 ^ 8)
