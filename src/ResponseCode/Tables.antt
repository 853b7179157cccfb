-- ===== src/ResponseCode/Tables.antt =====
-- The bits that the encoders set, as sums.
use go_tpm.Base.{ℕ, ◌+◌, ◌*◌, ◌<◌, bit_or, ◌≡◌, refl, true, ◌==◌, ==_iff}
use go_tpm.Base.Bits.{check_below, check_below-at}

-- A format-one code already has bit 7.
or_format1_table : check_below 64 (λ c. bit_or 0x80 (128 + c) == 128 + c) ≡ true
unfolding check_below
or_format1_table = refl

pub or_format1 : (c : ℕ) → c < 64 → bit_or 0x80 (128 + c) ≡ 128 + c
or_format1 c h = (==_iff _ _).0 (check_below-at 64 _ c or_format1_table h)

or_version_table : check_below 128 (λ c. bit_or 0x100 c == 256 + c) ≡ true
unfolding check_below
or_version_table = refl

pub or_version : (c : ℕ) → c < 128 → bit_or 0x100 c ≡ 256 + c
or_version c h = (==_iff _ _).0 (check_below-at 128 _ c or_version_table h)

or_warning_table : check_below 128 (λ c. bit_or (bit_or 0x800 0x100) c == 2304 + c) ≡ true
unfolding check_below
or_warning_table = refl

pub or_warning : (c : ℕ) → c < 128 → bit_or (bit_or 0x800 0x100) c ≡ 2304 + c
or_warning c h = (==_iff _ _).0 (check_below-at 128 _ c or_warning_table h)

or_index_table :
    check_below 16 (λ i. check_below 64 (λ c. bit_or (i * 256) (128 + c) == i * 256 + 128 + c))
    ≡ true
unfolding check_below
or_index_table = refl

pub or_index : (i c : ℕ) → i < 16 → c < 64 → bit_or (i * 256) (128 + c) ≡ i * 256 + 128 + c
or_index i c hi hc =
    (==_iff _ _).0 (check_below-at 64 _ c (check_below-at 16 _ i or_index_table hi) hc)

or_parameter_table :
    check_below 16
      (λ i. check_below 64 (λ c. bit_or (bit_or (i * 256) 0x40) (128 + c) == i * 256 + 192 + c))
    ≡ true
unfolding check_below
or_parameter_table = refl

pub or_parameter :
    (i c : ℕ) → i < 16 → c < 64 → bit_or (bit_or (i * 256) 0x40) (128 + c) ≡ i * 256 + 192 + c
or_parameter i c hi hc =
    (==_iff _ _).0 (check_below-at 64 _ c (check_below-at 16 _ i or_parameter_table hi) hc)

or_session_table : check_below 8 (λ i. bit_or 0x8 i == 8 + i) ≡ true
unfolding check_below
or_session_table = refl

pub or_session : (i : ℕ) → i < 8 → bit_or 0x8 i ≡ 8 + i
or_session i h = (==_iff _ _).0 (check_below-at 8 _ i or_session_table h)
