-- ===== src/Commands/Nv.antt =====
-- NVWrite and NVRead of cmds_nv.go: an NV index is written and read in parts.
use go_tpm.Base.{
  ℕ, ◌+◌, ◌-◌, ◌%◌, ◌^◌, Bool, Option, none, some, [], ◌++◌, length, take, drop, bit_or, ltb, leb,
  if◌then◌else◌, Outcome, ok, err, panic,
}
use go_tpm.Mu.Bytes.{Bytes}
use go_tpm.Commands.Multiple.{Sessions, Ran, ExecError, exec_multiple}

abbrev pub attr_nv_written : ℕ
attr_nv_written = 2 ^ 29

-- nvWriteHelperContext, with its data as `buffer`, with the attributes of the index, if it is an NVIndexContext, and with the
-- state of the TPM.
pub record WriteContext (S : Type 0) : Type 0 where
  pub buffer : Bytes
  pub offset : ℕ
  pub total : ℕ
  pub attrs : Option ℕ
  pub tpm : S

-- nvReadHelperContext. `got` is its field data.
pub record ReadContext (S : Type 0) : Type 0 where
  pub size : ℕ
  pub offset : ℕ
  pub got : Bytes
  pub tpm : S

-- SetAttr of nvIndexContext.
abbrev pub set_attr : ℕ → Option ℕ → Option ℕ
set_attr a none = none
set_attr a (some attrs) = some (bit_or attrs a)

-- The property maxNVBufferSize, and the command TPM2_NV_Write.
module _ {S E : Type 0} (max : ℕ) (write : Sessions → Bytes → ℕ → S → Ran E S) where
  -- What NVWriteRaw and run store after a write of n bytes.
  abbrev pub after_write : WriteContext S → ℕ → Ran E S → Ran E (WriteContext S)
  after_write c n (ok u, tpm) = (
    ok u,
    record c {
      total = (c.total + n) % 2 ^ 16;
      attrs = set_attr attr_nv_written c.attrs;
      tpm = tpm;
    },
  )
  after_write c n (err e, tpm) = (err e, record c { tpm = tpm })
  after_write c n (panic, tpm) = (panic, record c { tpm = tpm })

  abbrev pub write_last : WriteContext S → Bool
  write_last c = leb (length (drop c.total c.buffer)) max

  -- The data of the next write.
  abbrev pub next_write : WriteContext S → Bytes
  next_write c = let d = drop c.total c.buffer in if ltb max (length d) then take max d else d

  unfoldable pub write_run : Sessions → WriteContext S → Ran E (WriteContext S)
  write_run sessions c =
      let d = next_write c in
      after_write c (length d) (write sessions d ((c.offset + c.total) % 2 ^ 16) c.tpm)

  -- NVWrite. A turn writes a byte at least, unless the maximum is 0.
  unfoldable pub nv_write : Bytes → ℕ → Option ℕ → Sessions → S → Ran (ExecError E) (WriteContext S)
  unfolding write_run
  nv_write buffer offset attrs sessions tpm =
      exec_multiple write_last write_run (length buffer) sessions
        (record { buffer = buffer; offset = offset; total = 0; attrs = attrs; tpm = tpm })

-- The same property, and the command TPM2_NV_Read.
module _ {S E : Type 0} (max : ℕ) (read : Sessions → ℕ → ℕ → S → Outcome E Bytes × S) where
  abbrev pub after_read : ReadContext S → ℕ → Outcome E Bytes × S → Ran E (ReadContext S)
  after_read c size (ok xs, tpm) = (
    ok tt,
    record {
      size = c.size - size;
      offset = (c.offset + size) % 2 ^ 16;
      got = c.got ++ xs;
      tpm = tpm;
    },
  )
  after_read c size (err e, tpm) = (err e, record c { tpm = tpm })
  after_read c size (panic, tpm) = (panic, record c { tpm = tpm })

  abbrev pub read_last : ReadContext S → Bool
  read_last c = leb c.size max

  abbrev pub next_read : ReadContext S → ℕ
  next_read c = if ltb max c.size then max else c.size

  unfoldable pub read_run : Sessions → ReadContext S → Ran E (ReadContext S)
  read_run sessions c =
      let size = next_read c in after_read c size (read sessions size c.offset c.tpm)

  -- What NVRead returns of its context.
  abbrev pub read_result : Ran (ExecError E) (ReadContext S) → Outcome (ExecError E) Bytes × S
  read_result (ok u, c) = (ok c.got, c.tpm)
  read_result (err e, c) = (err e, c.tpm)
  read_result (panic, c) = (panic, c.tpm)

  -- NVRead
  unfoldable pub nv_read : ℕ → ℕ → Sessions → S → Outcome (ExecError E) Bytes × S
  unfolding read_run
  nv_read size offset sessions tpm = read_result (
      exec_multiple read_last read_run size sessions
        (record { size = size; offset = offset; got = []; tpm = tpm }))
