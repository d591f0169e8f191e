-- ===== src/WinIo.antt =====
-- native/whp/win_io.h: reading and writing a whole range of a file, over the calls of the system,
-- which are parameters.
pub mod Files
pub mod Slow
pub mod Transfer
mod Tests
use node_vmm.Prelude.{
  ℕ, zero, suc, ◌+◌, ◌-◌, ◌^◌, min, Bool, true, false, ◌&&◌, ltb, leb, ◌==◌, if◌then◌else◌, Option,
  none, some, err,
}
use node_vmm.Prelude.State.{M, ◌>>◌, return, throw}
use node_vmm.Bytes.{Memory}
use Files.{FileApi, place}

-- The bytes asked for in one call.
abbrev pub want : ℕ → ℕ
want len = min len (2 ^ 20)

module _ {F : Type 0} (api : FileApi F) where
  -- The loop of `PreadAll`, at most `fuel` rounds of it. The state is the file and the memory that
  -- `dst` points into.
  unfoldable pub pread_loop : ℕ → ℕ → ℕ → M (F × Memory) (Unit {0})
  pread_loop zero dst len s = if len == 0 then return tt s else throw "out of fuel" s
  pread_loop (suc fuel) dst zero s = return tt s
  pread_loop (suc fuel) dst (suc len) (f, m) =
      let (answer, f') = api.read_file (want (suc len)) f in
      elim answer [
        | none ↦ (err "read disk failed", (f', m))
        | some (got, bytes) ↦ elim (got == 0) [
          | true ↦ (err "short disk read", (f', m))
          | false ↦ pread_loop fuel (dst + got) (suc len - got) (f', place got dst bytes m)
        ]
      ]

  unfoldable pub pread_all : ℕ → ℕ → ℕ → M (F × Memory) (Unit {0})
  pread_all dst len off (f, m) =
      let (sought, f') = api.seek off f in
      elim sought [
        | false ↦ (err "seek disk read failed", (f', m))
        | true ↦ pread_loop len dst len (f', m)
      ]

  -- The loop of `PwriteAll`: the bytes left are `src`, by index.
  unfoldable pub pwrite_loop : ℕ → (ℕ → ℕ) → ℕ → M F (Unit {0})
  pwrite_loop zero src len f = if len == 0 then return tt f else throw "out of fuel" f
  pwrite_loop (suc fuel) src zero f = return tt f
  pwrite_loop (suc fuel) src (suc len) f =
      let (answer, f') = api.write_file (want (suc len)) src f in
      elim answer [
        | none ↦ (err "write disk failed", f')
        | some wrote ↦ elim (wrote == 0) [
          | true ↦ (err "short disk write", f')
          | false ↦ pwrite_loop fuel (λ k. src (wrote + k)) (suc len - wrote) f'
        ]
      ]

  unfoldable pub pwrite_all : (ℕ → ℕ) → ℕ → ℕ → M F (Unit {0})
  pwrite_all src len off f =
      let (sought, f') = api.seek off f in
      elim sought [ false ↦ (err "seek disk write failed", f') | true ↦ pwrite_loop len src len f' ]

  unfoldable pub truncate_file_to : ℕ → M F (Unit {0})
  truncate_file_to size f =
      let (sought, f') = api.seek size f in
      elim sought [
        | false ↦ (err "seek truncate failed", f')
        | true ↦
            (let (cut, f'') = api.set_end_of_file f' in
              elim cut [ false ↦ (err "truncate overlay failed", f'') | true ↦ return tt f'' ])
      ]

  unfoldable pub mark_file_sparse : M F (Unit {0})
  mark_file_sparse f =
      let (marked, f') = api.set_sparse f in
      elim marked [ false ↦ (err "mark overlay sparse failed", f') | true ↦ return tt f' ]
