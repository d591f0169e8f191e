-- ===== src/WinIo/Files.antt =====
-- The calls of the system on an open file, and what its documentation says of them for a file on a
-- disk that works.
use node_vmm.Prelude.{
  ℕ, ◌+◌, ◌-◌, ◌^◌, ◌≤◌, ◌<◌, ◌≡◌, Bool, true, ◌&&◌, ltb, leb, if◌then◌else◌, Option, some, max,
}

-- A call changes the file, also where it fails; `false` and `none` stand for a result of zero.
-- `read_file` gives the number of bytes read and the bytes, `write_file` the number written.
pub record FileApi (F : Type 0) : Type 0 where
  pub seek : ℕ → F → Bool × F
  pub read_file : ℕ → F → Option (ℕ × (ℕ → ℕ)) × F
  pub write_file : ℕ → (ℕ → ℕ) → F → Option ℕ × F
  pub set_end_of_file : F → Bool × F
  pub set_sparse : F → Bool × F
  pub flush : F → Bool × F

-- What a file holds.
pub record Contents : Type 0 where
  pub bytes : ℕ → ℕ
  pub size : ℕ
  pub position : ℕ

-- The same bytes, as many of them.
abbrev pub IsSameFile : Contents → Contents → Type 0
IsSameFile c c' = (c'.size ≡ c.size) × ((a : ℕ) → c'.bytes a ≡ c.bytes a)

-- The bytes of a range replaced: `n` bytes stored from `dst` on.
abbrev pub place : ℕ → ℕ → (ℕ → ℕ) → (ℕ → ℕ) → ℕ → ℕ
place n dst bytes m a = if leb dst a && ltb a (dst + n) then bytes (a - dst) else m a

module _ {F : Type 0} (holds : F → Contents) where
  abbrev pub IsSought : ℕ → F → Bool × F → Type 0
  IsSought off f (sought, f') =
      (sought ≡ true) × ((holds f').position ≡ off) × IsSameFile (holds f) (holds f')

  -- At least one byte is read, from the position on, which moves along.
  abbrev pub IsReadFrom : ℕ → F → Option (ℕ × (ℕ → ℕ)) × F → Type 0
  IsReadFrom len f (answer, f') =
      (got : ℕ) × (bytes : ℕ → ℕ) × (answer ≡ some (got, bytes))
      × (0 < got)
      × (got ≤ len)
      × ((k : ℕ) → k < got → bytes k ≡ (holds f).bytes ((holds f).position + k))
      × ((holds f').position ≡ (holds f).position + got)
      × IsSameFile (holds f) (holds f')

  -- At least one byte is written, at the position, which moves along.
  abbrev pub IsWrittenTo : ℕ → (ℕ → ℕ) → F → Option ℕ × F → Type 0
  IsWrittenTo len src f (answer, f') =
      (wrote : ℕ) × (answer ≡ some wrote)
      × (0 < wrote)
      × (wrote ≤ len)
      × ((holds f').position ≡ (holds f).position + wrote)
      × ((holds f').size ≡ max (holds f).size ((holds f).position + wrote))
      × ((a : ℕ) → (holds f').bytes a ≡ place wrote (holds f).position src (holds f).bytes a)

  abbrev pub IsCut : F → Bool × F → Type 0
  IsCut f (cut, f') =
      (cut ≡ true)
      × ((holds f').size ≡ (holds f).position)
      × ((holds f').position ≡ (holds f).position)

  abbrev pub IsMarked : F → Bool × F → Type 0
  IsMarked f (marked, f') = marked ≡ true

-- A file on a disk that works: short reads and writes are possible, failures are not.
pub record IsFileApi {F : Type 0} (api : FileApi F) (holds : F → Contents) : Type 0 where
  pub seek_works : (off : ℕ) (f : F) → off < 2 ^ 63 → IsSought holds off f (api.seek off f)
  pub read_works :
      (len : ℕ) (f : F)
      → 0 < len
      → (holds f).position + len ≤ (holds f).size
      → IsReadFrom holds len f (api.read_file len f)
  pub cut_works : (f : F) → IsCut holds f (api.set_end_of_file f)
  pub sparse_works : (f : F) → IsMarked holds f (api.set_sparse f)
  pub write_works :
      (len : ℕ) (src : ℕ → ℕ) (f : F)
      → 0 < len
      → IsWrittenTo holds len src f (api.write_file len src f)

-- No call reads more bytes than it was asked for.
abbrev pub IsBounded : {F : Type 0} → FileApi F → Type 0
IsBounded {F} api =
    (len got : ℕ) (bytes : ℕ → ℕ) (f : F) → (api.read_file len f).0 ≡ some (got, bytes) → got ≤ len
