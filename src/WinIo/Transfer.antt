-- ===== src/WinIo/Transfer.antt =====
-- On a disk that works, the loops transfer the whole range, however short the single calls are.
use mathlib.Core.Path.{fun_ext}
use node_vmm.Prelude.{
  dec_lt, ℕ, zero, suc, ◌+◌, ◌-◌, ◌^◌, ◌≤◌, ◌<◌, ◌≡◌, refl, ap, ◌∙◌, max, arith, ◌==◌,
  if◌then◌else◌, false,
}
use node_vmm.Prelude.State.{Finishes, Finishes-weaken}
use node_vmm.Bytes.{Memory}
use node_vmm.WinIo.{want, pread_loop, pread_all, pwrite_loop, pwrite_all}
use node_vmm.WinIo.Files.{place, FileApi, IsFileApi, Contents, IsSameFile}

-- Two stores side by side.
pub place-place :
    (n g dst dst' : ℕ) (first rest all : ℕ → ℕ) (m m' : ℕ → ℕ) (a : ℕ)
    → g ≤ n
    → dst' ≡ dst + g
    → m' a ≡ place g dst first m a
    → ((k : ℕ) → k < g → first k ≡ all k)
    → ((k : ℕ) → rest k ≡ all (g + k))
    → place (n - g) dst' rest m' a ≡ place n dst all m a
place-place n g dst dst' first rest all m m' a h d e p q = elim (dec_lt a (dst + g)) [
  | yes i ↦ elim (dec_lt a dst) [
    | yes j ↦ ground arith
    | no j ↦ ground (arith, p (a - dst) (omega arith))
  ]
  | no i ↦ let s : g + (a - dst') ≡ a - dst = omega arith in ground (arith, q (a - dst') ∙ ap all s)
]

-- Only the bytes that are stored matter.
pub place_ext :
    (n dst : ℕ) (src src' m : ℕ → ℕ) (a : ℕ)
    → ((k : ℕ) → k < n → src k ≡ src' k)
    → place n dst src m a ≡ place n dst src' m a
place_ext n dst src src' m a h = elim (dec_lt a dst) [
  | yes i ↦ ground arith
  | no i ↦ elim (dec_lt a (dst + n)) [
    | yes j ↦ ground (arith, h (a - dst) (omega arith))
    | no j ↦ ground arith
  ]
]

pub place_inside : (n dst : ℕ) (src m : ℕ → ℕ) (k : ℕ) → k < n → place n dst src m (dst + k) ≡ src k
place_inside n dst src m k h = let e : dst + k - dst ≡ k = omega arith in ground (arith, ap src e)

pub place_cong :
    (n dst dst' : ℕ) (src m m' : ℕ → ℕ) (a : ℕ)
    → dst' ≡ dst
    → m' a ≡ m a
    → place n dst' src m' a ≡ place n dst src m a
place_cong n dst dst' src m m' a d e = ground arith

module _ {F : Type 0} (api : FileApi F) (holds : F → Contents) (works : IsFileApi api holds) where
  -- A byte of the file after the position has moved.
  moved :
      (f f' : F) (position position' k j : ℕ)
      → ((a : ℕ) → (holds f').bytes a ≡ (holds f).bytes a)
      → position' + k ≡ position + j
      → (holds f').bytes (position' + k) ≡ (holds f).bytes (position + j)
  moved f f' position position' k j same e = same _ ∙ ap (holds f).bytes e

  -- The memory holds `len` bytes of the file from `off` on, and the file is the same.
  abbrev pub IsRead : ℕ → ℕ → ℕ → F → Memory → Unit {0} → F × Memory → Type 0
  IsRead dst len off f m done (f', m') =
      IsSameFile (holds f) (holds f')
      × ((a : ℕ) → m' a ≡ place len dst (λ k. (holds f).bytes (off + k)) m a)

  pread_loop-IsRead :
      (fuel dst len : ℕ) (f : F) (m : Memory)
      → len ≤ fuel
      → (holds f).position + len ≤ (holds f).size
      → Finishes (IsRead dst len (holds f).position f m) (pread_loop api fuel dst len (f, m))
  unfolding pread_loop Finishes
  pread_loop-IsRead zero dst len f m enough inside =
      let e : len ≡ 0 = omega arith in rw e ((refl, λ a. refl), λ a. ground arith)
  pread_loop-IsRead (suc fuel) dst zero f m enough inside = ((refl, λ a. refl), λ a. ground arith)
  pread_loop-IsRead (suc fuel) dst (suc len) f m enough inside =
      let (got, bytes, e, positive, g, b, p, (size, same)) =
        works.read_works (want (suc len)) f (omega arith) (omega arith) in
      let f₁ : F = (api.read_file (want (suc len)) f).1 in
      let z : (got == 0) ≡ false = ground arith in
      rw (pread_loop, e, z)
        (Finishes-weaken _ (IsRead dst (suc len) (holds f).position f m)
          (pread_loop api fuel (dst + got) (suc len - got) _)
          (pread_loop-IsRead fuel (dst + got) (suc len - got) f₁ (place got dst bytes m)
            (omega arith) (omega arith))
          (λ done (f', m') ((size', same'), filled). (
            (size' ∙ size, λ a. same' a ∙ same a),
            λ a.
                filled a
                ∙ place-place (suc len) got dst (dst + got) bytes
                    (λ k. (holds f₁).bytes ((holds f₁).position + k))
                    (λ k. (holds f).bytes ((holds f).position + k)) m (place got dst bytes m) a
                    (omega arith) refl refl b
                    (λ k.
                      moved f f₁ (holds f).position (holds f₁).position k (got + k) same
                        (omega (arith, p))),
          )))

  -- `PreadAll` of a range that lies in the file returns, and it puts the range, all of it, at `dst`.
  pub pread_all-IsRead :
      (dst len off : ℕ) (f : F) (m : Memory)
      → off + len ≤ (holds f).size
      → off < 2 ^ 63
      → Finishes (IsRead dst len off f m) (pread_all api dst len off (f, m))
  unfolding pread_all
  pread_all-IsRead dst len off f m inside small =
      let (e, p, (size, same)) = works.seek_works off f small in
      let f₁ : F = (api.seek off f).1 in
      rw (pread_all, e)
        (Finishes-weaken _ (IsRead dst len off f m) (pread_loop api len dst len _)
          (pread_loop-IsRead len dst len f₁ m (omega arith) (omega (arith, p, size)))
          (λ done (f', m') ((size', same'), filled). (
            (size' ∙ size, λ a. same' a ∙ same a),
            λ a.
                filled a
                ∙ ap (λ src. place len dst src m a)
                    (fun_ext λ k. moved f f₁ off (holds f₁).position k k same (omega (arith, p))),
          )))

  -- The file holds `len` bytes of `src` from `off` on, and is the same elsewhere.
  abbrev pub IsWritten : (ℕ → ℕ) → ℕ → ℕ → F → Unit {0} → F → Type 0
  IsWritten src len off f done f' =
      ((holds f').size ≡ max (holds f).size (if len == 0 then 0 else off + len))
      × ((a : ℕ) → (holds f').bytes a ≡ place len off src (holds f).bytes a)

  pwrite_loop-IsWritten :
      (fuel : ℕ) (src : ℕ → ℕ) (len : ℕ) (f : F)
      → len ≤ fuel
      → Finishes (IsWritten src len (holds f).position f) (pwrite_loop api fuel src len f)
  unfolding pwrite_loop Finishes
  pwrite_loop-IsWritten zero src len f enough =
      let e : len ≡ 0 = omega arith in rw e (omega arith, λ a. ground arith)
  pwrite_loop-IsWritten (suc fuel) src zero f enough = (omega arith, λ a. ground arith)
  pwrite_loop-IsWritten (suc fuel) src (suc len) f enough =
      let (wrote, e, positive, g, p, size, same) =
        works.write_works (want (suc len)) src f (omega arith) in
      let f₁ : F = (api.write_file (want (suc len)) src f).1 in
      let z : (wrote == 0) ≡ false = ground arith in
      rw (pwrite_loop, e, z)
        (Finishes-weaken _ (IsWritten src (suc len) (holds f).position f)
          (pwrite_loop api fuel (λ k. src (wrote + k)) (suc len - wrote) _)
          (pwrite_loop-IsWritten fuel (λ k. src (wrote + k)) (suc len - wrote) f₁ (omega arith))
          (λ done f' (size', filled). (
            ground (arith, p, size, size'),
            λ a.
                filled a
                ∙ place-place (suc len) wrote (holds f).position (holds f₁).position src
                    (λ k. src (wrote + k)) src (holds f).bytes (holds f₁).bytes a (omega arith) p
                    (same a) (λ k h. refl) (λ k. refl),
          )))

  -- `PwriteAll` returns, and it puts all of `src` at its place in the file.
  pub pwrite_all-IsWritten :
      (src : ℕ → ℕ) (len off : ℕ) (f : F)
      → off < 2 ^ 63
      → Finishes (IsWritten src len off f) (pwrite_all api src len off f)
  unfolding pwrite_all
  pwrite_all-IsWritten src len off f small =
      let (e, p, (size, same)) = works.seek_works off f small in
      let f₁ : F = (api.seek off f).1 in
      rw (pwrite_all, e)
        (Finishes-weaken _ (IsWritten src len off f) (pwrite_loop api len src len _)
          (pwrite_loop-IsWritten len src len f₁ (omega arith))
          (λ done f' (size', filled). (
            ground (arith, p, size, size'),
            λ a.
                filled a
                ∙ place_cong len off (holds f₁).position src (holds f).bytes (holds f₁).bytes a p
                    (same a),
          )))
