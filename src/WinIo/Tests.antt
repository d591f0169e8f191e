-- ===== src/WinIo/Tests.antt =====
-- Transfers of a range that no single call gives.
use node_vmm.Prelude.{ℕ, ◌≡◌, refl, Result, ok, err}
use node_vmm.Bytes.{Memory}
use node_vmm.WinIo.{pread_all, pread_loop}
use node_vmm.WinIo.Files.{Contents}
use node_vmm.WinIo.Slow.{slow_file, two_sectors}

abbrev zeros : Memory
zeros = λ a. 0

abbrev read_byte : ℕ → Result (Unit {0}) × (Contents × Memory) → ℕ
read_byte a (ok done, (c, m)) = m a
read_byte a (err e, (c, m)) = 99

-- The range ends in the second sector.
pread_all_here : read_byte 2149 (pread_all slow_file 2000 150 400 (two_sectors, zeros)) ≡ 2
unfolding pread_all pread_loop
pread_all_here = refl
