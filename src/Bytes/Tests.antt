-- ===== src/Bytes/Tests.antt =====
-- Runs of the helpers at concrete bytes.
use node_vmm.Prelude.{◌-◌, ◌^◌, ◌≡◌, refl, arith, err}
use node_vmm.Bytes.{
  Memory, check, checked_add, write_le, read_le, write_le_bytes, read_bytes, deposit_bits,
}
use node_vmm.Bytes.RoundTrip.{IsBytes}

abbrev blank : Memory
blank = λ a. 7

blank-IsBytes : IsBytes blank
blank-IsBytes a = omega arith

read_le_here : read_le 100 2 (write_le 100 2 0x1234 blank) ≡ 0x1234
unfolding read_le write_le read_bytes write_le_bytes
read_le_here = refl

deposit_here : deposit_bits 0xffff 4 8 0 ≡ 0xf00f
unfolding deposit_bits
deposit_here = refl

checked_add_throws : checked_add (2 ^ 64 - 1) 1 "size" ≡ err "size overflow"
unfolding checked_add check
checked_add_throws = refl
