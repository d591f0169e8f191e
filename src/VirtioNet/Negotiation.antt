-- ===== src/VirtioNet/Negotiation.antt =====
-- The status register: what the driver and the device agree on.
use node_vmm.Prelude.{ℕ, ◌<◌, ◌≡◌, ◌≢◌, arith, bit_and, Bool, not, ◌&&◌, ◌==◌, ◌!=◌, if◌then◌else◌}
use node_vmm.Bits.{bit_at, bit_at-le}
use node_vmm.Bits.Fields.{bit_not}
use node_vmm.Bits.Flags.{is_set, is_set_bit, bit_at-clear}
use node_vmm.VirtioNet.State.{Net, features, update_status}

-- The driver has taken features that the device does not offer.
abbrev pub takes_too_much : Net → Bool
takes_too_much net = bit_and net.driver_features (bit_not 64 features) != 0

-- A status other than 0, without FAILED, is stored as it was written, but for bit 3, FEATURES_OK:
-- where the driver sets it anew and has taken a feature that the device does not offer, it reads
-- as 0.
pub bit_at-update_status :
    (value k : ℕ) (net : Net)
    → value ≢ 0
    → bit_at value 7 ≡ 0
    → k < 32
    → bit_at (update_status value net).status k
      ≡ (if k == 3 && (bit_at net.status 3 == 0 && takes_too_much net) then 0 else bit_at value k)
unfolding update_status
bit_at-update_status value k net h failed l =
    let too : Bool = takes_too_much net in
    let stored : ℕ =
      if is_set value 3 && (not (is_set net.status 3) && too)
      then bit_and value (bit_not 32 8)
      else value in
    let e : (update_status value net).status ≡ stored = ground (arith, is_set_bit value 7) in
    rw e (
      ground (
        arith,
        is_set_bit value 3,
        is_set_bit net.status 3,
        bit_at-clear value 32 3 k,
        bit_at-le value 3,
        bit_at-le net.status 3,
      ))
