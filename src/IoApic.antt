-- ===== src/IoApic.antt =====
-- The class IoApic of native/whp/backend.cc: the interrupt lines of the devices, and their way to
-- the hypervisor. Entry `irq` of the redirection table has the vector in bits 0 to 7, and bits for
-- the destination mode (11), the request that waits for its end (14), the trigger mode (15) and the
-- mask (16).
pub mod Lines
pub mod Again
pub mod Order
pub mod Table
mod Tests
use node_vmm.Prelude.{
  ℕ, zero, suc, ◌+◌, ◌-◌, ◌*◌, ◌/◌, ◌%◌, ◌^◌, bit_and, bit_or, Bool, true, false, not, ◌&&◌, ◌||◌,
  ltb, leb, ◌==◌, ◌!=◌, if◌then◌else◌, List, [], ◌∷◌, ◌++◌, length,
}
use node_vmm.Bits.Fields.{bit_not}
use node_vmm.Bytes.{u32, Memory, read_u32, write_u32}
use node_vmm.Hpet.Registers.{clear_bytes}

-- `WHV_INTERRUPT_CONTROL`: the fields that are set.
pub record Control : Type 0 where
  pub logical : Bool
  pub level_triggered : Bool
  pub destination : ℕ
  pub vector : ℕ

-- `woken` counts the calls of `waker_`.
pub record IoApic : Type 0 where
  pub selected : ℕ
  pub redir : ℕ → ℕ
  pub line_level : ℕ → Bool
  pub pending : List Control
  pub woken : ℕ

abbrev pub lines : ℕ
lines = 24

abbrev pub rte_remote_irr : ℕ
rte_remote_irr = 2 ^ 14

abbrev pub rte_trigger_mode : ℕ
rte_trigger_mode = 2 ^ 15

abbrev pub rte_mask : ℕ
rte_mask = 2 ^ 16

abbrev pub rte_destination_mode : ℕ
rte_destination_mode = 2 ^ 11

abbrev pub io_apic_base : ℕ
io_apic_base = 0xfec00000

unfoldable pub initial : IoApic
initial = record {
  selected = 0;
  redir = λ irq. rte_mask;
  line_level = λ irq. false;
  pending = [];
  woken = 0;
}

abbrev pub has : ℕ → ℕ → Bool
has entry flag = bit_and entry flag != 0

abbrev pub set_entry : ℕ → ℕ → IoApic → IoApic
set_entry irq entry apic = record apic { redir = λ i. if i == irq then entry else apic.redir i }

abbrev pub vector_of : ℕ → ℕ → ℕ
vector_of irq entry = let vector = bit_and entry 0xff in if vector == 0 then 0x20 + irq else vector

unfoldable pub vector_for_irq : ℕ → IoApic → ℕ
vector_for_irq irq apic = if leb lines irq then u32 (0x20 + irq) else vector_of irq (apic.redir irq)

unfoldable pub irq_unmasked : ℕ → IoApic → Bool
irq_unmasked irq apic = ltb irq lines && not (has (apic.redir irq) rte_mask)

abbrev pub control_of : ℕ → ℕ → Control
control_of irq entry = record {
  logical = has entry rte_destination_mode;
  level_triggered = has entry rte_trigger_mode;
  destination = bit_and (entry / 2 ^ 56) 0xff;
  vector = vector_of irq entry;
}

-- Whether a request of the line gets through to the queue.
abbrev pub accepts : ℕ → IoApic → Bool
accepts irq apic =
    let entry = apic.redir irq in
    not (leb lines irq)
    && (not (has entry rte_mask)
        && (not (has entry rte_trigger_mode && has entry rte_remote_irr)
            && not (ltb 64 (length apic.pending))))

abbrev pub queued : ℕ → IoApic → IoApic
queued irq apic =
    let entry = apic.redir irq in
    let entry' = if has entry rte_trigger_mode then bit_or entry rte_remote_irr else entry in
    record (set_entry irq entry' apic) { pending = apic.pending ++ control_of irq entry ∷ [] }

abbrev pub without_remote_irr : ℕ → ℕ
without_remote_irr entry = bit_and entry (bit_not 64 rte_remote_irr)

-- The test of a round of the loop of `eoi`.
abbrev pub is_ended : ℕ → ℕ → IoApic → Bool
is_ended vector irq apic =
    has (apic.redir irq) rte_trigger_mode
    && (has (apic.redir irq) rte_remote_irr
        && vector_of irq (apic.redir irq) == bit_and vector 0xff)

abbrev pub is_entry_reg : ℕ → Bool
is_entry_reg reg = leb 0x10 reg && ltb reg (0x10 + lines * 2)

unfoldable pub read_reg : ℕ → IoApic → ℕ
read_reg reg apic =
    if reg == 0x00
    then 12 * 2 ^ 24
    else if reg == 0x01
    then bit_or 0x11 ((lines - 1) * 2 ^ 16)
    else if is_entry_reg reg
    then (let entry = apic.redir ((reg - 0x10) / 2) in
        if (reg - 0x10) % 2 == 1 then u32 (entry / 2 ^ 32) else u32 entry)
    else 0

-- The entry after a write of its low or its high half.
abbrev pub with_high_half : ℕ → ℕ → ℕ
with_high_half old value = bit_or (bit_and old 0xffffffff) (value * 2 ^ 32)

abbrev pub with_low_half : ℕ → ℕ → ℕ
with_low_half old value =
    let entry = bit_or (bit_and old 0xffffffff00000000) value in
    let kept = bit_or (without_remote_irr entry) (bit_and old rte_remote_irr) in
    if has kept rte_trigger_mode then kept else without_remote_irr kept

abbrev pub window_offset : ℕ → ℕ
window_offset addr = u32 (addr + 2 ^ 64 - io_apic_base)

-- The access is `len` bytes of host memory at `dst` or `src`.
unfoldable pub read_mmio : IoApic → ℕ → ℕ → ℕ → Memory → Memory
read_mmio apic addr dst len m =
    let cleared = clear_bytes dst len m in
    let off = window_offset addr in
    if len != 4
    then cleared
    else if off == 0x00
    then write_u32 dst apic.selected cleared
    else if off == 0x10
    then write_u32 dst (read_reg apic.selected apic) cleared
    else cleared

-- `WHvRequestInterrupt` on a partition `P`: whether it succeeded.
module _ {P : Type 0} (request_interrupt : Control → P → Bool × P) where
  -- The loop of `drain_pending_locked`: what is left, and whether the waker is called.
  unfoldable pub drain : List Control → Bool → P → List Control × Bool × P
  drain [] delivered p = ([], delivered, p)
  drain (control ∷ rest) delivered p =
      let (succeeded, p') = request_interrupt control p in
      elim succeeded [ false ↦ (control ∷ rest, false, p') | true ↦ drain rest true p' ]

  unfoldable pub drain_pending : IoApic → P → IoApic × P
  drain_pending apic p =
      let (rest, wake, p') = drain apic.pending false p in
      (record apic { pending = rest; woken = if wake then suc apic.woken else apic.woken }, p')

  unfoldable pub request_irq : ℕ → IoApic → P → IoApic × P
  request_irq irq apic p = if accepts irq apic then drain_pending (queued irq apic) p else (apic, p)

  unfoldable pub set_irq : ℕ → Bool → IoApic → P → IoApic × P
  set_irq irq level apic p =
      if leb lines irq
      then (apic, p)
      else (let apic' = record apic {
        line_level = λ i. if i == irq then level else apic.line_level i;
      } in
          if level then request_irq irq apic' p else (apic', p))

  -- One round of the loop of `eoi`.
  unfoldable pub eoi_line : ℕ → ℕ → IoApic → P → IoApic × P
  eoi_line vector irq apic p =
      if is_ended vector irq apic
      then (let cleared = set_entry irq (without_remote_irr (apic.redir irq)) apic in
          if apic.line_level irq && not (has (cleared.redir irq) rte_mask)
          then request_irq irq cleared p
          else (cleared, p))
      else (apic, p)

  -- The loop of `eoi`, `n` rounds from `irq` on.
  unfoldable pub eoi_lines : ℕ → ℕ → ℕ → IoApic → P → IoApic × P
  eoi_lines vector zero irq apic p = (apic, p)
  eoi_lines vector (suc n) irq apic p =
      let (apic', p') = eoi_line vector irq apic p in eoi_lines vector n (irq + 1) apic' p'

  unfoldable pub eoi : ℕ → IoApic → P → IoApic × P
  eoi vector apic p = let (apic', p') = eoi_lines vector lines 0 apic p in drain_pending apic' p'

  unfoldable pub write_reg : ℕ → ℕ → IoApic → P → IoApic × P
  write_reg reg value apic p =
      let irq = (reg - 0x10) / 2 in
      let old = apic.redir irq in
      let low = set_entry irq (with_low_half old value) apic in
      if not (is_entry_reg reg)
      then (apic, p)
      else if (reg - 0x10) % 2 == 1
      then (set_entry irq (with_high_half old value) apic, p)
      else if has old rte_mask && (not (has (low.redir irq) rte_mask) && apic.line_level irq)
      then request_irq irq low p
      else (low, p)

  unfoldable pub write_mmio : ℕ → ℕ → ℕ → Memory → IoApic → P → IoApic × P
  write_mmio addr src len m apic p =
      let off = window_offset addr in
      let value = read_u32 src m in
      if len != 4
      then (apic, p)
      else if off == 0x00
      then (record apic { selected = bit_and value 0xff }, p)
      else if off == 0x10
      then write_reg apic.selected value apic p
      else (apic, p)
