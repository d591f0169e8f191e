-- ===== src/Irq.antt =====
-- native/whp/irq.h and native/whp/irq.cc: delivery of external interrupts to one vCPU. The Windows
-- Hypervisor Platform is a parameter, an `Api` over an abstract partition; `SUCCEEDED` is a Bool.
pub mod Deliver
mod Tests
use node_vmm.Prelude.{
  ℕ, ◌%◌, ◌^◌, bit_and, Bool, true, false, not, ◌&&◌, ◌!=◌, if◌then◌else◌, Option, none, some, List,
  [], ◌∷◌,
}
use node_vmm.Bytes.{u32}

-- `WHvRegisterInternalActivityState`: the bit that the code reads, and the others.
pub record InternalActivity : Type 0 where
  pub halt_suspend : Bool
  pub other_bits : ℕ

-- The register values that the code writes.
pub data RegisterValue : Type 0 where
  pending_ext_int : ℕ → RegisterValue
  interrupt_notification : Bool → RegisterValue
  internal_activity : InternalActivity → RegisterValue

-- `WHV_INTERRUPT_CONTROL` of a fixed, physical, edge-triggered interrupt.
pub record InterruptControl : Type 0 where
  pub destination : ℕ
  pub vector : ℕ

-- What `WHvGetVirtualProcessorRegisters` answers for the three registers of `ReadInterruptibility`.
pub record InterruptRegisters : Type 0 where
  pub rflags : ℕ
  pub interrupt_shadow : Bool
  pub ext_int_pending : Bool

pub record Api : Type 1 where
  pub Partition : Type 0
  pub request_interrupt : Partition → InterruptControl → Bool × Partition
  pub set_vp_registers : Partition → ℕ → RegisterValue → Bool × Partition
  pub get_internal_activity : Partition → ℕ → Option InternalActivity
  pub get_interrupt_registers : Partition → ℕ → Option InterruptRegisters

pub record VcpuIrqState : Type 0 where
  pub index : ℕ
  pub interruptable : Bool
  pub interrupt_flag : Bool
  pub interruption_pending : Bool
  pub ready_for_pic_interrupt : Bool
  pub window_registered : Bool
  pub ext_int_pending : Bool
  pub ext_int_vector : ℕ

pub record InterruptibilitySnapshot : Type 0 where
  pub if_set : Bool
  pub shadow : Bool
  pub event_pending : Bool

-- `WHV_RUN_VP_EXIT_CONTEXT`, as far as it is read.
pub record ExitContext : Type 0 where
  pub rflags : ℕ
  pub interrupt_shadow : Bool
  pub interruption_pending : Bool

pub data InjectDecision : Type 0 where
  no_pending inject arm_window : InjectDecision

unfoldable pub update_vcpu_from_exit : VcpuIrqState → ExitContext → VcpuIrqState
update_vcpu_from_exit vcpu ctx = record vcpu {
  interruption_pending = ctx.interruption_pending;
  interruptable = not ctx.interrupt_shadow;
  interrupt_flag = bit_and ctx.rflags 0x200 != 0;
}

unfoldable pub evaluate_inject_decision : VcpuIrqState → InjectDecision
evaluate_inject_decision vcpu =
    let can_inject =
      vcpu.ready_for_pic_interrupt
      && (vcpu.interruptable && (vcpu.interrupt_flag && not vcpu.interruption_pending)) in
    if not vcpu.ext_int_pending then no_pending else if can_inject then inject else arm_window

module _ (api : Api) where
  open api use {
    Partition, request_interrupt, set_vp_registers, get_internal_activity, get_interrupt_registers,
  }

  unfoldable pub request_fixed_interrupt : Partition → ℕ → Bool × Partition
  request_fixed_interrupt partition vector =
      request_interrupt partition (record { destination = 0; vector = u32 vector })

  unfoldable pub read_interruptibility : Partition → ℕ → Option InterruptibilitySnapshot
  read_interruptibility partition vp_index = elim (get_interrupt_registers partition vp_index) [
    | none ↦ none
    | some r ↦ some (record {
      if_set = bit_and r.rflags 0x200 != 0;
      shadow = r.interrupt_shadow;
      event_pending = r.ext_int_pending;
    })
  ]

  unfoldable pub set_pending_ext_int : Partition → ℕ → ℕ → Bool × Partition
  set_pending_ext_int partition vp_index vector =
      set_vp_registers partition vp_index (pending_ext_int (bit_and vector 0xff))

  unfoldable pub arm_interrupt_window : Partition → VcpuIrqState → Partition × VcpuIrqState
  arm_interrupt_window partition vcpu =
      if vcpu.window_registered
      then (partition, vcpu)
      else (let (succeeded, partition') =
            set_vp_registers partition vcpu.index (interrupt_notification true) in
          (partition', if succeeded then record vcpu { window_registered = true } else vcpu))

  unfoldable pub disarm_interrupt_window : Partition → VcpuIrqState → Partition × VcpuIrqState
  disarm_interrupt_window partition vcpu =
      if not vcpu.window_registered then (partition, vcpu) else (
        (set_vp_registers partition vcpu.index (interrupt_notification false)).1,
        record vcpu { window_registered = false },
      )

  unfoldable pub kick_vcpu_out_of_hlt : Partition → ℕ → Partition
  kick_vcpu_out_of_hlt partition vp_index = elim (get_internal_activity partition vp_index) [
    | none ↦ partition
    | some value ↦
        if value.halt_suspend
        then (set_vp_registers partition vp_index
            (internal_activity (record value { halt_suspend = false }))).1
        else partition
  ]

  -- The end of `TryDeliverPendingExtInt`, where nothing was injected.
  unfoldable pub defer : Partition → VcpuIrqState → Bool × Partition × VcpuIrqState
  unfolding arm_interrupt_window
  defer partition vcpu =
      let (partition', vcpu') = arm_interrupt_window partition vcpu in (false, partition', vcpu')

  -- The branch of `TryDeliverPendingExtInt` that injects, without its debug output.
  unfoldable pub try_inject : Partition → VcpuIrqState → Bool × Partition × VcpuIrqState
  unfolding set_pending_ext_int kick_vcpu_out_of_hlt disarm_interrupt_window defer
  try_inject partition vcpu =
      let (succeeded, partition₁) = set_pending_ext_int partition vcpu.index vcpu.ext_int_vector in
      let vcpu₁ = record vcpu { ext_int_pending = false; ready_for_pic_interrupt = false } in
      let partition₂ = kick_vcpu_out_of_hlt partition₁ vcpu₁.index in
      let (partition₃, vcpu₃) = disarm_interrupt_window partition₂ vcpu₁ in
      if succeeded then (true, partition₃, vcpu₃) else defer partition₁ vcpu

  unfoldable pub try_deliver_pending_ext_int :
      Partition → VcpuIrqState → Bool × Partition × VcpuIrqState
  unfolding evaluate_inject_decision try_inject defer
  try_deliver_pending_ext_int partition vcpu = elim (evaluate_inject_decision vcpu) [
    | no_pending ↦ (true, partition, vcpu)
    | inject ↦ try_inject partition vcpu
    | arm_window ↦ defer partition vcpu
  ]
