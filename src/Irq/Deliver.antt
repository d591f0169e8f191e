-- ===== src/Irq/Deliver.antt =====
-- `TryDeliverPendingExtInt`: injected, deferred, or nothing to do.
use node_vmm.Prelude.{
  ℕ, ◌≡◌, ◌⊎◌, Bool, true, false, not, arith, refl, sym, ap, ◌∙◌, Option, some, bit_and, if_intro,
  Bool-cases, inl, inr,
}
use node_vmm.Irq.{
  Api, VcpuIrqState, InternalActivity, pending_ext_int, interrupt_notification, internal_activity,
  evaluate_inject_decision, set_pending_ext_int, disarm_interrupt_window, kick_vcpu_out_of_hlt,
  try_deliver_pending_ext_int,
}

-- What the guest must allow for an injection.
pub record IsDeliverable (vcpu : VcpuIrqState) : Type 0 where
  pub pending : vcpu.ext_int_pending ≡ true
  pub ready : vcpu.ready_for_pic_interrupt ≡ true
  pub no_shadow : vcpu.interruptable ≡ true
  pub enabled : vcpu.interrupt_flag ≡ true
  pub no_event : vcpu.interruption_pending ≡ false

module _ (api : Api) (partition : api.Partition) (vcpu : VcpuIrqState) where
  -- The call answers `true` exactly when nothing stays pending, and where it answers `false` the
  -- interrupt is still pending with the same vector, and the window is armed unless the platform
  -- refused to arm it.
  pub try_deliver_keeps :
      let (done, partition', vcpu') = try_deliver_pending_ext_int api partition vcpu in
      (vcpu'.ext_int_vector ≡ vcpu.ext_int_vector)
      × (((done ≡ true) × (vcpu'.ext_int_pending ≡ false))
          ⊎ ((done ≡ false)
              × (vcpu'.ext_int_pending ≡ true)
              × ((vcpu'.window_registered ≡ true) ⊎ (vcpu' ≡ vcpu))))
  unfolding try_deliver_pending_ext_int evaluate_inject_decision
  try_deliver_keeps = ground arith

  -- The calls that an injection makes.
  try_deliver_calls :
      IsDeliverable vcpu
      → (set_pending_ext_int api partition vcpu.index vcpu.ext_int_vector).0 ≡ true
      → let (done, partition', vcpu') = try_deliver_pending_ext_int api partition vcpu in
        (done ≡ true)
        × (vcpu' ≡ record vcpu {
          ext_int_pending = false;
          ready_for_pic_interrupt = false;
          window_registered = false;
        })
        × (partition'
            ≡ (disarm_interrupt_window api
                (kick_vcpu_out_of_hlt api
                  (set_pending_ext_int api partition vcpu.index vcpu.ext_int_vector).1
                  vcpu.index)
                vcpu).0)
  unfolding try_deliver_pending_ext_int evaluate_inject_decision
  try_deliver_calls d h = ground arith

-- What the Windows Hypervisor Platform does with the registers of a vCPU: `event` is the external
-- interrupt that it is to take, and `halted` tells whether it waits in HLT. A write of one register
-- leaves the other as it is.
pub record IsPlatform (api : Api) (event : api.Partition → ℕ → Option ℕ)
    (halted : api.Partition → ℕ → Bool) : Type 0 where
  pub event_taken :
      (p : api.Partition) (vp vector : ℕ)
      → (api.set_vp_registers p vp (pending_ext_int vector)).0 ≡ true
      → event (api.set_vp_registers p vp (pending_ext_int vector)).1 vp ≡ some vector
  pub activity_taken :
      (p : api.Partition) (vp : ℕ) (a : InternalActivity)
      → (halted (api.set_vp_registers p vp (internal_activity a)).1 vp ≡ a.halt_suspend)
        × (event (api.set_vp_registers p vp (internal_activity a)).1 vp ≡ event p vp)
  pub notification_taken :
      (p : api.Partition) (vp : ℕ) (on : Bool)
      → (halted (api.set_vp_registers p vp (interrupt_notification on)).1 vp ≡ halted p vp)
        × (event (api.set_vp_registers p vp (interrupt_notification on)).1 vp ≡ event p vp)
  pub activity_shown :
      (p : api.Partition) (vp : ℕ)
      → (a : InternalActivity) × (api.get_internal_activity p vp ≡ some a)
        × (a.halt_suspend ≡ halted p vp)

module _ (api : Api) (event : api.Partition → ℕ → Option ℕ) (halted : api.Partition → ℕ → Bool)
    (platform : IsPlatform api event halted) where
  -- The vCPU runs, with the event that it had.
  kick_vcpu_out_of_hlt_wakes :
      (p : api.Partition) (vp : ℕ)
      → (halted (kick_vcpu_out_of_hlt api p vp) vp ≡ false)
        × (event (kick_vcpu_out_of_hlt api p vp) vp ≡ event p vp)
  unfolding kick_vcpu_out_of_hlt
  kick_vcpu_out_of_hlt_wakes p vp =
      let (a, shown, same) = platform.activity_shown p vp in
      elim (Bool-cases a.halt_suspend) [
        | inl e ↦
            rw (kick_vcpu_out_of_hlt, shown, e)
              (platform.activity_taken p vp (record a { halt_suspend = false }))
        | inr e ↦ rw (kick_vcpu_out_of_hlt, shown, e) (sym same ∙ e, refl)
      ]

  disarm_interrupt_window_keeps :
      (p : api.Partition) (vcpu : VcpuIrqState)
      → (halted (disarm_interrupt_window api p vcpu).0 vcpu.index ≡ halted p vcpu.index)
        × (event (disarm_interrupt_window api p vcpu).0 vcpu.index ≡ event p vcpu.index)
  unfolding disarm_interrupt_window
  disarm_interrupt_window_keeps p vcpu =
      if_intro
        (λ (r : api.Partition × VcpuIrqState).
          (halted r.0 vcpu.index ≡ halted p vcpu.index)
          × (event r.0 vcpu.index ≡ event p vcpu.index))
        (not vcpu.window_registered) (refl, refl) (platform.notification_taken p vcpu.index false)

  -- In a deliverable state, where the platform takes the event, the call answers `true`, the state
  -- is cleared of the interrupt and of the window, and the vCPU has the low byte of the vector as
  -- the interrupt to take and is not halted, whether it was or not.
  pub try_deliver_injects :
      (partition : api.Partition) (vcpu : VcpuIrqState)
      → IsDeliverable vcpu
      → (api.set_vp_registers partition vcpu.index
          (pending_ext_int (bit_and vcpu.ext_int_vector 0xff))).0
        ≡ true
      → let (done, partition', vcpu') = try_deliver_pending_ext_int api partition vcpu in
        (done ≡ true)
        × (vcpu' ≡ record vcpu {
          ext_int_pending = false;
          ready_for_pic_interrupt = false;
          window_registered = false;
        })
        × (event partition' vcpu.index ≡ some (bit_and vcpu.ext_int_vector 0xff))
        × (halted partition' vcpu.index ≡ false)
  unfolding set_pending_ext_int
  try_deliver_injects partition vcpu d h =
      let vector : ℕ = bit_and vcpu.ext_int_vector 0xff in
      let p : api.Partition =
        (api.set_vp_registers partition vcpu.index (pending_ext_int vector)).1 in
      let (answer, state, calls) = try_deliver_calls api partition vcpu d h in
      let (runs, same) = kick_vcpu_out_of_hlt_wakes p vcpu.index in
      let (runs', same') =
        disarm_interrupt_window_keeps (kick_vcpu_out_of_hlt api p vcpu.index) vcpu in
      (
        answer,
        state,
        ap (λ q. event q vcpu.index) calls
            ∙ (same' ∙ (same ∙ platform.event_taken partition vcpu.index vector h)),
        ap (λ q. halted q vcpu.index) calls ∙ (runs' ∙ runs),
      )
