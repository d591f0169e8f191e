-- ===== src/Irq/Tests.antt =====
-- Deliveries on a platform that accepts everything, and keeps what it was told.
use node_vmm.Prelude.{◌≡◌, refl, ℕ, Bool, Option, true, false, none, some, List, [], ◌∷◌}
use node_vmm.Irq.{
  Api, VcpuIrqState, RegisterValue, pending_ext_int, interrupt_notification, internal_activity,
  try_deliver_pending_ext_int,
}
use node_vmm.Irq.Deliver.{IsDeliverable, IsPlatform, try_deliver_injects}

abbrev recording : Api
recording = record {
  Partition = List RegisterValue;
  request_interrupt = λ partition control. (true, pending_ext_int control.vector ∷ partition);
  set_vp_registers = λ partition index value. (true, value ∷ partition);
  get_internal_activity = λ partition index. some (record { halt_suspend = true; other_bits = 0 });
  get_interrupt_registers = λ partition index. none;
}

abbrev open_vcpu : VcpuIrqState
open_vcpu = record {
  index = 0;
  interruptable = true;
  interrupt_flag = true;
  interruption_pending = false;
  ready_for_pic_interrupt = true;
  window_registered = true;
  ext_int_pending = true;
  ext_int_vector = 0x31;
}

abbrev shut_vcpu : VcpuIrqState
shut_vcpu = record open_vcpu { interrupt_flag = false; window_registered = false }

open_vcpu-IsDeliverable : IsDeliverable open_vcpu
open_vcpu-IsDeliverable = record {
  pending = refl;
  ready = refl;
  no_shadow = refl;
  enabled = refl;
  no_event = refl;
}

deferred_here : (try_deliver_pending_ext_int recording [] shut_vcpu).0 ≡ false
unfolding try_deliver_pending_ext_int
deferred_here = refl

-- One vCPU as its event and whether it is halted.
abbrev set_one : Option ℕ × Bool → RegisterValue → Option ℕ × Bool
set_one (event, halted) (pending_ext_int vector) = (some vector, halted)
set_one (event, halted) (interrupt_notification on) = (event, halted)
set_one (event, halted) (internal_activity a) = (event, a.halt_suspend)

abbrev one_vcpu : Api
one_vcpu = record {
  Partition = Option ℕ × Bool;
  request_interrupt = λ partition control. (true, partition);
  set_vp_registers = λ partition index value. (true, set_one partition value);
  get_internal_activity =
      λ partition index. some (record { halt_suspend = partition.1; other_bits = 0 });
  get_interrupt_registers = λ partition index. none;
}

one_vcpu-IsPlatform : IsPlatform one_vcpu (λ p vp. p.0) (λ p vp. p.1)
one_vcpu-IsPlatform = record {
  event_taken = λ p vp vector h. refl;
  activity_taken = λ p vp a. (refl, refl);
  notification_taken = λ p vp on. (refl, refl);
  activity_shown = λ p vp. (record { halt_suspend = p.1; other_bits = 0 }, refl, refl);
}

try_deliver_injects_example :
    let (done, partition', vcpu') = try_deliver_pending_ext_int one_vcpu (none, true) open_vcpu in
    (done ≡ true)
    × (vcpu' ≡ record open_vcpu {
      ext_int_pending = false;
      ready_for_pic_interrupt = false;
      window_registered = false;
    })
    × (partition'.0 ≡ some 0x31)
    × (partition'.1 ≡ false)
try_deliver_injects_example =
    try_deliver_injects one_vcpu (λ p vp. p.0) (λ p vp. p.1) one_vcpu-IsPlatform (none, true)
      open_vcpu open_vcpu-IsDeliverable refl
