-- ===== src/Pic.antt =====
-- native/whp/devices/pic.h and native/whp/devices/pic.cc: the pair of 8259A interrupt controllers.
-- The debug output, which an environment variable turns on, is left out.
pub mod Init
pub mod Request
mod Tests
use node_vmm.Prelude.{
  ℕ, ◌+◌, ◌*◌, ◌^◌, bit_and, Bool, true, false, ◌&&◌, ltb, ◌==◌, ◌!=◌, if◌then◌else◌,
}
use node_vmm.Irq.{Api, request_fixed_interrupt}

pub record Controller : Type 0 where
  pub vector : ℕ
  pub mask : ℕ
  pub init_step : ℕ

pub record Pic : Type 0 where
  pub master : Controller
  pub slave : Controller

-- The state that the constructor leaves.
unfoldable pub initial : Pic
initial = record {
  master = record { vector = 0x20; mask = 0xfe; init_step = 0 };
  slave = record { vector = 0x28; mask = 0xff; init_step = 0 };
}

unfoldable pub read_port : Pic → ℕ → ℕ
read_port pic port =
    if port == 0x21 then pic.master.mask else if port == 0xa1 then pic.slave.mask else 0

unfoldable pub write_command : Controller → ℕ → Controller
write_command controller value =
    if bit_and value 0x10 != 0 then record controller { init_step = 2; mask = 0xff } else controller

unfoldable pub write_data : Controller → ℕ → Controller
write_data controller value =
    if controller.init_step == 2
    then record controller { vector = value; init_step = 3 }
    else if controller.init_step == 3
    then record controller { init_step = 4 }
    else if controller.init_step == 4
    then record controller { init_step = 0 }
    else record controller { mask = value }

unfoldable pub write_port : Pic → ℕ → ℕ → Pic
unfolding write_command write_data
write_port pic port value =
    if port == 0x20
    then record pic { master = write_command pic.master value }
    else if port == 0x21
    then record pic { master = write_data pic.master value }
    else if port == 0xa0
    then record pic { slave = write_command pic.slave value }
    else if port == 0xa1
    then record pic { slave = write_data pic.slave value }
    else pic

unfoldable pub is_initialized : Pic → Bool
is_initialized pic = pic.master.vector != 0x20

unfoldable pub irq_unmasked : Pic → ℕ → Bool
irq_unmasked pic irq = ltb irq 8 && bit_and pic.master.mask (2 ^ irq) == 0

unfoldable pub vector_for_irq : Pic → ℕ → ℕ
vector_for_irq pic irq = if ltb irq 8 then pic.master.vector + irq else 0x20 + irq

-- Whether the request was made and accepted, and the partition after it.
unfoldable pub request_irq : (api : Api) → Pic → api.Partition → ℕ → Bool × api.Partition
unfolding request_fixed_interrupt
request_irq api pic partition irq =
    if ltb irq 8
    then if bit_and pic.master.mask (2 ^ irq) != 0
      then (false, partition)
      else request_fixed_interrupt api partition (pic.master.vector + irq)
    else (false, partition)
