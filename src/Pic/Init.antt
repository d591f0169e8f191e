-- ===== src/Pic/Init.antt =====
-- The initialisation sequence of a controller.
use node_vmm.Prelude.{ℕ, ◌≤◌, ◌<◌, ◌≡◌, ◌≢◌, ◌⊎◌, bit_and, arith}
use node_vmm.Pic.{Controller, Pic, initial, write_port}

-- What holds of a controller at any time: it is idle or waits for one of three words, and while it
-- waits all its lines are masked.
pub record IsSound (c : Controller) : Type 0 where
  pub vector_byte : c.vector < 256
  pub mask_byte : c.mask < 256
  pub step : (c.init_step ≡ 0) ⊎ ((2 ≤ c.init_step) × (c.init_step ≤ 4))
  pub masked : c.init_step ≢ 0 → c.mask ≡ 0xff

pub record IsValid (pic : Pic) : Type 0 where
  pub master_sound : IsSound pic.master
  pub slave_sound : IsSound pic.slave

pub initial-IsValid : IsValid initial
unfolding initial
initial-IsValid = ground arith

-- Writing a byte to any port keeps the invariant: the fields are bytes, a controller is idle or
-- waits for one of three words, and all its lines are masked while it waits.
pub write_port-IsValid :
    {pic : Pic} (port value : ℕ) → value < 256 → IsValid pic → IsValid (write_port pic port value)
unfolding write_port
write_port-IsValid port value h v = ground arith

-- From any state, the command word with bit 4, the vector base, two more words and a mask leave
-- the controller idle with that vector base and that mask, and do not touch the other controller:
-- on the ports of the master and on those of the slave.
pub init_sequence :
    (pic : Pic) (icw1 base icw3 icw4 mask : ℕ)
    → bit_and icw1 0x10 ≢ 0
    → let on = λ (command port : ℕ).
      write_port
        (write_port
          (write_port (write_port (write_port pic command icw1) port base) port icw3)
          port
          icw4)
        port
        mask in
      (on 0x20 0x21 ≡ record pic { master = record { vector = base; mask = mask; init_step = 0 } })
      × (on 0xa0 0xa1 ≡ record pic { slave = record { vector = base; mask = mask; init_step = 0 } })
unfolding write_port
init_sequence pic icw1 base icw3 icw4 mask h = ground arith
