-- ===== src/Pic/Tests.antt =====
-- The initialisation that Linux makes, and requests after it.
use node_vmm.Prelude.{ℕ, ◌≡◌, refl, true, none, List, ◌∷◌, arith}
use node_vmm.Irq.{Api}
use node_vmm.Pic.{Pic, initial, write_port, write_command}
use node_vmm.Pic.Init.{IsValid, init_sequence}

abbrev recording : Api
recording = record {
  Partition = List ℕ;
  request_interrupt = λ partition control. (true, control.vector ∷ partition);
  set_vp_registers = λ partition index value. (true, partition);
  get_internal_activity = λ partition index. none;
  get_interrupt_registers = λ partition index. none;
}

-- After the command word, before the vector base.
abbrev started : Pic
started = record {
  master = record { vector = 0x20; mask = 0xff; init_step = 2 };
  slave = record { vector = 0x28; mask = 0xff; init_step = 0 };
}

started_here : write_port initial 0x20 0x11 ≡ started
unfolding write_port write_command initial
started_here = refl

started-IsValid : IsValid started
started-IsValid = ground arith

init_sequence_example :
    let on = λ (command port : ℕ).
      write_port
        (write_port
          (write_port (write_port (write_port started command 0x11) port 0x30) port 4)
          port
          1)
        port
        0xfb in
    (on 0x20 0x21
      ≡ record started { master = record { vector = 0x30; mask = 0xfb; init_step = 0 } })
    × (on 0xa0 0xa1
        ≡ record started { slave = record { vector = 0x30; mask = 0xfb; init_step = 0 } })
init_sequence_example = init_sequence started 0x11 0x30 4 1 0xfb (omega arith)
