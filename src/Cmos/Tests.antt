-- ===== src/Cmos/Tests.antt =====
-- The clock at one moment.
use node_vmm.Prelude.{◌≡◌, refl, [], ◌∷◌, arith}
use node_vmm.Cmos.{SystemTime, encode_time_value, initial, read_port, write_port}
use node_vmm.Cmos.Clock.{in_format, write_ports, read_port_time}

abbrev noon : SystemTime
noon = record {
  year = 2024;
  month = 2;
  day_of_week = 4;
  day = 29;
  hour = 12;
  minute = 34;
  second = 56;
}

minute_here : (read_port noon (write_port (initial noon) 0x70 0x02) 0x71).0 ≡ 0x34
unfolding read_port write_port initial encode_time_value
minute_here = refl

read_port_time_example :
    let written = write_ports (initial noon) ((0x70, 0x0b) ∷ (0x71, 0x06) ∷ []) in
    (read_port noon (write_port written 0x70 0x02) 0x71).0 ≡ in_format (written.regs 0x0b) 34
read_port_time_example =
    read_port_time noon (initial noon) ((0x70, 0x0b) ∷ (0x71, 0x06) ∷ []) 0x02 (omega arith) refl
      (omega arith)
