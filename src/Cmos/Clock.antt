-- ===== src/Cmos/Clock.antt =====
-- What the ports of the clock give, against the host's time.
use node_vmm.Prelude.{
  ℕ, ◌+◌, ◌/◌, ◌%◌, ◌<◌, ◌≡◌, ◌≢◌, ◌⊎◌, ap, ◌∙◌, arith, bit_and, bit_or, ◌*◌, ◌^◌, if◌then◌else◌,
  ◌==◌, List, [], ◌∷◌, Option, none, some,
}
use node_vmm.Bits.Fields.{bit_and_mask, bit_or_fields}
use node_vmm.Cmos.{SystemTime, Cmos, to_bcd, encode_time_value, refresh_time, read_port, write_port}

-- The field of the host's time that a register shows.
abbrev pub time_field : SystemTime → ℕ → Option ℕ
time_field now reg =
    if reg == 0x00
    then some now.second
    else if reg == 0x02
    then some now.minute
    else if reg == 0x04
    then some now.hour
    else if reg == 0x06
    then some (now.day_of_week + 1)
    else if reg == 0x07
    then some now.day
    else if reg == 0x08
    then some now.month
    else if reg == 0x09
    then some (now.year % 100)
    else if reg == 0x32
    then some (now.year / 100)
    else none

-- What the guest has written: ports and values, in order.
pub write_ports : Cmos → List (ℕ × ℕ) → Cmos
write_ports cmos [] = cmos
write_ports cmos ((port, value) ∷ ws) = write_ports (write_port cmos port value) ws

refresh_time_field :
    (now : SystemTime) (cmos : Cmos) (reg : ℕ) {value : ℕ}
    → time_field now reg ≡ some value
    → (refresh_time now cmos).regs reg ≡ encode_time_value cmos.regs value
unfolding refresh_time
refresh_time_field now cmos reg e = ground arith

-- A field as status register B selects: in binary where its bit 2 (DM) is set, and otherwise with
-- the tens in the high half of the byte and the ones in the low half.
abbrev pub in_format : ℕ → ℕ → ℕ
in_format status_b value =
    if bit_and status_b 0x04 == 0 then value / 10 * 16 + value % 10 else value

encode_time_value-in_format :
    (regs : ℕ → ℕ) (value : ℕ)
    → value < 100
    → encode_time_value regs value ≡ in_format (regs 0x0b) value
unfolding encode_time_value to_bcd
encode_time_value-in_format regs value h =
    let digits : bit_or (value / 10 * 2 ^ 4) (value % 10) ≡ value / 10 * 2 ^ 4 + value % 10 =
      bit_or_fields (value / 10) 4 (value % 10) (omega arith) in
    ground (arith, digits)

-- After any writes to any ports, selecting a time register and reading the data port gives the
-- field of the host's time at that moment, which is below 100: in binary where bit 2 of status
-- register B is set then, and as two decimal digits in the halves of the byte where it is not.
pub read_port_time :
    (now : SystemTime) (cmos : Cmos) (ws : List (ℕ × ℕ)) (reg : ℕ) {value : ℕ}
    → reg < 0x80
    → time_field now reg ≡ some value
    → value < 100
    → let written = write_ports cmos ws in
      (read_port now (write_port written 0x70 reg) 0x71).0 ≡ in_format (written.regs 0x0b) value
unfolding read_port write_port
read_port_time now cmos ws reg {value} h e small =
    let written = write_ports cmos ws in
    let selected : bit_and reg 0x7f ≡ reg = omega (arith, bit_and_mask reg 7) in
    ap (refresh_time now (record written { selected = reg })).regs selected
    ∙ (refresh_time_field now (record written { selected = reg }) reg e
        ∙ encode_time_value-in_format written.regs value small)

-- What is written to a status register or to the shutdown register is read back after a write to
-- another register.
pub read_port-write_port :
    (now : SystemTime) (cmos : Cmos) (reg value : ℕ)
    → (reg ≡ 0x0a) ⊎ ((reg ≡ 0x0b) ⊎ ((reg ≡ 0x0c) ⊎ (reg ≡ 0x0f)))
    → (other other_value : ℕ) → other < 0x80
    → other ≢ reg
    → let write = λ (c : Cmos) (r v : ℕ). write_port (write_port c 0x70 r) 0x71 v in
      let after = write (write cmos reg value) other other_value in
      (read_port now (write_port after 0x70 reg) 0x71).0 ≡ value
unfolding read_port refresh_time write_port
read_port-write_port now cmos reg value h other other_value lt ne =
    ground (arith, bit_and_mask reg 7, bit_and_mask other 7)
