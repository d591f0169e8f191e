-- ===== src/Cmos.antt =====
-- native/whp/devices/cmos.h and native/whp/devices/cmos.cc: the CMOS clock. What `GetSystemTime`
-- answers is an argument of each operation that asks for it.
pub mod Clock
mod Tests
use node_vmm.Prelude.{
  ℕ, ◌+◌, ◌*◌, ◌/◌, ◌%◌, ◌^◌, bit_and, bit_or, Bool, ◌||◌, ◌==◌, ◌!=◌, if◌then◌else◌,
}
use node_vmm.Bytes.{u8}

-- `SYSTEMTIME`, as far as it is read; Sunday is day 0 of the week.
pub record SystemTime : Type 0 where
  pub year : ℕ
  pub month : ℕ
  pub day_of_week : ℕ
  pub day : ℕ
  pub hour : ℕ
  pub minute : ℕ
  pub second : ℕ

-- The registers are a function of their number, below 0x80.
pub record Cmos : Type 0 where
  pub selected : ℕ
  pub regs : ℕ → ℕ

abbrev pub set_reg : ℕ → ℕ → (ℕ → ℕ) → ℕ → ℕ
set_reg reg value regs = λ r. if r == reg then value else regs r

unfoldable pub to_bcd : ℕ → ℕ
to_bcd value = u8 (bit_or (value / 10 * 2 ^ 4) (value % 10))

unfoldable pub encode_time_value : (ℕ → ℕ) → ℕ → ℕ
unfolding to_bcd
encode_time_value regs value = if bit_and (regs 0x0b) 0x04 != 0 then u8 value else to_bcd value

-- None of the assignments writes register 0x0b, which the encoding reads.
unfoldable pub refresh_time : SystemTime → Cmos → Cmos
refresh_time now cmos =
    let encode = encode_time_value cmos.regs in
    record cmos {
      regs = set_reg 0x32 (encode (now.year / 100)) (
          set_reg 0x09 (encode (now.year % 100)) (
            set_reg 0x08 (encode now.month) (
              set_reg 0x07 (encode now.day) (
                set_reg 0x06 (encode (now.day_of_week + 1)) (
                  set_reg 0x04 (encode now.hour) (
                    set_reg 0x02 (encode now.minute)
                      (set_reg 0x00 (encode now.second) cmos.regs)))))));
    }

-- The constructor.
unfoldable pub initial : SystemTime → Cmos
unfolding refresh_time
initial now = refresh_time now (record {
  selected = 0;
  regs = set_reg 0x0f 0x00 (set_reg 0x0d 0x80 (set_reg 0x0b 0x02 (set_reg 0x0a 0x26 (λ r. 0))));
})

unfoldable pub read_port : SystemTime → Cmos → ℕ → ℕ × Cmos
unfolding refresh_time
read_port now cmos port =
    if port == 0x71
    then (let cmos' = refresh_time now cmos in (cmos'.regs (bit_and cmos'.selected 0x7f), cmos'))
    else (0xff, cmos)

unfoldable pub write_port : Cmos → ℕ → ℕ → Cmos
write_port cmos port value =
    let reg = bit_and cmos.selected 0x7f in
    if port == 0x70
    then record cmos { selected = value }
    else if port == 0x71
    then if reg == 0x0a || (reg == 0x0b || (reg == 0x0c || reg == 0x0f))
      then record cmos { regs = set_reg reg value cmos.regs }
      else cmos
    else cmos
