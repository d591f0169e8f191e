-- ===== src/Pit.antt =====
-- native/whp/devices/pit.h and native/whp/devices/pit.cc: the 8254 interval timer. A point in time is
-- the count of nanoseconds on the steady clock, and each operation takes the reading of
-- `Clock::now()` that it makes. A `uint64_t` product is cut to 64 bits, as in the source.
pub mod Program
pub mod Poll
pub mod Latch
mod Tests
use node_vmm.Prelude.{
  ℕ, zero, suc, ◌+◌, ◌-◌, ◌*◌, ◌/◌, ◌%◌, ◌^◌, max, bit_and, bit_or, Bool, true, false, not, ◌&&◌,
  ◌||◌, ltb, leb, ◌==◌, ◌!=◌, if◌then◌else◌,
}
use node_vmm.Bytes.{u16, u32, u64}

abbrev pub pit_hz : ℕ
pit_hz = 1193182

pub record Channel : Type 0 where
  pub reload : ℕ
  pub latch : ℕ
  pub latch_valid : Bool
  pub access : ℕ
  pub mode : ℕ
  pub write_phase : ℕ
  pub read_phase : ℕ
  pub start : ℕ
  pub next_irq : ℕ
  pub irq_enabled : Bool

-- `std::array<Channel, 3>` by its elements.
pub record Pit : Type 0 where
  pub channel₀ : Channel
  pub channel₁ : Channel
  pub channel₂ : Channel
  pub channel2_gated : Bool

-- `channels_[index]` and the assignment to it, at an index below 3.
abbrev pub get_channel : Pit → ℕ → Channel
get_channel pit index =
    if index == 0 then pit.channel₀ else if index == 1 then pit.channel₁ else pit.channel₂

abbrev pub set_channel : Pit → ℕ → Channel → Pit
set_channel pit index channel =
    if index == 0
    then record pit { channel₀ = channel }
    else if index == 1
    then record pit { channel₁ = channel }
    else record pit { channel₂ = channel }

unfoldable pub divisor : Channel → ℕ
divisor channel = if channel.reload == 0 then 65536 else channel.reload

unfoldable pub irq_interval : Channel → ℕ
unfolding divisor
irq_interval channel = max (u64 (divisor channel * 1000000000) / pit_hz) 1000000

-- Ticks since `start`; none where no time has passed.
abbrev pub elapsed_ticks : ℕ → ℕ → ℕ
elapsed_ticks start now = if leb now start then 0 else u64 ((now - start) * pit_hz) / 1000000000

-- The subtraction of the second branch is on `uint32_t`; the first cannot wrap.
unfoldable pub current_count : ℕ → Channel → ℕ
unfolding divisor
current_count now channel =
    let ticks = elapsed_ticks channel.start now in
    let count = divisor channel in
    let counter : ℕ =
      if channel.mode == 2 || channel.mode == 3
      then count - ticks % count
      else bit_and (u32 (count + 2 ^ 32 - u32 ticks)) 0xffff in
    u16 (bit_and counter 0xffff)

unfoldable pub schedule_next_irq : Pit → ℕ → Pit
unfolding irq_interval
schedule_next_irq pit now = record pit {
  channel₀ = record pit.channel₀ { next_irq = now + irq_interval pit.channel₀ };
}

unfoldable pub reset_channel_timer : Pit → ℕ → ℕ → Pit
unfolding schedule_next_irq
reset_channel_timer pit index now =
    let started = set_channel pit index (record (get_channel pit index) { start = now }) in
    if index == 0
    then schedule_next_irq
        (record started { channel₀ = record started.channel₀ { irq_enabled = true } }) now
    else started

unfoldable pub fresh_channel : ℕ → Channel
fresh_channel now = record {
  reload = 0;
  latch = 0;
  latch_valid = false;
  access = 3;
  mode = 3;
  write_phase = 0;
  read_phase = 0;
  start = now;
  next_irq = 0;
  irq_enabled = true;
}

-- The constructor.
unfoldable pub initial : ℕ → Pit
unfolding fresh_channel schedule_next_irq
initial now =
    schedule_next_irq
      (record {
        channel₀ = fresh_channel now;
        channel₁ = fresh_channel now;
        channel₂ = fresh_channel now;
        channel2_gated = false;
      })
      now

-- The `do … while` loop of `poll_irq0`, with fuel for its rounds.
unfoldable pub catch_up : ℕ → ℕ → ℕ → ℕ → ℕ
catch_up zero interval now next_irq = next_irq
catch_up (suc fuel) interval now next_irq =
    let next = next_irq + interval in
    let rest = catch_up fuel interval now next in if leb next now then rest else next

-- No more rounds are needed than nanoseconds have passed.
unfoldable pub poll_irq0 : ℕ → Pit → Bool × Pit
unfolding irq_interval catch_up
poll_irq0 now pit =
    if not pit.channel₀.irq_enabled || ltb now pit.channel₀.next_irq then (false, pit) else (
      true,
      record pit {
        channel₀ = record pit.channel₀ {
          next_irq = catch_up (suc now) (irq_interval pit.channel₀) now pit.channel₀.next_irq;
        };
      },
    )

unfoldable pub channel2_out_high : ℕ → Pit → Bool
unfolding divisor
channel2_out_high now pit =
    if not pit.channel2_gated
    then false
    else if leb now pit.channel₂.start
    then false
    else leb (divisor pit.channel₂) (elapsed_ticks pit.channel₂.start now)

unfoldable pub set_channel2_gate : ℕ → Bool → Pit → Pit
set_channel2_gate now gated pit =
    let started =
      if gated && not pit.channel2_gated
      then record pit { channel₂ = record pit.channel₂ { start = now } }
      else pit in
    record started { channel2_gated = gated }

-- The part of `write_command` behind its guards, on the selected channel.
unfoldable pub command_channel : ℕ → Channel → ℕ → Channel
unfolding current_count
command_channel now channel value =
    let access = bit_and (value / 2 ^ 4) 0x03 in
    let mode = bit_and (value / 2 ^ 1) 0x07 in
    if access == 0
    then record channel { latch = current_count now channel; latch_valid = true; read_phase = 0 }
    else record channel {
      access = access;
      mode = if ltb 5 mode then mode - 4 else mode;
      write_phase = 0;
      read_phase = 0;
      latch_valid = false;
    }

unfoldable pub write_command : ℕ → Pit → ℕ → Pit
unfolding command_channel
write_command now pit value =
    let index = bit_and (value / 2 ^ 6) 0x03 in
    if bit_and value 0xc0 == 0xc0
    then pit
    else if leb 3 index
    then pit
    else set_channel pit index (command_channel now (get_channel pit index) value)

abbrev pub with_low : Channel → ℕ → Channel
with_low channel value = record channel {
  reload = u16 (bit_or (bit_and channel.reload 0xff00) value);
}

abbrev pub with_high : Channel → ℕ → Channel
with_high channel value = record channel {
  reload = u16 (bit_or (bit_and channel.reload 0x00ff) (u16 (value * 2 ^ 8)));
}

unfoldable pub write_channel : ℕ → Pit → ℕ → ℕ → Pit
unfolding reset_channel_timer
write_channel now pit index value =
    let channel = get_channel pit index in
    if channel.access == 1
    then reset_channel_timer (set_channel pit index (with_low channel value)) index now
    else if channel.access == 2
    then reset_channel_timer (set_channel pit index (with_high channel value)) index now
    else if channel.write_phase == 0
    then set_channel pit index (record (with_low channel value) { write_phase = 1 })
    else reset_channel_timer
        (set_channel pit index (record (with_high channel value) { write_phase = 0 })) index now

unfoldable pub read_channel : ℕ → Channel → ℕ × Channel
unfolding current_count
read_channel now channel =
    let value : ℕ = if channel.latch_valid then channel.latch else current_count now channel in
    let low = bit_and value 0xff in
    let high = bit_and (value / 2 ^ 8) 0xff in
    if channel.access == 1
    then (low, record channel { latch_valid = false })
    else if channel.access == 2
    then (high, record channel { latch_valid = false })
    else if channel.read_phase == 0
    then (low, record channel { read_phase = 1 })
    else (high, record channel { read_phase = 0; latch_valid = false })

unfoldable pub read_port : ℕ → Pit → ℕ → ℕ × Pit
unfolding read_channel
read_port now pit port =
    if ltb port 0x40 || ltb 0x43 port
    then (0, pit)
    else if port == 0x43
    then (0, pit)
    else (let (value, channel) = read_channel now (get_channel pit (port - 0x40)) in
        (value, set_channel pit (port - 0x40) channel))

unfoldable pub write_port : ℕ → Pit → ℕ → ℕ → Pit
unfolding write_command write_channel
write_port now pit port value =
    if port == 0x43
    then write_command now pit value
    else if leb 0x40 port && leb port 0x42
    then write_channel now pit (port - 0x40) value
    else pit
