-- ===== src/Pit/Latch.antt =====
-- Reading counts: the latch, the range of a count, and the output of channel 2.
use node_vmm.Prelude.{
  ℕ, zero, suc, ◌+◌, ◌-◌, ◌*◌, ◌/◌, ◌%◌, ◌^◌, ◌≤◌, ◌<◌, ◌≡◌, ◌≢◌, ◌⊎◌, ◌↔◌, true, false, arith,
}
use node_vmm.Bits.Fields.{bit_and_mask, bit_and_shifted}
use node_vmm.Pit.{
  Pit, Channel, pit_hz, get_channel, set_channel, current_count, divisor, write_command,
  command_channel, write_port, read_channel, read_port, channel2_out_high, elapsed_ticks,
}
use node_vmm.Pit.Program.{current_count-lt}

-- A latch command for `index`, whatever its four low bits are.
latch_command :
    (t : ℕ) (pit : Pit) (index low_bits : ℕ)
    → index < 3
    → low_bits < 16
    → write_port t pit 0x43 (index * 64 + low_bits)
      ≡ set_channel pit index (record (get_channel pit index) {
        latch = current_count t (get_channel pit index);
        latch_valid = true;
        read_phase = 0;
      })
unfolding write_port write_command command_channel
latch_command t pit index low_bits hi hl = ground (
  arith,
  bit_and_shifted (index * 64 + low_bits) 3 6,
  bit_and_mask ((index * 64 + low_bits) / 64) 2,
  bit_and_mask ((index * 64 + low_bits) / 16) 2,
)

-- With both-byte access, after a latch command two reads of the channel's port give the low and the
-- high byte of the count at the time of the command, at whatever times they are made, and then the
-- latch is free.
pub read_port_latched :
    (t t₁ t₂ : ℕ) (pit : Pit) (index low_bits : ℕ)
    → index < 3
    → low_bits < 16
    → (get_channel pit index).access ≡ 3
    → let latched = write_port t pit 0x43 (index * 64 + low_bits) in
      let (low, once) = read_port t₁ latched (0x40 + index) in
      let (high, twice) = read_port t₂ once (0x40 + index) in
      (low < 256)
      × (low + 256 * high ≡ current_count t (get_channel pit index))
      × ((get_channel twice index).latch_valid ≡ false)
unfolding read_port read_channel
read_port_latched t t₁ t₂ pit zero low_bits hi hl a = rw (latch_command t pit 0 low_bits hi hl) (
    ground (
      arith,
      bit_and_mask (current_count t pit.channel₀) 8,
      bit_and_mask (current_count t pit.channel₀ / 256) 8,
      current_count-lt t pit.channel₀,
    ))
read_port_latched t t₁ t₂ pit (suc zero) low_bits hi hl a =
    rw (latch_command t pit 1 low_bits hi hl) (
      ground (
        arith,
        bit_and_mask (current_count t pit.channel₁) 8,
        bit_and_mask (current_count t pit.channel₁ / 256) 8,
        current_count-lt t pit.channel₁,
      ))
read_port_latched t t₁ t₂ pit (suc (suc zero)) low_bits hi hl a =
    rw (latch_command t pit 2 low_bits hi hl) (
      ground (
        arith,
        bit_and_mask (current_count t pit.channel₂) 8,
        bit_and_mask (current_count t pit.channel₂ / 256) 8,
        current_count-lt t pit.channel₂,
      ))
read_port_latched t t₁ t₂ pit (suc (suc (suc index))) low_bits hi hl a = absurd (omega arith)

-- In the periodic modes 2 and 3, with a reload value from 1 to 65535, a count stands between 1 and
-- the reload value.
pub current_count_range :
    (now : ℕ) (c : Channel)
    → (c.mode ≡ 2) ⊎ (c.mode ≡ 3)
    → c.reload ≢ 0
    → c.reload < 65536
    → (1 ≤ current_count now c) × (current_count now c ≤ c.reload)
unfolding current_count divisor
current_count_range now c m r h =
    ground (arith, bit_and_mask (c.reload - elapsed_ticks c.start now % c.reload) 16)

-- While the gate is on, and the product of the elapsed nanoseconds and the frequency fits 64 bits,
-- the output of channel 2 is high exactly from the end of the programmed count on.
pub channel2_out_high_iff :
    (now : ℕ) (pit : Pit)
    → pit.channel2_gated ≡ true
    → (now - pit.channel₂.start) * pit_hz < 2 ^ 64
    → (channel2_out_high now pit ≡ true)
      ↔ (divisor pit.channel₂ * 1000000000 ≤ (now - pit.channel₂.start) * pit_hz)
unfolding channel2_out_high divisor
channel2_out_high_iff now pit g h = ground arith

-- Where the product of the elapsed nanoseconds and the frequency has passed 2 ^ 64 by less than 10
-- ^ 9, after some four hours, the output of channel 2 is low, though its 16-bit count has ended.
pub channel2_out_high_wraps :
    (now : ℕ) (pit : Pit)
    → pit.channel₂.reload < 65536
    → 2 ^ 64 ≤ (now - pit.channel₂.start) * pit_hz
    → (now - pit.channel₂.start) * pit_hz < 2 ^ 64 + 1000000000
    → (channel2_out_high now pit ≡ false)
      × (divisor pit.channel₂ * 1000000000 ≤ (now - pit.channel₂.start) * pit_hz)
unfolding channel2_out_high divisor
channel2_out_high_wraps now pit r h k = ground arith
