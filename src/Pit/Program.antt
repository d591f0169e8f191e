-- ===== src/Pit/Program.antt =====
-- Programming a channel: its reload value, its mode, and the invariant of the device.
use node_vmm.Prelude.{
  ℕ, zero, suc, ◌+◌, ◌-◌, ◌*◌, ◌/◌, ◌^◌, ◌≤◌, ◌<◌, ◌≡◌, ap, ap₂, Bool, arith, bit_and, bit_or,
  if_intro,
}
use node_vmm.Bits.Fields.{bit_and_mask, bit_and_shifted, bit_or_fields, bit_or_comm}
use node_vmm.Bytes.{u16}
use node_vmm.Pit.{
  Pit, Channel, get_channel, set_channel, with_low, with_high, reset_channel_timer, initial,
  current_count, write_channel, write_command, command_channel, write_port, read_channel, read_port,
  poll_irq0, set_channel2_gate,
}

pub record IsSound (c : Channel) : Type 0 where
  pub reload_word : c.reload < 65536
  pub latch_word : c.latch < 65536
  pub access_lo : 1 ≤ c.access
  pub access_hi : c.access ≤ 3
  pub mode_hi : c.mode ≤ 5
  pub write_bit : c.write_phase ≤ 1
  pub read_bit : c.read_phase ≤ 1

pub record IsValid (pit : Pit) : Type 0 where
  pub sound₀ : IsSound pit.channel₀
  pub sound₁ : IsSound pit.channel₁
  pub sound₂ : IsSound pit.channel₂

pub initial-IsValid : (now : ℕ) → IsValid (initial now)
unfolding initial
initial-IsValid now = ground arith

get_channel-IsSound : {pit : Pit} (index : ℕ) → IsValid pit → IsSound (get_channel pit index)
get_channel-IsSound index v = ground arith

set_channel-IsValid :
    {pit : Pit} (index : ℕ) (c : Channel)
    → IsValid pit
    → IsSound c
    → IsValid (set_channel pit index c)
set_channel-IsValid index c v s = ground arith

pub current_count-lt : (now : ℕ) (c : Channel) → current_count now c < 65536
unfolding current_count
current_count-lt now c = omega arith

command_channel-IsSound :
    (now : ℕ) {c : Channel} (value : ℕ) → IsSound c → IsSound (command_channel now c value)
unfolding command_channel
command_channel-IsSound now {c} value s =
    ground (
      arith,
      bit_and_mask (value / 2 ^ 4) 2,
      bit_and_mask (value / 2 ^ 1) 3,
      current_count-lt now c,
    )

read_channel-IsSound : (now : ℕ) {c : Channel} → IsSound c → IsSound (read_channel now c).1
unfolding read_channel
read_channel-IsSound now {c} s = ground arith

reset_channel_timer-IsValid :
    {pit : Pit} (index now : ℕ) → IsValid pit → IsValid (reset_channel_timer pit index now)
unfolding reset_channel_timer
reset_channel_timer-IsValid index now v = ground arith

low_byte-IsSound :
    {c : Channel} (value phase : ℕ)
    → phase ≤ 1
    → IsSound c
    → IsSound (record (with_low c value) { write_phase = phase })
low_byte-IsSound value phase h s = ground arith

high_byte-IsSound :
    {c : Channel} (value phase : ℕ)
    → phase ≤ 1
    → IsSound c
    → IsSound (record (with_high c value) { write_phase = phase })
high_byte-IsSound value phase h s = ground arith

write_channel-IsValid :
    (now : ℕ) {pit : Pit} (index value : ℕ)
    → IsValid pit
    → IsValid (write_channel now pit index value)
unfolding write_channel
write_channel-IsValid now {pit} index value v =
    if_intro IsValid _
      (reset_channel_timer-IsValid index now
        (set_channel-IsValid index _ v (low_byte-IsSound value _ sound.write_bit sound)))
      (if_intro IsValid _
        (reset_channel_timer-IsValid index now
          (set_channel-IsValid index _ v (high_byte-IsSound value _ sound.write_bit sound)))
        (if_intro IsValid _
          (set_channel-IsValid index _ v (low_byte-IsSound value 1 (omega arith) sound))
          (reset_channel_timer-IsValid index now
            (set_channel-IsValid index _ v (high_byte-IsSound value 0 (omega arith) sound)))))
  where
    sound : IsSound (get_channel pit index)
    sound = get_channel-IsSound index v

-- What the guest and the virtual machine monitor do to the timer.
pub data Operation : Type 0 where
  write : ℕ → ℕ → Operation
  read : ℕ → Operation
  poll : Operation
  gate : Bool → Operation

pub apply : ℕ → Operation → Pit → Pit
apply now (write port value) pit = write_port now pit port value
apply now (read port) pit = (read_port now pit port).1
apply now poll pit = (poll_irq0 now pit).1
apply now (gate gated) pit = set_channel2_gate now gated pit

write_command-IsValid :
    (now : ℕ) {pit : Pit} (value : ℕ) → IsValid pit → IsValid (write_command now pit value)
unfolding write_command
write_command-IsValid now {pit} value v = if_intro IsValid _ v (
    if_intro IsValid _ v (
      set_channel-IsValid index _ v
        (command_channel-IsSound now value (get_channel-IsSound index v))))
  where
    index : ℕ
    index = bit_and (value / 2 ^ 6) 0x03

read_port-IsValid :
    (now : ℕ) {pit : Pit} (port : ℕ) → IsValid pit → IsValid (read_port now pit port).1
unfolding read_port
read_port-IsValid now {pit} port v = ground (
  arith,
  set_channel-IsValid (port - 0x40) _ v
      (read_channel-IsSound now (get_channel-IsSound (port - 0x40) v)),
)

-- At any time, every read and write of a port, every poll and every change of the gate keeps the
-- invariant: 16-bit counts, an access mode from 1 to 3, an operating mode up to 5, phases 0 or 1.
pub apply-IsValid :
    (now : ℕ) (op : Operation) {pit : Pit} → IsValid pit → IsValid (apply now op pit)
unfolding apply write_port poll_irq0 set_channel2_gate
apply-IsValid now (write port value) v =
    if_intro IsValid _ (write_command-IsValid now value v)
      (if_intro IsValid _ (write_channel-IsValid now (port - 0x40) value v) v)
apply-IsValid now (read port) v = read_port-IsValid now port v
apply-IsValid now poll v = ground arith
apply-IsValid now (gate gated) v = ground arith

-- The word that the two stores of a reload value make.
reload_word :
    (old low high : ℕ)
    → low < 256
    → high < 256
    → u16 (bit_or (bit_and (u16 (bit_or (bit_and old 0xff00) low)) 0x00ff) (u16 (high * 2 ^ 8)))
      ≡ low + 256 * high
reload_word old low high hl hh = omega (
  arith,
  bit_and_shifted old 0xff 8,
  bit_or_fields (bit_and (old / 256) 0xff) 8 low hl,
  ap (λ t. bit_or t low) (bit_and_shifted old 0xff 8),
  bit_and_mask (u16 (bit_or (bit_and old 0xff00) low)) 8,
  ap₂ bit_or first last,
  bit_or_comm low (high * 256),
  bit_or_fields high 8 low hl,
)
  where
    first : bit_and (u16 (bit_or (bit_and old 0xff00) low)) 0x00ff ≡ low
    first = omega (
      arith,
      bit_and_shifted old 0xff 8,
      bit_or_fields (bit_and (old / 256) 0xff) 8 low hl,
      ap (λ t. bit_or t low) (bit_and_shifted old 0xff 8),
      bit_and_mask (u16 (bit_or (bit_and old 0xff00) low)) 8,
    )

    last : u16 (high * 2 ^ 8) ≡ high * 256
    last = omega arith

-- With both-byte access and no byte pending, a low and then a high byte written to a channel's
-- port set its reload value to the word of the two, restart the channel at the second write, and
-- leave no byte pending.
pub write_port_word :
    (t t' : ℕ) (pit : Pit) (index low high : ℕ)
    → index < 3
    → low < 256
    → high < 256
    → (get_channel pit index).access ≡ 3
    → (get_channel pit index).write_phase ≡ 0
    → let channel =
        get_channel
          (write_port t' (write_port t pit (0x40 + index) low) (0x40 + index) high)
          index in
      (channel.reload ≡ low + 256 * high) × (channel.start ≡ t') × (channel.write_phase ≡ 0)
unfolding write_port write_channel reset_channel_timer
write_port_word t t' pit zero low high hi hl hh a w =
    ground (arith, reload_word pit.channel₀.reload low high hl hh)
write_port_word t t' pit (suc zero) low high hi hl hh a w =
    ground (arith, reload_word pit.channel₁.reload low high hl hh)
write_port_word t t' pit (suc (suc zero)) low high hi hl hh a w =
    ground (arith, reload_word pit.channel₂.reload low high hl hh)
write_port_word t t' pit (suc (suc (suc index))) low high hi hl hh a w = absurd (omega arith)
