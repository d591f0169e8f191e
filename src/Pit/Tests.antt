-- ===== src/Pit/Tests.antt =====
-- The timer at concrete times: programming, polling, latching, and the speaker's channel.
use node_vmm.Prelude.{ℕ, suc, ◌+◌, ◌-◌, ◌*◌, ◌≤◌, ◌<◌, ◌≡◌, refl, true, false, arith}
use node_vmm.Pit.{
  Pit, Channel, pit_hz, divisor, irq_interval, current_count, poll_irq0, channel2_out_high,
}
use node_vmm.Pit.Poll.{poll_irq0_coalesces}
use node_vmm.Pit.Latch.{channel2_out_high_wraps}

abbrev channel : Channel
channel = record {
  reload = 0x1234;
  latch = 0;
  latch_valid = false;
  access = 3;
  mode = 2;
  write_phase = 0;
  read_phase = 0;
  start = 0;
  next_irq = 5;
  irq_enabled = true;
}

abbrev running : Pit
running = record {
  channel₀ = channel;
  channel₁ = channel;
  channel₂ = channel;
  channel2_gated = true;
}

divisor_here : divisor channel ≡ 0x1234
unfolding divisor
divisor_here = refl

count_here : current_count 1000000 channel ≡ 0x1234 - 1193
unfolding current_count
count_here = refl

fires_here : (poll_irq0 7 running).0 ≡ true
unfolding poll_irq0
fires_here = refl

high_here : channel2_out_high 5000000 running ≡ true
unfolding channel2_out_high
high_here = refl

poll_irq0_coalesces_example :
    let pit' = (poll_irq0 7 running).1 in
    (k : ℕ) × (pit' ≡ record running {
      channel₀ = record channel { next_irq = 5 + suc k * irq_interval channel };
    })
    × (7 < pit'.channel₀.next_irq)
    × (pit'.channel₀.next_irq ≤ 7 + irq_interval channel)
    × ((poll_irq0 7 pit').0 ≡ false)
poll_irq0_coalesces_example = poll_irq0_coalesces 7 running fires_here

channel2_out_high_wraps_example :
    (channel2_out_high 15460126010709 running ≡ false)
    × (divisor channel * 1000000000 ≤ (15460126010709 - 0) * pit_hz)
channel2_out_high_wraps_example =
    channel2_out_high_wraps 15460126010709 running (omega arith) (omega arith) (omega arith)
