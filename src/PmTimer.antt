-- ===== src/PmTimer.antt =====
-- native/whp/devices/acpi_pm_timer.h and native/whp/devices/acpi_pm_timer.cc: the ACPI power
-- management timer. Points in time are counts of nanoseconds on the steady clock.
pub mod Counter
mod Tests
use node_vmm.Prelude.{ℕ, ◌+◌, ◌-◌, ◌*◌, ◌/◌, ◌%◌, ◌^◌, Bool, ◌||◌, ltb, leb, ◌==◌, if◌then◌else◌}
use node_vmm.Bytes.{u8, u32, u64}

abbrev pub pm_port : ℕ
pm_port = 0x408

abbrev pub pm_timer_hz : ℕ
pm_timer_hz = 3579545

unfoldable pub counter : ℕ → ℕ → ℕ
counter started_at now =
    if leb now started_at then 0 else u32 (u64 ((now - started_at) * pm_timer_hz) / 1000000000)

unfoldable pub read : ℕ → ℕ → ℕ → ℕ → ℕ
unfolding counter
read started_at now port size =
    if ltb port pm_port || (leb (pm_port + 4) port || (size == 0 || ltb 4 size))
    then 0
    else u32 (counter started_at now / 2 ^ u8 ((port - pm_port) * 8))
