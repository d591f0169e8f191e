-- ===== src/VirtioRng/State.antt =====
-- The state of the device, the constants of virtio-mmio, and the guest memory behind the queue.
use node_vmm.Prelude.{
  ℕ, zero, suc, ◌+◌, ◌-◌, ◌/◌, ◌^◌, min, Bool, false, ◌||◌, ltb, ◌==◌, if◌then◌else◌, Option, none,
  some, Result, ok, err,
}
use node_vmm.Bytes.{Memory, poke}

pub record Queue : Type 0 where
  pub size : ℕ
  pub ready : Bool
  pub last_avail : ℕ
  pub desc_addr : ℕ
  pub driver_addr : ℕ
  pub device_addr : ℕ

-- `raised` counts the calls of `raise_irq_`.
pub record Rng : Type 0 where
  pub queue : Queue
  pub status : ℕ
  pub drv_features : ℕ
  pub dev_features_sel : ℕ
  pub drv_features_sel : ℕ
  pub queue_sel : ℕ
  pub interrupt_status : ℕ
  pub raised : ℕ

-- Guest memory, and how often the system's generator was asked.
pub record World : Type 0 where
  pub memory : Memory
  pub drawn : ℕ

-- `BCryptGenRandom`: of the number of the call and of the length, the bytes by index, or `none` for
-- a status below 0.
abbrev pub Generator : Type 0
Generator = ℕ → ℕ → Option (ℕ → ℕ)

pub record Desc : Type 0 where
  pub addr : ℕ
  pub len : ℕ
  pub flags : ℕ
  pub next : ℕ

abbrev pub magic : ℕ
magic = 0x74726976

abbrev pub vendor : ℕ
vendor = 0x554d4551

abbrev pub version : ℕ
version = 2

abbrev pub ring_desc_next : ℕ
ring_desc_next = 1

abbrev pub ring_desc_write : ℕ
ring_desc_write = 2

abbrev pub ring_avail_no_interrupt : ℕ
ring_avail_no_interrupt = 1

abbrev pub feature_version_1 : ℕ
feature_version_1 = 2 ^ 32

abbrev pub interrupt_vring : ℕ
interrupt_vring = 1

unfoldable pub initial_queue : Queue
initial_queue = record {
  size = 64;
  ready = false;
  last_avail = 0;
  desc_addr = 0;
  driver_addr = 0;
  device_addr = 0;
}

unfoldable pub initial : Rng
unfolding initial_queue
initial = record {
  queue = initial_queue;
  status = 0;
  drv_features = 0;
  dev_features_sel = 0;
  drv_features_sel = 0;
  queue_sel = 0;
  interrupt_status = 0;
  raised = 0;
}

-- `GuestMemory.data` is address 0 of the memory, so the pointer is the guest address.
unfoldable pub ptr_or_null : ℕ → ℕ → ℕ → Option ℕ
ptr_or_null mem_size gpa len =
    if ltb mem_size gpa || ltb (mem_size - gpa) len then none else some gpa

-- The generator's bytes stored at `dst`.
unfoldable pub fill : ℕ → ℕ → (ℕ → ℕ) → Memory → Memory
fill zero dst bytes m = m
fill (suc n) dst bytes m = poke (dst + n) (bytes n) (fill n dst bytes m)

abbrev pub chunk_size : ℕ → ℕ
chunk_size len = min len (2 ^ 20)

-- The loop of `fill_random`, at most `fuel` rounds of it.
unfoldable pub fill_chunks : Generator → ℕ → ℕ → ℕ → World → Result World
unfolding fill
fill_chunks gen zero dst len w = if len == 0 then ok w else err "out of fuel"
fill_chunks gen (suc fuel) dst zero w = ok w
fill_chunks gen (suc fuel) dst (suc len) w =
    let chunk = chunk_size (suc len) in
    elim (gen w.drawn chunk) [
      | none ↦ err "BCryptGenRandom failed"
      | some bytes ↦
          fill_chunks gen fuel (dst + chunk) (suc len - chunk)
            (record { memory = fill chunk dst bytes w.memory; drawn = suc w.drawn })
    ]

-- A round stores at least one byte, and one of them is left for the end of the loop.
unfoldable pub fill_random : Generator → ℕ → ℕ → World → Result World
unfolding fill_chunks
fill_random gen dst len w = fill_chunks gen (len / 2 ^ 20 + 1) dst len w
