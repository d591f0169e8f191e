-- ===== src/VirtioBlk/State.antt =====
-- The files behind the device, and the guest memory.
use node_vmm.Prelude.{
  ℕ, ◌/◌, ◌%◌, ◌^◌, bit_and, bit_or, Bool, true, false, not, ◌||◌, leb, ◌!=◌, if◌then◌else◌, Option,
  none, some, Result, ok, ◌>>◌,
}
use node_vmm.Prelude.State.{M}
use node_vmm.Bytes.{Memory, poke, check_range}

-- `base_`, `overlay_` where it is open, and the fields that say what is in the overlay.
pub record Disk (F : Type 0) : Type 0 where
  pub base : F
  pub overlay : Option F
  pub dirty_sectors : ℕ → ℕ
  pub disk_bytes : ℕ
  pub sectors : ℕ
  pub read_only : Bool

-- What the device works on: the guest memory, and the disk.
pub record Host (F : Type 0) : Type 0 where
  pub memory : Memory
  pub disk : Disk F

-- `GuestMemory::ptr`. `data` is address 0 of the memory, so the pointer is the offset.
unfoldable pub guest_ptr : ℕ → ℕ → ℕ → Result ℕ
guest_ptr mem_size offset size = check_range mem_size offset size "guest memory" >> ok offset

module _ {F : Type 0} where
  abbrev pub has_overlay : Disk F → Bool
  has_overlay disk = elim disk.overlay [ none ↦ false | some f ↦ true ]

  unfoldable pub sector_dirty : Disk F → ℕ → Bool
  sector_dirty disk sector =
      if not (has_overlay disk) || leb disk.sectors sector
      then false
      else bit_and (disk.dirty_sectors (sector / 8)) (2 ^ (sector % 8)) != 0

  unfoldable pub mark_dirty : ℕ → Disk F → Disk F
  mark_dirty sector disk =
      if not (has_overlay disk) || leb disk.sectors sector then disk else record disk {
        dirty_sectors =
            poke (sector / 8) (bit_or (disk.dirty_sectors (sector / 8)) (2 ^ (sector % 8)))
              disk.dirty_sectors;
      }

  -- Code that works on the base file and the memory.
  abbrev pub put_base : {A : Type 0} → Host F → Result A × (F × Memory) → Result A × Host F
  put_base h (r, (f, m)) = (r, record { memory = m; disk = record h.disk { base = f } })

  abbrev pub on_base : {A : Type 0} → M (F × Memory) A → M (Host F) A
  on_base act h = put_base h (act (h.disk.base, h.memory))

  -- Code that works on the overlay, which is `f`, and the memory.
  abbrev pub put_overlay : {A : Type 0} → Host F → Result A × (F × Memory) → Result A × Host F
  put_overlay h (r, (f, m)) = (r, record { memory = m; disk = record h.disk { overlay = some f } })

  abbrev pub on_overlay : {A : Type 0} → F → M (F × Memory) A → M (Host F) A
  on_overlay f act h = put_overlay h (act (f, h.memory))
