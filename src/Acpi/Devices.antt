-- ===== src/Acpi/Devices.antt =====
-- The devices that the tables describe.
use node_vmm.Prelude.{
  ℕ, zero, suc, ◌+◌, ◌-◌, ◌*◌, ◌/◌, ◌%◌, Bool, true, false, leb, ltb, List, [], ◌∷◌, ◌++◌, Result,
  ok, ◌>>=◌, ◌>>◌,
}
use node_vmm.Bytes.{u32, check}
use node_vmm.Uart.Console.{codes}
use node_vmm.Acpi.Encode.{
  encode_string, encode_integer, append_name, memory32_fixed, interrupt, io_port, resource_template,
  append_device, append_scope,
}

abbrev pub virtio_mmio_base : ℕ → ℕ
virtio_mmio_base index = 0xd0000000 + index * 0x200

abbrev pub virtio_mmio_irq : ℕ → ℕ
virtio_mmio_irq index = u32 (5 + index)

unfoldable pub check_virtio_mmio_device_count : ℕ → Result (Unit {0})
check_virtio_mmio_device_count count = do
  check (ltb 0 count) "at least one virtio-mmio device is required"
  check (ltb (5 + count - 1) 24) "too many virtio-mmio devices"

-- `V` and the three digits of the index.
unfoldable pub virtio_mmio_device_name : ℕ → Result (List ℕ)
virtio_mmio_device_name index = do
  check (leb index 999) "too many virtio-mmio devices"
  ok (b'V' ∷ (b'0' + index / 100) ∷ (b'0' + index / 10 % 10) ∷ (b'0' + index % 10) ∷ [])

unfoldable pub virtio_mmio_device : List ℕ → ℕ → ℕ → ℕ → Result (List ℕ)
unfolding append_name append_device
virtio_mmio_device name uid base irq = do
  hid ← append_name "_HID" (encode_string "LNRO0005")
  uid' ← append_name "_UID" (encode_integer uid)
  cca ← append_name "_CCA" (0x01 ∷ [])
  crs ← append_name "_CRS" (
      resource_template
        (memory32_fixed true (u32 base) 0x200 ∷ interrupt true true false false irq ∷ []))
  append_device name (hid ∷ uid' ∷ cca ∷ crs ∷ [])

unfoldable pub hpet_device : Result (List ℕ)
unfolding append_name append_device
hpet_device = do
  hid ← append_name "_HID" (encode_string "PNP0103")
  uid ← append_name "_UID" (encode_integer 0)
  crs ← append_name "_CRS" (resource_template (memory32_fixed false 0xfed00000 0x400 ∷ []))
  append_device (codes "HPET") (hid ∷ uid ∷ crs ∷ [])

unfoldable pub com1_device : Result (List ℕ)
unfolding append_name append_device
com1_device = do
  hid ← append_name "_HID" (encode_string "PNP0501")
  uid ← append_name "_UID" (encode_integer 0)
  crs ←
      append_name "_CRS"
        (resource_template (io_port 0x3f8 8 ∷ interrupt true true false false 4 ∷ []))
  append_device (codes "COM1") (hid ∷ uid ∷ crs ∷ [])

-- The device with its name, its window and its line.
unfoldable pub indexed_device : ℕ → Result (List ℕ)
unfolding virtio_mmio_device_name virtio_mmio_device
indexed_device index = do
  name ← virtio_mmio_device_name index
  virtio_mmio_device name index (virtio_mmio_base index) (virtio_mmio_irq index)

-- The disks, `n` of them from `index` on.
unfoldable pub disk_devices : ℕ → ℕ → Result (List (List ℕ))
unfolding indexed_device
disk_devices zero index = ok []
disk_devices (suc n) index = do
  device ← indexed_device index
  rest ← disk_devices n (index + 1)
  ok (device ∷ rest)

-- The generator of random numbers comes after the disks and a place for the network.
unfoldable pub build_dsdt_body : Bool → ℕ → Result (List ℕ)
unfolding check_virtio_mmio_device_count hpet_device com1_device disk_devices append_scope
build_dsdt_body network_enabled disk_count =
    let rng_index : ℕ = u32 (disk_count + 1) in
    do
      check_virtio_mmio_device_count (u32 (rng_index + 1))
      hpet ← hpet_device
      com1 ← com1_device
      disks ← disk_devices disk_count 0
      rng ← indexed_device rng_index
      net ← elim network_enabled [
        | true ↦ do device ← indexed_device disk_count; ok (device ∷ [])
        | false ↦ ok []
      ]
      append_scope "\\_SB_" ((hpet ∷ com1 ∷ disks) ++ rng ∷ net)
