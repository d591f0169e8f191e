-- ===== src/Boot/Params.antt =====
-- `WriteBootParams`: the zero page and the command line.
use node_vmm.Prelude.{
  ℕ, ◌+◌, ◌-◌, ◌*◌, ◌^◌, bit_or, ltb, if◌then◌else◌, List, [], ◌∷◌, ◌++◌, length, Result, ok, err,
  ◌>>◌,
}
use node_vmm.Bytes.{Memory, u32, poke, check_range, write_u16, write_u32, write_u64}

abbrev pub boot_params_addr : ℕ
boot_params_addr = 0x7000

abbrev pub cmdline_addr : ℕ
cmdline_addr = 0x20000

abbrev pub e820_offset : ℕ
e820_offset = 0x2d0

abbrev pub e820_entry_size : ℕ
e820_entry_size = 20

abbrev pub max_e820_entries : ℕ
max_e820_entries = 4

unfoldable pub put_e820 : ℕ → ℕ → ℕ → ℕ → Memory → Memory
put_e820 off addr size type m =
    write_u32 (off + 16) type (write_u64 (off + 8) size (write_u64 off addr m))

-- `memcpy` of a list of bytes.
unfoldable pub copy_bytes : ℕ → List ℕ → Memory → Memory
copy_bytes dst [] m = m
copy_bytes dst (b ∷ bytes) m = copy_bytes (dst + 1) bytes (poke dst b m)

-- The range checks of `WriteBootParams`, in their order.
unfoldable pub check_boot_params : ℕ → ℕ → Result (Unit {0})
check_boot_params mem_size cmdline_len = do
  check_range mem_size cmdline_addr cmdline_len "kernel cmdline"
  check_range mem_size (boot_params_addr + 0x1e8) 1 "boot params e820 count"
  check_range mem_size (boot_params_addr + 0x1fa) 2 "boot params video mode"
  check_range mem_size (boot_params_addr + 0x1fe) 2 "boot params setup signature"
  check_range mem_size (boot_params_addr + 0x202) 4 "boot params header signature"
  check_range mem_size (boot_params_addr + 0x210) 2 "boot params loader flags"
  check_range mem_size (boot_params_addr + 0x228) 4 "boot params cmdline pointer"
  check_range mem_size (boot_params_addr + 0x238) 4 "boot params cmdline length"
  check_range mem_size (boot_params_addr + e820_offset) (e820_entry_size * max_e820_entries)
      "boot params e820 table"

-- The four entries of the memory map; the last one only where there is memory for it.
unfoldable pub put_memory_map : ℕ → Memory → Memory
put_memory_map mem_size m =
    let table = boot_params_addr + e820_offset in
    let low = put_e820 (table + 2 * e820_entry_size) 0x000e0000 0x00020000 2 (
      put_e820 (table + e820_entry_size) 0x0009fc00 0x00040400 2
        (put_e820 table 0x00000000 0x0009fc00 1 m)) in
    if ltb 0x00100000 mem_size
    then put_e820 (table + 3 * e820_entry_size) 0x00100000 (mem_size - 0x00100000) 1 low
    else low

-- The header fields behind the memory map.
unfoldable pub put_header : ℕ → Memory → Memory
put_header cmdline_size m =
    let signed = write_u32 (boot_params_addr + 0x202) 0x53726448 (
      write_u16 (boot_params_addr + 0x1fe) 0xaa55
        (write_u16 (boot_params_addr + 0x1fa) 0xffff m)) in
    let typed = poke (boot_params_addr + 0x210) 0xff signed in
    let flagged =
      poke (boot_params_addr + 0x211) (bit_or (typed (boot_params_addr + 0x211)) 0x01) typed in
    write_u32 (boot_params_addr + 0x238) (u32 cmdline_size)
      (write_u32 (boot_params_addr + 0x228) (u32 cmdline_addr) flagged)

unfoldable pub write_boot_params : ℕ → List ℕ → Memory → Result Memory
write_boot_params mem_size cmdline m =
    if ltb (2 ^ 32 - 1) (length cmdline) then err "kernel cmdline is too large" else (do
      check_boot_params mem_size (length cmdline + 1)
      ok (
          put_header (length cmdline) (
            put_memory_map mem_size
              (poke (boot_params_addr + 0x1e8) 4 (copy_bytes cmdline_addr (cmdline ++ 0 ∷ []) m)))))
