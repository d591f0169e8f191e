-- ===== src/Boot/Checks.antt =====
-- What `WriteBootParams` accepts and stores, and the checksums of the MP table.
use Prim.Native.String.{String}
use node_vmm.Uart.Console.{codes}
use node_vmm.Prelude.{
  Result, inl, err, Bool, Bool-cases, true, false, ◌&&◌, leb, ltb, ◌-◌, ◌>>=◌, ℕ, ◌+◌, ◌%◌, ◌^◌,
  ◌≤◌, ◌<◌, ◌≡◌, refl, ◌∙◌, arith, if_intro, ◌⊎◌, inr, List, [], ◌∷◌, ◌++◌, length, length-append,
  bit_or, ok, Returns,
}
use node_vmm.Bytes.{check, Memory, u8, u32, poke, check_range, write_u16, write_u32, write_u64}
use node_vmm.Bytes.Guards.{check_range_iff}
use node_vmm.Bytes.RoundTrip.{write_bytes_outside}
use node_vmm.Boot.Params.{
  put_e820, copy_bytes, check_boot_params, put_memory_map, put_header, write_boot_params,
  boot_params_addr, cmdline_addr,
}
use node_vmm.Boot.Table.{
  sum_bytes, checksum, pointer, configuration, with_checksum, table_entries, bytes_of_u16,
  bytes_of_u32,
}

total : List ℕ → ℕ
total [] = 0
total (b ∷ bytes) = b + total bytes

total-append : (xs ys : List ℕ) → total (xs ++ ys) ≡ total xs + total ys
unfolding total
total-append [] ys = omega arith
total-append (x ∷ xs) ys = omega (arith, total-append xs ys)

sum_bytes-eq :
    (bytes : List ℕ) (sum : ℕ) → sum < 256 → sum_bytes sum bytes ≡ (sum + total bytes) % 256
unfolding sum_bytes total
sum_bytes-eq [] sum h = omega arith
sum_bytes-eq (b ∷ bytes) sum h = omega (arith, sum_bytes-eq bytes (u8 (sum + b)) (omega arith))

-- The checksum byte in the place of a zero.
pub sealed : (front back : List ℕ) → sum_bytes 0 (front ++ checksum (front ++ 0 ∷ back) ∷ back) ≡ 0
unfolding checksum total
sealed front back = omega (
  arith,
  sum_bytes-eq (front ++ checksum (front ++ 0 ∷ back) ∷ back) 0 (omega arith),
  sum_bytes-eq (front ++ 0 ∷ back) 0 (omega arith),
  total-append front (checksum (front ++ 0 ∷ back) ∷ back),
  total-append front (0 ∷ back),
)

-- The bytes of the pointer structure sum up to 0 modulo 256, and so do those of the configuration
-- table, for any number of processors.
pub sum_bytes-with_checksum :
    (start cpus pit_io_apic_pin : ℕ)
    → (sum_bytes 0 (with_checksum (pointer start)) ≡ 0)
      × (sum_bytes 0 (with_checksum (configuration cpus pit_io_apic_pin)) ≡ 0)
unfolding configuration
sum_bytes-with_checksum start cpus pit_io_apic_pin = (
  sealed (codes "_MP_" ++ (bytes_of_u32 (start + 16) ++ (1 ∷ 4 ∷ []))) (0 ∷ 0 ∷ 0 ∷ 0 ∷ 0 ∷ []),
  sealed (codes "PCMP" ++ (bytes_of_u16 (44 + length entries) ++ (4 ∷ []))) (
      codes "FC      000000000000"
      ++ (0
          ∷ 0
          ∷ 0
          ∷ 0
          ∷ 0
          ∷ 0
          ∷ (bytes_of_u16 (cpus + 28)
              ++ (bytes_of_u32 0xfee00000 ++ (bytes_of_u32 0 ++ entries))))),
)
  where
    entries : List ℕ
    entries = table_entries cpus pit_io_apic_pin

abbrev pub IsKept : ℕ → Memory → Memory → Type 0
IsKept mem_size m m' = (a : ℕ) → mem_size ≤ a → m' a ≡ m a

-- On both sides of the copy.
pub copy_bytes_outside :
    (dst : ℕ) (bytes : List ℕ) (m : Memory) (a : ℕ)
    → (a < dst) ⊎ (dst + length bytes ≤ a)
    → copy_bytes dst bytes m a ≡ m a
unfolding copy_bytes
copy_bytes_outside dst [] m a h = refl
copy_bytes_outside dst (b ∷ bytes) m a h =
    copy_bytes_outside (dst + 1) bytes (poke dst b m) a (omega arith) ∙ ground arith

put_e820_outside :
    (off addr size type a : ℕ) (m : Memory) → off + 20 ≤ a → put_e820 off addr size type m a ≡ m a
unfolding put_e820 write_u64 write_u32
put_e820_outside off addr size type a m h =
    write_bytes_outside 4 0 (off + 16) type a (write_u64 (off + 8) size (write_u64 off addr m))
      (inr (omega arith))
    ∙ write_bytes_outside 8 0 (off + 8) size a (write_u64 off addr m) (inr (omega arith))
    ∙ write_bytes_outside 8 0 off addr a m (inr (omega arith))

put_memory_map_outside :
    (mem_size a : ℕ) (m : Memory) → 0x20000 ≤ a → put_memory_map mem_size m a ≡ m a
unfolding put_memory_map
put_memory_map_outside mem_size a m h =
    if_intro (λ (f : Memory). f a ≡ m a) (ltb 0x00100000 mem_size)
      {x = put_e820 (0x72d0 + 60) 0x00100000 (mem_size - 0x00100000) 1 low_map} {y = low_map}
      (put_e820_outside (0x72d0 + 60) 0x00100000 (mem_size - 0x00100000) 1 a low_map (omega arith)
        ∙ low)
      low
  where
    first : Memory
    first = put_e820 0x72d0 0x00000000 0x0009fc00 1 m

    second : Memory
    second = put_e820 (0x72d0 + 20) 0x0009fc00 0x00040400 2 first

    low_map : Memory
    low_map = put_e820 (0x72d0 + 40) 0x000e0000 0x00020000 2 second

    low : low_map a ≡ m a
    low =
        put_e820_outside (0x72d0 + 40) 0x000e0000 0x00020000 2 a second (omega arith)
        ∙ put_e820_outside (0x72d0 + 20) 0x0009fc00 0x00040400 2 a first (omega arith)
        ∙ put_e820_outside 0x72d0 0x00000000 0x0009fc00 1 a m (omega arith)

put_header_outside : (n a : ℕ) (m : Memory) → 0x20000 ≤ a → put_header n m a ≡ m a
unfolding put_header write_u16 write_u32
put_header_outside n a m h =
    write_bytes_outside 4 0 0x7238 (u32 n) a (write_u32 0x7228 (u32 cmdline_addr) flagged)
      (inr (omega arith))
    ∙ write_bytes_outside 4 0 0x7228 (u32 cmdline_addr) a flagged (inr (omega arith))
    ∙ ground (
      arith,
      write_bytes_outside 4 0 0x7202 0x53726448 a
          (write_u16 0x71fe 0xaa55 (write_u16 0x71fa 0xffff m)) (inr (omega arith)),
    )
  where
    typed : Memory
    typed =
        poke 0x7210 0xff
          (write_u32 0x7202 0x53726448 (write_u16 0x71fe 0xaa55 (write_u16 0x71fa 0xffff m)))

    flagged : Memory
    flagged = poke 0x7211 (bit_or (typed 0x7211) 0x01) typed

passes :
    (mem_size offset len : ℕ) (what : String)
    → offset + len ≤ mem_size
    → check_range mem_size offset len what ≡ ok tt
passes mem_size offset len what h = (check_range_iff mem_size offset len what).1 h

checks_pass : (mem_size len : ℕ) → 0x20000 + len ≤ mem_size → check_boot_params mem_size len ≡ ok tt
unfolding check_boot_params
checks_pass mem_size len h =
    rw
      (
        passes mem_size 0x20000 len "kernel cmdline" h,
        passes mem_size 0x71e8 1 "boot params e820 count" (omega arith),
        passes mem_size 0x71fa 2 "boot params video mode" (omega arith),
        passes mem_size 0x71fe 2 "boot params setup signature" (omega arith),
        passes mem_size 0x7202 4 "boot params header signature" (omega arith),
        passes mem_size 0x7210 2 "boot params loader flags" (omega arith),
        passes mem_size 0x7228 4 "boot params cmdline pointer" (omega arith),
        passes mem_size 0x7238 4 "boot params cmdline length" (omega arith),
        passes mem_size 0x72d0 80 "boot params e820 table" (omega arith),
      )
      refl

write_boot_params-IsKept :
    (mem_size : ℕ) (cmdline : List ℕ) (m : Memory)
    → length cmdline < 2 ^ 32
    → 0x20000 + (length cmdline + 1) ≤ mem_size
    → Returns (IsKept mem_size m) (write_boot_params mem_size cmdline m)
unfolding write_boot_params Returns
write_boot_params-IsKept mem_size cmdline m short inside =
    rw (small, checks_pass mem_size (length cmdline + 1) inside) stored
  where
    small : ltb (2 ^ 32 - 1) (length cmdline) ≡ false
    small = ground arith

    copied : Memory
    copied = copy_bytes cmdline_addr (cmdline ++ 0 ∷ []) m

    stored : IsKept mem_size m (
        put_header
          (length cmdline)
          (put_memory_map mem_size (poke (boot_params_addr + 0x1e8) 4 copied)))
    stored a h =
        put_header_outside (length cmdline) a _ (omega arith)
        ∙ put_memory_map_outside mem_size a _ (omega arith)
        ∙ (let p : poke (boot_params_addr + 0x1e8) 4 copied a ≡ copied a = ground arith in p)
        ∙ copy_bytes_outside cmdline_addr (cmdline ++ 0 ∷ []) m a
            (inr (omega (arith, length-append cmdline (0 ∷ []))))

-- The code throws.
abbrev pub Throws : {A : Type 0} → Result A → Type 0
Throws (ok a) = ⊥
Throws (err e) = Unit {0}

Throws->>= : {A B : Type 0} (r : Result A) (f : A → Result B) → Throws r → Throws (r >>= f)
Throws->>= (ok a) f h = absurd h
Throws->>= (err e) f h = tt

check_boot_params-Throws :
    (mem_size len : ℕ) → mem_size < 0x20000 + len → Throws (check_boot_params mem_size len)
unfolding check_boot_params check_range check
check_boot_params-Throws mem_size len h = elim (Bool-cases (leb 0x20000 mem_size)) [
  | inr e ↦ rw e tt
  | inl e ↦ (let short : leb len (mem_size - 0x20000) ≡ false = ground arith in rw (e, short) tt)
]

-- Accepted with nothing stored outside guest memory, or thrown.
abbrev pub IsChecked : Bool → ℕ → Memory → Result Memory → Type 0
IsChecked true mem_size m r = Returns (IsKept mem_size m) r
IsChecked false mem_size m r = Throws r

-- A command line is accepted exactly where it has less than 2 ^ 32 bytes and fits guest memory
-- behind its address with the zero at its end, and then nothing is stored outside guest memory. Any
-- other one is refused by throwing.
pub write_boot_params-IsChecked :
    (mem_size : ℕ) (cmdline : List ℕ) (m : Memory)
    → IsChecked
        (ltb (length cmdline) (2 ^ 32) && leb (0x20000 + (length cmdline + 1)) mem_size)
        mem_size
        m
        (write_boot_params mem_size cmdline m)
unfolding write_boot_params
write_boot_params-IsChecked mem_size cmdline m = elim (Bool-cases (ltb (length cmdline) (2 ^ 32))) [
  | inr e ↦
      (let large : ltb (2 ^ 32 - 1) (length cmdline) ≡ true = ground arith in
        rw (write_boot_params, e, large) tt)
  | inl e ↦ elim (Bool-cases (leb (0x20000 + (length cmdline + 1)) mem_size)) [
    | inl fits ↦
        rw (e, fits) (write_boot_params-IsKept mem_size cmdline m (ground arith) (ground arith))
    | inr over ↦
        (let small : ltb (2 ^ 32 - 1) (length cmdline) ≡ false = ground arith in
          rw (write_boot_params, e, over, small)
            (Throws->>= (check_boot_params mem_size (length cmdline + 1)) _
              (check_boot_params-Throws mem_size (length cmdline + 1) (ground arith))))
  ]
]
