-- ===== src/Acpi.antt =====
-- native/whp/backend.cc: how the ACPI tables write the length of a package, AppendPkgLength. The
-- bytes that a `std::vector<uint8_t>` holds are a list.
pub mod Length
pub mod Encode
pub mod Devices
pub mod Tables
pub mod Place
pub mod Sums
pub mod Sizes
pub mod Placed
pub mod Names
pub mod Linked
mod Tests
use node_vmm.Prelude.{
  ℕ, ◌+◌, ◌-◌, ◌*◌, ◌/◌, ◌^◌, bit_and, bit_or, Bool, leb, ◌==◌, if◌then◌else◌, List, [], ◌∷◌, ◌++◌,
}
use node_vmm.Bytes.{u8, u64}

-- How many bytes the length takes.
unfoldable pub length_len : ℕ → ℕ
length_len payload_len =
    if leb (1 * 2 ^ 20 - 3) payload_len
    then 4
    else if leb (1 * 2 ^ 12 - 2) payload_len
    then 3
    else if leb (1 * 2 ^ 6 - 1) payload_len
    then 2
    else 1

-- The first byte, where `n` more bytes follow.
abbrev pub lead : ℕ → ℕ → ℕ
lead n length = u8 (bit_or (n * 2 ^ 6) (bit_and length 0x0f))

-- The switch on the number of bytes.
unfoldable pub length_bytes : ℕ → ℕ → List ℕ
length_bytes n length =
    if n == 1
    then u8 length ∷ []
    else if n == 2
    then lead 1 length ∷ u8 (bit_and (length / 2 ^ 4) 0xff) ∷ []
    else if n == 3
    then lead 2 length
      ∷ u8 (bit_and (length / 2 ^ 4) 0xff)
      ∷ u8 (bit_and (length / 2 ^ 12) 0xff)
      ∷ []
    else lead 3 length
      ∷ u8 (bit_and (length / 2 ^ 4) 0xff)
      ∷ u8 (bit_and (length / 2 ^ 12) 0xff)
      ∷ u8 (bit_and (length / 2 ^ 20) 0xff)
      ∷ []

unfoldable pub append_pkg_length : List ℕ → ℕ → Bool → List ℕ
append_pkg_length out payload_len include_self =
    let n : ℕ = length_len payload_len in
    out ++ length_bytes n (u64 (payload_len + (if include_self then n else 0)))
