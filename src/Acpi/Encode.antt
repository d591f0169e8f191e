-- ===== src/Acpi/Encode.antt =====
-- The bytes of ACPI's machine language: names, numbers, resources, packages.
use Prim.Native.String.{String}
use node_vmm.Prelude.{
  ℕ, ◌+◌, ◌/◌, ◌^◌, Bool, true, false, leb, ltb, ◌==◌, if◌then◌else◌, List, [], ◌∷◌, ◌++◌, length,
  drop, Result, ok, ◌>>=◌, ◌>>◌,
}
use node_vmm.Bytes.{u8, check}
use node_vmm.Boot.Table.{bytes_of_u16, bytes_of_u32}
use node_vmm.Uart.Console.{codes}
use node_vmm.Acpi.{append_pkg_length}

abbrev pub bytes_of_u64 : ℕ → List ℕ
bytes_of_u64 v = bytes_of_u32 v ++ bytes_of_u32 (v / 2 ^ 32)

abbrev pub concat : List (List ℕ) → List ℕ
concat [] = []
concat (bytes ∷ rest) = bytes ++ concat rest

-- The parts of a path between its dots; `part` is what has been read of the first one.
unfoldable pub split_path : List ℕ → List ℕ → List (List ℕ)
split_path part [] = part ∷ []
split_path part (c ∷ name) = elim (c == b'.') [
  | true ↦ part ∷ split_path [] name
  | false ↦ split_path (part ++ c ∷ []) name
]

unfoldable pub check_parts : List (List ℕ) → Result (Unit {0})
check_parts [] = ok tt
check_parts (part ∷ parts) = do
  check (length part == 4) "AML path part must be four characters"
  check_parts parts

abbrev pub is_root : List ℕ → Bool
is_root [] = false
is_root (c ∷ name) = c == b'\\'

-- Two parts have a prefix of their own, and more have one with their number.
abbrev pub path_prefix : ℕ → List ℕ
path_prefix n = if n == 2 then 0x2e ∷ [] else if ltb 2 n then 0x2f ∷ u8 n ∷ [] else []

unfoldable pub encode_path : List ℕ → Result (List ℕ)
unfolding split_path check_parts
encode_path name =
    let parts : List (List ℕ) = split_path [] (if is_root name then drop 1 name else name) in
    do
      check_parts parts
      ok ((if is_root name then b'\\' ∷ [] else []) ++ (path_prefix (length parts) ++ concat parts))

abbrev pub encode_string : String → List ℕ
encode_string value = 0x0d ∷ codes value ++ 0 ∷ []

unfoldable pub encode_integer : ℕ → List ℕ
encode_integer value =
    if value == 0
    then 0x00 ∷ []
    else if value == 1
    then 0x01 ∷ []
    else if leb value 0xff
    then 0x0a ∷ u8 value ∷ []
    else if leb value 0xffff
    then 0x0b ∷ bytes_of_u16 value
    else if leb value 0xffffffff
    then 0x0c ∷ bytes_of_u32 value
    else 0x0e ∷ bytes_of_u64 value

unfoldable pub append_name : String → List ℕ → Result (List ℕ)
unfolding encode_path
append_name path value = do path_bytes ← encode_path (codes path); ok (0x08 ∷ path_bytes ++ value)

abbrev pub memory32_fixed : Bool → ℕ → ℕ → List ℕ
memory32_fixed read_write base size =
    0x86 ∷ bytes_of_u16 9
    ++ ((if read_write then 1 else 0) ∷ bytes_of_u32 base ++ bytes_of_u32 size)

abbrev pub flag : Bool → ℕ → ℕ
flag b value = if b then value else 0

abbrev pub interrupt : Bool → Bool → Bool → Bool → ℕ → List ℕ
interrupt consumer edge_triggered active_low shared number =
    0x89 ∷ bytes_of_u16 6
    ++ ((flag shared 8 + flag active_low 4 + flag edge_triggered 2 + flag consumer 1)
        ∷ 1
        ∷ bytes_of_u32 number)

abbrev pub io_port : ℕ → ℕ → List ℕ
io_port base size = 0x47 ∷ 0x01 ∷ bytes_of_u16 base ++ (bytes_of_u16 base ++ 0x01 ∷ size ∷ [])

unfoldable pub resource_template : List (List ℕ) → List ℕ
unfolding encode_integer
resource_template resources =
    let payload : List ℕ = concat resources ++ 0x79 ∷ 0x00 ∷ [] in
    let sized : List ℕ = encode_integer (length payload) ++ payload in
    append_pkg_length (0x11 ∷ []) (length sized) true ++ sized

unfoldable pub append_device : List ℕ → List (List ℕ) → Result (List ℕ)
unfolding encode_path
append_device name children = do
  path ← encode_path name
  (let payload : List ℕ = path ++ concat children in
      ok (append_pkg_length (0x5b ∷ 0x82 ∷ []) (length payload) true ++ payload))

unfoldable pub append_scope : String → List (List ℕ) → Result (List ℕ)
unfolding encode_path
append_scope name children = do
  path ← encode_path (codes name)
  (let payload : List ℕ = path ++ concat children in
      ok (append_pkg_length (0x10 ∷ []) (length payload) true ++ payload))
