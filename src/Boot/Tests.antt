-- ===== src/Boot/Tests.antt =====
-- A command line of three bytes, and tables for two processors.
use node_vmm.Prelude.{◌+◌, ◌≡◌, refl, [], ◌∷◌, length, true}
use node_vmm.Bytes.{Memory}
use node_vmm.Boot.Params.{write_boot_params}
use node_vmm.Boot.Table.{sum_bytes, checksum, configuration, table_size, table_start}
use node_vmm.Boot.Checks.{IsChecked, write_boot_params-IsChecked}

abbrev blank : Memory
blank = λ a. 0

checksum_here : checksum (1 ∷ 2 ∷ 3 ∷ []) ≡ 250
unfolding checksum sum_bytes
checksum_here = refl

size_here : 16 + length (configuration 2 0 0) ≡ table_size 2
unfolding configuration
size_here = refl

start_here : table_start 2 ≡ 0x9feb0
start_here = refl

write_boot_params-IsChecked_example :
    IsChecked true 0x100000 blank (write_boot_params 0x100000 (97 ∷ 98 ∷ 99 ∷ []) blank)
write_boot_params-IsChecked_example = write_boot_params-IsChecked 0x100000 (97 ∷ 98 ∷ 99 ∷ []) blank
