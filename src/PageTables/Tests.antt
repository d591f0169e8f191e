-- ===== src/PageTables/Tests.antt =====
-- The walk through tables at 0x9000.
use node_vmm.Prelude.{◌≡◌, refl, arith, some}
use node_vmm.Bytes.{Memory}
use node_vmm.Bytes.RoundTrip.{IsBytes}
use node_vmm.PageTables.{build_page_tables}
use node_vmm.PageTables.Identity.{translate, translate-build_page_tables}

abbrev ones : Memory
ones = λ a. 0xff

ones-IsBytes : IsBytes ones
ones-IsBytes a = omega arith

translate-build_page_tables_example :
    translate 0x9000 (build_page_tables 0x9000 ones) 0xfec00010 ≡ some 0xfec00010
translate-build_page_tables_example =
    translate-build_page_tables 0x9000 0xfec00010 ones ones-IsBytes refl (omega arith) (omega arith)
