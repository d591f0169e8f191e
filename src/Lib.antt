-- ===== src/Lib.antt =====
-- node-vmm runs small virtual machines from Node.js. Its native part drives the hypervisor of the
-- host and emulates the devices of a PC for the guest. This library models the devices of the
-- Windows backend under native/whp and what it puts into guest memory for the kernel, with the
-- helpers of native/common that they stand on.
--
-- The parts and how they interact. The run loop of native/whp/backend.cc takes an exit of a virtual
-- CPU to the device whose port or memory window was touched, polls the timers, and hands interrupts
-- to the delivery of native/whp/irq.cc. Each device is an object with private state; here it is a
-- record, and each of its member functions is a function of the same name, in snake case, from the
-- state before to the state after and the answer.
--
-- Bytes      native/common/bytes.h: Check, CheckedAdd, CheckedMul, CheckRange, ReadU16 to WriteLe,
--            DepositBits. A throw is the `err` of `Result`.
-- Irq        native/whp/irq.h, native/whp/irq.cc: TryDeliverPendingExtInt and what it calls. The
--            hypervisor is a parameter, the record `Api` over an abstract partition.
-- Pic        native/whp/devices/pic.cc: the pair of interrupt controllers.
-- Pit        native/whp/devices/pit.cc: the interval timer.
-- Cmos       native/whp/devices/cmos.cc: the clock registers.
-- PmTimer    native/whp/devices/acpi_pm_timer.cc: the power management timer.
-- Uart       native/whp/devices/uart.cc: the serial port. Uart/State to Uart/Registers hold the
--            code; Uart/Queue, Uart/Markers, Uart/Matcher and Uart/Crlf are about it.
-- Hpet       native/whp/devices/hpet.cc: the event timer. Hpet/State, Hpet/Timers and
--            Hpet/Registers hold the code; Hpet/Expiry, Hpet/Window and Hpet/Config are about it.
-- VirtioRng  native/whp/virtio/rng.cc: the entropy device, with native/whp/virtio/desc.h and
--            native/whp/guest_memory.h. VirtioRng/State, VirtioRng/Queue and VirtioRng/Registers hold
--            the code; VirtioRng/Ring, VirtioRng/Chain, VirtioRng/Service and
--            VirtioRng/Setup are about it.
-- WinIo      native/whp/win_io.h: PreadAll, PwriteAll, TruncateFileTo and MarkFileSparse. The calls
--            of the system are a parameter, the record `FileApi` over an abstract file, with what
--            their documentation says of a disk that works in `IsFileApi`; WinIo/Slow is a file
--            that has these laws.
-- VirtioBlk  native/whp/virtio/blk.cc: the block device. VirtioBlk/State, Disk, Chain, Used, Request,
--            Registers and Attach hold the code; View is the disk as the guest sees it, which
--            Reading, Prepare, Written, Writing and RoundTrip are about; Safety, SafeWrites,
--            SafeData, SafeRequests and Window are about the bounds of guest memory, Completion and
--            Walk about the loops, Refusals about errors.
-- IoApic     the class IoApic of native/whp/backend.cc. The hypervisor is a parameter, a function
--            that accepts or refuses a request. IoApic/Lines and Again are about the end of an
--            interrupt, Order about the queue, Table about the entries.
-- ElfLoader  native/whp/elf_loader.cc: the segments of a kernel image. ElfLoader/Header holds the
--            checks of the header; Bounds and Loading are about the loader.
-- PageTables BuildPageTables of native/whp/page_tables.cc; Entries and Identity walk the tables.
-- Acpi       the ACPI tables of native/whp/backend.cc, AppendPkgLength to CreateAcpiTables. Acpi,
--            Acpi/Encode, Acpi/Devices, Acpi/Tables and Acpi/Place hold the code; Length, Sums,
--            Sizes, Placed, Names and Linked are about it.
-- VirtioNet  the class VirtioNet of native/whp/backend.cc. VirtioNet/State, VirtioNet/Receive,
--            VirtioNet/Transmit and VirtioNet/Registers hold the code; Backlog, Safety, Window,
--            Progress, Stores, Delivery and Negotiation are about it. The stack of the host is a
--            parameter, which takes a frame and may send frames for the guest while it does.
-- ConsoleWriter
--            the class ConsoleWriter of native/whp/console_writer.h. ConsoleWriter/Scan, Normalize and
--            Queue hold the code; SafePrefix, Rounds and Frames are about the bytes, Chunks, Order,
--            Conserved and Drained about the two threads, whose steps a list of actions interleaves.
-- Boot       native/whp/boot_params.cc: the zero page, the command line and the MP table.
--            Boot/Params and Boot/Table hold the code; Boot/Checks is about it.
-- Prelude and Bits hold what these share: tests on numbers, lists, results, code that may throw and
-- changes a state, and the bits of a number. Each component has its runs at concrete inputs in a module Tests.
--
-- Conventions. Numbers are natural numbers, and a machine word has its wrap-around written out (u8
-- to u64). A pointer into bytes is an address of a memory, a function. A time is a count of
-- nanoseconds on the steady clock, and an operation takes the readings that it makes as arguments. A
-- callback is a counter or a log in the state. Locks are not modelled: a member function is one step,
-- but those of ConsoleWriter, which give a lock away half way, are several; one thread at a time calls
-- its `write` and `flush_pending`.
--
-- Bounds. Two loops run on fuel. `catch_up` of Pit is given one round for each nanosecond since the
-- start of the clock, and one interval is a millisecond at least. `catch_up` of Hpet takes its fuel
-- from outside and answers `none` where it runs out, since the source's loop can take any number of
-- rounds. `fill_chunks` of VirtioRng runs a round for each started MiB, and `serve` one for each
-- entry between the indices of the device and of the driver, modulo 2 ^ 16, which is what the loops
-- of the source need. `pread_loop` and `pwrite_loop` of WinIo run a round for each byte at most,
-- since a call that transfers none is an error; `read_sectors` of VirtioBlk likewise, its `serve` as
-- above, and `tx_loop` of VirtioNet takes its fuel from outside, since it reads the index of the
-- driver anew in each round and a guest can keep it ahead; where it
-- is not enough the state so far is answered, with the mark that the loop has not ended. `walk_chain` runs one round more than the queue has descriptors.
-- `normalize` and `has_open_frame` of ConsoleWriter run a round for each byte at most; each round takes one.
--
-- Not modelled: the rest of native/whp/backend.cc (the host's network stack, Hyper-V state, run loop),
-- the reading of the kernel file in native/whp/elf_loader.cc, the segment registers of
-- native/whp/page_tables.cc, whose layout is that of the Windows Hypervisor Platform, the backends
-- native/kvm and native/hvf, the threads, handles and modes of the host console, the TypeScript
-- under src, and debug output.
pub mod Prelude
pub mod Bits
pub mod Bytes
pub mod Irq
pub mod Pic
pub mod Pit
pub mod Cmos
pub mod PmTimer
pub mod Uart
pub mod Hpet
pub mod VirtioRng
pub mod WinIo
pub mod VirtioBlk
pub mod IoApic
pub mod ElfLoader
pub mod PageTables
pub mod Acpi
pub mod VirtioNet
pub mod ConsoleWriter
pub mod Boot
