-- ===== src/Uart/State.antt =====
-- The state of the port, and the bits of its registers. `irq_raises` counts the calls of
-- `irq_raiser_(4)`, and `stdout` is what was handed to the console writer, in order.
use node_vmm.Prelude.{ℕ, ◌!=◌, bit_and, Bool, true, false, List, []}
use node_vmm.Bits.Fields.{bit_not}

pub record Uart : Type 0 where
  pub ier : ℕ
  pub iir : ℕ
  pub fcr : ℕ
  pub lcr : ℕ
  pub mcr : ℕ
  pub msr : ℕ
  pub lsr : ℕ
  pub scr : ℕ
  pub dll : ℕ
  pub dlh : ℕ
  pub rbr : ℕ
  pub thr : ℕ
  pub tsr : ℕ
  pub rx_fifo : List ℕ
  pub rx_staging : List ℕ
  pub tx_fifo : List ℕ
  pub thr_ipending : Bool
  pub timeout_ipending : Bool
  pub limit : ℕ
  pub echo_stdout : Bool
  pub console : List ℕ
  pub terminal_query : List ℕ
  pub last_stdout_byte : ℕ
  pub dsr_passthrough : Bool
  pub halted_seen : Bool
  pub restarting_seen : Bool
  pub halted_match : ℕ
  pub restarting_match : ℕ
  pub irq_attached : Bool
  pub irq_raises : ℕ
  pub stdout : List ℕ

-- What the console writer knows of the host's terminal.
pub record Terminal : Type 0 where
  pub can_passthrough : Bool
  pub cursor_position_report : List ℕ

abbrev pub rx_capacity : ℕ
rx_capacity = 4096

abbrev pub fifo_size : ℕ
fifo_size = 16

abbrev pub ier_rdi : ℕ
ier_rdi = 0x01

abbrev pub ier_thri : ℕ
ier_thri = 0x02

abbrev pub ier_rlsi : ℕ
ier_rlsi = 0x04

abbrev pub ier_msi : ℕ
ier_msi = 0x08

abbrev pub fcr_enable : ℕ
fcr_enable = 0x01

abbrev pub fcr_trigger_mask : ℕ
fcr_trigger_mask = 0xc0

abbrev pub lsr_dr : ℕ
lsr_dr = 0x01

abbrev pub lsr_oe : ℕ
lsr_oe = 0x02

abbrev pub lsr_bi : ℕ
lsr_bi = 0x10

abbrev pub lsr_thre : ℕ
lsr_thre = 0x20

-- `kLsrOe | kLsrPe | kLsrFe | kLsrBi`
abbrev pub lsr_errors : ℕ
lsr_errors = 0x1e

-- `kLsrThre | kLsrTemt`
abbrev pub lsr_empty : ℕ
lsr_empty = 0x60

-- `(value & mask) != 0`
abbrev pub has_bits : ℕ → ℕ → Bool
has_bits value mask = bit_and value mask != 0

-- `value & ~mask`, cast to `uint8_t`.
abbrev pub without : ℕ → ℕ → ℕ
without value mask = bit_and value (bit_not 8 mask)

-- The member initialisers and the constructor. `passthrough` is what the environment says.
unfoldable pub initial : ℕ → Bool → Bool → Uart
initial limit echo_stdout passthrough = record {
  ier = 0;
  iir = 0x01;
  fcr = 0;
  lcr = 0;
  mcr = 0x08;
  msr = 0xb0;
  lsr = lsr_empty;
  scr = 0;
  dll = 0x0c;
  dlh = 0;
  rbr = 0;
  thr = 0;
  tsr = 0;
  rx_fifo = [];
  rx_staging = [];
  tx_fifo = [];
  thr_ipending = false;
  timeout_ipending = false;
  limit = limit;
  echo_stdout = echo_stdout;
  console = [];
  terminal_query = [];
  last_stdout_byte = 0;
  dsr_passthrough = passthrough;
  halted_seen = false;
  restarting_seen = false;
  halted_match = 0;
  restarting_match = 0;
  irq_attached = false;
  irq_raises = 0;
  stdout = [];
}

-- Counting the raises starts with the raiser.
unfoldable pub attach_irq_raiser : Uart → Uart
attach_irq_raiser u = record u { irq_attached = true }
