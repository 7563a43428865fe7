-- ===== src/System.antt =====
-- system.c, hardware.c, interrupt.c (`setSysenter`, `setIdt`): the start of the kernel.
pub mod Queues
pub mod Started
pub mod Tables
pub mod Memory
pub mod Booted
pub mod Runs
use Prim.Native.String.{String}
use zeos_soa.Base.{ℕ, ◌+◌, ◌-◌, ◌*◌, ◌/◌, ◌%◌, ◌^◌, Bool, true, false, add32, codes, sub32, update}
use zeos_soa.Mm.Paging.{l_user_start}
use zeos_soa.Kernel.{Kernel}
use zeos_soa.Io.{printk}
use zeos_soa.Utils.{Bytes, copy_data}
use zeos_soa.Interrupt.{Gate, kernel_cs, set_idt}
use zeos_soa.Descriptors.{
  Descriptor, Tss, set_gdt, set_tss, initial_esp, kernel_ds, user_cs, user_ds, user_esp,
}
use zeos_soa.Sched.{init_sched, init_idle, init_task1}
use zeos_soa.Boot.{init_mm}

-- The registers that the start of the kernel loads, but for the stack pointer, which the kernel's
-- state has; the mask of the interrupt controller at port 0x21.
pub record Processor : Type 0 where
  pub ds : ℕ
  pub es : ℕ
  pub fs : ℕ
  pub gs : ℕ
  pub ss : ℕ
  pub cs : ℕ
  pub eip : ℕ
  pub interrupts : Bool
  pub mask : ℕ

-- The addresses of the functions and of the task state segment, from the linker.
pub record Symbols : Type 0 where
  pub tss : ℕ
  pub clock_handler : ℕ
  pub keyboard_handler : ℕ
  pub system_call_handler : ℕ
  pub cpu_idle : ℕ

-- `bytes` is the memory that no object of the kernel's state lies in: the image of the system and
-- the pages of the user. `msr` are the model-specific registers but 0x175, which the kernel's state
-- has, as it has `esp0` of the task state segment.
pub record Machine : Type 0 where
  pub cpu : Processor
  pub kernel : Kernel
  pub bytes : Bytes
  pub gdt : ℕ → Descriptor
  pub idt : ℕ → Gate
  pub tss : Tss
  pub msr : ℕ → ℕ
  pub heap_pointer : ℕ

abbrev pub kernel_start : ℕ
kernel_start = 0x10000

-- A 32-bit word of memory, the lowest byte first.
abbrev pub word_at : Bytes → ℕ → ℕ
word_at m a = m a + 2 ^ 8 * m (a + 1) + 2 ^ 16 * m (a + 2) + 2 ^ 24 * m (a + 3)

abbrev pub p_sys_size : ℕ
p_sys_size = kernel_start

abbrev pub p_usr_size : ℕ
p_usr_size = kernel_start + 4

abbrev pub p_rdtr : ℕ
p_rdtr = kernel_start + 8

abbrev byte_of : ℕ → ℕ → ℕ
byte_of w i = w / 2 ^ (8 * i) % 2 ^ 8

abbrev pub store_word : Bytes → ℕ → ℕ → Bytes
store_word m a w =
    update (update (update (update m a (byte_of w 0)) (a + 1) (byte_of w 1)) (a + 2) (byte_of w 2))
      (a + 3) (byte_of w 3)

-- `set_eflags`: the flags become 0, the interrupt flag among them.
unfoldable pub set_eflags : Machine → Machine
set_eflags m = record m { cpu = record m.cpu { interrupts = false } }

unfoldable pub set_seg_regs : (data_sel stack_sel esp : ℕ) → Machine → Machine
set_seg_regs data_sel stack_sel esp m =
    let esp = sub32 esp (5 * 4) in
    record m {
      cpu = record m.cpu {
        ds = data_sel;
        es = data_sel;
        fs = data_sel;
        gs = data_sel;
        ss = stack_sel;
      };
      kernel = record m.kernel { esp = esp };
    }

abbrev show : String → Machine → Machine
show s m = record m { kernel = record m.kernel { console = printk m.kernel.console (codes s) } }

unfoldable pub set_sysenter : Symbols → Machine → Machine
set_sysenter at m = record m {
  msr = update (update m.msr 0x174 kernel_cs) 0x176 at.system_call_handler;
  kernel = record m.kernel { msr_esp = initial_esp m.kernel.at.task };
}

-- `setIdt`. `set_handlers` stands for the function of that name, which is in no source here.
unfoldable pub set_gates : (set_handlers : (ℕ → Gate) → ℕ → Gate) → Symbols → Machine → Machine
unfolding set_sysenter
set_gates set_handlers at m =
    set_sysenter at
      (record m { idt = set_idt at.clock_handler at.keyboard_handler (set_handlers m.idt) })

-- `setTSS`; `esp0` is kept in the kernel's state too.
unfoldable pub load_tss : Machine → Machine
load_tss m = record m {
  tss = set_tss m.kernel.at.task;
  kernel = record m.kernel { tss_esp0 = initial_esp m.kernel.at.task };
}

unfoldable pub enable_int : Machine → Machine
enable_int m = record m { cpu = record m.cpu { mask = 0xfc; interrupts = true } }

-- `return_gate`: a far return to user mode, with `*p_rdtr` left above the user's stack pointer.
unfoldable pub return_gate : (ds ss esp cs eip : ℕ) → Machine → Machine
return_gate ds ss esp cs eip m = record m {
  cpu = record m.cpu { es = ds; ds = ds; ss = ss; cs = cs; eip = eip };
  kernel = record m.kernel { esp = esp };
  bytes = store_word m.bytes (esp + 12) (word_at m.bytes p_rdtr);
}

-- The tables of the processor: the calls of `main` up to `setTSS`.
unfoldable pub set_tables : (set_handlers : (ℕ → Gate) → ℕ → Gate) → Symbols → Machine → Machine
unfolding set_eflags set_seg_regs set_gates load_tss
set_tables set_handlers at m =
    let m = set_eflags m in
    let m = set_seg_regs kernel_ds kernel_ds (m.kernel.at.task - 4096 + 5 * 4096) m in
    let m = show "Kernel Loaded!    " m in
    let m = record m { gdt = set_gdt at.tss m.gdt } in load_tss (set_gates set_handlers at m)

-- The kernel's data: the calls from `init_mm` to `init_task1`.
unfoldable pub init_kernel : (cpu_idle : ℕ) → Kernel → ℕ × Kernel
init_kernel cpu_idle k =
    let (heap_pointer, k) = init_mm k in
    (heap_pointer, init_task1 (init_idle cpu_idle (init_sched k)))

-- The user's program goes to `usr_main`, PH_USER_START, which is L_USER_START.
unfoldable pub load_user : Machine → Machine
load_user m =
    let start = add32 kernel_start (word_at m.bytes p_sys_size) in
    record m { bytes = copy_data m.bytes start l_user_start (word_at m.bytes p_usr_size) }

unfoldable pub main : (set_handlers : (ℕ → Gate) → ℕ → Gate) → Symbols → Machine → Machine
unfolding enable_int return_gate load_user
main set_handlers at m =
    let m = set_tables set_handlers at m in
    let (heap_pointer, k) = init_kernel at.cpu_idle m.kernel in
    let m = load_user (record m { kernel = k; heap_pointer = heap_pointer }) in
    let m = enable_int (show "Entering user mode..." m) in
    return_gate user_ds user_ds user_esp user_cs l_user_start m
