-- ===== src/System/Booted.antt =====
-- system.c: the machine that `main` hands to the first user process.
use zeos_soa.Base.{ℕ, ◌+◌, ◌^◌, ◌≤◌, ◌<◌, ◌≡◌, refl, sym, subst, ◌∙◌, true, [], arith, inl, add32}
use zeos_soa.KernelList.Ring.{IsRing}
use zeos_soa.Mm.Paging.{l_user_start}
use zeos_soa.Kernel.{allocate_dir, get_dir, get_pt}
use zeos_soa.Sched.{num_sem, sem_at, blocked_of, free_sem}
use zeos_soa.Sched.Turns.{Turn}
use zeos_soa.Boot.{init_mm}
use zeos_soa.Interrupt.{Gate, set_idt, set_interrupt_handler}
use zeos_soa.Interrupt.Gates.{Decodes, set_interrupt_handler-Decodes}
use zeos_soa.Utils.{Bytes, copy_data}
use zeos_soa.Utils.Copy.{copy_data-Copied}
use zeos_soa.Descriptors.{user_cs, user_ds, user_esp}
use zeos_soa.System.{
  Machine, Symbols, kernel_start, word_at, p_sys_size, p_usr_size, store_word, set_tables,
  init_kernel, load_user, return_gate, main,
}
use zeos_soa.System.Queues.{QueuesApart, FreeTasks, task_at}
use zeos_soa.System.Started.{IsIdle, IsFirst}
use zeos_soa.System.Tables.{TablesApart}
use zeos_soa.System.Memory.{HasTables, Started-Turn, init_kernel-Started, init_kernel-HasTables}

abbrev sys_size : Machine → ℕ
sys_size m = word_at m.bytes p_sys_size

abbrev usr_size : Machine → ℕ
usr_size m = word_at m.bytes p_usr_size

-- What `main` relies on: the kernel's objects lie apart, and the image of the user's program lies
-- below the user's pages and fits into them, the last 16 bytes excepted; code addresses have 32 bits.
pub record CanBoot (at : Symbols) (m : Machine) : Type 0 where
  pub queues : QueuesApart m.kernel.at
  pub tables : TablesApart m.kernel.at.dir_pages m.kernel.at.pagusr_table
  pub image_below : kernel_start + sys_size m + usr_size m ≤ l_user_start
  pub image_fits : l_user_start + usr_size m ≤ user_esp
  pub clock_handler : at.clock_handler < 2 ^ 32
  pub keyboard_handler : at.keyboard_handler < 2 ^ 32

-- The registers with which the user's program begins.
pub record InUserMode (m : Machine) : Type 0 where
  pub cs : m.cpu.cs ≡ user_cs
  pub ds : m.cpu.ds ≡ user_ds
  pub es : m.cpu.es ≡ user_ds
  pub ss : m.cpu.ss ≡ user_ds
  pub eip : m.cpu.eip ≡ l_user_start
  pub esp : m.kernel.esp ≡ user_esp
  pub interrupts : m.cpu.interrupts ≡ true
  pub mask : m.cpu.mask ≡ 0xfc

-- `m'` is `m` after `main`.
pub record Booted (at : Symbols) (m m' : Machine) : Type 0 where
  pub user_mode : InUserMode m'
  pub place : m'.kernel.at ≡ m.kernel.at
  pub queues : FreeTasks m.kernel.at m'.kernel.links 8 2
  pub sems : (j : ℕ) → j < num_sem → m'.kernel.sem (sem_at m.kernel.at.semafor_proces j) ≡ free_sem
  pub waiting :
      (j : ℕ)
      → j < num_sem
      → IsRing m'.kernel.links (blocked_of (sem_at m.kernel.at.semafor_proces j)) []
  pub idle : IsIdle at.cpu_idle (task_at m.kernel 0) m'.kernel
  pub first : IsFirst (task_at m.kernel 1) m'.kernel
  pub turn :
      (esp : ℕ)
      → task_at m.kernel 1 + 4 ≤ esp
      → esp ≤ m'.kernel.tss_esp0
      → Turn (record m'.kernel { esp = esp }) (task_at m.kernel 1) []
  pub stacks : (m'.kernel.tss_esp0 ≡ task_at m.kernel 2) × (m'.kernel.msr_esp ≡ task_at m.kernel 2)
  pub memory : HasTables m.kernel m'.kernel
  pub image :
      (i : ℕ)
      → i < usr_size m
      → m'.bytes (l_user_start + i) ≡ m.bytes (kernel_start + sys_size m + i)
  pub clock_gate : Decodes (m'.idt 32) at.clock_handler 0
  pub keyboard_gate : Decodes (m'.idt 33) at.keyboard_handler 0
  pub sysenter : m'.msr 0x176 ≡ at.system_call_handler

-- The copy of the image and the word above the user's stack pointer.
image_kept :
    (m : Bytes) (sys usr w i : ℕ)
    → kernel_start + sys + usr ≤ l_user_start
    → l_user_start + usr ≤ user_esp
    → i < usr
    → store_word
        (copy_data m (add32 kernel_start sys) l_user_start usr)
        (user_esp + 12)
        w
        (l_user_start + i)
      ≡ m (kernel_start + sys + i)
image_kept m sys usr w i below fits h =
    let start : add32 kernel_start sys ≡ kernel_start + sys = omega arith in
    rw start (
      ground (
        arith,
        copy_data-Copied m (kernel_start + sys) l_user_start usr (inl below) (l_user_start + i),
      ))

set_idt_gates :
    (clock keyboard : ℕ) (idt : ℕ → Gate)
    → clock < 2 ^ 32
    → keyboard < 2 ^ 32
    → Decodes (set_idt clock keyboard idt 32) clock 0
      × Decodes (set_idt clock keyboard idt 33) keyboard 0
unfolding set_idt
set_idt_gates clock keyboard idt c k =
    let inner = set_interrupt_handler idt 32 clock 0 in
    let (second, kept) = set_interrupt_handler-Decodes inner 33 keyboard 0 32 k (omega arith) in
    (
      subst (λ g. Decodes g clock 0) (sym (kept (omega arith)))
          (set_interrupt_handler-Decodes idt 32 clock 0 33 c (omega arith)).0,
      second,
    )

-- `main`, whatever the state of the memory before: the processor enters the user's program in user
-- mode with interrupts on, at the first of the user's pages, which hold the program's image; the
-- first process runs alone, however deep it is in its kernel stack, the idle task waits to start
-- `cpu_idle`, and the eight other task structs are free; the first process's page table maps its
-- pages of code read-only and its pages of data writable, each to a frame of its own, and keeps the
-- kernel's pages; all ten semaphores are free, with no task waiting; and the clock, the keyboard
-- and the system calls lead to their handlers. The kernel's objects and the image are supposed to
-- lie apart.
pub main-Booted :
    (set_handlers : (ℕ → Gate) → ℕ → Gate) (at : Symbols) (m : Machine)
    → CanBoot at m
    → Booted at m (main set_handlers at m)
unfolding main set_tables return_gate load_user init_kernel init_mm allocate_dir get_dir get_pt
main-Booted set_handlers at m b =
    let k = (set_tables set_handlers at m).kernel in
    let s = init_kernel-Started at.cpu_idle k b.queues in
    let t = init_kernel-HasTables at.cpu_idle k b.queues b.tables in
    let gates =
      set_idt_gates at.clock_handler at.keyboard_handler (set_handlers m.idt) b.clock_handler
        b.keyboard_handler in
    record {
      user_mode = record {
        cs = refl;
        ds = refl;
        es = refl;
        ss = refl;
        eip = refl;
        esp = refl;
        interrupts = refl;
        mask = refl;
      };
      place = s.place;
      queues = s.queues;
      sems = s.sems;
      waiting = s.waiting;
      idle = record {
        pid = s.idle.pid;
        tid = s.idle.tid;
        quantum = s.idle.quantum;
        stack = s.idle.stack;
        entry = s.idle.entry;
        chosen = s.idle.chosen;
      };
      first = record {
        pid = s.first.pid;
        tid = s.first.tid;
        state = s.first.state;
        quantum = s.first.quantum;
        heap = s.first.heap;
        heap_pointer = s.first.heap_pointer;
        heap_end = s.first.heap_end;
        semafors = s.first.semafors;
        dir = s.first.dir;
      };
      turn = λ esp lo hi.
          Started-Turn at.cpu_idle (init_mm k).1 (init_kernel at.cpu_idle k).1
            (main set_handlers at m).kernel.console esp b.queues s lo hi;
      stacks = (s.tss ∙ omega arith, s.msr ∙ omega arith);
      memory = record {
        table = t.table;
        cr3 = t.cr3;
        user_pages = t.user_pages;
        other_pages = t.other_pages;
        frames = t.frames;
      };
      image = λ i h. image_kept m.bytes (sys_size m) (usr_size m) _ i b.image_below b.image_fits h;
      clock_gate = gates.0;
      keyboard_gate = gates.1;
      sysenter = ground arith;
    }
