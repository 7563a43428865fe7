-- ===== src/Descriptors.antt =====
-- mm.c, include/types.h: the segment descriptors and the task state segment.
pub mod Address
use zeos_soa.Base.{ℕ, ◌+◌, ◌-◌, ◌*◌, ◌/◌, ◌%◌, ◌^◌, update}
use zeos_soa.Mm.Paging.{page_size, l_user_start, num_pag_code, num_pag_data}
use zeos_soa.Interrupt.{low_word}

-- `Descriptor`.
pub record Descriptor : Type 0 where
  pub limit : ℕ
  pub low_base : ℕ
  pub mid_base : ℕ
  pub flags1 : ℕ
  pub flags2 : ℕ
  pub high_base : ℕ

abbrev pub mid_byte : ℕ → ℕ
mid_byte address = address / 2 ^ 16 % 2 ^ 8

abbrev pub high_byte : ℕ → ℕ
high_byte address = address / 2 ^ 24 % 2 ^ 8

abbrev pub kernel_tss : ℕ
kernel_tss = 0x30

-- `setGdt`: `tss` is the address of the task state segment. The register that holds the table's own
-- address is no part of the state.
unfoldable pub set_gdt : (tss : ℕ) → (gdt : ℕ → Descriptor) → ℕ → Descriptor
set_gdt tss gdt =
    let i = kernel_tss / 2 ^ 3 in
    update gdt i (record (gdt i) {
      low_base = low_word tss;
      mid_base = mid_byte tss;
      high_base = high_byte tss;
    })

-- `TSS`, less its unused fields.
pub record Tss : Type 0 where
  pub previous_task_link : ℕ
  pub esp0 : ℕ
  pub ss0 : ℕ
  pub esp1 : ℕ
  pub ss1 : ℕ
  pub esp2 : ℕ
  pub ss2 : ℕ
  pub cr3 : ℕ
  pub eip : ℕ
  pub e_flags : ℕ
  pub eax : ℕ
  pub ecx : ℕ
  pub edx : ℕ
  pub ebx : ℕ
  pub esp : ℕ
  pub ebp : ℕ
  pub esi : ℕ
  pub edi : ℕ
  pub es : ℕ
  pub cs : ℕ
  pub ss : ℕ
  pub ds : ℕ
  pub fs : ℕ
  pub gs : ℕ
  pub ldt_segment_selector : ℕ
  pub debug_trap : ℕ
  pub io_map_base_address : ℕ

abbrev pub kernel_ds : ℕ
kernel_ds = 0x18

abbrev pub user_cs : ℕ
user_cs = 0x23

abbrev pub user_ds : ℕ
user_ds = 0x2b

abbrev pub initial_eflags : ℕ
initial_eflags = 0x200

abbrev pub user_esp : ℕ
user_esp = l_user_start + (num_pag_code + num_pag_data) * 0x1000 - 16

-- `INITIAL_ESP`: the end of the second task's stack, by the address of the task array.
abbrev pub initial_esp : (task : ℕ) → ℕ
initial_esp task = task + page_size + page_size

unfoldable pub set_tss : (task : ℕ) → Tss
set_tss task = record {
  previous_task_link = 0;
  esp0 = initial_esp task;
  ss0 = kernel_ds;
  esp1 = 0;
  ss1 = 0;
  esp2 = 0;
  ss2 = 0;
  cr3 = 0;
  eip = 0;
  e_flags = initial_eflags;
  eax = 0;
  ecx = 0;
  edx = 0;
  ebx = 0;
  esp = user_esp;
  ebp = user_esp;
  esi = 0;
  edi = 0;
  es = user_ds;
  cs = user_cs;
  ss = user_ds;
  ds = user_ds;
  fs = 0;
  gs = 0;
  ldt_segment_selector = kernel_tss;
  debug_trap = 0;
  io_map_base_address = 0;
}
