-- ===== src/Tests/Earlier.antt =====
-- Applications of the theorems on the earlier kernel.
use zeos_soa.Base.{ℕ, ◌+◌, ◌*◌, ◌/◌, ◌%◌, ◌≡◌, [], refl, arith, true, update, ◌==◌, if◌then◌else◌}
use zeos_soa.KernelList.{list_first}
use zeos_soa.Mm.Paging.{zero_entry}
use zeos_soa.Utils.{verify_write}
use zeos_soa.Sys.Write.{bytes_at}
use zeos_soa.Kernel.{TaskState, st_run, st_ready}
use zeos_soa.Earlier.{Kernel, Task, list_head_to_task_struct, list_of, kids_of, current, get_pt}
use zeos_soa.Earlier.Mm.{access_ok}
use zeos_soa.Earlier.Blocks.{sys_block}
use zeos_soa.Earlier.Blocks.Wait.{CanBlock, Blocked, sys_block-Blocked}
use zeos_soa.Earlier.Fork.{start_kid}
use zeos_soa.Earlier.Fork.Kids.{start_kid_breaks_kids}
use zeos_soa.Earlier.Exit.{page_fault, is_mapped, sys_exit}
use zeos_soa.Earlier.Exit.Children.{lost, sys_exit_never_returns}
use zeos_soa.Earlier.Write.{sys_write}
use zeos_soa.Earlier.Write.Skips.{shown, sys_write-shown}
use zeos_soa.Earlier.Devices.{sys_write_console}
use zeos_soa.Tests.State.{machine}

abbrev a_task : ℕ → TaskState → Task
a_task i s = record {
  pid = i;
  dir_pages_base_addr = 0x20000 + 4096 * i;
  kernel_esp = 0x10000 + 4096 * i + 4000;
  quantum = 1000;
  status = s;
  pending_unblocks = 0;
  dad = 0x11000;
}

-- Task 1 runs and has task 3 as a child; task 2 is ready; no task is blocked.
abbrev earlier : Kernel
earlier = record {
  at = record {
    task = 0x10000;
    dir_pages = 0x20000;
    pagusr_table = 0x30000;
    freequeue = 0x1000;
    readyqueue = 0x1008;
    blocked = 0x1010;
  };
  links = record {
    next =
        update
          (update (update (update (update (λ _. 0) 0x1008 0x12008) 0x12008 0x1008) 0x1010 0x1010)
            0x11020 0x13008)
          0x13008 0x11020;
    prev =
        update
          (update (update (update (update (λ _. 0) 0x12008 0x1008) 0x1008 0x12008) 0x1010 0x1010)
            0x13008 0x11020)
          0x11020 0x13008;
  };
  task =
      update (update (λ _. a_task 0 st_run) 0x12000 (a_task 2 st_ready)) 0x11000 (a_task 1 st_run);
  page_mem = λ _. zero_entry;
  phys_mem = λ _. 0;
  word = λ _. 7;
  frame_data = λ f o. f;
  esp = 0x11f00;
  ebp = 0x11f40;
  tss_esp0 = 0x12000;
  msr_esp = 0x12000;
  cr3 = 0x21000;
  qticks = 500;
  idle_task = 0x10000;
  task_1 = 0x11000;
  sum_pid = 4;
  zeos_ticks = 0;
  console = machine.console;
}

earlier-CanBlock : CanBlock earlier 0x12008 [] []
unfolding current list_head_to_task_struct
earlier-CanBlock = record {
  ready = omega arith;
  blocked = omega arith;
  apart = omega arith;
  not_ready = omega arith;
  not_blocked = omega arith;
  node = refl;
  is_ready = refl;
  other = omega arith;
}

sys_block-Blocked_example :
    Blocked earlier (sys_block earlier) (list_head_to_task_struct 0x12008) [] []
unfolding current
sys_block-Blocked_example = sys_block-Blocked earlier 0x12008 [] [] earlier-CanBlock refl

start_kid_breaks_kids_example :
    ((start_kid 0x11000 0x14000 0x10600 earlier).1.links.prev (kids_of 0x11000) ≡ list_of 0x14000)
    × ((start_kid 0x11000 0x14000 0x10600 earlier).1.links.next (list_of 0x14000) ≡ 0x1008)
start_kid_breaks_kids_example =
    start_kid_breaks_kids 0x11000 0x14000 0x10600 earlier (omega arith) (omega arith) (omega arith)
      (omega arith) (omega arith)

-- The tables map every page but the first.
abbrev earlier_mapped : Kernel
earlier_mapped = record earlier {
  page_mem = λ a. if a == 0 then zero_entry else record zero_entry { present = 1 };
}

sys_exit_never_returns_example : sys_exit 20 earlier_mapped ≡ lost earlier_mapped
unfolding current list_first is_mapped get_pt
sys_exit_never_returns_example =
    sys_exit_never_returns 18 earlier_mapped (omega arith) (omega arith) refl

faults : lost earlier_mapped ≡ page_fault
unfolding is_mapped get_pt current
faults = refl

block_accepted : access_ok verify_write 0x100010 600 ≡ true
unfolding access_ok
block_accepted = refl

sys_write-shown_example :
    ((sys_write 1 0x100010 600 0x20000 ((λ a. a / 256 % 256), machine.console)).0 ≡ 600)
    × ((sys_write 1 0x100010 600 0x20000 ((λ a. a / 256 % 256), machine.console)).2
        ≡ sys_write_console (bytes_at (shown (λ a. a / 256 % 256) 0x100010) 0 600) machine.console)
sys_write-shown_example =
    sys_write-shown 0x100010 600 0x20000 (λ a. a / 256 % 256) machine.console (omega arith)
      (omega arith) block_accepted (omega arith)
