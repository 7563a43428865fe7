-- ===== src/Interrupt/Clock.antt =====
-- A tick of the clock, interrupt.c.
use zeos_soa.Base.{ℕ, ◌≡◌, ◌≢◌, List, add32, sub32}
use zeos_soa.Io.{Console}
use zeos_soa.Kernel.{Kernel, list_head_to_task_struct, current}
use zeos_soa.Sched.Policy.{CanRotate, Rotated, schedule_within, schedule-Rotated}
use zeos_soa.Interrupt.{clock_routine}

module _ (show_clock : ℕ → Console → Console) where
  -- A tick within the quantum counts the tick, takes one off the quantum and shows the clock, and
  -- changes nothing else.
  pub clock_routine_within :
      (k : Kernel)
      → sub32 k.remaining_quantum 1 ≢ 0
      → clock_routine show_clock k ≡ record k {
        console = show_clock k.zeos_ticks k.console;
        zeos_ticks = add32 k.zeos_ticks 1;
        remaining_quantum = sub32 k.remaining_quantum 1;
      }
  unfolding clock_routine
  clock_routine_within k h =
      schedule_within
        (record k {
          console = show_clock k.zeos_ticks k.console;
          zeos_ticks = add32 k.zeos_ticks 1;
        })
        h

  -- The tick that ends the quantum takes the processor from the running task, which goes to the
  -- tail of the ready queue, and gives it to the head of that queue.
  pub clock_routine-Rotated :
      (k : Kernel) (e : ℕ) (es : List ℕ)
      → sub32 k.remaining_quantum 1 ≡ 0
      → CanRotate k e es
      → Rotated k (clock_routine show_clock k) (list_head_to_task_struct e) es
  unfolding clock_routine current
  clock_routine-Rotated k e es h can =
      let k' = record k {
        console = show_clock k.zeos_ticks k.console;
        zeos_ticks = add32 k.zeos_ticks 1;
      } in
      let can' : CanRotate k' e es = record {
        ring = can.ring;
        running = can.running;
        there = can.there;
        apart = can.apart;
        fresh = can.fresh;
        other = can.other;
      } in
      let r = schedule-Rotated k' e es h can' in
      record {
        stack = r.stack;
        state = r.state;
        quantum = r.quantum;
        address_space = r.address_space;
        waits = r.waits;
        saved = r.saved;
        queue = r.queue;
      }
