-- ===== src/Tests/Booting.antt =====
-- An application of the theorem on `main`: a machine with an image of eight bytes for the user.
use zeos_soa.Base.{◌%◌, false, arith, ltb, if◌then◌else◌, update}
use zeos_soa.Interrupt.{Gate}
use zeos_soa.Utils.{Bytes}
use zeos_soa.Descriptors.{Descriptor, set_tss}
use zeos_soa.System.{Processor, Symbols, Machine, main}
use zeos_soa.System.Queues.{QueuesApart}
use zeos_soa.System.Tables.{TablesApart}
use zeos_soa.System.Booted.{CanBoot, Booted, main-Booted}
use zeos_soa.Tests.State.{machine, layout}

-- The system takes 0x1000 bytes and the user's program 8.
abbrev image : Bytes
image = update (update (λ a. if ltb a 0x1000c then 0 else a % 256) 0x10001 0x10) 0x10004 8

abbrev pub symbols : Symbols
symbols = record {
  tss = 0x40000;
  clock_handler = 0x12340;
  keyboard_handler = 0x12380;
  system_call_handler = 0x123c0;
  cpu_idle = 0x12400;
}

abbrev no_gate : Gate
no_gate = record { low_offset = 0; segment_selector = 0; flags = 0; high_offset = 0 }

abbrev no_descriptor : Descriptor
no_descriptor = record {
  limit = 0;
  low_base = 0;
  mid_base = 0;
  flags1 = 0;
  flags2 = 0;
  high_base = 0;
}

abbrev processor : Processor
processor = record {
  ds = 0;
  es = 0;
  fs = 0;
  gs = 0;
  ss = 0;
  cs = 0x10;
  eip = 0;
  interrupts = false;
  mask = 0xff;
}

abbrev pub started : Machine
started = record {
  cpu = processor;
  kernel = machine;
  bytes = image;
  gdt = λ _. no_descriptor;
  idt = λ _. no_gate;
  tss = set_tss 0;
  msr = λ _. 0;
  heap_pointer = 0;
}

layout-QueuesApart : QueuesApart layout
layout-QueuesApart = record {
  aligned = omega arith;
  small = omega arith;
  free_off = omega arith;
  ready_off = omega arith;
  distinct = omega arith;
  there = omega arith;
  sems_off = λ j h. omega arith;
  sems_free = λ j h. omega arith;
  sems_ready = λ j h. omega arith;
}

layout-TablesApart : TablesApart layout.dir_pages layout.pagusr_table
layout-TablesApart = omega arith

pub started-CanBoot : CanBoot symbols started
started-CanBoot = record {
  queues = layout-QueuesApart;
  tables = layout-TablesApart;
  image_below = omega arith;
  image_fits = omega arith;
  clock_handler = omega arith;
  keyboard_handler = omega arith;
}

main-Booted_example : Booted symbols started (main (λ idt. idt) symbols started)
main-Booted_example = main-Booted (λ idt. idt) symbols started started-CanBoot
