-- ===== src/Tests/Creation.antt =====
-- Applications of the theorems on new threads and on the heap.
use zeos_soa.Base.{ℕ, some, ◌+◌, ◌*◌, ◌≡◌, ◌≢◌, inl, inr, [], ◌∷◌, refl, arith, neg, false}
use zeos_soa.Mm.Frames.{alloc_frame}
use zeos_soa.Mm.Frames.Alloc.{alloc_frame-cases}
use zeos_soa.Utils.{access_ok, in_user_pages, in_heap}
use zeos_soa.Sys.Fork.Frames.{FreeFrames, OwnFrames}
use zeos_soa.Sys.Heap.Exhausted.{sys_sbrk_undoes}
use zeos_soa.Sys.Heap.Pages.{page_address, with_pages, sys_sbrk-OwnFrames}
use zeos_soa.Kernel.{Kernel, get_pt, current, list_head_to_task_struct}
use zeos_soa.Sys.Heap.{heap_pointer, set_heap_pointer, pages_needed, sys_sbrk}
use zeos_soa.Sys.Heap.Shrink.{Shrunk, sys_sbrk-Shrunk}
use zeos_soa.Sys.{sys_get_stats}
use zeos_soa.Sys.Report.{Reported, sys_get_stats-Reported}
use zeos_soa.Sys.Thread.{bad_pointers, sys_thread_create}
use zeos_soa.Sys.Thread.Spawn.{CanSpawn, Spawned, sys_thread_create-Spawned}
use zeos_soa.Tests.State.{machine, n2, n3, n4, ready-IsRing, free-IsRing}

frame_found : (alloc_frame machine.phys_mem).0 ≢ neg 1
frame_found e = elim (alloc_frame-cases machine.phys_mem) [
  | inl a ↦ omega (arith, a.user, e)
  | inr x ↦ x.none_free 256 (omega arith) refl
]

good_pointers : bad_pointers machine 0x100100 0 0x100040 ≡ false
unfolding bad_pointers access_ok in_user_pages in_heap current
good_pointers = refl

machine-CanSpawn : CanSpawn machine 0x100100 0 0x100040 n4 (n2 ∷ n3 ∷ []) []
unfolding current list_head_to_task_struct
machine-CanSpawn = record {
  pointers = good_pointers;
  free = free-IsRing;
  ready = ready-IsRing;
  apart = omega arith;
  node = refl;
  other = omega arith;
  page = omega arith;
  frame = frame_found;
}

sys_thread_create-Spawned_example :
    (r : ℕ × Kernel) × (sys_thread_create 0x100100 0 0x100040 machine ≡ some r)
    × Spawned machine r (list_head_to_task_struct n4) (n2 ∷ n3 ∷ []) []
sys_thread_create-Spawned_example =
    sys_thread_create-Spawned machine 0x100100 0 0x100040 n4 (n2 ∷ n3 ∷ []) [] machine-CanSpawn

-- Two pages, at the start of the heap.
machine-FreeFrames : FreeFrames (pages_needed 5000) machine.phys_mem (λ i. 256 + 2 * i)
machine-FreeFrames = record {
  user = λ i l. omega arith;
  free = λ i l. refl;
  distinct = λ i j l u. omega arith;
}

sys_sbrk-OwnFrames_example :
    (k' : Kernel) × (sys_sbrk 5000 machine ≡ (heap_pointer machine (current machine), k'))
    × OwnFrames
        (pages_needed 5000)
        (get_pt machine (current machine))
        40
        machine
        (with_pages machine k')
    × (heap_pointer k' (current machine) ≡ page_address (40 + pages_needed 5000))
unfolding current
sys_sbrk-OwnFrames_example =
    sys_sbrk-OwnFrames machine 5000 40 (λ i. 256 + 2 * i) (omega arith) (omega arith) refl
      (omega arith) (omega arith) refl machine-FreeFrames

-- No frame is free.
abbrev full : Kernel
full = record machine { phys_mem = λ f. 1 }

sys_sbrk_undoes_example :
    ((sys_sbrk 5000 full).0 ≡ 0)
    × ((sys_sbrk 5000 full).1.phys_mem ≡ full.phys_mem)
    × ((sys_sbrk 5000 full).1.page_mem ≡ full.page_mem)
    × (heap_pointer (sys_sbrk 5000 full).1 (current full) ≡ heap_pointer full (current full))
unfolding current
sys_sbrk_undoes_example =
    sys_sbrk_undoes full 5000 40 (omega arith) (omega arith) refl (omega arith) (omega arith) refl
      refl (λ j l u. refl) (λ g h. omega (arith, h.free 0 (omega arith)))

-- A heap of ten pages.
abbrev ten_pages : Kernel
ten_pages = set_heap_pointer machine (current machine) 0x13a000

sys_sbrk-Shrunk_example :
    ((sys_sbrk (neg 5000) ten_pages).0 ≡ heap_pointer ten_pages (current ten_pages))
    × Shrunk
        (pages_needed 5000)
        (current ten_pages)
        (get_pt ten_pages (current ten_pages))
        314
        ten_pages
        (sys_sbrk (neg 5000) ten_pages).1
unfolding current
sys_sbrk-Shrunk_example =
    sys_sbrk-Shrunk ten_pages 5000 314 (omega arith) (omega arith) refl (omega arith) (omega arith)

sys_get_stats-Reported_example : Reported 1 0x108080 machine (sys_get_stats 1 0x108080 machine)
sys_get_stats-Reported_example = sys_get_stats-Reported 1 0x108080 machine
