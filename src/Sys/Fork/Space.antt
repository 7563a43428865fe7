-- ===== src/Sys/Fork/Space.antt =====
-- The address space that `sys_fork` gives to the child.
use zeos_soa.Base.{
  ℕ, zero, suc, ◌+◌, ◌^◌, ◌≤◌, ◌<◌, ◌≡◌, ◌≢◌, inl, inr, refl, ap, ◌∙◌, some, arith, update,
}
use native.Mathlib.Decide.{ℕ_discrete}
use zeos_soa.Mm.Frames.{num_pag_kernel}
use zeos_soa.Mm.Paging.{
  Entry, mapping, zero_entry, num_pag_code, num_pag_data, entry_at, set_ss_pag, get_frame,
}
use zeos_soa.Kernel.{Kernel}
use zeos_soa.Sys.Heap.{heap_pointer}
use zeos_soa.Sys.Fork.{share_loop, heap_copy_loop}
use zeos_soa.Sys.Fork.Copy.{Apart}

-- The pages from `pag` on that the child shares, and nothing else has changed.
pub record Shared (ppt cpt pag n : ℕ) (k k' : Kernel) : Type 0 where
  pub shared :
      (j : ℕ)
      → pag ≤ j
      → j < pag + n
      → k'.page_mem (entry_at cpt j) ≡ mapping (get_frame k.page_mem ppt j) 1 1
  pub others :
      (a : ℕ)
      → ((j : ℕ) → pag ≤ j → j < pag + n → a ≢ entry_at cpt j)
      → k'.page_mem a ≡ k.page_mem a
  pub rest : k' ≡ record k { page_mem = k'.page_mem }

-- Entries of pages below 1024 of two tables are never the same.
pub entries-Apart : (a b i j : ℕ) → Apart a b → i < 1024 → j < 1024 → entry_at a i ≢ entry_at b j
entries-Apart a b i j (inl h) u v = omega arith
entries-Apart a b i j (inr h) u v = omega arith

-- The state after one page.
abbrev one_shared : (ppt cpt pag : ℕ) → Kernel → Kernel
one_shared ppt cpt pag k = record k {
  page_mem = update k.page_mem (entry_at cpt pag) (mapping (get_frame k.page_mem ppt pag) 1 1);
}

Shared-step :
    (ppt cpt pag n : ℕ) (k k' : Kernel)
    → Apart ppt cpt
    → pag + suc n ≤ 1024
    → Shared ppt cpt (pag + 1) n (one_shared ppt cpt pag k) k'
    → Shared ppt cpt pag (suc n) k k'
unfolding get_frame
Shared-step ppt cpt pag n k k' apart h s = record {
  shared = λ j l u. elim (ℕ_discrete j pag) [
    | yes e ↦ rw (e) (s.others (entry_at cpt pag) (λ i l' u'. omega arith) ∙ ground arith)
    | no ne ↦
        let other : entry_at ppt j ≢ entry_at cpt pag =
          entries-Apart ppt cpt j pag apart (omega arith) (omega arith) in
        let old : (one_shared ppt cpt pag k).page_mem (entry_at ppt j)
            ≡ k.page_mem (entry_at ppt j) =
          ground arith in
        s.shared j (omega arith) (omega arith) ∙ ap (λ (e : Entry). mapping e.pbase_addr 1 1) old
  ];
  others = λ a ne.
      let first : a ≢ entry_at cpt pag = ne pag (omega arith) (omega arith) in
      s.others a (λ j l u. ne j (omega arith) (omega arith)) ∙ ground arith;
  rest = s.rest;
}

pub share_loop-Shared :
    (n ppt cpt pag : ℕ) (k : Kernel)
    → Apart ppt cpt
    → pag + n ≤ 1024
    → Shared ppt cpt pag n k (share_loop n ppt cpt pag k)
unfolding share_loop set_ss_pag
share_loop-Shared zero ppt cpt pag k apart h = record {
  shared = λ j l u. absurd (omega arith);
  others = λ a ne. refl;
  rest = refl;
}
share_loop-Shared (suc n) ppt cpt pag k apart h =
    let k1 = one_shared ppt cpt pag k in
    Shared-step ppt cpt pag n k (share_loop n ppt cpt (pag + 1) k1) apart h
      (share_loop-Shared n ppt cpt (pag + 1) k1 apart (omega arith))

-- Without a heap, the loop over it does nothing.
pub heap_copy_loop-empty :
    (n ppt cpt pointer end : ℕ) (k : Kernel)
    → end ≤ pointer
    → heap_copy_loop n ppt cpt pointer end k ≡ some k
unfolding heap_copy_loop
heap_copy_loop-empty zero ppt cpt pointer end k h = refl
heap_copy_loop-empty (suc n) ppt cpt pointer end k h = ground arith

abbrev pub first_data : ℕ
first_data = num_pag_kernel + num_pag_code

-- Of the entries of a page table: the pages of the kernel and of the code, and those of the data.
abbrev pub IsSharedPage : ℕ → Type 0
IsSharedPage p = p < first_data

abbrev pub IsDataPage : ℕ → Type 0
IsDataPage p = (first_data ≤ p) × (p < first_data + num_pag_data)

-- What the copies rely on, before them: the two tables share no memory, the parent has its data
-- pages and no heap, and the child's data pages have frames of their own.
pub record CanFork (ppt cpt parent : ℕ) (k : Kernel) : Type 0 where
  pub apart : Apart ppt cpt
  pub no_heap : heap_pointer k parent ≤ (k.task parent).heap_start_proc
  pub present : (p : ℕ) → IsDataPage p → (k.page_mem (entry_at ppt p)).present ≡ 1
  pub small : (p : ℕ) → IsDataPage p → get_frame k.page_mem cpt p < 2 ^ 20
  pub distinct :
      (p q : ℕ)
      → IsDataPage p
      → IsDataPage q
      → p < q
      → get_frame k.page_mem cpt q ≢ get_frame k.page_mem cpt p
  pub fresh :
      (p q : ℕ)
      → IsDataPage p
      → IsDataPage q
      → get_frame k.page_mem ppt q ≢ get_frame k.page_mem cpt p

-- The child's address space afterwards, and what is left of the parent's.
pub record Forked (ppt cpt : ℕ) (k k' : Kernel) : Type 0 where
  pub shared :
      (p : ℕ)
      → IsSharedPage p
      → k'.page_mem (entry_at cpt p) ≡ mapping (get_frame k.page_mem ppt p) 1 1
  pub own : (p : ℕ) → IsDataPage p → k'.page_mem (entry_at cpt p) ≡ k.page_mem (entry_at cpt p)
  pub child_bytes :
      (p : ℕ)
      → IsDataPage p
      → k'.frame_data (get_frame k.page_mem cpt p) ≡ k.frame_data (get_frame k.page_mem ppt p)
  pub parent_bytes :
      (p : ℕ)
      → IsDataPage p
      → k'.frame_data (get_frame k.page_mem ppt p) ≡ k.frame_data (get_frame k.page_mem ppt p)
  pub parent_table :
      (p : ℕ)
      → p < first_data + num_pag_data
      → k'.page_mem (entry_at ppt p) ≡ k.page_mem (entry_at ppt p)
  pub borrowed : (p : ℕ) → IsDataPage p → k'.page_mem (entry_at ppt (p + num_pag_data)) ≡ zero_entry
  pub rest : k' ≡ record k { page_mem = k'.page_mem; frame_data = k'.frame_data }
