-- ===== src/Sys/Fork/Copy.antt =====
-- The copy of the parent's memory in `sys_fork`.
use mathlib.Core.Path.{fun_ext}
use zeos_soa.Base.{ℕ, suc, ◌+◌, ◌%◌, ◌^◌, ◌≤◌, ◌<◌, ◌≡◌, ◌≢◌, ◌⊎◌, ap, some, arith, update}
use zeos_soa.Mm.Paging.{
  zero_entry, mapping, num_pag_data, entry_at, set_ss_pag, del_ss_pag, get_frame,
}
use zeos_soa.Kernel.{Kernel}
use zeos_soa.Sys.Fork.{copy_page, copy_data_page}

-- Two page tables of 1024 entries that share no memory.
abbrev pub Apart : (a b : ℕ) → Type 0
Apart a b = (a + 4096 ≤ b) ⊎ (b + 4096 ≤ a)

update-update :
    {A : Type 0} (f : ℕ → A) (a : ℕ) (v w : A) → update (update f a v) a w ≡ update f a w
update-update f a v w = fun_ext λ x. ground arith

-- One page: the frame of the child's page gets the bytes of the parent's, and the entry that maps it
-- for the time of the copy is clear afterwards.
pub copy_data_page-eq :
    (ppt cpt pag : ℕ) (k : Kernel)
    → (k.page_mem (entry_at ppt pag)).present ≡ 1
    → get_frame k.page_mem cpt pag < 2 ^ 20
    → copy_data_page ppt cpt pag k
      ≡ some (record k {
        page_mem = update k.page_mem (entry_at ppt (pag + num_pag_data)) zero_entry;
        frame_data =
            update k.frame_data
              (get_frame k.page_mem cpt pag)
              (k.frame_data (get_frame k.page_mem ppt pag));
      })
unfolding copy_data_page copy_page set_ss_pag del_ss_pag get_frame
copy_data_page-eq ppt cpt pag k present small =
    let src = entry_at ppt pag in
    let dst = entry_at ppt (pag + num_pag_data) in
    let frame = (k.page_mem (entry_at cpt pag)).pbase_addr in
    let mapped = update k.page_mem dst (mapping frame 1 1) in
    let here : mapped dst ≡ mapping frame 1 1 = ground arith in
    let there : mapped src ≡ k.page_mem src = ground arith in
    let base : frame % 2 ^ 20 ≡ frame = omega arith in
    rw (here, there, present, base)
      (ap
        (λ pm. some (record k {
          page_mem = pm;
          frame_data = update k.frame_data frame (k.frame_data (k.page_mem src).pbase_addr);
        }))
        (update-update k.page_mem dst _ zero_entry))

-- Entries that no address of the loop's own: `a` is not the entry of a page that the parent maps for
-- the time of the copy.
abbrev pub NotBorrowed : (ppt pag n a : ℕ) → Type 0
NotBorrowed ppt pag n a = (j : ℕ) → pag ≤ j → j < pag + n → a ≢ entry_at ppt (j + num_pag_data)

-- What the copy of `n` pages from `pag` on relies on: the parent's pages are present, the child's
-- frames are frame numbers, no two of them the same and none the parent's.
pub record Copyable (ppt cpt pag n : ℕ) (k : Kernel) : Type 0 where
  pub parent_kept : (j : ℕ) → pag ≤ j → j < pag + n → NotBorrowed ppt pag n (entry_at ppt j)
  pub child_kept : (j : ℕ) → pag ≤ j → j < pag + n → NotBorrowed ppt pag n (entry_at cpt j)
  pub present : (j : ℕ) → pag ≤ j → j < pag + n → (k.page_mem (entry_at ppt j)).present ≡ 1
  pub small : (j : ℕ) → pag ≤ j → j < pag + n → get_frame k.page_mem cpt j < 2 ^ 20
  pub distinct :
      (i j : ℕ)
      → pag ≤ i
      → i < j
      → j < pag + n
      → get_frame k.page_mem cpt j ≢ get_frame k.page_mem cpt i
  pub fresh :
      (i j : ℕ)
      → pag ≤ i
      → i < pag + n
      → pag ≤ j
      → j < pag + n
      → get_frame k.page_mem ppt j ≢ get_frame k.page_mem cpt i

-- The child's frames hold what the parent's hold, all other frames and entries are as they were, and
-- the borrowed entries are clear.
pub record Copied (ppt cpt pag n : ℕ) (k k' : Kernel) : Type 0 where
  pub same_bytes :
      (j : ℕ)
      → pag ≤ j
      → j < pag + n
      → k'.frame_data (get_frame k.page_mem cpt j) ≡ k.frame_data (get_frame k.page_mem ppt j)
  pub other_frames :
      (f : ℕ)
      → ((j : ℕ) → pag ≤ j → j < pag + n → f ≢ get_frame k.page_mem cpt j)
      → k'.frame_data f ≡ k.frame_data f
  pub other_entries : (a : ℕ) → NotBorrowed ppt pag n a → k'.page_mem a ≡ k.page_mem a
  pub returned :
      (j : ℕ) → pag ≤ j → j < pag + n → k'.page_mem (entry_at ppt (j + num_pag_data)) ≡ zero_entry
  pub rest : k' ≡ record k { page_mem = k'.page_mem; frame_data = k'.frame_data }

-- The state after one page.
abbrev pub one_copied : (ppt cpt pag : ℕ) → Kernel → Kernel
one_copied ppt cpt pag k = record k {
  page_mem = update k.page_mem (entry_at ppt (pag + num_pag_data)) zero_entry;
  frame_data =
      update k.frame_data (get_frame k.page_mem cpt pag)
        (k.frame_data (get_frame k.page_mem ppt pag));
}

pub one_copied-entry :
    (ppt cpt pag n a : ℕ) (k : Kernel)
    → NotBorrowed ppt pag (suc n) a
    → (one_copied ppt cpt pag k).page_mem a ≡ k.page_mem a
one_copied-entry ppt cpt pag n a k kept =
    let ne : a ≢ entry_at ppt (pag + num_pag_data) = kept pag (omega arith) (omega arith) in
    ground arith
