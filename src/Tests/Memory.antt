-- ===== src/Tests/Memory.antt =====
-- Applications of the theorems on frames, page tables, user pointers and copies.
use zeos_soa.Base.{
  ℕ, ◌+◌, ◌^◌, ◌≤◌, ◌<◌, ◌≡◌, ◌≢◌, ◌⊎◌, inl, inr, true, none, refl, arith, neg, update,
}
use zeos_soa.Mm.Frames.{PhysMem, num_pag_kernel, used_mark, init_frames, alloc_frame, free_frame}
use zeos_soa.Mm.Frames.Alloc.{
  Allocated, Exhausted, alloc_frame-cases, free_frame-alloc_frame, first_frame_leaks,
}
use zeos_soa.Mm.Paging.{
  PageMem, zero_entry, entry_at, entry_word, mapping, del_ss_pag, get_frame, row, set_user_pages,
  init_table_pages, pag_log_init_code, l_user_start, data_end, page_size,
}
use zeos_soa.Mm.Paging.Init.{initial_entry, init_table_pages_lem}
use zeos_soa.Mm.Paging.User.{del_ss_pag_lem, set_user_pages_boot}
use zeos_soa.Utils.{verify_write, access_ok, copy_data}
use zeos_soa.Utils.Access.{access_ok_sound, access_ok_complete}
use zeos_soa.Descriptors.{Descriptor}
use zeos_soa.Hex.{put_hex}
use zeos_soa.Hex.Value.{value_from, put_hex_lem}
use zeos_soa.Utils.Copy.{Copied, copy_data-Copied}

abbrev all_free : PhysMem
all_free = λ _. 0

abbrev some_used : PhysMem
some_used = update all_free 256 1

abbrev other_page : ℕ
other_page = 265

abbrev no_pages : PageMem
no_pages = λ _. zero_entry

alloc_frame-cases_example :
    Allocated some_used (alloc_frame some_used).0 (alloc_frame some_used).1
    ⊎ Exhausted some_used (alloc_frame some_used).0 (alloc_frame some_used).1
alloc_frame-cases_example = alloc_frame-cases some_used

free_frame-alloc_frame_example :
    free_frame (alloc_frame some_used).1 (alloc_frame some_used).0 ≡ some_used
free_frame-alloc_frame_example = free_frame-alloc_frame some_used some_found not_first
  where
    some_found : (alloc_frame some_used).0 ≢ neg 1
    some_found e = elim (alloc_frame-cases some_used) [
      | inl a ↦ omega (arith, a.user, e)
      | inr x ↦ x.none_free 258 (omega arith) refl
    ]

    not_first : (alloc_frame some_used).0 ≢ num_pag_kernel
    not_first e = elim (alloc_frame-cases some_used) [
      | inl a ↦ ground (arith, a.was_free)
      | inr x ↦ x.none_free 258 (omega arith) refl
    ]

first_frame_leaks_example :
    ((alloc_frame (init_frames all_free)).0 ≡ num_pag_kernel)
    × (free_frame (alloc_frame (init_frames all_free)).1 num_pag_kernel num_pag_kernel ≡ used_mark)
first_frame_leaks_example = first_frame_leaks all_free

del_ss_pag_lem_example :
    (get_frame (del_ss_pag no_pages 0x30000 264) 0x30000 264 ≡ 0)
    × (entry_word (del_ss_pag no_pages 0x30000 264 (entry_at 0x30000 264)) ≡ 0)
    × (other_page ≢ 264
        → del_ss_pag no_pages 0x30000 264 (entry_at 0x30000 other_page)
          ≡ no_pages (entry_at 0x30000 other_page))
del_ss_pag_lem_example = del_ss_pag_lem no_pages 0x30000 264 other_page

set_user_pages_boot_example :
    (set_user_pages 0x30000 (init_frames all_free, no_pages)).1
      (entry_at 0x30000 (pag_log_init_code + 9))
    ≡ mapping 274 1 1
set_user_pages_boot_example = set_user_pages_boot all_free no_pages 0x30000 9 (omega arith)

init_table_pages_lem_example :
    init_table_pages 0x10000 0x30000 no_pages (entry_at (row 0x30000 3) 7) ≡ initial_entry 0x10000 7
init_table_pages_lem_example =
    init_table_pages_lem 0x10000 0x30000 no_pages 3 7 (omega arith) (omega arith)

access_ok_sound_example :
    (l_user_start ≤ 0x108000) × (0x108000 + 100 < 2 ^ 32) × (0x108000 + 99 < data_end + page_size)
access_ok_sound_example =
    access_ok_sound verify_write 0x108000 100 99 (omega arith) (omega arith) accepted (omega arith)
  where
    accepted : access_ok verify_write 0x108000 100 none ≡ true
    accepted = access_ok_complete verify_write 0x108000 100 none (omega arith) (omega arith)

copy_data-Copied_example : Copied (λ a. a) (copy_data (λ a. a) 100 200 11) 100 200 11
copy_data-Copied_example = copy_data-Copied (λ a. a) 100 200 11 (inl (omega arith))

abbrev no_segment : Descriptor
no_segment = record {
  limit = 103;
  low_base = 0;
  mid_base = 0;
  flags1 = 0x89;
  flags2 = 0;
  high_base = 0;
}

put_hex_lem_example : value_from 0 (put_hex 0xbeef) ≡ 0xbeef
put_hex_lem_example = put_hex_lem 0xbeef (omega arith)
