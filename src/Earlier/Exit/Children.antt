-- ===== src/Earlier/Exit/Children.antt =====
-- `sys_exit` of the earlier kernel in a process with children.
use zeos_soa.Base.{
  ℕ, zero, suc, ◌≡◌, ◌≢◌, refl, ap, ◌∙◌, ◌==◌, true, false, inl, inr, Bool-cases, if◌then◌else◌,
  arith,
}
use zeos_soa.KernelList.{list_del, list_first, set_next, set_prev}
use zeos_soa.Earlier.{Kernel, kids_of, current, get_pt}
use zeos_soa.Earlier.Exit.{
  Outcome, page_fault, unfinished, is_mapped, adopt, adopt_loop, exit_after, sys_exit,
}

-- The node that the walk goes on from has been cleared, and the mappings are as they were.
next-adopt : (e : ℕ) (k : Kernel) → (adopt e k).links.next e ≡ 0
unfolding adopt list_del set_next set_prev
next-adopt e k = ground arith

page_mem-adopt : (e : ℕ) (k : Kernel) → (adopt e k).page_mem ≡ k.page_mem
unfolding adopt
page_mem-adopt e k = refl

-- At address 0 the walk faults, or it stays there.
adopt_loop-unfinished :
    (n kids pt : ℕ) (k : Kernel)
    → kids ≢ 0
    → is_mapped k.page_mem pt 0 ≡ true
    → adopt_loop n 0 kids pt k ≡ unfinished
unfolding adopt_loop
adopt_loop-unfinished zero kids pt k ne there = refl
adopt_loop-unfinished (suc n) kids pt k ne there =
    let other : (0 == kids) ≡ false = ground arith in
    rw (other, adopt_loop, there, next-adopt 0 k)
      (adopt_loop-unfinished n kids pt (adopt 0 k) ne (rw (page_mem-adopt 0 k) there))

-- What is to come of the call, by the page of address 0.
abbrev pub lost : Kernel → Outcome
lost k = if is_mapped k.page_mem (get_pt k (current k)) 0 then unfinished else page_fault

adopt_loop-zero :
    (n kids pt : ℕ) (k : Kernel)
    → kids ≢ 0
    → adopt_loop (suc n) 0 kids pt k
      ≡ (if is_mapped k.page_mem pt 0 then unfinished else page_fault)
unfolding adopt_loop
adopt_loop-zero n kids pt k ne =
    let other : (0 == kids) ≡ false = ground arith in
    elim (Bool-cases (is_mapped k.page_mem pt 0)) [
      | inl there ↦ rw (adopt_loop-unfinished (suc n) kids pt k ne there, there) refl
      | inr away ↦ rw (other, adopt_loop, away) refl
    ]

adopt_loop-first :
    (n e kids pt : ℕ) (k : Kernel)
    → e ≢ kids
    → is_mapped k.page_mem pt e ≡ true
    → adopt_loop (suc n) e kids pt k ≡ adopt_loop n 0 kids pt (adopt e k)
unfolding adopt_loop
adopt_loop-first n e kids pt k other there =
    let apart : (e == kids) ≡ false = ground arith in
    rw (apart, adopt_loop, there, next-adopt e k) refl

-- `sys_exit` of the earlier kernel in a process whose list of children is not empty never returns:
-- the loop deletes each node before it reads the next from it, and goes on from address 0. Where the
-- page of address 0 is not mapped, as in the first process, the second round ends in a page fault in
-- the kernel; where it is mapped, the loop has not ended, whatever number of rounds it is given.
pub sys_exit_never_returns :
    (fuel : ℕ) (k : Kernel)
    → list_first k.links (kids_of (current k)) ≢ kids_of (current k)
    → list_first k.links (kids_of (current k)) ≢ 0
    → is_mapped k.page_mem (get_pt k (current k)) (list_first k.links (kids_of (current k))) ≡ true
    → sys_exit (suc (suc fuel)) k ≡ lost k
unfolding sys_exit list_first exit_after
sys_exit_never_returns fuel k some_child child there =
    let kids = kids_of (current k) in
    let e = k.links.next kids in
    let pt = get_pt k (current k) in
    let here : (e == 0) ≡ false = ground arith in
    let first = adopt_loop-first (suc fuel) e kids pt k some_child there in
    let rest = adopt_loop-zero fuel kids pt (adopt e k) (omega arith) in
    let same = ap (λ m. if is_mapped m pt 0 then unfinished else page_fault) (page_mem-adopt e k) in
    rw (here, sys_exit, first ∙ rest ∙ same)
      (elim (Bool-cases (is_mapped k.page_mem pt 0)) [
        | inl zero_there ↦ rw (zero_there, exit_after) refl
        | inr away ↦ rw (away, exit_after) refl
      ])
