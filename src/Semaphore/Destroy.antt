-- ===== src/Semaphore/Destroy.antt =====
-- `sys_semDestroy`.
use zeos_soa.Base.{
  ℕ, zero, suc, ◌<◌, ◌≡◌, refl, sym, ap, subst, false, List, [], ◌∷◌, ◌++◌, Fresh, Disjoint,
  Disjoint-symm, Disjoint-append, length, arith, update, inl, inr, Bool-cases,
}
use mathlib.Core.List.{append_assoc, append-nil}
use zeos_soa.KernelList.{list_add_tail, list_del, list_empty}
use zeos_soa.KernelList.Ring.{IsRing, list_empty_iff, list_first-IsRing}
use zeos_soa.KernelList.Insert.{list_add_tail-IsRing, list_add_tail-frame}
use zeos_soa.KernelList.Delete.{list_del-IsRing, list_del-frame}
use zeos_soa.Kernel.{
  Kernel, Task, st_ready, list_of, list_head_to_task_struct, set_state, set_links,
}
use zeos_soa.Sched.{blocked_of, free_sem}
use zeos_soa.Semaphore.{
  my_sem, print, unblocking_text, refused, release_one, release_loop, release_fuel, sys_sem_destroy,
}

-- Each node is the `list` field of the task struct in whose page it lies.
abbrev pub AreNodes : List ℕ → Type 0
AreNodes [] = Unit {0}
AreNodes (b ∷ bs) = (list_of (list_head_to_task_struct b) ≡ b) × AreNodes bs

-- The tasks of the nodes are ready.
abbrev pub AreReady : (ℕ → Task) → List ℕ → Type 0
AreReady f [] = Unit {0}
AreReady f (b ∷ bs) = ((f (list_head_to_task_struct b)).state ≡ st_ready) × AreReady f bs

-- The kernel after one round that finds the node `b` first.
abbrev released : Kernel → ℕ → Kernel
released k b =
    print
      (set_links (set_state k (list_head_to_task_struct b) st_ready)
        (list_add_tail (list_del k.links b) b k.at.readyqueue))
      unblocking_text

release_one-eq :
    (k : Kernel) (s b : ℕ) (bs : List ℕ)
    → IsRing k.links (blocked_of s) (b ∷ bs)
    → list_of (list_head_to_task_struct b) ≡ b
    → release_one k s ≡ released k b
unfolding release_one
release_one-eq k s b bs r e = rw (list_first-IsRing r) (rw e)

-- The two queues.
pub record Parted (k : Kernel) (rq s : ℕ) (bs rs : List ℕ) : Type 0 where
  pub blocked : IsRing k.links (blocked_of s) bs
  pub ready : IsRing k.links rq rs
  pub apart : Disjoint (blocked_of s ∷ bs) (rq ∷ rs)

released-Parted :
    (k : Kernel) (s b : ℕ) (bs rs : List ℕ)
    → Parted k k.at.readyqueue s (b ∷ bs) rs
    → Parted (released k b) k.at.readyqueue s bs (rs ++ (b ∷ []))
released-Parted k s b bs rs p =
    let del = list_del-IsRing [] b bs p.blocked in
    let keep = list_del-frame [] b bs p.blocked p.ready p.apart in
    let fresh : Fresh b (blocked_of s ∷ bs) =
      ((λ e. p.blocked.away.0 (sym e)), p.blocked.distinct.0) in
    let swapped =
      Disjoint-symm (blocked_of s ∷ bs) (k.at.readyqueue ∷ rs) (p.apart.0, p.apart.1.1) in
    record {
      blocked = list_add_tail-frame b keep del swapped fresh;
      ready = list_add_tail-IsRing b keep p.apart.1.0.0 p.apart.1.0.1;
      apart =
          Disjoint-symm (k.at.readyqueue ∷ (rs ++ (b ∷ []))) (blocked_of s ∷ bs)
            (swapped.0, Disjoint-append rs (b ∷ []) (blocked_of s ∷ bs) swapped.1 (fresh, tt));
    }

-- A task that is ready stays so.
release_loop-ready :
    (n : ℕ) (k : Kernel) (s t : ℕ)
    → (k.task t).state ≡ st_ready
    → ((release_loop n k s).task t).state ≡ st_ready
unfolding release_loop release_one
release_loop-ready zero k s t h = h
release_loop-ready (suc n) k s t h = elim (Bool-cases (list_empty k.links (blocked_of s))) [
  | inl e ↦ rw (e, release_loop) h
  | inr e ↦ rw (e, release_loop) (release_loop-ready n (release_one k s) s t (ground arith))
]

release_loop-step :
    (n : ℕ) (k : Kernel) (s b : ℕ) (bs : List ℕ)
    → IsRing k.links (blocked_of s) (b ∷ bs)
    → list_of (list_head_to_task_struct b) ≡ b
    → release_loop (suc n) k s ≡ release_loop n (released k b) s
unfolding release_loop
release_loop-step n k s b bs r e =
    rw (list_empty_iff k.links (blocked_of s) (b ∷ bs) r, release_loop)
      (ap (λ q. release_loop n q s) (release_one-eq k s b bs r e))

release_loop-end :
    (n : ℕ) (k : Kernel) (s : ℕ) → IsRing k.links (blocked_of s) [] → release_loop (suc n) k s ≡ k
unfolding release_loop
release_loop-end n k s r = rw (list_empty_iff k.links (blocked_of s) [] r, release_loop)

-- What the loop leaves: nobody blocked, all that were at the tail of the ready queue.
pub record Released (k k' : Kernel) (s : ℕ) (bs rs : List ℕ) : Type 0 where
  pub queues : Parted k' k.at.readyqueue s [] (rs ++ bs)
  pub ready : AreReady k'.task bs
  pub sems : k'.sem ≡ k.sem

release_loop-Released :
    (n : ℕ) (k : Kernel) (s : ℕ) (bs rs : List ℕ)
    → Parted k k.at.readyqueue s bs rs
    → AreNodes bs
    → length bs < n
    → Released k (release_loop n k s) s bs rs
release_loop-Released zero k s bs rs p nodes few = absurd (omega arith)
release_loop-Released (suc n) k s [] rs p nodes few =
    subst (λ q. Released k q s [] rs) (sym (release_loop-end n k s p.blocked))
      (record {
        queues = subst (λ l. Parted k k.at.readyqueue s [] l) (sym (append-nil rs)) p;
        ready = tt;
        sems = refl;
      })
release_loop-Released (suc n) k s (b ∷ bs) rs p nodes few =
    let ih =
      release_loop-Released n (released k b) s bs (rs ++ (b ∷ [])) (released-Parted k s b bs rs p)
        nodes.1 (omega arith) in
    subst (λ q. Released k q s (b ∷ bs) rs) (sym (release_loop-step n k s b bs p.blocked nodes.0))
      (record {
        queues =
            subst (λ l. Parted (release_loop n (released k b) s) k.at.readyqueue s [] l)
              (append_assoc rs (b ∷ []) bs) ih.queues;
        ready = (
          release_loop-ready n (released k b) s (list_head_to_task_struct b) (ground arith),
          ih.ready,
        );
        sems = ih.sems;
      })

-- `sys_semDestroy` makes every blocked task ready, in their order, at the tail of the ready queue,
-- and marks the semaphore free. At most ten tasks can be blocked, so its loop ends.
pub sys_sem_destroy_releases :
    (k : Kernel) (sem_id : ℕ) (bs rs : List ℕ)
    → refused k sem_id ≡ false
    → Parted k k.at.readyqueue (my_sem k sem_id) bs rs
    → AreNodes bs
    → length bs < release_fuel
    → ((sys_sem_destroy k sem_id).0 ≡ 0)
      × Parted (sys_sem_destroy k sem_id).1 k.at.readyqueue (my_sem k sem_id) [] (rs ++ bs)
      × AreReady (sys_sem_destroy k sem_id).1.task bs
      × ((sys_sem_destroy k sem_id).1.sem ≡ update k.sem (my_sem k sem_id) free_sem)
unfolding sys_sem_destroy
sys_sem_destroy_releases k sem_id bs rs ok p nodes few =
    let done = release_loop-Released release_fuel k (my_sem k sem_id) bs rs p nodes few in
    rw ok (
      refl,
      record {
        blocked = done.queues.blocked;
        ready = done.queues.ready;
        apart = done.queues.apart;
      },
      done.ready,
      ap (λ f. update f (my_sem k sem_id) free_sem) done.sems,
    )
