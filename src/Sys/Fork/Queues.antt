-- ===== src/Sys/Fork/Queues.antt =====
-- The free queue and the ready queue in the course of `sys_fork`.
use zeos_soa.Base.{
  ℕ, ◌≡◌, sym, update, subst, List, [], ◌∷◌, ◌++◌, Fresh, Disjoint, Disjoint-symm, arith,
}
use zeos_soa.KernelList.{set_next, set_prev, list_add_tail, list_del}
use zeos_soa.KernelList.Ring.{IsRing, IsRing-set_prev-set_next}
use zeos_soa.KernelList.Insert.{list_add_tail-IsRing, list_add_tail-frame}
use zeos_soa.KernelList.Delete.{list_del-IsRing, list_del-frame}
use zeos_soa.Kernel.{Kernel, Task, list_of, set_links, allocate_dir}
use zeos_soa.Sched.{num_sem, sem_at, blocked_of}
use zeos_soa.Sched.Sems.{SemsApart, init_sems_loop-IsRing}
use zeos_soa.Sys.{copy_union}
use zeos_soa.Sys.Fork.Prepare.{prepared}

-- A list that holds neither the child's node nor a head of the semaphores survives the preparation.
pub prepared-IsRing :
    (k : Kernel) (parent child head : ℕ) (xs : List ℕ)
    → Fresh (list_of child) (head ∷ xs)
    → SemsApart (k.task parent).semafors (head ∷ xs)
    → IsRing k.links head xs
    → IsRing (prepared k parent child).links head xs
unfolding prepared allocate_dir copy_union set_prev set_next
prepared-IsRing k parent child head xs f s r =
    let own : update k.task child (k.task parent) child ≡ k.task parent = ground arith in
    init_sems_loop-IsRing num_sem (update k.task child (k.task parent) child).semafors 0
      (copy_union k parent child) head xs
      (λ j l u.
        subst (λ (t : Task). Fresh (blocked_of (sem_at t.semafors j)) (head ∷ xs)) (sym own)
          (s j u))
      (IsRing-set_prev-set_next (list_of child) (k.links.next (list_of parent))
        (k.links.prev (list_of parent)) r f.0 f.1)

-- The two queues from before the fork to its end: `n` is the node at the head of the free queue.
pub fork_queues :
    (k : Kernel) (parent child n : ℕ) (rs fs : List ℕ)
    → n ≡ list_of child
    → IsRing k.links k.at.freequeue (n ∷ fs)
    → IsRing k.links k.at.readyqueue rs
    → Disjoint (k.at.freequeue ∷ n ∷ fs) (k.at.readyqueue ∷ rs)
    → SemsApart (k.task parent).semafors (k.at.freequeue ∷ fs)
    → SemsApart (k.task parent).semafors (k.at.readyqueue ∷ rs)
    → let after = (prepared (set_links k (list_del k.links n)) parent child).links in
      IsRing (list_add_tail after n k.at.readyqueue) k.at.readyqueue (rs ++ (n ∷ []))
      × IsRing (list_add_tail after n k.at.readyqueue) k.at.freequeue fs
fork_queues k parent child n rs fs node free ready apart sems_free sems_ready =
    let fq = k.at.freequeue in
    let rq = k.at.readyqueue in
    let t = set_links k (list_del k.links n) in
    let out_free : Fresh n (fq ∷ fs) = ((λ e. free.away.0 (sym e)), free.distinct.0) in
    let ready1 =
      prepared-IsRing t parent child rq rs (subst (λ z. Fresh z (rq ∷ rs)) node apart.1.0)
        sems_ready (list_del-frame [] n fs free ready apart) in
    let free1 =
      prepared-IsRing t parent child fq fs (subst (λ z. Fresh z (fq ∷ fs)) node out_free) sems_free
        (list_del-IsRing [] n fs free) in
    (
      list_add_tail-IsRing n ready1 apart.1.0.0 apart.1.0.1,
      list_add_tail-frame n ready1 free1 (Disjoint-symm (fq ∷ fs) (rq ∷ rs) (apart.0, apart.1.1))
          out_free,
    )
