-- ===== src/KernelList/Insert.antt =====
-- `list_add` and `list_add_tail` on the list that a head stands for.
use zeos_soa.Base.{
  ◌≡◌, refl, ◌≢◌, sym, subst, List, [], ◌∷◌, ◌++◌, arith, Fresh, Distinct, Disjoint, Fresh-append,
  Distinct-snoc,
}
use zeos_soa.KernelList.{Ptr, Links, init_list_head, list_add_between, list_add, list_add_tail}
use zeos_soa.KernelList.Ring.{
  Seg, IsRing, Seg-set_next, Seg-set_prev, last_away, last_Fresh, first_Fresh,
}

-- Adding a node changes three others' fields only.
pub Seg-add_outside :
    (m : Links) (new prev next p : Ptr) (xs : List Ptr) (q : Ptr)
    → Seg m p xs q
    → new ≢ p
    → new ≢ q
    → prev ≢ p
    → next ≢ q
    → Fresh new xs
    → Fresh prev xs
    → Fresh next xs
    → Seg (list_add_between m new prev next) p xs q
unfolding list_add_between
Seg-add_outside m new prev next p xs q s np nq pp nn nf pf xf =
    Seg-set_next _ prev new p xs q
      (Seg-set_prev _ new prev p xs q
        (Seg-set_next _ new next p xs q (Seg-set_prev m next new p xs q s nn xf) np nf) nq nf)
      pp pf

-- The new node comes last when it is put between the last node `z` and the end `q`.
Seg-add_last :
    (m : Links) (new z p : Ptr) (xs : List Ptr) (q : Ptr)
    → Seg m p xs q
    → m.prev q ≡ z
    → new ≢ p
    → new ≢ q
    → Fresh new xs
    → Fresh p xs
    → Fresh q xs
    → Distinct xs
    → Seg (list_add_between m new z q) p (xs ++ (new ∷ [])) q
unfolding list_add_between
Seg-add_last m new z p [] q s e np nq nf pf qf d = ground arith
Seg-add_last m new z p (x ∷ xs) q s e np nq nf pf qf d =
    let apart : p ≢ z = ground (arith, last_away m p x xs q s.2 pf.0 pf.1) in
    (ground arith, ground arith, Seg-add_last m new z x xs q s.2 e nf.0 nq nf.1 d.0 qf.1 d.1)

-- The new node comes first when it is put between the start `p` and what follows it.
Seg-add_first :
    (m : Links) (new p : Ptr) (xs : List Ptr) (q : Ptr)
    → Seg m p xs q
    → new ≢ p
    → new ≢ q
    → Fresh new xs
    → Fresh p xs
    → Fresh q xs
    → Distinct xs
    → Seg (list_add_between m new p (m.next p)) p (new ∷ xs) q
unfolding list_add_between
Seg-add_first m new p [] q s np nq nf pf qf d = ground arith
Seg-add_first m new p (x ∷ xs) q s np nq nf pf qf d =
    let rest : Seg (list_add_between m new p x) x xs q =
      Seg-add_outside m new p x x xs q s.2 nf.0 nq pf.0 (λ e. qf.0 (sym e)) nf.1 pf.1 d.0 in
    let moved : Seg (list_add_between m new p (m.next p)) x xs q =
      subst (λ n. Seg (list_add_between m new p n) x xs q) (sym s.0) rest in
    (ground arith, ground arith, (ground arith, ground arith, moved))

-- `list_add_tail` puts a node behind the others, as in a queue.
pub list_add_tail-IsRing :
    {m : Links} {head : Ptr} {xs : List Ptr} (new : Ptr)
    → IsRing m head xs
    → new ≢ head
    → Fresh new xs
    → IsRing (list_add_tail m new head) head (xs ++ (new ∷ []))
unfolding list_add_tail
list_add_tail-IsRing {m} {head} {xs} new r a f = record {
  chain = Seg-add_last m new (m.prev head) head xs head r.chain refl a a f r.away r.away r.distinct;
  away = Fresh-append head xs (new ∷ []) r.away ((λ e. a (sym e)), tt);
  distinct = Distinct-snoc xs new r.distinct f;
}

-- `list_add` puts a node in front of the others, as in a stack.
pub list_add-IsRing :
    {m : Links} {head : Ptr} {xs : List Ptr} (new : Ptr)
    → IsRing m head xs
    → new ≢ head
    → Fresh new xs
    → IsRing (list_add m new head) head (new ∷ xs)
unfolding list_add
list_add-IsRing {m} {head} {xs} new r a f = record {
  chain = Seg-add_first m new head xs head r.chain a a f r.away r.away r.distinct;
  away = ((λ e. a (sym e)), r.away);
  distinct = (f, r.distinct);
}

-- `INIT_LIST_HEAD` makes an empty list.
pub init_list_head-IsRing : (m : Links) (head : Ptr) → IsRing (init_list_head m head) head []
unfolding init_list_head
init_list_head-IsRing m head = record { chain = ground arith; away = tt; distinct = tt }

module _ {m : Links} {head other : Ptr} {xs ys : List Ptr} (new : Ptr) where
  -- `list_add_tail` on one list leaves another that shares no node with it as it is.
  pub list_add_tail-frame :
      IsRing m head xs
      → IsRing m other ys
      → Disjoint (head ∷ xs) (other ∷ ys)
      → Fresh new (other ∷ ys)
      → IsRing (list_add_tail m new head) other ys
  unfolding list_add_tail
  list_add_tail-frame r o d f =
      let last = last_Fresh m head xs head (other ∷ ys) r.chain d.0 d.1 in
      record {
        chain =
            Seg-add_outside m new (m.prev head) head other ys other o.chain f.0 f.0 last.0 d.0.0 f.1
              last.1 d.0.1;
        away = o.away;
        distinct = o.distinct;
      }

  pub list_add-frame :
      IsRing m head xs
      → IsRing m other ys
      → Disjoint (head ∷ xs) (other ∷ ys)
      → Fresh new (other ∷ ys)
      → IsRing (list_add m new head) other ys
  unfolding list_add
  list_add-frame r o d f =
      let first = first_Fresh m head xs head (other ∷ ys) r.chain d.0 d.1 in
      record {
        chain =
            Seg-add_outside m new head (m.next head) other ys other o.chain f.0 f.0 d.0.0 first.0
              f.1 d.0.1 first.1;
        away = o.away;
        distinct = o.distinct;
      }
