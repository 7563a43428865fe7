-- ===== src/KernelList/Delete.antt =====
-- `list_del` on the list that a head stands for.
use zeos_soa.Base.{
  ◌≡◌, refl, ◌≢◌, sym, List, [], ◌∷◌, ◌++◌, arith, Fresh, Distinct, Disjoint, Fresh-left,
  Fresh-right, Distinct-middle, Fresh-drop, Disjoint-split,
}
use zeos_soa.KernelList.{Ptr, Links, list_del, set_next, set_prev}
use zeos_soa.KernelList.Ring.{
  Seg, IsRing, Seg-set_next, Seg-set_prev, Seg-split, last_away, first_away, last_Fresh,
  first_Fresh,
}

-- Deleting a node changes the fields of its neighbours and its own only.
Seg-del_outside :
    (m : Links) (e before after p : Ptr) (xs : List Ptr) (q : Ptr)
    → m.prev e ≡ before
    → m.next e ≡ after
    → Seg m p xs q
    → e ≢ p
    → e ≢ q
    → before ≢ p
    → after ≢ q
    → Fresh e xs
    → Fresh before xs
    → Fresh after xs
    → Seg (list_del m e) p xs q
unfolding list_del
Seg-del_outside m e before after p xs q eb ea s ep eq bp aq ef bf af =
    rw (eb, ea)
      (Seg-set_prev _ e 0 p xs q
        (Seg-set_next _ e 0 p xs q
          (Seg-set_next _ before after p xs q (Seg-set_prev m after before p xs q s aq af) bp bf) ep
          ef)
        eq ef)

Seg-del :
    (m : Links) (e p : Ptr) (xs ys : List Ptr) (q : Ptr)
    → Seg m p (xs ++ (e ∷ ys)) q
    → Fresh p (xs ++ (e ∷ ys))
    → Fresh q (xs ++ (e ∷ ys))
    → Distinct (xs ++ (e ∷ ys))
    → Seg (list_del m e) p (xs ++ ys) q
unfolding list_del
Seg-del m e p [] [] q s pf qf d = ground arith
Seg-del m e p [] (y ∷ ys) q s pf qf d = (
  ground arith,
  ground arith,
  Seg-del_outside m e p y y ys q s.1 s.2.0 s.2.2 d.0.0 (λ h. qf.0 (sym h)) pf.1.0
      (λ h. qf.1.0 (sym h)) d.0.1 pf.1.1 d.1.0,
)
Seg-del m e p (x ∷ xs) ys q s pf qf d =
    let (left, right) = Seg-split m x xs e ys q s.2 in
    let pe = Fresh-right p xs (e ∷ ys) pf.1 in
    let xe = Fresh-right x xs (e ∷ ys) d.0 in
    let before : p ≢ m.prev e = last_away m p x xs e left pf.0 (Fresh-left p xs (e ∷ ys) pf.1) in
    let after : x ≢ m.next e = first_away m x e ys q right (λ h. qf.0 (sym h)) xe.1 in
    (ground arith, ground arith, Seg-del m e x xs ys q s.2 d.0 qf.1 d.1)

pub list_del-IsRing :
    {m : Links} {head : Ptr} (xs : List Ptr) (e : Ptr) (ys : List Ptr)
    → IsRing m head (xs ++ (e ∷ ys))
    → IsRing (list_del m e) head (xs ++ ys)
list_del-IsRing {m} {head} xs e ys r = record {
  chain = Seg-del m e head xs ys head r.chain r.away r.away r.distinct;
  away = Fresh-drop head xs e ys r.away;
  distinct = (Distinct-middle xs e ys r.distinct).0;
}

del-clears : (m : Links) (e : Ptr) → ((list_del m e).next e ≡ 0) × ((list_del m e).prev e ≡ 0)
unfolding list_del set_next set_prev
del-clears m e = (ground arith, ground arith)

-- `list_del` takes one node out of its list, wherever it stands: the head's list is the other nodes
-- in their order, and the two fields of the node are 0.
pub list_del_lem :
    {m : Links} {head : Ptr} (xs : List Ptr) (e : Ptr) (ys : List Ptr)
    → IsRing m head (xs ++ (e ∷ ys))
    → IsRing (list_del m e) head (xs ++ ys)
      × ((list_del m e).next e ≡ 0)
      × ((list_del m e).prev e ≡ 0)
list_del_lem {m} {head} xs e ys r =
    let (next, prev) = del-clears m e in (list_del-IsRing xs e ys r, next, prev)

-- Two lists that share nothing: deleting from one leaves the other as it is.
pub list_del-frame :
    {m : Links} {head other : Ptr} (xs : List Ptr) (e : Ptr) (ys : List Ptr) {zs : List Ptr}
    → IsRing m head (xs ++ (e ∷ ys))
    → IsRing m other zs
    → Disjoint (head ∷ (xs ++ (e ∷ ys))) (other ∷ zs)
    → IsRing (list_del m e) other zs
list_del-frame {m} {head} {other} xs e ys {zs} r o d =
    let (left, right) = Seg-split m head xs e ys head r.chain in
    let (dx, de, dy) = Disjoint-split xs e ys (other ∷ zs) d.1 in
    let before = last_Fresh m head xs e (other ∷ zs) left d.0 dx in
    let after = first_Fresh m e ys head (other ∷ zs) right d.0 dy in
    record {
      chain =
          Seg-del_outside m e (m.prev e) (m.next e) other zs other refl refl o.chain de.0 de.0
            before.0 after.0 de.1 before.1 after.1;
      away = o.away;
      distinct = o.distinct;
    }
