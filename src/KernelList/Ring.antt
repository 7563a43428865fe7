-- ===== src/KernelList/Ring.antt =====
-- What a list head stands for: the nodes that its circular list goes through.
use zeos_soa.Base.{◌≡◌, ◌≢◌, List, [], ◌∷◌, arith, Fresh, Distinct, Disjoint, is_nil, ◌++◌}
use zeos_soa.KernelList.{Ptr, Links, set_next, set_prev, list_empty, list_first}

-- From `p` the `next` fields lead through `xs` to `q`, and the `prev` fields lead back.
abbrev pub Seg : Links → Ptr → List Ptr → Ptr → Type 0
Seg m p [] q = (m.next p ≡ q) × (m.prev q ≡ p)
Seg m p (x ∷ xs) q = (m.next p ≡ x) × (m.prev x ≡ p) × Seg m x xs q

-- The list of `head` holds the nodes `xs`, in order.
pub record IsRing (m : Links) (head : Ptr) (xs : List Ptr) : Type 0 where
  pub chain : Seg m head xs head
  pub away : Fresh head xs
  pub distinct : Distinct xs

-- A write to `n->next` spares the segments that do not start at or go through `n`.
pub Seg-set_next :
    (m : Links) (n v p : Ptr) (xs : List Ptr) (q : Ptr)
    → Seg m p xs q
    → n ≢ p
    → Fresh n xs
    → Seg (set_next m n v) p xs q
unfolding set_next
Seg-set_next m n v p [] q s a f = ground arith
Seg-set_next m n v p (x ∷ xs) q s a f = (ground arith, s.1, Seg-set_next m n v x xs q s.2 f.0 f.1)

pub Seg-set_prev :
    (m : Links) (n v p : Ptr) (xs : List Ptr) (q : Ptr)
    → Seg m p xs q
    → n ≢ q
    → Fresh n xs
    → Seg (set_prev m n v) p xs q
unfolding set_prev
Seg-set_prev m n v p [] q s a f = ground arith
Seg-set_prev m n v p (x ∷ xs) q s a f = (s.0, ground arith, Seg-set_prev m n v x xs q s.2 a f.1)

-- The node before the end of a segment is its start or one of its nodes.
pub last_away :
    (m : Links) (a p : Ptr) (xs : List Ptr) (q : Ptr)
    → Seg m p xs q
    → a ≢ p
    → Fresh a xs
    → a ≢ m.prev q
last_away m a p [] q s h f = ground arith
last_away m a p (x ∷ xs) q s h f = last_away m a x xs q s.2 f.0 f.1

pub first_away :
    (m : Links) (a p : Ptr) (xs : List Ptr) (q : Ptr)
    → Seg m p xs q
    → a ≢ q
    → Fresh a xs
    → a ≢ m.next p
first_away m a p [] q s h f = ground arith
first_away m a p (x ∷ xs) q s h f = ground arith

-- The nodes at the ends of a segment, and a property that all its nodes have.
pub last_Fresh :
    (m : Links) (p : Ptr) (xs : List Ptr) (q : Ptr) (zs : List Ptr)
    → Seg m p xs q
    → Fresh p zs
    → Disjoint xs zs
    → Fresh (m.prev q) zs
last_Fresh m p [] q zs s f d = rw s.1 f
last_Fresh m p (x ∷ xs) q zs s f d = last_Fresh m x xs q zs s.2 d.0 d.1

pub first_Fresh :
    (m : Links) (p : Ptr) (xs : List Ptr) (q : Ptr) (zs : List Ptr)
    → Seg m p xs q
    → Fresh q zs
    → Disjoint xs zs
    → Fresh (m.next p) zs
first_Fresh m p [] q zs s f d = rw s.0 f
first_Fresh m p (x ∷ xs) q zs s f d = rw s.0 d.0

-- A segment through a node is one up to it and one from it.
pub Seg-split :
    (m : Links) (p : Ptr) (xs : List Ptr) (e : Ptr) (ys : List Ptr) (q : Ptr)
    → Seg m p (xs ++ (e ∷ ys)) q
    → Seg m p xs e × Seg m e ys q
Seg-split m p [] e ys q s = ((s.0, s.1), s.2)
Seg-split m p (x ∷ xs) e ys q s =
    let (left, right) = Seg-split m x xs e ys q s.2 in ((s.0, s.1, left), right)

-- `list_empty` tells whether the list has nodes, and `list_first` is its first node.
pub list_empty_iff :
    (m : Links) (head : Ptr) (xs : List Ptr) → IsRing m head xs → list_empty m head ≡ is_nil xs
unfolding list_empty
list_empty_iff m head [] r = let e = r.chain.0 in ground arith
list_empty_iff m head (x ∷ xs) r = let e = r.chain.0 in let a = r.away.0 in ground arith

pub list_first-IsRing :
    {m : Links} {head x : Ptr} {xs : List Ptr} → IsRing m head (x ∷ xs) → list_first m head ≡ x
unfolding list_first
list_first-IsRing r = r.chain.0

-- Writes to a node outside a list spare the list.
pub IsRing-set_prev-set_next :
    {m : Links} {head : Ptr} {xs : List Ptr} (n a b : Ptr)
    → IsRing m head xs
    → n ≢ head
    → Fresh n xs
    → IsRing (set_prev (set_next m n a) n b) head xs
IsRing-set_prev-set_next {m} {head} {xs} n a b r away f = record {
  chain =
      Seg-set_prev (set_next m n a) n b head xs head
        (Seg-set_next m n a head xs head r.chain away f) away f;
  away = r.away;
  distinct = r.distinct;
}
