-- ===== src/Tests/Lists.antt =====
-- Applications of the theorems on linked lists.
use zeos_soa.Base.{◌≡◌, [], ◌∷◌, arith}
use zeos_soa.KernelList.{list_add_tail, list_add, list_del}
use zeos_soa.KernelList.Ring.{IsRing}
use zeos_soa.KernelList.Insert.{list_add_tail-IsRing, list_add-IsRing}
use zeos_soa.KernelList.Delete.{list_del_lem}
use zeos_soa.Tests.State.{links, n1, n2, n3, ready-IsRing}

list_add_tail-IsRing_example : IsRing (list_add_tail links n1 0x1008) 0x1008 (n2 ∷ n3 ∷ n1 ∷ [])
list_add_tail-IsRing_example = list_add_tail-IsRing n1 ready-IsRing (omega arith) (omega arith)

list_add-IsRing_example : IsRing (list_add links n1 0x1008) 0x1008 (n1 ∷ n2 ∷ n3 ∷ [])
list_add-IsRing_example = list_add-IsRing n1 ready-IsRing (omega arith) (omega arith)

list_del_lem_example :
    IsRing (list_del links n3) 0x1008 (n2 ∷ [])
    × ((list_del links n3).next n3 ≡ 0)
    × ((list_del links n3).prev n3 ≡ 0)
list_del_lem_example = list_del_lem (n2 ∷ []) n3 [] ready-IsRing
