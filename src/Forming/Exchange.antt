-- ===== src/Forming/Exchange.antt =====
-- The exchange of the contact nodes between two levels.
use mathlib.Core.Logic.Or
use mathlib.Core.List.{Perm, Mem, mem-cons, not-mem-nil, mem-cons_self, mem-cons_of_mem}
use mathlib.Core.List.Perm
use native.Mathlib.Bridge.{le_prop}
use fring.Common.{ℕ, arith, List, [], ◌∷◌, map, All}
use fring.Common.Text.{Bytes}
use fring.Node.{Node}
use fring.NodeTable.{Map, Ptr, insert}
use fring.NodeTable.Access.{InHeap, EntryInHeap}
use fring.Forming.{Forming, exchange, insert_all, second}
use fring.Forming.Valid.{IsFormed, insert-All}

-- Iterating over a map in another order meets the same entries.
InHeap-Perm :
    (heap : List Node) (xs ys : Map Ptr)
    → Perm xs ys
    → All (EntryInHeap heap) ys
    → All (EntryInHeap heap) xs
InHeap-Perm heap xs ys p h = all_of xs (λ e m. entry ys h (Perm.subset p e m))
  where
    entry :
        (zs : Map Ptr) {e : Bytes × Ptr} → All (EntryInHeap heap) zs → Mem e zs → EntryInHeap heap e
    entry [] h m = absurd (not-mem-nil m)
    entry (z ∷ zs) h m = Or.elim le_prop (mem-cons.0 m) (λ e. rw e h.0) (entry zs h.1)

    all_of :
        (zs : Map Ptr)
        → ((e : Bytes × Ptr) → Mem e zs → EntryInHeap heap e)
        → All (EntryInHeap heap) zs
    all_of [] k = tt
    all_of (z ∷ zs) k = (k z mem-cons_self, all_of zs (λ e m. k e (mem-cons_of_mem z m)))

insert_all-InHeap :
    (heap : List Node) (m into : Map Ptr)
    → All (EntryInHeap heap) m
    → All (EntryInHeap heap) into
    → All (EntryInHeap heap) (insert_all m into)
insert_all-InHeap heap [] into h k = k
insert_all-InHeap heap ((id, p) ∷ m) into (hp, h) k =
    insert_all-InHeap heap m (insert id p into) h (insert-All (EntryInHeap heap) id p into hp k)

second-InHeap :
    (heap : List Node) (m : Map Ptr) → All (EntryInHeap heap) m → All (InHeap heap) (map second m)
second-InHeap heap [] h = tt
second-InHeap heap (e ∷ m) (he, h) = (he, second-InHeap heap m h)

pub exchange-IsFormed :
    (iterate : Map Ptr → Map Ptr)
    → ((m : Map Ptr) → Perm (iterate m) m)
    → {n : ℕ} (s : Forming) → IsFormed n s
    → IsFormed n (exchange iterate s)
unfolding exchange
exchange-IsFormed iterate order s v =
    let next = InHeap-Perm s.heap _ _ (order s.contact_nodes_next) v.next in
    ground (
      arith,
      insert_all-InHeap s.heap (iterate s.contact_nodes_next) [] next tt,
      second-InHeap s.heap (iterate s.contact_nodes_next) next,
    )
