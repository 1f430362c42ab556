-- ===== src/Orchestration/Manager/Order.antt =====
-- The order in which the agents answer Get of update_manager.go, and in which the known inventories are read.
use update_manager.Base.{
  String, false, ◌≡◌, ◌==◌, Option, none, some, List, [], ◌∷◌, insert, keys, string_eq, arith,
  eq_iff, subst,
}
use mathlib.Core.List.{Permᴰ}
use mathlib.Core.List.Permᴰ
use update_manager.Types.{Inventory}
use update_manager.Util.{contains}
use update_manager.Util.Keys.{
  IsDistinct, IsDistinct-Perm, insert-IsDistinct, insert-Perm, insert-comm,
}
use update_manager.Orchestration.Inventories.{update_inventory_for_domain, as_software_node}
use update_manager.Orchestration.Inventories.Order.{IsSameGraph, to_full_inventory-IsSameGraph}
use update_manager.Orchestration.Manager.{UpdateManager, get, update_all}

update-IsDistinct :
    (d : String) (got : Option Inventory) (m : List (String × Inventory))
    → IsDistinct (keys m)
    → IsDistinct (keys (update_inventory_for_domain d got m))
unfolding update_inventory_for_domain
update-IsDistinct d none m h = h
update-IsDistinct d (some i) m h = insert-IsDistinct d i m h

update-Perm :
    (d : String) (got : Option Inventory) {m m' : List (String × Inventory)}
    → Permᴰ m m'
    → IsDistinct (keys m)
    → Permᴰ (update_inventory_for_domain d got m) (update_inventory_for_domain d got m')
unfolding update_inventory_for_domain
update-Perm d none p h = p
update-Perm d (some i) p h = insert-Perm d i p h

update-comm :
    (d : String) (got : Option Inventory) (e : String) (other : Option Inventory)
    (m : List (String × Inventory))
    → (d == e) ≡ false
    → Permᴰ
        (update_inventory_for_domain d got (update_inventory_for_domain e other m))
        (update_inventory_for_domain e other (update_inventory_for_domain d got m))
unfolding update_inventory_for_domain
update-comm d none e none m n = Permᴰ.refl m
update-comm d none e (some j) m n = Permᴰ.refl (insert e j m)
update-comm d (some i) e none m n = Permᴰ.refl (insert d i m)
update-comm d (some i) e (some j) m n = insert-comm d e i j m n

update_all-Perm :
    (answers : List (String × Option Inventory)) {m m' : List (String × Inventory)}
    → Permᴰ m m'
    → IsDistinct (keys m)
    → Permᴰ (update_all answers m) (update_all answers m')
unfolding update_all
update_all-Perm [] p h = p
update_all-Perm ((d, got) ∷ answers) {m} p h =
    update_all-Perm answers (update-Perm d got p h) (update-IsDistinct d got m h)

-- Two orders of the same answers.
answers-Perm :
    {answers answers' : List (String × Option Inventory)}
    → Permᴰ answers answers'
    → IsDistinct (keys answers)
    → (m : List (String × Inventory)) → IsDistinct (keys m)
    → Permᴰ (update_all answers m) (update_all answers' m)
unfolding update_all contains
answers-Perm Permᴰ.nil u m h = Permᴰ.refl m
answers-Perm (Permᴰ.cons {a = (d, got)} {l₁ = l} {l₂ = r} e p) (f, u) m h =
    subst (λ q. Permᴰ (update_all ((d, got) ∷ l) m) (update_all (q ∷ r) m)) e
      (answers-Perm p u (update_inventory_for_domain d got m) (update-IsDistinct d got m h))
answers-Perm (Permᴰ.swap {a = a} {b = b} {l = l} e f) (n, u) m h =
    subst (λ q. Permᴰ (update_all (a ∷ b ∷ l) m) (update_all q m)) (λ i. f i ∷ e i ∷ l)
      (update_all-Perm l
        (update-comm b.0 b.1 a.0 a.1 m (ground (arith, eq_iff a.0 b.0, eq_iff b.0 a.0, n)))
        (update-IsDistinct b.0 b.1 _ (update-IsDistinct a.0 a.1 m h)))
answers-Perm (Permᴰ.trans p q) u m h =
    Permᴰ.trans (answers-Perm p u m h) (answers-Perm q (IsDistinct-Perm p u) m h)

-- Get gives the same nodes and edges, up to their order, whatever the order in which the agents answer
-- and in which the map of the known inventories is read, if each agent has a name of its own.
pub get-IsSameGraph :
    (answers answers' : List (String × Option Inventory)) (m : UpdateManager)
    (known : List (String × Inventory))
    → Permᴰ answers answers'
    → IsDistinct (keys answers)
    → Permᴰ m.domains_inventory known
    → IsDistinct (keys m.domains_inventory)
    → IsSameGraph (get answers m) (get answers' (record m { domains_inventory = known }))
unfolding get
get-IsSameGraph answers answers' m known p u q h =
    to_full_inventory-IsSameGraph (as_software_node m.name m.version)
      (Permᴰ.trans (answers-Perm p u m.domains_inventory h) (update_all-Perm answers' q h))
