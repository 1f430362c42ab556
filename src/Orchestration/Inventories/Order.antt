-- ===== src/Orchestration/Inventories/Order.antt =====
-- The order in which Go reads the map of the inventories, in update_manager_inventory.go.
use update_manager.Base.{String, ◌≡◌, refl, ap, List, [], ◌∷◌, ◌++◌}
use mathlib.Core.List.{Permᴰ}
use update_manager.Types.{SoftwareNode, Inventory}
use update_manager.Util.Keys.{between, collect, collect-Perm}
use update_manager.Orchestration.Inventories.{
  all_software, all_hardware, all_associations, domain_edges, to_full_inventory,
  to_full_inventory-contents,
}

all_software-collect :
    (m : List (String × Inventory)) → all_software m ≡ collect (λ p. p.1.software_nodes) m
all_software-collect [] = refl
all_software-collect ((d, i) ∷ m) = ap (λ l. i.software_nodes ++ l) (all_software-collect m)

all_hardware-collect :
    (m : List (String × Inventory)) → all_hardware m ≡ collect (λ p. p.1.hardware_nodes) m
all_hardware-collect [] = refl
all_hardware-collect ((d, i) ∷ m) = ap (λ l. i.hardware_nodes ++ l) (all_hardware-collect m)

all_associations-collect :
    (n : SoftwareNode) (m : List (String × Inventory))
    → all_associations n m ≡ collect (λ p. domain_edges n p.0 p.1) m
all_associations-collect n [] = refl
all_associations-collect n ((d, i) ∷ m) =
    ap (λ l. domain_edges n d i ++ l) (all_associations-collect n m)

-- Two inventories with the same nodes and edges, in orders of their own.
pub record IsSameGraph (i j : Inventory) : Type 0 where
  pub software : Permᴰ i.software_nodes j.software_nodes
  pub hardware : Permᴰ i.hardware_nodes j.hardware_nodes
  pub edges : Permᴰ i.associations j.associations

module _ {A B : Type 0} (f : List (String × A) → List B) (g : String × A → List B)
    (same : (m : List (String × A)) → f m ≡ collect g m) where
  gathered-Perm : {m m' : List (String × A)} → Permᴰ m m' → Permᴰ (f m) (f m')
  gathered-Perm {m} {m'} p = between (same m) (collect-Perm g p) (same m')

pub to_full_inventory-IsSameGraph :
    (n : SoftwareNode) {m m' : List (String × Inventory)}
    → Permᴰ m m'
    → IsSameGraph (to_full_inventory n m) (to_full_inventory n m')
to_full_inventory-IsSameGraph n {m} {m'} p =
    let (s, h, a) = to_full_inventory-contents n m in
    let (s', h', a') = to_full_inventory-contents n m' in
    record {
      software =
          between s (Permᴰ.cons refl (gathered-Perm all_software _ all_software-collect p)) s';
      hardware = between h (gathered-Perm all_hardware _ all_hardware-collect p) h';
      edges = between a (gathered-Perm (all_associations n) _ (all_associations-collect n) p) a';
    }
