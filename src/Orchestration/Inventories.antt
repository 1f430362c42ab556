-- ===== src/Orchestration/Inventories.antt =====
-- updatem/orchestration/update_manager_inventory.go: the inventories of the domains as one graph.
pub mod Order
use update_manager.Base.{
  String, Bool, true, false, ◌≡◌, refl, ap, ◌∙◌, ◌==◌, ◌&&◌, Option, none, some, List, [], ◌∷◌,
  ◌++◌, if◌then◌else◌, insert, string_eq, any, arith, Option-cases, ◌⊎◌, inl, inr,
}
use Prim.Native.String.{◌++◌ as cat}
use mathlib.Core.List.{append-nil, append_assoc}
use update_manager.Types.{
  KeyValuePair, HardwareNode, SoftwareNode, SoftwareType, Association, Inventory, is_application,
}

unfoldable pub as_software_node : String → String → SoftwareNode
as_software_node name version = record {
  node = record {
    id = cat name "-update-manager";
    version = version;
    name = "Update Manager";
    parameters = [];
  };
  type = SoftwareType.application;
}

abbrev pub names_domain : String → KeyValuePair → Bool
names_domain domain p = p.key == "domain" && p.value == domain

-- An application that names the domain in a parameter.
abbrev pub is_root : String → SoftwareNode → Bool
is_root domain n = is_application n.type && any (names_domain domain) n.parameters

first_root : String → List SoftwareNode → Option SoftwareNode
first_root domain [] = none
first_root domain (n ∷ ns) = if is_root domain n then some n else first_root domain ns

-- findDomainSoftwareNode: the first root, else the first node.
root_or : List SoftwareNode → Option SoftwareNode → Option SoftwareNode
root_or [] found = none
root_or (n ∷ ns) none = some n
root_or (n ∷ ns) (some r) = some r

unfoldable pub find_domain_software_node : String → Inventory → Option SoftwareNode
unfolding first_root root_or
find_domain_software_node domain i = root_or i.software_nodes (first_root domain i.software_nodes)

-- One round of the loop of toFullInventory.
add_domain : SoftwareNode → String → Inventory → Inventory → Inventory
add_domain manager domain i acc =
    let merged = record acc {
      hardware_nodes = acc.hardware_nodes ++ i.hardware_nodes;
      software_nodes = acc.software_nodes ++ i.software_nodes;
    } in
    elim (find_domain_software_node domain i) [
      | none ↦ merged
      | some root ↦ record merged {
        associations =
            (acc.associations ++ record { source_id = manager.id; target_id = root.id } ∷ [])
            ++ i.associations;
      }
    ]

add_domains : SoftwareNode → List (String × Inventory) → Inventory → Inventory
add_domains manager [] acc = acc
add_domains manager ((domain, i) ∷ m) acc = add_domains manager m (add_domain manager domain i acc)

unfoldable pub to_full_inventory : SoftwareNode → List (String × Inventory) → Inventory
unfolding add_domains add_domain
to_full_inventory manager domains =
    add_domains manager domains
      (record { hardware_nodes = []; software_nodes = manager ∷ []; associations = [] })

-- What updateInventoryForDomain does with the results of an agent's Get.
unfoldable pub update_inventory_for_domain :
    String → Option Inventory → List (String × Inventory) → List (String × Inventory)
update_inventory_for_domain name none domains = domains
update_inventory_for_domain name (some i) domains = insert name i domains

-- The contents of the domains, in the order in which the map is read.
abbrev pub all_software : List (String × Inventory) → List SoftwareNode
all_software [] = []
all_software ((d, i) ∷ m) = i.software_nodes ++ all_software m

abbrev pub all_hardware : List (String × Inventory) → List HardwareNode
all_hardware [] = []
all_hardware ((d, i) ∷ m) = i.hardware_nodes ++ all_hardware m

-- The edges of a domain with software: one from the manager to its root, then its own.
abbrev pub domain_edges : SoftwareNode → String → Inventory → List Association
domain_edges manager d i = elim (find_domain_software_node d i) [
  | none ↦ []
  | some root ↦ record { source_id = manager.id; target_id = root.id } ∷ i.associations
]

abbrev pub all_associations : SoftwareNode → List (String × Inventory) → List Association
all_associations manager [] = []
all_associations manager ((d, i) ∷ m) = domain_edges manager d i ++ all_associations manager m

add_domain-nodes :
    (n : SoftwareNode) (d : String) (i acc : Inventory)
    → ((add_domain n d i acc).software_nodes ≡ acc.software_nodes ++ i.software_nodes)
      × ((add_domain n d i acc).hardware_nodes ≡ acc.hardware_nodes ++ i.hardware_nodes)
unfolding add_domain
add_domain-nodes n d i acc = (ground arith, ground arith)

add_domain-edges :
    (n : SoftwareNode) (d : String) (i acc : Inventory)
    → (add_domain n d i acc).associations ≡ acc.associations ++ domain_edges n d i
unfolding add_domain
add_domain-edges n d i acc = elim (Option-cases (find_domain_software_node d i)) [
  | inl e ↦ ground (arith, append-nil acc.associations)
  | inr (r, e) ↦ ground (
    arith,
    append_assoc acc.associations (record { source_id = n.id; target_id = r.id } ∷ [])
        i.associations,
  )
]

add_domains-software :
    (n : SoftwareNode) (m : List (String × Inventory)) (acc : Inventory)
    → (add_domains n m acc).software_nodes ≡ acc.software_nodes ++ all_software m
unfolding add_domains
add_domains-software n [] acc = simp append-nil
add_domains-software n ((d, i) ∷ m) acc =
    add_domains-software n m (add_domain n d i acc)
    ∙ ap (λ l. l ++ all_software m) (add_domain-nodes n d i acc).0
    ∙ append_assoc acc.software_nodes i.software_nodes (all_software m)

add_domains-hardware :
    (n : SoftwareNode) (m : List (String × Inventory)) (acc : Inventory)
    → (add_domains n m acc).hardware_nodes ≡ acc.hardware_nodes ++ all_hardware m
unfolding add_domains
add_domains-hardware n [] acc = simp append-nil
add_domains-hardware n ((d, i) ∷ m) acc =
    add_domains-hardware n m (add_domain n d i acc)
    ∙ ap (λ l. l ++ all_hardware m) (add_domain-nodes n d i acc).1
    ∙ append_assoc acc.hardware_nodes i.hardware_nodes (all_hardware m)

add_domains-associations :
    (n : SoftwareNode) (m : List (String × Inventory)) (acc : Inventory)
    → (add_domains n m acc).associations ≡ acc.associations ++ all_associations n m
unfolding add_domains
add_domains-associations n [] acc = simp append-nil
add_domains-associations n ((d, i) ∷ m) acc =
    add_domains-associations n m (add_domain n d i acc)
    ∙ ap (λ l. l ++ all_associations n m) (add_domain-edges n d i acc)
    ∙ append_assoc acc.associations (domain_edges n d i) (all_associations n m)

-- The full inventory has the manager's own node first and then exactly the nodes of the domains; its
-- edges are, for each domain with a software node, one from the manager to the domain's root and the
-- edges of the domain.
pub to_full_inventory-contents :
    (n : SoftwareNode) (m : List (String × Inventory))
    → ((to_full_inventory n m).software_nodes ≡ n ∷ all_software m)
      × ((to_full_inventory n m).hardware_nodes ≡ all_hardware m)
      × ((to_full_inventory n m).associations ≡ all_associations n m)
unfolding to_full_inventory
to_full_inventory-contents n m =
    (add_domains-software n m _, add_domains-hardware n m _, add_domains-associations n m _)

first_root-is_root :
    (d : String) (ns : List SoftwareNode) (r : SoftwareNode)
    → first_root d ns ≡ some r
    → is_root d r ≡ true
unfolding first_root
first_root-is_root d [] r e = cc
first_root-is_root d (n ∷ ns) r e = ground (arith, first_root-is_root d ns r)

first_root-none :
    (d : String) (ns : List SoftwareNode) → first_root d ns ≡ none → any (is_root d) ns ≡ false
unfolding first_root
first_root-none d [] e = refl
first_root-none d (n ∷ ns) e = ground (arith, first_root-none d ns)

-- The node that is found for a domain is an application that names the domain, unless no software node
-- of the inventory is one.
find_domain_software_node-root :
    (d : String) (i : Inventory) (r : SoftwareNode)
    → find_domain_software_node d i ≡ some r
    → (is_root d r ≡ true) ⊎ (any (is_root d) i.software_nodes ≡ false)
unfolding find_domain_software_node
find_domain_software_node-root d i r e =
    ground (arith, first_root-none d i.software_nodes, first_root-is_root d i.software_nodes r)
