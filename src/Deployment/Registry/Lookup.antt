-- ===== src/Deployment/Registry/Lookup.antt =====
-- Looking a node up in a sorted list is looking it up in the list, where identifiers are distinct.
use kcd2_codex_toolkit.Base.{
  String, true, false, not, ◌&&◌, ◌||◌, none, some, List, [], ◌∷◌, ◌++◌, ◌≡◌, refl, arith,
  if◌then◌else◌, ◌==◌, text_has_eq, elem, is_unique, sort_by, insert_by,
}
use kcd2_codex_toolkit.Deployment.Node.{DeploymentNode}
use kcd2_codex_toolkit.Deployment.Registry.{ids, node_leb, find_node}

elem-ids-insert_by :
    (z : String) (n : DeploymentNode) (l : List DeploymentNode)
    → elem z (ids (insert_by node_leb n l)) ≡ (z == n.deployment_id || elem z (ids l))
unfolding insert_by elem
elem-ids-insert_by z n [] = refl
elem-ids-insert_by z n (m ∷ l) = ground (arith, elem-ids-insert_by z n l)

pub elem-ids-sort_by :
    (z : String) (l : List DeploymentNode) → elem z (ids (sort_by node_leb l)) ≡ elem z (ids l)
unfolding sort_by elem
elem-ids-sort_by z [] = refl
elem-ids-sort_by z (n ∷ l) =
    ground (arith, elem-ids-insert_by z n (sort_by node_leb l), elem-ids-sort_by z l)

is_unique-ids-insert_by :
    (n : DeploymentNode) (l : List DeploymentNode)
    → is_unique (ids (insert_by node_leb n l))
      ≡ (not (elem n.deployment_id (ids l)) && is_unique (ids l))
unfolding insert_by is_unique
is_unique-ids-insert_by n [] = refl
is_unique-ids-insert_by n (m ∷ l) = ground (
  arith,
  is_unique-ids-insert_by n l,
  elem-ids-insert_by m.deployment_id n l,
  text_has_eq.eq_iff m.deployment_id n.deployment_id,
  text_has_eq.eq_iff n.deployment_id m.deployment_id,
)

pub is_unique-ids-sort_by :
    (l : List DeploymentNode) → is_unique (ids (sort_by node_leb l)) ≡ is_unique (ids l)
unfolding sort_by is_unique
is_unique-ids-sort_by [] = refl
is_unique-ids-sort_by (n ∷ l) = ground (
  arith,
  is_unique-ids-insert_by n (sort_by node_leb l),
  elem-ids-sort_by n.deployment_id l,
  is_unique-ids-sort_by l,
)

find_node-insert_by :
    (z : String) (n : DeploymentNode) (l : List DeploymentNode)
    → elem n.deployment_id (ids l) ≡ false
    → find_node z (insert_by node_leb n l)
      ≡ (if n.deployment_id == z then some n else find_node z l)
unfolding insert_by elem find_node
find_node-insert_by z n [] h = refl
find_node-insert_by z n (m ∷ l) h = ground (
  arith,
  find_node-insert_by z n l,
  text_has_eq.eq_iff n.deployment_id m.deployment_id,
  text_has_eq.eq_iff n.deployment_id z,
  text_has_eq.eq_iff m.deployment_id z,
)

pub find_node-sort_by :
    (z : String) (l : List DeploymentNode)
    → is_unique (ids l) ≡ true
    → find_node z (sort_by node_leb l) ≡ find_node z l
unfolding sort_by is_unique find_node
find_node-sort_by z [] h = refl
find_node-sort_by z (n ∷ l) h = ground (
  arith,
  find_node-insert_by z n (sort_by node_leb l),
  elem-ids-sort_by n.deployment_id l,
  find_node-sort_by z l,
)

-- One more node at the end is found where no earlier node has the identifier.
pub find_node-append_one :
    (z : String) (l : List DeploymentNode) (n : DeploymentNode)
    → find_node z (l ++ n ∷ []) ≡ elim (find_node z l) [
      | some m ↦ some m
      | none ↦ if n.deployment_id == z then some n else none
    ]
unfolding find_node
find_node-append_one z [] n = refl
find_node-append_one z (m ∷ l) n = ground (arith, find_node-append_one z l n)

pub find_node-id :
    (z : String) (l : List DeploymentNode) (n : DeploymentNode)
    → find_node z l ≡ some n
    → n.deployment_id ≡ z
unfolding find_node
find_node-id z [] n h = cc
find_node-id z (m ∷ l) n h =
    ground (arith, find_node-id z l n, text_has_eq.eq_iff m.deployment_id z)
