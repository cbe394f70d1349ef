-- ===== src/Deployment/Registry/Consistent.antt =====
-- What a registry that was constructed holds, and what `add` and `get` do to one another.
use kcd2_codex_toolkit.Base.{
  ◌≤◌, String, true, ◌&&◌, none, some, List, [], ◌∷◌, ◌++◌, ◌≡◌, ◌∙◌, arith, if◌then◌else◌, ◌==◌,
  text_has_eq, is_unique, sort_by, length, leb, leb→le, All, All-sort_by, length-sort_by, ok, err,
  is_addressed, lower, >>=-eq-ok, Option-cases, inl, inr, ◌⊎◌, sym, ap,
}
use kcd2_codex_toolkit.Deployment.Identity.{different_record}
use kcd2_codex_toolkit.Deployment.Node.{DeploymentNode, node_has_eq}
use kcd2_codex_toolkit.Deployment.Registry.{
  Candidate, DeploymentRegistry, max_deployments, ids, node_leb, check_node, check_nodes,
  deployment_registry, find_node, get, add,
}
use kcd2_codex_toolkit.Deployment.Registry.Agreed.{IsAgreed, check_node-IsAgreed}
use kcd2_codex_toolkit.Deployment.Registry.Lookup.{
  is_unique-ids-sort_by, find_node-sort_by, find_node-append_one,
}

pub record IsConsistent (r : DeploymentRegistry) : Type 0 where
  pub bounded : length r.nodes ≤ max_deployments
  pub distinct : is_unique (ids r.nodes) ≡ true
  pub admitted : All (IsAgreed r.candidates) r.nodes

check_node-unit :
    (c : List Candidate) (n : DeploymentNode) (u : Unit) → check_node c n ≡ ok u → IsAgreed c n
check_node-unit c n u h = check_node-IsAgreed c n h

check_nodes-All :
    (c : List Candidate) (l : List DeploymentNode) {u : Unit}
    → check_nodes c l ≡ ok u
    → All (IsAgreed c) l
unfolding check_nodes
check_nodes-All c [] h = tt
check_nodes-All c (n ∷ l) h =
    let (u, first, rest) = >>=-eq-ok (check_node c n) (λ _. check_nodes c l) h in
    (check_node-unit c n u first, check_nodes-All c l rest)

module _ (nodes : List DeploymentNode) (candidates : List Candidate) {r : DeploymentRegistry}
    (made : deployment_registry nodes candidates ≡ ok r) where
  made_parts :
      (leb (length nodes) max_deployments ≡ true)
      × (is_unique (ids nodes) ≡ true)
      × (check_nodes candidates nodes ≡ ok tt)
      × (r ≡ record { nodes = sort_by node_leb nodes; candidates = candidates })
  unfolding deployment_registry
  made_parts = ground arith

  -- A registry that is constructed is within its bound, has distinct identifiers, and every node of
  -- it agrees with its candidate.
  deployment_registry-IsConsistent : IsConsistent r
  deployment_registry-IsConsistent =
      let (small, distinct, checked, e) = made_parts in
      rw e (record {
        bounded = rw (length-sort_by node_leb nodes) (leb→le _ _ small);
        distinct = is_unique-ids-sort_by nodes ∙ distinct;
        admitted =
            All-sort_by node_leb (IsAgreed candidates) nodes
              (check_nodes-All candidates nodes checked);
      })

add_cases :
    (r : DeploymentRegistry) (n : DeploymentNode) {s : DeploymentRegistry}
    → add r n ≡ ok s
    → (get r n.deployment_id ≡ some n) × (s ≡ r)
      ⊎ (get r n.deployment_id ≡ none)
        × (deployment_registry (r.nodes ++ n ∷ []) r.candidates ≡ ok s)
unfolding add
add_cases r n {s = s} h = elim (Option-cases (get r n.deployment_id)) [
  | inl e ↦ inr (e, rw (e, add) at h)
  | inr (m, e) ↦
      let (same, kept) = existing_case m (rw (e, add) at h) in inl (e ∙ ap some same, kept)
]
  where
    existing_case :
        (m : DeploymentNode)
        → (if m == n then ok r else err different_record) ≡ ok s
        → (m ≡ n) × (s ≡ r)
    existing_case m k = ground (arith, node_has_eq.eq_iff m n)

-- Adding a node to a consistent registry, when it succeeds, gives a consistent registry: bounded,
-- without repeated identifiers, and every node names a candidate of the registry with which it agrees
-- in the mod, the folder and the manifest, deploys one of its PAK files that are needed at run time,
-- and has each of its native components that are needed at run time among its companions.
pub add-IsConsistent :
    (r : DeploymentRegistry) (n : DeploymentNode) {s : DeploymentRegistry}
    → IsConsistent r
    → add r n ≡ ok s
    → IsConsistent s
add-IsConsistent r n c h = elim (add_cases r n h) [
  | inl (_, same) ↦ rw same c
  | inr (_, made) ↦ deployment_registry-IsConsistent (r.nodes ++ n ∷ []) r.candidates made
]

-- The node's identifier has the form and the case that its constructor gives it.
pub record IsNormal (n : DeploymentNode) : Type 0 where
  pub addressed : is_addressed "deploy:sha256:" n.deployment_id ≡ true
  pub lowered : lower n.deployment_id ≡ n.deployment_id

get_normal :
    (r : DeploymentRegistry) (n : DeploymentNode)
    → IsNormal n
    → get r n.deployment_id ≡ find_node n.deployment_id r.nodes
unfolding get
get_normal r n norm = rw (norm.addressed, norm.lowered)

get_known :
    (r : DeploymentRegistry) (n : DeploymentNode) (z : String)
    → find_node n.deployment_id r.nodes ≡ some n
    → get r z
      ≡ (if is_addressed "deploy:sha256:" z && n.deployment_id == lower z then some n else get r z)
unfolding get
get_known r n z h = ground (arith, text_has_eq.eq_iff n.deployment_id (lower z))

get_new :
    (r : DeploymentRegistry) (n : DeploymentNode) (z : String) {s : DeploymentRegistry}
    → find_node n.deployment_id r.nodes ≡ none
    → deployment_registry (r.nodes ++ n ∷ []) r.candidates ≡ ok s
    → get s z
      ≡ (if is_addressed "deploy:sha256:" z && n.deployment_id == lower z then some n else get r z)
unfolding get
get_new r n z absent made =
    let (_, distinct, _, e) = made_parts (r.nodes ++ n ∷ []) r.candidates made in
    rw
      (
        e,
        find_node-sort_by (lower z) (r.nodes ++ n ∷ []) distinct,
        find_node-append_one (lower z) r.nodes n,
      )
      (ground (arith, text_has_eq.eq_iff n.deployment_id (lower z)))

-- After a successful `add`, `get` finds the node under its identifier in any case, and answers for
-- every other identifier as before.
pub get-add :
    (r : DeploymentRegistry) (n : DeploymentNode) (z : String) {s : DeploymentRegistry}
    → IsConsistent r
    → IsNormal n
    → add r n ≡ ok s
    → get s z
      ≡ (if is_addressed "deploy:sha256:" z && n.deployment_id == lower z then some n else get r z)
get-add r n z c norm h = elim (add_cases r n h) [
  | inl (found, same) ↦ rw same (get_known r n z (sym (get_normal r n norm) ∙ found))
  | inr (absent, made) ↦ get_new r n z (sym (get_normal r n norm) ∙ absent) made
]
