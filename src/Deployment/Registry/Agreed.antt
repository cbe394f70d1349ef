-- ===== src/Deployment/Registry/Agreed.antt =====
-- A node that the registry admits agrees with its candidate.
use kcd2_codex_toolkit.Base.{
  String, Bool, true, not, ◌&&◌, ◌||◌, some, List, [], ◌∷◌, map, ◌==◌, text_has_eq, nat_has_eq,
  elem, any_of, all_of-All, ok, All, All-map, Any, Any-map, here, there, ◌≡◌, ◌⊎◌, inl, inr, sym,
  subst, arith, Bool-cases, Option-cases, &&-true,
}
use kcd2_codex_toolkit.Deployment.Identity.{ComponentIdentity}
use kcd2_codex_toolkit.Deployment.Node.{DeploymentNode}
use kcd2_codex_toolkit.Deployment.Registry.{
  Artifact, Candidate, by_candidate, is_runtime_pak, is_native, has_pak, has_natives, check_node,
}

-- The artifact is a PAK that is needed at run time, and the one that the node deploys.
pub record IsPakOf (node : DeploymentNode) (a : Artifact) : Type 0 where
  pub required : a.required_at_runtime ≡ true
  pub role : (a.role ≡ "data_pak") ⊎ (a.role ≡ "localization_pak")
  pub sha256 : a.sha256 ≡ node.identity.target_pak.sha256
  pub bytes : a.bytes ≡ node.identity.target_pak.bytes

-- A native component that is needed at run time is one of the node's companions.
abbrev pub IsCompanion : DeploymentNode → Artifact → Type 0
IsCompanion node a =
    a.required_at_runtime ≡ true
    → a.role ≡ "native_component"
    → Any (λ (k : ComponentIdentity). k.sha256 ≡ a.sha256) node.identity.companion_components

-- The node agrees with its candidate: mod, folder, manifest, PAK and native companions.
pub record IsAgreed (candidates : List Candidate) (node : DeploymentNode) : Type 0 where
  pub candidate : Candidate
  pub known : Any (λ c. c ≡ candidate) candidates
  pub candidate_id : candidate.candidate_id ≡ node.candidate_id
  pub mod_id : node.identity.target_mod.mod_id ≡ candidate.mod_id
  pub folder : node.identity.target_mod.folder_name_exact ≡ candidate.folder_name_exact
  pub manifest : node.identity.target_manifest.sha256 ≡ candidate.manifest_sha256
  pub pak : Any (IsPakOf node) candidate.artifacts
  pub companions : All (IsCompanion node) candidate.artifacts

any_of-Any : {A : Type 0} (p : A → Bool) (l : List A) → any_of p l ≡ true → Any (λ x. p x ≡ true) l
any_of-Any p [] h = cc
any_of-Any p (x ∷ l) h = elim (Bool-cases (p x)) [
  | inl e ↦ here e
  | inr e ↦ there (any_of-Any p l (ground (arith, e, h)))
]

by_candidate-found :
    (id : String) (l : List Candidate) (c : Candidate)
    → by_candidate id l ≡ some c
    → Any (λ d. d ≡ c) l × (c.candidate_id ≡ id)
unfolding by_candidate
by_candidate-found id [] c h = cc
by_candidate-found id (d ∷ l) c h = elim (Option-cases (by_candidate id l)) [
  | inr (later, e) ↦
      let (found, same) = by_candidate-found id l c (ground (arith, e, h)) in (there found, same)
  | inl e ↦ elim (Bool-cases (d.candidate_id == id)) [
    | inl f ↦
        let same : d ≡ c = ground (arith, e, f, h) in
        (
          here same,
          subst (λ (x : Candidate). x.candidate_id ≡ id) same
              ((text_has_eq.eq_iff d.candidate_id id).0 f),
        )
    | inr f ↦ ground (arith, e, f, h)
  ]
]

runtime_pak-IsPakOf :
    (node : DeploymentNode) (a : Artifact)
    → (is_runtime_pak a
        && a.sha256 == node.identity.target_pak.sha256
        && a.bytes == node.identity.target_pak.bytes)
      ≡ true
    → IsPakOf node a
unfolding is_runtime_pak
runtime_pak-IsPakOf node a h =
    let (h, bytes) = &&-true _ (a.bytes == node.identity.target_pak.bytes) h in
    let (h, sha) = &&-true _ (a.sha256 == node.identity.target_pak.sha256) h in
    let (required, role) = &&-true a.required_at_runtime _ h in
    record {
      required = required;
      role = elim (Bool-cases (a.role == "data_pak")) [
        | inl e ↦ inl ((text_has_eq.eq_iff a.role "data_pak").0 e)
        | inr e ↦ inr ((text_has_eq.eq_iff a.role "localization_pak").0 (ground (arith, e, role)))
      ];
      sha256 = (text_has_eq.eq_iff a.sha256 node.identity.target_pak.sha256).0 sha;
      bytes = (nat_has_eq.eq_iff a.bytes node.identity.target_pak.bytes).0 bytes;
    }

elem-Any :
    (s : String) (l : List ComponentIdentity)
    → elem s (map (λ (k : ComponentIdentity). k.sha256) l) ≡ true
    → Any (λ (k : ComponentIdentity). k.sha256 ≡ s) l
unfolding elem
elem-Any s [] h = cc
elem-Any s (k ∷ l) h = elim (Bool-cases (s == k.sha256)) [
  | inl e ↦ here (sym ((text_has_eq.eq_iff s k.sha256).0 e))
  | inr e ↦ there (elem-Any s l (ground (arith, e, h)))
]

native-IsCompanion :
    (node : DeploymentNode) (a : Artifact)
    → (not (is_native a)
        || elem a.sha256
            (map (λ (k : ComponentIdentity). k.sha256) node.identity.companion_components))
      ≡ true
    → IsCompanion node a
unfolding is_native
native-IsCompanion node a h required role =
    elem-Any a.sha256 node.identity.companion_components
      (ground (arith, h, required, (text_has_eq.eq_iff a.role "native_component").1 role))

check_node-parts :
    (candidates : List Candidate) (node : DeploymentNode) (c : Candidate)
    → by_candidate node.candidate_id candidates ≡ some c
    → check_node candidates node ≡ ok tt
    → ((node.identity.target_mod.mod_id == c.mod_id) ≡ true)
      × ((node.identity.target_mod.folder_name_exact == c.folder_name_exact) ≡ true)
      × ((node.identity.target_manifest.sha256 == c.manifest_sha256) ≡ true)
      × (has_pak node c ≡ true)
      × (has_natives node c ≡ true)
unfolding check_node
check_node-parts candidates node c e h = ground (arith, e, h)

check_node-known :
    (candidates : List Candidate) (node : DeploymentNode)
    → check_node candidates node ≡ ok tt
    → (c : Candidate) × (by_candidate node.candidate_id candidates ≡ some c)
unfolding check_node
check_node-known candidates node h = ground (arith, h)

pub check_node-IsAgreed :
    (candidates : List Candidate) (node : DeploymentNode)
    → check_node candidates node ≡ ok tt
    → IsAgreed candidates node
unfolding has_pak has_natives
check_node-IsAgreed candidates node h =
    let (c, found) = check_node-known candidates node h in
    let (mod_same, folder, manifest, pak, natives) = check_node-parts candidates node c found h in
    let (known, same) = by_candidate-found node.candidate_id candidates c found in
    record {
      candidate = c;
      known = known;
      candidate_id = same;
      mod_id = (text_has_eq.eq_iff node.identity.target_mod.mod_id c.mod_id).0 mod_same;
      folder =
          (text_has_eq.eq_iff node.identity.target_mod.folder_name_exact c.folder_name_exact).0
            folder;
      manifest =
          (text_has_eq.eq_iff node.identity.target_manifest.sha256 c.manifest_sha256).0 manifest;
      pak = Any-map (runtime_pak-IsPakOf node) (any_of-Any _ c.artifacts pak);
      companions = All-map c.artifacts (native-IsCompanion node) (all_of-All _ c.artifacts natives);
    }
