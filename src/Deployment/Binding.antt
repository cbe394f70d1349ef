-- ===== src/Deployment/Binding.antt =====
-- Comparing the deployment at the start of a session with the one at its close.
use kcd2_codex_toolkit.Base.{
  String, Bool, true, not, List, [], ◌∷◌, ◌==◌, text_has_eq, text_discrete, ℕ_discrete, Eq,
  eq_of_discrete, chosen, NoneHolds, chosen-eq-nil, chosen-none, sort_texts, is_empty,
  is_empty-eq-nil, ◌≡◌, ◌↔◌, ap, arith,
}
use kcd2_codex_toolkit.Deployment.Identity.{
  TargetMod, FileIdentity, ComponentIdentity, GameIdentity,
}
use kcd2_codex_toolkit.Deployment.Node.{DeploymentNode}

unfoldable pub target_mod_discrete : Discrete TargetMod
unfolding text_discrete
target_mod_discrete = hlevel text_discrete

unfoldable pub file_discrete : Discrete FileIdentity
unfolding text_discrete ℕ_discrete
file_discrete = hlevel (text_discrete, ℕ_discrete)

unfoldable pub companions_discrete : Discrete (List ComponentIdentity)
unfolding text_discrete
companions_discrete = hlevel text_discrete

unfoldable pub game_discrete : Discrete GameIdentity
unfolding text_discrete ℕ_discrete
game_discrete = hlevel (text_discrete, ℕ_discrete)

instance abbrev pub target_mod_has_eq : Eq TargetMod
unfolding target_mod_discrete
target_mod_has_eq = eq_of_discrete target_mod_discrete

instance abbrev pub file_has_eq : Eq FileIdentity
unfolding file_discrete
file_has_eq = eq_of_discrete file_discrete

instance abbrev pub companions_have_eq : Eq (List ComponentIdentity)
unfolding companions_discrete
companions_have_eq = eq_of_discrete companions_discrete

instance abbrev pub game_has_eq : Eq GameIdentity
unfolding game_discrete
game_has_eq = eq_of_discrete game_discrete

pub record BindingComparison : Type 0 where
  pub start_deployment_id : String
  pub close_deployment_id : String
  pub identity_unchanged : Bool
  pub candidate_promotion_allowed : Bool
  pub reason_codes : List String

unfoldable pub binding_reasons : DeploymentNode → DeploymentNode → List (Bool × String)
binding_reasons start close =
    (not (start.candidate_id == close.candidate_id), "CANDIDATE_CHANGED")
    ∷ (
      not (start.identity.target_mod == close.identity.target_mod),
      "TARGET_MOD_OR_FOLDER_CASE_CHANGED",
    )
    ∷ (not (start.identity.target_pak == close.identity.target_pak), "TARGET_PAK_CHANGED")
    ∷ (
      not (start.identity.target_manifest == close.identity.target_manifest),
      "TARGET_MANIFEST_CHANGED",
    )
    ∷ (not (start.identity.mod_order == close.identity.mod_order), "MOD_ORDER_CHANGED")
    ∷ (
      not (start.identity.companion_components == close.identity.companion_components),
      "COMPANION_COMPONENTS_CHANGED",
    )
    ∷ (not (start.identity.game == close.identity.game), "GAME_IDENTITY_CHANGED")
    ∷ (not (start.snapshot_id == close.snapshot_id), "SNAPSHOT_ID_CHANGED")
    ∷ (not (start.snapshot_sha256 == close.snapshot_sha256), "SNAPSHOT_HASH_CHANGED")
    ∷ (not (start.deployment_id == close.deployment_id), "DEPLOYMENT_IDENTITY_CHANGED")
    ∷ []

unfoldable pub compare_deployment_bindings : DeploymentNode → DeploymentNode → BindingComparison
compare_deployment_bindings start close =
    let reasons = chosen (binding_reasons start close) in
    record {
      start_deployment_id = start.deployment_id;
      close_deployment_id = close.deployment_id;
      identity_unchanged = is_empty reasons;
      candidate_promotion_allowed = is_empty reasons;
      reason_codes = sort_texts reasons;
    }

-- Two nodes with nothing to report agree in every field that is compared. The candidate of a node's
-- identity is not compared by itself: a node's constructor makes it the node's own.
unchanged_fields :
    (a b : DeploymentNode)
    → a.candidate_id ≡ a.identity.candidate_id
    → b.candidate_id ≡ b.identity.candidate_id
    → NoneHolds (binding_reasons a b)
    → a ≡ b
unfolding binding_reasons
unchanged_fields a b p q h = ground (
  arith,
  text_has_eq.eq_iff a.candidate_id b.candidate_id,
  target_mod_has_eq.eq_iff a.identity.target_mod b.identity.target_mod,
  file_has_eq.eq_iff a.identity.target_pak b.identity.target_pak,
  file_has_eq.eq_iff a.identity.target_manifest b.identity.target_manifest,
  file_has_eq.eq_iff a.identity.mod_order b.identity.mod_order,
  companions_have_eq.eq_iff a.identity.companion_components b.identity.companion_components,
  game_has_eq.eq_iff a.identity.game b.identity.game,
  text_has_eq.eq_iff a.snapshot_id b.snapshot_id,
  text_has_eq.eq_iff a.snapshot_sha256 b.snapshot_sha256,
  text_has_eq.eq_iff a.deployment_id b.deployment_id,
)

unchanged_self : (a : DeploymentNode) → NoneHolds (binding_reasons a a)
unfolding binding_reasons
unchanged_self a = ground (
  arith,
  text_has_eq.eq_iff a.candidate_id a.candidate_id,
  target_mod_has_eq.eq_iff a.identity.target_mod a.identity.target_mod,
  file_has_eq.eq_iff a.identity.target_pak a.identity.target_pak,
  file_has_eq.eq_iff a.identity.target_manifest a.identity.target_manifest,
  file_has_eq.eq_iff a.identity.mod_order a.identity.mod_order,
  companions_have_eq.eq_iff a.identity.companion_components a.identity.companion_components,
  game_has_eq.eq_iff a.identity.game a.identity.game,
  text_has_eq.eq_iff a.snapshot_id a.snapshot_id,
  text_has_eq.eq_iff a.snapshot_sha256 a.snapshot_sha256,
  text_has_eq.eq_iff a.deployment_id a.deployment_id,
)

-- For nodes whose candidate is that of their identity, promotion is allowed exactly when the two
-- nodes are equal in every field.
pub promotion_iff_equal :
    (start close : DeploymentNode)
    → start.candidate_id ≡ start.identity.candidate_id
    → close.candidate_id ≡ close.identity.candidate_id
    → ((compare_deployment_bindings start close).candidate_promotion_allowed ≡ true)
      ↔ (start ≡ close)
unfolding compare_deployment_bindings
promotion_iff_equal start close p q = (
  λ h. unchanged_fields start close p q (chosen-eq-nil _ (is_empty-eq-nil _ h)),
  λ e. rw e (ap is_empty (chosen-none _ (unchanged_self close))),
)
