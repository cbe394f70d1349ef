-- ===== src/Deployment/Payload.antt =====
-- The payloads that are hashed: each `identity_payload` of deployment_registry.py, as JSON with
-- sorted keys, and that no two identities share one.
use kcd2_codex_toolkit.Base.{String, List, [], ◌∷◌, ◌≡◌, refl, arith}
use kcd2_codex_toolkit.Base.Json.{Json, pos, int, str, arr, obj, items, end, field}
use kcd2_codex_toolkit.Deployment.Identity.{
  FileIdentity, ComponentIdentity, PeIdentity, GameIdentity, TargetMod, DeploymentIdentity,
}

unfoldable pub file_payload : FileIdentity → Json
file_payload f = obj (
    field "bytes" (int (pos f.bytes))
      (field "path" (str f.path) (field "sha256" (str f.sha256) end)))

unfoldable pub component_payload : ComponentIdentity → Json
component_payload c =
    obj (field "path" (str c.path) (field "role" (str c.role) (field "sha256" (str c.sha256) end)))

unfoldable pub pe_payload : PeIdentity → Json
pe_payload p = obj (
    field "image_size" (int (pos p.image_size)) (
      field "name" (str p.name)
        (field "sha256" (str p.sha256) (field "timestamp" (str p.timestamp) end))))

unfoldable pub game_payload : GameIdentity → Json
unfolding pe_payload
game_payload g = obj (
    field "executable" (pe_payload g.executable)
      (field "version" (str g.version) (field "whgame" (pe_payload g.whgame) end)))

unfoldable pub target_mod_payload : TargetMod → Json
target_mod_payload t =
    obj (field "folder_name_exact" (str t.folder_name_exact) (field "mod_id" (str t.mod_id) end))

unfoldable pub identity_payload : DeploymentIdentity → Json
identity_payload d = obj (
    field "candidate_id" (str d.candidate_id) (
      field "companion_components" (arr (items component_payload d.companion_components)) (
        field "game" (game_payload d.game) (
          field "mod_order" (file_payload d.mod_order) (
            field "target_manifest" (file_payload d.target_manifest) (
              field "target_mod" (target_mod_payload d.target_mod)
                (field "target_pak" (file_payload d.target_pak) end)))))))

-- The payload that `canonical_deployment_id` hashes.
unfoldable pub deployment_payload : DeploymentIdentity → String → String → Json
deployment_payload identity snapshot_id snapshot_sha256 = obj (
    field "deployment_identity" (identity_payload identity) (
      field "identity_version" (str "kcd2.exact-deployment-identity.v1") (
        field "snapshot_id" (str snapshot_id) (field "snapshot_sha256" (str snapshot_sha256) end))))

file_payload_inj : (a b : FileIdentity) → file_payload a ≡ file_payload b → a ≡ b
unfolding file_payload
file_payload_inj a b h = ground arith

component_payload_inj :
    (a b : ComponentIdentity) → component_payload a ≡ component_payload b → a ≡ b
unfolding component_payload
component_payload_inj a b h = ground arith

game_payload_inj : (a b : GameIdentity) → game_payload a ≡ game_payload b → a ≡ b
unfolding game_payload
game_payload_inj a b h = ground arith

target_mod_payload_inj : (a b : TargetMod) → target_mod_payload a ≡ target_mod_payload b → a ≡ b
unfolding target_mod_payload
target_mod_payload_inj a b h = ground arith

components_inj :
    (l m : List ComponentIdentity) → items component_payload l ≡ items component_payload m → l ≡ m
unfolding items
components_inj [] [] h = refl
components_inj [] (b ∷ m) h = cc
components_inj (a ∷ l) [] h = cc
components_inj (a ∷ l) (b ∷ m) h = ground (arith, component_payload_inj a b, components_inj l m)

identity_payload_inj : (a b : DeploymentIdentity) → identity_payload a ≡ identity_payload b → a ≡ b
unfolding identity_payload
identity_payload_inj a b h = ground (
  arith,
  components_inj a.companion_components b.companion_components,
  game_payload_inj a.game b.game,
  file_payload_inj a.mod_order b.mod_order,
  file_payload_inj a.target_manifest b.target_manifest,
  target_mod_payload_inj a.target_mod b.target_mod,
  file_payload_inj a.target_pak b.target_pak,
)

-- Two deployments whose hashed payloads agree have the same identity in every field, the same
-- snapshot identifier and the same snapshot digest.
pub deployment_payload_injective :
    (a b : DeploymentIdentity) (i j s t : String)
    → deployment_payload a i s ≡ deployment_payload b j t
    → (a ≡ b) × (i ≡ j) × (s ≡ t)
unfolding deployment_payload
deployment_payload_injective a b i j s t h = ground (arith, identity_payload_inj a b)
