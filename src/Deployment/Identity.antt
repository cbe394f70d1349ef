-- ===== src/Deployment/Identity.antt =====
-- The immutable identity records of deployment_registry.py. A constructor such as `file_identity`
-- is the dataclass's `__post_init__`: it checks and normalises the fields, or raises. The fields
-- have their declared Python types, so the `isinstance` tests have nothing to refuse.
use kcd2_codex_toolkit.Base.{
  ℕ, ◌-◌, ◌^◌, nat_has_eq, String, Bool, true, not, ◌&&◌, ◌||◌, none, some, List, map, leb,
  if◌then◌else◌, ◌==◌, text_has_eq, Eq, is_unique, length, ◌≡◌, ◌↔◌, Result, ok, err, ◌>>=◌, ◌>>◌,
  require, len, has_nul, is_sha256, is_addressed, all_chars, lower, sort_by, str_leb, arith,
}
use kcd2_codex_toolkit.Base.Json.{ℤ, in_range}
use kcd2_codex_toolkit.Deployment.Hex.{parse_hex, print_hex}

-- `DeploymentRegistryError`, with what it names.
pub data Error : Type 0 where
  bad_text : String → ℕ → Error
  bad_digest : String → Error
  bad_timestamp : String → Error
  bad_bytes bad_pe_timestamp wide_pe_timestamp bad_image_size bad_mod_id bad_candidate_id : Error
  too_many_companions duplicate_companion bad_deployment_id candidate_differs id_mismatch : Error
  incomplete_snapshot too_many_nodes duplicate_node unknown_candidate mod_differs : Error
  folder_differs manifest_differs pak_differs native_omitted different_record : Error
  bad_operation bad_status bad_reasons duplicate_reasons inconsistent_status bad_max_age : Error

abbrev max_file_bytes : ℕ
max_file_bytes = 1_099_511_627_776

-- non-empty, NUL-free and at most `maximum` characters
unfoldable pub is_text : String → ℕ → Bool
unfolding has_nul
is_text value maximum = not (len value == 0 || not (leb (len value) maximum) || has_nul value)

-- `_text`
unfoldable pub text : String → String → ℕ → Result Error String
text value name maximum = if is_text value maximum then ok value else err (bad_text name maximum)

-- `_digest`
unfoldable pub digest : String → String → Result Error String
digest value name = if is_sha256 value then ok (lower value) else err (bad_digest name)

unfoldable pub bounded : ℕ → ℕ → ℤ → Error → Result Error ℕ
unfolding in_range
bounded lo hi value error = elim (in_range lo hi value) [ none ↦ err error | some n ↦ ok n ]

pub record FileIdentity : Type 0 where
  pub path : String
  pub sha256 : String
  pub bytes : ℕ

unfoldable pub file_identity : String → String → ℤ → Result Error FileIdentity
unfolding text digest bounded
file_identity path sha256 bytes = do
  p ← text path "file path" 2048
  d ← digest sha256 "file sha256"
  b ← bounded 0 max_file_bytes bytes bad_bytes
  ok (record { path = p; sha256 = d; bytes = b })

pub record ComponentIdentity : Type 0 where
  pub role : String
  pub path : String
  pub sha256 : String

unfoldable pub component_identity : String → String → String → Result Error ComponentIdentity
unfolding text digest
component_identity role path sha256 = do
  r ← text role "component role" 128
  p ← text path "component path" 2048
  d ← digest sha256 "component sha256"
  ok (record { role = r; path = p; sha256 = d })

pub record PeIdentity : Type 0 where
  pub name : String
  pub sha256 : String
  pub timestamp : String
  pub image_size : ℕ

-- The timestamp as `f"0x{number:X}"`, if it is a hexadecimal number of at most 64 bits.
unfoldable pub pe_timestamp : String → Result Error String
pe_timestamp timestamp = elim (parse_hex timestamp) [
  | none ↦ err bad_pe_timestamp
  | some number ↦ if leb number (2 ^ 64 - 1) then ok (print_hex number) else err wide_pe_timestamp
]

unfoldable pub pe_identity : String → String → String → ℤ → Result Error PeIdentity
unfolding text digest bounded pe_timestamp
pe_identity name sha256 timestamp image_size = do
  n ← text name "PE name" 260
  d ← digest sha256 "PE sha256"
  t ← pe_timestamp timestamp
  size ← bounded 1 max_file_bytes image_size bad_image_size
  ok (record { name = n; sha256 = d; timestamp = t; image_size = size })

pub record GameIdentity : Type 0 where
  pub version : String
  pub executable : PeIdentity
  pub whgame : PeIdentity

unfoldable pub game_identity : String → PeIdentity → PeIdentity → Result Error GameIdentity
unfolding text
game_identity version executable whgame = do
  v ← text version "game version" 128
  ok (record { version = v; executable = executable; whgame = whgame })

pub record TargetMod : Type 0 where
  pub mod_id : String
  pub folder_name_exact : String

-- `^[a-z0-9_]+$`
unfoldable pub is_mod_id : String → Bool
unfolding all_chars
is_mod_id s =
    not (len s == 0)
    && all_chars (λ c. leb b'a' c && leb c b'z' || leb b'0' c && leb c b'9' || c == b'_') s

unfoldable pub target_mod_identity : String → String → Result Error TargetMod
unfolding text is_mod_id
target_mod_identity mod_id folder_name_exact = do
  require (is_mod_id mod_id) bad_mod_id
  folder ← text folder_name_exact "folder_name_exact" 260
  ok (record { mod_id = mod_id; folder_name_exact = folder })

pub record DeploymentIdentity : Type 0 where
  pub candidate_id : String
  pub target_mod : TargetMod
  pub target_pak : FileIdentity
  pub target_manifest : FileIdentity
  pub mod_order : FileIdentity
  pub companion_components : List ComponentIdentity
  pub game : GameIdentity

abbrev max_companions : ℕ
max_companions = 128

-- `(item.role, item.path)`, and the order of `(item.role, item.path, item.sha256)`
abbrev companion_key : ComponentIdentity → String × String
companion_key item = (item.role, item.path)

key_eq_iff : (a b : String × String) → ((a.0 == b.0 && a.1 == b.1) ≡ true) ↔ (a ≡ b)
key_eq_iff a b = ground (arith, text_has_eq.eq_iff a.0 b.0, text_has_eq.eq_iff a.1 b.1)

instance abbrev key_has_eq : Eq (String × String)
key_has_eq = record { eq = λ a b. a.0 == b.0 && a.1 == b.1; eq_iff = λ a b. key_eq_iff a b }

companion_leb : ComponentIdentity → ComponentIdentity → Bool
companion_leb a b =
    if not (a.role == b.role)
    then str_leb a.role b.role
    else if not (a.path == b.path)
    then str_leb a.path b.path
    else str_leb a.sha256 b.sha256

-- `ExactDeploymentIdentity.__post_init__`
unfoldable pub deployment_identity : DeploymentIdentity → Result Error DeploymentIdentity
unfolding is_addressed lower is_unique sort_by companion_leb
deployment_identity given = do
  require (is_addressed "cand:sha256:" given.candidate_id) bad_candidate_id
  require (leb (length given.companion_components) max_companions) too_many_companions
  require (is_unique (map companion_key given.companion_components)) duplicate_companion
  ok (record given {
    candidate_id = lower given.candidate_id;
    companion_components = sort_by companion_leb given.companion_components;
  })
