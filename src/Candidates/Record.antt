-- ===== src/Candidates/Record.antt =====
-- Aliases, lineage edges and the record that binds them to a candidate's identity.
use kcd2_codex_toolkit.Base.{
  ℕ, String, true, ◌&&◌, Option, none, some, List, [], ◌∷◌, map, leb, ◌==◌, text_has_eq,
  text_discrete, ℕ_discrete, Eq, eq_of_discrete, elem, is_unique, length, any_of, Result, ok, ◌>>=◌,
  ◌>>◌, require, refuse, ◌≡◌, ◌↔◌, arith,
}
use kcd2_codex_toolkit.Base.Json.{Json, ℤ}
use kcd2_codex_toolkit.Candidates.Identity.{
  Error, bad_alias_type, bad_edge_type, id_mismatch, too_many_aliases, duplicate_alias,
  too_many_edges, duplicate_edge, self_edge, bounded_string, checked_sha256, checked_candidate_id,
  checked_refs, checked_bytes, CandidateIdentity,
}
use kcd2_codex_toolkit.Candidates.Payload.{canonical_candidate_id}

pub record CandidateAlias : Type 0 where
  pub label : String
  pub alias_type : String
  pub variant_key : Option String

abbrev alias_types : List String
alias_types = "human_candidate_label" ∷ "version" ∷ "release_name" ∷ "historical_report_label" ∷ []

unfoldable pub checked_variant_key : Option String → Result Error (Option String)
checked_variant_key none = ok none
checked_variant_key (some key) = do k ← bounded_string key "variant_key" 1 256; ok (some k)

unfoldable pub candidate_alias : String → String → Option String → Result Error CandidateAlias
candidate_alias label alias_type variant_key = do
  l ← bounded_string label "alias label" 1 256
  require (elem alias_type alias_types) bad_alias_type
  k ← checked_variant_key variant_key
  ok (record { label = l; alias_type = alias_type; variant_key = k })

pub record LineageEdge : Type 0 where
  pub edge_type : String
  pub other_candidate_id : String
  pub evidence_refs : List String

abbrev edge_types : List String
edge_types = "derived_from" ∷ "rebuilt_from" ∷ "variant_of" ∷ "supersedes" ∷ "rollback_of" ∷ []

unfoldable pub lineage_edge : String → String → List String → Result Error LineageEdge
lineage_edge edge_type other_candidate_id evidence_refs = do
  require (elem edge_type edge_types) bad_edge_type
  other ← checked_candidate_id other_candidate_id "other_candidate_id"
  refs ← checked_refs evidence_refs
  ok (record { edge_type = edge_type; other_candidate_id = other; evidence_refs = refs })

pub record CandidateRecord : Type 0 where
  pub candidate_id : String
  pub identity : CandidateIdentity
  pub aliases : List CandidateAlias
  pub lineage : List LineageEdge

unfoldable pub alias_discrete : Discrete CandidateAlias
unfolding text_discrete
alias_discrete = hlevel text_discrete

instance abbrev pub alias_has_eq : Eq CandidateAlias
unfolding alias_discrete
alias_has_eq = eq_of_discrete alias_discrete

unfoldable pub record_discrete : Discrete CandidateRecord
unfolding text_discrete ℕ_discrete
record_discrete = hlevel (text_discrete, ℕ_discrete)

instance abbrev pub record_has_eq : Eq CandidateRecord
unfolding record_discrete
record_has_eq = eq_of_discrete record_discrete

-- `(edge.edge_type, edge.other_candidate_id)`
abbrev edge_key : LineageEdge → String × String
edge_key e = (e.edge_type, e.other_candidate_id)

edge_key_eq_iff : (a b : String × String) → ((a.0 == b.0 && a.1 == b.1) ≡ true) ↔ (a ≡ b)
edge_key_eq_iff a b = ground (arith, text_has_eq.eq_iff a.0 b.0, text_has_eq.eq_iff a.1 b.1)

instance abbrev edge_key_has_eq : Eq (String × String)
edge_key_has_eq = record {
  eq = λ a b. a.0 == b.0 && a.1 == b.1;
  eq_iff = λ a b. edge_key_eq_iff a b;
}

-- `CandidateRecord.__post_init__`, for the hash of the canonical encoding
unfoldable pub candidate_record : (Json → String) → CandidateRecord → Result Error CandidateRecord
candidate_record sha256 given = do
  candidate_id ← checked_candidate_id given.candidate_id "candidate_id"
  require (candidate_id == canonical_candidate_id sha256 given.identity) id_mismatch
  require (leb (length given.aliases) 64) too_many_aliases
  require (is_unique given.aliases) duplicate_alias
  require (leb (length given.lineage) 128) too_many_edges
  require (is_unique (map edge_key given.lineage)) duplicate_edge
  refuse (any_of (λ e. e.other_candidate_id == candidate_id) given.lineage) self_edge
  ok (record given { candidate_id = candidate_id })

pub record InstalledArtifact : Type 0 where
  pub candidate_id : String
  pub logical_path : String
  pub sha256 : String
  pub bytes : ℕ

-- `InstalledArtifact.__post_init__`; its refusal of the size is `bad_bytes` here too
unfoldable pub installed_artifact : String → String → String → ℤ → Result Error InstalledArtifact
installed_artifact candidate_id logical_path sha256 bytes = do
  i ← checked_candidate_id candidate_id "candidate_id"
  p ← bounded_string logical_path "logical_path" 1 2048
  d ← checked_sha256 sha256 "installed sha256"
  n ← checked_bytes bytes
  ok (record { candidate_id = i; logical_path = p; sha256 = d; bytes = n })
