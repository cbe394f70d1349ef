-- ===== src/Approvals/Document/Records.antt =====
-- The targets of a document that is validated, read from its records.
use kcd2_codex_toolkit.Base.{
  ◌≤◌, String, true, ◌&&◌, Option, none, some, List, [], ◌∷◌, leb, ◌==◌, text_has_eq, nat_has_eq,
  length, ok, ◌>>◌, require, require-eq-ok, >>=-eq-ok, ◌≡◌, inl, inr, refl, arith, Option-cases,
  &&-true,
}
use kcd2_codex_toolkit.Base.Json.{
  Json, null, bool, int, str, arr, obj, Items, nil, cons, Fields, get, size, count, is_str,
  array_in,
}
use kcd2_codex_toolkit.Base.Json.Values.{is_str-eq, array_in-eq}
use kcd2_codex_toolkit.Approvals.Target.{bad_target_set, targets_differ, ApprovalTarget}
use kcd2_codex_toolkit.Approvals.Document.{
  is_optional_str, is_record_of, are_records_of, validate_targets,
}

-- A digest, or `null` where there is none.
abbrev pub optional_json : Option String → Json
optional_json none = null
optional_json (some s) = str s

is_optional_str-eq :
    (o : Option String) (v : Option Json) → is_optional_str o v ≡ true → v ≡ some (optional_json o)
is_optional_str-eq (some s) v h = is_str-eq s v h
is_optional_str-eq none none h = cc
is_optional_str-eq none (some null) h = refl
is_optional_str-eq none (some (str c)) h = cc
is_optional_str-eq none (some (int n)) h = cc
is_optional_str-eq none (some (obj x)) h = cc
is_optional_str-eq none (some (arr x)) h = cc
is_optional_str-eq none (some (bool x)) h = cc

-- The record names the target and its two digests, and nothing else.
pub record IsRecord (target : ApprovalTarget) (fields : Fields) : Type 0 where
  pub exact : size fields ≡ 4
  pub role : get "role" fields ≡ some (str target.role)
  pub path : get "path" fields ≡ some (str target.path)
  pub expected :
      get "expected_current_sha256" fields ≡ some (optional_json target.expected_current_sha256)
  pub proposed : get "proposed_sha256" fields ≡ some (optional_json target.proposed_sha256)

-- The records are those of the targets, in their order.
pub data AreRecords : List ApprovalTarget → Items → Type 0 where
  no_more : AreRecords [] nil
  and_more :
      {target : ApprovalTarget} {rest : List ApprovalTarget} {fields : Fields} {more : Items}
      → IsRecord target fields
      → AreRecords rest more
      → AreRecords (target ∷ rest) (cons (obj fields) more)

is_record_of-IsRecord :
    (target : ApprovalTarget) (fields : Fields)
    → is_record_of target (obj fields) ≡ true
    → IsRecord target fields
is_record_of-IsRecord target fields h =
    let (h, proposed) =
      &&-true _ (is_optional_str target.proposed_sha256 (get "proposed_sha256" fields)) h in
    let (h, expected) =
      &&-true _
        (is_optional_str target.expected_current_sha256 (get "expected_current_sha256" fields)) h in
    let (h, path) = &&-true _ (is_str target.path (get "path" fields)) h in
    let (exact, role) = &&-true (size fields == 4) (is_str target.role (get "role" fields)) h in
    record {
      exact = (nat_has_eq.eq_iff (size fields) 4).0 exact;
      role = is_str-eq target.role (get "role" fields) role;
      path = is_str-eq target.path (get "path" fields) path;
      expected =
          is_optional_str-eq target.expected_current_sha256 (get "expected_current_sha256" fields)
            expected;
      proposed = is_optional_str-eq target.proposed_sha256 (get "proposed_sha256" fields) proposed;
    }

are_records_of-AreRecords :
    (targets : List ApprovalTarget) (records : Items)
    → are_records_of targets records ≡ true
    → AreRecords targets records
are_records_of-AreRecords [] nil h = no_more
are_records_of-AreRecords [] (cons r more) h = cc
are_records_of-AreRecords (t ∷ rest) nil h = cc
are_records_of-AreRecords (t ∷ rest) (cons (obj fields) more) h =
    let (here, there) = &&-true (is_record_of t (obj fields)) _ h in
    and_more (is_record_of-IsRecord t fields here) (are_records_of-AreRecords rest more there)
are_records_of-AreRecords (t ∷ rest) (cons null more) h = cc
are_records_of-AreRecords (t ∷ rest) (cons (bool b) more) h = cc
are_records_of-AreRecords (t ∷ rest) (cons (int b) more) h = cc
are_records_of-AreRecords (t ∷ rest) (cons (str b) more) h = cc
are_records_of-AreRecords (t ∷ rest) (cons (arr b) more) h = cc

pub validate_targets-AreRecords :
    (targets : List ApprovalTarget) (v : Option Json)
    → validate_targets targets v ≡ ok tt
    → (records : Items) × (v ≡ some (arr records))
      × AreRecords targets records
      × (1 ≤ length targets)
      × (length targets ≤ 256)
unfolding validate_targets
validate_targets-AreRecords targets v h = elim (Option-cases (array_in v)) [
  | inl e ↦ ground (arith, e, h)
  | inr (records, e) ↦
      let body : (require
              (leb 1 (count records) && leb (count records) 256 && count records == length targets)
              bad_target_set
            >> require (are_records_of targets records) targets_differ)
          ≡ ok tt =
        ground (arith, e, h) in
      let (_, sized, same) =
        >>=-eq-ok
          (require
            (leb 1 (count records) && leb (count records) 256 && count records == length targets)
            bad_target_set)
          _ body in
      let bounds = require-eq-ok _ bad_target_set sized in
      (
        records,
        array_in-eq v records e,
        are_records_of-AreRecords targets records
            (require-eq-ok (are_records_of targets records) targets_differ same),
        ground (arith, bounds),
        ground (arith, bounds),
      )
]
