-- ===== src/Correlation/Proven.antt =====
-- What a contract to which nothing is objected proves.
use kcd2_codex_toolkit.Correlation.Added.{
  unless-nil, unless_of-nil, ⊕-nil, in_set-eq, text_passes-eq,
}
use kcd2_codex_toolkit.Correlation.Evidence.{
  IsEvidence, IsLocated, valid_evidence-IsEvidence, validate_location-IsLocated,
}
use kcd2_codex_toolkit.Base.{
  String, ◌<>◌, true, ◌&&◌, Option, none, some, [], ◌∷◌, text_has_eq, nat_has_eq, elem, All,
  all_of-All, ◌≡◌, inl, inr, arith, Bool-cases, Option-cases, &&-true,
}
use kcd2_codex_toolkit.Base.Json.{Json, bool, str, obj, Fields, get, is_str, is_bool, object_in}
use kcd2_codex_toolkit.Base.Json.Values.{is_str-eq, is_true-eq, object_in-eq}
use kcd2_codex_toolkit.Correlation.Proof.{
  unless, unless_of, ◌⊕◌, in_set, is_checkpoint, same_hash, valid_evidence, validate_location,
  validate_owner, validate_caller_return, validate_lifetime, proven_claims, validate_receipt,
  validate_x64dbg,
}

module _ (casefold : String → String) (module_sha256 : String) where
  -- The function owns both the query and the output, by static evidence.
  unfoldable pub IsOwner : Option Json → Type 0
  IsOwner owner =
      (fields : Fields) × (owner ≡ some (obj fields))
      × IsLocated casefold module_sha256 fields "function_rva"
      × (get "owns_query" fields ≡ some (bool true))
      × (get "owns_output" fields ≡ some (bool true))
      × IsEvidence casefold module_sha256 (some "static") (get "static_evidence" fields)

  pub validate_owner-IsOwner :
      (owner : Option Json) (path : String)
      → validate_owner casefold owner module_sha256 path ≡ some []
      → IsOwner owner
  unfolding validate_owner IsOwner
  validate_owner-IsOwner owner path h = elim (Option-cases (object_in owner)) [
    | inl e ↦ ground (arith, e, h)
    | inr (fields, e) ↦
        let body : validate_location casefold fields module_sha256 "function_rva" path
              ⊕ (unless
                    (is_bool true (get "owns_query" fields)
                      && is_bool true (get "owns_output" fields))
                    "OWNER_QUERY_OUTPUT_NOT_PROVEN" path
                  ⊕ unless_of
                      (valid_evidence casefold (some "static") module_sha256
                        (get "static_evidence" fields))
                      "OWNER_STATIC_EVIDENCE_REQUIRED" (path <> ".static_evidence"))
            ≡ some [] =
          ground (arith, e, h) in
        let (located, rest) = ⊕-nil _ _ body in
        let (owns, cited) = ⊕-nil _ _ rest in
        let (query, output) =
          &&-true (is_bool true (get "owns_query" fields)) (is_bool true (get "owns_output" fields))
            (unless-nil _ _ _ owns) in
        (
          fields,
          object_in-eq owner fields e,
          validate_location-IsLocated casefold module_sha256 fields "function_rva" path located,
          is_true-eq (get "owns_query" fields) query,
          is_true-eq (get "owns_output" fields) output,
          valid_evidence-IsEvidence casefold module_sha256 (some "static")
              (get "static_evidence" fields) (unless_of-nil _ _ _ cited),
        )
  ]

  -- A lock on one call or one return of the module, by static evidence.
  unfoldable pub IsLocked : Option Json → Type 0
  IsLocked lock =
      (fields : Fields) × (lock ≡ some (obj fields))
      × ((kind : String) × (get "lock_kind" fields ≡ some (str kind))
          × (elem kind ("exact_caller_rva" ∷ "exact_return_rva" ∷ []) ≡ true))
      × IsLocated casefold module_sha256 fields "lock_rva"
      × IsEvidence casefold module_sha256 (some "static") (get "static_evidence" fields)

  pub validate_caller_return-IsLocked :
      (lock : Option Json) (path : String)
      → validate_caller_return casefold lock module_sha256 path ≡ some []
      → IsLocked lock
  unfolding validate_caller_return IsLocked
  validate_caller_return-IsLocked lock path h = elim (Option-cases (object_in lock)) [
    | inl e ↦ ground (arith, e, h)
    | inr (fields, e) ↦
        let body : unless_of
                (in_set ("exact_caller_rva" ∷ "exact_return_rva" ∷ []) (get "lock_kind" fields))
                "CALLER_RETURN_LOCK_KIND_INVALID" (path <> ".lock_kind")
              ⊕ (validate_location casefold fields module_sha256 "lock_rva" path
                  ⊕ unless_of
                      (valid_evidence casefold (some "static") module_sha256
                        (get "static_evidence" fields))
                      "CALLER_RETURN_STATIC_EVIDENCE_REQUIRED" (path <> ".static_evidence"))
            ≡ some [] =
          ground (arith, e, h) in
        let (kind, rest) = ⊕-nil _ _ body in
        let (located, cited) = ⊕-nil _ _ rest in
        (
          fields,
          object_in-eq lock fields e,
          in_set-eq ("exact_caller_rva" ∷ "exact_return_rva" ∷ []) (get "lock_kind" fields)
              (unless_of-nil _ _ _ kind),
          validate_location-IsLocated casefold module_sha256 fields "lock_rva" path located,
          valid_evidence-IsEvidence casefold module_sha256 (some "static")
              (get "static_evidence" fields) (unless_of-nil _ _ _ cited),
        )
  ]

  -- Evidence of the lifetime in the storage, and of the routing beside it.
  unfoldable pub IsLifetime : String → Option Json → Type 0
  IsLifetime storage proof =
      (fields : Fields) × (proof ≡ some (obj fields))
      × (get "storage" fields ≡ some (str storage))
      × IsEvidence casefold module_sha256 none (get "lifetime_evidence" fields)
      × IsEvidence casefold module_sha256 none (get "routing_evidence" fields)

  pub validate_lifetime-IsLifetime :
      (proof : Option Json) (storage prefix path : String)
      → validate_lifetime casefold proof module_sha256 storage prefix path ≡ some []
      → IsLifetime storage proof
  unfolding validate_lifetime IsLifetime
  validate_lifetime-IsLifetime proof storage prefix path h = elim (Option-cases (object_in proof)) [
    | inl e ↦ ground (arith, e, h)
    | inr (fields, e) ↦ elim (Bool-cases (is_str storage (get "storage" fields))) [
      | inr other ↦ ground (arith, e, other, h)
      | inl stored ↦
          let body : unless_of
                  (valid_evidence casefold none module_sha256 (get "lifetime_evidence" fields))
                  (prefix <> "_LIFETIME_PROOF_REQUIRED")
                  (path <> ".lifetime_proof.lifetime_evidence")
                ⊕ unless_of
                    (valid_evidence casefold none module_sha256 (get "routing_evidence" fields))
                    "CALL_ROUTING_PROOF_REQUIRED" (path <> ".lifetime_proof.routing_evidence")
              ≡ some [] =
            ground (arith, e, stored, h) in
          let (alive, routed) = ⊕-nil _ _ body in
          (
            fields,
            object_in-eq proof fields e,
            is_str-eq storage (get "storage" fields) stored,
            valid_evidence-IsEvidence casefold module_sha256 none (get "lifetime_evidence" fields)
                (unless_of-nil _ _ _ alive),
            valid_evidence-IsEvidence casefold module_sha256 none (get "routing_evidence" fields)
                (unless_of-nil _ _ _ routed),
          )
    ]
  ]

  -- A debugger receipt for the module, between two checkpoints, with each proof and runtime evidence.
  unfoldable pub IsReceipt : Option Json → Type 0
  IsReceipt proof =
      (fields : Fields) × (proof ≡ some (obj fields))
      × (same_hash casefold (get "module_sha256" fields) module_sha256 ≡ true)
      × ((s : String) × (get "source_checkpoint" fields ≡ some (str s)) × (is_checkpoint s ≡ true))
      × ((t : String) × (get "target_checkpoint" fields ≡ some (str t)) × (is_checkpoint t ≡ true))
      × All (λ claim. is_bool true (get claim fields) ≡ true) proven_claims
      × IsEvidence casefold module_sha256 (some "runtime") (get "runtime_evidence" fields)

  validate_receipt-eq :
      (fields : Fields) (path : String)
      → validate_receipt casefold fields module_sha256 path ≡ some []
      → (same_hash casefold (get "module_sha256" fields) module_sha256 ≡ true)
        × ((s : String) × (get "source_checkpoint" fields ≡ some (str s))
            × (is_checkpoint s ≡ true))
        × ((t : String) × (get "target_checkpoint" fields ≡ some (str t))
            × (is_checkpoint t ≡ true))
        × All (λ claim. is_bool true (get claim fields) ≡ true) proven_claims
        × IsEvidence casefold module_sha256 (some "runtime") (get "runtime_evidence" fields)
  unfolding validate_receipt
  validate_receipt-eq fields path h =
      let (bound, h) = ⊕-nil _ _ h in
      let (_, h) = ⊕-nil _ _ h in
      let (_, h) = ⊕-nil _ _ h in
      let (_, h) = ⊕-nil _ _ h in
      let (source, h) = ⊕-nil _ _ h in
      let (target, h) = ⊕-nil _ _ h in
      let (proven, cited) = ⊕-nil _ _ h in
      (
        unless-nil _ _ _ bound,
        text_passes-eq is_checkpoint (get "source_checkpoint" fields) (unless-nil _ _ _ source),
        text_passes-eq is_checkpoint (get "target_checkpoint" fields) (unless-nil _ _ _ target),
        all_of-All (λ claim. is_bool true (get claim fields)) proven_claims
            (unless-nil _ _ _ proven),
        valid_evidence-IsEvidence casefold module_sha256 (some "runtime")
            (get "runtime_evidence" fields) (unless_of-nil _ _ _ cited),
      )

  pub validate_x64dbg-IsReceipt :
      (proof : Option Json) (path : String)
      → validate_x64dbg casefold proof module_sha256 path ≡ some []
      → IsReceipt proof
  unfolding validate_x64dbg IsReceipt
  validate_x64dbg-IsReceipt proof path h = elim (Option-cases (object_in proof)) [
    | inl e ↦ ground (arith, e, h)
    | inr (fields, e) ↦
        let body : validate_receipt casefold fields module_sha256 path ≡ some [] =
          ground (arith, e, h) in
        let (bound, source, target, proven, cited) = validate_receipt-eq fields path body in
        (fields, object_in-eq proof fields e, bound, source, target, proven, cited)
  ]
