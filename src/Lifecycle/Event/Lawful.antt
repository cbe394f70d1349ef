-- ===== src/Lifecycle/Event/Lawful.antt =====
-- What every constructed event satisfies.
use kcd2_codex_toolkit.Base.{String, true, Option, ◌≡◌, arith, text_has_eq, ok, is_addressed}
use kcd2_codex_toolkit.Deployment.Node.{DateTime}
use kcd2_codex_toolkit.Lifecycle.Types.{may_emit}
use kcd2_codex_toolkit.Lifecycle.Event.{
  EventFields, LifecycleEvent, validate_promotion_fields, optional, lifecycle_event,
}

-- The checks that the rest of the program relies on.
pub record IsLawful (e : LifecycleEvent) : Type 0 where
  pub authority : may_emit e.producer e.event_type ≡ true
  pub promotion : validate_promotion_fields e ≡ ok tt
  pub addressed : optional (is_addressed "deploy:sha256:") e.deployment_id ≡ true

-- An event that its constructor accepts is lawful: its producer may emit its type, its promotion
-- fields are complete, and its deployment identifier is absent or well-formed.
pub lifecycle_event-IsLawful :
    (fromisoformat : String → Option DateTime) (given : EventFields) {e : LifecycleEvent}
    → lifecycle_event fromisoformat given ≡ ok e
    → IsLawful e
unfolding lifecycle_event
lifecycle_event-IsLawful p g h = ground arith
