-- ===== src/Approvals/Document/Valid.antt =====
-- What a document that is validated says, read from its fields.
use kcd2_codex_toolkit.Base.{
  ℕ, ◌≤◌, String, Bool, true, false, ◌&&◌, Option, none, some, ltb, ◌==◌, text_has_eq, nat_has_eq,
  elem, ok, ◌>>◌, require, refuse, require-eq-ok, refuse-eq-ok, >>=-eq-ok, ◌≡◌, inl, inr, sym, ap,
  ◌∙◌, subst, arith, Bool-cases, Option-cases, &&-true,
}
use kcd2_codex_toolkit.Base.Json.{
  Json, bool, str, obj, Fields, get, size, text_in, bool_in, object_in,
}
use kcd2_codex_toolkit.Base.Json.Values.{text_in-eq, bool_in-eq, object_in-eq}
use kcd2_codex_toolkit.Deployment.Node.{DateTime}
use kcd2_codex_toolkit.Approvals.Target.{Error, not_issued, expired, bad_clock, debugger_states}
use kcd2_codex_toolkit.Approvals.Document.{
  game_closed_operations, checked_now, timestamp, expiry, is_open_until, validate_time_window,
  Preconditions, preconditions_of, process_preconditions, checked_text,
}

pub checked_text-eq-ok :
    (test : String → Bool) (e : Error) (v : Option Json) (s : String)
    → checked_text test e v ≡ ok s
    → (v ≡ some (str s)) × (test s ≡ true)
unfolding checked_text
checked_text-eq-ok test e v s h = elim (Option-cases (text_in v)) [
  | inl none_ ↦ ground (arith, none_, h)
  | inr (t, found) ↦
      let same : t ≡ s = ground (arith, found, h) in
      (text_in-eq v s (found ∙ ap some same), ground (arith, found, h))
]

-- Where an approval ends, it ends no earlier than it is issued, and no earlier than now.
abbrev pub IsOpen : Option ℕ → ℕ → ℕ → Type 0
IsOpen none issued now = Unit
IsOpen (some expires) issued now = (issued ≤ expires) × (now ≤ expires)

is_open_until-IsOpen :
    (o : Option ℕ) (issued now : ℕ) → is_open_until o issued now ≡ true → IsOpen o issued now
is_open_until-IsOpen none issued now h = tt
is_open_until-IsOpen (some expires) issued now h = (ground (arith, h), ground (arith, h))

-- When an approval may be used: it was issued, and has not expired.
pub record IsInTime (fromisoformat : String → Option DateTime) (clock : DateTime)
    (approval : Fields) : Type 0 where
  pub issued : ℕ
  pub expires : Option ℕ
  pub issued_at : timestamp fromisoformat (get "issued_at" approval) ≡ ok issued
  pub expires_at : expiry fromisoformat (get "expires_at" approval) ≡ ok expires
  pub begun : issued ≤ clock.instant
  pub not_over : IsOpen expires issued clock.instant

pub validate_time_window-IsInTime :
    (fromisoformat : String → Option DateTime) (clock : DateTime) (approval : Fields)
    → validate_time_window fromisoformat clock approval ≡ ok tt
    → IsInTime fromisoformat clock approval
unfolding validate_time_window checked_now
validate_time_window-IsInTime fromisoformat clock approval h =
    let (issued, e, h) = >>=-eq-ok (timestamp fromisoformat (get "issued_at" approval)) _ h in
    let (expires, e', h) = >>=-eq-ok (expiry fromisoformat (get "expires_at" approval)) _ h in
    let (now, clocked, h) =
      >>=-eq-ok (require clock.has_offset bad_clock >> ok clock.instant) _ h in
    let (_, issued_by, open_until) = >>=-eq-ok (refuse (ltb now issued) not_issued) _ h in
    let same : clock.instant ≡ now = ground (arith, clocked) in
    let begun : issued ≤ now = ground (arith, refuse-eq-ok (ltb now issued) not_issued issued_by) in
    record {
      issued = issued;
      expires = expires;
      issued_at = e;
      expires_at = e';
      begun = omega (arith, begun, same);
      not_over = subst (IsOpen expires issued) (sym same) (
          is_open_until-IsOpen expires issued now
            (require-eq-ok (is_open_until expires issued now) expired open_until));
    }

-- The states of the processes that the approval asks for are those of the record.
pub record IsAsked (operation : String) (v : Option Json) (process : Preconditions) : Type 0 where
  pub fields : Fields
  pub object : v ≡ some (obj fields)
  pub exact : size fields ≡ 2
  pub game_running : get "game_running" fields ≡ some (bool process.game_running)
  pub debugger_state : get "debugger_state" fields ≡ some (str process.debugger_state)
  pub known : elem process.debugger_state debugger_states ≡ true
  pub closed : elem operation game_closed_operations ≡ true → process.game_running ≡ false

preconditions_of-eq :
    (fields : Fields) (process : Preconditions)
    → preconditions_of fields ≡ some process
    → (size fields ≡ 2)
      × (get "game_running" fields ≡ some (bool process.game_running))
      × (get "debugger_state" fields ≡ some (str process.debugger_state))
      × (elem process.debugger_state debugger_states ≡ true)
unfolding preconditions_of
preconditions_of-eq fields process h = elim (Option-cases (bool_in (get "game_running" fields))) [
  | inl e ↦ ground (arith, e, h)
  | inr (game, e) ↦ elim (Option-cases (text_in (get "debugger_state" fields))) [
    | inl e' ↦ ground (arith, e, e', h)
    | inr (state, e') ↦ elim (Bool-cases (size fields == 2 && elem state debugger_states)) [
      | inl t ↦
          let same : record { game_running = game; debugger_state = state } ≡ process =
            ground (arith, e, e', t, h) in
          let (exact, known) = &&-true (size fields == 2) _ t in
          (
            (nat_has_eq.eq_iff (size fields) 2).0 exact,
            bool_in-eq (get "game_running" fields) process.game_running
                (e ∙ ap (λ (p : Preconditions). some p.game_running) same),
            text_in-eq (get "debugger_state" fields) process.debugger_state
                (e' ∙ ap (λ (p : Preconditions). some p.debugger_state) same),
            subst (λ (p : Preconditions). elem p.debugger_state debugger_states ≡ true) same known,
          )
      | inr f ↦ ground (arith, e, e', f, h)
    ]
  ]
]

pub process_preconditions-IsAsked :
    (operation : String) (v : Option Json) (process : Preconditions)
    → process_preconditions operation v ≡ ok process
    → IsAsked operation v process
unfolding process_preconditions
process_preconditions-IsAsked operation v process h = elim (Option-cases (object_in v)) [
  | inl e ↦ ground (arith, e, h)
  | inr (fields, e) ↦ elim (Option-cases (preconditions_of fields)) [
    | inl e' ↦ ground (arith, e, e', h)
    | inr (p, e') ↦
        let same : p ≡ process = ground (arith, e, e', h) in
        let (exact, game, state, known) = preconditions_of-eq fields process (e' ∙ ap some same) in
        record {
          fields = fields;
          object = object_in-eq v fields e;
          exact = exact;
          game_running = game;
          debugger_state = state;
          known = known;
          closed = λ c. ground (arith, e, e', h, c, same);
        }
  ]
]
