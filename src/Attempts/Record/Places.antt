-- ===== src/Attempts/Record/Places.antt =====
-- The order of the phases, and the names of their receipts in it.
use kcd2_codex_toolkit.Base.{
  ℕ, suc, ◌≤◌, String, Bool, true, false, not, ◌||◌, Option, none, some, List, [], ◌∷◌, leb,
  text_has_eq, str_leb, All, all_of, all_of-All, ok, ◌≡◌, refl, arith,
}
use kcd2_codex_toolkit.Attempts.Phase.{
  AttemptPhase, created, source_prepared, built, validated, install_planned, approved, installed,
  verified, failed, ordinal, file_name, phases, named_among, is_terminal,
}
use kcd2_codex_toolkit.Attempts.Receipt.{check_order}

-- The place of a phase among the phases, from 1; 0 before the first receipt.
abbrev pub position : AttemptPhase → ℕ
position created = 1
position source_prepared = 2
position built = 3
position validated = 4
position install_planned = 5
position approved = 6
position installed = 7
position verified = 8
position failed = 9

abbrev pub place : Option AttemptPhase → ℕ
place none = 0
place (some p) = position p

pub check_order-place :
    (last : Option AttemptPhase) (next : AttemptPhase)
    → check_order last next ≡ ok tt
    → suc (place last) ≤ position next
unfolding check_order
check_order-place last next h = ground (arith, h)

pub position-ordinal : (p q : AttemptPhase) → position p ≤ position q → ordinal p ≤ ordinal q
position-ordinal p q h = ground (arith, h)

pub position-bound : (p : AttemptPhase) → is_terminal p ≡ false → position p ≤ 7
position-bound p h = ground (arith, h)

pub named_among_self : (p : AttemptPhase) → named_among (file_name p) phases ≡ some p
named_among_self created = refl
named_among_self source_prepared = refl
named_among_self built = refl
named_among_self validated = refl
named_among_self install_planned = refl
named_among_self approved = refl
named_among_self installed = refl
named_among_self verified = refl
named_among_self failed = refl

pub named_among-name :
    (name : String) (l : List AttemptPhase) (p : AttemptPhase)
    → named_among name l ≡ some p
    → file_name p ≡ name
named_among-name name [] p h = cc
named_among-name name (q ∷ l) p h =
    ground (arith, h, text_has_eq.eq_iff (file_name q) name, named_among-name name l p)

abbrev in_name_order : AttemptPhase → AttemptPhase → Bool
in_name_order p q = not (leb (position p) (position q)) || str_leb (file_name p) (file_name q)

every_phase : (P : AttemptPhase → Type 0) → All P phases → (p : AttemptPhase) → P p
every_phase P h created = h.0
every_phase P h source_prepared = h.1.0
every_phase P h built = h.1.1.0
every_phase P h validated = h.1.1.1.0
every_phase P h install_planned = h.1.1.1.1.0
every_phase P h approved = h.1.1.1.1.1.0
every_phase P h installed = h.1.1.1.1.1.1.0
every_phase P h verified = h.1.1.1.1.1.1.1.0
every_phase P h failed = h.1.1.1.1.1.1.1.1.0

all_in_name_order : all_of (λ p. all_of (in_name_order p) phases) phases ≡ true
all_in_name_order = refl

pub file_name-str_leb :
    (p q : AttemptPhase) → position p ≤ position q → str_leb (file_name p) (file_name q) ≡ true
file_name-str_leb p q h =
    let row =
      every_phase (λ p. all_of (in_name_order p) phases ≡ true)
        (all_of-All (λ p. all_of (in_name_order p) phases) phases all_in_name_order) p in
    let cell =
      every_phase (λ q. in_name_order p q ≡ true) (all_of-All (in_name_order p) phases row) q in
    ground (arith, cell, h)
