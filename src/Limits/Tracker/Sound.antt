-- ===== src/Limits/Tracker/Sound.antt =====
-- The invariant of the tracker: counters in range, and a diagnostic exactly for each limit reached.
use kcd2_codex_toolkit.Base.{
  ℕ, ◌+◌, ◌-◌, ◌≤◌, String, Bool, true, false, Option, none, some, leb, ltb, ◌==◌, text_has_eq,
  nat_has_eq, length, len, Result, ok, err, refuse, ◌≡◌, arith, Bool-cases, inl, inr, leb→le,
}
use kcd2_codex_toolkit.Base.Json.{ℤ}
use kcd2_codex_toolkit.Base.Exec.{after, ◌>>=◌, lift}
use kcd2_codex_toolkit.Limits.{
  integer_max, LimitName, max_events, max_captures, max_event_families, max_total_bytes, max_fields,
  max_string_chars, max_memory_region_bytes, limit_name_has_eq, Error, bad_family,
}
use kcd2_codex_toolkit.Limits.Tracker.{
  Tracker, LimitDiagnostic, recorded, set_usage, increment, require_increment_capacity, add_family,
  set_sizes, write_event, write_capture, consume_event, consume_capture, observe, Action,
  require_count, recount,
}

abbrev pub is_none : Option LimitDiagnostic → Bool
is_none none = true
is_none (some d) = false

pub record IsSound (t : Tracker) : Type 0 where
  pub in_bounds : (name : LimitName) → t.usage name ≤ integer_max
  pub reported :
      (name : LimitName) → is_none (t.diagnostics name) ≡ ltb (t.usage name) (t.limits name)

recorded-in_bounds :
    (t : Tracker) (name other : LimitName) (observed : ℕ)
    → observed ≤ integer_max
    → t.usage other ≤ integer_max
    → (recorded name observed t).usage other ≤ integer_max
unfolding recorded
recorded-in_bounds t name other observed h u = ground (arith, limit_name_has_eq.eq_iff name other)

recorded-reported :
    (t : Tracker) (name other : LimitName) (observed : ℕ)
    → is_none (t.diagnostics other) ≡ ltb (t.usage other) (t.limits other)
    → is_none ((recorded name observed t).diagnostics other)
      ≡ ltb ((recorded name observed t).usage other) (t.limits other)
unfolding recorded
recorded-reported t name other observed r = ground (arith, limit_name_has_eq.eq_iff name other)

-- One write keeps the invariant.
pub recorded-IsSound :
    (t : Tracker) (name : LimitName) (observed : ℕ)
    → observed ≤ integer_max
    → IsSound t
    → IsSound (recorded name observed t)
unfolding recorded
recorded-IsSound t name observed h s = record {
  in_bounds = λ other. recorded-in_bounds t name other observed h (s.in_bounds other);
  reported = λ other. recorded-reported t name other observed (s.reported other);
}

-- A method that keeps the invariant, whether it raises or not.
abbrev Keeps : {A : Type 0} → Action A → Type 0
Keeps m = (t : Tracker) → IsSound t → IsSound ((m t).1)

after-Keeps :
    {A B : Type 0} (p : Result Error A × Tracker) (k : A → Action B)
    → IsSound (p.1)
    → ((a : A) → Keeps (k a))
    → IsSound ((after p k).1)
after-Keeps (ok a, t) k s next = next a t s
after-Keeps (err e, t) k s next = s

>>=-Keeps :
    {A B : Type 0} (m : Action A) (k : A → Action B)
    → Keeps m
    → ((a : A) → Keeps (k a))
    → Keeps (m >>= k)
>>=-Keeps m k keeps next t s = after-Keeps (m t) k (keeps t s) next

set_usage-Keeps : (name : LimitName) (observed : ℕ) → Keeps (set_usage name observed)
unfolding set_usage recount
set_usage-Keeps name observed t s = elim (Bool-cases (leb observed integer_max)) [
  | inl e ↦ rw e (recorded-IsSound t name observed (leb→le observed integer_max e) s)
  | inr e ↦ rw e s
]

require_increment_capacity-Keeps :
    (name : LimitName) (amount : ℕ) → Keeps (require_increment_capacity name amount)
unfolding require_increment_capacity
require_increment_capacity-Keeps name amount t s =
    elim (Bool-cases (ltb (integer_max - t.usage name) amount)) [ inl e ↦ rw e s | inr e ↦ rw e s ]

increment-Keeps : (name : LimitName) (amount : ℕ) → Keeps (increment name amount)
unfolding increment
increment-Keeps name amount =
    >>=-Keeps (lift (recount amount name)) _ (λ t s. s)
      (λ _.
        >>=-Keeps (require_increment_capacity name amount) _
          (require_increment_capacity-Keeps name amount)
          (λ _ t s. set_usage-Keeps name (t.usage name + amount) t s))

set_sizes-Keeps : (fields chars memory : ℕ) → Keeps (set_sizes fields chars memory)
unfolding set_sizes
set_sizes-Keeps fields chars memory =
    >>=-Keeps (set_usage max_fields fields) _ (set_usage-Keeps max_fields fields) (λ _.
      >>=-Keeps (set_usage max_string_chars chars) _ (set_usage-Keeps max_string_chars chars) (λ _.
        >>=-Keeps (set_usage max_memory_region_bytes memory) _
          (set_usage-Keeps max_memory_region_bytes memory) (λ _ t s. s)))

add_family-IsSound : (family : String) (t : Tracker) → IsSound t → IsSound (add_family family t)
unfolding add_family
add_family-IsSound family t s = record { in_bounds = s.in_bounds; reported = s.reported }

write_event-Keeps :
    (family : String) (bytes fields chars memory : ℕ)
    → Keeps (write_event family bytes fields chars memory)
unfolding write_event
write_event-Keeps family bytes fields chars memory t s =
    >>=-Keeps (set_usage max_event_families (length (add_family family t).families)) _
      (set_usage-Keeps max_event_families _)
      (λ _. >>=-Keeps (increment max_events 1) _ (increment-Keeps max_events 1) (λ _.
        >>=-Keeps (increment max_total_bytes bytes) _ (increment-Keeps max_total_bytes bytes) (λ _.
          >>=-Keeps (set_sizes fields chars memory) _ (set_sizes-Keeps fields chars memory)
            (λ _ t s. s))))
      (add_family family t) (add_family-IsSound family t s)

write_capture-Keeps :
    (bytes fields chars memory : ℕ) → Keeps (write_capture bytes fields chars memory)
unfolding write_capture
write_capture-Keeps bytes fields chars memory =
    >>=-Keeps (increment max_captures 1) _ (increment-Keeps max_captures 1) (λ _.
      >>=-Keeps (increment max_total_bytes bytes) _ (increment-Keeps max_total_bytes bytes) (λ _.
        >>=-Keeps (set_sizes fields chars memory) _ (set_sizes-Keeps fields chars memory)
          (λ _ t s. s)))

-- A value that is computed without the tracker.
lift-Keeps :
    {A B : Type 0} (r : Result Error A) (k : A → Action B)
    → ((a : A) → Keeps (k a))
    → Keeps (lift r >>= k)
lift-Keeps r k next = >>=-Keeps (lift r) k (λ t s. s) next

-- Consuming an event keeps the invariant of the tracker, whether it is accepted or raises.
pub consume_event-IsSound :
    (t : Tracker) (family : String) (bytes fields chars memory : ℤ)
    → IsSound t
    → IsSound ((consume_event family bytes fields chars memory t).1)
unfolding consume_event
consume_event-IsSound t family bytes fields chars memory =
    lift-Keeps (refuse (len family == 0) bad_family) _
      (λ _. lift-Keeps (require_count bytes max_total_bytes) _ (λ b.
        lift-Keeps (require_count fields max_fields) _ (λ f.
          lift-Keeps (require_count chars max_string_chars) _ (λ c.
            lift-Keeps (require_count memory max_memory_region_bytes) _ (λ m.
              >>=-Keeps (require_increment_capacity max_events 1) _
                (require_increment_capacity-Keeps max_events 1)
                (λ _.
                  >>=-Keeps (require_increment_capacity max_total_bytes b) _
                    (require_increment_capacity-Keeps max_total_bytes b)
                    (λ _. write_event-Keeps family b f c m)))))))
      t

-- Consuming a capture keeps the invariant of the tracker, whether it is accepted or raises.
pub consume_capture-IsSound :
    (t : Tracker) (bytes fields chars memory : ℤ)
    → IsSound t
    → IsSound ((consume_capture bytes fields chars memory t).1)
unfolding consume_capture
consume_capture-IsSound t bytes fields chars memory =
    lift-Keeps (require_count bytes max_total_bytes) _
      (λ b. lift-Keeps (require_count fields max_fields) _ (λ f.
        lift-Keeps (require_count chars max_string_chars) _ (λ c.
          lift-Keeps (require_count memory max_memory_region_bytes) _ (λ m.
            >>=-Keeps (require_increment_capacity max_captures 1) _
              (require_increment_capacity-Keeps max_captures 1)
              (λ _.
                >>=-Keeps (require_increment_capacity max_total_bytes b) _
                  (require_increment_capacity-Keeps max_total_bytes b)
                  (λ _. write_capture-Keeps b f c m))))))
      t

-- Recording an observed value keeps the invariant of the tracker, whether it is accepted or
-- raises.
pub observe-IsSound :
    (t : Tracker) (name : LimitName) (n : ℤ) → IsSound t → IsSound ((observe name n t).1)
unfolding observe
observe-IsSound t name n = lift-Keeps (require_count n name) _ (set_usage-Keeps name) t
