-- ===== src/Events/Admission.antt =====
-- backend/app/events.py: `_publish_to_queue` with the queue traffic computed away.
use mathlib.Core.Path.{fun_ext}
use pocage.Prelude.{
  ℕ, ◌≤◌, ◌<◌, ◌≡◌, refl, ap, Bool, true, false, not, [], ◌∷◌, ◌++◌, arith, length, any,
  if◌then◌else◌, leb, inl, inr, Bool-cases, eq_iff, ◌==◌, one_of-disjoint, drop,
}
use pocage.Events.Queue.{
  StreamEvent, Queue, is_critical, is_coalescing, is_low_priority, put_nowait, drop_oldest,
  coalesce, force_put, replace_low_priority, admit, critical_event_types, low_priority_event_types,
}
use pocage.Events.Drain.{
  remove_first, length-remove_first, remove_first-none, drop_first_matching_lem,
}

pub critical-not_low_priority : (e : StreamEvent) → is_critical e ≡ true → is_low_priority e ≡ false
unfolding is_critical is_low_priority
critical-not_low_priority e h =
    one_of-disjoint e.event_type critical_event_types low_priority_event_types h
      (refl, (refl, (refl, (refl, (refl, tt)))))

pub coalescing-low_priority :
    (e : StreamEvent) → is_low_priority e ≡ false → is_coalescing e ≡ false
unfolding is_coalescing is_low_priority
coalescing-low_priority e h = ground arith

same_type :
    (e : StreamEvent)
    → is_coalescing e ≡ true
    → ◌≡◌ {A = StreamEvent → Bool} (λ current. current.event_type == e.event_type) is_coalescing
unfolding is_coalescing
same_type e h = fun_ext λ current. ground (arith, eq_iff e.event_type "run.session_update")

-- The queue that `coalesce` leaves: a session update takes the place of an older one.
pub coalesce_lem :
    (maxsize : ℕ) (q : Queue) (e : StreamEvent)
    → length q ≤ maxsize
    → coalesce maxsize q e ≡ (if is_coalescing e then remove_first is_coalescing q else q)
unfolding coalesce
coalesce_lem maxsize q e h = elim (Bool-cases (is_coalescing e)) [
  | inl c ↦
      rw (c, coalesce, same_type e c)
        (ap (λ r. r.0) (drop_first_matching_lem maxsize is_coalescing q h))
  | inr c ↦ rw (c, coalesce) refl
]

-- What `admit` does, with the queue traffic computed away.
abbrev pub admitted : ℕ → Queue → StreamEvent → Queue
admitted maxsize q e =
    if not (leb maxsize (length q))
    then q ++ e ∷ []
    else if is_critical e
    then (if any is_low_priority q then remove_first is_low_priority q else drop 1 q) ++ e ∷ []
    else if any is_low_priority q
    then remove_first is_low_priority q ++ e ∷ []
    else q

pub admit_lem :
    (maxsize : ℕ) (q : Queue) (e : StreamEvent)
    → length q ≤ maxsize
    → 0 < maxsize
    → admit maxsize q e ≡ admitted maxsize q e
unfolding admit force_put replace_low_priority put_nowait drop_oldest
admit_lem maxsize [] e h pos = ground (arith, drop_first_matching_lem maxsize is_low_priority [])
admit_lem maxsize (x ∷ q) e h pos = ground (
  arith,
  drop_first_matching_lem maxsize is_low_priority (x ∷ q),
  length-remove_first is_low_priority (x ∷ q),
  remove_first-none is_low_priority (x ∷ q),
)
