-- ===== src/Events/Policy.antt =====
-- backend/app/events.py: what `_publish_to_queue` promises to a subscriber.
use mathlib.Core.List.{Sublistᴰ}
use mathlib.Core.List
use pocage.Prelude.{
  ℕ, ◌+◌, ◌≤◌, ◌<◌, ◌≡◌, ◌∙◌, Bool, true, false, not, [], ◌∷◌, ◌++◌, arith, length, length-append,
  append-nil, any-filter, sublist-snoc, sublist-append_right, sublist-drop_one,
  sublist-length-filter, filter, filter-append, any, if◌then◌else◌, leb, ◌⊎◌, inl, inr, Bool-cases,
  drop,
}
use pocage.Events.Queue.{
  StreamEvent, Queue, is_critical, is_coalescing, is_low_priority, coalesce, publish_to_queue,
}
use pocage.Events.Drain.{
  remove_first, length-remove_first, remove_first-sublist, filter-remove_first,
  length-filter-remove_first,
}
use pocage.Events.Admission.{
  critical-not_low_priority, coalescing-low_priority, coalesce_lem, admitted, admit_lem,
}

module _ (maxsize : ℕ) (q : Queue) (e : StreamEvent) (bounded : length q ≤ maxsize) where
  length-coalesce : length (coalesce maxsize q e) ≤ length q
  length-coalesce = ground (arith, coalesce_lem maxsize q e, length-remove_first is_coalescing q)

  module _ (pos : 0 < maxsize) where
    publish_lem : publish_to_queue maxsize q e ≡ admitted maxsize (coalesce maxsize q e) e
    unfolding publish_to_queue
    publish_lem = admit_lem maxsize (coalesce maxsize q e) e (omega (arith, length-coalesce)) pos

length-admitted :
    (maxsize : ℕ) (q : Queue) (e : StreamEvent)
    → length q ≤ maxsize
    → 0 < maxsize
    → length (admitted maxsize q e) ≤ maxsize
length-admitted maxsize [] e h pos = ground (arith)
length-admitted maxsize (x ∷ q) e h pos = ground (
  arith,
  length-append (x ∷ q) (e ∷ []),
  length-append q (e ∷ []),
  length-append (remove_first is_low_priority (x ∷ q)) (e ∷ []),
  length-remove_first is_low_priority (x ∷ q),
)

-- A queue within a positive bound stays within it, whatever is published.
pub length-publish_to_queue :
    (maxsize : ℕ) (q : Queue) (e : StreamEvent)
    → length q ≤ maxsize
    → 0 < maxsize
    → length (publish_to_queue maxsize q e) ≤ maxsize
length-publish_to_queue maxsize q e h pos = rw (publish_lem maxsize q e h pos) (
    length-admitted maxsize (coalesce maxsize q e) e (omega (arith, length-coalesce maxsize q e h))
      pos)

low_priority-not_critical : (e : StreamEvent) → is_low_priority e ≡ true → is_critical e ≡ false
low_priority-not_critical e h = elim (Bool-cases (is_critical e)) [
  | inl c ↦ ground (arith, critical-not_low_priority e c)
  | inr c ↦ c
]

coalescing-not_critical : (e : StreamEvent) → is_coalescing e ≡ true → is_critical e ≡ false
coalescing-not_critical e h = elim (Bool-cases (is_low_priority e)) [
  | inl l ↦ low_priority-not_critical e l
  | inr l ↦ ground (arith, coalescing-low_priority e l)
]

coalesce_critical :
    (maxsize : ℕ) (q : Queue) (e : StreamEvent)
    → length q ≤ maxsize
    → is_critical e ≡ true
    → coalesce maxsize q e ≡ q
coalesce_critical maxsize q e h c =
    ground (arith, coalesce_lem maxsize q e h, coalescing-not_critical e)

-- The events that make room for a critical one.
abbrev kept_for : ℕ → Queue → Queue
kept_for maxsize q =
    if not (leb maxsize (length q))
    then q
    else if any is_low_priority q
    then remove_first is_low_priority q
    else drop 1 q

publish_critical :
    (maxsize : ℕ) (q : Queue) (e : StreamEvent)
    → length q ≤ maxsize
    → 0 < maxsize
    → is_critical e ≡ true
    → publish_to_queue maxsize q e ≡ kept_for maxsize q ++ e ∷ []
publish_critical maxsize q e h pos c =
    rw (publish_lem maxsize q e h pos, coalesce_critical maxsize q e h c) (ground arith)

-- In a queue within a positive bound, a critical event is always delivered: it is the last event.
pub publish-critical_last :
    (maxsize : ℕ) (q : Queue) (e : StreamEvent)
    → length q ≤ maxsize
    → 0 < maxsize
    → is_critical e ≡ true
    → (kept : Queue) × (publish_to_queue maxsize q e ≡ kept ++ e ∷ [])
publish-critical_last maxsize q e h pos c =
    (kept_for maxsize q, publish_critical maxsize q e h pos c)

filter-remove_low :
    (q : Queue) → filter is_critical (remove_first is_low_priority q) ≡ filter is_critical q
filter-remove_low q = filter-remove_first is_low_priority is_critical q low_priority-not_critical

filter-coalesce :
    (maxsize : ℕ) (q : Queue) (e : StreamEvent)
    → length q ≤ maxsize
    → filter is_critical (coalesce maxsize q e) ≡ filter is_critical q
filter-coalesce maxsize q e h = ground (
  arith,
  coalesce_lem maxsize q e h,
  filter-remove_first is_coalescing is_critical q coalescing-not_critical,
)

filter-admitted :
    (maxsize : ℕ) (q : Queue) (e : StreamEvent)
    → is_critical e ≡ false
    → filter is_critical (admitted maxsize q e) ≡ filter is_critical q
filter-admitted maxsize q e c = ground (
  arith,
  filter-append is_critical q (e ∷ []),
  append-nil (filter is_critical q),
  filter-append is_critical (remove_first is_low_priority q) (e ∷ []),
  filter-remove_low q,
)

-- In a queue within a positive bound, an event that is not critical never pushes a critical one out.
pub publish-keeps_critical :
    (maxsize : ℕ) (q : Queue) (e : StreamEvent)
    → length q ≤ maxsize
    → 0 < maxsize
    → is_critical e ≡ false
    → filter is_critical (publish_to_queue maxsize q e) ≡ filter is_critical q
publish-keeps_critical maxsize q e h pos c =
    rw (publish_lem maxsize q e h pos)
      (filter-admitted maxsize (coalesce maxsize q e) e c ∙ filter-coalesce maxsize q e h)

-- In a queue within a positive bound that has room or holds an event of low priority, publishing a
-- critical event keeps the critical events that are there and adds the new one behind them.
pub publish-adds_critical :
    (maxsize : ℕ) (q : Queue) (e : StreamEvent)
    → length q ≤ maxsize
    → 0 < maxsize
    → is_critical e ≡ true
    → (length q < maxsize) ⊎ (any is_low_priority q ≡ true)
    → filter is_critical (publish_to_queue maxsize q e) ≡ filter is_critical q ++ e ∷ []
publish-adds_critical maxsize q e h pos c room =
    rw
      (
        publish_critical maxsize q e h pos c,
        filter-append is_critical (kept_for maxsize q) (e ∷ []),
      )
      (ground (arith, filter-remove_low q))

length-filter-coalesce :
    (maxsize : ℕ) (q : Queue) (e : StreamEvent)
    → length q ≤ maxsize
    → length (filter is_coalescing q) ≤ 1
    → length (filter is_coalescing (coalesce maxsize q e)) + (if is_coalescing e then 1 else 0) ≤ 1
length-filter-coalesce maxsize q e h one = ground (
  arith,
  coalesce_lem maxsize q e h,
  length-filter-remove_first is_coalescing q,
  any-filter is_coalescing q,
)

length-filter-kept :
    (maxsize : ℕ) (q : Queue)
    → length (filter is_coalescing (kept_for maxsize q)) ≤ length (filter is_coalescing q)
length-filter-kept maxsize q = ground (
  arith,
  sublist-length-filter is_coalescing (remove_first-sublist is_low_priority q),
  sublist-length-filter is_coalescing (sublist-drop_one q),
)

length-filter-admitted :
    (maxsize : ℕ) (q : Queue) (e : StreamEvent)
    → length (filter is_coalescing q) + (if is_coalescing e then 1 else 0) ≤ 1
    → length (filter is_coalescing (admitted maxsize q e)) ≤ 1
length-filter-admitted maxsize q e h = ground (
  arith,
  filter-append is_coalescing q (e ∷ []),
  length-append (filter is_coalescing q) (filter is_coalescing (e ∷ [])),
  sublist-length-filter is_coalescing (remove_first-sublist is_low_priority q),
  sublist-length-filter is_coalescing (sublist-drop_one q),
  filter-append is_coalescing (remove_first is_low_priority q) (e ∷ []),
  length-append (filter is_coalescing (remove_first is_low_priority q))
      (filter is_coalescing (e ∷ [])),
  filter-append is_coalescing (drop 1 q) (e ∷ []),
  length-append (filter is_coalescing (drop 1 q)) (filter is_coalescing (e ∷ [])),
)

-- A queue within a positive bound that holds at most one session update holds at most one after any
-- event is published.
publish-one_update :
    (maxsize : ℕ) (q : Queue) (e : StreamEvent)
    → length q ≤ maxsize
    → 0 < maxsize
    → length (filter is_coalescing q) ≤ 1
    → length (filter is_coalescing (publish_to_queue maxsize q e)) ≤ 1
publish-one_update maxsize q e h pos one = rw (publish_lem maxsize q e h pos) (
    length-filter-admitted maxsize (coalesce maxsize q e) e
      (length-filter-coalesce maxsize q e h one))

coalesce-sublist :
    (maxsize : ℕ) (q : Queue) (e : StreamEvent)
    → length q ≤ maxsize
    → Sublistᴰ (coalesce maxsize q e) q
coalesce-sublist maxsize q e h = elim (Bool-cases (is_coalescing e)) [
  | inl c ↦ rw (coalesce_lem maxsize q e h, c) (remove_first-sublist is_coalescing q)
  | inr c ↦ rw (coalesce_lem maxsize q e h, c) (List.Sublistᴰ.refl q)
]

admitted-sublist :
    (maxsize : ℕ) (q : Queue) (e : StreamEvent) → Sublistᴰ (admitted maxsize q e) (q ++ e ∷ [])
admitted-sublist maxsize q e = go (leb maxsize (length q)) (is_critical e) (any is_low_priority q)
  where
    go :
        (full critical low : Bool)
        → Sublistᴰ
            (if not full
              then q ++ e ∷ []
              else if critical
              then (if low then remove_first is_low_priority q else drop 1 q) ++ e ∷ []
              else if low
              then remove_first is_low_priority q ++ e ∷ []
              else q)
            (q ++ e ∷ [])
    go false critical low = List.Sublistᴰ.refl (q ++ e ∷ [])
    go true true true = sublist-snoc (e ∷ []) (remove_first-sublist is_low_priority q)
    go true true false = sublist-snoc (e ∷ []) (sublist-drop_one q)
    go true false true = sublist-snoc (e ∷ []) (remove_first-sublist is_low_priority q)
    go true false false = sublist-append_right e (List.Sublistᴰ.refl q)

-- In a queue within a positive bound, publishing neither reorders nor duplicates: what is queued is a
-- sublist of what was, followed by the event.
pub publish-sublist :
    (maxsize : ℕ) (q : Queue) (e : StreamEvent)
    → length q ≤ maxsize
    → 0 < maxsize
    → Sublistᴰ (publish_to_queue maxsize q e) (q ++ e ∷ [])
publish-sublist maxsize q e h pos = rw (publish_lem maxsize q e h pos) (
    List.Sublistᴰ.trans (admitted-sublist maxsize (coalesce maxsize q e) e)
      (sublist-snoc (e ∷ []) (coalesce-sublist maxsize q e h)))
