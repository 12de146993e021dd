-- ===== src/Executor/ListingEnds.antt =====
-- backend/app/executor_manager.py: when the loop of `list_remote_sessions` ends.
use pocage.Prelude.{
  ℕ, zero, suc, ◌+◌, ◌≤◌, ◌<◌, String, ◌≡◌, refl, Bool, true, false, Option, none, some, List, [],
  ◌∷◌, ◌++◌, leb, length, length-append, one_of, eq_false, arith, Bool-cases, Option-cases, inl,
  inr,
}
use pocage.Text.{is_nonempty}
use pocage.Json.Defs.{Fields}
use pocage.Executor.Answers.{Page}
use pocage.Executor.Listing.{
  Listing, listed, raised, under_way, next_cursor, list_loop, list_remote_sessions,
}

unfoldable pub is_over : Listing → Bool
is_over (listed items) = true
is_over raised = true
is_over under_way = false

module _ (page : ℕ → Option String → Option Page) where
  loop-ends :
      ((round : ℕ) (cursor : Option String) (answer : Page)
        → page round cursor ≡ some answer
        → 1 ≤ length answer.items)
      → (fuel round : ℕ) (cursor : Option String) (seen_cursors : List String) (items : List Fields)
      → 1 ≤ fuel
      → 500 ≤ fuel + length items
      → is_over (list_loop page fuel round cursor seen_cursors items) ≡ true
  unfolding list_loop is_over
  loop-ends full zero round cursor seen_cursors items some_fuel enough = absurd (omega arith)
  loop-ends full (suc fuel) round cursor seen_cursors items some_fuel enough =
      elim (Option-cases (page round cursor)) [
        | inl e ↦ rw (list_loop, e) refl
        | inr (answer, e) ↦ elim (Option-cases (next_cursor answer seen_cursors)) [
          | inl g ↦ rw (list_loop, e, g) refl
          | inr (next, g) ↦ elim (Bool-cases (leb 500 (length (items ++ answer.items)))) [
            | inl h ↦ rw (list_loop, e, g, h) refl
            | inr h ↦
                let more = full round cursor answer e in
                let few : length (items ++ answer.items) < 500 = ground arith in
                let counted = length-append items answer.items in
                rw (list_loop, e, g, h)
                  (loop-ends full fuel (suc round) (some next) (next ∷ seen_cursors)
                    (items ++ answer.items) (omega arith) (omega arith))
          ]
        ]
      ]

  -- Where each page that the daemon sends has an item, 500 rounds are enough for
  -- `list_remote_sessions` to return or raise.
  pub list_remote_sessions-ends :
      ((round : ℕ) (cursor : Option String) (answer : Page)
        → page round cursor ≡ some answer
        → 1 ≤ length answer.items)
      → is_over (list_remote_sessions page 500) ≡ true
  unfolding list_remote_sessions
  list_remote_sessions-ends full = loop-ends full 500 0 none [] [] (omega arith) (omega arith)

module _ (cursors : ℕ → String) where
  -- a daemon that sends empty pages with one new cursor after the other
  unfoldable pub empty_page : ℕ → Option String → Option Page
  empty_page round cursor = some (record { items = []; next_cursor = some (cursors round) })

  abbrev sent_before : ℕ → List String
  sent_before zero = []
  sent_before (suc n) = cursors n ∷ sent_before n

  not_sent :
      ((i j : ℕ) → cursors i ≡ cursors j → i ≡ j)
      → (n k : ℕ) → n ≤ k
      → one_of (cursors k) (sent_before n) ≡ false
  not_sent distinct zero k h = refl
  not_sent distinct (suc n) k h =
      let different =
        eq_false (cursors k) (cursors n) (λ e. let same_round = distinct k n e in omega arith) in
      rw different (not_sent distinct n k (omega arith))

  endless :
      ((i j : ℕ) → cursors i ≡ cursors j → i ≡ j)
      → ((i : ℕ) → is_nonempty (cursors i) ≡ true)
      → (fuel round : ℕ) (cursor : Option String)
      → list_loop empty_page fuel round cursor (sent_before round) [] ≡ under_way
  unfolding list_loop empty_page next_cursor
  endless distinct named zero round cursor = refl
  endless distinct named (suc fuel) round cursor =
      rw (list_loop, next_cursor, named round, not_sent distinct round round (omega arith))
        (endless distinct named fuel (suc round) (some (cursors round)))

  -- A daemon that sends empty pages, each with a cursor that is new and not empty, keeps
  -- `list_remote_sessions` under way for any number of rounds.
  pub list_remote_sessions-endless :
      ((i j : ℕ) → cursors i ≡ cursors j → i ≡ j)
      → ((i : ℕ) → is_nonempty (cursors i) ≡ true)
      → (rounds : ℕ) → list_remote_sessions empty_page rounds ≡ under_way
  unfolding list_remote_sessions
  list_remote_sessions-endless distinct named rounds = endless distinct named rounds 0 none
