-- ===== src/Connector/Collected.antt =====
-- connector/pocage/acp_client.py: what `_ReplayCollector` has collected after any updates.
use pocage.Prelude.{
  String, ◌≡◌, refl, sym, ◌∙◌, Option, none, some, List, [], ◌∷◌, ◌++◌, append_assoc, append-nil,
}
use pocage.Json.Defs.{Fields}
use pocage.Connector.AgentClient.{Update, SessionReplay, new_replay, stripped_text, newer, apply}

-- A history of updates applied to a replay.
abbrev pub apply_all : SessionReplay → List Update → SessionReplay
apply_all replay [] = replay
apply_all replay (update ∷ us) = apply_all (apply replay update) us

pub apply_all-append :
    (r : SessionReplay) (us vs : List Update)
    → apply_all (apply_all r us) vs ≡ apply_all r (us ++ vs)
apply_all-append r [] vs = refl
apply_all-append r (u ∷ us) vs = apply_all-append (apply r u) us vs

-- the last text that an update gives, where it is one of session information
unfoldable pub last_text :
    (Option String × Option String → Option String) → List Update → Option String
last_text pick [] = none
last_text pick (u ∷ us) =
    newer (last_text pick us) (elim u.info [ none ↦ none | some info ↦ stripped_text (pick info) ])

-- the updates that are not of session information
unfoldable pub shown : List Update → List Fields
shown [] = []
shown (u ∷ us) = elim u.info [ none ↦ u.dump ∷ shown us | some info ↦ shown us ]

-- A replay with the updates that stand in a list behind what it had.
abbrev extended : SessionReplay → List Update → SessionReplay
extended r us = record {
  session_id = r.session_id;
  title = newer (last_text (λ info. info.0) us) r.title;
  updated_at = newer (last_text (λ info. info.1) us) r.updated_at;
  session_updates = r.session_updates ++ shown us;
}

newer_assoc : (a b c : Option String) → newer a (newer b c) ≡ newer (newer a b) c
newer_assoc none b c = refl
newer_assoc (some s) b c = refl

replay_path :
    (s : String) {t u : Option String} {v w : Option String} {x y : List Fields}
    → t ≡ u
    → v ≡ w
    → x ≡ y
    → Path SessionReplay
        (record { session_id = s; title = t; updated_at = v; session_updates = x })
        (record { session_id = s; title = u; updated_at = w; session_updates = y })
replay_path s p q e =
    λ i. record { session_id = s; title = p i; updated_at = q i; session_updates = e i }

extended-apply :
    (r : SessionReplay) (info : Option (Option String × Option String)) (dump : Fields)
    (us : List Update)
    → let u : Update = record { info = info; dump = dump } in
      extended (apply r u) us ≡ extended r (u ∷ us)
unfolding last_text shown apply
extended-apply r none dump us =
    replay_path r.session_id (newer_assoc _ none r.title) (newer_assoc _ none r.updated_at)
      (append_assoc r.session_updates (dump ∷ []) (shown us))
extended-apply r (some info) dump us =
    replay_path r.session_id (newer_assoc _ (stripped_text info.0) r.title)
      (newer_assoc _ (stripped_text info.1) r.updated_at) refl

apply_all-extended : (r : SessionReplay) (us : List Update) → apply_all r us ≡ extended r us
unfolding last_text shown
apply_all-extended r [] = replay_path r.session_id refl refl (sym (append-nil r.session_updates))
apply_all-extended r (u ∷ us) =
    apply_all-extended (apply r u) us ∙ extended-apply r u.info u.dump us

-- what the updates of a session come to: the last title and time that they give, and the others in order
unfoldable pub collected : String → List Update → SessionReplay
collected session_id us = record {
  session_id = session_id;
  title = last_text (λ info. info.0) us;
  updated_at = last_text (λ info. info.1) us;
  session_updates = shown us;
}

newer-none : (a : Option String) → newer a none ≡ a
newer-none none = refl
newer-none (some s) = refl

pub apply_all-new_replay :
    (s : String) (us : List Update) → apply_all (new_replay s) us ≡ collected s us
unfolding new_replay collected
apply_all-new_replay s us =
    apply_all-extended (new_replay s) us ∙ replay_path s (newer-none _) (newer-none _) refl
