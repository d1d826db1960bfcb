-- ===== src/AutoTopup/Sent.antt =====
-- Which attempts of server/utils/auto-topup-executor.ts are marked as sent, and how the marks of
-- two states compare.
use telroi_ai_app.Base.{
  subst, sym, ◌∙◌, ◌<◌, ◌≡◌, ◌≢◌, Bool, none, List, [], ◌∷◌, String, ◌==◌, eq_iff, arith,
}
use telroi_ai_app.Base.Rows.{All, find, update_where, All-update}
use telroi_ai_app.Db.{Env, Attempt, Db, update_attempts}

-- The attempt of this id, wherever the table has it, was sent.
abbrev SentRow : String → Attempt → Type 0
SentRow id a = a.id ≡ id → 0 < a.attempts

-- The table has an attempt of this id, and it was sent.
pub record IsSent (id : String) (rows : List Attempt) : Type 0 where
  pub known : find (λ a. a.id == id) rows ≢ none
  pub sent : All (SentRow id) rows

-- A change that keeps the id and resets no counter.
abbrev pub KeepsSent : (Attempt → Attempt) → Type 0
KeepsSent f = (a : Attempt) → ((f a).id ≡ a.id) × (0 < a.attempts → 0 < (f a).attempts)

find-update_known :
    (id : String) (p : Attempt → Bool) (f : Attempt → Attempt) (rows : List Attempt)
    → KeepsSent f
    → find (λ a. a.id == id) rows ≢ none
    → find (λ a. a.id == id) (update_where p f rows) ≢ none
find-update_known id p f [] k h = h
find-update_known id p f (a ∷ rows) k h = ground (arith, k a, find-update_known id p f rows k)

pub update-IsSent :
    (id : String) (p : Attempt → Bool) (f : Attempt → Attempt) (rows : List Attempt)
    → KeepsSent f
    → IsSent id rows
    → IsSent id (update_where p f rows)
update-IsSent id p f rows k h = record {
  known = find-update_known id p f rows k h.known;
  sent = All-update (SentRow id) p f rows h.sent (λ a s _ e. (k a).1 (s (sym (k a).0 ∙ e)));
}

-- A new attempt of another id.
pub cons-IsSent :
    (id : String) (a : Attempt) (rows : List Attempt)
    → a.id ≢ id
    → IsSent id rows
    → IsSent id (a ∷ rows)
cons-IsSent id a rows other h = record {
  known = ground (arith, h.known, eq_iff a.id id);
  sent = (λ e. absurd (other e), h.sent);
}

-- All that was sent before is marked as sent after.
abbrev pub StillSent : Db → Db → Type 0
StillSent s t = (id : String) → IsSent id s.auto_topup_attempts → IsSent id t.auto_topup_attempts

-- No attempt has the id that the database is about to give a new one.
abbrev pub IsFreshAttempt : Env → Db → Type 0
IsFreshAttempt env db = find (λ a. a.id == env.attempt_id) db.auto_topup_attempts ≡ none

pub update-StillSent :
    (p : Attempt → Bool) (f : Attempt → Attempt) (db : Db)
    → KeepsSent f
    → StillSent db (update_attempts p f db)
update-StillSent p f db k id h = update-IsSent id p f db.auto_topup_attempts k h

pub cons-StillSent :
    (env : Env) (a : Attempt) (db : Db)
    → a.id ≡ env.attempt_id
    → IsFreshAttempt env db
    → StillSent db (record db { auto_topup_attempts = a ∷ db.auto_topup_attempts })
cons-StillSent env a db is_new fresh id h =
    cons-IsSent id a db.auto_topup_attempts
      (λ e.
        h.known
          (subst (λ i. find (λ b. b.id == i) db.auto_topup_attempts ≡ none) (sym is_new ∙ e) fresh))
      h
