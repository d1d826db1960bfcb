-- ===== src/ControlApp/Hold.antt =====
-- control-app/src/queue.ts, `holdUntilFree`: a caller on hold, poll by poll. Speech and music that
-- fail are passed over, as the code does.
use telroi_ai_app.Base.{
  ◌++◌, ℕ, zero, suc, ◌+◌, ◌-◌, String, Bool, not, Option, none, some, List, [], ◌∷◌, ltb,
  if◌then◌else◌,
}
use telroi_ai_app.ControlApp.Queue.{QueuedCaller, position_of, Queues, dequeue, enqueue}
use telroi_ai_app.Invoices.Dunning.{same_count}
use telroi_ai_app.Base.Calendar.{decimal}
use Prim.Native.String.{◌++◌ as concat}

-- What a poll finds, five seconds after the one before: whether the caller is still there, the time,
-- the queues, and the endpoints that are free.
pub record Poll : Type 0 where
  pub alive : Bool
  pub now : ℕ
  pub queues : Queues
  pub free : List String

-- The end of a hold: what it returns, what was said, and the queues; or no end yet.
pub data Hold : Type 0 where
  ended : Option (List String) → List String → Queues → Hold
  waiting : List String → Hold

-- The greeting at a place in line.
unfoldable pub greeting : ℕ → String
greeting zero = "All of our agents are busy. You are number 0 in line. Please hold."
greeting (suc zero) =
    "All of our agents are busy. Please hold and the next available agent will take your call."
greeting (suc (suc n)) =
    if ltb 5 (n + 2)
    then concat "There are " (
        concat (decimal (n + 1))
          " callers ahead of you. You are welcome to hold, or try again shortly.")
    else concat "All of our agents are busy. You are number "
        (concat (decimal (n + 2)) " in line. Please hold.")

abbrev pub sorry_to_wait : String
sorry_to_wait = "We are sorry to keep you waiting. Please try again a little later. Goodbye."

-- What is said at a place other than the one announced last.
abbrev pub announcement : ℕ → ℕ → List String
announcement last zero = []
announcement last (suc zero) = []
announcement last (suc (suc n)) =
    if same_count (n + 2) last
    then []
    else concat "You are now number " (concat (decimal (n + 2)) " in line.") ∷ []

-- The place announced last, from now on.
abbrev pub announced : ℕ → ℕ → ℕ
announced last zero = last
announced last (suc n) = suc n

-- Something was said before the rest.
abbrev pub after_saying : List String → Hold → Hold
after_saying said (Hold.ended r later qs) = Hold.ended r (said ++ later) qs
after_saying said (Hold.waiting later) = Hold.waiting (said ++ later)

-- The endpoints to ring, for the caller at the front.
abbrev pub offered : ℕ → List String → Option (List String)
offered zero free = none
offered (suc (suc n)) free = none
offered (suc zero) [] = none
offered (suc zero) (e ∷ es) = some (e ∷ es)

-- The loop, from the place announced last.
unfoldable pub hold_loop : ℕ → ℕ → String → String → ℕ → List Poll → Hold
unfolding dequeue
hold_loop started max_wait tenant_id channel_id last [] = Hold.waiting []
hold_loop started max_wait tenant_id channel_id last (p ∷ ps) =
    let place = position_of tenant_id channel_id p.queues in
    let rest = hold_loop started max_wait tenant_id channel_id (announced last place) ps in
    let over = dequeue tenant_id channel_id p.queues in
    if not p.alive
    then Hold.ended none [] over
    else if ltb max_wait (p.now - started)
    then Hold.ended none (sorry_to_wait ∷ []) over
    else after_saying (announcement last place)
        (elim (offered place p.free) [ some free ↦ Hold.ended (some free) [] over | none ↦ rest ])

-- `holdUntilFree`
unfoldable pub hold_until_free : ℕ → QueuedCaller → Queues → List Poll → Hold
unfolding hold_loop enqueue greeting
hold_until_free max_wait caller qs ps =
    let place = (enqueue caller qs).0 in
    after_saying (greeting place ∷ [])
      (hold_loop caller.joined_at max_wait caller.tenant_id caller.channel_id place ps)
