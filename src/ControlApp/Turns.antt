-- ===== src/ControlApp/Turns.antt =====
-- Who is served, and that every hold ends: `holdUntilFree` of control-app/src/queue.ts.
use telroi_ai_app.Base.{
  ℕ, zero, suc, ◌+◌, ◌-◌, ◌*◌, ◌≤◌, ◌<◌, String, ◌≡◌, refl, ◌≢◌, inl, inr, none, some, List, [],
  ◌∷◌, Option-cases, Bool-cases, arith, ltb,
}
use mathlib.Core.Option.{some-injective}
use telroi_ai_app.Base.Rows.{Any}
use telroi_ai_app.ControlApp.Queue.{dequeue, enqueue, QueuedCaller, position_of, Queues}
use telroi_ai_app.ControlApp.Hold.{
  announcement, greeting, announced, after_saying, Hold, Poll, hold_loop, hold_until_free, offered,
}

-- Each poll comes at least five seconds after the one before.
abbrev pub ArePaced : ℕ → List Poll → Type 0
ArePaced t [] = Unit
ArePaced t (p ∷ ps) = (t + 5_000 ≤ p.now) × ArePaced p.now ps

abbrev pub polls : List Poll → ℕ
polls [] = 0
polls (p ∷ ps) = 1 + polls ps

abbrev pub HasEnded : Hold → Type 0
HasEnded (Hold.ended r said qs) = Unit
HasEnded (Hold.waiting said) = ⊥

saying_HasEnded : (said : List String) (h : Hold) → HasEnded h → HasEnded (after_saying said h)
saying_HasEnded said (Hold.ended r later qs) h = tt
saying_HasEnded said (Hold.waiting later) h = absurd h

hold_loop-HasEnded :
    (started max_wait t : ℕ) (tenant_id channel_id : String) (last : ℕ) (ps : List Poll)
    → ArePaced t ps
    → t - started ≤ max_wait
    → max_wait < t - started + 5_000 * polls ps
    → started ≤ t
    → HasEnded (hold_loop started max_wait tenant_id channel_id last ps)
unfolding hold_loop
hold_loop-HasEnded started max_wait t tenant_id channel_id last [] paced early enough from =
    absurd (omega (arith, early, enough))
hold_loop-HasEnded started max_wait t tenant_id channel_id last (p ∷ ps) paced early enough from =
    elim (Bool-cases p.alive) [
      | inr gone ↦ rw gone tt
      | inl alive ↦ elim (Bool-cases (ltb max_wait (p.now - started))) [
        | inl late ↦ rw (alive, late) tt
        | inr on_time ↦
            let place = position_of tenant_id channel_id p.queues in
            let still : p.now - started ≤ max_wait = ground (arith, on_time) in
            let more =
              hold_loop-HasEnded started max_wait p.now tenant_id channel_id (announced last place)
                ps paced.1 still (omega (arith, enough, paced.0, from))
                (omega (arith, paced.0, from)) in
            elim (Option-cases (offered place p.free)) [
              | inl later ↦
                  rw (alive, on_time, later) (saying_HasEnded (announcement last place) _ more)
              | inr (free, turn) ↦ rw (alive, on_time, turn) tt
            ]
      ]
    ]

-- A caller is on hold for a bounded time: with polls at least five seconds apart, the hold has ended
-- by the first of them that is past the longest wait, whatever the polls find.
pub hold-HasEnded :
    (max_wait : ℕ) (caller : QueuedCaller) (qs : Queues) (ps : List Poll)
    → ArePaced caller.joined_at ps
    → max_wait < 5_000 * polls ps
    → HasEnded (hold_until_free max_wait caller qs ps)
unfolding hold_until_free
hold-HasEnded max_wait caller qs ps paced enough =
    let place = (enqueue caller qs).0 in
    saying_HasEnded (greeting place ∷ []) _ (
      hold_loop-HasEnded caller.joined_at max_wait caller.joined_at caller.tenant_id
        caller.channel_id place ps paced (omega arith) (omega (arith, enough)) (omega arith))

-- A hold that returns endpoints returns those that one of its polls found free, when the caller
-- was at the front, and takes the caller off the queues.
abbrev pub IsTurn : String → String → List String → Queues → Poll → Type 0
IsTurn tenant_id channel_id free qs p =
    (position_of tenant_id channel_id p.queues ≡ 1)
    × (p.free ≡ free)
    × (free ≢ [])
    × (qs ≡ dequeue tenant_id channel_id p.queues)

-- What holds of the end of a hold that returns endpoints.
abbrev pub OnServed : (List String → Queues → Type 0) → Hold → Type 0
OnServed P (Hold.ended (some free) said qs) = P free qs
OnServed P (Hold.ended none said qs) = Unit
OnServed P (Hold.waiting said) = Unit

saying_OnServed :
    (P : List String → Queues → Type 0) (said : List String) (h : Hold)
    → OnServed P h
    → OnServed P (after_saying said h)
saying_OnServed P said (Hold.ended (some free) later qs) h = h
saying_OnServed P said (Hold.ended none later qs) h = tt
saying_OnServed P said (Hold.waiting later) h = tt

offered_front :
    (place : ℕ) (free found : List String)
    → offered place free ≡ some found
    → (place ≡ 1) × (free ≡ found) × (found ≢ [])
offered_front zero free found h = absurd (ground (arith, h))
offered_front (suc (suc n)) free found h = absurd (ground (arith, h))
offered_front (suc zero) [] found h = absurd (ground (arith, h))
offered_front (suc zero) (e ∷ es) found h =
    let same : (e ∷ es) ≡ found = some-injective (e ∷ es) found h in
    (refl, same, λ none_free. ground (arith, same, none_free))

served_later :
    (tenant_id channel_id : String) (p : Poll) (ps : List Poll) (h : Hold)
    → OnServed (λ free qs. Any (IsTurn tenant_id channel_id free qs) ps) h
    → OnServed (λ free qs. Any (IsTurn tenant_id channel_id free qs) (p ∷ ps)) h
served_later tenant_id channel_id p ps (Hold.ended (some free) said qs) h = inr h
served_later tenant_id channel_id p ps (Hold.ended none said qs) h = tt
served_later tenant_id channel_id p ps (Hold.waiting said) h = tt

hold_loop-IsTurn :
    (started max_wait : ℕ) (tenant_id channel_id : String) (last : ℕ) (ps : List Poll)
    → OnServed
        (λ free qs. Any (IsTurn tenant_id channel_id free qs) ps)
        (hold_loop started max_wait tenant_id channel_id last ps)
unfolding hold_loop
hold_loop-IsTurn started max_wait tenant_id channel_id last [] = tt
hold_loop-IsTurn started max_wait tenant_id channel_id last (p ∷ ps) =
    let place = position_of tenant_id channel_id p.queues in
    elim (Bool-cases p.alive) [
      | inr gone ↦ rw gone tt
      | inl alive ↦ elim (Bool-cases (ltb max_wait (p.now - started))) [
        | inl late ↦ rw (alive, late) tt
        | inr on_time ↦ elim (Option-cases (offered place p.free)) [
          | inl later ↦
              rw (alive, on_time, later)
                (saying_OnServed (λ free qs. Any (IsTurn tenant_id channel_id free qs) (p ∷ ps))
                  (announcement last place)
                  (hold_loop started max_wait tenant_id channel_id (announced last place) ps)
                  (served_later tenant_id channel_id p ps
                    (hold_loop started max_wait tenant_id channel_id (announced last place) ps)
                    (hold_loop-IsTurn started max_wait tenant_id channel_id (announced last place)
                      ps)))
          | inr (free, turn) ↦
              let (front, offer, some_free) = offered_front place p.free free turn in
              rw (alive, on_time, turn) (inl (front, offer, some_free, refl))
        ]
      ]
    ]

-- A hold that ends with endpoints to ring ends with the endpoints, at least one, that one of its polls
-- found free while the caller stood at the front of the line, and takes the caller out of the
-- queues of that poll.
pub hold-IsTurn :
    (max_wait : ℕ) (caller : QueuedCaller) (qs : Queues) (ps : List Poll)
    → OnServed
        (λ free t. Any (IsTurn caller.tenant_id caller.channel_id free t) ps)
        (hold_until_free max_wait caller qs ps)
unfolding hold_until_free
hold-IsTurn max_wait caller qs ps =
    let place = (enqueue caller qs).0 in
    saying_OnServed (λ free t. Any (IsTurn caller.tenant_id caller.channel_id free t) ps)
      (greeting place ∷ [])
      (hold_loop caller.joined_at max_wait caller.tenant_id caller.channel_id place ps)
      (hold_loop-IsTurn caller.joined_at max_wait caller.tenant_id caller.channel_id place ps)
