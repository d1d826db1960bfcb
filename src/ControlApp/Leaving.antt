-- ===== src/ControlApp/Leaving.antt =====
-- A caller who joins a queue of control-app/src/queue.ts and leaves it again.
use telroi_ai_app.ControlApp.Refines.{queue_of-dequeue, queue_of-enqueue}
use telroi_ai_app.ControlApp.Queue.{
  enqueue, dequeue, behind, queue_of, position_of, remove_first, Queues, position_in, QueuedCaller,
}
use telroi_ai_app.Base.{
  ◌++◌, String, ◌≡◌, refl, ap, ◌∙◌, subst, inl, inr, List, [], ◌∷◌, eq_refl, eq_iff, Bool-cases,
  arith, ◌==◌,
}

absent_remove :
    (c : QueuedCaller) (cs : List QueuedCaller)
    → position_in c.channel_id cs ≡ 0
    → remove_first c.channel_id (cs ++ (c ∷ [])) ≡ cs
absent_remove c [] h = rw (eq_refl c.channel_id) refl
absent_remove c (d ∷ cs) h = elim (Bool-cases (d.channel_id == c.channel_id)) [
  | inl here ↦ let first : 1 ≡ 0 = rw here at h in absurd (ground (arith, first))
  | inr further ↦
      let later : behind (position_in c.channel_id cs) ≡ 0 = rw further at h in
      let none_there : position_in c.channel_id cs ≡ 0 = ground (arith, later) in
      rw (further, absent_remove c cs none_there) refl
]

-- A caller on a channel that does not wait yet, who joins and leaves, leaves every queue as it was,
-- in its order.
pub dequeue-enqueue :
    (c : QueuedCaller) (qs : Queues) (id : String)
    → position_of c.tenant_id c.channel_id qs ≡ 0
    → queue_of id (dequeue c.tenant_id c.channel_id (enqueue c qs).1) ≡ queue_of id qs
dequeue-enqueue c qs id new =
    let joined = queue_of-enqueue id c qs in
    let left = queue_of-dequeue c.tenant_id c.channel_id id (enqueue c qs).1 in
    elim (Bool-cases (c.tenant_id == id)) [
      | inr other ↦ (rw other at left) ∙ (rw other at joined)
      | inl same ↦
          let absent : position_of id c.channel_id qs ≡ 0 =
            subst (λ u. position_of u c.channel_id qs ≡ 0) ((eq_iff c.tenant_id id).0 same) new in
          (rw same at left)
          ∙ ap (remove_first c.channel_id) (rw same at joined)
          ∙ absent_remove c (queue_of id qs) absent
    ]
