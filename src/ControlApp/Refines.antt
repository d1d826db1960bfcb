-- ===== src/ControlApp/Refines.antt =====
-- The queues of control-app/src/queue.ts, against a table of lines of callers.
use telroi_ai_app.Base.Rows.{find}
use telroi_ai_app.Base.{
  ◌++◌, String, ◌≡◌, refl, sym, ap, ◌∙◌, subst, inl, inr, true, false, List, [], ◌∷◌, eq_iff,
  Option-cases, Bool-cases, arith, ◌==◌, if◌then◌else◌,
}
use telroi_ai_app.ControlApp.Queue.{
  keep_queue, delete_queue, set_queue, dequeue, queue_of, QueuedCaller, Queues, enqueue,
  remove_first,
}

-- What callers do.
pub data Move : Type 0 where
  join : QueuedCaller → Move
  leave : String → String → Move

-- The program's queues after some moves, the first of them first.
unfoldable pub run_moves : List Move → Queues → Queues
unfolding enqueue dequeue
run_moves [] qs = qs
run_moves (Move.join c ∷ ms) qs = run_moves ms (enqueue c qs).1
run_moves (Move.leave tenant_id channel_id ∷ ms) qs = run_moves ms (dequeue tenant_id channel_id qs)

-- A line per workspace, whether or not anybody waits in it.
abbrev pub Lines : Type 0
Lines = String → List QueuedCaller

abbrev pub join_line : QueuedCaller → Lines → Lines
join_line c lines id = if c.tenant_id == id then lines id ++ (c ∷ []) else lines id

abbrev pub leave_line : String → String → Lines → Lines
leave_line tenant_id channel_id lines id =
    if tenant_id == id then remove_first channel_id (lines id) else lines id

abbrev pub lines_after : List Move → Lines → Lines
lines_after [] lines = lines
lines_after (Move.join c ∷ ms) lines = lines_after ms (join_line c lines)
lines_after (Move.leave tenant_id channel_id ∷ ms) lines =
    lines_after ms (leave_line tenant_id channel_id lines)

apart_from : (a b c : String) → a == b ≡ false → a == c ≡ true → b == c ≡ false
apart_from a b c other here = elim (Bool-cases (b == c)) [
  | inr apart ↦ apart
  | inl same ↦
      let equal : a ≡ b = (eq_iff a c).0 here ∙ sym ((eq_iff b c).0 same) in
      absurd (ground (arith, other, (eq_iff a b).1 equal))
]

queue_of-set :
    (tenant_id id : String) (cs : List QueuedCaller) (qs : Queues)
    → queue_of id (set_queue tenant_id cs qs) ≡ (if tenant_id == id then cs else queue_of id qs)
queue_of-set tenant_id id cs [] = elim (Bool-cases (tenant_id == id)) [
  | inl same ↦ rw (same, queue_of) refl
  | inr other ↦ rw (other, queue_of) refl
]
queue_of-set tenant_id id cs (l ∷ ls) = elim (Bool-cases (l.tenant_id == tenant_id)) [
  | inl mine ↦ elim (Bool-cases (tenant_id == id)) [
    | inl same ↦ rw (mine, same, queue_of) refl
    | inr other ↦
        let apart : l.tenant_id == id ≡ false =
          subst (λ x. x == id ≡ false) (sym ((eq_iff l.tenant_id tenant_id).0 mine)) other in
        rw (mine, other, apart, queue_of) refl
  ]
  | inr kept ↦ elim (Bool-cases (l.tenant_id == id)) [
    | inl here ↦
        let apart : tenant_id == id ≡ false = apart_from l.tenant_id tenant_id id kept here in
        rw (kept, here, apart, queue_of) refl
    | inr further ↦ rw (kept, further, queue_of) (queue_of-set tenant_id id cs ls)
  ]
]

queue_of-delete :
    (tenant_id id : String) (qs : Queues)
    → queue_of id (delete_queue tenant_id qs) ≡ (if tenant_id == id then [] else queue_of id qs)
queue_of-delete tenant_id id [] = elim (Bool-cases (tenant_id == id)) [
  | inl same ↦ rw (same, queue_of) refl
  | inr other ↦ rw (other, queue_of) refl
]
queue_of-delete tenant_id id (l ∷ ls) = elim (Bool-cases (l.tenant_id == tenant_id)) [
  | inl mine ↦
      let rest = queue_of-delete tenant_id id ls in
      elim (Bool-cases (tenant_id == id)) [
        | inl same ↦ rw (mine, same) (rw same at rest)
        | inr other ↦
            let apart : l.tenant_id == id ≡ false =
              subst (λ x. x == id ≡ false) (sym ((eq_iff l.tenant_id tenant_id).0 mine)) other in
            rw (mine, other, apart, queue_of) (rw other at rest)
      ]
  | inr kept ↦ elim (Bool-cases (l.tenant_id == id)) [
    | inl here ↦
        let apart : tenant_id == id ≡ false = apart_from l.tenant_id tenant_id id kept here in
        rw (kept, here, apart, queue_of) refl
    | inr further ↦ rw (kept, further, queue_of) (queue_of-delete tenant_id id ls)
  ]
]

queue_of-keep :
    (tenant_id id : String) (cs : List QueuedCaller) (qs : Queues)
    → queue_of id (keep_queue tenant_id cs qs) ≡ (if tenant_id == id then cs else queue_of id qs)
queue_of-keep tenant_id id [] qs = queue_of-delete tenant_id id qs
queue_of-keep tenant_id id (c ∷ cs) qs = queue_of-set tenant_id id (c ∷ cs) qs

pub queue_of-enqueue :
    (id : String) (c : QueuedCaller) (qs : Queues)
    → queue_of id (enqueue c qs).1 ≡ join_line c (λ u. queue_of u qs) id
unfolding enqueue
queue_of-enqueue id c qs =
    let placed = queue_of-set c.tenant_id id (queue_of c.tenant_id qs ++ (c ∷ [])) qs in
    elim (Bool-cases (c.tenant_id == id)) [
      | inr other ↦ rw other (rw other at placed)
      | inl same ↦ rw same (
          (rw same at placed)
          ∙ ap (λ u. queue_of u qs ++ (c ∷ [])) ((eq_iff c.tenant_id id).0 same))
    ]

pub queue_of-dequeue :
    (tenant_id channel_id id : String) (qs : Queues)
    → queue_of id (dequeue tenant_id channel_id qs)
      ≡ leave_line tenant_id channel_id (λ u. queue_of u qs) id
unfolding dequeue
queue_of-dequeue tenant_id channel_id id qs =
    elim (Option-cases (find (λ l. l.tenant_id == tenant_id) qs)) [
      | inl nobody ↦ elim (Bool-cases (tenant_id == id)) [
        | inr other ↦ rw (nobody, dequeue, other) refl
        | inl same ↦
            let empty : queue_of id qs ≡ [] =
              subst (λ u. queue_of u qs ≡ []) ((eq_iff tenant_id id).0 same)
                (rw (nobody, queue_of) refl) in
            rw (nobody, dequeue, same, empty) refl
      ]
      | inr (l, e) ↦
          let placed = queue_of-keep tenant_id id (remove_first channel_id l.callers) qs in
          elim (Bool-cases (tenant_id == id)) [
            | inr other ↦ rw (e, dequeue, other) (rw other at placed)
            | inl same ↦
                let mine : l.callers ≡ queue_of id qs =
                  subst (λ u. l.callers ≡ queue_of u qs) ((eq_iff tenant_id id).0 same)
                    (rw (e, queue_of) refl) in
                rw (e, dequeue, same) ((rw same at placed) ∙ ap (remove_first channel_id) mine)
          ]
    ]

lines_agree :
    (ms : List Move) (s t : Lines) (id : String)
    → ((u : String) → s u ≡ t u)
    → lines_after ms s id ≡ lines_after ms t id
lines_agree [] s t id same = same id
lines_agree (Move.join c ∷ ms) s t id same =
    lines_agree ms (join_line c s) (join_line c t) id (λ u. rw (same u) refl)
lines_agree (Move.leave tenant_id channel_id ∷ ms) s t id same =
    lines_agree ms (leave_line tenant_id channel_id s) (leave_line tenant_id channel_id t) id
      (λ u. rw (same u) refl)

-- After any sequence of callers joining and leaving, what the program's table of queues holds for a
-- workspace, empty queues dropped from it, is the line of that workspace: who joined stands at its
-- end, who left is gone, and no move of another workspace shows.
pub queues-refine_lines :
    (ms : List Move) (qs : Queues) (id : String)
    → queue_of id (run_moves ms qs) ≡ lines_after ms (λ u. queue_of u qs) id
unfolding run_moves
queues-refine_lines [] qs id = refl
queues-refine_lines (Move.join c ∷ ms) qs id =
    queues-refine_lines ms (enqueue c qs).1 id
    ∙ lines_agree ms (λ u. queue_of u (enqueue c qs).1) (join_line c (λ u. queue_of u qs)) id
        (λ u. queue_of-enqueue u c qs)
queues-refine_lines (Move.leave tenant_id channel_id ∷ ms) qs id =
    queues-refine_lines ms (dequeue tenant_id channel_id qs) id
    ∙ lines_agree ms (λ u. queue_of u (dequeue tenant_id channel_id qs))
        (leave_line tenant_id channel_id (λ u. queue_of u qs)) id
        (λ u. queue_of-dequeue tenant_id channel_id u qs)
