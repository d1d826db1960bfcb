-- ===== src/Tests/Phones.antt =====
-- Three callers on hold, and a flow with a menu.
use telroi_ai_app.ControlApp.Leaving.{dequeue-enqueue}
use telroi_ai_app.ControlApp.Line.{position-remove}
use telroi_ai_app.ControlApp.Refines.{queues-refine_lines, Move, run_moves}
use telroi_ai_app.ControlApp.Silent.{silent_run}
use telroi_ai_app.ControlApp.Configured.{run_flow-IsConfigured, IsConfigured}
use telroi_ai_app.ControlApp.Hold.{sorry_to_wait, greeting, Hold, hold_loop, Poll, hold_until_free}
use telroi_ai_app.ControlApp.Turns.{hold-IsTurn, IsTurn, hold-HasEnded, HasEnded, OnServed}
use telroi_ai_app.ControlApp.Flow.{
  department, follow, ask, flow_step, flow_loop, node_to_terminal, FlowNode, FlowOption, run_flow,
}
use telroi_ai_app.ControlApp.Queue.{
  dequeue, enqueue, remove_first, QueuedCaller, Queues, position_in, queue_of,
}
use telroi_ai_app.Base.{String, ◌≡◌, refl, true, none, some, List, [], ◌∷◌, arith}
use telroi_ai_app.Base.Rows.{Any}

abbrev caller : String → QueuedCaller
caller id = record {
  channel_id = id;
  caller_number = some "tnt_9";
  tenant_id = "t1";
  joined_at = 1_000;
}

abbrev two : List QueuedCaller
two = caller "c1" ∷ caller "c2" ∷ []

abbrev full : Queues
full = record { tenant_id = "t1"; callers = two } ∷ []

position-remove_example : position_in "c2" (remove_first "c1" two) ≡ 1
position-remove_example = position-remove "c1" "c2" two refl

queues-refine_lines_example :
    queue_of "t1" (run_moves (Move.join (caller "c3") ∷ Move.leave "t1" "c1" ∷ []) full)
    ≡ caller "c2" ∷ caller "c3" ∷ []
queues-refine_lines_example =
    queues-refine_lines (Move.join (caller "c3") ∷ Move.leave "t1" "c1" ∷ []) full "t1"

-- A poll that finds the caller behind another, and a poll that finds an agent free.
abbrev polled : List Poll
polled =
    record { alive = true; now = 6_000; queues = full; free = [] }
    ∷ record {
      alive = true;
      now = 11_000;
      queues = record { tenant_id = "t1"; callers = caller "c2" ∷ [] } ∷ [];
      free = "e1" ∷ [];
    }
    ∷ []

hold_served :
    hold_until_free 9_000 (caller "c2") [] polled
    ≡ Hold.ended none (greeting 1 ∷ "You are now number 2 in line." ∷ sorry_to_wait ∷ []) []
unfolding hold_until_free hold_loop enqueue dequeue
hold_served = refl

hold-HasEnded_example : HasEnded (hold_until_free 9_000 (caller "c2") [] polled)
hold-HasEnded_example =
    hold-HasEnded 9_000 (caller "c2") [] polled (omega arith, (omega arith, tt)) (omega arith)

hold-IsTurn_example :
    OnServed
      (λ free t. Any (IsTurn "t1" "c2" free t) polled)
      (hold_until_free 60_000 (caller "c2") [] polled)
hold-IsTurn_example = hold-IsTurn 60_000 (caller "c2") [] polled

abbrev node : String → FlowNode
node type = record {
  id = "n0";
  type = type;
  text = some "Welcome";
  prompt = none;
  target = some "a1";
  options = [];
}

abbrev sales : FlowOption
sales = record { digit = some "1"; key = none; target = some "g1"; route_kind = some "group" }

abbrev flow : List FlowNode
flow = node "greeting" ∷ (record (node "menu") { options = sales ∷ [] }) ∷ node "route_van" ∷ []

-- A first digit that is no option, then one that is.
flow_pressed :
    run_flow flow (some "7" ∷ some "1" ∷ [])
    ≡ (department (some "g1"), "Welcome" ∷ "Welcome" ∷ "Welcome" ∷ [])
unfolding run_flow flow_loop flow_step ask follow
flow_pressed = refl

silent_run_example : (run_flow flow []).0 ≡ node_to_terminal (node "route_van")
silent_run_example = silent_run flow (omega arith)

run_flow-IsConfigured_example : IsConfigured flow (run_flow flow (some "1" ∷ [])).0
run_flow-IsConfigured_example = run_flow-IsConfigured flow (some "1" ∷ [])

dequeue-enqueue_example :
    queue_of "t1" (dequeue "t1" "c3" (enqueue (caller "c3") full).1) ≡ queue_of "t1" full
dequeue-enqueue_example = dequeue-enqueue (caller "c3") full "t1" refl
