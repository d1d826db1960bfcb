-- ===== src/ControlApp/Silent.antt =====
-- `runFlow` of control-app/src/flow-run.ts for a caller who presses nothing, and what any caller hears.
use telroi_ai_app.ControlApp.Flow.{
  first_answer, goto, choose, node_to_terminal, Next-cases, hangup, menu_prompt, repeat, stop,
  FlowOption, FlowTerminal, filled, is_route, nth, FlowNode, ask, flow_loop, flow_step, run_flow,
  said,
}
use telroi_ai_app.Base.{
  ◌++◌, ℕ, zero, suc, ◌+◌, ◌*◌, ◌≤◌, String, ◌≡◌, refl, inl, inr, false, Option, none, some, List,
  [], ◌∷◌, eq_iff, Option-cases, Bool-cases, arith, ◌==◌, if◌then◌else◌,
}

-- The end of the first node that routes the call.
abbrev pub first_route : List FlowNode → FlowTerminal
first_route [] = hangup
first_route (n ∷ ns) = if is_route n.type then node_to_terminal n else first_route ns

abbrev drop : ℕ → List FlowNode → List FlowNode
drop zero ns = ns
drop (suc n) [] = []
drop (suc n) (x ∷ xs) = drop n xs

abbrev pub size : List FlowNode → ℕ
size [] = 0
size (n ∷ ns) = 1 + size ns

nth_past_end : (place : ℕ) (nodes : List FlowNode) → drop place nodes ≡ [] → nth place nodes ≡ none
nth_past_end zero [] h = refl
nth_past_end zero (n ∷ ns) h = absurd (ground (arith, h))
nth_past_end (suc place) [] h = refl
nth_past_end (suc place) (n ∷ ns) h = nth_past_end place ns h

nth_within :
    (place : ℕ) (nodes : List FlowNode) (n : FlowNode) (ns : List FlowNode)
    → drop place nodes ≡ (n ∷ ns)
    → (nth place nodes ≡ some n) × (drop (suc place) nodes ≡ ns)
nth_within zero [] n ns h = absurd (ground (arith, h))
nth_within zero (m ∷ ms) n ns h = (ground (arith, h), ground (arith, h))
nth_within (suc place) [] n ns h = absurd (ground (arith, h))
nth_within (suc place) (m ∷ ms) n ns h = nth_within place ms n ns h

-- A turn at which nothing is pressed.
silent_step :
    (nodes : List FlowNode) (place : ℕ) (n : FlowNode)
    → let step = flow_step nodes place n [] in
      (step.2 ≡ [])
      × (step.0 ≡ (if is_route n.type then stop (node_to_terminal n) else goto (suc place)))
unfolding flow_step ask
silent_step nodes place n = elim (Bool-cases (n.type == "greeting")) [
  | inl greets ↦
      let kind : is_route n.type ≡ false = rw ((eq_iff n.type "greeting").0 greets) refl in
      rw (greets, kind) (refl, refl)
  | inr other ↦ elim (Bool-cases (n.type == "menu")) [
    | inl asks ↦
        let kind : is_route n.type ≡ false = rw ((eq_iff n.type "menu").0 asks) refl in
        rw (other, asks, kind) (refl, refl)
    | inr rest ↦ elim (Bool-cases (is_route n.type)) [
      | inl routes ↦ rw (other, rest, routes) (refl, refl)
      | inr skips ↦ rw (other, rest, skips) (refl, refl)
    ]
  ]
]

silent_loop :
    (guard : ℕ) (nodes : List FlowNode) (place : ℕ) (ns : List FlowNode)
    → drop place nodes ≡ ns
    → size ns ≤ guard
    → (flow_loop guard nodes place []).0 ≡ first_route ns
unfolding flow_loop
silent_loop zero nodes place [] h fits = refl
silent_loop zero nodes place (n ∷ ns) h fits = absurd (omega (arith, fits))
silent_loop (suc guard) nodes place [] h fits = rw (nth_past_end place nodes h, flow_loop) refl
silent_loop (suc guard) nodes place (n ∷ ns) h fits =
    let (found, later) = nth_within place nodes n ns h in
    let (quiet, leads) = silent_step nodes place n in
    elim (Bool-cases (is_route n.type)) [
      | inl routes ↦ rw (found, flow_loop, leads, routes) refl
      | inr skips ↦
          rw (found, flow_loop, leads, skips, quiet)
            (silent_loop guard nodes (suc place) ns later (omega (arith, fits)))
    ]

-- A caller who presses nothing is led to the first node of the flow that routes a call, or hung up
-- where there is none, in a flow of at most 25 nodes.
pub silent_run :
    (nodes : List FlowNode) → size nodes ≤ 25 → (run_flow nodes []).0 ≡ first_route nodes
unfolding run_flow
silent_run nodes fits = silent_loop 25 nodes 0 nodes refl fits

-- The number of texts.
abbrev texts : List String → ℕ
texts [] = 0
texts (s ∷ ss) = 1 + texts ss

texts-append : (a b : List String) → texts (a ++ b) ≡ texts a + texts b
texts-append [] b = omega arith
texts-append (s ∷ a) b = ground (arith, texts-append a b)

said-texts : (o : Option String) → texts (said o) ≤ 2
said-texts none = omega arith
said-texts (some s) = omega arith

ask-texts :
    (options : List FlowOption) (answers : List (Option String)) (s : String)
    → texts (repeat (ask options answers).1 s) ≤ 2
unfolding ask
ask-texts options answers s = elim (Option-cases (choose options (first_answer answers))) [
  | inl nothing ↦ rw (nothing, ask) (omega arith)
  | inr (o, e) ↦ rw (e, ask) (omega arith)
]

step-texts :
    (nodes : List FlowNode) (place : ℕ) (n : FlowNode) (answers : List (Option String))
    → texts (flow_step nodes place n answers).1 ≤ 2
unfolding flow_step
step-texts nodes place n answers = elim (Bool-cases (n.type == "greeting")) [
  | inl greets ↦ rw greets (said-texts (filled n.text))
  | inr other ↦ elim (Bool-cases (n.type == "menu")) [
    | inl asks ↦ rw (other, asks) (ask-texts n.options answers (menu_prompt n))
    | inr rest ↦ elim (Bool-cases (is_route n.type)) [
      | inl routes ↦ rw (other, rest, routes) (omega arith)
      | inr skips ↦ rw (other, rest, skips) (omega arith)
    ]
  ]
]

loop-texts :
    (guard : ℕ) (nodes : List FlowNode) (place : ℕ) (answers : List (Option String))
    → texts (flow_loop guard nodes place answers).1 ≤ 2 * guard
unfolding flow_loop
loop-texts zero nodes place answers = omega arith
loop-texts (suc guard) nodes place answers = elim (Option-cases (nth place nodes)) [
  | inl gone ↦ rw (gone, flow_loop) (omega arith)
  | inr (n, found) ↦
      let step = flow_step nodes place n answers in
      let few = step-texts nodes place n answers in
      elim (Next-cases step.0) [
        | inl (t, ends) ↦ rw (found, flow_loop, ends) (omega (arith, few))
        | inr (next, goes) ↦
            let later = loop-texts guard nodes next step.2 in
            rw (found, flow_loop, goes, texts-append step.1 (flow_loop guard nodes next step.2).1)
              (omega (arith, few, later))
      ]
]

-- Whatever the flow is, loops included, and whatever the caller presses, a run plays at most 50
-- texts.
run_flow-texts :
    (nodes : List FlowNode) (answers : List (Option String)) → texts (run_flow nodes answers).1 ≤ 50
unfolding run_flow
run_flow-texts nodes answers = loop-texts 25 nodes 0 answers
