-- ===== src/ControlApp/Configured.antt =====
-- Where `runFlow` of control-app/src/flow-run.ts can lead a call.
use telroi_ai_app.Base.{
  ℕ, zero, suc, String, ◌≡◌, refl, sym, ap, ◌∙◌, subst, ◌⊎◌, inl, inr, Bool, true, false, ◌||◌,
  Option, none, some, List, [], ◌∷◌, text_is, eq_iff, Option-cases, Bool-cases, arith, ◌==◌,
}
use telroi_ai_app.ControlApp.Flow.{
  is_route, person, department, goto, more_answers, Next-cases, ai, first_answer, index_of,
  option_key, stop, Next, choose, filled, hangup, menu_next, node_to_terminal, nth, FlowNode,
  FlowOption, FlowTerminal, ask, flow_loop, flow_step, follow, run_flow,
}
use mathlib.Core.Option.{some-injective}
use telroi_ai_app.Base.Rows.{find, Any}

-- The end that an option with a target names, as its `routeKind` says; one of no such kind leads to
-- a node, and to an agent only where its target is no node's id.
pub data OptionEnd (nodes : List FlowNode) (o : FlowOption) (target : String)
    : FlowTerminal → Type 0 where
  to_agent : o.route_kind ≡ some "ai" → OptionEnd nodes o target (ai (some target))
  to_group : o.route_kind ≡ some "group" → OptionEnd nodes o target (department (some target))
  to_user : o.route_kind ≡ some "user" → OptionEnd nodes o target (person (some target))
  to_nowhere :
      text_is o.route_kind "ai" ≡ false
      → text_is o.route_kind "group" ≡ false
      → text_is o.route_kind "user" ≡ false
      → index_of target nodes ≡ none
      → OptionEnd nodes o target (ai (some target))

abbrev pub NamedBy : List FlowNode → FlowTerminal → FlowOption → Type 0
NamedBy nodes t o = (target : String) × (filled o.target ≡ some target) × OptionEnd nodes o target t

-- The end that a node of a type names.
pub data NodeEnd (n : FlowNode) : FlowTerminal → Type 0 where
  van : n.type ≡ "route_van" → NodeEnd n (ai (filled n.target))
  user : n.type ≡ "route_user" → NodeEnd n (person (filled n.target))
  group : n.type ≡ "route_group" → NodeEnd n (department (filled n.target))
  voicemail : n.type ≡ "voicemail" → NodeEnd n hangup
  over : n.type ≡ "hangup" → NodeEnd n hangup

-- The end of a node: its own, or, of a menu, that of one of its options.
abbrev pub EndsAt : List FlowNode → FlowTerminal → FlowNode → Type 0
EndsAt nodes t n = NodeEnd n t ⊎ ((n.type ≡ "menu") × Any (NamedBy nodes t) n.options)

-- The end is a hang-up, or the route of a node of the flow, or the target of an option of its menus.
abbrev pub IsConfigured : List FlowNode → FlowTerminal → Type 0
IsConfigured nodes t = (t ≡ hangup) ⊎ Any (EndsAt nodes t) nodes

nth-Any :
    (P : FlowNode → Type 0) (place : ℕ) (nodes : List FlowNode) (n : FlowNode)
    → nth place nodes ≡ some n
    → P n
    → Any P nodes
nth-Any P place [] n h p = absurd (ground (arith, h))
nth-Any P zero (m ∷ ms) n h p = inl (subst P (sym (some-injective m n h)) p)
nth-Any P (suc place) (m ∷ ms) n h p = inr (nth-Any P place ms n h p)

find-Any :
    (P : FlowOption → Type 0) (p : FlowOption → Bool) (os : List FlowOption) (o : FlowOption)
    → find p os ≡ some o
    → P o
    → Any P os
find-Any P p [] o h q = absurd (ground (arith, h))
find-Any P p (x ∷ xs) o h q = elim (Bool-cases (p x)) [
  | inl here ↦
      let same : some x ≡ some o = rw here at h in inl (subst P (sym (some-injective x o same)) q)
  | inr further ↦
      let later : find p xs ≡ some o = rw further at h in inr (find-Any P p xs o later q)
]

choose-Any :
    (P : FlowOption → Type 0) (os : List FlowOption) (pressed : Option String) (o : FlowOption)
    → choose os pressed ≡ some o
    → P o
    → Any P os
choose-Any P os pressed o h q = elim (Option-cases (filled pressed)) [
  | inl nothing ↦
      let never : none ≡ some o = rw (nothing, choose) at h in absurd (ground (arith, never))
  | inr (digit, e) ↦
      let found : find (λ x. option_key x == digit) os ≡ some o = rw (e, choose) at h in
      find-Any P (λ x. option_key x == digit) os o found q
]

ask-Any :
    (P : FlowOption → Type 0) (os : List FlowOption) (answers : List (Option String))
    (o : FlowOption)
    → (ask os answers).0 ≡ some o
    → P o
    → Any P os
unfolding ask
ask-Any P os answers o h q = elim (Option-cases (choose os (first_answer answers))) [
  | inl nothing ↦
      let second : choose os (first_answer (more_answers answers)) ≡ some o =
        rw (nothing, ask) at h in
      choose-Any P os (first_answer (more_answers answers)) o second q
  | inr (x, e) ↦
      let same : some x ≡ some o = rw (e, ask) at h in
      choose-Any P os (first_answer answers) o (e ∙ same) q
]

-- If a step ends the flow, the end is as described.
abbrev OnStop : (FlowTerminal → Type 0) → Next → Type 0
OnStop P (stop t) = P t
OnStop P (goto i) = Unit

OnStop-imp :
    (P Q : FlowTerminal → Type 0) (next : Next)
    → ((t : FlowTerminal) → P t → Q t)
    → OnStop P next
    → OnStop Q next
OnStop-imp P Q (stop t) k h = k t h
OnStop-imp P Q (goto i) k h = tt

kind_is :
    (o : FlowOption) (kind : String) → text_is o.route_kind kind ≡ true → o.route_kind ≡ some kind
kind_is o kind h = elim (Option-cases o.route_kind) [
  | inl none_given ↦ absurd (ground (arith, rw none_given at h))
  | inr (k, given) ↦ given ∙ ap some ((eq_iff k kind).0 (rw given at h))
]

follow-NamedBy :
    (nodes : List FlowNode) (o : FlowOption) (target : String)
    → filled o.target ≡ some target
    → OnStop (λ t. NamedBy nodes t o) (follow nodes o target)
unfolding follow
follow-NamedBy nodes o target h = elim (Bool-cases (text_is o.route_kind "ai")) [
  | inl agent ↦ rw agent (target, h, to_agent (kind_is o "ai" agent))
  | inr a ↦ elim (Bool-cases (text_is o.route_kind "group")) [
    | inl team ↦ rw (a, team) (target, h, to_group (kind_is o "group" team))
    | inr b ↦ elim (Bool-cases (text_is o.route_kind "user")) [
      | inl one ↦ rw (a, b, one) (target, h, to_user (kind_is o "user" one))
      | inr c ↦ elim (Option-cases (index_of target nodes)) [
        | inl absent ↦ rw (a, b, c, absent) (target, h, to_nowhere a b c absent)
        | inr (i, e) ↦ rw (a, b, c, e) tt
      ]
    ]
  ]
]

route-NodeEnd : (n : FlowNode) → is_route n.type ≡ true → NodeEnd n (node_to_terminal n)
unfolding node_to_terminal
route-NodeEnd n routes = elim (Bool-cases (n.type == "route_van")) [
  | inl v ↦ rw (v, node_to_terminal) (van ((eq_iff n.type "route_van").0 v))
  | inr a ↦ elim (Bool-cases (n.type == "route_user")) [
    | inl u ↦ rw (a, u, node_to_terminal) (user ((eq_iff n.type "route_user").0 u))
    | inr b ↦ elim (Bool-cases (n.type == "route_group")) [
      | inl g ↦ rw (a, b, g, node_to_terminal) (group ((eq_iff n.type "route_group").0 g))
      | inr c ↦
          rw (a, b, c, node_to_terminal)
            (last (n.type == "voicemail") refl (ground (arith, a, b, c, routes)))
    ]
  ]
]
  where
    last :
        (b : Bool)
        → (n.type == "voicemail") ≡ b
        → (n.type == "voicemail" || n.type == "hangup") ≡ true
        → NodeEnd n hangup
    last true e h = voicemail ((eq_iff n.type "voicemail").0 e)
    last false e h = over ((eq_iff n.type "hangup").0 (rw e at h))

menu-OnStop :
    (nodes : List FlowNode) (place : ℕ) (n : FlowNode) (chosen : Option FlowOption)
    → ((o : FlowOption) → chosen ≡ some o → (P : FlowOption → Type 0) → P o → Any P n.options)
    → OnStop (λ t. Any (NamedBy nodes t) n.options) (menu_next nodes place chosen)
menu-OnStop nodes place n none member = tt
menu-OnStop nodes place n (some o) member = elim (Option-cases (filled o.target)) [
  | inl nowhere ↦ rw (nowhere, menu_next) tt
  | inr (target, e) ↦
      rw (e, menu_next)
        (OnStop-imp (λ t. NamedBy nodes t o) (λ t. Any (NamedBy nodes t) n.options)
          (follow nodes o target) (λ t. member o refl (NamedBy nodes t))
          (follow-NamedBy nodes o target e))
]

step-OnStop :
    (nodes : List FlowNode) (place : ℕ) (n : FlowNode) (answers : List (Option String))
    → OnStop (λ t. EndsAt nodes t n) (flow_step nodes place n answers).0
unfolding flow_step
step-OnStop nodes place n answers = elim (Bool-cases (n.type == "greeting")) [
  | inl greets ↦ rw greets tt
  | inr other ↦ elim (Bool-cases (n.type == "menu")) [
    | inl asks ↦
        rw (other, asks)
          (OnStop-imp (λ t. Any (NamedBy nodes t) n.options) (λ t. EndsAt nodes t n)
            (menu_next nodes place (ask n.options answers).0)
            (λ t named. inr ((eq_iff n.type "menu").0 asks, named))
            (menu-OnStop nodes place n (ask n.options answers).0
              (λ o e P. ask-Any P n.options answers o e)))
    | inr rest ↦ elim (Bool-cases (is_route n.type)) [
      | inl routes ↦ rw (other, rest, routes) (inl (route-NodeEnd n routes))
      | inr skips ↦ rw (other, rest, skips) tt
    ]
  ]
]

loop-IsConfigured :
    (guard : ℕ) (nodes : List FlowNode) (place : ℕ) (answers : List (Option String))
    → IsConfigured nodes (flow_loop guard nodes place answers).0
unfolding flow_loop
loop-IsConfigured zero nodes place answers = inl refl
loop-IsConfigured (suc guard) nodes place answers = elim (Option-cases (nth place nodes)) [
  | inl gone ↦ rw (gone, flow_loop) (inl refl)
  | inr (n, found) ↦
      let step = flow_step nodes place n answers in
      let ends = step-OnStop nodes place n answers in
      elim (Next-cases step.0) [
        | inl (t, e) ↦
            let route : EndsAt nodes t n = subst (OnStop (λ u. EndsAt nodes u n)) e ends in
            rw (found, flow_loop, e) (inr (nth-Any (EndsAt nodes t) place nodes n found route))
        | inr (next, e) ↦ rw (found, flow_loop, e) (loop-IsConfigured guard nodes next step.2)
      ]
]

-- Whatever a caller presses, a flow hangs up, or ends with the route that the type of one of its
-- nodes names, with that node's target, or with the target of an option of one of its menus, as the
-- option's kind says: an agent, a group or a user, and an agent where it has no such kind and its
-- target is no node's id.
pub run_flow-IsConfigured :
    (nodes : List FlowNode) (answers : List (Option String))
    → IsConfigured nodes (run_flow nodes answers).0
unfolding run_flow
run_flow-IsConfigured nodes answers = loop-IsConfigured 25 nodes 0 answers
