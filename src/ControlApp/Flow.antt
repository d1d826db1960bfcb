-- ===== src/ControlApp/Flow.antt =====
-- control-app/src/flow-run.ts: the flow that a call runs through. What the caller hears is the list
-- of texts that are played; what the caller presses is a list of answers, one for each wait, with
-- none for a wait that times out.
use telroi_ai_app.Base.{
  ◌++◌, ℕ, zero, suc, String, ◌≡◌, refl, ◌⊎◌, inl, inr, Bool, ◌||◌, Option, none, some, List, [],
  ◌∷◌, text_is, or_else, ◌==◌, if◌then◌else◌,
}
use telroi_ai_app.Base.Rows.{find}

-- `FlowTerminal`
pub data FlowTerminal : Type 0 where
  ai person department : Option String → FlowTerminal
  hangup : FlowTerminal

-- An option of a menu.
pub record FlowOption : Type 0 where
  pub digit : Option String
  pub key : Option String
  pub target : Option String
  pub route_kind : Option String

-- `FlowNode`, with the fields of its `config` that a flow reads.
pub record FlowNode : Type 0 where
  pub id : String
  pub type : String
  pub text : Option String
  pub prompt : Option String
  pub target : Option String
  pub options : List FlowOption

-- A text that is there and not empty.
abbrev pub filled : Option String → Option String
filled none = none
filled (some s) = if s == "" then none else some s

-- `nodeToTerminal`
unfoldable pub node_to_terminal : FlowNode → FlowTerminal
node_to_terminal node =
    if node.type == "route_van"
    then ai (filled node.target)
    else if node.type == "route_user"
    then person (filled node.target)
    else if node.type == "route_group"
    then department (filled node.target)
    else hangup

-- `String(o.digit ?? o.key ?? '')`
abbrev pub option_key : FlowOption → String
option_key o = or_else o.digit (or_else o.key "")

-- What a wait for a digit chooses: a digit that is there and not empty may match an option.
abbrev pub choose : List FlowOption → Option String → Option FlowOption
choose options pressed = elim (filled pressed) [
  | none ↦ none
  | some digit ↦ find (λ o. option_key o == digit) options
]

abbrev pub first_answer : List (Option String) → Option String
first_answer [] = none
first_answer (a ∷ more) = a

abbrev pub more_answers : List (Option String) → List (Option String)
more_answers [] = []
more_answers (a ∷ more) = more

-- The menu's two attempts: the choice, how often the prompt was played, and the answers left.
unfoldable pub ask :
    List FlowOption → List (Option String) → Option FlowOption × ℕ × List (Option String)
ask options answers = elim (choose options (first_answer answers)) [
  | some o ↦ (some o, 1, more_answers answers)
  | none ↦
      (choose options (first_answer (more_answers answers)), 2, more_answers (more_answers answers))
]

-- Where a step of the flow leads.
pub data Next : Type 0 where
  goto : ℕ → Next
  stop : FlowTerminal → Next

pub Next-cases : (n : Next) → ((t : FlowTerminal) × (n ≡ stop t)) ⊎ ((i : ℕ) × (n ≡ goto i))
Next-cases (goto i) = inr (i, refl)
Next-cases (stop t) = inl (t, refl)

-- The place of a node, if the flow has it.
abbrev pub index_of : String → List FlowNode → Option ℕ
index_of id [] = none
index_of id (n ∷ ns) =
    if n.id == id then some 0 else elim (index_of id ns) [ none ↦ none | some i ↦ some (suc i) ]

-- Where the target of a chosen option leads.
unfoldable pub follow : List FlowNode → FlowOption → String → Next
follow nodes o target =
    if text_is o.route_kind "ai"
    then stop (ai (some target))
    else if text_is o.route_kind "group"
    then stop (department (some target))
    else if text_is o.route_kind "user"
    then stop (person (some target))
    else elim (index_of target nodes) [ none ↦ stop (ai (some target)) | some i ↦ goto i ]

-- Where a menu leads from its place: to the chosen target, or on.
abbrev pub menu_next : List FlowNode → ℕ → Option FlowOption → Next
menu_next nodes place none = goto (suc place)
menu_next nodes place (some o) = elim (filled o.target) [
  | none ↦ goto (suc place)
  | some target ↦ follow nodes o target
]

abbrev pub menu_prompt : FlowNode → String
menu_prompt node =
    or_else (filled node.text) (or_else (filled node.prompt) "Please make a selection.")

-- A text so many times.
abbrev pub repeat : ℕ → String → List String
repeat zero s = []
repeat (suc n) s = s ∷ repeat n s

abbrev pub said : Option String → List String
said none = []
said (some s) = s ∷ []

abbrev pub is_route : String → Bool
is_route type =
    type == "route_van"
    || type == "route_user"
    || type == "route_group"
    || type == "voicemail"
    || type == "hangup"

-- One turn of the loop at a node: where it leads, what is played, and the answers left.
unfoldable pub flow_step :
    List FlowNode → ℕ → FlowNode → List (Option String) → Next × List String × List (Option String)
unfolding node_to_terminal ask follow
flow_step nodes place node answers =
    if node.type == "greeting"
    then (goto (suc place), said (filled node.text), answers)
    else if node.type == "menu"
    then (let asked = ask node.options answers in
        (menu_next nodes place asked.0, repeat asked.1 (menu_prompt node), asked.2))
    else if is_route node.type
    then (stop (node_to_terminal node), [], answers)
    else (goto (suc place), [], answers)

abbrev pub nth : ℕ → List FlowNode → Option FlowNode
nth n [] = none
nth zero (x ∷ xs) = some x
nth (suc n) (x ∷ xs) = nth n xs

-- The loop, with the turns that its guard has left: the end and all that was played.
unfoldable pub flow_loop : ℕ → List FlowNode → ℕ → List (Option String) → FlowTerminal × List String
unfolding flow_step
flow_loop zero nodes place answers = (hangup, [])
flow_loop (suc guard) nodes place answers = elim (nth place nodes) [
  | none ↦ (hangup, [])
  | some node ↦
      let step = flow_step nodes place node answers in
      elim step.0 [
        | stop t ↦ (t, step.1)
        | goto next ↦ let rest = flow_loop guard nodes next step.2 in (rest.0, step.1 ++ rest.1)
      ]
]

-- `runFlow`: at most 25 turns.
unfoldable pub run_flow : List FlowNode → List (Option String) → FlowTerminal × List String
unfolding flow_loop
run_flow nodes answers = flow_loop 25 nodes 0 answers
