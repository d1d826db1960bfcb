-- ===== src/ControlApp/Queue.antt =====
-- control-app/src/queue.ts: the queues of callers, one per workspace, in the order of a `Map`.
use telroi_ai_app.Base.{
  ◌++◌, ℕ, zero, suc, ◌+◌, ◌-◌, String, ◌||◌, Option, none, some, List, [], ◌∷◌, ◌==◌,
  if◌then◌else◌,
}
use text.Mathlib.Text.{starts_with}
use telroi_ai_app.Wallet.Spend.{round_div}
use telroi_ai_app.Base.Rows.{find}

-- `QueuedCaller`, with its channel's id and the number behind it.
pub record QueuedCaller : Type 0 where
  pub channel_id : String
  pub caller_number : Option String
  pub tenant_id : String
  pub joined_at : ℕ

-- An entry of the `Map`.
pub record Line : Type 0 where
  pub tenant_id : String
  pub callers : List QueuedCaller

abbrev pub Queues : Type 0
Queues = List Line

-- `queues.get(tenantId) || []`
abbrev pub queue_of : String → Queues → List QueuedCaller
queue_of tenant_id qs = elim (find (λ l. l.tenant_id == tenant_id) qs) [
  | none ↦ []
  | some l ↦ l.callers
]

-- `queues.set(tenantId, callers)`
abbrev pub set_queue : String → List QueuedCaller → Queues → Queues
set_queue tenant_id cs [] = record { tenant_id = tenant_id; callers = cs } ∷ []
set_queue tenant_id cs (l ∷ ls) =
    if l.tenant_id == tenant_id
    then record { tenant_id = tenant_id; callers = cs } ∷ ls
    else l ∷ set_queue tenant_id cs ls

-- `queues.delete(tenantId)`
abbrev pub delete_queue : String → Queues → Queues
delete_queue tenant_id [] = []
delete_queue tenant_id (l ∷ ls) =
    if l.tenant_id == tenant_id then delete_queue tenant_id ls else l ∷ delete_queue tenant_id ls

-- The number of callers.
abbrev pub length : List QueuedCaller → ℕ
length [] = 0
length (c ∷ cs) = 1 + length cs

-- `queueLength`
abbrev pub queue_length : String → Queues → ℕ
queue_length tenant_id qs = length (queue_of tenant_id qs)

-- The place one further back, if there is one.
abbrev pub behind : ℕ → ℕ
behind zero = 0
behind (suc n) = suc (suc n)

-- The place of a channel among callers, from one on; zero if it is not there.
abbrev pub position_in : String → List QueuedCaller → ℕ
position_in channel_id [] = 0
position_in channel_id (c ∷ cs) =
    if c.channel_id == channel_id then 1 else behind (position_in channel_id cs)

-- `positionOf`
abbrev pub position_of : String → String → Queues → ℕ
position_of tenant_id channel_id qs = position_in channel_id (queue_of tenant_id qs)

-- `enqueue`: the caller's place, and the queues.
unfoldable pub enqueue : QueuedCaller → Queues → ℕ × Queues
enqueue caller qs =
    let q = queue_of caller.tenant_id qs ++ (caller ∷ []) in
    (length q, set_queue caller.tenant_id q qs)

-- `q.splice(i, 1)` at the first caller on the channel.
abbrev pub remove_first : String → List QueuedCaller → List QueuedCaller
remove_first channel_id [] = []
remove_first channel_id (c ∷ cs) =
    if c.channel_id == channel_id then cs else c ∷ remove_first channel_id cs

-- The queue is kept if anybody is left in it.
abbrev pub keep_queue : String → List QueuedCaller → Queues → Queues
keep_queue tenant_id [] qs = delete_queue tenant_id qs
keep_queue tenant_id (c ∷ cs) qs = set_queue tenant_id (c ∷ cs) qs

-- `dequeue`
unfoldable pub dequeue : String → String → Queues → Queues
dequeue tenant_id channel_id qs = elim (find (λ l. l.tenant_id == tenant_id) qs) [
  | none ↦ qs
  | some l ↦ keep_queue tenant_id (remove_first channel_id l.callers) qs
]

-- `peek`
unfoldable pub peek : String → Queues → Option QueuedCaller
peek tenant_id qs = elim (queue_of tenant_id qs) [ [] ↦ none | c ∷ cs ↦ some c ]

-- A line of `snapshot`.
pub record Waiting : Type 0 where
  pub channel_id : String
  pub position : ℕ
  pub waiting_sec : ℕ
  pub caller_num : String

-- A channel of one of our own endpoints (`/^tnt_/`), or one without a number, is a web visitor.
abbrev pub caller_label : Option String → String
caller_label none = "Web visitor"
caller_label (some n) = if n == "" || starts_with n "tnt_" then "Web visitor" else n

-- The callers from a place on.
abbrev pub snapshot_from : ℕ → ℕ → List QueuedCaller → List Waiting
snapshot_from now position [] = []
snapshot_from now position (c ∷ cs) =
    record {
      channel_id = c.channel_id;
      position = position;
      waiting_sec = round_div (now - c.joined_at) 1_000;
      caller_num = caller_label c.caller_number;
    }
    ∷ snapshot_from now (position + 1) cs

-- `snapshot`, at a time when everybody has joined.
unfoldable pub snapshot : String → ℕ → Queues → List Waiting
snapshot tenant_id now qs = snapshot_from now 1 (queue_of tenant_id qs)
