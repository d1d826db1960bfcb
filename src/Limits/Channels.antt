-- ===== src/Limits/Channels.antt =====
-- server/utils/channel-limits.ts: the calls that a workspace has in flight, and the channels that it
-- pays for.
use telroi_ai_app.Base.{
  ℕ, ◌+◌, ◌-◌, ◌*◌, String, Bool, false, not, ◌&&◌, ◌||◌, Option, none, some, List, [], ◌∷◌,
  text_is, ◌==◌, leb, if◌then◌else◌,
}
use telroi_ai_app.Billing.Renewals.{is_active_number}
use telroi_ai_app.Db.{NumberSubscription}
use telroi_ai_app.Base.Tx.{api, err, ok, Result}
use text.Mathlib.Text.{starts_with}
use telroi_ai_app.Base.Rows.{count}

-- `liveCallSessions`, the columns read here
pub record LiveCallSession : Type 0 where
  pub tenant_id : String
  pub status : String
  pub started_at : ℕ

-- `callEvents`, the columns read here
pub record CallEvent : Type 0 where
  pub tenant_id : String
  pub callid : String
  pub status : Option String
  pub started_at : Option ℕ

-- What the limits read.
pub record Traffic : Type 0 where
  pub subscriptions : List NumberSubscription
  pub sessions : List LiveCallSession
  pub events : List CallEvent

abbrev pub minutes : ℕ → ℕ
minutes n = n * 60_000

-- The channels of the workspace's active numbers.
abbrev pub channels_of : String → List NumberSubscription → ℕ
channels_of tenant_id [] = 0
channels_of tenant_id (s ∷ ss) =
    if s.tenant_id == tenant_id && is_active_number s.status
    then s.channels + channels_of tenant_id ss
    else channels_of tenant_id ss

-- `channelCapacity`
unfoldable pub channel_capacity : String → Traffic → ℕ
channel_capacity tenant_id t = channels_of tenant_id t.subscriptions

-- A widget session that holds a channel.
abbrev pub is_live_session : String → ℕ → LiveCallSession → Bool
is_live_session tenant_id now s =
    s.tenant_id == tenant_id
    && (s.status == "calling" || s.status == "connected")
    && leb (now - minutes 20) s.started_at

abbrev pub is_pre_answer : CallEvent → Bool
is_pre_answer e = text_is e.status "ringing" || text_is e.status "initiated"

abbrev pub is_in_call : CallEvent → Bool
is_in_call e = text_is e.status "in-progress" || text_is e.status "answered"

-- Not older than an hour, or than two minutes if nobody has answered.
abbrev pub is_recent : ℕ → CallEvent → Bool
is_recent now e = elim e.started_at [
  | none ↦ false
  | some t ↦
      leb (now - minutes 60) t && leb (now - (if is_pre_answer e then minutes 2 else minutes 60)) t
]

abbrev pub is_widget : CallEvent → Bool
is_widget e = starts_with e.callid "lc_"

-- A call of a carrier or a dialer that holds a channel.
abbrev pub is_live_event : String → ℕ → CallEvent → Bool
is_live_event tenant_id now e =
    e.tenant_id == tenant_id
    && (is_pre_answer e || is_in_call e)
    && is_recent now e
    && not (is_widget e)

-- `liveCallCount`
unfoldable pub live_call_count : String → ℕ → Traffic → ℕ
live_call_count tenant_id now t =
    count (is_live_session tenant_id now) t.sessions + count (is_live_event tenant_id now) t.events

-- `ChannelUsage`
pub record ChannelUsage : Type 0 where
  pub capacity : ℕ
  pub in_use : ℕ
  pub available : ℕ

-- `channelUsage`
unfoldable pub channel_usage : String → ℕ → Traffic → ChannelUsage
unfolding channel_capacity live_call_count
channel_usage tenant_id now t = record {
  capacity = channel_capacity tenant_id t;
  in_use = live_call_count tenant_id now t;
  available = channel_capacity tenant_id t - live_call_count tenant_id now t;
}

-- `assertChannelAvailable`
unfoldable pub assert_channel_available : String → Bool → ℕ → Traffic → Result ChannelUsage
unfolding channel_usage
assert_channel_available tenant_id is_internal now t =
    let usage = channel_usage tenant_id now t in
    if is_internal
    then ok usage
    else if leb usage.capacity 0
    then err (api "no_channels" 402)
    else if leb usage.capacity usage.in_use
    then err (api "channels_busy" 429)
    else ok usage
