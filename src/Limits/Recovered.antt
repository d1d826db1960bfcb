-- ===== src/Limits/Recovered.antt =====
-- The channels of server/utils/channel-limits.ts after calls that never ended.
use telroi_ai_app.Limits.Channels.{CallEvent}
use telroi_ai_app.Base.{ℕ, ◌≤◌, or_else}

-- A call that began no later than a time, if it is known when it began.
abbrev pub IsBegunBy : ℕ → CallEvent → Type 0
IsBegunBy now e = or_else e.started_at 0 ≤ now
