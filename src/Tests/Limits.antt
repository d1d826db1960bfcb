-- ===== src/Tests/Limits.antt =====
-- Three requests of a window that admits two, and a call on a line with two channels.
use telroi_ai_app.Base.Tx.{ok}
use telroi_ai_app.Base.{◌≡◌, refl, false, none, some, List, [], ◌∷◌, arith}
use telroi_ai_app.Limits.Rate.{rate_key, Hit, rate_limit}
use telroi_ai_app.Db.{SubscriptionStatus}
use telroi_ai_app.Limits.Channels.{
  CallEvent, live_call_count, channel_capacity, channel_usage, LiveCallSession, Traffic,
  assert_channel_available,
}
use telroi_ai_app.Limits.Admitted.{HasNoWindow, first-admitted, admitted}

three_requests : admitted "login" "u1" 2 1_000 (5 ∷ 6 ∷ 7 ∷ []) [] ≡ 2
unfolding admitted rate_limit
three_requests = refl

-- A window that ended at 4.
abbrev old_window : List Hit
old_window = record { key = rate_key "login" "u1"; count = 9; reset = 4 } ∷ []

first-admitted_example : admitted "login" "u1" 2 1_000 (5 ∷ 6 ∷ 7 ∷ []) old_window ≡ 2
first-admitted_example =
    first-admitted "login" "u1" 2 1_000 5 (6 ∷ 7 ∷ []) old_window (omega arith)
      (HasNoWindow.expired (record { key = rate_key "login" "u1"; count = 9; reset = 4 }) refl
        (omega arith))
      (omega arith, (omega arith, tt))

abbrev session : LiveCallSession
session = record { tenant_id = "t1"; status = "calling"; started_at = 9_000 }

abbrev traffic : Traffic
traffic = record {
  subscriptions =
      record {
        id = "n1";
        tenant_id = "t1";
        telnum = "+2341";
        channels = 2;
        status = SubscriptionStatus.active;
        next_billing_at = 0;
        last_billed_at = none;
        department_id = none;
      }
      ∷ [];
  sessions = session ∷ [];
  events = [];
}

-- Two requests that both read the guard with one channel left, and then both ring.
both_pass :
    (assert_channel_available "t1" false 9_000 traffic
      ≡ ok (record { capacity = 2; in_use = 1; available = 1 }))
    × (live_call_count "t1" 9_000 (record traffic { sessions = session ∷ session ∷ session ∷ [] })
        ≡ 3)
unfolding assert_channel_available channel_usage channel_capacity live_call_count
both_pass = (refl, refl)

-- A call that rang for three minutes holds no channel, until it is answered.
abbrev ringing : CallEvent
ringing = record {
  tenant_id = "t1";
  callid = "c1";
  status = some "ringing";
  started_at = some 1_000_000;
}

late_answer :
    (live_call_count "t1" 1_180_000 (record traffic { sessions = []; events = ringing ∷ [] }) ≡ 0)
    × (live_call_count "t1" 1_180_000 (record traffic {
      sessions = [];
      events = record ringing { status = some "answered" } ∷ [];
    })
        ≡ 1)
unfolding live_call_count
late_answer = (refl, refl)
