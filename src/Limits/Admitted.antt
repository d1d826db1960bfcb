-- ===== src/Limits/Admitted.antt =====
-- How many requests `rateLimit` of server/utils/api.ts lets through.
use telroi_ai_app.Base.{
  ℕ, ◌+◌, ◌-◌, ◌≤◌, ◌<◌, String, ◌≡◌, refl, inl, inr, Bool, true, false, none, some, List, [], ◌∷◌,
  eq_refl, Bool-cases, arith, ◌==◌, ltb, if◌then◌else◌,
}
use telroi_ai_app.Base.Tx.{api, err, ok, Result}
use telroi_ai_app.Limits.Rate.{set_hit, hit_of, rate_key, Hit, rate_limit}
use telroi_ai_app.Base.Rows.{All}

abbrev pub is_ok : Result (Unit {0}) → Bool
is_ok (ok u) = true
is_ok (err e) = false

-- How many requests of a bucket and an id, at the given times, return.
unfoldable pub admitted : String → String → ℕ → ℕ → List ℕ → List Hit → ℕ
unfolding rate_limit
admitted bucket id max window_ms [] hits = 0
admitted bucket id max window_ms (now ∷ ts) hits =
    let p = rate_limit bucket id max window_ms now hits in
    let rest = admitted bucket id max window_ms ts p.1 in if is_ok p.0 then 1 + rest else rest

abbrev pub requests : List ℕ → ℕ
requests [] = 0
requests (t ∷ ts) = 1 + requests ts

abbrev pub smaller : ℕ → ℕ → ℕ
smaller a b = if ltb a b then a else b

hit_of-set : (hit : Hit) (hits : List Hit) → hit_of hit.key (set_hit hit hits) ≡ some hit
hit_of-set hit [] = rw (eq_refl hit.key) refl
hit_of-set hit (h ∷ hs) = elim (Bool-cases (h.key == hit.key)) [
  | inl here ↦ rw (here, eq_refl hit.key) refl
  | inr further ↦ rw (further, further) (hit_of-set hit hs)
]

rate_limit_within :
    (bucket id : String) (max window_ms now : ℕ) (cur : Hit) (hits : List Hit)
    → hit_of (rate_key bucket id) hits ≡ some cur
    → now ≤ cur.reset
    → rate_limit bucket id max window_ms now hits ≡ (
      (if ltb max (cur.count + 1) then err (api "rate_limited" 429) else ok tt),
      set_hit (record { key = rate_key bucket id; count = cur.count + 1; reset = cur.reset }) hits,
    )
unfolding rate_limit
rate_limit_within bucket id max window_ms now cur hits found inside =
    let running : ltb cur.reset now ≡ false = ground (arith, inside) in
    rw (found, rate_limit, running) refl

-- The requests left in a window that is open.
within-admitted :
    (bucket id : String) (max window_ms : ℕ) (ts : List ℕ) (cur : Hit) (hits : List Hit)
    → hit_of (rate_key bucket id) hits ≡ some cur
    → All (λ t. t ≤ cur.reset) ts
    → admitted bucket id max window_ms ts hits ≡ smaller (requests ts) (max - cur.count)
unfolding admitted
within-admitted bucket id max window_ms [] cur hits found inside = ground arith
within-admitted bucket id max window_ms (t ∷ ts) cur hits found inside =
    let next : Hit = record {
      key = rate_key bucket id;
      count = cur.count + 1;
      reset = cur.reset;
    } in
    let later =
      within-admitted bucket id max window_ms ts next (set_hit next hits) (hit_of-set next hits)
        inside.1 in
    let step = rate_limit_within bucket id max window_ms t cur hits found inside.0 in
    elim (Bool-cases (ltb max (cur.count + 1))) [
      | inl over ↦ rw (step, over, later) (ground (arith, over))
      | inr room ↦ rw (step, room, later) (ground (arith, room))
    ]

-- At a time, the key has no window that is still open: it was never seen, or its window is past.
pub data HasNoWindow (key : String) (hits : List Hit) (now : ℕ) : Type 0 where
  never_seen : hit_of key hits ≡ none → HasNoWindow key hits now
  expired : (old : Hit) → hit_of key hits ≡ some old → old.reset < now → HasNoWindow key hits now

rate_limit_first :
    (bucket id : String) (max window_ms now : ℕ) (hits : List Hit)
    → HasNoWindow (rate_key bucket id) hits now
    → rate_limit bucket id max window_ms now hits ≡ (
      ok tt,
      set_hit (record { key = rate_key bucket id; count = 1; reset = now + window_ms }) hits,
    )
unfolding rate_limit
rate_limit_first bucket id max window_ms now hits (never_seen new) = rw (new, rate_limit) refl
rate_limit_first bucket id max window_ms now hits (expired old found past) =
    let over : ltb old.reset now ≡ true = ground (arith, past) in rw (found, rate_limit, over) refl

-- Of the requests of one bucket and one id from a new window on, whether the key was never seen or
-- its last window is past, as long as none comes after the end of the window, exactly the first `max`
-- are let through, and the rest are refused.
pub first-admitted :
    (bucket id : String) (max window_ms start : ℕ) (ts : List ℕ) (hits : List Hit)
    → 1 ≤ max
    → HasNoWindow (rate_key bucket id) hits start
    → All (λ t. t ≤ start + window_ms) ts
    → admitted bucket id max window_ms (start ∷ ts) hits ≡ smaller (requests (start ∷ ts)) max
unfolding admitted
first-admitted bucket id max window_ms start ts hits some_room new inside =
    let first : Hit = record { key = rate_key bucket id; count = 1; reset = start + window_ms } in
    let later =
      within-admitted bucket id max window_ms ts first (set_hit first hits) (hit_of-set first hits)
        inside in
    rw (rate_limit_first bucket id max window_ms start hits new, later) (ground (arith, some_room))
