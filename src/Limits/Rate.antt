-- ===== src/Limits/Rate.antt =====
-- server/utils/api.ts, `rateLimit`: the requests of a window, counted in memory.
use telroi_ai_app.Base.{ℕ, ◌+◌, String, Option, none, some, List, [], ◌∷◌, ◌==◌, ltb, if◌then◌else◌}
use telroi_ai_app.Base.Tx.{api, err, ok, Result}
use Prim.Native.String.{◌++◌}
use telroi_ai_app.Base.Rows.{find}

-- An entry of `hits`.
pub record Hit : Type 0 where
  pub key : String
  pub count : ℕ
  pub reset : ℕ

abbrev pub hit_of : String → List Hit → Option Hit
hit_of key hits = find (λ h. h.key == key) hits

-- `hits.set(key, …)`
abbrev pub set_hit : Hit → List Hit → List Hit
set_hit hit [] = hit ∷ []
set_hit hit (h ∷ hs) = if h.key == hit.key then hit ∷ hs else h ∷ set_hit hit hs

abbrev pub rate_key : String → String → String
rate_key bucket id = bucket ++ ":" ++ id

-- `rateLimit`: whether it returns or throws, it counts.
unfoldable pub rate_limit : String → String → ℕ → ℕ → ℕ → List Hit → Result (Unit {0}) × List Hit
rate_limit bucket id max window_ms now hits =
    let key = rate_key bucket id in
    elim (hit_of key hits) [
      | none ↦ (ok tt, set_hit (record { key = key; count = 1; reset = now + window_ms }) hits)
      | some cur ↦
          if ltb cur.reset now
          then (ok tt, set_hit (record { key = key; count = 1; reset = now + window_ms }) hits)
          else (
            if ltb max (cur.count + 1) then err (api "rate_limited" 429) else ok tt,
            set_hit (record { key = key; count = cur.count + 1; reset = cur.reset }) hits,
          )
    ]
