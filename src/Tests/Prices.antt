-- ===== src/Tests/Prices.antt =====
-- What calls cost.
use telroi_ai_app.Db.{Currency}
use telroi_ai_app.Base.Double.{ceil, round, times, quotient}
use telroi_ai_app.Billing.Prices.{micro_usd, otp_cost_minor, voice_cost_minor}
use telroi_ai_app.Base.{◌*◌, ◌≡◌, refl}
use telroi_ai_app.Base.Int.{pos}

-- The double nearest to 62 / 60 * 10200 lies above 10540.
micro_usd_62 : (micro_usd 62 10_200 ≡ 10_541) × (62 * 10_200 ≡ 60 * 10_540)
unfolding micro_usd quotient times ceil
micro_usd_62 = (refl, refl)

voice_cost_62 :
    (voice_cost_minor 62 Currency.ngn (pos 1_600) (pos 10_200) ≡ 1_687)
    × (voice_cost_minor 60 Currency.ngn (pos 1_600) (pos 10_200) ≡ 1_632)
    × (voice_cost_minor 60 Currency.usd (pos 1_600) (pos 10_200) ≡ 1)
unfolding voice_cost_minor micro_usd quotient times ceil round
voice_cost_62 = (refl, refl, refl)

otp_cost_default : otp_cost_minor Currency.ngn (pos 1_600) (pos 0) ≡ 1_600
unfolding otp_cost_minor quotient times round
otp_cost_default = refl
