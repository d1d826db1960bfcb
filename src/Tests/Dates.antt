-- ===== src/Tests/Dates.antt =====
-- Dates and padded numbers.
use telroi_ai_app.Base.{◌≡◌, refl}
use telroi_ai_app.Base.Calendar.{iso_date, next_year, pad_start_four, civil_of_days, days_of_civil}

iso_date_epoch : iso_date 0 ≡ "1970-01-01"
unfolding iso_date civil_of_days
iso_date_epoch = refl

iso_date_leap : iso_date (951_782_400_000) ≡ "2000-02-29"
unfolding iso_date civil_of_days
iso_date_leap = refl

next_year_leap : iso_date (next_year 951_782_400_000) ≡ "2001-03-01"
unfolding iso_date civil_of_days next_year days_of_civil
next_year_leap = refl

pad_start_four_long : (pad_start_four 42 ≡ "0042") × (pad_start_four 120_345 ≡ "120345")
pad_start_four_long = (refl, refl)
