-- ===== src/Query/Metadata/Days.antt =====
-- `utc_day` of src/query/query_evaluator.cpp and the instants of a day.
use snow_seek.Prelude.{ap, arith, if_intro, refl, suc, ℕ, ◌%◌, ◌*◌, ◌+◌, ◌-◌, ◌/◌, ◌<◌, ◌==◌, ◌≡◌}
use snow_seek.Prelude.Int.{negsuc, pos, ℤ}
use snow_seek.Query.Metadata.{minus, nanoseconds_per_day, utc_day}

-- The instant `r` nanoseconds after the start of a day.
abbrev pub instant : ℤ → ℕ → ℤ
instant (pos k) r = pos (k * nanoseconds_per_day + r)
instant (negsuc k) r = negsuc ((k + 1) * nanoseconds_per_day - r - 1)

minus-suc : (n k : ℕ) → n ≡ suc k → minus n ≡ negsuc k
minus-suc n k e = rw e refl

-- Each instant of a day has that day's number, for days before 1970 as for those after.
pub utc_day-instant : (day : ℤ) (r : ℕ) → r < nanoseconds_per_day → utc_day (instant day r) ≡ day
unfolding utc_day
utc_day-instant (pos k) r h = ap pos (omega (arith, h))
utc_day-instant (negsuc k) r h =
    if_intro (λ d. d ≡ negsuc k) (n % nanoseconds_per_day == 0) _ _
      (λ e. minus-suc (n / nanoseconds_per_day) k (ground (arith, e, h)))
      λ e. minus-suc (n / nanoseconds_per_day + 1) k (ground (arith, e, h))
  where
    n : ℕ
    n = (k + 1) * nanoseconds_per_day - r - 1 + 1
