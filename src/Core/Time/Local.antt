-- ===== src/Core/Time/Local.antt =====
-- The local time of aquaOneCore/src/Time/EuropeWarsawTimeService.cpp, by the rule of the summer time.
use aqua_one.Base.{ℕ, ◌<◌, ◌≡◌, ◌⊎◌, inl, inr, true, if◌then◌else◌, Bool-cases, subst, arith}
use aqua_one.Core.Time.{LocalTime, is_dst, convert_utc_to_warsaw}
use aqua_one.Core.Time.Sunday.{IsLastSunday}
use aqua_one.Core.Time.Summer.{InSummer, is_dst_iff}
use aqua_one.Core.Time.Warsaw.{IsTime, IsLater, convert-IsLater}

-- A valid UTC time before the year 65535 becomes a valid time with its minute of the day: in summer, which is
-- from 1:00 UTC on the last Sunday of March until before 1:00 UTC on the last Sunday of October, the time that
-- is two hours later, and outside of it the time that is one hour later.
pub convert_utc_to_warsaw_lem :
    (utc : LocalTime) (march october : ℕ)
    → utc.valid ≡ true
    → IsTime utc
    → utc.year < 65535
    → IsLastSunday utc.year 3 march
    → IsLastSunday utc.year 10 october
    → let w = convert_utc_to_warsaw utc in
      (w.valid ≡ true)
      × (InSummer utc march october × IsLater utc 120 w
          ⊎ (¬ InSummer utc march october) × IsLater utc 60 w)
convert_utc_to_warsaw_lem utc march october v x l m o =
    let (later, valid) = convert-IsLater utc v x l in
    let rule = is_dst_iff utc march october x (omega arith) m o in
    let w = convert_utc_to_warsaw utc in
    elim (Bool-cases (is_dst utc)) [
      | inl e ↦ (valid, inl (rule.0 e, subst (λ b. IsLater utc (if b then 120 else 60) w) e later))
      | inr e ↦ (
        valid,
        inr ((λ s. cc (rule.1 s, e)), subst (λ b. IsLater utc (if b then 120 else 60) w) e later),
      )
    ]
