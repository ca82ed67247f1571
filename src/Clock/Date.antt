-- ===== src/Clock/Date.antt =====
-- A TOD clock value is converted to its date and time.
use native.Mathlib.Decide.{ℕ_discrete}
use hvf.Base.{
  ℕ, zero, suc, ◌+◌, ◌-◌, ◌*◌, ◌≤◌, ◌<◌, ◌≡◌, ◌⊎◌, inl, inr, refl, ◌∙◌, arith, Bool, true, false,
  Option, some, ltb, leb, ◌==◌, ◌&&◌, ◌||◌, if◌then◌else◌, Bool-cases, ltb→lt,
}
use hvf.Clock.{
  clk_day, clk_year, offset, leap_year, year_length, year_step, year_loop, month_loop, day_loop,
}

-- The days of the years before `y`.
unfoldable pub days_before : ℕ → ℕ
days_before zero = 0
days_before (suc y) = days_before y + (if leap_year y then 366 else 365)

-- The number of a day, which is counted from 0 on in its month.
abbrev pub day_number : ℕ → ℕ → ℕ → ℕ
day_number y m d = days_before y + offset (leap_year y) (m - 1) + d

abbrev pub month_length : Bool → ℕ → ℕ
month_length leap m = if m == 12 then 31 else offset leap m - offset leap (m - 1)

days_before-next :
    (y : ℕ) → days_before (y + 1) ≡ days_before y + (if leap_year y then 366 else 365)
unfolding days_before
days_before-next y = let next : y + 1 ≡ suc y = omega arith in rw next refl

-- January or July, where each entry of the table of leap seconds stands.
abbrev pub IsBase : ℕ → Type 0
IsBase dm = (dm ≡ 1) ⊎ (dm ≡ 7)

year-next :
    (dm dy : ℕ)
    → IsBase dm
    → (day_number (dy + 1) dm 0 * clk_day ≡ day_number dy dm 0 * clk_day + year_step dm dy)
      × (year_length dm dy ≡ year_step dm dy)
      × (clk_year ≤ year_step dm dy)
year-next dm dy (inl e) = rw e (ground (arith, days_before-next dy), ground arith, ground arith)
year-next dm dy (inr e) = rw e (ground (arith, days_before-next dy), ground arith, ground arith)

-- What the loop over years finds.
pub record Years (dm dy tod : ℕ) (r : Option (ℕ × ℕ)) : Type 0 where
  pub year : ℕ
  pub left : ℕ
  pub result : r ≡ some (year, left)
  pub sum : day_number year dm 0 * clk_day + left ≡ day_number dy dm 0 * clk_day + tod
  pub less : left < year_length dm year

pub year_loop-Years :
    (fuel dm dy tod : ℕ)
    → IsBase dm
    → tod < fuel * clk_year
    → Years dm dy tod (year_loop fuel dm dy tod)
unfolding year_loop
year_loop-Years zero dm dy tod b h = absurd (omega arith)
year_loop-Years (suc fuel) dm dy tod b h = elim (Bool-cases (ltb tod (year_length dm dy))) [
  | inl e ↦
      rw (year_loop, e)
        (record {
          year = dy;
          left = tod;
          result = refl;
          sum = refl;
          less = ltb→lt tod (year_length dm dy) e;
        })
  | inr e ↦
      let next = year-next dm dy b in
      let r =
        year_loop-Years fuel dm (dy + 1) (tod - year_step dm dy) b (ground (arith, next, e)) in
      record {
        year = r.year;
        left = r.left;
        result = rw (year_loop, e) r.result;
        sum = ground (arith, r.sum, next, e);
        less = r.less;
      }
]

-- The month that has the day, counted from the start of the year.
record Month (leap : Bool) (days m : ℕ) : Type 0 where
  pub first : 1 ≤ m
  pub last : m ≤ 12
  pub starts : offset leap (m - 1) ≤ days
  pub ends : (m ≡ 12) ⊎ (days < offset leap m)

month_loop-Month :
    (fuel : ℕ) (leap : Bool) (days dm : ℕ)
    → 1 ≤ dm
    → dm ≤ 12
    → 12 ≤ dm + fuel
    → offset leap (dm - 1) ≤ days
    → Month leap days (month_loop fuel leap days dm)
unfolding month_loop
month_loop-Month zero leap days dm a b c d = record {
  first = a;
  last = b;
  starts = d;
  ends = inl (omega arith);
}
month_loop-Month (suc fuel) leap days dm a b c d =
    elim (Bool-cases (ltb dm 12 && leb (offset leap dm) days)) [
      | inl e ↦
          let same : dm + 1 - 1 ≡ dm = omega arith in
          rw (month_loop, e)
            (month_loop-Month fuel leap days (dm + 1) (omega arith) (ground (arith, e))
              (omega arith) (rw same (ground (arith, e))))
      | inr e ↦
          rw (month_loop, e) (record { first = a; last = b; starts = d; ends = ground (arith, e) })
    ]

-- A date, with the day counted from 0 on.
pub record IsDate (y m d : ℕ) : Type 0 where
  pub first : 1 ≤ m
  pub last : m ≤ 12
  pub day : d < month_length (leap_year y) m

-- What the loop over months finds.
pub record Days (y dm dd : ℕ) (r : Option (ℕ × ℕ × ℕ)) : Type 0 where
  pub year : ℕ
  pub month : ℕ
  pub day : ℕ
  pub result : r ≡ some (year, month, day)
  pub date : IsDate year month day
  pub sum : day_number year month day ≡ day_number y dm dd

day_bound :
    (leap : Bool) (days m : ℕ)
    → Month leap days m
    → ((ltb m 12 || ltb (days - offset leap (m - 1)) 31) ≡ true)
    → days - offset leap (m - 1) < month_length leap m
day_bound leap days m v e = elim (ℕ_discrete m 12) [
  | yes q ↦ rw q (ltb→lt (days - offset leap 11) 31 (rw q at e))
  | no q ↦ ground (arith, v.starts, v.ends, q)
]

-- The month is in the year.
day_loop-here :
    (fuel y dm dd : ℕ)
    → 1 ≤ dm
    → dm ≤ 12
    → let leap = leap_year y in
      let days = offset leap (dm - 1) + dd in
      let month = month_loop 11 leap days dm in
      ((ltb month 12 || ltb (days - offset leap (month - 1)) 31) ≡ true)
      → Days y dm dd (day_loop (suc fuel) y dm dd)
unfolding day_loop
day_loop-here fuel y dm dd a b e =
    let leap = leap_year y in
    let days = offset (leap_year y) (dm - 1) + dd in
    let month = month_loop 11 (leap_year y) (offset (leap_year y) (dm - 1) + dd) dm in
    let m = month_loop-Month 11 leap days dm a b (omega arith) (omega arith) in
    record {
      year = y;
      month = month;
      day = days - offset leap (month - 1);
      result = rw (day_loop, e) refl;
      date = record { first = m.first; last = m.last; day = day_bound leap days month m e };
      sum = omega (arith, m.starts);
    }

last_days :
    (leap : Bool) (dd : ℕ) → dd < (if leap then 366 else 365) → ltb (dd - offset leap 11) 31 ≡ true
last_days true dd h = ground arith
last_days false dd h = ground arith

-- From January of a year on, the month is in the year.
year_days :
    (leap : Bool) (dd m : ℕ)
    → dd < (if leap then 366 else 365)
    → Month leap dd m
    → (ltb m 12 || ltb (dd - offset leap (m - 1)) 31) ≡ true
year_days leap dd m h v = elim (ℕ_discrete m 12) [
  | yes q ↦ rw q (last_days leap dd h)
  | no q ↦ ground (arith, v.last, q)
]

first_day : (leap : Bool) (dd : ℕ) → offset leap 0 ≤ offset leap 0 + dd
first_day leap dd = omega arith

january :
    (leap : Bool) (dd : ℕ)
    → dd < (if leap then 366 else 365)
    → offset leap 0 + dd < (if leap then 366 else 365)
january true dd h = omega arith
january false dd h = omega arith

day_loop-January :
    (fuel y dd : ℕ)
    → dd < (if leap_year y then 366 else 365)
    → Days y 1 dd (day_loop (suc fuel) y 1 dd)
day_loop-January fuel y dd h =
    let m =
      month_loop-Month 11 (leap_year y) (offset (leap_year y) 0 + dd) 1 (omega arith) (omega arith)
        (omega arith) (first_day (leap_year y) dd) in
    let month = month_loop 11 (leap_year y) (offset (leap_year y) 0 + dd) 1 in
    day_loop-here fuel y 1 dd (omega arith) (omega arith)
      (year_days (leap_year y) (offset (leap_year y) 0 + dd) month (january (leap_year y) dd h) m)

-- From July on, the month is in this year or the next.
half_year :
    (y dd month : ℕ)
    → dd < (if leap_year (y + 1) then 366 else 365)
    → month ≤ 12
    → let day = offset (leap_year y) 6 + dd - offset (leap_year y) (month - 1) in
      (ltb month 12 || ltb day 31) ≡ false
      → (day - 31 < (if leap_year (y + 1) then 366 else 365))
        × (day_number (y + 1) 1 (day - 31) ≡ day_number y 7 dd)
half_year y dd month h l e =
    let last : month ≡ 12 = ground (arith, e, l) in
    rw last (ground (arith, days_before-next y, rw last at e))

day_loop-July :
    (fuel y dd : ℕ)
    → dd < (if leap_year (y + 1) then 366 else 365)
    → Days y 7 dd (day_loop (suc (suc fuel)) y 7 dd)
unfolding day_loop
day_loop-July fuel y dd h =
    let month = month_loop 11 (leap_year y) (offset (leap_year y) 6 + dd) 7 in
    let day = offset (leap_year y) 6 + dd - offset (leap_year y) (month - 1) in
    let m =
      month_loop-Month 11 (leap_year y) (offset (leap_year y) 6 + dd) 7 (omega arith) (omega arith)
        (omega arith) (omega arith) in
    elim (Bool-cases (ltb month 12 || ltb day 31)) [
      | inl e ↦ day_loop-here (suc fuel) y 7 dd (omega arith) (omega arith) e
      | inr e ↦
          let next = half_year y dd month h m.last e in
          let r = day_loop-January fuel (y + 1) (day - 31) next.0 in
          record {
            year = r.year;
            month = r.month;
            day = r.day;
            result = rw (day_loop, e) r.result;
            date = r.date;
            sum = r.sum ∙ next.1;
          }
    ]

pub day_loop-Days :
    (fuel y dm dd : ℕ)
    → IsBase dm
    → dd < (if leap_year (if dm == 1 then y else y + 1) then 366 else 365)
    → Days y dm dd (day_loop (suc (suc fuel)) y dm dd)
day_loop-Days fuel y dm dd (inl e) h = rw e (day_loop-January (suc fuel) y dd (rw e at h))
day_loop-Days fuel y dm dd (inr e) h = rw e (day_loop-July fuel y dd (rw e at h))
