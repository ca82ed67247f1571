-- ===== src/Clock/Parsed.antt =====
-- `parse_tod` converts each TOD clock value to a date and time.
use hvf.Base.{
  ℕ, ◌+◌, ◌-◌, ◌*◌, ◌/◌, ◌%◌, ◌≤◌, ◌<◌, ◌≡◌, ◌⊎◌, inl, inr, refl, ap, ◌∙◌, arith, Bool, true, false,
  List, [], ◌∷◌, Option, some, ltb, ◌==◌, ◌||◌, if◌then◌else◌, Bool-cases, drop,
}
use hvf.Clock.{
  clk_day, clk_year, clk_sec, clk_hour, clk_min, leap_year, leap_secs, find_entry, date2y, date2m,
  in_leap_second, day_loop, set_time, set_date, parse_tod, Datetime,
}
use hvf.Clock.Date.{day_number, IsDate, IsBase, year_loop-Years, Days, day_loop-Days}

-- The time of the date `dy`, `dm` with `tod` after it, where `add_sec` seconds of a leap second are
-- shown.
pub record Converted (dy dm tod add_sec : ℕ) (r : Option Datetime) : Type 0 where
  pub time : Datetime
  pub result : r ≡ some time
  pub date : IsDate time.dy time.dm (time.dd - 1)
  pub day : 1 ≤ time.dd
  pub hour : time.th < 24
  pub minute : time.tm < 60
  pub second : time.ts < 60 + add_sec
  pub micro : time.tmicro < 1000000
  pub rest : ℕ
  pub rest_bound : rest < 4096
  pub sum :
      day_number time.dy time.dm (time.dd - 1) * clk_day
        + time.th * clk_hour
        + time.tm * clk_min
        + time.ts * clk_sec
        + time.tmicro * 4096
        + rest
      ≡ day_number dy dm 0 * clk_day + tod + add_sec * clk_sec

time_parts :
    (t : ℕ)
    → t / clk_hour * clk_hour
        + t % clk_hour / clk_min * clk_min
        + t % clk_hour % clk_min / clk_sec * clk_sec
        + t % clk_hour % clk_min % clk_sec / 4096 % 4294967296 * 4096
        + t % 4096
      ≡ t
time_parts t = omega arith

set_time-Converted :
    (dy dm tod add_sec y left : ℕ)
    (d : Days y dm (left / clk_day) (day_loop 2 y dm (left / clk_day)))
    → day_number y dm 0 * clk_day + left ≡ day_number dy dm 0 * clk_day + tod
    → Converted dy dm tod add_sec
        (some (set_time (d.year, d.month, d.day) (left % clk_day) add_sec))
unfolding set_time
set_time-Converted dy dm tod add_sec y left d e = record {
  time = set_time (d.year, d.month, d.day) (left % clk_day) add_sec;
  result = refl;
  date = let same : d.day + 1 - 1 ≡ d.day = omega arith in rw same d.date;
  day = omega arith;
  hour = omega arith;
  minute = omega arith;
  second = omega arith;
  micro = omega arith;
  rest = left % clk_day % 4096;
  rest_bound = omega arith;
  sum =
      let same : d.day + 1 - 1 ≡ d.day = omega arith in
      rw same (omega (arith, time_parts (left % clk_day), d.sum, e));
}

days_left :
    (leap : Bool) (left : ℕ)
    → left < (if leap then clk_year + clk_day else clk_year)
    → left / clk_day < (if leap then 366 else 365)
days_left true left h = omega arith
days_left false left h = omega arith

set_date-Converted :
    (dy dm tod add_sec : ℕ)
    → IsBase dm
    → tod < 150 * clk_year
    → Converted dy dm tod add_sec (set_date dy dm tod add_sec)
unfolding set_date
set_date-Converted dy dm tod add_sec b h =
    let y = year_loop-Years 150 dm dy tod b h in
    let d =
      day_loop-Days 0 y.year dm (y.left / clk_day) b
        (days_left (leap_year (if dm == 1 then y.year else y.year + 1)) y.left y.less) in
    rw (set_date, y.result, d.result) (set_time-Converted dy dm tod add_sec y.year y.left d y.sum)

-- The table: later entries are earlier by two seconds or more, each stands at the start of January
-- or July, and the last is 0.
abbrev IsTable : ℕ → ℕ → List (ℕ × ℕ) → Type 0
IsTable t date [] = (t ≡ 0) × IsBase (date2m date)
IsTable t date ((t', date') ∷ entries) =
    IsBase (date2m date) × (t' + 2 * clk_sec ≤ t) × IsTable t' date' entries

-- The entry that is found.
record Entry (tod top : ℕ) (r : Option (ℕ × ℕ × ℕ)) : Type 0 where
  pub index : ℕ
  pub base : ℕ
  pub date : ℕ
  pub result : r ≡ some (index, base, date)
  pub not_later : base ≤ tod
  pub below : base ≤ top
  pub month : IsBase (date2m date)

find_entry-Entry :
    (tod t date : ℕ) (entries : List (ℕ × ℕ)) (i : ℕ)
    → IsTable t date entries
    → Entry tod t (find_entry tod ((t, date) ∷ entries) i)
unfolding find_entry
find_entry-Entry tod t date [] i h =
    let now : ltb tod t ≡ false = ground (arith, h.0) in
    rw (find_entry, now)
      (record {
        index = i;
        base = t;
        date = date;
        result = refl;
        not_later = omega (arith, h.0);
        below = omega arith;
        month = h.1;
      })
find_entry-Entry tod t date ((t', date') ∷ entries) i h = elim (Bool-cases (ltb tod t)) [
  | inr e ↦
      rw (find_entry, e)
        (record {
          index = i;
          base = t;
          date = date;
          result = refl;
          not_later = ground (arith, e);
          below = omega arith;
          month = h.0;
        })
  | inl e ↦
      let r = find_entry-Entry tod t' date' entries (i + 1) h.2 in
      record {
        index = r.index;
        base = r.base;
        date = r.date;
        result = rw (find_entry, e) r.result;
        not_later = r.not_later;
        below = omega (arith, r.below, h.1);
        month = r.month;
      }
]

-- The entry found a second later is the same, or the time since the first is a second or more.
later_entry :
    (tod t date : ℕ) (entries : List (ℕ × ℕ)) (i ai ab ad bi bb bd : ℕ)
    → IsTable t date entries
    → find_entry tod ((t, date) ∷ entries) i ≡ some (ai, ab, ad)
    → find_entry (tod + clk_sec) ((t, date) ∷ entries) i ≡ some (bi, bb, bd)
    → (ai ≡ bi) ⊎ (ab + clk_sec ≤ tod)
unfolding find_entry
later_entry tod t date [] i ai ab ad bi bb bd h a b =
    let now : ltb tod t ≡ false = ground (arith, h.0) in
    let soon : ltb (tod + clk_sec) t ≡ false = ground (arith, h.0) in
    inl (ground (arith, now, soon))
later_entry tod t date ((t', date') ∷ entries) i ai ab ad bi bb bd h a b =
    elim (Bool-cases (ltb tod t)) [
      | inr e ↦
          let soon : ltb (tod + clk_sec) t ≡ false = ground (arith, e) in
          inl (ground (arith, e, soon))
      | inl e ↦
          let r = find_entry-Entry tod t' date' entries (i + 1) h.2 in
          let tail : find_entry tod ((t', date') ∷ entries) (i + 1) ≡ some (ai, ab, ad) =
            rw (find_entry, e) at a in
          elim (Bool-cases (ltb (tod + clk_sec) t)) [
            | inl f ↦
                later_entry tod t' date' entries (i + 1) ai ab ad bi bb bd h.2 tail
                  (rw (find_entry, f) at b)
            | inr f ↦
                let same : r.base ≡ ab = ground (arith, r.result, tail) in
                inr (ground (arith, f, h.1, r.below, same))
          ]
    ]

-- What `parse_tod` returns, and the entry that it starts from.
pub record Parsed (tod : ℕ) : Type 0 where
  pub index : ℕ
  pub base : ℕ
  pub date : ℕ
  pub add_sec : ℕ
  pub entry : find_entry tod leap_secs 0 ≡ some (index, base, date)
  pub one : add_sec ≤ 1
  pub not_later : base + add_sec * clk_sec ≤ tod
  pub converted :
      Converted (date2y date) (date2m date) (tod - base - add_sec * clk_sec) add_sec (parse_tod tod)

table_lem : IsTable 0xc387_0cb9_bb60_0000 (2009 * 256 + 0x10 + 1) (drop 1 leap_secs)
table_lem = ground arith

base_month : (date : ℕ) → IsBase (date2m date) → ((date2m date == 1) || (date2m date == 7)) ≡ true
base_month date h = ground (arith, h)

parse_tod-steps :
    (tod i t date j t' date' : ℕ)
    → find_entry tod leap_secs 0 ≡ some (i, t, date)
    → find_entry ((tod + clk_sec) % 18446744073709551616) leap_secs 0 ≡ some (j, t', date')
    → ((date2m date == 1) || (date2m date == 7)) ≡ true
    → let add_sec : ℕ = if in_leap_second i j date' then 1 else 0 in
      parse_tod tod ≡ set_date (date2y date) (date2m date) (tod - t - add_sec * clk_sec) add_sec
unfolding parse_tod
parse_tod-steps tod i t date j t' date' a b m = rw (parse_tod, a, b, m) refl

parsed :
    (tod : ℕ)
    → Entry tod 0xc387_0cb9_bb60_0000 (find_entry tod leap_secs 0)
    → Entry (tod + clk_sec) 0xc387_0cb9_bb60_0000 (find_entry (tod + clk_sec) leap_secs 0)
    → tod + clk_sec < 18446744073709551616
    → Parsed tod
parsed tod a b h =
    let ahead : (tod + clk_sec) % 18446744073709551616 ≡ tod + clk_sec = omega arith in
    let second : find_entry ((tod + clk_sec) % 18446744073709551616) leap_secs 0
        ≡ some (b.index, b.base, b.date) =
      ap (λ v. find_entry v leap_secs 0) ahead ∙ b.result in
    let since : a.base + (if in_leap_second a.index b.index b.date then 1 else 0) * clk_sec ≤ tod =
      ground (
        arith,
        later_entry tod 0xc387_0cb9_bb60_0000 (2009 * 256 + 0x10 + 1) (drop 1 leap_secs) 0 a.index
            a.base a.date b.index b.base b.date table_lem a.result b.result,
        a.not_later,
      ) in
    record {
      index = a.index;
      base = a.base;
      date = a.date;
      add_sec = if in_leap_second a.index b.index b.date then 1 else 0;
      entry = a.result;
      one = ground arith;
      not_later = since;
      converted =
          rw
            (parse_tod-steps tod a.index a.base a.date b.index b.base b.date a.result second
              (base_month a.date a.month))
            (set_date-Converted (date2y a.date) (date2m a.date)
              (tod - a.base - (if in_leap_second a.index b.index b.date then 1 else 0) * clk_sec)
              (if in_leap_second a.index b.index b.date then 1 else 0) a.month (omega arith));
    }

-- For a value before the last second of 64 bits, `parse_tod` returns a date and time: a day of the
-- calendar, and hours, minutes, seconds and microseconds in range, with a second 60 only where it
-- adds a second (`add_sec`, 0 or 1). The days up to that date and the time of the day add up to the
-- days up to the date of the last entry of the table that is not later and the time since then, but
-- for a rest below a microsecond.
pub parse_tod-Parsed : (tod : ℕ) → tod + clk_sec < 18446744073709551616 → Parsed tod
parse_tod-Parsed tod h =
    parsed tod
      (find_entry-Entry tod 0xc387_0cb9_bb60_0000 (2009 * 256 + 0x10 + 1) (drop 1 leap_secs) 0
        table_lem)
      (find_entry-Entry (tod + clk_sec) 0xc387_0cb9_bb60_0000 (2009 * 256 + 0x10 + 1)
        (drop 1 leap_secs) 0 table_lem)
      h
