-- ===== src/Clock.antt =====
-- The conversion of TOD clock values, lib/clock.c and include/clock.h.
pub mod Date
pub mod Parsed
use hvf.Base.{
  ℕ, zero, suc, ◌+◌, ◌-◌, ◌*◌, ◌/◌, ◌%◌, Bool, true, false, not, ◌&&◌, ◌||◌, List, [], ◌∷◌, Option,
  none, some, ltb, leb, ◌==◌, if◌then◌else◌, get_or,
}

abbrev pub clk_sec : ℕ
clk_sec = 0xf424_0000

abbrev pub clk_min : ℕ
clk_min = 0x39_3870_0000

abbrev pub clk_hour : ℕ
clk_hour = 0xd69_3a40_0000

abbrev pub clk_day : ℕ
clk_day = 0x1_41dd_7600_0000

abbrev pub clk_year : ℕ
clk_year = 0x1ca_e8c1_3e00_0000

-- `LS_YM2DATE` and the parts of what it packs.
abbrev pub ym2date : ℕ → ℕ → ℕ → ℕ
ym2date y m f = y * 256 + f + m

abbrev pub date2y : ℕ → ℕ
date2y d = d / 256

abbrev pub date2m : ℕ → ℕ
date2m d = d % 16

abbrev pub date2f : ℕ → ℕ
date2f d = d / 16 % 2 * 16

-- The TOD clock value and the date of each leap second.
abbrev pub leap_secs : List (ℕ × ℕ)
leap_secs =
    (0xc387_0cb9_bb60_0000, ym2date 2009 1 0x10)
    ∷ (0xbe25_1097_973c_0000, ym2date 2006 1 0x10)
    ∷ (0xb196_2f93_0518_0000, ym2date 1999 1 0x10)
    ∷ (0xaee3_efa4_02f4_0000, ym2date 1997 7 0x10)
    ∷ (0xac34_336f_ecd0_0000, ym2date 1996 1 0x10)
    ∷ (0xa981_f380_eaac_0000, ym2date 1994 7 0x10)
    ∷ (0xa7b7_0abe_b888_0000, ym2date 1993 7 0x10)
    ∷ (0xa5ec_21fc_8664_0000, ym2date 1992 7 0x10)
    ∷ (0xa33c_65c8_7040_0000, ym2date 1991 1 0x10)
    ∷ (0xa171_7d06_3e1c_0000, ym2date 1990 1 0x10)
    ∷ (0x9dda_69a5_57f8_0000, ym2date 1988 1 0x10)
    ∷ (0x995d_40f5_17d4_0000, ym2date 1985 7 0x10)
    ∷ (0x95c6_2d94_31b0_0000, ym2date 1983 7 0x10)
    ∷ (0x93fb_44d1_ff8c_0000, ym2date 1982 7 0x10)
    ∷ (0x9230_5c0f_cd68_0000, ym2date 1981 7 0x10)
    ∷ (0x8f80_9fdb_b744_0000, ym2date 1980 1 0x10)
    ∷ (0x8db5_b719_8520_0000, ym2date 1979 1 0x10)
    ∷ (0x8bea_ce57_52fc_0000, ym2date 1978 1 0x10)
    ∷ (0x8a1f_e595_20d8_0000, ym2date 1977 1 0x10)
    ∷ (0x8853_baf5_78b4_0000, ym2date 1976 1 0x10)
    ∷ (0x8688_d233_4690_0000, ym2date 1975 1 0x10)
    ∷ (0x84bd_e971_146c_0000, ym2date 1974 1 0x10)
    ∷ (0x82f3_00ae_e248_0000, ym2date 1973 1 0x10)
    ∷ (0x820b_a981_1e24_0000, ym2date 1972 7 0x10)
    ∷ (0x8126_d60e_4600_0000, ym2date 1972 1 0)
    ∷ (0x0000_0000_0000_0000, ym2date 1900 1 0)
    ∷ []

-- `month_offsets`
abbrev pub month_offsets : Bool → List ℕ
month_offsets false = 0 ∷ 31 ∷ 59 ∷ 90 ∷ 120 ∷ 151 ∷ 181 ∷ 212 ∷ 243 ∷ 273 ∷ 304 ∷ 334 ∷ []
month_offsets true = 0 ∷ 31 ∷ 60 ∷ 91 ∷ 121 ∷ 152 ∷ 182 ∷ 213 ∷ 244 ∷ 274 ∷ 305 ∷ 335 ∷ []

abbrev pub offset : Bool → ℕ → ℕ
offset leap m = get_or (month_offsets leap) m 0

unfoldable pub leap_year : ℕ → Bool
leap_year y = (y % 4 == 0) && (not (y % 100 == 0) || (y % 400 == 0))

-- `struct datetime`
pub record Datetime : Type 0 where
  pub dy : ℕ
  pub dm : ℕ
  pub dd : ℕ
  pub th : ℕ
  pub tm : ℕ
  pub ts : ℕ
  pub tmicro : ℕ

-- The loops for `i` and `j`: the index of the first entry that is not later, and the entry. `none`
-- is a read past the end of the table.
unfoldable pub find_entry : ℕ → List (ℕ × ℕ) → ℕ → Option (ℕ × ℕ × ℕ)
find_entry tod [] i = none
find_entry tod ((t, date) ∷ entries) i =
    let rest = find_entry tod entries (i + 1) in if ltb tod t then rest else some (i, t, date)

-- The year from the start of the month `dm` of `dy`.
abbrev pub year_length : ℕ → ℕ → ℕ
year_length dm dy =
    if leap_year (if dm == 1 then dy else dy + 1) then clk_year + clk_day else clk_year

-- What the loop subtracts.
abbrev pub year_step : ℕ → ℕ → ℕ
year_step dm dy =
    if ((dm == 1) && leap_year dy) || ((dm == 7) && leap_year (dy + 1))
    then clk_year + clk_day
    else clk_year

-- The loop over years, on fuel: the year and what is left of `tod`.
unfoldable pub year_loop : ℕ → ℕ → ℕ → ℕ → Option (ℕ × ℕ)
year_loop zero dm dy tod = none
year_loop (suc fuel) dm dy tod = elim (ltb tod (year_length dm dy)) [
  | true ↦ some (dy, tod)
  | false ↦ year_loop fuel dm (dy + 1) (tod - year_step dm dy)
]

-- The inner loop over months, on fuel; `days` is `i + dt->dd`.
unfoldable pub month_loop : ℕ → Bool → ℕ → ℕ → ℕ
month_loop zero leap days dm = dm
month_loop (suc fuel) leap days dm = elim (ltb dm 12 && leb (offset leap dm) days) [
  | true ↦ month_loop fuel leap days (dm + 1)
  | false ↦ dm
]

-- The outer loop, on fuel: the year, the month, and the day from 0 on.
unfoldable pub day_loop : ℕ → ℕ → ℕ → ℕ → Option (ℕ × ℕ × ℕ)
day_loop zero dy dm dd = none
day_loop (suc fuel) dy dm dd =
    let leap = leap_year dy in
    let days = offset leap (dm - 1) + dd in
    let month = month_loop 11 leap days dm in
    let day = days - offset leap (month - 1) in
    elim (ltb month 12 || ltb day 31) [
      | true ↦ some (dy, month, day)
      | false ↦ day_loop fuel (dy + 1) 1 (day - 31)
    ]

-- The hours, minutes, seconds and microseconds of what is left of `tod`.
unfoldable pub set_time : ℕ × ℕ × ℕ → ℕ → ℕ → Datetime
set_time date tod add_sec =
    let minutes = tod % clk_hour in
    let seconds = minutes % clk_min in
    record {
      dy = date.0;
      dm = date.1;
      dd = date.2 + 1;
      th = tod / clk_hour;
      tm = minutes / clk_min;
      ts = seconds / clk_sec + add_sec;
      tmicro = seconds % clk_sec / 4096 % 4294967296;
    }

-- From the year on: 150 rounds for the years of 64 bits, and 2 for the months.
unfoldable pub set_date : ℕ → ℕ → ℕ → ℕ → Option Datetime
set_date dy dm tod add_sec = elim (year_loop 150 dm dy tod) [
  | none ↦ none
  | some (y, left) ↦ elim (day_loop 2 y dm (left / clk_day)) [
    | none ↦ none
    | some date ↦ some (set_time date (left % clk_day) add_sec)
  ]
]

-- Whether a leap second is in progress.
abbrev pub in_leap_second : ℕ → ℕ → ℕ → Bool
in_leap_second i j date = not (i == j) && (date2f date == 0x10)

unfoldable pub parse_tod : ℕ → Option Datetime
parse_tod tod = elim (find_entry tod leap_secs 0) [
  | none ↦ none
  | some (i, t, date) ↦ elim (find_entry ((tod + clk_sec) % 18446744073709551616) leap_secs 0) [
    | none ↦ none
    | some (j, t', date') ↦
        let add_sec = if in_leap_second i j date' then 1 else 0 in
        if (date2m date == 1) || (date2m date == 7)
        then set_date (date2y date) (date2m date) (tod - t - add_sec * clk_sec) add_sec
        else none
  ]
]
