-- ===== src/Bundle/ZipTime.antt =====
-- `_zip_safe_date_time` of src/python/hypervec_bundle.py: a local time, clamped to what the DOS date
-- of a ZIP entry can hold.
use hyper_vector.Common.{ℕ, ◌+◌, ◌-◌, ◌*◌, ◌/◌, ◌^◌, ◌≤◌, ◌<◌, ◌≡◌, ltb, if◌then◌else◌, arith}

-- The fields of `time.struct_time` that are used; also `ZipInfo.date_time`.
pub record DateTime : Type 0 where
  pub year : ℕ
  pub month : ℕ
  pub day : ℕ
  pub hour : ℕ
  pub minute : ℕ
  pub second : ℕ

abbrev pub min_date_time : DateTime
min_date_time = record { year = 1980; month = 1; day = 1; hour = 0; minute = 0; second = 0 }

abbrev pub max_date_time : DateTime
max_date_time = record { year = 2107; month = 12; day = 31; hour = 23; minute = 59; second = 58 }

unfoldable pub zip_safe_date_time : DateTime → DateTime
zip_safe_date_time t =
    if ltb t.year 1980 then min_date_time else if ltb 2107 t.year then max_date_time else t

-- What `time.localtime` returns: a calendar date, with room for a leap second.
pub record IsLocal (t : DateTime) : Type 0 where
  pub months : (1 ≤ t.month) × (t.month ≤ 12)
  pub days : (1 ≤ t.day) × (t.day ≤ 31)
  pub hours : t.hour ≤ 23
  pub minutes : t.minute ≤ 59
  pub seconds : t.second ≤ 61

-- The three packed 16-bit words of the header: the year in seven bits, the seconds halved.
abbrev pub dos_date : DateTime → ℕ
dos_date t = (t.year - 1980) * 512 + t.month * 32 + t.day

abbrev pub dos_time : DateTime → ℕ
dos_time t = t.hour * 2048 + t.minute * 32 + t.second / 2

-- Whatever year the clock shows, both words of the clamped time fit 16 bits and its year is between
-- 1980 and 2107, so `zipfile` can write the header; within these years the time is unchanged.
pub zip_safe_date_time-fits :
    (t : DateTime)
    → IsLocal t
    → let z = zip_safe_date_time t in
      (1980 ≤ z.year)
      × (z.year ≤ 2107)
      × (dos_date z < 2 ^ 16)
      × (dos_time z < 2 ^ 16)
      × (1980 ≤ t.year → t.year ≤ 2107 → z ≡ t)
unfolding zip_safe_date_time
zip_safe_date_time-fits t v = ground arith
