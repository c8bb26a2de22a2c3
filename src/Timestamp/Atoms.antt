-- ===== src/Timestamp/Atoms.antt =====
-- `Atoms` of include/Timestamp.h and source/Timestamp.cpp. A time is its number of nanoseconds since
-- the epoch, as the clock of the library counts it. `gmtime_r`, `mktime` and the time zone are parameters;
-- of a `tm` that `memset` clears, what is left out here is zero.
use dynalog.Base.{ℕ, ◌^◌}
use dynalog.Base.Int.{ℤ, pos, ◌+ℤ◌, ◌-ℤ◌, times, quotient}

pub record Tm : Type 0 where
  pub tm_year : ℤ
  pub tm_mon : ℤ
  pub tm_mday : ℤ
  pub tm_hour : ℤ
  pub tm_min : ℤ
  pub tm_sec : ℤ

pub record Atoms : Type 0 where
  pub year : ℤ
  pub month : ℤ
  pub day : ℤ
  pub hour : ℤ
  pub minute : ℤ
  pub nanoseconds : ℤ

abbrev pub giga : ℕ
giga = 10 ^ 9

-- The clock's `to_time_t`, which drops the part below a second, and `from_time_t`.
abbrev pub to_time_t : ℤ → ℤ
to_time_t time = quotient time giga

abbrev pub from_time_t : ℤ → ℤ
from_time_t timepoint = times timepoint giga

-- `Atoms( time )`.
unfoldable pub decompose : (ℤ → Tm) → ℤ → Atoms
decompose gmtime time =
    let timepoint = to_time_t time in
    let parts = gmtime timepoint in
    record {
      year = parts.tm_year +ℤ pos 1900;
      month = parts.tm_mon +ℤ pos 1;
      day = parts.tm_mday;
      hour = parts.tm_hour;
      minute = parts.tm_min;
      nanoseconds = (time -ℤ from_time_t timepoint) +ℤ times parts.tm_sec giga;
    }

-- `operator time_point`.
unfoldable pub compose : (Tm → ℤ) → ℤ → Atoms → ℤ
compose mktime timezone atoms =
    let parts : Tm = record {
      tm_year = atoms.year -ℤ pos 1900;
      tm_mon = atoms.month -ℤ pos 1;
      tm_mday = atoms.day;
      tm_hour = atoms.hour;
      tm_min = atoms.minute;
      tm_sec = pos 0;
    } in
    from_time_t (mktime parts -ℤ timezone) +ℤ atoms.nanoseconds

-- `coarse`, of the seconds and nanoseconds that the kernel's clock gives.
unfoldable pub coarse : ℤ → ℕ → ℤ
coarse tv_sec tv_nsec = from_time_t tv_sec +ℤ pos tv_nsec
