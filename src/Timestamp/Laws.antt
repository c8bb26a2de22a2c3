-- ===== src/Timestamp/Laws.antt =====
-- What the conversions of source/Timestamp.cpp give.
use dynalog.Base.{ℕ, ◌+◌, ◌*◌, ◌/◌, ◌<◌, ◌≡◌, refl, ◌∙◌, ap, arith}
use dynalog.Base.Int.{ℤ, pos, ◌+ℤ◌, ◌-ℤ◌, times, add-sub_cancel, regroup}
use dynalog.Timestamp.Atoms.{Tm, Atoms, giga, to_time_t, from_time_t, decompose, compose, coarse}

-- A broken-down time without its seconds.
abbrev pub whole_minute : Tm → Tm
whole_minute parts = record parts { tm_sec = pos 0 }

-- Where `mktime`, less the time zone, undoes `gmtime_r` for the whole minute of a time, taking a time
-- apart and putting it together gives the same time, to the nanosecond.
pub compose-decompose :
    (gmtime : ℤ → Tm) (mktime : Tm → ℤ) (timezone time : ℤ)
    → mktime (whole_minute (gmtime (to_time_t time))) -ℤ timezone
      ≡ to_time_t time -ℤ (gmtime (to_time_t time)).tm_sec
    → compose mktime timezone (decompose gmtime time) ≡ time
unfolding compose decompose
compose-decompose gmtime mktime timezone time h =
    let t = to_time_t time in
    let parts = gmtime t in
    let restored : record parts {
      tm_year = parts.tm_year +ℤ pos 1900 -ℤ pos 1900;
      tm_mon = parts.tm_mon +ℤ pos 1 -ℤ pos 1;
      tm_sec = pos 0;
    }
        ≡ whole_minute parts =
      ap
        (λ y. record parts { tm_year = y; tm_mon = parts.tm_mon +ℤ pos 1 -ℤ pos 1; tm_sec = pos 0 })
        (add-sub_cancel parts.tm_year (pos 1900))
      ∙ ap (λ m. record parts { tm_mon = m; tm_sec = pos 0 })
          (add-sub_cancel parts.tm_mon (pos 1)) in
    ap
      (λ p.
        from_time_t (mktime p -ℤ timezone) +ℤ ((time -ℤ from_time_t t) +ℤ times parts.tm_sec giga))
      restored
    ∙ ap (λ s. from_time_t s +ℤ ((time -ℤ from_time_t t) +ℤ times parts.tm_sec giga)) h
    ∙ regroup time t parts.tm_sec giga

-- The parts of a time, of its broken-down second and its nanoseconds.
abbrev pub atoms_of : Tm → ℕ → Atoms
atoms_of parts nanoseconds = record {
  year = parts.tm_year +ℤ pos 1900;
  month = parts.tm_mon +ℤ pos 1;
  day = parts.tm_mday;
  hour = parts.tm_hour;
  minute = parts.tm_min;
  nanoseconds = pos nanoseconds +ℤ times parts.tm_sec giga;
}

-- The coarse clock's time, from the epoch on and with less than a second of nanoseconds, comes apart
-- into the parts of its second, its nanoseconds and those of the seconds in its minute.
pub decompose-coarse :
    (gmtime : ℤ → Tm) (tv_sec tv_nsec : ℕ)
    → tv_nsec < giga
    → decompose gmtime (coarse (pos tv_sec) tv_nsec) ≡ atoms_of (gmtime (pos tv_sec)) tv_nsec
unfolding decompose coarse
decompose-coarse gmtime tv_sec tv_nsec h =
    let same : (tv_sec * giga + tv_nsec) / giga ≡ tv_sec = omega (arith, h) in
    let left : pos (tv_sec * giga + tv_nsec) -ℤ pos (tv_sec * giga) ≡ pos tv_nsec = ground arith in
    rw (same, left) refl
