-- ===== src/Timestamp/Iso.antt =====
-- What `ISO_8601` of include/Timestamp.h prints.
use dynalog.Base.{
  ℕ, ◌+◌, ◌*◌, ◌<◌, ◌≤◌, ◌≡◌, refl, ◌∙◌, ap, Bool, false, [], ◌∷◌, ◌++◌, ◌||◌, append_assoc, arith,
  length, ◌==◌,
}
use dynalog.Base.Int.{ℤ, pos}
use dynalog.Timestamp.Atoms.{Tm, giga}
use dynalog.Timestamp.Stamps.{call_proxy, dynamic, create_fixed, print_fixed, print_lazy}
use dynalog.Timestamp.Laws.{decompose-coarse, atoms_of}
use dynalog.Timestamp.Stream.{
  Text, Stream, padding, digits, decimal, integer_text, hex, internal, left, oct, show_pos, fixed,
}
use dynalog.Timestamp.Format.{
  set_fill, set_width, set_precision, set_flags, apply_ops, apply_functors, fragment,
  duration_fragment, literal, formatter, year_format, month_format, day_format, hour_format,
  minute_format, second_format, iso_8601,
}
use dynalog.Timestamp.Digits.{two, four, two-padding, four-padding}

-- The text, one insertion after the other.
abbrev build : Text → Text → Text → Text → Text → Text → Text → Text
build t y m d h i s =
    (((((((((((t ++ y) ++ 45 ∷ []) ++ m) ++ 45 ∷ []) ++ d) ++ 84 ∷ []) ++ h) ++ 58 ∷ []) ++ i)
        ++ 58 ∷ [])
      ++ s)
    ++ 90 ∷ []

build-flat :
    (t y m d h i s : Text)
    → build t y m d h i s ≡ t ++ y ++ 45 ∷ m ++ 45 ∷ d ++ 84 ∷ h ++ 58 ∷ i ++ 58 ∷ s ++ 90 ∷ []
build-flat t y m d h i s = simp append_assoc refl

-- The flags with which a number is shown as a plain numeral, filled up on the left.
abbrev pub IsPlain : (ℕ → Bool) → Type 0
IsPlain flags =
    (flags oct ≡ false)
    × (flags hex ≡ false)
    × (flags left ≡ false)
    × (flags internal ≡ false)
    × (flags show_pos ≡ false)

-- On a stream with such flags, for a year of four digits, and other parts of two, `ISO_8601` writes the year, month, day, hour and
-- minute as numerals of that many digits, with the separators of the standard, then the seconds as
-- the library prints them, in fixed notation, with three digits and zeros on the left up to six
-- characters, and a Z. The format of the stream is what it was before.
pub iso_8601_lem :
    (show : ℕ → (ℕ → Bool) → ℤ → Text) (stream : Stream) (year month day hour minute : ℕ)
    (nanoseconds : ℤ)
    → IsPlain stream.flags
    → 1000 ≤ year
    → year < 10000
    → month < 100
    → day < 100
    → hour < 100
    → minute < 100
    → let seconds = show 3 (λ flag. flag == fixed || stream.flags flag) nanoseconds in
      iso_8601 show stream (record {
        year = pos year;
        month = pos month;
        day = pos day;
        hour = pos hour;
        minute = pos minute;
        nanoseconds = nanoseconds;
      })
      ≡ record stream {
        text =
            stream.text
            ++ four year
            ++ 45 ∷ two month
            ++ 45 ∷ two day
            ++ 84 ∷ two hour
            ++ 58 ∷ two minute
            ++ 58 ∷ (padding 48 6 (length seconds) ++ seconds)
            ++ 90 ∷ [];
      }
unfolding iso_8601 formatter apply_functors year_format month_format day_format hour_format
    minute_format second_format fragment duration_fragment literal apply_ops set_width set_fill
    set_precision set_flags integer_text decimal
iso_8601_lem show stream year month day hour minute nanoseconds (o, x, l, t, q) a b c d e f =
    rw (o, x, l, t, q)
      (let seconds = show 3 (λ flag. flag == fixed || stream.flags flag) nanoseconds in
        let padded = padding 48 6 (length seconds) ++ seconds in
        let shown : ℕ → Text =
          λ n. padding 48 2 (length (digits 10 false 22 n)) ++ digits 10 false 22 n in
        ap (λ t. record stream { text = t })
          (ap
              (λ y.
                build stream.text y (shown month) (shown day) (shown hour) (shown minute) padded)
              (four-padding stream.fill year a b)
            ∙ ap
                (λ m.
                  build stream.text (four year) m (shown day) (shown hour) (shown minute) padded)
                (two-padding month c)
            ∙ ap
                (λ d.
                  build stream.text (four year) (two month) d (shown hour) (shown minute) padded)
                (two-padding day d)
            ∙ ap (λ h. build stream.text (four year) (two month) (two day) h (shown minute) padded)
                (two-padding hour e)
            ∙ ap (λ m. build stream.text (four year) (two month) (two day) (two hour) m padded)
                (two-padding minute f)
            ∙ build-flat stream.text (four year) (two month) (two day) (two hour) (two minute)
                padded))

-- The line `ISO_8601` of a time with these parts.
abbrev pub written : Text → ℕ → ℕ → ℕ → ℕ → ℕ → Text → Text
written before year month day hour minute seconds =
    before
    ++ four year
    ++ 45 ∷ two month
    ++ 45 ∷ two day
    ++ 84 ∷ two hour
    ++ 58 ∷ two minute
    ++ 58 ∷ (padding 48 6 (length seconds) ++ seconds)
    ++ 90 ∷ []

-- On a stream whose flags ask neither for another base than ten nor a plus sign nor to fill up
-- elsewhere than on the left, a timestamp of the coarse clock's time, from the epoch on, that is captured when it is made, and one
-- that is taken when it is printed, both with `ISO_8601` behind a proxy, write the same: the date and
-- the time of day that `gmtime_r` gives for the second, with its year from 1900 and month from 0,
-- and the nanoseconds of the clock added to the second of the minute. They leave the stream's
-- format as it was.
pub print_fixed-print_lazy :
    (show : ℕ → (ℕ → Bool) → ℤ → Text) (gmtime : ℤ → Tm) (stream : Stream)
    (tv_sec tv_nsec year month day hour minute second : ℕ)
    → IsPlain stream.flags
    → tv_nsec < giga
    → gmtime (pos tv_sec) ≡ record {
      tm_year = pos year;
      tm_mon = pos month;
      tm_mday = pos day;
      tm_hour = pos hour;
      tm_min = pos minute;
      tm_sec = pos second;
    }
    → year < 8100
    → month < 99
    → day < 100
    → hour < 100
    → minute < 100
    → let format = call_proxy (record { impl = dynamic (iso_8601 show) }) in
      let line : Stream = record stream {
        text =
            written stream.text
              (year + 1900)
              (month + 1)
              day
              hour
              minute
              (show 3 (λ flag. flag == fixed || stream.flags flag) (pos (tv_nsec + second * giga)));
      } in
      (print_fixed gmtime stream (create_fixed format (pos tv_sec) tv_nsec) ≡ line)
      × (print_lazy gmtime (pos tv_sec) tv_nsec stream (record { format = format }) ≡ line)
unfolding create_fixed print_fixed print_lazy call_proxy dynamic
print_fixed-print_lazy show gmtime stream tv_sec tv_nsec year month day hour minute second f n g y m
      d h i =
    let parts = decompose-coarse gmtime tv_sec tv_nsec n ∙ ap (λ p. atoms_of p tv_nsec) g in
    let line =
      ap (λ atoms. iso_8601 show stream atoms) parts
      ∙ iso_8601_lem show stream (year + 1900) (month + 1) day hour minute _ f (omega arith)
          (omega (arith, y)) (omega (arith, m)) d h i in
    (line, line)
