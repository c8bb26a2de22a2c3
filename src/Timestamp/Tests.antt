-- ===== src/Timestamp/Tests.antt =====
-- A concrete time, 2020-01-01T00:00:07.250 UTC in a zone an hour west: the theorems at it, and a run.
use dynalog.Base.{ℕ, ◌+◌, ◌*◌, ◌≡◌, refl, Bool, false, [], ◌∷◌, ◌||◌, ◌==◌, arith, replicate}
use dynalog.Base.Int.{ℤ, pos, negsuc}
use dynalog.Timestamp.Atoms.{Tm, giga, decompose, compose}
use dynalog.Timestamp.Stream.{
  Text, Stream, fixed, hex, show_base, internal, put_number, integer_text, hexadecimal, digits,
}
use dynalog.Timestamp.Format.{iso_8601}
use dynalog.Timestamp.Stamps.{call_proxy, dynamic, create_fixed, print_fixed, print_lazy}
use dynalog.Timestamp.Laws.{compose-decompose}
use dynalog.Timestamp.Iso.{written, print_fixed-print_lazy}

abbrev new_year : Tm
new_year = record {
  tm_year = pos 120;
  tm_mon = pos 0;
  tm_mday = pos 1;
  tm_hour = pos 0;
  tm_min = pos 0;
  tm_sec = pos 7;
}

abbrev gmtime : ℤ → Tm
gmtime timepoint = new_year

abbrev mktime : Tm → ℤ
mktime parts = pos 1577840400

compose-decompose_example :
    compose mktime (pos 3600) (decompose gmtime (pos 1577836807250000000)) ≡ pos 1577836807250000000
compose-decompose_example =
    compose-decompose gmtime mktime (pos 3600) (pos 1577836807250000000) refl

-- The seconds of a time as some text.
abbrev show : ℕ → (ℕ → Bool) → ℤ → Text
show precision flags nanoseconds = 55 ∷ 46 ∷ 50 ∷ 53 ∷ 48 ∷ []

abbrev empty : Stream
empty = record { text = []; fill = 32; width = 0; precision = 6; flags = λ flag. false }

print_fixed-print_lazy_example :
    let format = call_proxy (record { impl = dynamic (iso_8601 show) }) in
    let line : Stream = record empty {
      text =
          written []
            (120 + 1900)
            (0 + 1)
            1
            0
            0
            (show 3 (λ flag. flag == fixed || false) (pos (250000000 + 7 * giga)));
    } in
    (print_fixed gmtime empty (create_fixed format (pos 1577836807) 250000000) ≡ line)
    × (print_lazy gmtime (pos 1577836807) 250000000 empty (record { format = format }) ≡ line)
print_fixed-print_lazy_example =
    print_fixed-print_lazy show gmtime empty 1577836807 250000000 120 0 1 0 0 7
      (refl, refl, refl, refl, refl) (omega arith) refl (omega arith) (omega arith) (omega arith)
      (omega arith) (omega arith)

-- Minus one to the base 16, with its base, and seven filled up to four characters behind its sign.
minus_one :
    integer_text 32 (λ flag. flag == hex || flag == show_base) (negsuc 0)
    ≡ 48 ∷ 120 ∷ replicate 8 102
unfolding integer_text hexadecimal digits
minus_one = refl

minus_seven :
    put_number
      (45 ∷ 55 ∷ [])
      (record empty { width = 4; fill = 48; flags = λ flag. flag == internal })
    ≡ record empty { text = 45 ∷ 48 ∷ 48 ∷ 55 ∷ []; fill = 48; flags = λ flag. flag == internal }
minus_seven = refl

-- 2020-01-01T00:00:07.250Z
new_year_line :
    written [] 2020 1 1 0 0 (show 3 (λ flag. false) (pos 0))
    ≡ 50 ∷ 48 ∷ 50 ∷ 48 ∷ 45 ∷ 48 ∷ 49 ∷ 45 ∷ 48 ∷ 49 ∷ 84 ∷ 48 ∷ 48 ∷ 58 ∷ 48 ∷ 48 ∷ 58 ∷ 48 ∷ 55
      ∷ 46 ∷ 50 ∷ 53 ∷ 48 ∷ 90 ∷ []
new_year_line = refl
