-- ===== src/Timestamp/Stream.antt =====
-- What include/Timestamp.h uses of a `std::ostream`: its text so far, and its format. A character is
-- its code. An insertion fills up to the width, which it then resets. The locale is the classic one.
use dynalog.Base.{
  ℕ, zero, suc, ◌+◌, ◌-◌, ◌/◌, ◌%◌, ◌^◌, Bool, false, not, ◌&&◌, ◌||◌, List, [], ◌∷◌, ◌++◌, ltb,
  ◌==◌, if◌then◌else◌, length, replicate, take, drop,
}
use dynalog.Base.Int.{ℤ, pos, negsuc}

abbrev pub Text : Type 0
Text = List ℕ

pub record Stream : Type 0 where
  pub text : Text
  pub fill : ℕ
  pub width : ℕ
  pub precision : ℕ
  pub flags : ℕ → Bool

-- The flags of `std::ios_base` that an insertion here reads have the numbers of libstdc++'s bits.
abbrev pub dec : ℕ
dec = 1

abbrev pub fixed : ℕ
fixed = 2

abbrev pub hex : ℕ
hex = 3

abbrev pub internal : ℕ
internal = 4

abbrev pub left : ℕ
left = 5

abbrev pub oct : ℕ
oct = 6

abbrev pub right : ℕ
right = 7

abbrev pub show_base : ℕ
show_base = 9

abbrev pub show_pos : ℕ
show_pos = 11

abbrev pub uppercase : ℕ
uppercase = 14

-- Of a field of flags, this one only is set.
abbrev pub alone : (ℕ → Bool) → ℕ → ℕ → ℕ → Bool
alone flags one other third = flags one && not (flags other || flags third)

abbrev pub padding : ℕ → ℕ → ℕ → Text
padding fill width size = replicate (width - size) fill

-- How much of a number stands before the characters that fill it up internally: a sign, or 0x.
abbrev pub lead : Text → ℕ
lead [] = 0
lead (first ∷ []) = if first == 43 || first == 45 then 1 else 0
lead (first ∷ second ∷ rest) =
    if first == 43 || first == 45
    then 1
    else if first == 48 && (second == 120 || second == 88)
    then 2
    else 0

-- `written` with the characters that fill it up behind its first ones, at its end, or before it.
abbrev pub adjust : ℕ → Text → Stream → Text
adjust before written stream =
    let filling = padding stream.fill stream.width (length written) in
    if alone stream.flags left internal right
    then written ++ filling
    else if alone stream.flags internal left right
    then take before written ++ (filling ++ drop before written)
    else filling ++ written

-- The insertions of a number that is formatted as `written`, and of a character.
abbrev pub put_number : Text → Stream → Stream
put_number written stream = record stream {
  text = stream.text ++ adjust (lead written) written stream;
  width = 0;
}

abbrev pub put_character : ℕ → Stream → Stream
put_character val stream = record stream {
  text = stream.text ++ adjust 0 (val ∷ []) stream;
  width = 0;
}

abbrev pub symbol : Bool → ℕ → ℕ
symbol upper n = if ltb n 10 then 48 + n else if upper then 55 + n else 87 + n

-- The digits of a number to a base, with one round for each; an integer of 64 bits has at most 22 to
-- the bases that there are.
unfoldable pub digits : ℕ → Bool → ℕ → ℕ → Text
digits base upper zero n = []
digits base upper (suc rounds) n =
    let rest = digits base upper rounds (n / base) in
    if ltb n base then symbol upper n ∷ [] else rest ++ symbol upper (n % base) ∷ []

-- A signed integer of `bits` bits as an unsigned one, as it is shown to another base than ten.
abbrev pub unsigned : ℕ → ℤ → ℕ
unsigned bits (pos n) = n % 2 ^ bits
unsigned bits (negsuc n) = 2 ^ bits - 1 - n % 2 ^ bits

unfoldable pub decimal : (ℕ → Bool) → ℤ → Text
decimal flags (pos n) = if flags show_pos then 43 ∷ digits 10 false 22 n else digits 10 false 22 n
decimal flags (negsuc n) = 45 ∷ digits 10 false 22 (suc n)

unfoldable pub octal : (ℕ → Bool) → ℕ → Text
octal flags n =
    if flags show_base && not (n == 0) then 48 ∷ digits 8 false 22 n else digits 8 false 22 n

unfoldable pub hexadecimal : (ℕ → Bool) → ℕ → Text
hexadecimal flags n =
    let shown = digits 16 (flags uppercase) 22 n in
    if flags show_base && not (n == 0)
    then 48 ∷ (if flags uppercase then 88 else 120) ∷ shown
    else shown

-- How an integer of `bits` bits is formatted.
unfoldable pub integer_text : ℕ → (ℕ → Bool) → ℤ → Text
integer_text bits flags value =
    if alone flags oct dec hex
    then octal flags (unsigned bits value)
    else if alone flags hex dec oct
    then hexadecimal flags (unsigned bits value)
    else decimal flags value
