-- ===== src/Debug/Parse.antt =====
-- The text that the debugger reads: `split` of libgbc/debug.cpp, and the functions of the standard
-- library that it calls, over the codes of the characters.
use Prim.Native.Char.{code}
use Prim.Native.String.{String}
use gamebro.Base.{
  ℕ, zero, suc, ◌+◌, ◌-◌, ◌*◌, ◌%◌, ◌^◌, List, [], ◌∷◌, Option, none, some, Bool, true, false,
  length, take, drop, ◌&&◌, ◌||◌, ltb, leb, ◌==◌, if◌then◌else◌, Outcome, ok, fault, throws, ℤ, pos,
  negsuc,
}

abbrev pub Text : Type 0
Text = List ℕ

-- The characters of a literal.
abbrev pub codes : String → Text
codes String.[] = []
codes (String.◌∷◌ c s) = code c ∷ codes s

-- `==` on two texts.
abbrev pub is : Text → Text → Bool
is [] [] = true
is (c ∷ s) (d ∷ t) = c == d && is s t
is _ _ = false

-- The first place of a character, counted from the start of the text.
abbrev pub index_of : ℕ → Text → Option ℕ
index_of ch [] = none
index_of ch (c ∷ cs) =
    let rest = index_of ch cs in
    if c == ch then some 0 else elim rest [ none ↦ none | some i ↦ some (suc i) ]

-- `txt.find(ch, from)`; `none` is `npos`.
abbrev pub find : Text → ℕ → ℕ → Option ℕ
find txt ch from = elim (index_of ch (drop from txt)) [ none ↦ none | some i ↦ some (from + i) ]

abbrev pub substr : Text → ℕ → ℕ → Text
substr txt from count = take count (drop from txt)

-- The loop at `initial_pos`, on fuel.
unfoldable pub split_loop : ℕ → Text → ℕ → ℕ → List Text
split_loop zero txt ch initial_pos = []
split_loop (suc fuel) txt ch initial_pos = elim (find txt ch initial_pos) [
  | none ↦ substr txt initial_pos (length txt - initial_pos + 1) ∷ []
  | some found ↦ substr txt initial_pos (found - initial_pos) ∷ split_loop fuel txt ch (found + 1)
]

unfoldable pub split : Text → ℕ → List Text
split txt ch = split_loop (suc (length txt)) txt ch 0

abbrev is_space : ℕ → Bool
is_space c = c == b' ' || (leb 9 c && leb c 13)

unfoldable pub skip_spaces : Text → Text
skip_spaces [] = []
skip_spaces (c ∷ cs) = if is_space c then skip_spaces cs else c ∷ cs

-- The sign, true for a minus, and what follows it.
abbrev sign : Text → Bool × Text
sign [] = (false, [])
sign (c ∷ cs) = if c == b'-' then (true, cs) else if c == b'+' then (false, cs) else (false, c ∷ cs)

-- The value of a digit in bases up to 16.
abbrev digit : ℕ → ℕ → Option ℕ
digit base c =
    let value =
      if leb b'0' c && leb c b'9'
      then some (c - b'0')
      else if leb b'a' c && leb c b'f'
      then some (c - b'a' + 10)
      else if leb b'A' c && leb c b'F'
      then some (c - b'A' + 10)
      else none in
    elim value [ none ↦ none | some d ↦ if ltb d base then some d else none ]

-- The digits at the start of a text, after those already read into the value.
unfoldable pub digits : ℕ → ℕ → Text → ℕ
digits base value [] = value
digits base value (c ∷ cs) = elim (digit base c) [
  | none ↦ value
  | some d ↦ digits base (value * base + d) cs
]

-- An optional `0x`; where no digit follows, the zero is the number.
abbrev skip_prefix : Text → Text
skip_prefix (a ∷ x ∷ cs) = if a == b'0' && (x == b'x' || x == b'X') then cs else a ∷ x ∷ cs
skip_prefix s = s

-- `std::strtoul(s, 0, 16)`: the largest value stands for one that does not fit, and a minus negates
-- modulo 2 ^ 64.
unfoldable pub strtoul : Text → ℕ
strtoul s =
    let (negative, body) = sign (skip_spaces s) in
    let value = digits 16 0 (skip_prefix body) in
    if leb (2 ^ 64) value then 2 ^ 64 - 1 else if negative then (2 ^ 64 - value) % 2 ^ 64 else value

abbrev starts_number : Text → Bool
starts_number [] = false
starts_number (c ∷ cs) = leb b'0' c && leb c b'9'

abbrev negate : ℕ → ℤ
negate zero = pos 0
negate (suc n) = negsuc n

-- `std::stoi(s)`, which throws where there is no number or it does not fit an `int`.
unfoldable pub stoi : Text → Outcome ℤ
stoi s =
    let (negative, body) = sign (skip_spaces s) in
    let value = digits 10 0 body in
    if starts_number body
    then (if negative
        then (if leb value (2 ^ 31) then ok (negate value) else fault throws)
        else (if ltb value (2 ^ 31) then ok (pos value) else fault throws))
    else fault throws

-- `x & 0xff` of an `int`.
abbrev pub low_byte : ℤ → ℕ
low_byte (pos n) = n % 256
low_byte (negsuc n) = 255 - n % 256
