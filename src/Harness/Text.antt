-- ===== src/Harness/Text.antt =====
-- The C library's functions on strings, as packages/emu86/harness/control.c uses them.
--
-- A string is the list of its bytes, without the NUL at its end.
use Prim.Native.Char.{code}
use Prim.Native.String.{String}
use huxley.Base.{ℕ, zero, suc, ◌+◌, ◌-◌, ◌*◌, ◌/◌, ◌%◌, ◌^◌, ltb, leb, ◌==◌, if◌then◌else◌}
use huxley.Base.{
  Bool, true, false, ◌&&◌, ◌||◌, Option, none, some, List, [], ◌∷◌, ◌++◌, length, u64,
}

-- The bytes of a literal.
abbrev pub codes : String → List ℕ
codes String.[] = []
codes (String.◌∷◌ c s) = code c ∷ codes s

abbrev pub is_empty : List ℕ → Bool
is_empty [] = true
is_empty (c ∷ s) = false

-- `strcmp(a, b) == 0`
unfoldable pub is_same : List ℕ → List ℕ → Bool
is_same [] [] = true
is_same [] (b ∷ ys) = false
is_same (a ∷ xs) [] = false
is_same (a ∷ xs) (b ∷ ys) = (a == b) && is_same xs ys

-- `strchr(s, c)`: the bytes before the first `c` and those behind it, or `none`.
unfoldable pub strchr : List ℕ → ℕ → Option (List ℕ × List ℕ)
strchr [] c = none
strchr (a ∷ xs) c =
    let rest = strchr xs c in
    if a == c
    then some ([], xs)
    else elim rest [ none ↦ none | some (before, after) ↦ some (a ∷ before, after) ]

unfoldable pub take : ℕ → List ℕ → List ℕ
take zero s = []
take (suc n) [] = []
take (suc n) (c ∷ s) = c ∷ take n s

-- What `snprintf` leaves in a buffer of `size` bytes, at least one, that is given the text `s`.
unfoldable pub snprintf : ℕ → List ℕ → List ℕ
unfolding take
snprintf size s = take (size - 1) s

-- The digits of `%llu`: 20 are enough for 64 bits.
unfoldable pub digits : ℕ → ℕ → List ℕ
digits zero n = []
digits (suc fuel) n =
    let front = digits fuel (n / 10) in
    if ltb n 10 then (48 + n) ∷ [] else front ++ (48 + n % 10) ∷ []

unfoldable pub decimal : ℕ → List ℕ
unfolding digits
decimal n = digits 20 n

abbrev pub spaces : ℕ → List ℕ
spaces zero = []
spaces (suc n) = b' ' ∷ spaces n

-- `%-ns`
abbrev pub pad_right : ℕ → List ℕ → List ℕ
pad_right n s = s ++ spaces (n - length s)

-- `isspace` and `isdigit`
abbrev pub is_space : ℕ → Bool
is_space c = (c == b' ') || (leb 9 c && leb c 13)

abbrev pub is_digit : ℕ → Bool
is_digit c = leb b'0' c && leb c b'9'

unfoldable pub skip_spaces : List ℕ → List ℕ
skip_spaces [] = []
skip_spaces (c ∷ s) = if is_space c then skip_spaces s else c ∷ s

-- The value of the digits in front, and what stands behind them.
unfoldable pub number : ℕ → List ℕ → ℕ × List ℕ
number acc [] = (acc, [])
number acc (c ∷ s) = if is_digit c then number (10 * acc + (c - 48)) s else (acc, c ∷ s)

-- A number out of range is `ULLONG_MAX`; a minus sign negates in `unsigned long long`.
abbrev pub in_range : Bool → ℕ → ℕ
in_range negative n =
    if leb (2 ^ 64) n then 2 ^ 64 - 1 else (if negative then u64 (2 ^ 64 - n) else n)

unfoldable pub unsigned_part : Bool → List ℕ → Option (ℕ × List ℕ)
unfolding number
unsigned_part negative [] = none
unsigned_part negative (c ∷ s) =
    let (n, rest) = number 0 (c ∷ s) in
    if is_digit c then some (in_range negative n, rest) else none

unfoldable pub signed_part : List ℕ → Option (ℕ × List ℕ)
unfolding unsigned_part
signed_part [] = none
signed_part (c ∷ s) =
    if c == b'-'
    then unsigned_part true s
    else (if c == b'+' then unsigned_part false s else unsigned_part false (c ∷ s))

-- `strtoull(s, &end, 10)`: the value and the bytes from `end` on, or `none` for `end == s`.
unfoldable pub strtoull : List ℕ → Option (ℕ × List ℕ)
unfolding signed_part skip_spaces
strtoull s = signed_part (skip_spaces s)
