-- ===== src/Base/Numeral/Reading.antt =====
-- Digits, and the reading of a number from the code points of a text, as `int(text, base)` does.
use Prim.Native.Nat.{ℕ, zero, suc, ◌+◌, ◌-◌, ◌*◌, ◌/◌, ◌%◌}
use Prim.Native.Char.{code}
use Prim.Native.String.{String, ◌++◌ as ◌<>◌}
use mathlib.Core.Path.{◌≡◌, refl}
use mathlib.Core.Bool.{Bool, true, false, ◌&&◌, ◌||◌}
use mathlib.Core.Option.{Option, none, some}
use mathlib.Core.List.{List, [], ◌∷◌}
use buildoor_tester.Base.Tests.{ltb, leb, ◌==◌, if◌then◌else◌}
use buildoor_tester.Base.Lists.{is_empty}
use buildoor_tester.Base.Int.{ℤ, pos, negsuc, sub_ℕ}

-- The code points of a text.
abbrev pub codes : String → List ℕ
codes String.[] = []
codes (String.◌∷◌ c s) = code c ∷ codes s

abbrev nth : List String → ℕ → String
nth [] i = ""
nth (x ∷ xs) zero = x
nth (x ∷ xs) (suc i) = nth xs i

-- The text of one digit below 16.
unfoldable pub digit : ℕ → String
digit d =
    nth
      ("0" ∷ "1" ∷ "2" ∷ "3" ∷ "4" ∷ "5" ∷ "6" ∷ "7" ∷ "8" ∷ "9" ∷ "a" ∷ "b" ∷ "c" ∷ "d" ∷ "e" ∷ "f"
        ∷ [])
      d

abbrev pub is_space : ℕ → Bool
is_space c = (leb 9 c && leb c 13) || (leb 28 c && leb c 32)

abbrev pub digit_value : ℕ → Option ℕ
digit_value c =
    if leb b'0' c && leb c b'9'
    then some (c - 48)
    else if leb b'a' c && leb c b'f'
    then some (c - 87)
    else if leb b'A' c && leb c b'F'
    then some (c - 55)
    else none

abbrev below_base : ℕ → Option ℕ → Option ℕ
below_base base none = none
below_base base (some d) = if ltb d base then some d else none

-- Digits with single underscores between them. The flag tells that a digit was read last.
unfoldable pub read_digits : ℕ → ℕ → Bool → List ℕ → Option ℕ
read_digits base acc after [] = if after then some acc else none
read_digits base acc after (c ∷ s) =
    let separated = if after then read_digits base acc false s else none in
    let extended : Option ℕ = elim (below_base base (digit_value c)) [
      | none ↦ none
      | some d ↦ read_digits base (acc * base + d) true s
    ] in
    if c == b'_' then separated else extended

abbrev pub skip_underscore : List ℕ → List ℕ
skip_underscore [] = []
skip_underscore (c ∷ s) = if c == b'_' then s else c ∷ s

-- A text in base 16 may begin with `0x`, and one underscore may follow that.
unfoldable pub skip_prefix : ℕ → List ℕ → List ℕ
skip_prefix base [] = []
skip_prefix base (c ∷ []) = c ∷ []
skip_prefix base (c ∷ x ∷ s) =
    if base == 16 && c == b'0' && (x == b'x' || x == b'X') then skip_underscore s else c ∷ x ∷ s

abbrev pub unsigned : Option ℕ → Option ℤ
unsigned none = none
unsigned (some n) = some (pos n)

abbrev negated : Option ℕ → Option ℤ
negated none = none
negated (some n) = some (sub_ℕ 0 n)

unfoldable pub read_magnitude : ℕ → List ℕ → Option ℕ
unfolding skip_prefix read_digits
read_magnitude base s = read_digits base 0 false (skip_prefix base s)

unfoldable pub read_signed : ℕ → List ℕ → Option ℤ
unfolding read_magnitude
read_signed base [] = none
read_signed base (c ∷ s) =
    if c == b'-'
    then negated (read_magnitude base s)
    else if c == b'+'
    then unsigned (read_magnitude base s)
    else unsigned (read_magnitude base (c ∷ s))

unfoldable pub strip_left : List ℕ → List ℕ
strip_left [] = []
strip_left (c ∷ s) = let rest = strip_left s in if is_space c then rest else c ∷ s

unfoldable pub strip_right : List ℕ → List ℕ
strip_right [] = []
strip_right (c ∷ s) =
    let rest = strip_right s in if is_space c && is_empty rest then [] else c ∷ rest

-- `int(text, base)` for base 10 or 16; `none` is a `ValueError`.
unfoldable pub int_of : ℕ → String → Option ℤ
unfolding read_signed strip_left strip_right
int_of base text = read_signed base (strip_right (strip_left (codes text)))

-- The digits of `n`, with fuel above `n`.
unfoldable pub digits_in : ℕ → ℕ → ℕ → String
digits_in base zero n = ""
digits_in base (suc f) n =
    let more = digits_in base f (n / base) <> digit (n % base) in
    if ltb n base then digit n else more

-- `hex(value)`.
unfoldable pub hex : ℤ → String
unfolding digits_in digit
hex (pos n) = "0x" <> digits_in 16 (suc n) n
hex (negsuc n) = "-0x" <> digits_in 16 (suc (suc n)) (suc n)

-- `str(value)` of an `int`.
unfoldable pub decimal : ℤ → String
unfolding digits_in digit
decimal (pos n) = digits_in 10 (suc n) n
decimal (negsuc n) = "-" <> digits_in 10 (suc (suc n)) (suc n)

reads_back : int_of 16 (hex (pos 3338477)) ≡ some (pos 3338477)
unfolding int_of hex
reads_back = refl

reads_signed : int_of 16 " -0x_1F " ≡ some (negsuc 30)
unfolding int_of
reads_signed = refl

reads_decimal : int_of 10 (decimal (negsuc 41)) ≡ some (negsuc 41)
unfolding int_of decimal
reads_decimal = refl

refuses : int_of 10 "1__0" ≡ none
unfolding int_of
refuses = refl
