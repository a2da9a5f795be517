-- ===== src/Text.antt =====
-- Python's `str.upper`, `str.lower` and `str.strip`, on ASCII text: letters outside ASCII stay as
-- they are. Symbols, sides, venues and reason codes are ASCII throughout the program.
use Prim.Native.Char.{Char, code}
use text.Mathlib.Text.{starts_with}
use crypto_trading_mcp.Prelude.{
  String, Bool, true, false, ◌&&◌, ◌||◌, ◌≡◌, refl, Option, none, some, ◌==◌, if◌then◌else◌, eqb,
  leb,
}

unfoldable pub translate_char : String → String → Char → Char
translate_char (String.◌∷◌ a from) (String.◌∷◌ b to) c =
    if eqb (code a) (code c) then b else translate_char from to c
translate_char _ _ c = c

unfoldable pub translate : String → String → String → String
unfolding translate_char
translate from to String.[] = String.[]
translate from to (String.◌∷◌ c s) = String.◌∷◌ (translate_char from to c) (translate from to s)

abbrev lower_letters : String
lower_letters = "abcdefghijklmnopqrstuvwxyz"

abbrev upper_letters : String
upper_letters = "ABCDEFGHIJKLMNOPQRSTUVWXYZ"

unfoldable pub upper : String → String
unfolding translate
upper = translate lower_letters upper_letters

unfoldable pub lower : String → String
unfolding translate
lower = translate upper_letters lower_letters

-- `s.replace(a, b)` for texts of one character.
unfoldable pub replace : String → String → String → String
unfolding translate
replace s a b = translate a b s

-- `s.replace(a, "")` for a text `a` of one character.
unfoldable pub without : String → String → String
without a String.[] = String.[]
without a (String.◌∷◌ c s) =
    if a == String.◌∷◌ c String.[] then without a s else String.◌∷◌ c (without a s)

prepend : Char → Option String → Option String
prepend c none = none
prepend c (some s) = some (String.◌∷◌ c s)

-- `pattern[:-1]` for a pattern that ends in "/*", and `none` for any other.
unfoldable pub wildcard_stem : String → Option String
unfolding prepend
wildcard_stem String.[] = none
wildcard_stem (String.◌∷◌ c s) =
    let rest = prepend c (wildcard_stem s) in if String.◌∷◌ c s == "/*" then some "/" else rest

wildcard_test : wildcard_stem "PREDICT/*" ≡ some "PREDICT/"
unfolding wildcard_stem
wildcard_test = refl

-- The ASCII characters for which `str.isspace` holds.
is_space : Char → Bool
is_space c =
    eqb (code c) 32 || (leb 9 (code c) && leb (code c) 13) || (leb 28 (code c) && leb (code c) 31)

-- `not s.strip()`: nothing but white space.
unfoldable pub is_blank : String → Bool
unfolding is_space
is_blank String.[] = true
is_blank (String.◌∷◌ c s) = if is_space c then is_blank s else false

-- The text without the white space at its end.
strip_right : String → String
unfolding is_blank
strip_right String.[] = String.[]
strip_right (String.◌∷◌ c s) =
    if is_blank (String.◌∷◌ c s) then String.[] else String.◌∷◌ c (strip_right s)

strip_left : String → String
unfolding is_space
strip_left String.[] = String.[]
strip_left (String.◌∷◌ c s) = if is_space c then strip_left s else String.◌∷◌ c s

unfoldable pub strip : String → String
unfolding strip_left strip_right
strip s = strip_right (strip_left s)

strip_test : strip " a b " ≡ "a b"
unfolding strip
strip_test = refl

upper_test : upper "Long-btc/usd" ≡ "LONG-BTC/USD"
unfolding upper
upper_test = refl

lower_test : lower "Paper" ≡ "paper"
unfolding lower
lower_test = refl

is_blank_test : is_blank "  x" ≡ false
unfolding is_blank
is_blank_test = refl

replace_test : replace "BTC-USD" "-" "/" ≡ "BTC/USD"
unfolding replace
replace_test = refl

-- `a in s`
unfoldable pub is_within : String → String → Bool
is_within a String.[] = a == ""
is_within a (String.◌∷◌ c s) = let rest = is_within a s in starts_with (String.◌∷◌ c s) a || rest
