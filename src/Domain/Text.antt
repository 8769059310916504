-- ===== src/Domain/Text.antt =====
-- The text predicates that src/coding_harness/domain/approvals.py,
-- src/coding_harness/domain/budgets.py and src/coding_harness/transaction/conflicts.py share, the
-- length of a text in UTF-8 and the concatenation of two texts.
use Prim.Native.Char.{Char, code}
use Prim.Native.String.{String}
use ai_coding_agent_harness.Base.{
  ◌+◌, ltb, if◌then◌else◌, ℕ, suc, Bool, true, false, not, ◌&&◌, ◌||◌, Option, none, some, leb,
  ◌==◌, nat_comparable,
}

-- `"\0" in value`
unfoldable pub has_nul : String → Bool
has_nul String.[] = false
has_nul (String.◌∷◌ c s) = (code c == 0) || has_nul s

-- `_is_text`: non-empty and without NUL.
unfoldable pub is_text : String → Bool
unfolding has_nul
is_text String.[] = false
is_text (String.◌∷◌ c s) = not (has_nul (String.◌∷◌ c s))

-- `character in "0123456789abcdef"`
abbrev pub is_hex : Char → Bool
is_hex c = (leb b'0' (code c) && leb (code c) b'9') || (leb b'a' (code c) && leb (code c) b'f')

unfoldable pub all_hex : String → Bool
all_hex String.[] = true
all_hex (String.◌∷◌ c s) = is_hex c && all_hex s

-- `len(value)`, in characters.
unfoldable pub text_length : String → ℕ
text_length String.[] = 0
text_length (String.◌∷◌ c s) = suc (text_length s)

-- `_is_digest`: 64 lower-case hexadecimal digits.
unfoldable pub is_digest : String → Bool
unfolding all_hex text_length
is_digest s = (text_length s == 64) && all_hex s

-- `bool(value)`
unfoldable pub nonempty_text : String → Bool
nonempty_text String.[] = false
nonempty_text _ = true

-- `_optional_text_is_valid`
unfoldable pub optional_text_is_valid : Option String → Bool
unfolding is_text
optional_text_is_valid none = true
optional_text_is_valid (some s) = is_text s

-- The length of a character in UTF-8, and of a text.
abbrev pub utf8_width : Char → ℕ
utf8_width c =
    if ltb (code c) 0x80
    then 1
    else if ltb (code c) 0x800
    then 2
    else if ltb (code c) 0x10000
    then 3
    else 4

unfoldable pub utf8_length : String → ℕ
utf8_length String.[] = 0
utf8_length (String.◌∷◌ c s) = utf8_width c + utf8_length s

-- `prefix + text`
unfoldable pub concat : String → String → String
concat String.[] text = text
concat (String.◌∷◌ c prefix) text = String.◌∷◌ c (concat prefix text)
