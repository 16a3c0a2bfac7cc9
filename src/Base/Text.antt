-- ===== src/Base/Text.antt =====
-- Python strings: equality, truth, slices from the start, and `strip`.
use Prim.Native.Nat.{ℕ, zero, suc}
use Prim.Native.Char.{Char, code}
use Prim.Native.String
use Prim.Native.String.{String}
use mathlib.Core.Bool.{Bool, true, false, not, ◌&&◌, ◌||◌}
use mathlib.Core.Path.{◌≡◌, refl}
use mathlib.Core.List.{List, [], ◌∷◌}
use mathlib.Core.Option.{Option, none, some}
use substy.Base.Tests.{leb, ◌==◌, if◌then◌else◌}
pub use text.Mathlib.Text.{◌==◌ as str_eq}
pub use text.Mathlib.TextEquality.{eq_iff}
pub use text.Mathlib.TextPositions.{eq_refl}

-- `if s:`
abbrev pub truthy : String → Bool
truthy s = not (str_eq s "")

-- `if s:` for a value that may be None
abbrev pub truthy? : Option String → Bool
truthy? none = false
truthy? (some s) = truthy s

-- `s or d` for a value that may be None
abbrev pub or_default : Option String → String → String
or_default none d = d
or_default (some s) d = if truthy s then s else d

-- `s[:n]`, by characters
unfoldable pub take_chars : ℕ → String → String
take_chars zero s = ""
take_chars (suc n) String.[] = ""
take_chars (suc n) (String.◌∷◌ c s) = String.◌∷◌ c (take_chars n s)

-- `len(s)`, by characters
unfoldable pub char_count : String → ℕ
char_count String.[] = 0
char_count (String.◌∷◌ c s) = suc (char_count s)

-- The code points that `str.isspace` accepts.
unfoldable pub is_space : ℕ → Bool
is_space c =
    (leb 9 c && leb c 13)
    || (leb 28 c && leb c 32)
    || c == 0x85
    || c == 0xa0
    || c == 0x1680
    || (leb 0x2000 c && leb c 0x200a)
    || (leb 0x2028 c && leb c 0x2029)
    || c == 0x202f
    || c == 0x205f
    || c == 0x3000

unfoldable pub lstrip : String → String
unfolding is_space
lstrip String.[] = ""
lstrip (String.◌∷◌ c s) = if is_space (code c) then lstrip s else String.◌∷◌ c s

-- A character in front of a stripped rest: white space in front of nothing goes.
unfoldable pub keep_char : Char → String → String
unfolding is_space
keep_char c String.[] = if is_space (code c) then "" else String.◌∷◌ c ""
keep_char c (String.◌∷◌ d s) = String.◌∷◌ c (String.◌∷◌ d s)

unfoldable pub rstrip : String → String
unfolding keep_char
rstrip String.[] = ""
rstrip (String.◌∷◌ c s) = keep_char c (rstrip s)

-- `s.strip()`
unfoldable pub strip : String → String
unfolding lstrip rstrip
strip s = lstrip (rstrip s)

of_reversed : List Char → String → String
of_reversed [] s = s
of_reversed (c ∷ cs) s = of_reversed cs (String.◌∷◌ c s)

-- `s.split(sep)`, at one character; `field` is what was read of the current piece, reversed.
split_from : ℕ → List Char → String → List String
split_from sep field String.[] = of_reversed field "" ∷ []
split_from sep field (String.◌∷◌ c s) =
    let piece = of_reversed field "" ∷ split_from sep [] s in
    let inside = split_from sep (c ∷ field) s in if code c == sep then piece else inside

unfoldable pub split : ℕ → String → List String
unfolding split_from of_reversed
split sep s = split_from sep [] s

-- `s.startswith(p)`
unfoldable pub starts_with : String → String → Bool
starts_with String.[] s = true
starts_with (String.◌∷◌ c p) String.[] = false
starts_with (String.◌∷◌ c p) (String.◌∷◌ d s) = code c == code d && starts_with p s

-- `s.removeprefix(p)` where `s` starts with `p`
unfoldable pub drop_prefix : String → String → String
drop_prefix String.[] s = s
drop_prefix (String.◌∷◌ c p) String.[] = ""
drop_prefix (String.◌∷◌ c p) (String.◌∷◌ d s) = drop_prefix p s

-- `s.replace("\\n", "\n")`: a backslash and an `n` become the end of a line.
unfoldable pub unescape_newlines : String → String
unescape_newlines String.[] = ""
unescape_newlines (String.◌∷◌ c String.[]) = String.◌∷◌ c ""
unescape_newlines (String.◌∷◌ c (String.◌∷◌ d s)) =
    let replaced = String.◌++◌ "\n" (unescape_newlines s) in
    let kept = String.◌∷◌ c (unescape_newlines (String.◌∷◌ d s)) in
    if code c == 92 && code d == b'n' then replaced else kept

-- `sep.join(xs)`
unfoldable pub joined_by : String → List String → String
joined_by sep [] = ""
joined_by sep (x ∷ []) = x
joined_by sep (x ∷ y ∷ ys) = String.◌++◌ x (String.◌++◌ sep (joined_by sep (y ∷ ys)))

-- `s.split(sep)[0]`
unfoldable pub first_piece : ℕ → String → String
unfolding split
first_piece sep s = head_or (split sep s)
  where
    head_or : List String → String
    head_or [] = ""
    head_or (x ∷ xs) = x

-- `s in xs`
unfoldable pub member : String → List String → Bool
member s [] = false
member s (x ∷ xs) = str_eq x s || member s xs

strip_example : strip "  New York\t " ≡ "New York"
unfolding strip
strip_example = refl

split_example : split b',' "push,,web" ≡ "push" ∷ "" ∷ "web" ∷ []
unfolding split of_reversed
split_example = refl

unescape_example : unescape_newlines "a\\nb" ≡ "a\nb"
unfolding unescape_newlines
unescape_example = refl

first_piece_example : first_piece b',' "10.0.0.1, 10.0.0.2" ≡ "10.0.0.1"
unfolding first_piece split of_reversed
first_piece_example = refl

joined_example : joined_by "," ("admin" ∷ "user" ∷ []) ≡ "admin,user"
unfolding joined_by
joined_example = refl

prefix_example : starts_with "Bearer " "Bearer x" ≡ true
unfolding starts_with
prefix_example = refl
