-- ===== src/Base/Samples.antt =====
-- Texts for concrete runs: a number as a text, and two texts as one.
use Prim.Native.Nat.{ℕ, zero, suc}
use Prim.Native.Char.{Char, nul, code}
use Prim.Native.String.{String}
use mathlib.Core.Path.{◌≡◌, refl, ap}
use substy.Base.Tests.{◌==◌, if◌then◌else◌}
use substy.Base.Text.{char_count}

-- A number as a text of that many characters.
unfoldable pub tally : ℕ → String
tally zero = ""
tally (suc n) = String.◌∷◌ nul (tally n)

pub char_count-tally : (n : ℕ) → char_count (tally n) ≡ n
unfolding tally char_count
char_count-tally zero = refl
char_count-tally (suc n) = ap suc (char_count-tally n)

abbrev first_char : String → Char
first_char String.[] = nul
first_char (String.◌∷◌ c s) = c

-- A tally, a comma, and another text.
unfoldable pub with_comma : String → String → String
with_comma String.[] t = String.◌∷◌ (first_char ",") t
with_comma (String.◌∷◌ c s) t = String.◌∷◌ c (with_comma s t)

unfoldable pub halves : String → String × String
halves String.[] = ("", "")
halves (String.◌∷◌ c s) =
    let (a, b) = halves s in if code c == 0 then (String.◌∷◌ c a, b) else ("", s)

pub halves-with_comma : (n : ℕ) (t : String) → halves (with_comma (tally n) t) ≡ (tally n, t)
unfolding tally halves with_comma
halves-with_comma zero t = refl
halves-with_comma (suc n) t = rw (halves-with_comma n t) refl
