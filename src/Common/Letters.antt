-- ===== src/Common/Letters.antt =====
-- Text as the program tests it: identifiers, membership, prefixes by characters.
use Prim.Native.Nat.{ℕ, zero, suc}
use Prim.Native.Char.{code}
use Prim.Native.String.{String, ◌++◌ as concat}
use mathlib.Core.Bool.{Bool, true, false, ◌&&◌, ◌||◌}
use mathlib.Core.List.{List, [], ◌∷◌}
use text.Mathlib.Text.{◌==◌}
use codex_monitor.Common.Tests.{leb, eqb, if◌then◌else◌}

abbrev pub codes : String → List ℕ
codes String.[] = []
codes (String.◌∷◌ c s) = code c ∷ codes s

-- `x in xs`
unfoldable pub member : String → List String → Bool
member x [] = false
member x (y ∷ ys) = if y == x then true else member x ys

-- `s[:n]`, by characters.
unfoldable pub take_chars : ℕ → String → String
take_chars zero s = ""
take_chars (suc n) String.[] = ""
take_chars (suc n) (String.◌∷◌ c s) = String.◌∷◌ c (take_chars n s)

abbrev pub is_alnum : ℕ → Bool
is_alnum c = (leb 48 c && leb c 57) || ((leb 65 c && leb c 90) || (leb 97 c && leb c 122))

-- `[A-Za-z0-9_.:@/-]`
abbrev pub is_name_char : ℕ → Bool
is_name_char c =
    is_alnum c || (eqb c 95 || (eqb c 46 || (eqb c 58 || (eqb c 64 || (eqb c 47 || eqb c 45)))))

-- `[...]{0,n}` to the end of the text.
unfoldable pub at_most : (ℕ → Bool) → ℕ → List ℕ → Bool
at_most p n [] = true
at_most p zero (c ∷ cs) = false
at_most p (suc n) (c ∷ cs) = p c && at_most p n cs

unfoldable pub all_codes : (ℕ → Bool) → List ℕ → Bool
all_codes p [] = true
all_codes p (c ∷ cs) = p c && all_codes p cs

-- `s + t`, and text put together by an f-string.
unfoldable pub text_append : String → String → String
text_append s t = concat s t
