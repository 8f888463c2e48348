-- ===== src/Base/Text.antt =====
-- Text: `str.upper` and `str.lower` on ASCII text, concatenation, `startswith`, `in`, and `split(':')`.
use Prim.Native.Char.{Char, code}
use Prim.Native.String.{String}
use mathlib.Core.Bool.{Bool, true, false, ◌&&◌, ◌||◌}
use mathlib.Core.Option.{Option, none, some}
use trading_hub.Base.Tests.{eqb, ltb, if◌then◌else◌}

-- The letter that stands where `c` stands in the first text, or `c` itself.
swap_letter : String → String → Char → Char
swap_letter String.[] us c = c
swap_letter (String.◌∷◌ l ls) String.[] c = c
swap_letter (String.◌∷◌ l ls) (String.◌∷◌ u us) c =
    if eqb (code c) (code l) then u else swap_letter ls us c

unfoldable pub upper : String → String
unfolding swap_letter
upper String.[] = String.[]
upper (String.◌∷◌ c s) =
    String.◌∷◌ (swap_letter "abcdefghijklmnopqrstuvwxyz" "ABCDEFGHIJKLMNOPQRSTUVWXYZ" c) (upper s)

unfoldable pub lower : String → String
unfolding swap_letter
lower String.[] = String.[]
lower (String.◌∷◌ c s) =
    String.◌∷◌ (swap_letter "ABCDEFGHIJKLMNOPQRSTUVWXYZ" "abcdefghijklmnopqrstuvwxyz" c) (lower s)

unfoldable pub cat : String → String → String
cat String.[] t = t
cat (String.◌∷◌ c s) t = String.◌∷◌ c (cat s t)

-- `s.startswith(p)`
unfoldable pub starts_with : String → String → Bool
starts_with s String.[] = true
starts_with String.[] (String.◌∷◌ d p) = false
starts_with (String.◌∷◌ c s) (String.◌∷◌ d p) = eqb (code c) (code d) && starts_with s p

-- `p in s`
unfoldable pub has_text : String → String → Bool
unfolding starts_with
has_text p String.[] = starts_with "" p
has_text p (String.◌∷◌ c s) = starts_with (String.◌∷◌ c s) p || has_text p s

-- `s.split(':')[0]`
unfoldable pub until_colon : String → String
until_colon String.[] = String.[]
until_colon (String.◌∷◌ c s) =
    let rest = until_colon s in if eqb (code c) 58 then String.[] else String.◌∷◌ c rest

-- What follows the first colon, if there is one.
unfoldable pub after_colon : String → Option String
after_colon String.[] = none
after_colon (String.◌∷◌ c s) = let rest = after_colon s in if eqb (code c) 58 then some s else rest

-- `s <= t` on text, by code points.
unfoldable pub text_leb : String → String → Bool
text_leb String.[] t = true
text_leb (String.◌∷◌ c s) String.[] = false
text_leb (String.◌∷◌ c s) (String.◌∷◌ d t) =
    let rest = text_leb s t in if ltb (code c) (code d) then true else eqb (code c) (code d) && rest
