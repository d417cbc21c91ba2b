-- ===== src/Base/Text.antt =====
-- Python's order of `str`, by code points, as `sorted` and `<=` use it.
use Prim.Native.Char.{code}
use Prim.Native.String.{String}
use mathlib.Core.Path.{◌≡◌, refl}
use mathlib.Core.Bool.{Bool, true, false, ◌||◌}
use native.Mathlib.Omega.{arith}
use edlink_rostering.Base.Tests.{ltb, eqb, if◌then◌else◌}

-- `s <= t`
unfoldable pub str_leb : String → String → Bool
str_leb String.[] t = true
str_leb (String.◌∷◌ c s) String.[] = false
str_leb (String.◌∷◌ c s) (String.◌∷◌ d t) =
    ltb (code c) (code d) || (if eqb (code c) (code d) then str_leb s t else false)

pub str_leb_refl : (s : String) → str_leb s s ≡ true
unfolding str_leb
str_leb_refl String.[] = refl
str_leb_refl (String.◌∷◌ c s) = ground (arith, str_leb_refl s)

pub str_leb_trans : (s t u : String) → str_leb s t ≡ true → str_leb t u ≡ true → str_leb s u ≡ true
unfolding str_leb
str_leb_trans String.[] t u p q = refl
str_leb_trans (String.◌∷◌ c s) String.[] u p q = ground arith
str_leb_trans (String.◌∷◌ c s) (String.◌∷◌ d t) String.[] p q = ground arith
str_leb_trans (String.◌∷◌ c s) (String.◌∷◌ d t) (String.◌∷◌ e u) p q =
    ground (arith, str_leb_trans s t u)

-- Of two texts one is at most the other.
pub str_leb_total : (s t : String) → str_leb s t ≡ false → str_leb t s ≡ true
unfolding str_leb
str_leb_total String.[] t p = ground arith
str_leb_total (String.◌∷◌ c s) String.[] p = refl
str_leb_total (String.◌∷◌ c s) (String.◌∷◌ d t) p = ground (arith, str_leb_total s t)

str_leb_examples :
    (str_leb "evt-001" "evt-002" ≡ true)
    × (str_leb "evt-10" "evt-9" ≡ true)
    × (str_leb "b" "a" ≡ false)
unfolding str_leb
str_leb_examples = (refl, refl, refl)
