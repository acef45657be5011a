-- ===== src/Prelude/Order.antt =====
-- The order of texts by code points, which is SQLite's order of the bytes of UTF-8 text.
use Prim.Native.Char.{code}
use Prim.Native.String.{String}
use mathlib.Core.Path.{◌≡◌, refl}
use mathlib.Core.Bool.{Bool, true, false, ◌||◌}
use native.Mathlib.Omega.{arith}
use agents_python_cloudflare.Prelude.Tests.{ltb, eqb, if◌then◌else◌}

-- `a <= b` on texts.
unfoldable pub text_leb : String → String → Bool
text_leb String.[] t = true
text_leb (String.◌∷◌ c s) String.[] = false
text_leb (String.◌∷◌ c s) (String.◌∷◌ d t) =
    let rest = text_leb s t in
    if ltb (code c) (code d) then true else if eqb (code c) (code d) then rest else false

pub text_leb_total : (s t : String) → (text_leb s t || text_leb t s) ≡ true
unfolding text_leb
text_leb_total String.[] t = refl
text_leb_total (String.◌∷◌ c s) String.[] = refl
text_leb_total (String.◌∷◌ c s) (String.◌∷◌ d t) = ground (arith, text_leb_total s t)
