-- ===== src/Base/Text.antt =====
-- Equality of texts as a decision, for the array paths, and the characters of a text.
use Prim.Native.Char.{code}
use Prim.Native.String.{String, [], ◌∷◌}
use text.Mathlib.Text.{◌==◌ as str_eq}
use text.Mathlib.TextEquality.{eq_iff}
use insitubatch.Base.{◌≡◌, refl, ℕ, Bool, true, false, ◌||◌, ◌==◌}

pub str_ne : (s t : String) → str_eq s t ≡ false → ¬ (s ≡ t)
str_ne s t e p = cc ((eq_iff s t).1 p)

abbrev decide_text : (s t : String) (b : Bool) → str_eq s t ≡ b → Dec (s ≡ t)
decide_text s t true e = yes ((eq_iff s t).0 e)
decide_text s t false e = no (str_ne s t e)

abbrev pub String-discrete : Discrete String
String-discrete s t = decide_text s t (str_eq s t) refl

-- Whether the text has the character with a number.
unfoldable pub has_char : ℕ → String → Bool
has_char n [] = false
has_char n (c ∷ s) = code c == n || has_char n s
