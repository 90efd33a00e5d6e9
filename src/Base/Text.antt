-- ===== src/Base/Text.antt =====
-- C strings as lists of bytes, with the comparisons of string.h.
use Prim.Native.Nat.{ℕ}
use Prim.Native.Char.{code}
use Prim.Native.String.{String}
use mathlib.Core.Bool.{Bool, true, false, ◌&&◌}
use mathlib.Core.List.{List, [], ◌∷◌}
use cvr_video.Base.Tests.{◌==◌, if◌then◌else◌}

-- The bytes of an ASCII literal.
abbrev pub codes : String → List ℕ
codes String.[] = []
codes (String.◌∷◌ c s) = code c ∷ codes s

-- The C string at the start of the bytes.
unfoldable pub c_string : List ℕ → List ℕ
c_string [] = []
c_string (c ∷ text) = if c == 0 then [] else c ∷ c_string text

-- strncmp(prefix, text, strlen(prefix)) == 0
unfoldable pub starts_with : List ℕ → List ℕ → Bool
starts_with [] text = true
starts_with (p ∷ ps) [] = false
starts_with (p ∷ ps) (c ∷ cs) = p == c && starts_with ps cs

-- strcmp(a, b) == 0
unfoldable pub same_text : List ℕ → List ℕ → Bool
same_text [] [] = true
same_text (a ∷ as') (b ∷ bs) = a == b && same_text as' bs
same_text _ _ = false

-- strstr(text, piece) != NULL
unfoldable pub contains : List ℕ → List ℕ → Bool
contains piece [] = starts_with piece []
contains piece (c ∷ cs) =
    let rest = contains piece cs in if starts_with piece (c ∷ cs) then true else rest

-- strchr(text, '=') + 1; the callers have seen the sign.
unfoldable pub behind_equals : List ℕ → List ℕ
behind_equals [] = []
behind_equals (c ∷ cs) = let rest = behind_equals cs in if c == b'=' then cs else rest
