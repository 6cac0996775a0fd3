-- ===== src/Prelude/Text.antt =====
-- Python texts that the program takes apart, as lists of code points, with the `str` methods that
-- it calls. `lower` is written out for ASCII; a letter outside ASCII is left as it is.
use Prim.Native.Nat.{ℕ, ◌+◌, ◌-◌}
use Prim.Native.Char.{code}
use Prim.Native.String.{String}
use mathlib.Core.Bool.{Bool, true, false, ◌&&◌, ◌||◌}
use mathlib.Core.List.{List, [], ◌∷◌, map, reverse}
use cora_os.Prelude.Tests.{leb, ◌==◌, if◌then◌else◌}

abbrev pub Text : Type 0
Text = List ℕ

abbrev pub codes : String → Text
codes String.[] = []
codes (String.◌∷◌ c s) = code c ∷ codes s

-- str.isspace of one code point
unfoldable pub is_space : ℕ → Bool
is_space c =
    (leb 9 c && leb c 13)
    || (leb 28 c && leb c 32)
    || c == 133
    || c == 160
    || c == 0x1680
    || (leb 0x2000 c && leb c 0x200A)
    || c == 0x2028
    || c == 0x2029
    || c == 0x202F
    || c == 0x205F
    || c == 0x3000

unfoldable pub lstrip : Text → Text
unfolding is_space
lstrip [] = []
lstrip (c ∷ t) = if is_space c then lstrip t else c ∷ t

-- str.strip
unfoldable pub strip : Text → Text
unfolding lstrip
strip t = reverse (lstrip (reverse (lstrip t)))

-- not t.strip()
unfoldable pub is_blank : Text → Bool
unfolding is_space
is_blank [] = true
is_blank (c ∷ t) = is_space c && is_blank t

unfoldable pub lower_char : ℕ → ℕ
lower_char c = if leb 65 c && leb c 90 then c + 32 else c

-- str.lower
unfoldable pub lower : Text → Text
unfolding lower_char
lower = map lower_char

abbrev upper_char : ℕ → ℕ
upper_char c = if leb 97 c && leb c 122 then c - 32 else c

-- str.upper
unfoldable pub upper : Text → Text
upper = map upper_char

-- t == u
abbrev pub text_eq : Text → Text → Bool
text_eq [] [] = true
text_eq [] (_ ∷ _) = false
text_eq (_ ∷ _) [] = false
text_eq (c ∷ t) (d ∷ u) = c == d && text_eq t u

-- t.startswith(p)
abbrev pub starts_with : Text → Text → Bool
starts_with t [] = true
starts_with [] (_ ∷ _) = false
starts_with (c ∷ t) (d ∷ p) = c == d && starts_with t p

-- p in t
abbrev pub has_part : Text → Text → Bool
has_part [] p = starts_with [] p
has_part (c ∷ t) p = starts_with (c ∷ t) p || has_part t p

-- t.endswith(p)
abbrev pub ends_with : Text → Text → Bool
ends_with [] p = text_eq [] p
ends_with (c ∷ t) p = text_eq (c ∷ t) p || ends_with t p
