-- ===== src/Prelude/Text.antt =====
-- Go's order on strings, which is that of their bytes, and strings.Contains.
use Prim.Native.String.{String, [], ◌∷◌, compare}
use Prim.Native.Nat.{Ordering}
use mathlib.Core.Bool.{Bool, true, false, ◌||◌}
use text.Mathlib.Text.{starts_with}

-- Valid UTF-8 has the order of its code points.
abbrev pub string_lt : String → String → Bool
string_lt s t = elim (compare s t) [ Ordering.lt ↦ true | _ ↦ false ]

unfoldable pub has_substring : String → String → Bool
has_substring [] p = starts_with [] p
has_substring (c ∷ s) p = starts_with (c ∷ s) p || has_substring s p
