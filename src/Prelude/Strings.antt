-- ===== src/Prelude/Strings.antt =====
-- A JavaScript string as the list of its UTF-16 code units, so that `length` is the source's.
use Prim.Native.Nat.{ℕ, ◌+◌}
use Prim.Native.Char.{code}
use Prim.Native.String.{String}
use mathlib.Core.Bool.{Bool, ◌&&◌, ◌||◌}
use mathlib.Core.List.{List, [], ◌∷◌, map}
use mathlib.Core.Option.{Option, none, some}
use powerotp.Prelude.Tests.{HasEq, ◌==◌, is_some, nat_eq, leb, if◌then◌else◌}
use powerotp.Prelude.Lists.{list_beq, list_beq_iff, every, includes}

abbrev pub Text : Type 0
Text = List ℕ

-- A literal of the source; all of them are ASCII.
abbrev pub text : String → Text
text String.[] = []
text (String.◌∷◌ c s) = code c ∷ text s

instance abbrev pub text_eq : HasEq Text
text_eq = record { test = list_beq; test_iff = list_beq_iff }

-- `a <= c && c <= b`
abbrev pub within : ℕ → ℕ → ℕ → Bool
within a b c = leb a c && leb c b

abbrev pub is_digit : ℕ → Bool
is_digit = within 48 57

-- A code unit that `trim` removes.
abbrev pub is_space : ℕ → Bool
is_space c =
    within 9 13 c
    || within 0x2000 0x200a c
    || includes (32 ∷ 160 ∷ 0x1680 ∷ 0x2028 ∷ 0x2029 ∷ 0x202f ∷ 0x205f ∷ 0x3000 ∷ 0xfeff ∷ []) c

abbrev pub trim_start : Text → Text
trim_start [] = []
trim_start (c ∷ s) = if is_space c then trim_start s else c ∷ s

abbrev pub trim_end : Text → Text
trim_end [] = []
trim_end (c ∷ s) = if every is_space (c ∷ s) then [] else c ∷ trim_end s

-- `s.trim()`
abbrev pub trim : Text → Text
trim s = trim_end (trim_start s)

-- What follows a prefix, if the text has it.
abbrev pub strip : Text → Text → Option Text
strip [] s = some s
strip (c ∷ prefix) [] = none
strip (c ∷ prefix) (d ∷ s) = let rest = strip prefix s in if c == d then rest else none

-- `s.startsWith(prefix)`
abbrev pub starts_with : Text → Text → Bool
starts_with prefix s = is_some (strip prefix s)

-- `s.toLowerCase()`, of the letters of ASCII.
abbrev pub lower : Text → Text
lower s = map (λ c. if within 65 90 c then c + 32 else c) s
