-- ===== src/Common/Text.antt =====
-- Text as its Unicode code points, and the operations of `str` that the program uses.
use Prim.Native.Nat.{ℕ, ◌+◌, ◌*◌, ◌-◌}
use Prim.Native.Char.{code}
use Prim.Native.String.{String}
use mathlib.Core.Bool.{Bool, true, false, ◌&&◌, ◌||◌}
use mathlib.Core.List.{List, [], ◌∷◌, ◌++◌}
use mathlib.Core.Option.{Option, none, some}
use weather_app.Common.Tests.{leb, eqb, if◌then◌else◌, u64_max}
use weather_app.Common.Keys.{◌==◌, list_eq, nat_eq}

abbrev pub Text : Type 0
Text = List ℕ

-- A literal, as its code points.
abbrev pub text : String → Text
text String.[] = []
text (String.◌∷◌ c s) = code c ∷ text s

abbrev pub is_empty {ℓ} : {A : Type ℓ} → List A → Bool
is_empty [] = true
is_empty (x ∷ xs) = false

-- The code points of the Unicode property White_Space.
unfoldable pub is_whitespace : ℕ → Bool
is_whitespace c =
    (leb 9 c && leb c 13)
    || (eqb c 0x20
        || (eqb c 0x85
            || (eqb c 0xa0
                || (eqb c 0x1680
                    || ((leb 0x2000 c && leb c 0x200a)
                        || (eqb c 0x2028
                            || (eqb c 0x2029
                                || (eqb c 0x202f || (eqb c 0x205f || eqb c 0x3000)))))))))

unfoldable pub trim_start : Text → Text
trim_start [] = []
trim_start (c ∷ s) = if is_whitespace c then trim_start s else c ∷ s

abbrev pub keep_unless_blank : ℕ → Text → Text
keep_unless_blank c [] = if is_whitespace c then [] else c ∷ []
keep_unless_blank c (d ∷ s) = c ∷ d ∷ s

unfoldable pub trim_end : Text → Text
trim_end [] = []
trim_end (c ∷ s) = keep_unless_blank c (trim_end s)

unfoldable pub trim : Text → Text
trim s = trim_end (trim_start s)

abbrev pub keep_unless {ℓ} : {A : Type ℓ} → (A → Bool) → A → List A → List A
keep_unless p c [] = if p c then [] else c ∷ []
keep_unless p c (d ∷ s) = c ∷ d ∷ s

-- `trim_end_matches` with a test of characters.
unfoldable pub trim_end_matches : (ℕ → Bool) → Text → Text
trim_end_matches p [] = []
trim_end_matches p (c ∷ s) = keep_unless p c (trim_end_matches p s)

-- The characters before the first white space.
unfoldable pub before_whitespace : Text → Text
before_whitespace [] = []
before_whitespace (c ∷ s) = if is_whitespace c then [] else c ∷ before_whitespace s

abbrev pub unless_empty : Text → Option Text
unless_empty [] = none
unless_empty (c ∷ s) = some (c ∷ s)

-- `split_whitespace().next()`.
unfoldable pub first_word : Text → Option Text
first_word s = unless_empty (before_whitespace (trim_start s))

abbrev pub push_front : ℕ → List Text → List Text
push_front c [] = (c ∷ []) ∷ []
push_front c (p ∷ ps) = (c ∷ p) ∷ ps

-- `split` at a character: always one more part than there are separators.
unfoldable pub split : ℕ → Text → List Text
split sep [] = [] ∷ []
split sep (c ∷ s) = let rest = split sep s in if eqb c sep then [] ∷ rest else push_front c rest

unfoldable pub join : Text → List Text → Text
join sep [] = []
join sep (p ∷ []) = p
join sep (p ∷ (q ∷ ps)) = p ++ (sep ++ join sep (q ∷ ps))

abbrev pub prepend : ℕ → Option Text → Option Text
prepend c none = none
prepend c (some s) = some (c ∷ s)

unfoldable pub strip_suffix : Text → Text → Option Text
strip_suffix suffix [] = if is_empty suffix then some [] else none
strip_suffix suffix (c ∷ s) =
    let rest = prepend c (strip_suffix suffix s) in if (c ∷ s) == suffix then some [] else rest

-- `rsplit_once` at a character: the texts before and after its last occurrence.
unfoldable pub rsplit_once : ℕ → Text → Option (Text × Text)
rsplit_once sep [] = none
rsplit_once sep (c ∷ s) = elim (rsplit_once sep s) [
  | some (before, after) ↦ some (c ∷ before, after)
  | none ↦ if eqb c sep then some ([], s) else none
]

abbrev pub digits : ℕ → Text → Option ℕ
digits value [] = some value
digits value (c ∷ s) =
    let rest = digits (10 * value + (c - b'0')) s in if leb b'0' c && leb c b'9' then rest else none

abbrev pub within : ℕ → Option ℕ → Option ℕ
within bound none = none
within bound (some n) = if leb n bound then some n else none

abbrev pub unsigned : Text → Option ℕ
unsigned [] = none
unsigned (c ∷ s) = within u64_max (digits 0 (c ∷ s))

-- `str::parse::<usize>`: digits after an optional plus sign, within 64 bits.
unfoldable pub parse_usize : Text → Option ℕ
parse_usize [] = none
parse_usize (c ∷ s) = if eqb c b'+' then unsigned s else unsigned (c ∷ s)
