-- ===== src/Base/Text.antt =====
-- The methods of `str` that the scripts use, over the native text, one code point at a time.
-- Case is changed in ASCII only, and white space is that of Latin-1.
use Prim.Native.Char.{Char, code}
use qos_extended_mros2_esp.Base.Names.{
  ℕ, String, Bool, true, false, ◌&&◌, ◌||◌, Option, none, some, List, [], ◌∷◌, ltb, leb, eqb,
  if◌then◌else◌,
}

-- The code points of a text.
abbrev pub codes : String → List ℕ
codes String.[] = []
codes (String.◌∷◌ c s) = code c ∷ codes s

-- `bool(s)`
abbrev pub nonempty : String → Bool
nonempty String.[] = false
nonempty (String.◌∷◌ c s) = true

-- `str.isspace` of one code point.
abbrev pub is_space : ℕ → Bool
is_space c = (leb 9 c && leb c 13) || (leb 28 c && leb c 32) || eqb c 0x85 || eqb c 0xa0

-- The character that stands in the second text where the first has `c`, as `str.maketrans` has it.
translate : Char → String → String → Char
translate c String.[] to = c
translate c (String.◌∷◌ f from) String.[] = c
translate c (String.◌∷◌ f from) (String.◌∷◌ t to) =
    if eqb (code c) (code f) then t else translate c from to

abbrev lower_char : Char → Char
lower_char c = translate c "ABCDEFGHIJKLMNOPQRSTUVWXYZ" "abcdefghijklmnopqrstuvwxyz"

-- `s.lower()`
unfoldable pub lower : String → String
unfolding translate
lower String.[] = String.[]
lower (String.◌∷◌ c s) = String.◌∷◌ (lower_char c) (lower s)

-- The first piece grows by one character.
abbrev cons_first : Char → List String → List String
cons_first c [] = String.◌∷◌ c String.[] ∷ []
cons_first c (s ∷ ss) = String.◌∷◌ c s ∷ ss

-- `s.split(sep)` for a separator of one character.
unfoldable pub split_on : ℕ → String → List String
split_on sep String.[] = String.[] ∷ []
split_on sep (String.◌∷◌ c s) =
    let rest = split_on sep s in if eqb (code c) sep then String.[] ∷ rest else cons_first c rest

-- `s.replace(c, "")` for one character.
unfoldable pub remove_char : ℕ → String → String
remove_char x String.[] = String.[]
remove_char x (String.◌∷◌ c s) =
    let rest = remove_char x s in if eqb (code c) x then rest else String.◌∷◌ c rest

-- `s.startswith(prefix)`, with the text behind the prefix.
unfoldable pub strip_prefix : String → String → Option String
strip_prefix String.[] s = some s
strip_prefix (String.◌∷◌ p ps) String.[] = none
strip_prefix (String.◌∷◌ p ps) (String.◌∷◌ c s) =
    let rest = strip_prefix ps s in if eqb (code p) (code c) then rest else none

abbrev pub starts_with : String → String → Bool
starts_with s prefix = elim (strip_prefix prefix s) [ none ↦ false | some r ↦ true ]

-- `key, value = s.split("=", 1)`, and `none` where there is no such character.
unfoldable pub partition : ℕ → String → Option (String × String)
partition sep String.[] = none
partition sep (String.◌∷◌ c s) =
    if eqb (code c) sep
    then some (String.[], s)
    else elim (partition sep s) [ none ↦ none | some (k, v) ↦ some (String.◌∷◌ c k, v) ]

-- Words, with a flag that says whether the text began inside a word.
unfoldable pub words_from : Bool → String → List String
words_from inside String.[] = if inside then String.[] ∷ [] else []
words_from inside (String.◌∷◌ c s) =
    let rest = words_from (if is_space (code c) then false else true) s in
    if is_space (code c) then (if inside then String.[] ∷ rest else rest) else cons_first c rest

-- `s.split()`
unfoldable pub words : String → List String
unfolding words_from
words s = words_from false s

-- `s <= t`, by code points.
unfoldable pub text_le : String → String → Bool
text_le String.[] t = true
text_le (String.◌∷◌ c s) String.[] = false
text_le (String.◌∷◌ c s) (String.◌∷◌ d t) =
    ltb (code c) (code d) || (eqb (code c) (code d) && text_le s t)

-- `s.rstrip()`
unfoldable pub rstrip : String → String
rstrip String.[] = String.[]
rstrip (String.◌∷◌ c s) =
    let rest = rstrip s in
    if is_space (code c) && (if nonempty rest then false else true)
    then String.[]
    else String.◌∷◌ c rest

-- `s.lstrip()`
unfoldable pub lstrip : String → String
lstrip String.[] = String.[]
lstrip (String.◌∷◌ c s) = if is_space (code c) then lstrip s else String.◌∷◌ c s

-- `s.strip()`
abbrev pub strip : String → String
strip s = lstrip (rstrip s)
