-- ===== src/Text.antt =====
-- The functions of the Go packages strings and unicode/utf8 that the controller uses, by recursion
-- over the code points of a text.
pub mod Laws
use Prim.Native.Char.{Char, code}
use Prim.Native.String
use Prim.Native.String.{String}
use helm_controller.Base.{
  ℕ, ◌<>◌, Bool, true, false, ◌||◌, List, [], ◌∷◌, Option, none, some, ◌==◌, deref, ltb,
  if◌then◌else◌,
}

-- strings.Contains, of a text of one character.
unfoldable pub has : Char → String → Bool
has sep String.[] = false
has sep (String.◌∷◌ c s) = code c == code sep || has sep s

-- A character before the first of the parts.
abbrev pub push_front : Char → List String → List String
push_front c [] = String.◌∷◌ c String.[] ∷ []
push_front c (part ∷ parts) = String.◌∷◌ c part ∷ parts

-- strings.Split, at a separator of one character.
unfoldable pub split : Char → String → List String
split sep String.[] = "" ∷ []
split sep (String.◌∷◌ c s) =
    let rest = split sep s in if code c == code sep then "" ∷ rest else push_front c rest

-- What follows a prefix of a text.
unfoldable pub strip : String → String → Option String
strip String.[] s = some s
strip (String.◌∷◌ p ps) String.[] = none
strip (String.◌∷◌ p ps) (String.◌∷◌ c s) =
    let rest = strip ps s in if code c == code p then rest else none

-- strings.TrimPrefix.
unfoldable pub trim_prefix : String → String → String
unfolding strip
trim_prefix s prefix = deref (strip prefix s) s

-- strings.ReplaceAll, of one character by one other.
unfoldable pub replace_all : String → Char → Char → String
replace_all String.[] old new = ""
replace_all (String.◌∷◌ c s) old new =
    String.◌∷◌ (if code c == code old then new else c) (replace_all s old new)

-- strings.LastIndex with the slice that follows it: the part after the last separator.
unfoldable pub after_last : Char → String → String
unfolding has
after_last sep String.[] = ""
after_last sep (String.◌∷◌ c s) =
    let rest = after_last sep s in
    if has sep s then rest else if code c == code sep then s else String.◌∷◌ c s

-- A text has fewer bytes than a number.
abbrev pub shorter : String → ℕ → Bool
shorter s n = ltb (String.len s) n

-- The first bytes of a text.
abbrev pub first_bytes : ℕ → String → String
first_bytes n s = String.slice s 0 n
