-- ===== src/Text.antt =====
-- The text operations that the code calls: `endsWith`, `lastIndexOf` and `indexOf` with `slice`,
-- and template concatenation. A text is matched character by character.
use Prim.Native.Char.{code}
use Prim.Native.String.{String, ◌++◌}
use arp.Common.{
  nat_eq, includes, ◌&&◌, List, [], ◌∷◌, Bool, true, false, ◌||◌, Option, none, some, ℕ, eqb,
  string_eq, ◌==◌, if◌then◌else◌,
}

-- `s.endsWith(suffix)`
unfoldable pub ends_with : String → String → Bool
ends_with suffix String.[] = suffix == ""
ends_with suffix (String.◌∷◌ c s) = suffix == String.◌∷◌ c s || ends_with suffix s

-- `s.slice(s.lastIndexOf(c) + 1)`, `none` where the character is missing
unfoldable pub after_last : ℕ → String → Option String
after_last n String.[] = none
after_last n (String.◌∷◌ c s) = elim (after_last n s) [
  | some rest ↦ some rest
  | none ↦ if eqb (code c) n then some s else none
]

-- `s.slice(0, s.indexOf(c))`, `none` where the character is missing
unfoldable pub before_first : ℕ → String → Option String
before_first n String.[] = none
before_first n (String.◌∷◌ c s) =
    let rest = before_first n s in
    if eqb (code c) n
    then some ""
    else (elim rest [ none ↦ none | some front ↦ some (String.◌∷◌ c front) ])

-- `s.startsWith(prefix)`
unfoldable pub starts_with : String → String → Bool
starts_with String.[] s = true
starts_with (String.◌∷◌ c p) String.[] = false
starts_with (String.◌∷◌ c p) (String.◌∷◌ d s) = eqb (code c) (code d) && starts_with p s

-- a text that is given and, as a condition, true: one that is not empty
abbrev pub truthy : Option String → Option String
truthy none = none
truthy (some s) = if s == "" then none else some s

abbrev pub concat : String → String → String
concat s t = s ++ t

-- `s.slice(s.indexOf(c) + 1)`, `none` where the character is missing
unfoldable pub after_first : ℕ → String → Option String
after_first n String.[] = none
after_first n (String.◌∷◌ c s) =
    let rest = after_first n s in if eqb (code c) n then some s else rest

abbrev to_first : String → List String → List String
to_first c [] = c ∷ []
to_first c (t ∷ ts) = (c ++ t) ∷ ts

-- `s.split(c)`, for one character
unfoldable pub split : ℕ → String → List String
split n String.[] = "" ∷ []
split n (String.◌∷◌ c s) =
    let rest = split n s in if eqb (code c) n then "" ∷ rest else to_first (String.◌∷◌ c "") rest

-- `ts.join(sep)`
unfoldable pub join : String → List String → String
join sep [] = ""
join sep (t ∷ []) = t
join sep (t ∷ u ∷ ts) = t ++ sep ++ join sep (u ∷ ts)

-- white space and line ends, as `trim` removes them
abbrev white : List ℕ
white =
    9 ∷ 10 ∷ 11 ∷ 12 ∷ 13 ∷ 32 ∷ 160 ∷ 5760 ∷ 8192 ∷ 8193 ∷ 8194 ∷ 8195 ∷ 8196 ∷ 8197 ∷ 8198 ∷ 8199
    ∷ 8200 ∷ 8201 ∷ 8202 ∷ 8232 ∷ 8233 ∷ 8239 ∷ 8287 ∷ 12288 ∷ 65279 ∷ []

trim_start : String → String
trim_start String.[] = ""
trim_start (String.◌∷◌ c s) =
    let rest = trim_start s in if includes white (code c) then rest else String.◌∷◌ c s

trim_end : String → String
trim_end String.[] = ""
trim_end (String.◌∷◌ c s) =
    let rest = trim_end s in if includes white (code c) && rest == "" then "" else String.◌∷◌ c rest

-- `s.trim()`
unfoldable pub trim : String → String
unfolding trim_start trim_end
trim s = trim_end (trim_start s)
