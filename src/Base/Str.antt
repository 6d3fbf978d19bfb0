-- ===== src/Base/Str.antt =====
-- Python's `str` as the list of its code points, and the methods that the services use.
use Prim.Native.Nat.{ℕ, ◌-◌, ◌≤◌}
use Prim.Native.Char.{code}
use Prim.Native.String.{String}
use mathlib.Core.Path.{◌≡◌}
use mathlib.Core.Logic.{◌↔◌}
use mathlib.Core.Bool.{Bool, true, false, ◌&&◌, ◌||◌}
use mathlib.Core.List.{List, [], ◌∷◌, ◌++◌}
use native.Mathlib.Omega.{arith}
use personal_intelligence.Base.Tests.{Eq, eqb, leb, if◌then◌else◌}
use personal_intelligence.Base.Lists.{length, take}

abbrev pub Text : Type 0
Text = List ℕ

abbrev pub text : String → Text
text String.[] = []
text (String.◌∷◌ c s) = code c ∷ text s

-- The code points for which `str.isspace` holds.
unfoldable pub is_space : ℕ → Bool
is_space c =
    (leb 9 c && leb c 13)
    || (leb 28 c && leb c 32)
    || eqb c 133
    || eqb c 160
    || eqb c 5760
    || (leb 8192 c && leb c 8202)
    || eqb c 8232
    || eqb c 8233
    || eqb c 8239
    || eqb c 8287
    || eqb c 12288

unfoldable pub lstrip_by : (ℕ → Bool) → Text → Text
lstrip_by p [] = []
lstrip_by p (c ∷ s) = let rest = lstrip_by p s in if p c then rest else c ∷ s

-- The last character that fails `p`, and all before it.
unfoldable pub rstrip_by : (ℕ → Bool) → Text → Text
rstrip_by p [] = []
rstrip_by p (c ∷ s) = elim (rstrip_by p s) [ [] ↦ if p c then [] else c ∷ [] | d ∷ r ↦ c ∷ d ∷ r ]

unfoldable pub strip : Text → Text
unfolding lstrip_by rstrip_by is_space
strip s = rstrip_by is_space (lstrip_by is_space s)

unfoldable pub rstrip : Text → Text
unfolding rstrip_by is_space
rstrip s = rstrip_by is_space s

unfoldable pub same_text : Text → Text → Bool
same_text [] [] = true
same_text (a ∷ s) (b ∷ t) = eqb a b && same_text s t
same_text [] (b ∷ t) = false
same_text (a ∷ s) [] = false

pub same_text_iff : (s t : Text) → (same_text s t ≡ true) ↔ (s ≡ t)
unfolding same_text
same_text_iff [] [] = ground arith
same_text_iff (a ∷ s) (b ∷ t) = ground (arith, same_text_iff s t)
same_text_iff [] (b ∷ t) = ground arith
same_text_iff (a ∷ s) [] = ground arith

instance abbrev pub text_eq : Eq Text
text_eq = record { test = same_text; decides = same_text_iff }

pub length-rstrip_by : (p : ℕ → Bool) (s : Text) → length (rstrip_by p s) ≤ length s
unfolding rstrip_by
length-rstrip_by p [] = omega arith
length-rstrip_by p (c ∷ s) = ground (arith, length-rstrip_by p s)

-- `re.compile(r"\s+").sub(" ", s)`, after a space or not
unfoldable pub squeeze : Bool → Text → Text
unfolding is_space
squeeze spaced [] = []
squeeze spaced (c ∷ s) =
    let rest = squeeze (is_space c) s in
    if is_space c then (if spaced then rest else 32 ∷ rest) else c ∷ rest

-- `part in s`
unfoldable pub starts_with : Text → Text → Bool
starts_with [] s = true
starts_with (p ∷ ps) [] = false
starts_with (p ∷ ps) (c ∷ s) = eqb p c && starts_with ps s

unfoldable pub has_part : Text → Text → Bool
unfolding starts_with
has_part part [] = starts_with part []
has_part part (c ∷ s) = starts_with part (c ∷ s) || has_part part s

-- `f"{s[: limit - 3].rstrip()}..."` for a longer text; a negative bound counts from the end.
unfoldable pub head_slice : ℕ → ℕ → Text → Text
head_slice limit less s =
    if leb less limit then take (limit - less) s else take (length s - (less - limit)) s

abbrev pub dots : Text
dots = 46 ∷ 46 ∷ 46 ∷ []

-- `s.split(sep)` for one character: the pieces, of which there is one at least.
abbrev pub onto_first : ℕ → List Text → List Text
onto_first c [] = (c ∷ []) ∷ []
onto_first c (piece ∷ pieces) = (c ∷ piece) ∷ pieces

unfoldable pub split_on : ℕ → Text → List Text
split_on sep [] = [] ∷ []
split_on sep (c ∷ s) =
    let rest = split_on sep s in if eqb c sep then [] ∷ rest else onto_first c rest

-- `sep.join(parts)`
unfoldable pub join : Text → List Text → Text
join sep [] = []
join sep (part ∷ []) = part
join sep (part ∷ next ∷ parts) = part ++ sep ++ join sep (next ∷ parts)

-- `s <= t`, by code points
unfoldable pub leb_text : Text → Text → Bool
leb_text [] t = true
leb_text (a ∷ s) [] = false
leb_text (a ∷ s) (b ∷ t) = if eqb a b then leb_text s t else leb a b

-- `sorted` of texts
unfoldable pub insert_text : Text → List Text → List Text
unfolding leb_text
insert_text a [] = a ∷ []
insert_text a (b ∷ bs) = if leb_text a b then a ∷ b ∷ bs else b ∷ insert_text a bs

unfoldable pub sort_texts : List Text → List Text
unfolding insert_text
sort_texts [] = []
sort_texts (a ∷ bs) = insert_text a (sort_texts bs)
