-- ===== src/TaskExtractor/Rules/Due.antt =====
-- `_extract_due_at` and its fallback of rules.py. `search_dates` gives the dates that it finds, in
-- the order of the text, or nothing; it may raise.
use personal_intelligence.Base.{
  ℕ, ◌+◌, ◌-◌, ◌*◌, max, Bool, ◌||◌, Option, none, some, List, [], ◌∷◌, Text, text, has_part, leb,
  day, weekday, at_hour, end_of_month, if◌then◌else◌,
}
use personal_intelligence.Exec.{Result, ok, err}

pub record Matchers : Type 0 where
  pub promise_re : Text → Bool
  pub request_re : Text → Bool
  pub resolution_re : Text → Bool
  pub lower : Text → Text
  pub search_dates : Option (Text → ℕ → Result (List ℕ))

module _ (m : Matchers) where
  unfoldable pub extract_due_at_fallback : Text → ℕ → Option ℕ
  extract_due_at_fallback content base =
      let lowered = m.lower content in
      if has_part (text "завтра") lowered || has_part (text "tomorrow") lowered
      then some (base + day)
      else if has_part (text "eod") lowered
      then some (at_hour 18 base)
      else if has_part (text "eow") lowered
      then some (at_hour 18 (base + max 0 (4 - weekday base) * day))
      else if has_part (text "eom") lowered
      then some (at_hour 18 (end_of_month base))
      else none

  -- The first date that is not before the base.
  unfoldable pub first_future : ℕ → List ℕ → Option ℕ
  first_future base [] = none
  first_future base (parsed ∷ matches) =
      let rest = first_future base matches in if leb base parsed then some parsed else rest

  abbrev pub or_fallback : Option ℕ → Option ℕ → Option ℕ
  or_fallback none fallback = fallback
  or_fallback (some found) fallback = some found

  abbrev pub from_matches : ℕ → Option ℕ → Result (List ℕ) → Option ℕ
  from_matches base fallback (err e) = none
  from_matches base fallback (ok matches) = or_fallback (first_future base matches) fallback

  abbrev due_by : Text → ℕ → Option ℕ → Option (Text → ℕ → Result (List ℕ)) → Option ℕ
  due_by content base fallback none = fallback
  due_by content base fallback (some find_dates) =
      from_matches base fallback (find_dates content base)

  unfoldable pub extract_due_at : Text → ℕ → Option ℕ
  unfolding extract_due_at_fallback first_future
  extract_due_at content base =
      due_by content base (extract_due_at_fallback content base) m.search_dates
