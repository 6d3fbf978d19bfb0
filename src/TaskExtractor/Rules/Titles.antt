-- ===== src/TaskExtractor/Rules/Titles.antt =====
-- `_normalize_text` and `_make_title` of rules.py.
use personal_intelligence.Base.{
  ◌≤◌, false, ◌++◌, Text, text, elem, nat_eq, strip, squeeze, lstrip_by, rstrip_by, rstrip, length,
  length-append, length-take, length-rstrip_by, take, leb, leb→le, dots, if◌then◌else◌, arith, inl,
  inr, Bool-cases,
}

unfoldable pub normalize_text : Text → Text
normalize_text content = strip (squeeze false content)

abbrev pub title_edges : Text
title_edges = text " .,:;!-"

unfoldable pub make_title : Text → Text
make_title content =
    let title = rstrip_by (λ c. elem c title_edges) (lstrip_by (λ c. elem c title_edges) content) in
    if leb (length title) 80 then title else rstrip (take 77 title) ++ dots

-- A title has at most 80 characters.
pub length-make_title : (content : Text) → length (make_title content) ≤ 80
unfolding make_title rstrip
length-make_title content = elim (Bool-cases (leb (length trimmed) 80)) [
  | inl short ↦ rw short (leb→le _ _ short)
  | inr long ↦ rw long (rw length-append (omega (arith, length-rstrip_by, length-take 77 trimmed)))
]
  where
    trimmed : Text
    trimmed = rstrip_by (λ c. elem c title_edges) (lstrip_by (λ c. elem c title_edges) content)
