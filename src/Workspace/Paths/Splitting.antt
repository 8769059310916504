-- ===== src/Workspace/Paths/Splitting.antt =====
-- A path and its segments.
use Prim.Native.Char.{Char}
use ai_coding_agent_harness.Base.{
  all-both, ◌≢◌, String, Bool, true, false, not, ◌&&◌, some, List, [], ◌∷◌, ◌≡◌, ap, ◌∙◌, refl,
  arith, inl, inr, Bool-cases, all, all-All, nonempty, All, exact, nat_comparable, text_comparable,
  text_equals_iff,
}
use ai_coding_agent_harness.Domain.Text.{nonempty_text}
use ai_coding_agent_harness.Transaction.Models.{RepoPath}
use ai_coding_agent_harness.Workspace.Paths.{
  any_char, is_slash, is_backslash, with_char, split_path, join_path, segment_is_valid,
  is_canonical, path_of, parse, from_segments,
}

has_segment : (s : String) → (w : String) × (ws : List String) × (split_path s ≡ w ∷ ws)
unfolding split_path with_char
has_segment String.[] = (String.[], [], refl)
has_segment (String.◌∷◌ c s) = elim (Bool-cases (is_slash c)) [
  | inl slash ↦ (String.[], split_path s, ground arith)
  | inr other ↦ let (w, ws, rest) = has_segment s in (String.◌∷◌ c w, ws, ground arith)
]

-- No segment holds a separator.
split_path-plain : (s : String) → all (λ w. not (any_char is_slash w)) (split_path s) ≡ true
unfolding split_path with_char any_char
split_path-plain String.[] = refl
split_path-plain (String.◌∷◌ c s) =
    let rest = split_path-plain s in
    let (w, ws, same) = has_segment s in
    elim (Bool-cases (is_slash c)) [ inl slash ↦ ground arith | inr other ↦ ground arith ]

-- What no character of a path is, no character of a segment is.
split_path-free :
    (test : Char → Bool) (s : String)
    → any_char test s ≡ false
    → all (λ w. not (any_char test w)) (split_path s) ≡ true
unfolding split_path with_char any_char
split_path-free test String.[] free = refl
split_path-free test (String.◌∷◌ c s) free =
    let rest = split_path-free test s (ground arith) in
    let (w, ws, same) = has_segment s in
    elim (Bool-cases (is_slash c)) [ inl slash ↦ ground arith | inr other ↦ ground arith ]

-- A name of one level: not empty, not the level itself or the one above, and no separator.
abbrev pub IsPlain : String → Type 0
IsPlain w =
    (w ≢ "")
    × (w ≢ ".")
    × (w ≢ "..")
    × (any_char is_slash w ≡ false)
    × (any_char is_backslash w ≡ false)

valid_segment-IsPlain :
    (w : String)
    → (segment_is_valid w && (not (any_char is_slash w) && not (any_char is_backslash w))) ≡ true
    → IsPlain w
unfolding segment_is_valid nonempty_text
valid_segment-IsPlain w valid = (
  λ empty. let same : nonempty_text w ≡ false = ap nonempty_text empty in absurd (ground arith),
  λ here. let same = (text_equals_iff w ".").1 here in absurd (ground arith),
  λ above. let same = (text_equals_iff w "..").1 above in absurd (ground arith),
  ground arith,
  ground arith,
)

module _ (nfkc : String → String) (is_control : Char → Bool) (path_digest : String → String) where
  parse_made :
      (value : String) (path : RepoPath)
      → parse nfkc is_control path_digest (exact value) ≡ some path
      → (path ≡ path_of nfkc is_control path_digest value)
        × (is_canonical nfkc is_control path_digest value ≡ true)
  unfolding parse
  parse_made value path accepted = (ground arith, ground arith)

  canonical_text :
      (value : String)
      → is_canonical nfkc is_control path_digest value ≡ true
      → (join_path (split_path value) ≡ value)
        × (all segment_is_valid (split_path value) ≡ true)
        × (any_char is_backslash value ≡ false)
  unfolding is_canonical
  canonical_text value canonical = (
    (text_equals_iff (join_path (split_path value)) value).0 (ground arith),
    ground arith,
    ground arith,
  )

  segments_parse :
      (value : String)
      → join_path (split_path value) ≡ value
      → from_segments nfkc is_control path_digest (split_path value)
        ≡ parse nfkc is_control path_digest (exact value)
  unfolding from_segments
  segments_parse value joined =
      let (w, ws, same) = has_segment value in
      let given : nonempty (split_path value) ≡ true = rw same refl in rw (given, joined) refl

  -- A path that is accepted is what its segments say: its canonical form is the text that was
  -- given, its segments give the same path again, and every segment is a name of one level: none
  -- is empty, `.` or `..`, and none holds a slash or a backslash.
  pub parse-from_segments :
      (value : String) (path : RepoPath)
      → parse nfkc is_control path_digest (exact value) ≡ some path
      → (path.canonical ≡ value)
        × (from_segments nfkc is_control path_digest path.segments ≡ some path)
        × All IsPlain path.segments
  unfolding path_of
  parse-from_segments value path accepted =
      let (made, canonical) = parse_made value path accepted in
      let (joined, valid, free) = canonical_text value canonical in
      let plain =
        all-both (λ w. not (any_char is_slash w)) (λ w. not (any_char is_backslash w))
          (split_path value) (split_path-plain value) (split_path-free is_backslash value free) in
      let segments =
        all-both segment_is_valid (λ w. not (any_char is_slash w) && not (any_char is_backslash w))
          (split_path value) valid plain in
      let again = segments_parse value joined ∙ accepted in
      let levels =
        all-All
          (λ w. segment_is_valid w && (not (any_char is_slash w) && not (any_char is_backslash w)))
          valid_segment-IsPlain (split_path value) segments in
      (
        ap (λ p. p.canonical) made ∙ joined,
        ap (from_segments nfkc is_control path_digest) (ap (λ p. p.segments) made) ∙ again,
        rw (ap (λ p. p.segments) made) levels,
      )
