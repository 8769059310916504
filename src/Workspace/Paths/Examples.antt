-- ===== src/Workspace/Paths/Examples.antt =====
-- A path of two levels, with stand-ins for the libraries.
use Prim.Native.Char.{Char, code}
use ai_coding_agent_harness.Base.{
  String, ◌≡◌, refl, Bool, none, some, [], ◌∷◌, All, exact, ltb, String-discrete, Bool-cases,
}
use ai_coding_agent_harness.Domain.Text.{concat, utf8_length, nonempty_text}
use ai_coding_agent_harness.Domain.ApprovalModels.{Texts-discrete}
use ai_coding_agent_harness.Transaction.Models.{RepoPath}
use ai_coding_agent_harness.Workspace.Paths.{
  any_char, first_char, last_char, has_drive, with_char, split_path, join_path, segment_is_valid,
  is_canonical, path_is_valid, path_of, parse, from_segments,
}
use ai_coding_agent_harness.Workspace.Paths.Splitting.{IsPlain, parse-from_segments}

program : Unit {0}
unfolding String-discrete Bool-cases Texts-discrete nonempty_text utf8_length concat any_char
    first_char last_char has_drive with_char split_path join_path segment_is_valid is_canonical
    path_is_valid path_of parse from_segments
program = tt

-- For texts of ASCII: the normal form, the control characters, and a digest.
abbrev same_text : String → String
same_text s = s

abbrev below_space : Char → Bool
below_space c = ltb (code c) 32

abbrev file : RepoPath
file = record {
  canonical = "src/a.py";
  segments = "src" ∷ "a.py" ∷ [];
  identity = "src/a.py";
  display_name = "src/a.py";
}

-- A path with a segment `..` is refused.
leaves : parse same_text below_space same_text (exact "src/../../a.py") ≡ none
unfolding program
leaves = refl

parse-from_segments_example :
    (file.canonical ≡ "src/a.py")
    × (from_segments same_text below_space same_text ("src" ∷ "a.py" ∷ []) ≡ some file)
    × All IsPlain ("src" ∷ "a.py" ∷ [])
unfolding program
parse-from_segments_example =
    parse-from_segments same_text below_space same_text "src/a.py" file refl
