-- ===== src/Workspace/Paths.antt =====
-- The paths that the program accepts: src/coding_harness/workspace/paths.py. The normal form NFKC,
-- the control category of a character and the SHA-256 of a path are parameters: they stand for
-- libraries of the language. A character is one that UTF-8 can encode. A `ValueError` is `none`.
mod Splitting
mod Examples
use Prim.Native.Char.{Char, code}
use ai_coding_agent_harness.Base.{
  ℕ, String, Bool, true, false, not, ◌&&◌, ◌||◌, Option, none, some, List, [], ◌∷◌, all, nonempty,
  leb, ◌==◌, nat_comparable, text_comparable, if◌then◌else◌, Object, exact,
}
use ai_coding_agent_harness.Domain.Text.{concat, utf8_length, nonempty_text}
use ai_coding_agent_harness.Domain.ApprovalModels.{texts_eq}
use ai_coding_agent_harness.Transaction.Models.{RepoPath}

-- `any(test(character) for character in value)`, and the test of the first and the last one.
unfoldable pub any_char : (Char → Bool) → String → Bool
any_char test String.[] = false
any_char test (String.◌∷◌ c s) = test c || any_char test s

unfoldable pub first_char : (Char → Bool) → String → Bool
first_char test String.[] = false
first_char test (String.◌∷◌ c s) = test c

unfoldable pub last_char : (Char → Bool) → String → Bool
last_char test String.[] = false
last_char test (String.◌∷◌ c String.[]) = test c
last_char test (String.◌∷◌ c (String.◌∷◌ d s)) = last_char test (String.◌∷◌ d s)

abbrev pub is_slash : Char → Bool
is_slash c = code c == b'/'

abbrev pub is_backslash : Char → Bool
is_backslash c = code c == 92

-- `_GLOB_MARKERS`
abbrev pub is_glob_marker : Char → Bool
is_glob_marker c = (code c == b'*') || ((code c == b'?') || (code c == b'['))

abbrev pub is_letter : Char → Bool
is_letter c = (leb b'A' (code c) && leb (code c) b'Z') || (leb b'a' (code c) && leb (code c) b'z')

-- `_WINDOWS_DRIVE`
unfoldable pub has_drive : String → Bool
has_drive String.[] = false
has_drive (String.◌∷◌ c s) = is_letter c && first_char (λ d. code d == b':') s

-- `value.split("/")`
unfoldable pub with_char : Char → List String → List String
with_char c [] = String.◌∷◌ c String.[] ∷ []
with_char c (w ∷ ws) = String.◌∷◌ c w ∷ ws

unfoldable pub split_path : String → List String
split_path String.[] = String.[] ∷ []
split_path (String.◌∷◌ c s) =
    let rest = split_path s in if is_slash c then String.[] ∷ rest else with_char c rest

-- `"/".join(segments)`
unfoldable pub join_path : List String → String
join_path [] = String.[]
join_path (w ∷ []) = w
join_path (w ∷ x ∷ ws) = let rest = join_path (x ∷ ws) in concat w (concat "/" rest)

unfoldable pub segment_is_valid : String → Bool
segment_is_valid segment =
    nonempty_text segment
    && (not ((segment == ".") || (segment == ".."))
        && (not (first_char (λ c. (code c == b'-') || (code c == b':')) segment)
            && not (any_char is_glob_marker segment)))

module _ (nfkc : String → String) (is_control : Char → Bool) (path_digest : String → String) where
  unfoldable pub is_canonical : String → Bool
  is_canonical value =
      (nonempty_text value && leb (utf8_length value) 4095)
      && ((nfkc value == value)
          && (not (any_char is_control value)
              && (not (
                    first_char (λ c. is_slash c || is_backslash c) value
                    || (any_char is_backslash value
                        || (has_drive value || last_char is_slash value)))
                  && (all segment_is_valid (split_path value)
                      && (join_path (split_path value) == value)))))

  -- `RepoPath.__post_init__`
  unfoldable pub path_is_valid : RepoPath → Bool
  path_is_valid path =
      is_canonical path.canonical
      && ((path.segments == split_path path.canonical)
          && ((path.identity == path_digest (join_path (split_path path.canonical)))
              && (path.display_name == join_path (split_path path.canonical))))

  -- What `parse` constructs.
  unfoldable pub path_of : String → RepoPath
  path_of value = record {
    canonical = join_path (split_path value);
    segments = split_path value;
    identity = path_digest (join_path (split_path value));
    display_name = join_path (split_path value);
  }

  -- `RepoPath.parse`; the constructor tests the path again.
  unfoldable pub parse : Object String → Option RepoPath
  parse (exact value) =
      if is_canonical value && path_is_valid (path_of value) then some (path_of value) else none
  parse _ = none

  -- `RepoPath.from_segments`, of texts.
  unfoldable pub from_segments : List String → Option RepoPath
  from_segments segments = if nonempty segments then parse (exact (join_path segments)) else none
