-- ===== src/Tunnel/Version.antt =====
-- `parse_frp_version_text` of server-package/crates/frp-game-common/src/model.rs.
use orange_frp.Prelude.{
  ℕ, Bool, not, ◌&&◌, ◌||◌, Option, none, some, List, [], ◌∷◌, if◌then◌else◌, ◌==◌, nat_eq, list_eq,
  pair_eq, all, retain, Text, is_empty, is_whitespace, is_ascii_digit, is_ascii_alphanumeric,
  trim_start_matches, trim_matches,
}

-- `str::split` with a predicate: one part more than there are separators.
push_char : ℕ → List Text → List Text
push_char c [] = (c ∷ []) ∷ []
push_char c (w ∷ ws) = (c ∷ w) ∷ ws

unfoldable pub split : (ℕ → Bool) → Text → List Text
unfolding push_char
split p [] = [] ∷ []
split p (c ∷ s) = let parts = split p s in if p c then [] ∷ parts else push_char c parts

unfoldable pub split_whitespace : Text → List Text
unfolding split
split_whitespace s = retain (λ w. not (is_empty w)) (split is_whitespace s)

unfoldable pub is_token_char : ℕ → Bool
is_token_char c = is_ascii_alphanumeric c || c == b'.' || c == b'-' || c == b'_'

abbrev is_v : ℕ → Bool
is_v c = c == b'v' || c == b'V'

abbrev is_dot : ℕ → Bool
is_dot c = c == b'.'

abbrev is_suffix_mark : ℕ → Bool
is_suffix_mark c = c == b'-' || c == b'_'

unfoldable pub version_token : Text → Text
unfolding is_token_char
version_token part = trim_start_matches is_v (trim_matches (λ c. not (is_token_char c)) part)

-- The part before the first `-` or `_`.
unfoldable pub patch_core : Text → Text
patch_core [] = []
patch_core (c ∷ s) = let rest = patch_core s in if is_suffix_mark c then [] else c ∷ rest

unfoldable pub version_of_parts : Text → List Text → Option Text
unfolding patch_core
version_of_parts token (major ∷ minor ∷ patch ∷ rest) =
    if all is_ascii_digit major
      && all is_ascii_digit minor
      && not (is_empty (patch_core patch))
      && all is_ascii_digit (patch_core patch)
    then some token
    else none
version_of_parts token _ = none

unfoldable pub find_version : List Text → Option Text
unfolding version_of_parts version_token
find_version [] = none
find_version (part ∷ parts) =
    let token = version_token part in
    elim (version_of_parts token (split is_dot token)) [
      | some v ↦ some v
      | none ↦ find_version parts
    ]

unfoldable pub parse_frp_version_text : Text → Option Text
unfolding find_version split_whitespace
parse_frp_version_text text = find_version (split_whitespace text)
