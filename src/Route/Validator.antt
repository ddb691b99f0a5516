-- ===== src/Route/Validator.antt =====
-- src/route/impl/http_route_target_validator.cc: which targets may be registered.
-- The regular expression is data here, and `boost::regex_match` is a parameter.
pub mod Language
pub mod Matcher
use bsrvcore.Base.{
  ℕ, suc, ◌+◌, ◌-◌, Bytes, codes, is_empty, length, ◌==◌, leb, ltb, ◌&&◌, ◌||◌, not, if◌then◌else◌,
  List, [], ◌∷◌, Bool, true, false,
}
use bsrvcore.Route.Segments.{front_is}

pub data Regex : Type 0 where
  chars : (ℕ → Bool) → Regex
  seq alt : Regex → Regex → Regex
  star : Regex → Regex

abbrev pub one_of : Bytes → ℕ → Bool
one_of [] c = false
one_of (b ∷ s) c = b == c || one_of s c

abbrev pub is_alnum : ℕ → Bool
is_alnum c = (leb b'a' c && leb c b'z') || (leb b'A' c && leb c b'Z') || (leb b'0' c && leb c b'9')

-- `[a-zA-Z0-9\-._~!$&'()*+,;=:@/?%#\[\]]`
abbrev pub is_target_char : ℕ → Bool
is_target_char c = is_alnum c || one_of (codes "-._~!$&'()*+,;=:@/?%#[]") c

-- `[a-zA-Z0-9_\-]`
abbrev pub is_name_char : ℕ → Bool
is_name_char c = is_alnum c || one_of (codes "_-") c

abbrev pub parameter_regex : Regex
parameter_regex =
    seq (chars (λ c. c == b'{')) (seq (star (chars is_name_char)) (chars (λ c. c == b'}')))

-- `valid_target_regex`.
abbrev pub valid_target_regex : Regex
valid_target_regex =
    seq (chars (λ c. c == b'/')) (star (alt (chars is_target_char) parameter_regex))

-- The loop over `brace_count`; the count never stays below zero, since the loop returns there.
unfoldable pub braces_pair : ℕ → Bytes → Bool
braces_pair brace_count [] = brace_count == 0
braces_pair brace_count (c ∷ s) =
    let deeper = braces_pair (suc brace_count) s in
    let shallower = braces_pair (brace_count - 1) s in
    let same = braces_pair brace_count s in
    if c == b'{'
    then deeper
    else (if c == b'}' then (if brace_count == 0 then false else shallower) else same)

-- The loop that collects `non_param_target`.
unfoldable pub non_param_target : Bool → Bytes → Bytes
non_param_target in_brace [] = []
non_param_target in_brace (c ∷ s) =
    let inside = non_param_target true s in
    let outside = non_param_target false s in
    let kept = c ∷ outside in
    if c == b'{'
    then inside
    else (if c == b'}' then outside else (if in_brace then inside else kept))

-- `s.find("..") != npos`.
unfoldable pub has_dot_dot : Bytes → Bool
has_dot_dot [] = false
has_dot_dot (c ∷ s) = (c == b'.' && front_is b'.' s) || has_dot_dot s

unfoldable pub is_valid_parametric_target : (Regex → Bytes → Bool) → Bytes → Bool
unfolding braces_pair non_param_target has_dot_dot
is_valid_parametric_target regex_match target =
    if is_empty target || ltb 2048 (length target) || not (front_is b'/' target)
    then false
    else (if not (regex_match valid_target_regex target)
        then false
        else (if not (braces_pair 0 target)
            then false
            else not (has_dot_dot (non_param_target false target))))
