-- ===== src/Route/Segments.antt =====
-- src/route/include/internal/http_route_table_detail.h, and the two functions of the route table
-- that read a target: the segments of a target, its parameter names, its template.
pub mod Laws
use bsrvcore.Base.{
  ℕ, zero, suc, ◌-◌, Bytes, codes, is_empty, find, upto, take, drop, length, ◌==◌, leb, ◌&&◌,
  if◌then◌else◌, List, [], ◌∷◌, ◌++◌, Bool, Option, none, some, not, true, false,
}

-- `target.substr(0, target.find('?'))`.
unfoldable pub strip_query : Bytes → Bytes
unfolding find
strip_query target = upto (find b'?' target) target

-- `front()` and `back()`, of the string views that the code knows not to be empty.
abbrev pub front_is : ℕ → Bytes → Bool
front_is c [] = false
front_is c (b ∷ s) = b == c

abbrev pub back_is : ℕ → Bytes → Bool
back_is c [] = false
back_is c (b ∷ []) = b == c
back_is c (b ∷ d ∷ s) = back_is c (d ∷ s)

unfoldable pub is_parameter_segment : Bytes → Bool
is_parameter_segment segment =
    leb 2 (length segment) && front_is b'{' segment && back_is b'}' segment

unfoldable pub extract_param_name : Bytes → Bytes
unfolding is_parameter_segment
extract_param_name segment =
    if is_parameter_segment segment then take (length segment - 2) (drop 1 segment) else []

-- `if (!part.empty()) segments.emplace_back(part)`, before the later segments.
abbrev pub emplace : Bytes → List Bytes → List Bytes
emplace [] segments = segments
emplace (b ∷ s) segments = (b ∷ s) ∷ segments

-- The loop of `SplitTargetSegments`; each round takes at least one byte off `url`.
split_loop : ℕ → Bytes → List Bytes
split_loop zero url = []
split_loop (suc fuel) url = elim url [
  | [] ↦ []
  | c ∷ s ↦ elim (find b'/' (c ∷ s)) [
    | none ↦ emplace (c ∷ s) []
    | some slash ↦ emplace (take slash (c ∷ s)) (split_loop fuel (drop (suc slash) (c ∷ s)))
  ]
]

unfoldable pub split_target_segments : Bytes → List Bytes
unfolding strip_query split_loop find
split_target_segments target = split_loop (suc (length (strip_query target))) (strip_query target)

-- `HttpRouteTable::ExtractParamNames`: a parameter segment with an empty name adds no name.
abbrev pub names_of : List Bytes → List Bytes
names_of [] = []
names_of (segment ∷ segments) = emplace (extract_param_name segment) (names_of segments)

unfoldable pub extract_param_names : Bytes → List Bytes
unfolding split_target_segments extract_param_name
extract_param_names target = names_of (split_target_segments target)

-- `HttpRouteTable::NormalizeRouteTemplate`.
unfoldable pub normalize_route_template : Bytes → Bytes
unfolding strip_query
normalize_route_template target =
    if is_empty (strip_query target) then codes "/" else strip_query target
