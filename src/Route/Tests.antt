-- ===== src/Route/Tests.antt =====
-- The router at concrete inputs: runs of the code, and the laws applied where their assumptions hold.
use bsrvcore.Base.{
  none, Bytes, codes, bytes_eq, find, List, [], ◌∷◌, Option, some, true, false, ◌≡◌, refl, arith,
  All,
}
use bsrvcore.Route.Segments.{
  strip_query, is_parameter_segment, extract_param_name, split_target_segments, extract_param_names,
  normalize_route_template,
}
use bsrvcore.Route.Segments.Laws.{
  words, join, before_query, IsSegment, split_target_segments-words,
  split_target_segments-IsSegment, split_target_segments-join,
}
use bsrvcore.Route.Validator.{is_valid_parametric_target}
use bsrvcore.Route.Validator.Language.{without_brace_check, brace_check_redundant}
use bsrvcore.Route.Validator.Matcher.{derivative_match, derivative_match-IsSoundMatcher}
use bsrvcore.Route.Layer.{
  Layer, configure, empty_settings, layer, default_layer, no_routes, route, settings_of,
  user_handler, new_layer, find_route, put_route, get_route, get_default_route, set_default_route,
  set_route,
}
use bsrvcore.Route.Registry.{
  RouteTable, new_table, next_layer, attach_layer, at_segments, get_or_create, register,
  add_route_entry, add_global_aspect,
}
use bsrvcore.Route.Registry.Teardown.{
  destroy_loop, destroy_layer_tree_iterative, IsTornDown, destroy_layer_tree_iterative-IsTornDown,
}
use bsrvcore.Route.Match.{
  match_loop, match_segments, has_param, fill_params, build_parameter_map, collect_aspects,
  build_default_route_result, matched_result, route_internal,
}
use bsrvcore.Route.Match.Walk.{nonempty}
use bsrvcore.Route.Match.Envelope.{
  IsServable, StartsWith, route_internal-IsServable, route_internal-StartsWith,
}
use bsrvcore.Route.Match.Parameters.{bindings, parameters-add_route_entry}
use bsrvcore.Route.Match.Nameless.{find_param, IsShifted, nameless_word_shifts}

router : Unit {0}
unfolding bytes_eq find_param find strip_query is_parameter_segment extract_param_name
    split_target_segments extract_param_names normalize_route_template is_valid_parametric_target
    derivative_match find_route put_route get_route get_default_route set_default_route set_route
    next_layer attach_layer at_segments get_or_create register add_route_entry match_loop
    match_segments has_param fill_params build_parameter_map collect_aspects
    build_default_route_result matched_result route_internal add_global_aspect
router = tt

-- A reading of a target: its path between the slashes.
abbrev pub parse : Bytes → Option (List Bytes)
parse target = some (words [] target)

abbrev user_route : Bytes
user_route = codes "/u/{id}"

abbrev user_5 : Bytes
user_5 = codes "/u/5"

abbrev user_5_words : List Bytes
user_5_words = codes "u" ∷ codes "5" ∷ []

abbrev served : RouteTable
served = (add_route_entry derivative_match 0 user_route (some (user_handler 1)) new_table).0

route_tests :
    (split_target_segments (codes "/a//b?c/d") ≡ codes "a" ∷ codes "b" ∷ [])
    × (is_valid_parametric_target derivative_match user_route ≡ true)
    × (is_valid_parametric_target derivative_match (codes "/a/../b") ≡ false)
    × (is_valid_parametric_target derivative_match (codes "/{id") ≡ false)
    × ((route_internal parse 0 user_5 served).handler ≡ some (user_handler 1))
    × ((route_internal parse 0 user_5 served).parameters ≡ (codes "id", codes "5") ∷ [])
    × ((route_internal parse 1 user_5 served).handler ≡ new_table.default_handler)
unfolding router words
route_tests = (refl, refl, refl, refl, refl, refl, refl)

split_target_segments-words_example :
    split_target_segments (codes "/a//b?c/d") ≡ words [] (before_query (codes "/a//b?c/d"))
split_target_segments-words_example = split_target_segments-words (codes "/a//b?c/d")

split_target_segments-IsSegment_example : All IsSegment (split_target_segments (codes "/a//b?c/d"))
split_target_segments-IsSegment_example = split_target_segments-IsSegment (codes "/a//b?c/d")

split_target_segments-join_example :
    split_target_segments (join (codes "u" ∷ codes "x" ∷ [])) ≡ codes "u" ∷ codes "x" ∷ []
split_target_segments-join_example =
    split_target_segments-join (codes "u" ∷ codes "x" ∷ [])
      ((λ e. cc, (ground arith, tt)), ((λ e. cc, (ground arith, tt)), tt))
      (ground arith, (ground arith, (ground arith, (ground arith, tt))))

brace_check_redundant_example :
    is_valid_parametric_target derivative_match user_route
    ≡ without_brace_check derivative_match user_route
brace_check_redundant_example =
    brace_check_redundant derivative_match user_route derivative_match-IsSoundMatcher

served_lem : is_valid_parametric_target derivative_match user_route ≡ true
unfolding router
served_lem = refl

parameters-add_route_entry_example :
    (route_internal parse 0 user_5
      (add_route_entry derivative_match 0 user_route
        (some (user_handler 1))
        new_table).0).parameters
    ≡ bindings (split_target_segments user_route) (nonempty user_5_words)
unfolding router words
parameters-add_route_entry_example =
    parameters-add_route_entry derivative_match parse 0 user_route user_5 (user_handler 1) new_table
      new_layer user_5_words (omega arith) served_lem refl refl (refl, ((λ e. cc, refl, refl), tt))
      (record { named = (λ p e. cc, (λ p e. cc, tt)); distinct = (tt, tt) })

nameless_word_shifts_example :
    IsShifted
      (codes "u" ∷ codes "{}" ∷ [])
      (codes "u" ∷ codes "x" ∷ [])
      (codes "id")
      (route_internal parse 0
        (codes "/u/x/5")
        (add_route_entry derivative_match 0
          (codes "/u/{}/{id}")
          (some (user_handler 1))
          new_table).0).parameters
unfolding router words
nameless_word_shifts_example =
    nameless_word_shifts derivative_match parse 0 (codes "/u/{}/{id}") (codes "/u/x/5")
      (user_handler 1) new_table new_layer (codes "u" ∷ codes "x" ∷ codes "5" ∷ []) (codes "u" ∷ [])
      [] [] (codes "u" ∷ codes "x" ∷ []) [] (codes "{}") (codes "{id}") (codes "5") (omega arith)
      refl refl refl (refl, ((λ e. cc, refl, refl), ((λ e. cc, refl, refl), tt))) refl refl refl
      (refl, refl) refl (λ e. cc) tt

nameless_tests :
    find_param
      (codes "id")
      (route_internal parse 0
        (codes "/u/x/5")
        (add_route_entry derivative_match 0
          (codes "/u/{}/{id}")
          (some (user_handler 1))
          new_table).0).parameters
    ≡ some (codes "x")
unfolding router words
nameless_tests = refl

route_internal-IsServable_example : IsServable (route_internal parse 0 user_5 served)
unfolding router words
route_internal-IsServable_example = route_internal-IsServable parse 0 user_5 served (record {
  handled = λ e. cc;
  body_bounded = omega arith;
  read_timed = omega arith;
  write_timed = omega arith;
})

abbrev observed : RouteTable
observed = (add_global_aspect (some 7) served).0

route_internal-StartsWith_example :
    StartsWith observed.global_aspects (route_internal parse 0 user_5 observed).aspects
route_internal-StartsWith_example = route_internal-StartsWith parse 0 user_5 observed

abbrev limited : Layer
limited = configure (λ s. record s { max_body_size = 7 }) new_layer

abbrev tree : Layer
tree = layer empty_settings (default_layer limited) (route (codes "a") new_layer no_routes)

teardown_tests :
    (destroy_layer_tree_iterative 3 tree
      ≡ some (empty_settings ∷ empty_settings ∷ settings_of limited ∷ []))
    × (destroy_layer_tree_iterative 2 tree ≡ none)
unfolding destroy_loop destroy_layer_tree_iterative
teardown_tests = (refl, refl)

destroy_layer_tree_iterative-IsTornDown_example :
    IsTornDown tree (destroy_layer_tree_iterative 3 tree)
destroy_layer_tree_iterative-IsTornDown_example =
    destroy_layer_tree_iterative-IsTornDown 3 tree (omega arith)
