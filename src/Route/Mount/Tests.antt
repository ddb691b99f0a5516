-- ===== src/Route/Mount/Tests.antt =====
-- Mounts at concrete tables: runs of the code, and the laws applied where their assumptions hold.
use bsrvcore.Base.{
  ◌+◌, ℕ, Bytes, codes, bytes_eq, find, List, [], ◌∷◌, ◌++◌, Option, none, some, true, false, ◌≡◌,
  ◌↔◌, ◌⊎◌, inl, refl, get_elem?, arith,
}
use bsrvcore.Route.Segments.{
  strip_query, is_parameter_segment, extract_param_name, split_target_segments, extract_param_names,
  normalize_route_template,
}
use bsrvcore.Route.Segments.Laws.{words}
use bsrvcore.Route.Validator.{is_valid_parametric_target}
use bsrvcore.Route.Validator.Matcher.{derivative_match}
use bsrvcore.Route.Layer.{
  Handler, empty_route_handler, computing_route_handler, Aspect, user_handler, Layer, layer,
  no_default, default_layer, no_routes, route, empty_settings, new_layer, find_route, put_route,
  get_route, get_default_route, set_default_route, set_route,
}
use bsrvcore.Route.Registry.{
  RouteTable, new_table, next_layer, attach_layer, at_segments, get_or_create, register,
  add_route_entry,
}
use bsrvcore.Route.Match.{
  match_loop, match_segments, has_param, fill_params, build_parameter_map, collect_aspects,
  build_default_route_result, matched_result, route_internal,
}
use bsrvcore.Route.Mount.{
  join_route_template, prefix_template, prefix_route_templates, can_merge_layer, merge_settings,
  move_merge_layer, prepare_mount, merge_mount, mount_at,
}
use bsrvcore.Route.Mount.Paths.{by_key, edges_of, layer_at}
use bsrvcore.Route.Mount.Merge.{merge_option, layer_at-merge_option}
use bsrvcore.Route.Mount.Conflicts.{Conflict, can_merge_layer_iff}
use bsrvcore.Route.Mount.Answers.{Answers, Answers-move_merge_layer}
use bsrvcore.Route.Mount.Joining.{Spells}
use bsrvcore.Route.Mount.Prefixed.{AnswersUnder}
use bsrvcore.Route.Mount.Tables.{Answers-mount_at}
use bsrvcore.Route.Mount.Copy.{
  clone_own_handler, clone_aspects, clone_settings, clone_layer, clone_all, mount_copy_at,
}
use bsrvcore.Route.Mount.Copy.Laws.{HoldsClone, layer_at-clone_layer}
use bsrvcore.Route.Mount.Outside.{Answers-mount_at_outside}
use bsrvcore.Route.Mount.Refused.{refused_mount_shadows}

mounting : Unit {0}
unfolding bytes_eq find strip_query is_parameter_segment extract_param_name split_target_segments
    extract_param_names normalize_route_template is_valid_parametric_target derivative_match
    find_route put_route get_route get_default_route set_default_route set_route next_layer
    attach_layer at_segments get_or_create register add_route_entry match_loop match_segments
    has_param fill_params build_parameter_map collect_aspects build_default_route_result
    matched_result route_internal join_route_template prefix_template prefix_route_templates
    can_merge_layer merge_settings move_merge_layer prepare_mount merge_mount mount_at words
mounting = tt

abbrev leaf : ℕ → Bytes → Layer
leaf h template =
    layer (record empty_settings { handler = some (user_handler h); route_template = template })
      no_default no_routes

-- Trees with a handler behind one key, and behind the default edge.
abbrev at_a : Layer
at_a = layer empty_settings no_default (route (codes "a") (leaf 1 (codes "/a")) no_routes)

abbrev at_b : Layer
at_b = layer empty_settings no_default (route (codes "b") (leaf 2 (codes "/b")) no_routes)

abbrev at_any : Layer
at_any = layer empty_settings (default_layer (leaf 3 (codes "/{x}"))) no_routes

abbrev get_table : Layer → RouteTable
get_table root = record new_table { entrance = root ∷ [] }

abbrev read : Bytes → Option (List Bytes)
read target = some (words [] target)

abbrev api : Bytes
api = codes "/api"

mount_tests :
    ((mount_at derivative_match api (get_table at_a) (get_table at_b)).1 ≡ true)
    × ((route_internal read 0
          (codes "/api/a")
          (mount_at derivative_match api (get_table at_a) (get_table at_b)).0).route_template
        ≡ codes "/api/a")
    × ((mount_at derivative_match (codes "/a") (get_table (leaf 2 (codes "/"))) (get_table at_a)).1
        ≡ false)
unfolding mounting
mount_tests = (refl, refl, refl)

layer_at-merge_option_example :
    layer_at (by_key (codes "b") ∷ []) (merge_option (some at_a) (some at_b))
    ≡ merge_option
        (layer_at (by_key (codes "b") ∷ []) (some at_a))
        (layer_at (by_key (codes "b") ∷ []) (some at_b))
unfolding find_route
layer_at-merge_option_example =
    layer_at-merge_option (by_key (codes "b") ∷ []) (some at_a) (some at_b)
      (tt, (refl, (tt, tt), tt))

can_merge_layer_iff_example : (can_merge_layer at_a at_a ≡ false) ↔ Conflict at_a at_a
unfolding find_route
can_merge_layer_iff_example = can_merge_layer_iff at_a at_a (tt, (refl, (tt, tt), tt))

Answers-move_merge_layer_example :
    Answers (by_key (codes "b") ∷ []) (move_merge_layer at_a at_b) (user_handler 2) [] (codes "/b")
    ↔ (Answers (by_key (codes "b") ∷ []) at_a (user_handler 2) [] (codes "/b")
        ⊎ Answers (by_key (codes "b") ∷ []) at_b (user_handler 2) [] (codes "/b"))
unfolding mounting
Answers-move_merge_layer_example =
    Answers-move_merge_layer (by_key (codes "b") ∷ []) at_a at_b (user_handler 2) [] (codes "/b")
      (tt, (refl, (tt, tt), tt)) refl

mounted_ok : (mount_at derivative_match api (get_table at_a) (get_table at_b)).1 ≡ true
unfolding mounting
mounted_ok = refl

api-Spells : Spells api (codes "api" ∷ [])
api-Spells = record {
  segments = ((λ e. cc, omega arith), tt);
  plain = omega arith;
  text = inl refl;
}

Answers-mount_at_example :
    (mounted : Layer) × (get_elem?
        (mount_at derivative_match api (get_table at_a) (get_table at_b)).0.entrance
        0
      ≡ some mounted)
    × (Answers
          (edges_of (codes "api" ∷ []) ++ by_key (codes "a") ∷ [])
          mounted
          (user_handler 1)
          []
          (codes "/api/a")
        ↔ (Answers
              (edges_of (codes "api" ∷ []) ++ by_key (codes "a") ∷ [])
              at_b
              (user_handler 1)
              []
              (codes "/api/a")
            ⊎ AnswersUnder
                (codes "api" ∷ [])
                (by_key (codes "a") ∷ [])
                at_a
                (user_handler 1)
                []
                (codes "/api/a")))
unfolding find_route
Answers-mount_at_example =
    Answers-mount_at derivative_match api (get_table at_a) (get_table at_b) 0 at_b at_a
      (by_key (codes "a") ∷ []) (user_handler 1) [] (codes "/api/a") (codes "api" ∷ []) api-Spells
      mounted_ok refl refl (tt, (refl, (tt, tt), tt))

Answers-mount_at_outside_example :
    (mounted : Layer) × (get_elem?
        (mount_at derivative_match api (get_table at_a) (get_table at_b)).0.entrance
        0
      ≡ some mounted)
    × (Answers (by_key (codes "b") ∷ []) mounted (user_handler 2) [] (codes "/b")
        ↔ Answers (by_key (codes "b") ∷ []) at_b (user_handler 2) [] (codes "/b"))
unfolding mounting
Answers-mount_at_outside_example =
    Answers-mount_at_outside derivative_match api (get_table at_a) (get_table at_b) 0 at_b
      (by_key (codes "b") ∷ []) (user_handler 2) [] (codes "/b") refl (inl (λ e. cc))

-- The destination answers any first segment at the first method, and has a route of its own where
-- the source is to be mounted at the second.
abbrev contested : RouteTable
contested = record new_table { entrance = at_any ∷ at_a ∷ [] }

abbrev offered : RouteTable
offered = record new_table { entrance = new_layer ∷ leaf 2 (codes "/") ∷ [] }

refused_mount_shadows_example :
    ((route_internal read 0 (codes "/a") contested).handler ≡ some (user_handler 3))
    × ((route_internal read 0
          (codes "/a")
          (mount_at derivative_match (codes "/a") offered contested).0).handler
        ≡ contested.default_handler)
unfolding mounting
refused_mount_shadows_example =
    refused_mount_shadows derivative_match read (codes "/a") (codes "/a") (codes "a") offered
      contested at_any (leaf 3 (codes "/{x}")) new_layer (at_a ∷ []) (leaf 2 (codes "/") ∷ [])
      (user_handler 3) refl refl (λ e. cc) refl refl refl refl refl refl refl refl refl

-- A handler is cloned to the handler a hundred further on; no aspect can be cloned.
abbrev clone_handler : Handler → Option (Option Handler)
clone_handler empty_route_handler = none
clone_handler (user_handler n) = some (some (user_handler (n + 100)))
clone_handler (computing_route_handler h) = none

abbrev clone_aspect : ℕ → Option Aspect
clone_aspect a = none

cloning : Unit {0}
unfolding clone_own_handler clone_aspects clone_settings clone_layer clone_all mount_copy_at
cloning = tt

copy_tests :
    ((route_internal read 0
        (codes "/api/a")
        (mount_copy_at derivative_match clone_handler clone_aspect api
          (get_table at_a)
          (get_table at_b)).0).handler
      ≡ some (user_handler 101))
    × ((mount_copy_at derivative_match clone_handler clone_aspect api
          (get_table (layer (record empty_settings { aspects = some 1 ∷ [] }) no_default no_routes))
          (get_table at_b)).1
        ≡ false)
unfolding mounting cloning
copy_tests = (refl, refl)

-- Here an aspect is cloned to the one a hundred further on.
abbrev aspect_after : ℕ → Option Aspect
aspect_after a = some (some (a + 100))

abbrev decorated : Bytes → ℕ → ℕ → Layer
decorated key h a = layer empty_settings no_default (
    route key
      (layer (record empty_settings { handler = some (user_handler h); aspects = some a ∷ [] })
        no_default no_routes)
      no_routes)

layer_at-clone_layer_example :
    HoldsClone clone_handler aspect_after
      (layer_at (by_key (codes "a") ∷ []) (some (decorated (codes "a") 1 2)))
      (layer_at (by_key (codes "a") ∷ []) (some (decorated (codes "a") 101 102)))
unfolding cloning
layer_at-clone_layer_example =
    layer_at-clone_layer clone_handler aspect_after (by_key (codes "a") ∷ [])
      (decorated (codes "a") 1 2) (decorated (codes "a") 101 102) refl

-- A source with a parameter of its own, under a prefix with a parameter: the source's name is given
-- the segment that met the prefix.
prefix_parameter_tests :
    (route_internal read 0
      (codes "/acme/u/5")
      (mount_at derivative_match
        (codes "/{t}")
        (add_route_entry derivative_match 0 (codes "/u/{id}") (some (user_handler 1)) new_table).0
        new_table).0).parameters
    ≡ (codes "id", codes "acme") ∷ []
unfolding mounting
prefix_parameter_tests = refl
