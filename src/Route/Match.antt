-- ===== src/Route/Match.antt =====
-- src/route/http_route_table_match.cc: from a request target to a handler with its aspects,
-- limits and parameters. `boost::urls::parse_uri_reference` is a parameter: it refuses a target,
-- or gives the decoded segments of its path.
pub mod Walk
pub mod Registered
pub mod Envelope
pub mod Parameters
pub mod Nameless
use bsrvcore.Base.{
  ℕ, Bytes, codes, is_empty, bytes_eq, get_elem?, ◌==◌, leb, if◌then◌else◌, List, [], ◌∷◌, ◌++◌,
  Bool, true, false, Option, none, some, ◌||◌, not,
}
use bsrvcore.Route.Layer.{
  Handler, Aspect, Settings, Layer, settings_of, get_route, get_default_route,
}
use bsrvcore.Route.Registry.{RouteTable}

-- What `MatchSegments` leaves in its out parameters.
pub record Matched : Type 0 where
  pub layer : Layer
  pub location : Bytes
  pub values : List Bytes
  pub layers : List Layer

-- One exact step, and one step along the default edge.
abbrev pub step_exact : Bytes → Layer → Matched → Matched
step_exact seg next m = record m {
  layer = next;
  location = m.location ++ b'/' ∷ seg;
  layers = m.layers ++ next ∷ [];
}

abbrev pub step_default : Bytes → Layer → Matched → Matched
step_default seg next m = record m {
  layer = next;
  location = m.location ++ b'/' ∷ seg;
  values = m.values ++ seg ∷ [];
  layers = m.layers ++ next ∷ [];
}

-- The loop of `MatchSegments`; `none` is `return false`, and an exclusive layer ends the loop.
unfoldable pub match_loop : Matched → List Bytes → Option Matched
unfolding get_route get_default_route
match_loop m [] = some m
match_loop m (seg ∷ segs) = elim (is_empty seg) [
  | true ↦ match_loop m segs
  | false ↦ elim (get_route seg m.layer) [
    | some next ↦ match_loop (step_exact seg next m) segs
    | none ↦ elim (settings_of m.layer).ignore_default_route [
      | true ↦ some m
      | false ↦ elim (get_default_route m.layer) [
        | none ↦ none
        | some next ↦ match_loop (step_default seg next m) segs
      ]
    ]
  ]
]

abbrev pub start : Layer → Matched
start l = record { layer = l; location = []; values = []; layers = l ∷ [] }

abbrev pub or_slash : Bytes → Bytes
or_slash location = if is_empty location then codes "/" else location

unfoldable pub match_segments : Layer → List Bytes → Option Matched
unfolding match_loop
match_segments l segs = elim (match_loop (start l) segs) [
  | none ↦ none
  | some m ↦ some (record m { location = or_slash m.location })
]

-- `unordered_map::emplace`: a name that is there keeps its value.
unfoldable pub has_param : Bytes → List (Bytes × Bytes) → Bool
has_param name [] = false
has_param name ((k, v) ∷ ps) = bytes_eq k name || has_param name ps

abbrev pub emplace_param : Bytes → Bytes → List (Bytes × Bytes) → List (Bytes × Bytes)
emplace_param name value ps = if has_param name ps then ps else ps ++ (name, value) ∷ []

-- The loop of `BuildParameterMap`, up to the shorter of the two lists.
unfoldable pub fill_params : List (Bytes × Bytes) → List Bytes → List Bytes → List (Bytes × Bytes)
unfolding has_param
fill_params ps [] values = ps
fill_params ps (name ∷ names) [] = ps
fill_params ps (name ∷ names) (value ∷ values) =
    fill_params (emplace_param name value ps) names values

unfoldable pub build_parameter_map : Layer → List Bytes → List (Bytes × Bytes)
unfolding fill_params
build_parameter_map l values = fill_params [] (settings_of l).param_names values

abbrev pub subtree_aspects : List Layer → List Aspect
subtree_aspects [] = []
subtree_aspects (l ∷ ls) = (settings_of l).aspects ++ subtree_aspects ls

abbrev pub or_no_aspects : Option (List Aspect) → List Aspect
or_no_aspects none = []
or_no_aspects (some aspects) = aspects

unfoldable pub collect_aspects : RouteTable → List Layer → Layer → ℕ → List Aspect
collect_aspects t matched_layers route_layer method =
    t.global_aspects
    ++ (or_no_aspects (get_elem? t.global_specific_aspects method)
        ++ (subtree_aspects matched_layers ++ (settings_of route_layer).terminal_aspects))

-- `HttpRouteResultInternal`.
pub record RouteResult : Type 0 where
  pub current_location : Bytes
  pub route_template : Bytes
  pub parameters : List (Bytes × Bytes)
  pub aspects : List Aspect
  pub handler : Option Handler
  pub max_body_size : ℕ
  pub read_expiry : ℕ
  pub write_expiry : ℕ

unfoldable pub build_default_route_result : RouteTable → RouteResult
build_default_route_result t = record {
  current_location = codes "/";
  route_template = codes "/";
  parameters = [];
  aspects = t.global_aspects;
  handler = t.default_handler;
  max_body_size = t.default_max_body_size;
  read_expiry = t.default_read_expiry;
  write_expiry = t.default_write_expiry;
}

-- A layer's own limit, or the table's where the layer has none.
abbrev pub own_or : ℕ → ℕ → ℕ
own_or own default = if own == 0 then default else own

unfoldable pub matched_result : RouteTable → ℕ → Matched → RouteResult
unfolding collect_aspects build_parameter_map build_default_route_result
matched_result t method m =
    let s = settings_of m.layer in
    elim s.handler [
      | none ↦ build_default_route_result t
      | some h ↦ record {
        current_location = m.location;
        route_template = s.route_template;
        parameters = build_parameter_map m.layer m.values;
        aspects = collect_aspects t m.layers m.layer method;
        handler = some h;
        max_body_size = own_or s.max_body_size t.default_max_body_size;
        read_expiry = own_or s.read_expiry t.default_read_expiry;
        write_expiry = own_or s.write_expiry t.default_write_expiry;
      }
    ]

unfoldable pub route_internal : (Bytes → Option (List Bytes)) → ℕ → Bytes → RouteTable → RouteResult
unfolding match_segments matched_result build_default_route_result
route_internal parse_uri_reference method target t = elim (get_elem? t.entrance method) [
  | none ↦ build_default_route_result t
  | some root ↦ elim (parse_uri_reference target) [
    | none ↦ build_default_route_result t
    | some segs ↦ elim (match_segments root segs) [
      | none ↦ build_default_route_result t
      | some m ↦ matched_result t method m
    ]
  ]
]
