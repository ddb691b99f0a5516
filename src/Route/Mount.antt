-- ===== src/Route/Mount.antt =====
-- src/route/http_route_table_mount.cc: a table mounted on another under a prefix. Merging takes
-- the source apart; the caller gives the source up, so what is left of it is not returned.
pub mod Paths
pub mod Merge
pub mod Conflicts
pub mod Answers
pub mod Walks
pub mod Joining
pub mod Prefixed
pub mod Tables
pub mod Aside
pub mod Outside
pub mod Refused
pub mod Copy
pub mod Tests
use bsrvcore.Base.{
  ℕ, zero, suc, ◌+◌, Bytes, codes, is_empty, bytes_eq, length, ltb, ◌==◌, if◌then◌else◌, List, [],
  ◌∷◌, ◌++◌, Bool, true, false, not, ◌&&◌, ◌||◌, Option, none, some,
}
use bsrvcore.Route.Segments.{back_is, split_target_segments, normalize_route_template}
use bsrvcore.Route.Validator.{Regex, is_valid_parametric_target}
use bsrvcore.Route.Layer.{
  Handler, Aspect, Settings, Layer, layer, DefaultRoute, no_default, default_layer, Routes,
  no_routes, route, settings_of, default_of, routes_of, find_route, put_route,
}
use bsrvcore.Route.Registry.{RouteTable, new_table, at_segments, target_layer}

-- `std::string::pop_back`, of a string that is not empty.
abbrev pub pop_back : Bytes → Bytes
pop_back [] = []
pop_back (c ∷ []) = []
pop_back (c ∷ d ∷ s) = c ∷ pop_back (d ∷ s)

unfoldable pub join_route_template : Bytes → Bytes → Bytes
join_route_template prefix route_template =
    let given = normalize_route_template prefix in
    let normalized_prefix =
      if ltb 1 (length given) && back_is b'/' given then pop_back given else given in
    let normalized_route = normalize_route_template route_template in
    if bytes_eq normalized_prefix (codes "/")
    then normalized_route
    else (if bytes_eq normalized_route (codes "/")
        then normalized_prefix
        else normalized_prefix ++ normalized_route)

abbrev pub is_some {ℓ} : {A : Type ℓ} → Option A → Bool
is_some none = false
is_some (some a) = true

-- `HasTerminalConfiguration`.
abbrev pub has_terminal_configuration : Settings → Bool
has_terminal_configuration s =
    is_some s.handler
    || not (is_empty s.terminal_aspects)
    || not (s.max_body_size == 0)
    || not (s.read_expiry == 0)
    || not (s.write_expiry == 0)

unfoldable pub prefix_template : Bytes → Settings → Settings
prefix_template prefix s =
    if has_terminal_configuration s
    then record s { route_template = join_route_template prefix s.route_template }
    else s

-- `PrefixRouteTemplates`.
unfoldable mutual
  pub prefix_route_templates : Bytes → Layer → Layer
  prefix_route_templates prefix (layer s d m) =
      layer (prefix_template prefix s) (prefix_default prefix d) (prefix_routes prefix m)

  pub prefix_default : Bytes → DefaultRoute → DefaultRoute
  prefix_default prefix no_default = no_default
  prefix_default prefix (default_layer l) = default_layer (prefix_route_templates prefix l)

  pub prefix_routes : Bytes → Routes → Routes
  prefix_routes prefix no_routes = no_routes
  prefix_routes prefix (route k l rest) =
      route k (prefix_route_templates prefix l) (prefix_routes prefix rest)

-- `CanMergeLayer`, on the source's links.
unfoldable mutual
  pub can_merge_layer : Layer → Layer → Bool
  can_merge_layer dst (layer s d m) =
      not (has_terminal_configuration s && has_terminal_configuration (settings_of dst))
      && (can_merge_default (default_of dst) d && can_merge_routes (routes_of dst) m)

  pub can_merge_default : DefaultRoute → DefaultRoute → Bool
  can_merge_default dst no_default = true
  can_merge_default dst (default_layer l) = elim dst [
    | no_default ↦ true
    | default_layer k ↦ can_merge_layer k l
  ]

  pub can_merge_routes : Routes → Routes → Bool
  can_merge_routes dst no_routes = true
  can_merge_routes dst (route key l rest) =
      (elim (find_route key dst) [ none ↦ true | some k ↦ can_merge_layer k l ])
      && can_merge_routes dst rest

-- The part of `MoveMergeLayer` on the layers' own fields.
abbrev pub or_else {ℓ} : {A : Type ℓ} → List A → List A → List A
or_else [] ys = ys
or_else (x ∷ xs) ys = x ∷ xs

abbrev pub unless_zero : ℕ → ℕ → ℕ
unless_zero src dst = if src == 0 then dst else src

-- Handler, parameter names and template move together, if the source has a handler.
abbrev pub merge_handler : Option Handler → Settings → Settings → Settings
merge_handler none dst src = dst
merge_handler (some h) dst src = record dst {
  handler = some h;
  param_names = src.param_names;
  route_template = src.route_template;
}

unfoldable pub merge_settings : Settings → Settings → Settings
merge_settings dst src = record (merge_handler src.handler dst src) {
  aspects = dst.aspects ++ src.aspects;
  terminal_aspects = or_else src.terminal_aspects dst.terminal_aspects;
  max_body_size = unless_zero src.max_body_size dst.max_body_size;
  read_expiry = unless_zero src.read_expiry dst.read_expiry;
  write_expiry = unless_zero src.write_expiry dst.write_expiry;
  ignore_default_route = src.ignore_default_route || dst.ignore_default_route;
}

-- `MoveMergeLayer`.
unfoldable mutual
  pub move_merge_layer : Layer → Layer → Layer
  move_merge_layer dst (layer s d m) =
      layer (merge_settings (settings_of dst) s) (merge_default (default_of dst) d)
        (merge_routes (routes_of dst) m)

  pub merge_default : DefaultRoute → DefaultRoute → DefaultRoute
  merge_default dst no_default = dst
  merge_default dst (default_layer l) = elim dst [
    | no_default ↦ default_layer l
    | default_layer k ↦ default_layer (move_merge_layer k l)
  ]

  pub merge_routes : Routes → Routes → Routes
  merge_routes dst no_routes = dst
  merge_routes dst (route key l rest) =
      merge_routes
        (put_route key (elim (find_route key dst) [ none ↦ l | some k ↦ move_merge_layer k l ]) dst)
        rest

-- The first pass of `MountAt`: at each method the mount layer is created, then compared with the
-- source. It stops at the first conflict, and what it created so far stays.
unfoldable pub prepare_mount : List Bytes → List Layer → List Layer → List Layer × Bool
prepare_mount words [] sources = ([], true)
prepare_mount words (root ∷ roots) [] = (root ∷ roots, true)
prepare_mount words (root ∷ roots) (source ∷ sources) =
    let created = at_segments words (λ l. l) root in
    let later = prepare_mount words roots sources in
    elim (can_merge_layer (target_layer words root) source) [
      | true ↦ (created ∷ later.0, later.1)
      | false ↦ (created ∷ roots, false)
    ]

-- The second pass.
unfoldable pub merge_mount : List Bytes → List Layer → List Layer → List Layer
merge_mount words [] sources = []
merge_mount words (root ∷ roots) [] = root ∷ roots
merge_mount words (root ∷ roots) (source ∷ sources) =
    at_segments words (λ l. move_merge_layer l source) root ∷ merge_mount words roots sources

abbrev pub prefix_all : Bytes → List Layer → List Layer
prefix_all prefix [] = []
prefix_all prefix (l ∷ ls) = prefix_route_templates prefix l ∷ prefix_all prefix ls

module _ (regex_match : Regex → Bytes → Bool) where
  -- `MountAt(prefix, HttpRouteTable&&)`.
  unfoldable pub mount_at : Bytes → RouteTable → RouteTable → RouteTable × Bool
  mount_at prefix source t =
      if not (is_valid_parametric_target regex_match prefix)
      then (t, false)
      else (let words = split_target_segments prefix in
          let sources = prefix_all prefix source.entrance in
          let (prepared, mergeable) = prepare_mount words t.entrance sources in
          if mergeable
          then (record t { entrance = merge_mount words prepared sources }, true)
          else (record t { entrance = prepared }, false))
