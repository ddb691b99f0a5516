-- ===== src/Route/Match/Registered.antt =====
-- A request that follows a registered target reaches what was registered there.
use bsrvcore.Base.{
  ℕ, Bytes, get_elem?, ◌<◌, modify, List, [], Bool, true, Option, some, ◌≡◌, refl, sym, ap, ◌∙◌,
  arith, get_elem?-modify_self,
}
use bsrvcore.Route.Segments.{split_target_segments, extract_param_names, normalize_route_template}
use bsrvcore.Route.Segments.Laws.{join, split_target_segments-IsSegment}
use bsrvcore.Route.Validator.{Regex, is_valid_parametric_target}
use bsrvcore.Route.Layer.{
  Handler, Settings, Layer, layer, settings_of, configure, describe, set_handler,
}
use bsrvcore.Route.Registry.{
  RouteTable, method_count, target_layer, at_segments, get_or_create, register, add_route_entry,
}
use bsrvcore.Route.Match.{
  Matched, match_segments, start, or_slash, fill_params, build_parameter_map, matched_result,
  route_internal, RouteResult,
}
use bsrvcore.Route.Match.Walk.{nonempty, Follows, captured, match_loop-nonempty, match_loop-Follows}

settings_of-configure :
    (g : Settings → Settings) (l : Layer) → settings_of (configure g l) ≡ g (settings_of l)
settings_of-configure g (layer s d m) = refl

add_route_entry-entrance :
    (regex_match : Regex → Bytes → Bool) (method : ℕ) (target : Bytes) (h : Option Handler)
    (t : RouteTable)
    → method < method_count
    → is_valid_parametric_target regex_match target ≡ true
    → (add_route_entry regex_match method target h t).0
      ≡ record t { entrance = modify t.entrance method (get_or_create target (set_handler h)) }
unfolding add_route_entry register
add_route_entry-entrance regex_match method target h t lt v = ground (arith, v)

-- The result that a request gets from a target registered with the handler `h`, when it met the
-- words of the target with `segs`.
pub record Serves (h : Handler) (target : Bytes) (segs : List Bytes) (r : RouteResult)
    : Type 0 where
  pub handled : r.handler ≡ some h
  pub templated : r.route_template ≡ normalize_route_template target
  pub located : r.current_location ≡ or_slash (join segs)
  pub parameterised :
      r.parameters
      ≡ fill_params [] (extract_param_names target) (captured (split_target_segments target) segs)

Serves-matched :
    (h : Handler) (target : Bytes) (segs : List Bytes) (t : RouteTable) (method : ℕ) (m : Matched)
    (g : Settings)
    → settings_of m.layer ≡ record g {
      param_names = extract_param_names target;
      route_template = normalize_route_template target;
      handler = some h;
    }
    → m.location ≡ or_slash (join segs)
    → m.values ≡ captured (split_target_segments target) segs
    → Serves h target segs (matched_result t method m)
unfolding matched_result build_parameter_map
Serves-matched h target segs t method m g e located values =
    let handled = ap (λ (s : Settings). s.handler) e in
    rw (handled, matched_result)
      (record {
        handled = refl;
        templated = ap (λ (s : Settings). s.route_template) e;
        located = located;
        parameterised = rw (values, ap (λ (s : Settings). s.param_names) e) refl;
      })

module _ (regex_match : Regex → Bytes → Bool) (parse : Bytes → Option (List Bytes)) (method : ℕ)
    (target request : Bytes) (h : Handler) (t : RouteTable) (root : Layer) (segs : List Bytes) where
  pub route_internal-add_route_entry :
      method < method_count
      → is_valid_parametric_target regex_match target ≡ true
      → get_elem? t.entrance method ≡ some root
      → parse request ≡ some segs
      → Follows (split_target_segments target) (nonempty segs) root
      → Serves h target (nonempty segs) (
          route_internal parse method request
            (add_route_entry regex_match method target (some h) t).0)
  unfolding route_internal match_segments get_or_create
  route_internal-add_route_entry lt v e p follows =
      let words = split_target_segments target in
      let g = λ (s : Settings).
        set_handler (some h)
          (describe (extract_param_names target) (normalize_route_template target) s) in
      let built = at_segments words (configure g) root in
      let a =
        match_loop-Follows (configure g) words (nonempty segs) root (start built)
          (split_target_segments-IsSegment target) refl follows in
      let found = sym (match_loop-nonempty (start built) segs) ∙ a.found in
      rw
        (
          add_route_entry-entrance regex_match method target (some h) t lt v,
          get_elem?-modify_self t.entrance method (get_or_create target (set_handler (some h))) e,
          p,
          found,
          route_internal,
        )
        (Serves-matched h target (nonempty segs)
          (add_route_entry regex_match method target (some h) t).0 method
          (record a.final { location = or_slash a.final.location })
          (settings_of (target_layer words root))
          (ap settings_of a.at_goal ∙ settings_of-configure g (target_layer words root))
          (ap or_slash a.located) a.captures)
