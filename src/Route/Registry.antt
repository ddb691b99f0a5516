-- ===== src/Route/Registry.antt =====
-- src/route/http_route_table_registry.cc: the table, and the calls that register on it.
pub mod Walk
pub mod Teardown
use bsrvcore.Base.{
  ℕ, Bytes, length, leb, modify, get_elem?, ◌||◌, not, if◌then◌else◌, List, [], ◌∷◌, ◌++◌, Bool,
  true, false, Option, none, some,
}
use bsrvcore.Route.Segments.{
  is_parameter_segment, split_target_segments, extract_param_names, normalize_route_template,
}
use bsrvcore.Route.Validator.{Regex, is_valid_parametric_target}
use bsrvcore.Route.Layer.{
  Handler, empty_route_handler, Aspect, Settings, Layer, new_layer, get_route, get_default_route,
  set_default_route, set_route, configure, set_handler, set_ignore_default_route, add_aspect,
  add_terminal_aspect, set_max_body_size, set_read_expiry, set_write_expiry, describe,
}

-- The methods are the indices below nine; the source casts any `HttpRequestMethod` to one.
abbrev pub method_count : ℕ
method_count = 9

pub record RouteTable : Type 0 where
  pub entrance : List Layer
  pub global_specific_aspects : List (List Aspect)
  pub global_aspects : List Aspect
  pub default_handler : Option Handler
  pub default_max_body_size : ℕ
  pub default_read_expiry : ℕ
  pub default_write_expiry : ℕ

abbrev pub nine {ℓ} : {A : Type ℓ} → A → List A
nine a = a ∷ a ∷ a ∷ a ∷ a ∷ a ∷ a ∷ a ∷ a ∷ []

abbrev pub new_table : RouteTable
new_table = record {
  entrance = nine new_layer;
  global_specific_aspects = nine [];
  global_aspects = [];
  default_handler = some empty_route_handler;
  default_max_body_size = 16384;
  default_read_expiry = 4000;
  default_write_expiry = 4000;
}

abbrev pub or_new : Option Layer → Layer
or_new none = new_layer
or_new (some l) = l

-- The layer behind one word of a target, created where it is missing: all parameter segments
-- share the default edge.
unfoldable pub next_layer : Bytes → Layer → Layer
next_layer word l =
    or_new (if is_parameter_segment word then get_default_route l else get_route word l)

-- The same edge of `l`, now leading to `next`.
unfoldable pub attach_layer : Bytes → Layer → Layer → Layer
attach_layer word next l =
    if is_parameter_segment word then set_default_route next l else set_route word next l

-- The walk of `GetOrCreateRouteTableLayer` (and of the lambda in `MountAt`): `f` stands for what
-- the caller does to the layer that the walk returns a pointer to.
unfoldable pub at_segments : List Bytes → (Layer → Layer) → Layer → Layer
at_segments [] f l = f l
at_segments (word ∷ words) f l = attach_layer word (at_segments words f (next_layer word l)) l

-- The layer that the walk ends at, as it is before the caller changes it.
abbrev pub target_layer : List Bytes → Layer → Layer
target_layer [] l = l
target_layer (word ∷ words) l = target_layer words (next_layer word l)

-- `GetOrCreateRouteTableLayer`, then `f` on the settings of the terminal layer.
unfoldable pub get_or_create : Bytes → (Settings → Settings) → Layer → Layer
get_or_create target f l =
    at_segments (split_target_segments target)
      (configure
        (λ s. f (describe (extract_param_names target) (normalize_route_template target) s)))
      l

module _ (regex_match : Regex → Bytes → Bool) where
  -- The common body of the calls that register under a method and a target.
  unfoldable pub register : ℕ → Bytes → (Settings → Settings) → RouteTable → RouteTable × Bool
  register method target f t =
      if leb method_count method || not (is_valid_parametric_target regex_match target)
      then (t, false)
      else (record t { entrance = modify t.entrance method (get_or_create target f) }, true)

  unfoldable pub add_route_entry : ℕ → Bytes → Option Handler → RouteTable → RouteTable × Bool
  add_route_entry method target handler = register method target (set_handler handler)

  unfoldable pub add_exclusive_route_entry :
      ℕ → Bytes → Option Handler → RouteTable → RouteTable × Bool
  add_exclusive_route_entry method target handler =
      register method target (λ s. set_ignore_default_route true (set_handler handler s))

  unfoldable pub add_route_aspect : ℕ → Bytes → Aspect → RouteTable → RouteTable × Bool
  add_route_aspect method target aspect = register method target (add_aspect aspect)

  unfoldable pub add_route_terminal_aspect : ℕ → Bytes → Aspect → RouteTable → RouteTable × Bool
  add_route_terminal_aspect method target aspect =
      register method target (add_terminal_aspect aspect)

  unfoldable pub set_route_write_expiry : ℕ → Bytes → ℕ → RouteTable → RouteTable × Bool
  set_route_write_expiry method target expiry = register method target (set_write_expiry expiry)

  unfoldable pub set_route_read_expiry : ℕ → Bytes → ℕ → RouteTable → RouteTable × Bool
  set_route_read_expiry method target expiry = register method target (set_read_expiry expiry)

  unfoldable pub set_route_max_body_size : ℕ → Bytes → ℕ → RouteTable → RouteTable × Bool
  set_route_max_body_size method target size = register method target (set_max_body_size size)

-- The two forms of `AddGlobalAspect`.
unfoldable pub add_method_aspect : ℕ → Aspect → RouteTable → RouteTable × Bool
add_method_aspect method aspect t = if leb method_count method then (t, false) else (
  record t {
    global_specific_aspects = modify t.global_specific_aspects method (λ list. list ++ aspect ∷ []);
  },
  true,
)

unfoldable pub add_global_aspect : Aspect → RouteTable → RouteTable × Bool
add_global_aspect aspect t = (record t { global_aspects = t.global_aspects ++ aspect ∷ [] }, true)

abbrev pub set_default_handler : Option Handler → RouteTable → RouteTable
set_default_handler handler t = record t { default_handler = handler }

abbrev pub set_default_write_expiry : ℕ → RouteTable → RouteTable
set_default_write_expiry expiry t = record t { default_write_expiry = expiry }

abbrev pub set_default_read_expiry : ℕ → RouteTable → RouteTable
set_default_read_expiry expiry t = record t { default_read_expiry = expiry }

abbrev pub set_default_max_body_size : ℕ → RouteTable → RouteTable
set_default_max_body_size size t = record t { default_max_body_size = size }
