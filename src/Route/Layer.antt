-- ===== src/Route/Layer.antt =====
-- src/route/http_route_table_layer.cc: one node of the routing tree. A pointer to an owned object
-- is the object, or a null case; handlers and aspects are known by their identity alone.
pub mod Laws
use bsrvcore.Base.{
  ℕ, Bytes, codes, is_empty, bytes_eq, if◌then◌else◌, List, [], ◌∷◌, ◌++◌, Bool, true, false,
  Option, none, some,
}

-- The handler objects: the fallback of the library, one of the program, and the wrapper that moves
-- another to the worker pool (computing_route_handler.cc).
pub data Handler : Type 0 where
  empty_route_handler : Handler
  user_handler : ℕ → Handler
  computing_route_handler : Handler → Handler

-- `WrapComputingHandler`.
unfoldable pub wrap_computing_handler : Option Handler → Option Handler
wrap_computing_handler none = none
wrap_computing_handler (some handler) = some (computing_route_handler handler)

-- An `OwnedPtr<HttpRequestAspectHandler>`, which may be null.
abbrev pub Aspect : Type 0
Aspect = Option ℕ

-- The fields of `HttpRouteTableLayer` but its two links.
pub record Settings : Type 0 where
  pub aspects : List Aspect
  pub terminal_aspects : List Aspect
  pub param_names : List Bytes
  pub handler : Option Handler
  pub route_template : Bytes
  pub max_body_size : ℕ
  pub read_expiry : ℕ
  pub write_expiry : ℕ
  pub ignore_default_route : Bool

mutual
  -- `layer settings default_route map`
  pub data Layer : Type 0 where
    layer : Settings → DefaultRoute → Routes → Layer

  pub data DefaultRoute : Type 0 where
    no_default : DefaultRoute
    default_layer : Layer → DefaultRoute

  -- `map_`: a key and its layer, then the rest. No value of it is ever null: `SetRoute` refuses
  -- null, and a source whose values were moved out is cleared.
  pub data Routes : Type 0 where
    no_routes : Routes
    route : Bytes → Layer → Routes → Routes

abbrev pub settings_of : Layer → Settings
settings_of (layer s d m) = s

abbrev pub default_of : Layer → DefaultRoute
default_of (layer s d m) = d

abbrev pub routes_of : Layer → Routes
routes_of (layer s d m) = m

-- The constructor.
abbrev pub empty_settings : Settings
empty_settings = record {
  aspects = [];
  terminal_aspects = [];
  param_names = [];
  handler = none;
  route_template = codes "/";
  max_body_size = 0;
  read_expiry = 0;
  write_expiry = 0;
  ignore_default_route = false;
}

abbrev pub new_layer : Layer
new_layer = layer empty_settings no_default no_routes

-- `map_.find`.
unfoldable pub find_route : Bytes → Routes → Option Layer
find_route key no_routes = none
find_route key (route k l rest) = if bytes_eq k key then some l else find_route key rest

-- `it->second = link` where the key is there, `map_.emplace` where it is not.
unfoldable pub put_route : Bytes → Layer → Routes → Routes
put_route key link no_routes = route key link no_routes
put_route key link (route k l rest) =
    if bytes_eq k key then route k link rest else route k l (put_route key link rest)

unfoldable pub get_route : Bytes → Layer → Option Layer
unfolding find_route
get_route key l = find_route key (routes_of l)

unfoldable pub get_default_route : Layer → Option Layer
get_default_route (layer s no_default m) = none
get_default_route (layer s (default_layer l) m) = some l

unfoldable pub set_default_route : Layer → Layer → Layer
set_default_route link (layer s d m) = layer s (default_layer link) m

-- `SetRoute`; the key of every call is a segment, so not empty, and the link is not null.
unfoldable pub set_route : Bytes → Layer → Layer → Layer
unfolding put_route
set_route key link (layer s d m) =
    if is_empty key then layer s d m else layer s d (put_route key link m)

-- The setters of a layer's own fields.
abbrev pub configure : (Settings → Settings) → Layer → Layer
configure f (layer s d m) = layer (f s) d m

-- `SetHandler`: null is refused.
abbrev pub set_handler : Option Handler → Settings → Settings
set_handler none s = s
set_handler (some h) s = record s { handler = some h }

abbrev pub set_ignore_default_route : Bool → Settings → Settings
set_ignore_default_route flag s = record s { ignore_default_route = flag }

abbrev pub add_aspect : Aspect → Settings → Settings
add_aspect aspect s = record s { aspects = s.aspects ++ aspect ∷ [] }

abbrev pub add_terminal_aspect : Aspect → Settings → Settings
add_terminal_aspect aspect s = record s { terminal_aspects = s.terminal_aspects ++ aspect ∷ [] }

abbrev pub set_max_body_size : ℕ → Settings → Settings
set_max_body_size size s = record s { max_body_size = size }

abbrev pub set_read_expiry : ℕ → Settings → Settings
set_read_expiry expiry s = record s { read_expiry = expiry }

abbrev pub set_write_expiry : ℕ → Settings → Settings
set_write_expiry expiry s = record s { write_expiry = expiry }

-- `SetParamNames` and `SetRouteTemplate`.
abbrev pub describe : List Bytes → Bytes → Settings → Settings
describe names template s = record s { param_names = names; route_template = template }
