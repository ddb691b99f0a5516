-- ===== src/Route/Registry/Walk.antt =====
-- The walk of a registration, edge by edge: what a request can follow afterwards.
use bsrvcore.Base.{Bytes, bytes_eq_refl, [], true, false, some, ◌≡◌, ◌≢◌, refl, arith}
use bsrvcore.Route.Segments.{is_parameter_segment}
use bsrvcore.Route.Layer.{Layer, settings_of, get_route, get_default_route}
use bsrvcore.Route.Layer.Laws.{
  get_route-set_route, get_route-set_default_route, get_default_route-set_default_route,
  settings_of-set_default_route, settings_of-set_route,
}
use bsrvcore.Route.Registry.{attach_layer}

pub settings_of-attach_layer :
    (word : Bytes) (next l : Layer) → settings_of (attach_layer word next l) ≡ settings_of l
unfolding attach_layer
settings_of-attach_layer word next l =
    ground (arith, settings_of-set_default_route next l, settings_of-set_route word next l)

pub get_route-attach_layer :
    (word : Bytes) (next l : Layer)
    → is_parameter_segment word ≡ false
    → word ≢ []
    → get_route word (attach_layer word next l) ≡ some next
unfolding attach_layer
get_route-attach_layer word next l p h =
    rw p (rw (get_route-set_route word word next l h, bytes_eq_refl word) refl)

pub get_route-attach_layer_parameter :
    (word seg : Bytes) (next l : Layer)
    → is_parameter_segment word ≡ true
    → get_route seg (attach_layer word next l) ≡ get_route seg l
unfolding attach_layer
get_route-attach_layer_parameter word seg next l p = rw p (get_route-set_default_route seg next l)

pub get_default_route-attach_layer :
    (word : Bytes) (next l : Layer)
    → is_parameter_segment word ≡ true
    → get_default_route (attach_layer word next l) ≡ some next
unfolding attach_layer
get_default_route-attach_layer word next l p = rw p (get_default_route-set_default_route next l)
