-- ===== src/Route/Layer/Laws.antt =====
-- The map of a layer as a map: what a lookup finds after a write.
use bsrvcore.Base.{
  Bytes, bytes_eq, bytes_eq_iff, if◌then◌else◌, [], ◌∷◌, some, ◌≡◌, ◌≢◌, refl, arith,
}
use bsrvcore.Route.Layer.{
  Layer, layer, Routes, no_routes, route, no_default, default_layer, settings_of, find_route,
  put_route, get_route, get_default_route, set_default_route, set_route,
}

pub find_route-put_route :
    (key other : Bytes) (link : Layer) (m : Routes)
    → find_route other (put_route key link m)
      ≡ (if bytes_eq key other then some link else find_route other m)
unfolding find_route put_route
find_route-put_route key other link no_routes = refl
find_route-put_route key other link (route k l rest) = ground (
  arith,
  bytes_eq_iff key other,
  bytes_eq_iff k key,
  bytes_eq_iff k other,
  find_route-put_route key other link rest,
)

pub get_route-set_route :
    (key other : Bytes) (link l : Layer)
    → key ≢ []
    → get_route other (set_route key link l)
      ≡ (if bytes_eq key other then some link else get_route other l)
unfolding get_route set_route
get_route-set_route [] other link l h = absurd (h refl)
get_route-set_route (c ∷ key) other link (layer s d m) h =
    find_route-put_route (c ∷ key) other link m

pub get_route-set_default_route :
    (other : Bytes) (link l : Layer)
    → get_route other (set_default_route link l) ≡ get_route other l
unfolding get_route set_default_route
get_route-set_default_route other link (layer s d m) = refl

pub get_default_route-set_default_route :
    (link l : Layer) → get_default_route (set_default_route link l) ≡ some link
unfolding get_default_route set_default_route
get_default_route-set_default_route link (layer s d m) = refl

pub settings_of-set_default_route :
    (link l : Layer) → settings_of (set_default_route link l) ≡ settings_of l
unfolding set_default_route
settings_of-set_default_route link (layer s d m) = refl

pub settings_of-set_route :
    (key : Bytes) (link l : Layer) → settings_of (set_route key link l) ≡ settings_of l
unfolding set_route
settings_of-set_route [] link (layer s d m) = refl
settings_of-set_route (c ∷ key) link (layer s d m) = refl

pub get_default_route-set_route :
    (key : Bytes) (link l : Layer) → get_default_route (set_route key link l) ≡ get_default_route l
unfolding set_route get_default_route
get_default_route-set_route [] link (layer s no_default m) = refl
get_default_route-set_route [] link (layer s (default_layer d) m) = refl
get_default_route-set_route (c ∷ key) link (layer s no_default m) = refl
get_default_route-set_route (c ∷ key) link (layer s (default_layer d) m) = refl
