-- ===== src/Route/Mount/Copy.antt =====
-- src/route/http_route_table_mount.cc: the mount of a table that the caller keeps.
pub mod Laws
use bsrvcore.Base.{ℕ, Bytes, if◌then◌else◌, List, [], ◌∷◌, Bool, false, not, Option, none, some}
use bsrvcore.Route.Validator.{Regex, is_valid_parametric_target}
use bsrvcore.Route.Layer.{
  Handler, Aspect, Settings, Layer, layer, DefaultRoute, no_default, default_layer, Routes,
  no_routes, route,
}
use bsrvcore.Route.Registry.{RouteTable, new_table}
use bsrvcore.Route.Mount.{mount_at}

infixl 5 ◌>>=◌
abbrev ◌>>=◌ {ℓ κ} : {A : Type ℓ} {B : Type κ} → Option A → (A → Option B) → Option B
none >>= f = none
some a >>= f = f a

-- `Clone()` behind the `dynamic_cast`: `none` where the object is not cloneable.
module _ (clone_handler : Handler → Option (Option Handler))
    (clone_aspect : ℕ → Option Aspect) where
  unfoldable pub clone_own_handler : Option Handler → Option (Option Handler)
  clone_own_handler none = some none
  clone_own_handler (some h) = clone_handler h

  -- The cast of a null aspect fails.
  unfoldable pub clone_aspects : List Aspect → Option (List Aspect)
  clone_aspects [] = some []
  clone_aspects (none ∷ rest) = none
  clone_aspects (some a ∷ rest) = do some ((← clone_aspect a) ∷ (← clone_aspects rest))

  unfoldable pub clone_settings : Settings → Option Settings
  clone_settings s = do
    h ← clone_own_handler s.handler
    aspects ← clone_aspects s.aspects
    terminal ← clone_aspects s.terminal_aspects
    some (record s { handler = h; aspects = aspects; terminal_aspects = terminal })

  -- `CloneLayer`.
  unfoldable mutual
    pub clone_layer : Layer → Option Layer
    clone_layer (layer s d m) = do
      cloned ← clone_settings s
      default_route ← clone_default d
      map ← clone_routes m
      some (layer cloned default_route map)

    pub clone_default : DefaultRoute → Option DefaultRoute
    clone_default no_default = some no_default
    clone_default (default_layer l) = do some (default_layer (← clone_layer l))

    pub clone_routes : Routes → Option Routes
    clone_routes no_routes = some no_routes
    clone_routes (route key l rest) = do some (route key (← clone_layer l) (← clone_routes rest))

  unfoldable pub clone_all : List Layer → Option (List Layer)
  clone_all [] = some []
  clone_all (l ∷ ls) = do some ((← clone_layer l) ∷ (← clone_all ls))

module _ (regex_match : Regex → Bytes → Bool) where
  -- `MountAt(prefix, const HttpRouteTable&)`: a clone of the source's trees is mounted, and the
  -- source stays as it is.
  unfoldable pub mount_copy_at :
      (Handler → Option (Option Handler))
      → (ℕ → Option Aspect)
      → Bytes
      → RouteTable
      → RouteTable
      → RouteTable × Bool
  mount_copy_at clone_handler clone_aspect prefix source t =
      if not (is_valid_parametric_target regex_match prefix)
      then (t, false)
      else (elim (clone_all clone_handler clone_aspect source.entrance) [
        | none ↦ (t, false)
        | some cloned ↦ mount_at regex_match prefix (record new_table { entrance = cloned }) t
      ])
