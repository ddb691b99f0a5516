-- ===== src/Route/Registry/Teardown.antt =====
-- src/route/http_route_table_registry.cc: the teardown of a routing tree, which keeps the layers
-- that are still to be destroyed in a vector. The vector is a list with its back first; a layer
-- that is destroyed has lost its children to the vector, and is known by its own fields.
use bsrvcore.Base.{
  ℕ, zero, suc, ◌+◌, ◌≤◌, ◌≡◌, refl, ap, ◌∙◌, List, [], ◌∷◌, Bool, true, Option, none, some, arith,
}
use bsrvcore.Route.Layer.{
  Settings, Layer, layer, DefaultRoute, no_default, default_layer, Routes, no_routes, route,
}
use bsrvcore.Session.Heap.Slots.{count, one}

abbrev pub push_routes : Routes → List Layer → List Layer
push_routes no_routes pending = pending
push_routes (route key child rest) pending = push_routes rest (child ∷ pending)

abbrev pub push_default : DefaultRoute → List Layer → List Layer
push_default no_default pending = pending
push_default (default_layer child) pending = child ∷ pending

-- `CollectChildLayers`.
abbrev pub collect_child_layers : Layer → List Layer → List Layer
collect_child_layers (layer s d m) pending = push_routes m (push_default d pending)

abbrev pub destroyed_first : Settings → Option (List Settings) → Option (List Settings)
destroyed_first s none = none
destroyed_first s (some later) = some (s ∷ later)

-- The loop of `DestroyLayerTreeIterative`: the layers in the order of their destruction.
unfoldable pub destroy_loop : ℕ → List Layer → Option (List Settings)
destroy_loop fuel [] = some []
destroy_loop zero (current ∷ pending) = none
destroy_loop (suc fuel) (layer s d m ∷ pending) =
    destroyed_first s (destroy_loop fuel (collect_child_layers (layer s d m) pending))

unfoldable pub destroy_layer_tree_iterative : ℕ → Layer → Option (List Settings)
unfolding destroy_loop
destroy_layer_tree_iterative fuel root = destroy_loop fuel (root ∷ [])

-- How many layers of a tree pass a test.
module _ (p : Settings → Bool) where
  abbrev mutual
    pub layers : Layer → ℕ
    layers (layer s d m) = one (p s) + (default_layers d + routes_layers m)

    pub default_layers : DefaultRoute → ℕ
    default_layers no_default = 0
    default_layers (default_layer l) = layers l

    pub routes_layers : Routes → ℕ
    routes_layers no_routes = 0
    routes_layers (route key l rest) = layers l + routes_layers rest

  abbrev pub pending_layers : List Layer → ℕ
  pending_layers [] = 0
  pending_layers (l ∷ pending) = layers l + pending_layers pending

  pending_layers-push_routes :
      (m : Routes) (pending : List Layer)
      → pending_layers (push_routes m pending) ≡ routes_layers m + pending_layers pending
  pending_layers-push_routes no_routes pending = omega arith
  pending_layers-push_routes (route key l rest) pending =
      omega (arith, pending_layers-push_routes rest (l ∷ pending))

  pending_layers-push_default :
      (d : DefaultRoute) (pending : List Layer)
      → pending_layers (push_default d pending) ≡ default_layers d + pending_layers pending
  pending_layers-push_default no_default pending = omega arith
  pending_layers-push_default (default_layer l) pending = omega arith

  pending_layers-collect_child_layers :
      (s : Settings) (d : DefaultRoute) (m : Routes) (pending : List Layer)
      → one (p s) + pending_layers (collect_child_layers (layer s d m) pending)
        ≡ layers (layer s d m) + pending_layers pending
  pending_layers-collect_child_layers s d m pending = omega (
    arith,
    pending_layers-push_routes m (push_default d pending),
    pending_layers-push_default d pending,
  )

abbrev every : Settings → Bool
every s = true

-- The number of layers of a tree.
abbrev pub size : Layer → ℕ
size = layers every

-- The loop came to its end, having destroyed each layer of the trees once.
abbrev Destroys : List Layer → Option (List Settings) → Type 0
Destroys pending none = ⊥
Destroys pending (some ds) = (p : Settings → Bool) → count p ds ≡ pending_layers p pending

Destroys-first :
    (s : Settings) (d : DefaultRoute) (m : Routes) (pending : List Layer)
    (o : Option (List Settings))
    → Destroys (collect_child_layers (layer s d m) pending) o
    → Destroys (layer s d m ∷ pending) (destroyed_first s o)
Destroys-first s d m pending none h = h
Destroys-first s d m pending (some ds) h =
    λ p. ap (λ n. one (p s) + n) (h p) ∙ pending_layers-collect_child_layers p s d m pending

destroy_loop-Destroys :
    (fuel : ℕ) (pending : List Layer)
    → pending_layers every pending ≤ fuel
    → Destroys pending (destroy_loop fuel pending)
unfolding destroy_loop
destroy_loop-Destroys zero [] h = λ p. refl
destroy_loop-Destroys (suc fuel) [] h = λ p. refl
destroy_loop-Destroys zero (layer s d m ∷ pending) h = absurd (omega arith)
destroy_loop-Destroys (suc fuel) (layer s d m ∷ pending) h =
    Destroys-first s d m pending (destroy_loop fuel (collect_child_layers (layer s d m) pending)) (
      destroy_loop-Destroys fuel (collect_child_layers (layer s d m) pending)
        (omega (arith, pending_layers-collect_child_layers every s d m pending)))

-- What was destroyed: of each kind of layer as many as the tree has.
abbrev pub IsTornDown : Layer → Option (List Settings) → Type 0
IsTornDown root none = ⊥
IsTornDown root (some ds) = (p : Settings → Bool) → count p ds ≡ layers p root

IsTornDown-Destroys :
    (root : Layer) (o : Option (List Settings)) → Destroys (root ∷ []) o → IsTornDown root o
IsTornDown-Destroys root none h = h
IsTornDown-Destroys root (some ds) h = λ p. omega (arith, h p)

-- Given at least as many rounds as the tree has layers, the loop of `DestroyLayerTreeIterative`
-- comes to its end, and has destroyed of each kind of layer as many as the tree has.
pub destroy_layer_tree_iterative-IsTornDown :
    (fuel : ℕ) (root : Layer)
    → size root ≤ fuel
    → IsTornDown root (destroy_layer_tree_iterative fuel root)
unfolding destroy_layer_tree_iterative
destroy_layer_tree_iterative-IsTornDown fuel root h =
    IsTornDown-Destroys root (destroy_loop fuel (root ∷ []))
      (destroy_loop-Destroys fuel (root ∷ []) (omega arith))
