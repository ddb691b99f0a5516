-- ===== src/Route/Mount/Paths.antt =====
-- The routing tree seen from outside: the layer at the end of a path of edges. This view forgets
-- the order in which a map holds its keys.
use bsrvcore.Base.{
  Bytes, bytes_eq, if◌then◌else◌, List, [], ◌∷◌, ◌++◌, Option, none, some, ◌≡◌, ◌≢◌, refl, All,
  Bool-cases, inl, inr, sym, subst,
}
use bsrvcore.Route.Segments.{is_parameter_segment}
use bsrvcore.Route.Segments.Laws.{IsSegment}
use bsrvcore.Route.Layer.{
  Layer, layer, DefaultRoute, no_default, default_layer, Routes, no_routes, route, find_route,
  get_route, get_default_route,
}
use bsrvcore.Route.Registry.{next_layer, attach_layer, at_segments, target_layer}
use bsrvcore.Route.Registry.Walk.{get_route-attach_layer, get_default_route-attach_layer}

pub data Edge : Type 0 where
  by_default : Edge
  by_key : Bytes → Edge

abbrev pub along : Edge → Layer → Option Layer
along by_default l = get_default_route l
along (by_key key) l = get_route key l

abbrev pub edge_of : Bytes → Edge
edge_of word = if is_parameter_segment word then by_default else by_key word

abbrev pub edges_of : List Bytes → List Edge
edges_of [] = []
edges_of (word ∷ words) = edge_of word ∷ edges_of words

abbrev pub layer_at : List Edge → Option Layer → Option Layer
layer_at [] l = l
layer_at (e ∷ es) none = none
layer_at (e ∷ es) (some l) = layer_at es (along e l)

-- A map holds each key once, at every layer of the tree.
abbrev mutual
  pub IsWellFormed : Layer → Type 0
  IsWellFormed (layer s d m) = DefaultIsWellFormed d × RoutesAreWellFormed m

  pub DefaultIsWellFormed : DefaultRoute → Type 0
  DefaultIsWellFormed no_default = Unit {0}
  DefaultIsWellFormed (default_layer l) = IsWellFormed l

  pub RoutesAreWellFormed : Routes → Type 0
  RoutesAreWellFormed no_routes = Unit {0}
  RoutesAreWellFormed (route key l rest) =
      (find_route key rest ≡ none) × IsWellFormed l × RoutesAreWellFormed rest

pub find_route-IsWellFormed :
    (key : Bytes) (m : Routes) {l : Layer}
    → RoutesAreWellFormed m
    → find_route key m ≡ some l
    → IsWellFormed l
unfolding find_route
find_route-IsWellFormed key no_routes w e = cc
find_route-IsWellFormed key (route k l rest) {l = found} w e = elim (Bool-cases (bytes_eq k key)) [
  | inl same ↦
      let e' : some l ≡ some found = rw same at e in
      let here : l ≡ found = cc in subst IsWellFormed here w.1
  | inr other ↦ find_route-IsWellFormed key rest w.2 (rw other at e)
]

pub get_default_route-IsWellFormed :
    (l : Layer) {k : Layer} → IsWellFormed l → get_default_route l ≡ some k → IsWellFormed k
unfolding get_default_route
get_default_route-IsWellFormed (layer s no_default m) w e = cc
get_default_route-IsWellFormed (layer s (default_layer l) m) {k} w e =
    let here : l ≡ k = cc in subst IsWellFormed here w.0

pub get_route-IsWellFormed :
    (key : Bytes) (l : Layer) {k : Layer}
    → IsWellFormed l
    → get_route key l ≡ some k
    → IsWellFormed k
unfolding get_route
get_route-IsWellFormed key (layer s d m) w e = find_route-IsWellFormed key m w.1 e

pub along-attach_layer :
    (word : Bytes) (next l : Layer)
    → word ≢ []
    → along (edge_of word) (attach_layer word next l) ≡ some next
along-attach_layer word next l h = elim (Bool-cases (is_parameter_segment word)) [
  | inl p ↦ rw p (get_default_route-attach_layer word next l p)
  | inr p ↦ rw p (get_route-attach_layer word next l p h)
]

-- After a change at the end of the words, the changed layer stands there.
pub layer_at-at_segments :
    (words : List Bytes) (f : Layer → Layer) (l : Layer)
    → All IsSegment words
    → layer_at (edges_of words) (some (at_segments words f l)) ≡ some (f (target_layer words l))
unfolding at_segments
layer_at-at_segments [] f l w = refl
layer_at-at_segments (word ∷ words) f l w =
    rw (layer_at, along-attach_layer word (at_segments words f (next_layer word l)) l w.0.0)
      (layer_at-at_segments words f (next_layer word l) w.1)

pub layer_at-none : (es : List Edge) → layer_at es none ≡ none
layer_at-none [] = refl
layer_at-none (e ∷ es) = refl

pub layer_at-append :
    (es fs : List Edge) (l : Option Layer) → layer_at (es ++ fs) l ≡ layer_at fs (layer_at es l)
layer_at-append [] fs l = refl
layer_at-append (e ∷ es) fs none = sym (layer_at-none fs)
layer_at-append (e ∷ es) fs (some l) = layer_at-append es fs (along e l)
