-- ===== src/Route/Mount/Merge.antt =====
-- Merging one routing tree into another, path by path.
use bsrvcore.Base.{
  Bytes, bytes_eq, eq_of_bytes_eq, List, [], ◌∷◌, Option, none, some, ◌≡◌, refl, Bool-cases,
  Option-cases, inl, inr, sym, ap, ap₂, ◌∙◌,
}
use bsrvcore.Route.Layer.{
  Layer, layer, no_default, default_layer, Routes, no_routes, route, find_route, put_route,
  get_route, get_default_route, routes_of,
}
use bsrvcore.Route.Layer.Laws.{find_route-put_route}
use bsrvcore.Route.Mount.{move_merge_layer, merge_routes}
use bsrvcore.Route.Mount.Paths.{
  Edge, by_default, by_key, along, layer_at, IsWellFormed, RoutesAreWellFormed,
  get_default_route-IsWellFormed, get_route-IsWellFormed,
}

abbrev pub merge_option : Option Layer → Option Layer → Option Layer
merge_option none src = src
merge_option (some d) none = some d
merge_option (some d) (some s) = some (move_merge_layer d s)

abbrev merged_child : Option Layer → Layer → Layer
merged_child d l = elim d [ none ↦ l | some k ↦ move_merge_layer k l ]

merge_option-child :
    (d : Option Layer) (l : Layer) → some (merged_child d l) ≡ merge_option d (some l)
merge_option-child none l = refl
merge_option-child (some k) l = refl

merge_option-none : (d : Option Layer) → merge_option d none ≡ d
merge_option-none none = refl
merge_option-none (some d) = refl

find_route-merge_routes :
    (key : Bytes) (dst m : Routes)
    → RoutesAreWellFormed m
    → find_route key (merge_routes dst m) ≡ merge_option (find_route key dst) (find_route key m)
unfolding merge_routes find_route
find_route-merge_routes key dst no_routes w = sym (merge_option-none (find_route key dst))
find_route-merge_routes key dst (route k l rest) w =
    let ih =
      find_route-merge_routes key (put_route k (merged_child (find_route k dst) l) dst) rest w.2 in
    let put = find_route-put_route k key (merged_child (find_route k dst) l) dst in
    elim (Bool-cases (bytes_eq k key)) [
      | inl e ↦
          let same : k ≡ key = eq_of_bytes_eq k key e in
          let gone : find_route key rest ≡ none = rw same at w.0 in
          rw e (
            ih
            ∙ ap₂ merge_option (rw e at put) gone
            ∙ merge_option-child (find_route k dst) l
            ∙ ap (λ x. merge_option (find_route x dst) (some l)) same)
      | inr e ↦ rw e (ih ∙ ap (λ x. merge_option x (find_route key rest)) (rw e at put))
    ]

get_route-move_merge_layer :
    (key : Bytes) (d s : Layer)
    → IsWellFormed s
    → get_route key (move_merge_layer d s) ≡ merge_option (get_route key d) (get_route key s)
unfolding get_route move_merge_layer
get_route-move_merge_layer key d (layer s e m) w = find_route-merge_routes key (routes_of d) m w.1

get_default_route-move_merge_layer :
    (d s : Layer)
    → get_default_route (move_merge_layer d s)
      ≡ merge_option (get_default_route d) (get_default_route s)
unfolding get_default_route move_merge_layer
get_default_route-move_merge_layer (layer t no_default n) (layer s no_default m) = refl
get_default_route-move_merge_layer (layer t (default_layer k) n) (layer s no_default m) = refl
get_default_route-move_merge_layer (layer t no_default n) (layer s (default_layer l) m) = refl
get_default_route-move_merge_layer (layer t (default_layer k) n) (layer s (default_layer l) m) =
    refl

along-move_merge_layer :
    (e : Edge) (d s : Layer)
    → IsWellFormed s
    → along e (move_merge_layer d s) ≡ merge_option (along e d) (along e s)
along-move_merge_layer by_default d s w = get_default_route-move_merge_layer d s
along-move_merge_layer (by_key key) d s w = get_route-move_merge_layer key d s w

along-IsWellFormed :
    (e : Edge) (l : Layer) {k : Layer} → IsWellFormed l → along e l ≡ some k → IsWellFormed k
along-IsWellFormed by_default l w e = get_default_route-IsWellFormed l w e
along-IsWellFormed (by_key key) l w e = get_route-IsWellFormed key l w e

abbrev pub IsWellFormedOption : Option Layer → Type 0
IsWellFormedOption none = Unit {0}
IsWellFormedOption (some l) = IsWellFormed l

along-IsWellFormedOption : (e : Edge) (l : Layer) → IsWellFormed l → IsWellFormedOption (along e l)
along-IsWellFormedOption e l w = elim (Option-cases (along e l)) [
  | inl p ↦ rw p tt
  | inr (k, p) ↦ rw p (along-IsWellFormed e l w p)
]

-- If the source's maps hold no key twice, the layer at the end of any path of a merged tree is the
-- merge of the layers there: neither tree loses or gains a path.
pub layer_at-merge_option :
    (es : List Edge) (d s : Option Layer)
    → IsWellFormedOption s
    → layer_at es (merge_option d s) ≡ merge_option (layer_at es d) (layer_at es s)
layer_at-merge_option [] d s w = refl
layer_at-merge_option (e ∷ es) none s w = refl
layer_at-merge_option (e ∷ es) (some d) none w =
    sym (merge_option-none (layer_at (e ∷ es) (some d)))
layer_at-merge_option (e ∷ es) (some d) (some s) w =
    rw (layer_at, along-move_merge_layer e d s w)
      (layer_at-merge_option es (along e d) (along e s) (along-IsWellFormedOption e s w))
