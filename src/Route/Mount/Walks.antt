-- ===== src/Route/Mount/Walks.antt =====
-- The layer that a mount starts from, and the renaming of templates, as steps on trees.
use bsrvcore.Base.{
  Bytes, List, [], ◌∷◌, ◌++◌, none, some, ◌≡◌, ◌≢◌, ◌↔◌, refl, All, Bool-cases, Option-cases, inl,
  inr, sym, subst, ap, ◌∙◌, bytes_eq,
}
use bsrvcore.Route.Segments.{is_parameter_segment}
use bsrvcore.Route.Segments.Laws.{IsSegment}
use bsrvcore.Route.Layer.{
  Handler, Layer, layer, DefaultRoute, no_default, default_layer, Routes, no_routes, route,
  new_layer, find_route, get_route, get_default_route,
}
use bsrvcore.Route.Registry.{or_new, next_layer, attach_layer, at_segments, target_layer}
use bsrvcore.Route.Mount.{prefix_route_templates, prefix_default, prefix_routes}
use bsrvcore.Route.Mount.Paths.{
  Edge, by_default, by_key, along, edge_of, edges_of, layer_at, layer_at-none, along-attach_layer,
  IsWellFormed, DefaultIsWellFormed, RoutesAreWellFormed,
}
use bsrvcore.Route.Mount.Answers.{Handles, Answers}

pub next_layer-along :
    (word : Bytes) (l : Layer) → next_layer word l ≡ or_new (along (edge_of word) l)
unfolding next_layer
next_layer-along word l = elim (Bool-cases (is_parameter_segment word)) [
  | inl p ↦ rw p refl
  | inr p ↦ rw p refl
]

next_layer-attach_layer :
    (word : Bytes) (next l : Layer) → word ≢ [] → next_layer word (attach_layer word next l) ≡ next
next_layer-attach_layer word next l h =
    next_layer-along word (attach_layer word next l) ∙ ap or_new (along-attach_layer word next l h)

-- A second walk along the same words ends where the first one left its change.
pub target_layer-at_segments :
    (words : List Bytes) (f : Layer → Layer) (l : Layer)
    → All IsSegment words
    → target_layer words (at_segments words f l) ≡ f (target_layer words l)
unfolding at_segments
target_layer-at_segments [] f l w = refl
target_layer-at_segments (word ∷ words) f l w =
    ap (target_layer words)
      (next_layer-attach_layer word (at_segments words f (next_layer word l)) l w.0.0)
    ∙ target_layer-at_segments words f (next_layer word l) w.1

along-new_layer : (e : Edge) → along e new_layer ≡ none
unfolding get_default_route get_route find_route
along-new_layer by_default = refl
along-new_layer (by_key key) = refl

pub target_layer-new_layer : (words : List Bytes) → target_layer words new_layer ≡ new_layer
target_layer-new_layer [] = refl
target_layer-new_layer (word ∷ words) =
    ap (target_layer words)
      (next_layer-along word new_layer ∙ ap or_new (along-new_layer (edge_of word)))
    ∙ target_layer-new_layer words

-- A layer that is new answers nothing, as if it were not there.
pub Handles-new_layer :
    (es : List Edge) (h : Handler) (names : List Bytes) (template : Bytes)
    → ¬ Answers es new_layer h names template
Handles-new_layer [] h names template x = cc
Handles-new_layer (e ∷ es) h names template x =
    let gone : layer_at es (along e new_layer) ≡ none =
      ap (layer_at es) (along-new_layer e) ∙ layer_at-none es in
    rw gone at x

pub Answers-target_layer :
    (words : List Bytes) (es : List Edge) (l : Layer) (h : Handler) (names : List Bytes)
    (template : Bytes)
    → Answers es (target_layer words l) h names template
      ↔ Answers (edges_of words ++ es) l h names template
Answers-target_layer [] es l h names template = (λ x. x, λ x. x)
Answers-target_layer (word ∷ words) es l h names template =
    elim (Option-cases (along (edge_of word) l)) [
      | inl e ↦
          let fresh : next_layer word l ≡ new_layer = next_layer-along word l ∙ ap or_new e in
          let gone : layer_at (edges_of words ++ es) (along (edge_of word) l) ≡ none =
            ap (layer_at (edges_of words ++ es)) e ∙ layer_at-none (edges_of words ++ es) in
          (
            λ x.
                let y : Answers es new_layer h names template =
                  subst (λ k. Answers es k h names template)
                    (ap (target_layer words) fresh ∙ target_layer-new_layer words) x in
                absurd (Handles-new_layer es h names template y),
            λ x. let y : ⊥ = subst (λ k. Handles k h names template) gone x in absurd y,
          )
      | inr (k, e) ↦
          let same : next_layer word l ≡ k = next_layer-along word l ∙ ap or_new e in
          let ih = Answers-target_layer words es k h names template in
          (
            λ x.
                subst (λ o. Handles (layer_at (edges_of words ++ es) o) h names template) (sym e)
                  (ih.0 (subst (λ j. Answers es (target_layer words j) h names template) same x)),
            λ x.
                subst (λ j. Answers es (target_layer words j) h names template) (sym same)
                  (ih.1 (
                    subst (λ o. Handles (layer_at (edges_of words ++ es) o) h names template) e x)),
          )
    ]

find_route-prefix_routes :
    (prefix key : Bytes) (m : Routes)
    → find_route key m ≡ none
    → find_route key (prefix_routes prefix m) ≡ none
unfolding find_route prefix_routes
find_route-prefix_routes prefix key no_routes e = refl
find_route-prefix_routes prefix key (route k l rest) e = elim (Bool-cases (bytes_eq k key)) [
  | inl b ↦ absurd (some_is_not (rw b at e))
  | inr b ↦ rw b (find_route-prefix_routes prefix key rest (rw b at e))
]
  where
    some_is_not : {k : Layer} → ¬ (some k ≡ none)
    some_is_not x = cc

mutual
  unfolding prefix_route_templates

  pub prefix_IsWellFormed :
      (l : Layer) (prefix : Bytes) → IsWellFormed l → IsWellFormed (prefix_route_templates prefix l)
  prefix_IsWellFormed (layer s d m) prefix w =
      (prefix_DefaultIsWellFormed d prefix w.0, prefix_RoutesAreWellFormed m prefix w.1)

  pub prefix_DefaultIsWellFormed :
      (d : DefaultRoute) (prefix : Bytes)
      → DefaultIsWellFormed d
      → DefaultIsWellFormed (prefix_default prefix d)
  prefix_DefaultIsWellFormed no_default prefix w = tt
  prefix_DefaultIsWellFormed (default_layer l) prefix w = prefix_IsWellFormed l prefix w

  pub prefix_RoutesAreWellFormed :
      (m : Routes) (prefix : Bytes)
      → RoutesAreWellFormed m
      → RoutesAreWellFormed (prefix_routes prefix m)
  prefix_RoutesAreWellFormed no_routes prefix w = tt
  prefix_RoutesAreWellFormed (route k l rest) prefix w = (
    find_route-prefix_routes prefix k rest w.0,
    prefix_IsWellFormed l prefix w.1,
    prefix_RoutesAreWellFormed rest prefix w.2,
  )
