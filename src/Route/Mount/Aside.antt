-- ===== src/Route/Mount/Aside.antt =====
-- What a walk along the words of a prefix leaves as it was: the answers at the paths that do not
-- start with these words.
use bsrvcore.Base.{
  Bytes, bytes_eq_of_ne, List, [], ◌∷◌, Option, none, some, ◌≡◌, ◌≢◌, ◌↔◌, ◌⊎◌, refl, sym, ap,
  subst, ◌∙◌, All, Bool-cases, inl, inr,
}
use bsrvcore.Route.Segments.{is_parameter_segment}
use bsrvcore.Route.Segments.Laws.{IsSegment}
use bsrvcore.Route.Layer.{Handler, Layer, get_route, get_default_route}
use bsrvcore.Route.Layer.Laws.{
  get_route-set_route, get_route-set_default_route, get_default_route-set_route,
}
use bsrvcore.Route.Registry.{or_new, next_layer, attach_layer, at_segments}
use bsrvcore.Route.Registry.Walk.{settings_of-attach_layer}
use bsrvcore.Route.Mount.Paths.{
  Edge, by_default, by_key, along, edge_of, layer_at, layer_at-none, along-attach_layer,
}
use bsrvcore.Route.Mount.Answers.{Has, Handles, Answers}
use bsrvcore.Route.Mount.Walks.{next_layer-along, Handles-new_layer}

-- The path does not start with the edges of the words.
abbrev pub IsOutside : List Edge → List Bytes → Type 0
IsOutside es [] = ⊥
IsOutside [] (word ∷ words) = Unit {0}
IsOutside (e ∷ es) (word ∷ words) = (e ≢ edge_of word) ⊎ ((e ≡ edge_of word) × IsOutside es words)

-- The second tree answers at every path outside the words as the first one does.
abbrev pub KeepsOutside : List Bytes → Layer → Layer → Type 0
KeepsOutside words before after =
    (es : List Edge) (h : Handler) (names : List Bytes) (template : Bytes)
    → IsOutside es words
    → Answers es after h names template ↔ Answers es before h names template

pub KeepsOutside-refl : (words : List Bytes) (l : Layer) → KeepsOutside words l l
KeepsOutside-refl words l es h names template out = (λ x. x, λ x. x)

pub KeepsOutside-trans :
    (words : List Bytes) (a b c : Layer)
    → KeepsOutside words a b
    → KeepsOutside words b c
    → KeepsOutside words a c
KeepsOutside-trans words a b c p q es h names template out =
    let first = p es h names template out in
    let second = q es h names template out in (λ x. first.0 (second.0 x), λ x. second.1 (first.1 x))

get_route-attach_layer_ne :
    (word key : Bytes) (next l : Layer)
    → word ≢ []
    → by_key key ≢ edge_of word
    → get_route key (attach_layer word next l) ≡ get_route key l
unfolding attach_layer
get_route-attach_layer_ne word key next l g n = elim (Bool-cases (is_parameter_segment word)) [
  | inl p ↦ rw p (get_route-set_default_route key next l)
  | inr p ↦
      let n' : by_key key ≢ by_key word = rw p at n in
      rw
        (
          p,
          get_route-set_route word key next l g,
          bytes_eq_of_ne word key (λ e. n' (ap by_key (sym e))),
        )
        refl
]

get_default_route-attach_layer_ne :
    (word : Bytes) (next l : Layer)
    → by_default ≢ edge_of word
    → get_default_route (attach_layer word next l) ≡ get_default_route l
unfolding attach_layer
get_default_route-attach_layer_ne word next l n = elim (Bool-cases (is_parameter_segment word)) [
  | inl p ↦ absurd ((rw p at n) refl)
  | inr p ↦ rw p (get_default_route-set_route word next l)
]

along-attach_layer_ne :
    (e : Edge) (word : Bytes) (next l : Layer)
    → word ≢ []
    → e ≢ edge_of word
    → along e (attach_layer word next l) ≡ along e l
along-attach_layer_ne by_default word next l g n = get_default_route-attach_layer_ne word next l n
along-attach_layer_ne (by_key key) word next l g n = get_route-attach_layer_ne word key next l g n

-- A new layer in the place of none answers nothing either.
Handles-or_new :
    (es : List Edge) (o : Option Layer) (h : Handler) (names : List Bytes) (template : Bytes)
    → Handles (layer_at es (some (or_new o))) h names template
      ↔ Handles (layer_at es o) h names template
Handles-or_new es (some k) h names template = (λ x. x, λ x. x)
Handles-or_new es none h names template = (
  λ x. absurd (Handles-new_layer es h names template x),
  λ x. absurd (subst (λ o. Handles o h names template) (layer_at-none es) x),
)

pub at_segments-KeepsOutside :
    (words : List Bytes) (f : Layer → Layer) (l : Layer)
    → All IsSegment words
    → KeepsOutside words l (at_segments words f l)
unfolding at_segments
at_segments-KeepsOutside [] f l w es h names template out = absurd out
at_segments-KeepsOutside (word ∷ words) f l w [] h names template out =
    let next = at_segments words f (next_layer word l) in
    let same = settings_of-attach_layer word next l in
    (
      λ x. subst (λ s. Has s h names template) same x,
      λ x. subst (λ s. Has s h names template) (sym same) x,
    )
at_segments-KeepsOutside (word ∷ words) f l w (e ∷ es) h names template out =
    let next = at_segments words f (next_layer word l) in
    elim out [
      | inl other ↦
          let same = along-attach_layer_ne e word next l w.0.0 other in
          (
            λ x. subst (λ o. Handles (layer_at es o) h names template) same x,
            λ x. subst (λ o. Handles (layer_at es o) h names template) (sym same) x,
          )
      | inr (here, rest) ↦
          let ih =
            at_segments-KeepsOutside words f (next_layer word l) w.1 es h names template rest in
          let step : along e (attach_layer word next l) ≡ some next =
            ap (λ d. along d (attach_layer word next l)) here
            ∙ along-attach_layer word next l w.0.0 in
          let start : next_layer word l ≡ or_new (along e l) =
            next_layer-along word l ∙ ap (λ d. or_new (along d l)) (sym here) in
          let fresh = Handles-or_new es (along e l) h names template in
          (
            λ x. fresh.0 (
                subst (λ k. Answers es k h names template) start
                  (ih.0 (subst (λ o. Handles (layer_at es o) h names template) step x))),
            λ x.
                subst (λ o. Handles (layer_at es o) h names template) (sym step)
                  (ih.1 (subst (λ k. Answers es k h names template) (sym start) (fresh.1 x))),
          )
    ]
