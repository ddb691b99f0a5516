-- ===== src/Route/Mount/Prefixed.antt =====
-- What `PrefixRouteTemplates` makes of the answers of a tree.
use bsrvcore.Base.{
  Bytes, bytes_eq, List, [], ◌∷◌, true, false, Option, none, some, ◌≡◌, ◌↔◌, refl, Bool-cases, inl,
  inr, sym, subst, ap, ◌∙◌,
}
use bsrvcore.Route.Segments.Laws.{before_query}
use bsrvcore.Route.Layer.{
  Handler, Settings, Layer, layer, no_default, default_layer, Routes, no_routes, route, settings_of,
  find_route, get_route, get_default_route,
}
use bsrvcore.Route.Mount.{
  join_route_template, has_terminal_configuration, prefix_template, prefix_route_templates,
  prefix_routes,
}
use bsrvcore.Route.Mount.Paths.{Edge, by_default, by_key, along, layer_at}
use bsrvcore.Route.Mount.Answers.{Has, Handles, Answers, handled_IsConfigured}
use bsrvcore.Route.Mount.Joining.{or_root, under, Spells, join_route_template-under}

abbrev prefixed : Bytes → Option Layer → Option Layer
prefixed prefix none = none
prefixed prefix (some l) = some (prefix_route_templates prefix l)

find_route-prefix_routes :
    (prefix key : Bytes) (m : Routes)
    → find_route key (prefix_routes prefix m) ≡ prefixed prefix (find_route key m)
unfolding find_route prefix_routes
find_route-prefix_routes prefix key no_routes = refl
find_route-prefix_routes prefix key (route k l rest) = elim (Bool-cases (bytes_eq k key)) [
  | inl e ↦ rw e refl
  | inr e ↦ rw e (find_route-prefix_routes prefix key rest)
]

along-prefix_route_templates :
    (prefix : Bytes) (e : Edge) (l : Layer)
    → along e (prefix_route_templates prefix l) ≡ prefixed prefix (along e l)
unfolding prefix_route_templates get_default_route get_route
along-prefix_route_templates prefix by_default (layer s no_default m) = refl
along-prefix_route_templates prefix by_default (layer s (default_layer l) m) = refl
along-prefix_route_templates prefix (by_key key) (layer s d m) =
    find_route-prefix_routes prefix key m

layer_at-prefixed :
    (prefix : Bytes) (es : List Edge) (o : Option Layer)
    → layer_at es (prefixed prefix o) ≡ prefixed prefix (layer_at es o)
layer_at-prefixed prefix [] o = refl
layer_at-prefixed prefix (e ∷ es) none = refl
layer_at-prefixed prefix (e ∷ es) (some l) =
    ap (layer_at es) (along-prefix_route_templates prefix e l)
    ∙ layer_at-prefixed prefix es (along e l)

-- The settings answer, with a template that the prefixing makes of their own.
abbrev HasPrefixed : Bytes → Settings → Handler → List Bytes → Bytes → Type 0
HasPrefixed prefix s h names template =
    (own : Bytes) × Has s h names own × (template ≡ join_route_template prefix own)

Has-prefix_template :
    (prefix : Bytes) (s : Settings) (h : Handler) (names : List Bytes) (template : Bytes)
    → Has (prefix_template prefix s) h names template ↔ HasPrefixed prefix s h names template
unfolding prefix_template
Has-prefix_template prefix s h names template = elim (Bool-cases (has_terminal_configuration s)) [
  | inl c ↦ rw c (
    λ x. (s.route_template, (x.0, x.1, refl), sym x.2),
    λ y. (y.1.0, y.1.1, ap (join_route_template prefix) y.1.2 ∙ sym y.2),
  )
  | inr c ↦ rw c (
    λ x. absurd (false_is_not (sym c ∙ handled_IsConfigured s x.0)),
    λ y. absurd (false_is_not (sym c ∙ handled_IsConfigured s y.1.0)),
  )
]
  where
    false_is_not : ¬ (false ≡ true)
    false_is_not x = cc

settings_of-prefix_route_templates :
    (prefix : Bytes) (l : Layer)
    → settings_of (prefix_route_templates prefix l) ≡ prefix_template prefix (settings_of l)
unfolding prefix_route_templates
settings_of-prefix_route_templates prefix (layer s d m) = refl

Handles-prefixed :
    (prefix : Bytes) (o : Option Layer) (h : Handler) (names : List Bytes) (template : Bytes)
    → Handles (prefixed prefix o) h names template
      ↔ ((own : Bytes) × Handles o h names own × (template ≡ join_route_template prefix own))
Handles-prefixed prefix none h names template = (λ x. absurd x, λ y. y.1)
Handles-prefixed prefix (some l) h names template =
    rw (settings_of-prefix_route_templates prefix l)
      (Has-prefix_template prefix (settings_of l) h names template)

-- A tree answers, below the segments of a prefix, with the handler and the parameter names of a
-- route of `src`, and with that route's template below the prefix.
abbrev pub AnswersUnder : List Bytes → List Edge → Layer → Handler → List Bytes → Bytes → Type 0
AnswersUnder ps es src h names template =
    (own : Bytes) × Answers es src h names own × (template ≡ under ps (or_root (before_query own)))

pub Answers-prefix_route_templates :
    (prefix : Bytes) (ps : List Bytes) (es : List Edge) (src : Layer) (h : Handler)
    (names : List Bytes) (template : Bytes)
    → Spells prefix ps
    → Answers es (prefix_route_templates prefix src) h names template
      ↔ AnswersUnder ps es src h names template
Answers-prefix_route_templates prefix ps es src h names template spelt =
    let same = layer_at-prefixed prefix es (some src) in
    let both = Handles-prefixed prefix (layer_at es (some src)) h names template in
    (
      λ x.
          let y = both.0 (subst (λ o. Handles o h names template) same x) in
          (y.0, y.1, y.2 ∙ join_route_template-under prefix y.0 ps spelt),
      λ y.
          subst (λ o. Handles o h names template) (sym same)
            (both.1 (y.0, y.1, y.2 ∙ sym (join_route_template-under prefix y.0 ps spelt))),
    )
