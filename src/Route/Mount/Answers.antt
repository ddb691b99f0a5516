-- ===== src/Route/Mount/Answers.antt =====
-- What a tree answers at the end of a path, before and after a merge.
use bsrvcore.Base.{
  Bytes, List, true, false, ◌&&◌, Option, none, some, ◌≡◌, ◌↔◌, refl, inl, inr, ◌⊎◌, sym, subst,
  ◌∙◌,
}
use bsrvcore.Route.Layer.{Handler, Settings, Layer, layer, settings_of}
use bsrvcore.Route.Mount.{
  has_terminal_configuration, merge_handler, merge_settings, move_merge_layer, can_merge_layer,
}
use bsrvcore.Route.Mount.Paths.{Edge, layer_at, IsWellFormed}
use bsrvcore.Route.Mount.Merge.{merge_option, layer_at-merge_option}
use bsrvcore.Route.Mount.Conflicts.{mergeable_at}

-- The settings have this handler, with these parameter names and this template.
abbrev pub Has : Settings → Handler → List Bytes → Bytes → Type 0
Has s h names template =
    (s.handler ≡ some h) × (s.param_names ≡ names) × (s.route_template ≡ template)

abbrev pub Handles : Option Layer → Handler → List Bytes → Bytes → Type 0
Handles none h names template = ⊥
Handles (some l) h names template = Has (settings_of l) h names template

abbrev pub Answers : List Edge → Layer → Handler → List Bytes → Bytes → Type 0
Answers es l h names template = Handles (layer_at es (some l)) h names template

none_is_not : {h : Handler} → ¬ (none ≡ some h)
none_is_not e = cc

true_is_not : ¬ (true ≡ false)
true_is_not e = cc

settings_of-move_merge_layer :
    (d s : Layer)
    → settings_of (move_merge_layer d s) ≡ merge_settings (settings_of d) (settings_of s)
unfolding move_merge_layer
settings_of-move_merge_layer d (layer s e m) = refl

pub handled_IsConfigured :
    (s : Settings) {h : Handler} → s.handler ≡ some h → has_terminal_configuration s ≡ true
handled_IsConfigured s e = rw e refl

-- The source's handler is there, or there is none and the destination's stays.
Has-merge_handler :
    (o : Option Handler) (d s : Settings) (h : Handler) (names : List Bytes) (template : Bytes)
    → s.handler ≡ o
    → (has_terminal_configuration s && has_terminal_configuration d) ≡ false
    → Has (merge_handler o d s) h names template ↔ (Has d h names template ⊎ Has s h names template)
Has-merge_handler none d s h names template e c =
    (λ x. inl x, λ y. elim y [ inl x ↦ x | inr x ↦ absurd (none_is_not (sym e ∙ x.0)) ])
Has-merge_handler (some k) d s h names template e c = (
  λ x. inr (e ∙ x.0, x.1, x.2),
  λ y. elim y [
    | inl x ↦ absurd (true_is_not (rw (handled_IsConfigured s e, handled_IsConfigured d x.0) at c))
    | inr x ↦ (sym e ∙ x.0, x.1, x.2)
  ],
)

Has-merge_settings :
    (d s : Settings) (h : Handler) (names : List Bytes) (template : Bytes)
    → (has_terminal_configuration s && has_terminal_configuration d) ≡ false
    → Has (merge_settings d s) h names template ↔ (Has d h names template ⊎ Has s h names template)
unfolding merge_settings
Has-merge_settings d s h names template c = Has-merge_handler s.handler d s h names template refl c

Handles-merge_option :
    (d s : Option Layer) (h : Handler) (names : List Bytes) (template : Bytes)
    → ((a b : Layer)
        → d ≡ some a
        → s ≡ some b
        → (has_terminal_configuration (settings_of b) && has_terminal_configuration (settings_of a))
          ≡ false)
    → Handles (merge_option d s) h names template
      ↔ (Handles d h names template ⊎ Handles s h names template)
Handles-merge_option none s h names template c =
    (λ x. inr x, λ y. elim y [ inl x ↦ absurd x | inr x ↦ x ])
Handles-merge_option (some d) none h names template c =
    (λ x. inl x, λ y. elim y [ inl x ↦ x | inr x ↦ absurd x ])
Handles-merge_option (some d) (some s) h names template c =
    rw (settings_of-move_merge_layer d s)
      (Has-merge_settings (settings_of d) (settings_of s) h names template (c d s refl refl))

-- A merge that `CanMergeLayer` allows, of a source whose maps hold no key twice, keeps every route
-- of both trees and makes up none: at the end of any path, the merged tree has a handler, with its
-- parameter names and its template, exactly when one of the two trees has it there.
pub Answers-move_merge_layer :
    (es : List Edge) (d s : Layer) (h : Handler) (names : List Bytes) (template : Bytes)
    → IsWellFormed s
    → can_merge_layer d s ≡ true
    → Answers es (move_merge_layer d s) h names template
      ↔ (Answers es d h names template ⊎ Answers es s h names template)
Answers-move_merge_layer es d s h names template w c =
    subst
      (λ o.
        Handles o h names template
        ↔ (Answers es d h names template ⊎ Answers es s h names template))
      (sym (layer_at-merge_option es (some d) (some s) w))
      (Handles-merge_option (layer_at es (some d)) (layer_at es (some s)) h names template
        (λ a b p q. mergeable_at es d s a b c p q))
