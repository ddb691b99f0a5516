-- ===== src/Route/Mount/Refused.antt =====
-- What a mount that is refused leaves behind in the destination.
use bsrvcore.Base.{
  ℕ, Bytes, get_elem?, List, [], ◌∷◌, Bool, true, false, Option, none, some, ◌≡◌, ◌≢◌, refl, arith,
  Bool-cases, inl, inr, ap, ◌∙◌,
}
use bsrvcore.Route.Segments.{is_parameter_segment, split_target_segments}
use bsrvcore.Route.Validator.{Regex, is_valid_parametric_target}
use bsrvcore.Route.Layer.{Handler, Layer, new_layer, settings_of, get_route, get_default_route}
use bsrvcore.Route.Registry.{RouteTable, next_layer, attach_layer, at_segments, target_layer}
use bsrvcore.Route.Registry.Walk.{get_route-attach_layer}
use bsrvcore.Route.Match.{
  Matched, step_exact, step_default, start, match_loop, match_segments, matched_result,
  route_internal, build_default_route_result,
}
use bsrvcore.Route.Match.Walk.{match_loop-exact, match_loop-default}
use bsrvcore.Route.Mount.{
  can_merge_layer, prefix_all, prefix_route_templates, prepare_mount, mount_at,
}

-- Whether or not the first method's trees conflict, its mount layer has been created.
prepare_mount-head :
    (words : List Bytes) (root : Layer) (roots : List Layer) (source : Layer) (sources : List Layer)
    → get_elem? (prepare_mount words (root ∷ roots) (source ∷ sources)).0 0
      ≡ some (at_segments words (λ l. l) root)
unfolding prepare_mount
prepare_mount-head words root roots source sources =
    elim (Bool-cases (can_merge_layer (target_layer words root) source)) [
      | inl c ↦ ground (arith, c)
      | inr c ↦ ground (arith, c)
    ]

mount_at-false :
    (regex_match : Regex → Bytes → Bool) (prefix : Bytes) (source t : RouteTable)
    → is_valid_parametric_target regex_match prefix ≡ true
    → (mount_at regex_match prefix source t).1 ≡ false
    → (mount_at regex_match prefix source t).0 ≡ record t {
      entrance =
          (prepare_mount
            (split_target_segments prefix)
            t.entrance
            (prefix_all prefix source.entrance)).0;
    }
unfolding mount_at
mount_at-false regex_match prefix source t v refused = ground (arith, v)

route_internal-matched :
    (parse : Bytes → Option (List Bytes)) (method : ℕ) (request : Bytes) (t : RouteTable)
    (root : Layer) (segs : List Bytes) (m : Matched)
    → get_elem? t.entrance method ≡ some root
    → parse request ≡ some segs
    → match_segments root segs ≡ some m
    → route_internal parse method request t ≡ matched_result t method m
unfolding route_internal
route_internal-matched parse method request t root segs m a b c = rw (a, b, c, route_internal) refl

matched_result-handler :
    (t : RouteTable) (method : ℕ) (m : Matched) {h : Handler}
    → (settings_of m.layer).handler ≡ some h
    → (matched_result t method m).handler ≡ some h
unfolding matched_result
matched_result-handler t method m e = rw (e, matched_result) refl

matched_result-unhandled :
    (t : RouteTable) (method : ℕ) (m : Matched)
    → (settings_of m.layer).handler ≡ none
    → (matched_result t method m).handler ≡ t.default_handler
unfolding matched_result build_default_route_result
matched_result-unhandled t method m e = rw (e, matched_result) refl

match_segments-one :
    (root next : Layer) (word : Bytes)
    → word ≢ []
    → get_route word root ≡ some next
    → match_segments root (word ∷ []) ≡ some (step_exact word next (start root))
unfolding match_segments
match_segments-one root next [] h e = absurd (h refl)
match_segments-one root next (c ∷ word) h e =
    rw (match_loop-exact (start root) (c ∷ word) [] next h e) (unfold match_loop in refl)

match_segments-one_default :
    (root next : Layer) (word : Bytes)
    → word ≢ []
    → get_route word root ≡ none
    → (settings_of root).ignore_default_route ≡ false
    → get_default_route root ≡ some next
    → match_segments root (word ∷ []) ≡ some (step_default word next (start root))
unfolding match_segments
match_segments-one_default root next [] h e i d = absurd (h refl)
match_segments-one_default root next (c ∷ word) h e i d =
    rw (match_loop-default (start root) (c ∷ word) [] next h e i d) (unfold match_loop in refl)

next_layer-missing :
    (word : Bytes) (l : Layer)
    → is_parameter_segment word ≡ false
    → get_route word l ≡ none
    → next_layer word l ≡ new_layer
unfolding next_layer
next_layer-missing word l p e = rw (p, e) refl

module _ (regex_match : Regex → Bytes → Bool) (parse : Bytes → Option (List Bytes))
    (prefix request word : Bytes) (source t : RouteTable) (root d src : Layer)
    (roots sources : List Layer) (h : Handler) where
  -- Let a mount be under one literal word that the first method's root does not know, where that
  -- root is not exclusive and has a parameter route with a handler. When the mount is refused, for
  -- whatever method, requests of the first method for that word, which went to that handler before,
  -- get the default handler.
  pub refused_mount_shadows :
      is_valid_parametric_target regex_match prefix ≡ true
      → split_target_segments prefix ≡ word ∷ []
      → word ≢ []
      → is_parameter_segment word ≡ false
      → t.entrance ≡ root ∷ roots
      → source.entrance ≡ src ∷ sources
      → get_route word root ≡ none
      → (settings_of root).ignore_default_route ≡ false
      → get_default_route root ≡ some d
      → (settings_of d).handler ≡ some h
      → parse request ≡ some (word ∷ [])
      → (mount_at regex_match prefix source t).1 ≡ false
      → ((route_internal parse 0 request t).handler ≡ some h)
        × ((route_internal parse 0 request (mount_at regex_match prefix source t).0).handler
            ≡ t.default_handler)
  refused_mount_shadows v words n literal roots_are sources_are missing inclusive default handled p
        refused =
      let left = mount_at-false regex_match prefix source t v refused in
      let created = attach_layer word new_layer root in
      let root' : get_elem?
            (prepare_mount (split_target_segments prefix) t.entrance
              (prefix_all prefix source.entrance)).0
            0
          ≡ some created =
        rw (words, roots_are, sources_are)
          (prepare_mount-head (word ∷ []) root roots (prefix_route_templates prefix src)
              (prefix_all prefix sources)
            ∙ ap some (
                unfold at_segments in
                ap (λ l. attach_layer word l root)
                  (next_layer-missing word root literal missing))) in
      let t' = (mount_at regex_match prefix source t).0 in
      let at_root' : get_elem? t'.entrance 0 ≡ some created =
        ap (λ (s : RouteTable). get_elem? s.entrance 0) left ∙ root' in
      let met =
        match_segments-one created new_layer word n
          (get_route-attach_layer word new_layer root literal n) in
      let before =
        route_internal-matched parse 0 request t root (word ∷ []) _
          (ap (λ ls. get_elem? ls 0) roots_are) p
          (match_segments-one_default root d word n missing inclusive default) in
      let after = route_internal-matched parse 0 request t' created (word ∷ []) _ at_root' p met in
      (
        ap (λ r. r.handler) before
            ∙ matched_result-handler t 0 (step_default word d (start root)) handled,
        ap (λ r. r.handler) after
            ∙ matched_result-unhandled t' 0 (step_exact word new_layer (start created)) refl
            ∙ ap (λ (s : RouteTable). s.default_handler) left,
      )
