-- ===== src/Route/Mount/Tables.antt =====
-- Mounting one table on another: what the mounted table answers under the prefix, and what a
-- refused mount leaves behind.
use bsrvcore.Base.{
  ℕ, zero, suc, Bytes, get_elem?, List, [], ◌∷◌, ◌++◌, Bool, true, false, some, ◌≡◌, ◌↔◌, refl,
  arith, Bool-cases, inl, inr, ◌⊎◌, sym, subst, ap, ap₂, ◌∙◌,
}
use bsrvcore.Route.Segments.{split_target_segments}
use bsrvcore.Route.Segments.Laws.{split_target_segments-IsSegment}
use bsrvcore.Route.Validator.{Regex}
use bsrvcore.Route.Layer.{Handler, Layer}
use bsrvcore.Route.Registry.{RouteTable, at_segments, target_layer}
use bsrvcore.Route.Mount.{
  can_merge_layer, move_merge_layer, prefix_route_templates, prefix_all, prepare_mount, merge_mount,
  mount_at,
}
use bsrvcore.Route.Mount.Paths.{
  Edge, edges_of, layer_at, layer_at-append, layer_at-at_segments, IsWellFormed,
}
use bsrvcore.Route.Mount.Answers.{Handles, Answers, Answers-move_merge_layer}
use bsrvcore.Route.Mount.Joining.{Spells, split-Spells}
use bsrvcore.Route.Mount.Prefixed.{AnswersUnder, Answers-prefix_route_templates}
use bsrvcore.Route.Mount.Walks.{target_layer-at_segments, Answers-target_layer, prefix_IsWellFormed}

module _ (words : List Bytes) (root : Layer) (roots : List Layer) (source : Layer)
    (sources : List Layer) where
  prepare_mount-mergeable :
      can_merge_layer (target_layer words root) source ≡ true
      → prepare_mount words (root ∷ roots) (source ∷ sources) ≡ (
        at_segments words (λ l. l) root ∷ (prepare_mount words roots sources).0,
        (prepare_mount words roots sources).1,
      )
  unfolding prepare_mount
  prepare_mount-mergeable c = rw (c, prepare_mount) refl

  prepare_mount-conflict :
      can_merge_layer (target_layer words root) source ≡ false
      → prepare_mount words (root ∷ roots) (source ∷ sources)
        ≡ (at_segments words (λ l. l) root ∷ roots, false)
  unfolding prepare_mount
  prepare_mount-conflict c = rw (c, prepare_mount) refl

  prepare_mount-true_head :
      (prepare_mount words (root ∷ roots) (source ∷ sources)).1 ≡ true
      → can_merge_layer (target_layer words root) source ≡ true
  prepare_mount-true_head ok =
      elim (Bool-cases (can_merge_layer (target_layer words root) source)) [
        | inl c ↦ c
        | inr c ↦ absurd (false_is_not (sym (ap (λ r. r.1) (prepare_mount-conflict c)) ∙ ok))
      ]
    where
      false_is_not : ¬ (false ≡ true)
      false_is_not x = cc

-- The first pass, where it finds no conflict, has walked every method's tree.
prepare_mount-true :
    (words : List Bytes) (roots sources : List Layer) (i : ℕ) (root source : Layer)
    → (prepare_mount words roots sources).1 ≡ true
    → get_elem? roots i ≡ some root
    → get_elem? sources i ≡ some source
    → (get_elem? (prepare_mount words roots sources).0 i ≡ some (at_segments words (λ l. l) root))
      × (can_merge_layer (target_layer words root) source ≡ true)
prepare_mount-true words [] sources i root source ok p q = cc
prepare_mount-true words (r ∷ roots) [] i root source ok p q = cc
prepare_mount-true words (r ∷ roots) (s ∷ sources) zero root source ok p q =
    let c = prepare_mount-true_head words r roots s sources ok in
    let same_root : r ≡ root = cc in
    let same_source : s ≡ source = cc in
    (
      ap (λ x. get_elem? x.0 0) (prepare_mount-mergeable words r roots s sources c)
          ∙ ap (λ x. some (at_segments words (λ l. l) x)) same_root,
      subst (λ x. can_merge_layer (target_layer words x) source ≡ true) same_root
          (subst (λ x. can_merge_layer (target_layer words r) x ≡ true) same_source c),
    )
prepare_mount-true words (r ∷ roots) (s ∷ sources) (suc i) root source ok p q =
    let e =
      prepare_mount-mergeable words r roots s sources
        (prepare_mount-true_head words r roots s sources ok) in
    let ih =
      prepare_mount-true words roots sources i root source (sym (ap (λ x. x.1) e) ∙ ok) p q in
    (ap (λ x. get_elem? x.0 (suc i)) e ∙ ih.0, ih.1)

get_elem?-merge_mount :
    (words : List Bytes) (roots sources : List Layer) (i : ℕ) (root source : Layer)
    → get_elem? roots i ≡ some root
    → get_elem? sources i ≡ some source
    → get_elem? (merge_mount words roots sources) i
      ≡ some (at_segments words (λ l. move_merge_layer l source) root)
unfolding merge_mount
get_elem?-merge_mount words [] sources i root source p q = cc
get_elem?-merge_mount words (r ∷ roots) [] i root source p q = cc
get_elem?-merge_mount words (r ∷ roots) (s ∷ sources) zero root source p q =
    let same_root : r ≡ root = cc in
    let same_source : s ≡ source = cc in
    ap₂ (λ x y. some (at_segments words (λ l. move_merge_layer l y) x)) same_root same_source
get_elem?-merge_mount words (r ∷ roots) (s ∷ sources) (suc i) root source p q =
    get_elem?-merge_mount words roots sources i root source p q

get_elem?-prefix_all :
    (prefix : Bytes) (ls : List Layer) (i : ℕ) {l : Layer}
    → get_elem? ls i ≡ some l
    → get_elem? (prefix_all prefix ls) i ≡ some (prefix_route_templates prefix l)
get_elem?-prefix_all prefix [] i e = cc
get_elem?-prefix_all prefix (k ∷ ls) zero {l} e =
    let same : k ≡ l = cc in ap (λ x. some (prefix_route_templates prefix x)) same
get_elem?-prefix_all prefix (k ∷ ls) (suc i) e = get_elem?-prefix_all prefix ls i e

module _ (regex_match : Regex → Bytes → Bool) (prefix : Bytes) (source t : RouteTable) where
  -- The mount succeeded: the first pass did, and the second pass ran on what the first one left.
  mount_at-true :
      (mount_at regex_match prefix source t).1 ≡ true
      → ((prepare_mount
            (split_target_segments prefix)
            t.entrance
            (prefix_all prefix source.entrance)).1
          ≡ true)
        × ((mount_at regex_match prefix source t).0.entrance
            ≡ merge_mount
                (split_target_segments prefix)
                (prepare_mount
                  (split_target_segments prefix)
                  t.entrance
                  (prefix_all prefix source.entrance)).0
                (prefix_all prefix source.entrance))
  unfolding mount_at
  mount_at-true ok = ground arith

  module _ (i : ℕ) (root src : Layer) (es : List Edge) (h : Handler) (names : List Bytes)
      (template : Bytes) where
    -- The mounted tree, by what the source's tree is once its templates are prefixed.
    Answers-mount_at_prefixed :
        (mount_at regex_match prefix source t).1 ≡ true
        → get_elem? t.entrance i ≡ some root
        → get_elem? source.entrance i ≡ some src
        → IsWellFormed src
        → (mounted : Layer) × (get_elem? (mount_at regex_match prefix source t).0.entrance i
            ≡ some mounted)
          × (Answers (edges_of (split_target_segments prefix) ++ es) mounted h names template ↔ (
              Answers (edges_of (split_target_segments prefix) ++ es) root h names template
              ⊎ Answers es (prefix_route_templates prefix src) h names template))
    Answers-mount_at_prefixed ok p q w =
        let words = split_target_segments prefix in
        let segments = split_target_segments-IsSegment prefix in
        let src' = prefix_route_templates prefix src in
        let f = λ (l : Layer). move_merge_layer l src' in
        let walked = at_segments words (λ l. l) root in
        let (passed, entrance) = mount_at-true ok in
        let q' = get_elem?-prefix_all prefix source.entrance i q in
        let (found, mergeable) =
          prepare_mount-true words t.entrance (prefix_all prefix source.entrance) i root src' passed
            p q' in
        let mounted = at_segments words f walked in
        let here : layer_at (edges_of words ++ es) (some mounted)
            ≡ layer_at es (some (move_merge_layer (target_layer words root) src')) =
          layer_at-append (edges_of words) es (some mounted)
          ∙ ap (layer_at es) (
              layer_at-at_segments words f walked segments
              ∙ ap (λ l. some (f l)) (target_layer-at_segments words (λ l. l) root segments)) in
        let merged =
          Answers-move_merge_layer es (target_layer words root) src' h names template
            (prefix_IsWellFormed src prefix w) mergeable in
        let at_root = Answers-target_layer words es root h names template in
        (
          mounted,
          ap (λ ls. get_elem? ls i) entrance
              ∙ get_elem?-merge_mount words _ (prefix_all prefix source.entrance) i walked src'
                  found q',
          (
            λ x. elim (merged.0 (subst (λ o. Handles o h names template) here x)) [
              | inl y ↦ inl (at_root.0 y)
              | inr y ↦ inr y
            ],
            λ x.
                subst (λ o. Handles o h names template) (sym here)
                  (merged.1 (elim x [ inl y ↦ inl (at_root.1 y) | inr y ↦ inr y ])),
          ),
        )

    -- After a mount that succeeded, under a prefix that is written as its segments are joined, with
    -- or without a '/' at the end, of a source whose maps hold no key twice, the tree of a method
    -- answers, at any path below the prefix, with the handlers that it had there, and with those of
    -- the source's tree of that method, under the same parameter names and with the prefix before
    -- the path of their template; and with no others.
    pub Answers-mount_at :
        (ps : List Bytes)
        → Spells prefix ps
        → (mount_at regex_match prefix source t).1 ≡ true
        → get_elem? t.entrance i ≡ some root
        → get_elem? source.entrance i ≡ some src
        → IsWellFormed src
        → (mounted : Layer) × (get_elem? (mount_at regex_match prefix source t).0.entrance i
            ≡ some mounted)
          × (Answers (edges_of ps ++ es) mounted h names template ↔ (
              Answers (edges_of ps ++ es) root h names template
              ⊎ AnswersUnder ps es src h names template))
    Answers-mount_at ps spelt ok p q w =
        let (mounted, found, both) = Answers-mount_at_prefixed ok p q w in
        let renamed = Answers-prefix_route_templates prefix ps es src h names template spelt in
        let here : Answers (edges_of (split_target_segments prefix) ++ es) mounted h names template
            ≡ Answers (edges_of ps ++ es) mounted h names template =
          ap (λ ws. Answers (edges_of ws ++ es) mounted h names template) (split-Spells spelt) in
        let there : Answers (edges_of (split_target_segments prefix) ++ es) root h names template
            ≡ Answers (edges_of ps ++ es) root h names template =
          ap (λ ws. Answers (edges_of ws ++ es) root h names template) (split-Spells spelt) in
        (
          mounted,
          found,
          (
            λ x. elim (both.0 (subst (λ A. A) (sym here) x)) [
              | inl y ↦ inl (subst (λ A. A) there y)
              | inr y ↦ inr (renamed.0 y)
            ],
            λ x.
                subst (λ A. A) here
                  (both.1 (elim x [
                    | inl y ↦ inl (subst (λ A. A) (sym there) y)
                    | inr y ↦ inr (renamed.1 y)
                  ])),
          ),
        )
