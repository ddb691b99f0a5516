-- ===== src/Route/Mount/Outside.antt =====
-- What a mount leaves as it was.
use bsrvcore.Base.{
  ℕ, zero, suc, Bytes, get_elem?, List, [], ◌∷◌, Bool, some, some-injective, ◌≡◌, ◌↔◌, refl, subst,
  All, Bool-cases, inl, inr,
}
use bsrvcore.Route.Segments.{split_target_segments}
use bsrvcore.Route.Segments.Laws.{IsSegment, split_target_segments-IsSegment}
use bsrvcore.Route.Validator.{Regex, is_valid_parametric_target}
use bsrvcore.Route.Layer.{Handler, Layer}
use bsrvcore.Route.Registry.{RouteTable, at_segments, target_layer}
use bsrvcore.Route.Mount.{
  can_merge_layer, move_merge_layer, prefix_all, prepare_mount, merge_mount, mount_at,
}
use bsrvcore.Route.Mount.Paths.{Edge}
use bsrvcore.Route.Mount.Answers.{Answers}
use bsrvcore.Route.Mount.Aside.{
  IsOutside, KeepsOutside, KeepsOutside-refl, KeepsOutside-trans, at_segments-KeepsOutside,
}

-- The tree at an index, which answers outside the words as `root` does.
record HasKept (words : List Bytes) (root : Layer) (i : ℕ) (roots : List Layer) : Type 0 where
  mounted : Layer
  found : get_elem? roots i ≡ some mounted
  kept : KeepsOutside words root mounted

HasKept-same :
    (words : List Bytes) (root : Layer) (i : ℕ) (roots : List Layer)
    → get_elem? roots i ≡ some root
    → HasKept words root i roots
HasKept-same words root i roots p = record {
  mounted = root;
  found = p;
  kept = KeepsOutside-refl words root;
}

HasKept-head :
    (words : List Bytes) (f : Layer → Layer) (r root : Layer) (roots : List Layer)
    → All IsSegment words
    → some r ≡ some root
    → HasKept words root 0 (at_segments words f r ∷ roots)
HasKept-head words f r root roots w p = record {
  mounted = at_segments words f r;
  found = refl;
  kept =
      subst (λ k. KeepsOutside words k (at_segments words f r)) (some-injective r root p)
        (at_segments-KeepsOutside words f r w);
}

HasKept-tail :
    (words : List Bytes) (root r : Layer) (i : ℕ) (roots : List Layer)
    → HasKept words root i roots
    → HasKept words root (suc i) (r ∷ roots)
HasKept-tail words root r i roots k = record { mounted = k.mounted; found = k.found; kept = k.kept }

prepare_mount-HasKept :
    (words : List Bytes) (roots sources : List Layer) (i : ℕ) (root : Layer)
    → All IsSegment words
    → get_elem? roots i ≡ some root
    → HasKept words root i (prepare_mount words roots sources).0
unfolding prepare_mount
prepare_mount-HasKept words [] sources i root w p = cc
prepare_mount-HasKept words (r ∷ roots) [] i root w p = HasKept-same words root i (r ∷ roots) p
prepare_mount-HasKept words (r ∷ roots) (s ∷ sources) zero root w p =
    elim (Bool-cases (can_merge_layer (target_layer words r) s)) [
      | inl c ↦ rw (c, prepare_mount) (HasKept-head words (λ l. l) r root _ w p)
      | inr c ↦ rw (c, prepare_mount) (HasKept-head words (λ l. l) r root _ w p)
    ]
prepare_mount-HasKept words (r ∷ roots) (s ∷ sources) (suc i) root w p =
    let later = prepare_mount-HasKept words roots sources i root w p in
    elim (Bool-cases (can_merge_layer (target_layer words r) s)) [
      | inl c ↦ rw (c, prepare_mount) (HasKept-tail words root _ i _ later)
      | inr c ↦
          rw (c, prepare_mount)
            (HasKept-tail words root _ i roots (HasKept-same words root i roots p))
    ]

merge_mount-HasKept :
    (words : List Bytes) (roots sources : List Layer) (i : ℕ) (root : Layer)
    → All IsSegment words
    → get_elem? roots i ≡ some root
    → HasKept words root i (merge_mount words roots sources)
unfolding merge_mount
merge_mount-HasKept words [] sources i root w p = cc
merge_mount-HasKept words (r ∷ roots) [] i root w p = HasKept-same words root i (r ∷ roots) p
merge_mount-HasKept words (r ∷ roots) (s ∷ sources) zero root w p =
    HasKept-head words (λ l. move_merge_layer l s) r root (merge_mount words roots sources) w p
merge_mount-HasKept words (r ∷ roots) (s ∷ sources) (suc i) root w p =
    HasKept-tail words root _ i _ (merge_mount-HasKept words roots sources i root w p)

module _ (regex_match : Regex → Bytes → Bool) (prefix : Bytes) (source t : RouteTable) (i : ℕ)
    (root : Layer) where
  mount_at-HasKept :
      get_elem? t.entrance i ≡ some root
      → HasKept
          (split_target_segments prefix)
          root
          i
          (mount_at regex_match prefix source t).0.entrance
  unfolding mount_at
  mount_at-HasKept p =
      let words = split_target_segments prefix in
      let w = split_target_segments-IsSegment prefix in
      let sources = prefix_all prefix source.entrance in
      let first = prepare_mount-HasKept words t.entrance sources i root w p in
      elim (Bool-cases (is_valid_parametric_target regex_match prefix)) [
        | inr v ↦ rw (v, mount_at) (HasKept-same words root i t.entrance p)
        | inl v ↦ elim (Bool-cases (prepare_mount words t.entrance sources).1) [
          | inr c ↦ rw (v, c, mount_at) first
          | inl c ↦
              let second =
                merge_mount-HasKept words (prepare_mount words t.entrance sources).0 sources i
                  first.mounted w first.found in
              rw (v, c, mount_at)
                (record {
                  mounted = second.mounted;
                  found = second.found;
                  kept =
                      KeepsOutside-trans words root first.mounted second.mounted first.kept
                        second.kept;
                })
        ]
      ]

  module _ (es : List Edge) (h : Handler) (names : List Bytes) (template : Bytes) where
    -- Whether a mount succeeds or is refused, for whatever reason, the tree of each method answers
    -- afterwards, at the end of any path that does not start with the prefix, with the handlers,
    -- parameter names and templates that it had there, and with no others.
    pub Answers-mount_at_outside :
        get_elem? t.entrance i ≡ some root
        → IsOutside es (split_target_segments prefix)
        → (mounted : Layer) × (get_elem? (mount_at regex_match prefix source t).0.entrance i
            ≡ some mounted)
          × (Answers es mounted h names template ↔ Answers es root h names template)
    Answers-mount_at_outside p out =
        let left = mount_at-HasKept p in
        (left.mounted, left.found, left.kept es h names template out)
