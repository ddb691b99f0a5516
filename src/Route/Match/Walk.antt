-- ===== src/Route/Match/Walk.antt =====
-- The loop of MatchSegments on a request that follows the words of a target.
use bsrvcore.Base.{
  Bytes, if◌then◌else◌, List, [], ◌∷◌, ◌++◌, append_assoc, append-nil, true, false, Option, none,
  some, ◌≡◌, ◌≢◌, refl, sym, ◌∙◌, Bool-cases, Option-cases, inl, inr, All,
}
use bsrvcore.Route.Segments.{is_parameter_segment, emplace}
use bsrvcore.Route.Segments.Laws.{IsSegment, join}
use bsrvcore.Route.Layer.{Layer, settings_of, get_route, get_default_route}
use bsrvcore.Route.Registry.{next_layer, target_layer, at_segments}
use bsrvcore.Route.Registry.Walk.{
  settings_of-attach_layer, get_route-attach_layer, get_route-attach_layer_parameter,
  get_default_route-attach_layer,
}
use bsrvcore.Route.Match.{Matched, step_exact, step_default, match_loop}

-- The segments that the loop of `MatchSegments` does not skip.
abbrev pub nonempty : List Bytes → List Bytes
nonempty [] = []
nonempty (seg ∷ segs) = emplace seg (nonempty segs)

pub match_loop-nonempty :
    (m : Matched) (segs : List Bytes) → match_loop m (nonempty segs) ≡ match_loop m segs
unfolding match_loop
match_loop-nonempty m [] = refl
match_loop-nonempty m ([] ∷ segs) = match_loop-nonempty m segs
match_loop-nonempty m ((c ∷ s) ∷ segs) = elim (Option-cases (get_route (c ∷ s) m.layer)) [
  | inr (next, e) ↦ rw (e, match_loop) (match_loop-nonempty (step_exact (c ∷ s) next m) segs)
  | inl e ↦ elim (Bool-cases (settings_of m.layer).ignore_default_route) [
    | inl i ↦ rw (e, i, match_loop) refl
    | inr i ↦ elim (Option-cases (get_default_route m.layer)) [
      | inl d ↦ rw (e, i, d, match_loop) refl
      | inr (next, d) ↦
          rw (e, i, d, match_loop) (match_loop-nonempty (step_default (c ∷ s) next m) segs)
    ]
  ]
]

-- The request segments `segs` follow the words of a target from the layer `l`: a literal word is
-- met by itself, and a parameter word by any segment that no exact edge takes, at a layer that is
-- not exclusive.
abbrev pub Follows : List Bytes → List Bytes → Layer → Type 0
Follows [] [] l = Unit {0}
Follows [] (seg ∷ segs) l = ⊥
Follows (word ∷ words) [] l = ⊥
Follows (word ∷ words) (seg ∷ segs) l =
    (if is_parameter_segment word
      then (seg ≢ []) × (get_route seg l ≡ none) × ((settings_of l).ignore_default_route ≡ false)
      else seg ≡ word)
    × Follows words segs (next_layer word l)

-- The segments that meet parameter words.
abbrev pub captured : List Bytes → List Bytes → List Bytes
captured [] segs = []
captured (word ∷ words) [] = []
captured (word ∷ words) (seg ∷ segs) =
    if is_parameter_segment word then seg ∷ captured words segs else captured words segs

-- What the matching adds to its state.
pub record Arrives (m : Matched) (words segs : List Bytes) (goal : Layer) (r : Option Matched)
    : Type 0 where
  pub final : Matched
  pub found : r ≡ some final
  pub at_goal : final.layer ≡ goal
  pub located : final.location ≡ m.location ++ join segs
  pub captures : final.values ≡ m.values ++ captured words segs

pub match_loop-exact :
    (m : Matched) (seg : Bytes) (segs : List Bytes) (next : Layer)
    → seg ≢ []
    → get_route seg m.layer ≡ some next
    → match_loop m (seg ∷ segs) ≡ match_loop (step_exact seg next m) segs
unfolding match_loop
match_loop-exact m [] segs next h e = absurd (h refl)
match_loop-exact m (c ∷ s) segs next h e = rw (e, match_loop) refl

pub match_loop-default :
    (m : Matched) (seg : Bytes) (segs : List Bytes) (next : Layer)
    → seg ≢ []
    → get_route seg m.layer ≡ none
    → (settings_of m.layer).ignore_default_route ≡ false
    → get_default_route m.layer ≡ some next
    → match_loop m (seg ∷ segs) ≡ match_loop (step_default seg next m) segs
unfolding match_loop
match_loop-default m [] segs next h e i d = absurd (h refl)
match_loop-default m (c ∷ s) segs next h e i d = rw (e, i, d, match_loop) refl

module _ (m : Matched) (word : Bytes) (words : List Bytes) (seg : Bytes) (segs : List Bytes)
    (goal : Layer) (next : Layer) where
  Arrives-exact :
      seg ≢ []
      → is_parameter_segment word ≡ false
      → get_route seg m.layer ≡ some next
      → Arrives (step_exact seg next m) words segs goal (match_loop (step_exact seg next m) segs)
      → Arrives m (word ∷ words) (seg ∷ segs) goal (match_loop m (seg ∷ segs))
  Arrives-exact h p e a = record {
    final = a.final;
    found = match_loop-exact m seg segs next h e ∙ a.found;
    at_goal = a.at_goal;
    located = a.located ∙ append_assoc m.location (b'/' ∷ seg) (join segs);
    captures = rw p a.captures;
  }

  Arrives-default :
      seg ≢ []
      → is_parameter_segment word ≡ true
      → get_route seg m.layer ≡ none
      → (settings_of m.layer).ignore_default_route ≡ false
      → get_default_route m.layer ≡ some next
      → Arrives
          (step_default seg next m)
          words
          segs
          goal
          (match_loop (step_default seg next m) segs)
      → Arrives m (word ∷ words) (seg ∷ segs) goal (match_loop m (seg ∷ segs))
  Arrives-default h p e i d a = record {
    final = a.final;
    found = match_loop-default m seg segs next h e i d ∙ a.found;
    at_goal = a.at_goal;
    located = a.located ∙ append_assoc m.location (b'/' ∷ seg) (join segs);
    captures = rw p (a.captures ∙ append_assoc m.values (seg ∷ []) (captured words segs));
  }

pub match_loop-Follows :
    (f : Layer → Layer) (words segs : List Bytes) (l : Layer) (m : Matched)
    → All IsSegment words
    → m.layer ≡ at_segments words f l
    → Follows words segs l
    → Arrives m words segs (f (target_layer words l)) (match_loop m segs)
unfolding at_segments
match_loop-Follows f [] [] l m w e h = record {
  final = m;
  found = unfold match_loop in refl;
  at_goal = e;
  located = sym (append-nil m.location);
  captures = sym (append-nil m.values);
}
match_loop-Follows f [] (seg ∷ segs) l m w e h = absurd h
match_loop-Follows f (word ∷ words) [] l m w e h = absurd h
match_loop-Follows f (word ∷ words) (seg ∷ segs) l m w e h =
    let next = at_segments words f (next_layer word l) in
    elim (Bool-cases (is_parameter_segment word)) [
      | inl p ↦
          let (given, free, open_here) = rw p at h.0 in
          Arrives-default m word words seg segs _ next given p
            (rw e (get_route-attach_layer_parameter word seg next l p ∙ free))
            (rw e (rw (settings_of-attach_layer word next l) open_here))
            (rw e (get_default_route-attach_layer word next l p))
            (match_loop-Follows f words segs (next_layer word l) (step_default seg next m) w.1 refl
              h.1)
      | inr p ↦
          let same : seg ≡ word = rw p at h.0 in
          Arrives-exact m word words seg segs _ next (λ n. w.0.0 (sym same ∙ n)) p
            (rw (e, same) (get_route-attach_layer word next l p w.0.0))
            (match_loop-Follows f words segs (next_layer word l) (step_exact seg next m) w.1 refl
              h.1)
    ]
