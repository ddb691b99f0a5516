-- ===== src/Route/Mount/Conflicts.antt =====
-- When two routing trees can be merged: exactly when they define behaviour at no common place.
use bsrvcore.Base.{
  Bytes, bytes_eq, bytes_eq_refl, eq_of_bytes_eq, List, [], ◌∷◌, Bool, true, false, ◌&&◌, not, none,
  some, ◌≡◌, ◌↔◌, refl, arith, Bool-cases, Option-cases, inl, inr, ◌⊎◌, subst,
}
use bsrvcore.Route.Layer.{
  Settings, Layer, layer, DefaultRoute, no_default, default_layer, Routes, no_routes, route,
  find_route, get_route, get_default_route, settings_of, routes_of, default_of,
}
use bsrvcore.Route.Mount.{
  has_terminal_configuration, can_merge_layer, can_merge_default, can_merge_routes,
}
use bsrvcore.Route.Mount.Paths.{
  Edge, by_default, by_key, along, layer_at, IsWellFormed, DefaultIsWellFormed, RoutesAreWellFormed,
}

-- A place where both trees define behaviour.
pub record Conflict (dst src : Layer) : Type 0 where
  pub path : List Edge
  pub dst_layer : Layer
  pub src_layer : Layer
  pub at_dst : layer_at path (some dst) ≡ some dst_layer
  pub at_src : layer_at path (some src) ≡ some src_layer
  pub dst_configured : has_terminal_configuration (settings_of dst_layer) ≡ true
  pub src_configured : has_terminal_configuration (settings_of src_layer) ≡ true

can_merge_routes-find_route :
    (key : Bytes) (dst m : Routes) (k l : Layer)
    → can_merge_routes dst m ≡ true
    → find_route key dst ≡ some k
    → find_route key m ≡ some l
    → can_merge_layer k l ≡ true
unfolding can_merge_routes find_route
can_merge_routes-find_route key dst no_routes k l c p q = cc
can_merge_routes-find_route key dst (route key' l' rest) k l c p q =
    elim (Bool-cases (bytes_eq key' key)) [
      | inl e ↦
          let same : key' ≡ key = eq_of_bytes_eq key' key e in
          let there : find_route key' dst ≡ some k = rw same p in
          let q' : some l' ≡ some l = rw e at q in
          let here : l' ≡ l = cc in
          subst (λ x. can_merge_layer k x ≡ true) here (ground (arith, rw there at c))
      | inr e ↦ can_merge_routes-find_route key dst rest k l (ground arith) p (rw e at q)
    ]

can_merge_layer-along :
    (e : Edge) (d s k l : Layer)
    → can_merge_layer d s ≡ true
    → along e d ≡ some k
    → along e s ≡ some l
    → can_merge_layer k l ≡ true
unfolding can_merge_layer get_route get_default_route
can_merge_layer-along by_default (layer t no_default n) (layer s e m) k l c p q = cc
can_merge_layer-along by_default (layer t (default_layer k') n) (layer s no_default m) k l c p q =
    cc
can_merge_layer-along by_default (layer t (default_layer k') n) (layer s (default_layer l') m) k l c
      p q =
    let a : k' ≡ k = cc in
    let b : l' ≡ l = cc in
    subst (λ x. can_merge_layer x l ≡ true) a
      (subst (λ x. can_merge_layer k' x ≡ true) b (ground arith))
can_merge_layer-along (by_key key) d (layer s e m) k l c p q =
    can_merge_routes-find_route key (routes_of d) m k l (ground arith) p q

find_route_later :
    (key other : Bytes) (l k : Layer) (rest : Routes)
    → find_route key rest ≡ none
    → find_route other rest ≡ some k
    → find_route other (route key l rest) ≡ some k
unfolding find_route
find_route_later key other l k rest p q = elim (Bool-cases (bytes_eq key other)) [
  | inl e ↦
      let same : key ≡ other = eq_of_bytes_eq key other e in
      let gone : find_route other rest ≡ none = rw same at p in cc
  | inr e ↦ rw e q
]

and-true : (a b : Bool) → (a && b) ≡ true → (a ≡ true) × (b ≡ true)
and-true a b h = ground arith

third_fails : (a b c : Bool) → (not a && (b && c)) ≡ false → a ≡ false → b ≡ true → c ≡ false
third_fails a b c h p q = ground arith

head_or_rest : (a b : Bool) → (a && b) ≡ false → (a ≡ false) ⊎ (b ≡ false)
head_or_rest a b h = ground arith

Conflict-under :
    (e : Edge) {d s k l : Layer}
    → along e d ≡ some k
    → along e s ≡ some l
    → Conflict k l
    → Conflict d s
Conflict-under e p q r = record {
  path = e ∷ r.path;
  dst_layer = r.dst_layer;
  src_layer = r.src_layer;
  at_dst = rw (layer_at, p) r.at_dst;
  at_src = rw (layer_at, q) r.at_src;
  dst_configured = r.dst_configured;
  src_configured = r.src_configured;
}

-- `CanMergeLayer` answers no only where the trees do conflict, and finds the place.
mutual
  unfolding can_merge_layer find_route get_route get_default_route

  Conflict-layer : (s d : Layer) → IsWellFormed s → can_merge_layer d s ≡ false → Conflict d s
  Conflict-layer (layer s e m) d w c =
      let own = has_terminal_configuration s && has_terminal_configuration (settings_of d) in
      elim (Bool-cases own) [
        | inl b ↦
            let (at_s, at_d) = and-true _ _ b in
            record {
              path = [];
              dst_layer = d;
              src_layer = layer s e m;
              at_dst = refl;
              at_src = refl;
              dst_configured = at_d;
              src_configured = at_s;
            }
        | inr b ↦ elim (Bool-cases (can_merge_default (default_of d) e)) [
          | inl f ↦
              let (key, k, l, p, q, r) =
                Conflict-routes m (routes_of d) w.1 (third_fails own _ _ c b f) in
              Conflict-under (by_key key) p q r
          | inr f ↦ Conflict-default e d s m w.0 f
        ]
      ]

  Conflict-default :
      (e : DefaultRoute) (d : Layer) (s : Settings) (m : Routes)
      → DefaultIsWellFormed e
      → can_merge_default (default_of d) e ≡ false
      → Conflict d (layer s e m)
  Conflict-default no_default d s m w c = cc
  Conflict-default (default_layer l) (layer t no_default n) s m w c = cc
  Conflict-default (default_layer l) (layer t (default_layer k) n) s m w c =
      Conflict-under by_default refl refl (Conflict-layer l k w c)

  Conflict-routes :
      (m : Routes) (dst : Routes)
      → RoutesAreWellFormed m
      → can_merge_routes dst m ≡ false
      → (key : Bytes) × (k l : Layer) × (find_route key dst ≡ some k)
        × (find_route key m ≡ some l)
        × Conflict k l
  Conflict-routes no_routes dst w c = cc
  Conflict-routes (route key l rest) dst w c = elim (Option-cases (find_route key dst)) [
    | inl p ↦
        let (key', k, l', q, r, found) =
          Conflict-routes rest dst w.2 (rw (p, can_merge_routes) at c) in
        (key', k, l', q, find_route_later key key' l l' rest w.0 r, found)
    | inr (k, p) ↦ elim (Bool-cases (can_merge_layer k l)) [
      | inl f ↦
          let (key', k', l', q, r, found) =
            Conflict-routes rest dst w.2 (rw (p, f, can_merge_routes) at c) in
          (key', k', l', q, find_route_later key key' l l' rest w.0 r, found)
      | inr f ↦ (key, k, l, p, rw (find_route, bytes_eq_refl key) refl, Conflict-layer l k w.1 f)
    ]
  ]

first_holds : (a b : Bool) → (not a && b) ≡ true → a ≡ false
first_holds a b h = ground arith

true_not_false : ¬ (true ≡ false)
true_not_false h = cc

absurd_none {ℓ} : {P : Type ℓ} (es : List Edge) (a : Layer) → layer_at es none ≡ some a → P
absurd_none [] a p = cc
absurd_none (e ∷ es) a p = cc

pub mergeable_at :
    (es : List Edge) (d s a b : Layer)
    → can_merge_layer d s ≡ true
    → layer_at es (some d) ≡ some a
    → layer_at es (some s) ≡ some b
    → (has_terminal_configuration (settings_of b) && has_terminal_configuration (settings_of a))
      ≡ false
unfolding can_merge_layer
mergeable_at [] d (layer s e m) a b c p q =
    let same_d : d ≡ a = cc in
    let same_s : layer s e m ≡ b = cc in
    subst
      (λ x.
        (has_terminal_configuration (settings_of b) && has_terminal_configuration (settings_of x))
        ≡ false)
      same_d
      (subst
        (λ x.
          (has_terminal_configuration (settings_of x) && has_terminal_configuration (settings_of d))
          ≡ false)
        same_s
        (first_holds (has_terminal_configuration s && has_terminal_configuration (settings_of d)) _
          c))
mergeable_at (e ∷ es) d s a b c p q = elim (Option-cases (along e d)) [
  | inl x ↦ absurd_none es a (rw x at p)
  | inr (k, x) ↦ elim (Option-cases (along e s)) [
    | inl y ↦ absurd_none es b (rw y at q)
    | inr (l, y) ↦
        mergeable_at es k l a b (can_merge_layer-along e d s k l c x y) (rw x at p) (rw y at q)
  ]
]

-- `CanMergeLayer` refuses a source whose maps hold no key twice exactly when there is a path at the
-- end of which both trees have a terminal configuration.
pub can_merge_layer_iff :
    (d s : Layer) → IsWellFormed s → (can_merge_layer d s ≡ false) ↔ Conflict d s
can_merge_layer_iff d s w = (
  Conflict-layer s d w,
  λ r. elim (Bool-cases (can_merge_layer d s)) [
    | inl c ↦
        let no = mergeable_at r.path d s r.dst_layer r.src_layer c r.at_dst r.at_src in
        absurd (true_not_false (rw (r.src_configured, r.dst_configured) at no))
    | inr c ↦ c
  ],
)
