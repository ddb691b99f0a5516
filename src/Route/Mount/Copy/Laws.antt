-- ===== src/Route/Mount/Copy/Laws.antt =====
-- A cloned tree beside its source.
use bsrvcore.Base.{
  ℕ, Bytes, bytes_eq, List, [], ◌∷◌, Option, none, some, some-injective, ◌≡◌, refl, subst,
  Bool-cases, Option-cases, inl, inr,
}
use bsrvcore.Route.Layer.{
  Handler, Aspect, Settings, Layer, layer, DefaultRoute, no_default, default_layer, Routes,
  no_routes, route, find_route, settings_of, get_route, get_default_route,
}
use bsrvcore.Route.Mount.Paths.{Edge, by_default, by_key, along, layer_at}
use bsrvcore.Route.Mount.Copy.{
  clone_own_handler, clone_aspects, clone_settings, clone_layer, clone_default, clone_routes,
}

module _ (clone_handler : Handler → Option (Option Handler))
    (clone_aspect : ℕ → Option Aspect) where
  -- There is a layer at both places, the second one's clone, or at neither.
  abbrev IsCloneOf : Option Layer → Option Layer → Type 0
  IsCloneOf none none = Unit {0}
  IsCloneOf none (some b) = ⊥
  IsCloneOf (some a) none = ⊥
  IsCloneOf (some a) (some b) = clone_layer clone_handler clone_aspect a ≡ some b

  -- The parts of a clone.
  record Parts (s : Settings) (d : DefaultRoute) (m : Routes) (b : Layer) : Type 0 where
    settings : Settings
    default_route : DefaultRoute
    map : Routes
    whole : layer settings default_route map ≡ b
    of_settings : clone_settings clone_handler clone_aspect s ≡ some settings
    of_default : clone_default clone_handler clone_aspect d ≡ some default_route
    of_map : clone_routes clone_handler clone_aspect m ≡ some map

  clone_layer-Parts :
      (s : Settings) (d : DefaultRoute) (m : Routes) (b : Layer)
      → clone_layer clone_handler clone_aspect (layer s d m) ≡ some b
      → Parts s d m b
  unfolding clone_layer
  clone_layer-Parts s d m b h = elim (Option-cases (clone_settings clone_handler clone_aspect s)) [
    | inl e ↦ cc
    | inr (s', e) ↦ elim (Option-cases (clone_default clone_handler clone_aspect d)) [
      | inl f ↦ absurd (cc (rw (e, f, clone_layer) at h))
      | inr (d', f) ↦ elim (Option-cases (clone_routes clone_handler clone_aspect m)) [
        | inl g ↦ absurd (cc (rw (e, f, g, clone_layer) at h))
        | inr (m', g) ↦ record {
          settings = s';
          default_route = d';
          map = m';
          whole = let h' : some (layer s' d' m') ≡ some b = rw (e, f, g, clone_layer) at h in cc;
          of_settings = e;
          of_default = f;
          of_map = g;
        }
      ]
    ]
  ]

  IsCloneOf-clone_routes :
      (key : Bytes) (m m' : Routes)
      → clone_routes clone_handler clone_aspect m ≡ some m'
      → IsCloneOf (find_route key m) (find_route key m')
  unfolding clone_routes find_route
  IsCloneOf-clone_routes key no_routes no_routes h = tt
  IsCloneOf-clone_routes key no_routes (route k l rest) h = cc
  IsCloneOf-clone_routes key (route k l rest) m' h =
      elim (Option-cases (clone_layer clone_handler clone_aspect l)) [
        | inl e ↦ absurd (cc (rw (e, clone_routes) at h))
        | inr (l', e) ↦ elim (Option-cases (clone_routes clone_handler clone_aspect rest)) [
          | inl f ↦ absurd (cc (rw (e, f, clone_routes) at h))
          | inr (rest', f) ↦
              let h' : some (route k l' rest') ≡ some m' = rw (e, f, clone_routes) at h in
              let whole : route k l' rest' ≡ m' = cc in
              subst (λ x. IsCloneOf (find_route key (route k l rest)) (find_route key x)) whole
                (elim (Bool-cases (bytes_eq k key)) [
                  | inl same ↦ rw same e
                  | inr other ↦ rw other (IsCloneOf-clone_routes key rest rest' f)
                ])
        ]
      ]

  IsCloneOf-clone_default :
      (d d' : DefaultRoute) (s s' : Settings) (m m' : Routes)
      → clone_default clone_handler clone_aspect d ≡ some d'
      → IsCloneOf (get_default_route (layer s d m)) (get_default_route (layer s' d' m'))
  unfolding clone_default get_default_route
  IsCloneOf-clone_default no_default no_default s s' m m' h = tt
  IsCloneOf-clone_default no_default (default_layer l) s s' m m' h = cc
  IsCloneOf-clone_default (default_layer l) d' s s' m m' h =
      elim (Option-cases (clone_layer clone_handler clone_aspect l)) [
        | inl e ↦ absurd (cc (rw (e, clone_default) at h))
        | inr (l', e) ↦
            let h' : some (default_layer l') ≡ some d' = rw (e, clone_default) at h in
            let whole : default_layer l' ≡ d' = cc in
            subst (λ x. IsCloneOf (some l) (get_default_route (layer s' x m'))) whole e
      ]

  IsCloneOf-along :
      (e : Edge) (a b : Layer)
      → clone_layer clone_handler clone_aspect a ≡ some b
      → IsCloneOf (along e a) (along e b)
  unfolding get_route
  IsCloneOf-along by_default (layer s d m) b h =
      let p = clone_layer-Parts s d m b h in
      subst (λ x. IsCloneOf (get_default_route (layer s d m)) (get_default_route x)) p.whole
        (IsCloneOf-clone_default d p.default_route s p.settings m p.map p.of_default)
  IsCloneOf-along (by_key key) (layer s d m) b h =
      let p = clone_layer-Parts s d m b h in
      subst (λ x. IsCloneOf (get_route key (layer s d m)) (get_route key x)) p.whole
        (IsCloneOf-clone_routes key m p.map p.of_map)

  IsCloneOf-layer_at :
      (es : List Edge) (a b : Option Layer)
      → IsCloneOf a b
      → IsCloneOf (layer_at es a) (layer_at es b)
  IsCloneOf-layer_at [] a b h = h
  IsCloneOf-layer_at (e ∷ es) none none h = tt
  IsCloneOf-layer_at (e ∷ es) none (some b) h = absurd h
  IsCloneOf-layer_at (e ∷ es) (some a) none h = absurd h
  IsCloneOf-layer_at (e ∷ es) (some a) (some b) h =
      IsCloneOf-layer_at es (along e a) (along e b) (IsCloneOf-along e a b h)

  -- No handler is cloned to none, and a handler to what its `Clone` gives.
  abbrev pub IsClonedHandler : Option Handler → Option Handler → Type 0
  IsClonedHandler none h' = h' ≡ none
  IsClonedHandler (some h) h' = clone_handler h ≡ some h'

  -- Aspects are cloned one by one, in their order, and none of them is null.
  abbrev pub AreClonedAspects : List Aspect → List Aspect → Type 0
  AreClonedAspects [] [] = Unit {0}
  AreClonedAspects [] (b ∷ bs) = ⊥
  AreClonedAspects (a ∷ as') [] = ⊥
  AreClonedAspects (none ∷ as') (b ∷ bs) = ⊥
  AreClonedAspects (some a ∷ as') (b ∷ bs) = (clone_aspect a ≡ some b) × AreClonedAspects as' bs

  -- The clone of a layer's own fields.
  pub record AreCloned (s s' : Settings) : Type 0 where
    pub handler : IsClonedHandler s.handler s'.handler
    pub aspects : AreClonedAspects s.aspects s'.aspects
    pub terminal_aspects : AreClonedAspects s.terminal_aspects s'.terminal_aspects
    pub param_names : s'.param_names ≡ s.param_names
    pub route_template : s'.route_template ≡ s.route_template
    pub max_body_size : s'.max_body_size ≡ s.max_body_size
    pub read_expiry : s'.read_expiry ≡ s.read_expiry
    pub write_expiry : s'.write_expiry ≡ s.write_expiry
    pub ignore_default_route : s'.ignore_default_route ≡ s.ignore_default_route

  clone_own_handler-IsCloned :
      (h h' : Option Handler)
      → clone_own_handler clone_handler clone_aspect h ≡ some h'
      → IsClonedHandler h h'
  unfolding clone_own_handler
  clone_own_handler-IsCloned none h' e = cc
  clone_own_handler-IsCloned (some h) h' e = e

  clone_aspects-AreCloned :
      (xs ys : List Aspect)
      → clone_aspects clone_handler clone_aspect xs ≡ some ys
      → AreClonedAspects xs ys
  unfolding clone_aspects
  clone_aspects-AreCloned [] [] e = tt
  clone_aspects-AreCloned [] (b ∷ bs) e = cc
  clone_aspects-AreCloned (none ∷ xs) ys e = cc
  clone_aspects-AreCloned (some a ∷ xs) ys e = elim (Option-cases (clone_aspect a)) [
    | inl n ↦ absurd (cc (rw (n, clone_aspects) at e))
    | inr (b, f) ↦ elim (Option-cases (clone_aspects clone_handler clone_aspect xs)) [
      | inl n ↦ absurd (cc (rw (f, n, clone_aspects) at e))
      | inr (bs, g) ↦
          let e' : some (b ∷ bs) ≡ some ys = rw (f, g, clone_aspects) at e in
          subst (λ zs. AreClonedAspects (some a ∷ xs) zs) (some-injective (b ∷ bs) ys e')
            (f, clone_aspects-AreCloned xs bs g)
    ]
  ]

  clone_settings-AreCloned :
      (s s' : Settings) → clone_settings clone_handler clone_aspect s ≡ some s' → AreCloned s s'
  unfolding clone_settings
  clone_settings-AreCloned s s' e = elim (Option-cases own) [
    | inl n ↦ absurd (cc (rw (n, clone_settings) at e))
    | inr (h, p) ↦ elim (Option-cases (many s.aspects)) [
      | inl n ↦ absurd (cc (rw (p, n, clone_settings) at e))
      | inr (xs, q) ↦ elim (Option-cases (many s.terminal_aspects)) [
        | inl n ↦ absurd (cc (rw (p, q, n, clone_settings) at e))
        | inr (ys, r) ↦
            let made = record s { handler = h; aspects = xs; terminal_aspects = ys } in
            let e' : some made ≡ some s' = rw (p, q, r, clone_settings) at e in
            subst (AreCloned s) (some-injective made s' e') (record {
              handler = clone_own_handler-IsCloned s.handler h p;
              aspects = clone_aspects-AreCloned s.aspects xs q;
              terminal_aspects = clone_aspects-AreCloned s.terminal_aspects ys r;
              param_names = refl;
              route_template = refl;
              max_body_size = refl;
              read_expiry = refl;
              write_expiry = refl;
              ignore_default_route = refl;
            })
      ]
    ]
  ]
    where
      own : Option (Option Handler)
      own = clone_own_handler clone_handler clone_aspect s.handler

      many : List Aspect → Option (List Aspect)
      many = clone_aspects clone_handler clone_aspect

  -- There is a layer at both places, with the second one's fields cloned from the first one's, or
  -- at neither.
  abbrev pub HoldsClone : Option Layer → Option Layer → Type 0
  HoldsClone none none = Unit {0}
  HoldsClone none (some b) = ⊥
  HoldsClone (some a) none = ⊥
  HoldsClone (some a) (some b) = AreCloned (settings_of a) (settings_of b)

  IsCloneOf-HoldsClone : (a b : Option Layer) → IsCloneOf a b → HoldsClone a b
  IsCloneOf-HoldsClone none none h = tt
  IsCloneOf-HoldsClone none (some b) h = absurd h
  IsCloneOf-HoldsClone (some a) none h = absurd h
  IsCloneOf-HoldsClone (some (layer s d m)) (some b) h =
      let p = clone_layer-Parts s d m b h in
      subst (λ x. AreCloned s (settings_of x)) p.whole
        (clone_settings-AreCloned s p.settings p.of_settings)

  -- Where `CloneLayer` succeeds, the clone has the paths of its source and no others. At the end of
  -- each path, its layer has the clones of the handler and of the aspects that the source's layer
  -- has there, in their order, and the same parameter names, template, limits and exclusiveness.
  pub layer_at-clone_layer :
      (es : List Edge) (a b : Layer)
      → clone_layer clone_handler clone_aspect a ≡ some b
      → HoldsClone (layer_at es (some a)) (layer_at es (some b))
  layer_at-clone_layer es a b h =
      IsCloneOf-HoldsClone (layer_at es (some a)) (layer_at es (some b))
        (IsCloneOf-layer_at es (some a) (some b) h)
