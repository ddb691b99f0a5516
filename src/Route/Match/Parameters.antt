-- ===== src/Route/Match/Parameters.antt =====
-- Which value each parameter name of a target is given.
use bsrvcore.Base.{
  ℕ, suc, Bytes, bytes_eq_of_ne, get_elem?, ◌<◌, length, if◌then◌else◌, List, [], ◌∷◌, ◌++◌,
  append_assoc, append-nil, Bool, true, false, Option, some, ◌≡◌, ◌≢◌, refl, sym, ap, ◌∙◌, arith,
  Bool-cases, inl, inr, All,
}
use bsrvcore.Route.Segments.{
  is_parameter_segment, extract_param_name, emplace, names_of, split_target_segments,
  extract_param_names,
}
use bsrvcore.Route.Validator.{Regex, is_valid_parametric_target}
use bsrvcore.Route.Layer.{Handler, Layer}
use bsrvcore.Route.Registry.{RouteTable, method_count, add_route_entry}
use bsrvcore.Route.Match.{has_param, fill_params, route_internal}
use bsrvcore.Route.Match.Walk.{nonempty, Follows, captured}
use bsrvcore.Route.Match.Registered.{route_internal-add_route_entry}

abbrev pub pairs : List Bytes → List Bytes → List (Bytes × Bytes)
pairs [] values = []
pairs (name ∷ names) [] = []
pairs (name ∷ names) (value ∷ values) = (name, value) ∷ pairs names values

abbrev pub AreDistinct : List Bytes → Type 0
AreDistinct [] = Unit {0}
AreDistinct (name ∷ names) = All (λ other. name ≢ other) names × AreDistinct names

abbrev Unused : List (Bytes × Bytes) → Bytes → Type 0
Unused ps name = has_param name ps ≡ false

has_param-append :
    (name other value : Bytes) (ps : List (Bytes × Bytes))
    → Unused ps other
    → name ≢ other
    → Unused (ps ++ (name, value) ∷ []) other
unfolding has_param
has_param-append name other value [] h k = rw (bytes_eq_of_ne name other k) refl
has_param-append name other value ((n, v) ∷ ps) h k =
    ground (arith, has_param-append name other value ps)

Unused-append :
    (name value : Bytes) (ps : List (Bytes × Bytes)) (names : List Bytes)
    → All (Unused ps) names
    → All (λ other. name ≢ other) names
    → All (Unused (ps ++ (name, value) ∷ [])) names
Unused-append name value ps [] h k = tt
Unused-append name value ps (other ∷ names) h k =
    (has_param-append name other value ps h.0 k.0, Unused-append name value ps names h.1 k.1)

fill_params-pairs :
    (ps : List (Bytes × Bytes)) (names values : List Bytes)
    → AreDistinct names
    → All (Unused ps) names
    → fill_params ps names values ≡ ps ++ pairs names values
unfolding fill_params
fill_params-pairs ps [] values d u = sym (append-nil ps)
fill_params-pairs ps (name ∷ names) [] d u = sym (append-nil ps)
fill_params-pairs ps (name ∷ names) (value ∷ values) d u =
    rw
      (
        u.0,
        fill_params-pairs (ps ++ (name, value) ∷ []) names values d.1
            (Unused-append name value ps names u.1 d.0),
      )
      (append_assoc ps ((name, value) ∷ []) (pairs names values))

All-Unused-nil : (names : List Bytes) → All (Unused []) names
unfolding has_param
All-Unused-nil [] = tt
All-Unused-nil (name ∷ names) = (refl, All-Unused-nil names)

-- Each parameter word's own name, with the segment that met the word.
abbrev pub bindings : List Bytes → List Bytes → List (Bytes × Bytes)
bindings [] segs = []
bindings (word ∷ words) [] = []
bindings (word ∷ words) (seg ∷ segs) =
    if is_parameter_segment word
    then (extract_param_name word, seg) ∷ bindings words segs
    else bindings words segs

-- Every parameter word has a name between its braces.
abbrev pub AreNamed : List Bytes → Type 0
AreNamed = All (λ word. is_parameter_segment word ≡ true → extract_param_name word ≢ [])

abbrev pub SameLength : List Bytes → List Bytes → Type 0
SameLength words segs = length words ≡ length segs

pub Follows-SameLength :
    (words segs : List Bytes) (l : Layer) → Follows words segs l → SameLength words segs
Follows-SameLength [] [] l h = refl
Follows-SameLength [] (seg ∷ segs) l h = absurd h
Follows-SameLength (word ∷ words) [] l h = absurd h
Follows-SameLength (word ∷ words) (seg ∷ segs) l h = ap suc (Follows-SameLength words segs _ h.1)

pub extract_param_name_plain :
    (word : Bytes) → is_parameter_segment word ≡ false → extract_param_name word ≡ []
unfolding extract_param_name
extract_param_name_plain word p = rw p refl

pub emplace_named :
    (name : Bytes) (names : List Bytes) → name ≢ [] → emplace name names ≡ name ∷ names
emplace_named [] names h = absurd (h refl)
emplace_named (c ∷ name) names h = refl

pairs-bindings :
    (words segs : List Bytes)
    → SameLength words segs
    → AreNamed words
    → pairs (names_of words) (captured words segs) ≡ bindings words segs
pairs-bindings [] segs e h = refl
pairs-bindings (word ∷ words) [] e h = absurd (omega arith)
pairs-bindings (word ∷ words) (seg ∷ segs) e h = elim (Bool-cases (is_parameter_segment word)) [
  | inl p ↦
      rw (p, emplace_named (extract_param_name word) (names_of words) (h.0 p))
        (ap (◌∷◌ (extract_param_name word, seg)) (pairs-bindings words segs (omega arith) h.1))
  | inr p ↦ rw (p, extract_param_name_plain word p) (pairs-bindings words segs (omega arith) h.1)
]

-- A target is well named: its parameter words have names, and all different ones.
pub record IsWellNamed (target : Bytes) : Type 0 where
  pub named : AreNamed (split_target_segments target)
  pub distinct : AreDistinct (names_of (split_target_segments target))

module _ (regex_match : Regex → Bytes → Bool) (parse : Bytes → Option (List Bytes)) (method : ℕ)
    (target request : Bytes) (h : Handler) (t : RouteTable) (root : Layer) (segs : List Bytes) where
  -- Where the parameter words of a valid target, registered under one of the table's methods, all
  -- have names, and different ones, a request of that method that follows the target gets, for each
  -- parameter word, that word's name with the very segment that met the word, in path order and
  -- nothing else.
  pub parameters-add_route_entry :
      method < method_count
      → is_valid_parametric_target regex_match target ≡ true
      → get_elem? t.entrance method ≡ some root
      → parse request ≡ some segs
      → Follows (split_target_segments target) (nonempty segs) root
      → IsWellNamed target
      → (route_internal parse method request
          (add_route_entry regex_match method target (some h) t).0).parameters
        ≡ bindings (split_target_segments target) (nonempty segs)
  unfolding extract_param_names
  parameters-add_route_entry lt v e p follows n =
      let words = split_target_segments target in
      let served =
        route_internal-add_route_entry regex_match parse method target request h t root segs lt v e
          p follows in
      served.parameterised
      ∙ fill_params-pairs [] (names_of words) (captured words (nonempty segs)) n.distinct
          (All-Unused-nil (names_of words))
      ∙ pairs-bindings words (nonempty segs) (Follows-SameLength words (nonempty segs) root follows)
          n.named
