-- ===== src/Route/Match/Nameless.antt =====
-- What a parameter word without a name does to the values of the names after it.
use bsrvcore.Base.{
  ℕ, zero, suc, ◌<◌, ◌≤◌, Bytes, bytes_eq, bytes_eq_of_ne, bytes_eq_refl, get_elem?, get_elem?-lt,
  length, length-append, if◌then◌else◌, List, [], ◌∷◌, ◌++◌, true, false, Option, none, some, ◌≡◌,
  ◌≢◌, refl, sym, ap, ap₂, ◌∙◌, subst, arith, Bool, Bool-cases, inl, inr, All,
}
use bsrvcore.Route.Segments.{
  is_parameter_segment, extract_param_name, emplace, names_of, split_target_segments,
  extract_param_names,
}
use bsrvcore.Route.Validator.{Regex, is_valid_parametric_target}
use bsrvcore.Route.Layer.{Handler, Layer}
use bsrvcore.Route.Registry.{RouteTable, method_count, add_route_entry}
use bsrvcore.Route.Match.{has_param, emplace_param, fill_params, route_internal}
use bsrvcore.Route.Match.Walk.{nonempty, Follows, captured}
use bsrvcore.Route.Match.Registered.{route_internal-add_route_entry}
use bsrvcore.Route.Match.Parameters.{SameLength, extract_param_name_plain, emplace_named}

-- The value of a name in a parameter map.
unfoldable pub find_param : Bytes → List (Bytes × Bytes) → Option Bytes
find_param name [] = none
find_param name ((k, v) ∷ ps) = if bytes_eq k name then some v else find_param name ps

find_param-append :
    (name value : Bytes) (ps qs : List (Bytes × Bytes))
    → find_param name ps ≡ some value
    → find_param name (ps ++ qs) ≡ some value
unfolding find_param
find_param-append name value [] qs h = cc
find_param-append name value ((k, v) ∷ ps) qs h = ground (arith, find_param-append name value ps qs)

find_param-emplace :
    (name value other v : Bytes) (ps : List (Bytes × Bytes))
    → find_param name ps ≡ some value
    → find_param name (emplace_param other v ps) ≡ some value
find_param-emplace name value other v ps h = elim (Bool-cases (has_param other ps)) [
  | inl e ↦ rw e h
  | inr e ↦ rw e (find_param-append name value ps ((other, v) ∷ []) h)
]

find_param-fill_params :
    (name value : Bytes) (ps : List (Bytes × Bytes)) (names values : List Bytes)
    → find_param name ps ≡ some value
    → find_param name (fill_params ps names values) ≡ some value
unfolding fill_params
find_param-fill_params name value ps [] values h = h
find_param-fill_params name value ps (n ∷ names) [] h = h
find_param-fill_params name value ps (n ∷ names) (v ∷ values) h =
    find_param-fill_params name value (emplace_param n v ps) names values
      (find_param-emplace name value n v ps h)

has_param_of_absent :
    (name : Bytes) (ps : List (Bytes × Bytes))
    → find_param name ps ≡ none
    → has_param name ps ≡ false
unfolding find_param has_param
has_param_of_absent name [] h = refl
has_param_of_absent name ((k, v) ∷ ps) h = ground (arith, has_param_of_absent name ps)

find_param-append-none :
    (name other value : Bytes) (ps : List (Bytes × Bytes))
    → find_param name ps ≡ none
    → find_param name (ps ++ (other, value) ∷ [])
      ≡ (if bytes_eq other name then some value else none)
unfolding find_param
find_param-append-none name other value [] h = refl
find_param-append-none name other value ((k, v) ∷ ps) h = elim (Bool-cases (bytes_eq k name)) [
  | inl e ↦ absurd (some_is_not (rw e at h))
  | inr e ↦ rw e (find_param-append-none name other value ps (rw e at h))
]
  where
    some_is_not : {v : Bytes} → ¬ (some v ≡ none)
    some_is_not x = cc

find_param-emplace_other :
    (name other value : Bytes) (ps : List (Bytes × Bytes))
    → other ≢ name
    → find_param name ps ≡ none
    → find_param name (emplace_param other value ps) ≡ none
find_param-emplace_other name other value ps n h = elim (Bool-cases (has_param other ps)) [
  | inl e ↦ rw e h
  | inr e ↦
      rw e (find_param-append-none name other value ps h ∙ rw (bytes_eq_of_ne other name n) refl)
]

-- A name gets the value that stands where the name stands.
find_param-fill_params_at :
    (name taken : Bytes) (ps : List (Bytes × Bytes)) (names later values : List Bytes)
    → find_param name ps ≡ none
    → All (λ other. other ≢ name) names
    → get_elem? values (length names) ≡ some taken
    → find_param name (fill_params ps (names ++ name ∷ later) values) ≡ some taken
unfolding fill_params
find_param-fill_params_at name taken ps names later [] h a g = cc
find_param-fill_params_at name taken ps [] later (v ∷ values) h a g =
    find_param-fill_params name taken (emplace_param name v ps) later values (
      rw (has_param_of_absent name ps h)
        (find_param-append-none name name v ps h ∙ rw (bytes_eq_refl name) g))
find_param-fill_params_at name taken ps (n ∷ names) later (v ∷ values) h a g =
    find_param-fill_params_at name taken (emplace_param n v ps) names later values
      (find_param-emplace_other name n v ps a.0 h) a.1 g

emplace-append :
    (name : Bytes) (xs ys : List Bytes) → emplace name xs ++ ys ≡ emplace name (xs ++ ys)
emplace-append [] xs ys = refl
emplace-append (c ∷ name) xs ys = refl

names_of-append : (xs ys : List Bytes) → names_of (xs ++ ys) ≡ names_of xs ++ names_of ys
names_of-append [] ys = refl
names_of-append (word ∷ xs) ys =
    ap (emplace (extract_param_name word)) (names_of-append xs ys)
    ∙ sym (emplace-append (extract_param_name word) (names_of xs) (names_of ys))

captured-append :
    (xs ys met segs : List Bytes)
    → SameLength xs met
    → captured (xs ++ ys) (met ++ segs) ≡ captured xs met ++ captured ys segs
captured-append [] ys [] segs e = refl
captured-append [] ys (m ∷ met) segs e = absurd (omega arith)
captured-append (x ∷ xs) ys [] segs e = absurd (omega arith)
captured-append (x ∷ xs) ys (m ∷ met) segs e = elim (Bool-cases (is_parameter_segment x)) [
  | inl p ↦ rw p (ap (◌∷◌ m) (captured-append xs ys met segs (omega arith)))
  | inr p ↦ rw p (captured-append xs ys met segs (omega arith))
]

length-emplace-le : (name : Bytes) (xs : List Bytes) → length (emplace name xs) ≤ suc (length xs)
length-emplace-le [] xs = omega arith
length-emplace-le (c ∷ name) xs = omega arith

length-names_of-le :
    (xs met : List Bytes) → SameLength xs met → length (names_of xs) ≤ length (captured xs met)
length-names_of-le [] met e = omega arith
length-names_of-le (x ∷ xs) [] e = absurd (omega arith)
length-names_of-le (x ∷ xs) (m ∷ met) e =
    let ih = length-names_of-le xs met (omega arith) in
    elim (Bool-cases (is_parameter_segment x)) [
      | inl p ↦ rw p (omega (arith, ih, length-emplace-le (extract_param_name x) (names_of xs)))
      | inr p ↦ rw (p, extract_param_name_plain x p) ih
    ]

-- A word is a parameter word without a name.
abbrev pub IsNameless : Bytes → Type 0
IsNameless word = (is_parameter_segment word ≡ true) × (extract_param_name word ≡ [])

length-names_of-lt :
    (xs ys met : List Bytes) (nameless : Bytes)
    → IsNameless nameless
    → SameLength (xs ++ nameless ∷ ys) met
    → length (names_of (xs ++ nameless ∷ ys)) < length (captured (xs ++ nameless ∷ ys) met)
length-names_of-lt xs ys [] nameless n e =
    absurd (omega (arith, e, length-append xs (nameless ∷ ys)))
length-names_of-lt [] ys (m ∷ met) nameless n e =
    rw (n.0, n.1) (omega (arith, length-names_of-le ys met (omega arith)))
length-names_of-lt (x ∷ xs) ys (m ∷ met) nameless n e =
    let ih = length-names_of-lt xs ys met nameless n (omega arith) in
    elim (Bool-cases (is_parameter_segment x)) [
      | inl p ↦ rw p (
          omega
            (arith, ih, length-emplace-le (extract_param_name x) (names_of (xs ++ nameless ∷ ys))))
      | inr p ↦ rw (p, extract_param_name_plain x p) ih
    ]

get_elem?-append :
    (xs ys : List Bytes) (i : ℕ) {x : Bytes}
    → get_elem? xs i ≡ some x
    → get_elem? (xs ++ ys) i ≡ some x
get_elem?-append [] ys i h = cc
get_elem?-append (y ∷ xs) ys zero h = h
get_elem?-append (y ∷ xs) ys (suc i) h = get_elem?-append xs ys i h

-- The name is given a segment that met one of the words `pre`: of their parameter words, the one
-- before which there are as many as `pre` has names.
pub record IsShifted (pre met : List Bytes) (name : Bytes) (parameters : List (Bytes × Bytes))
    : Type 0 where
  pub taken : Bytes
  pub met_before : get_elem? (captured pre met) (length (names_of pre)) ≡ some taken
  pub given : find_param name parameters ≡ some taken

IsShifted-fill_params :
    (front back post met rest : List Bytes) (nameless word own : Bytes)
    → IsNameless nameless
    → is_parameter_segment word ≡ true
    → extract_param_name word ≢ []
    → All (λ other. other ≢ extract_param_name word) (names_of (front ++ nameless ∷ back))
    → SameLength (front ++ nameless ∷ back) met
    → IsShifted (front ++ nameless ∷ back) met (extract_param_name word) (
        fill_params []
          (names_of ((front ++ nameless ∷ back) ++ word ∷ post))
          (captured ((front ++ nameless ∷ back) ++ word ∷ post) (met ++ own ∷ rest)))
unfolding find_param
IsShifted-fill_params front back post met rest nameless word own n p named other e =
    let pre = front ++ nameless ∷ back in
    let name = extract_param_name word in
    let (taken, at) =
      get_elem?-lt (captured pre met) (length (names_of pre))
        (length-names_of-lt front back met nameless n e) in
    let names : names_of (pre ++ word ∷ post) ≡ names_of pre ++ name ∷ names_of post =
      names_of-append pre (word ∷ post)
      ∙ ap (λ ns. names_of pre ++ ns) (emplace_named name (names_of post) named) in
    record {
      taken = taken;
      met_before = at;
      given =
          ap₂ (λ ns vs. find_param name (fill_params [] ns vs)) names
            (captured-append pre (word ∷ post) met (own ∷ rest) e)
          ∙ find_param-fill_params_at name taken [] (names_of pre) (names_of post)
              (captured pre met ++ captured (word ∷ post) (own ∷ rest)) refl other
              (get_elem?-append (captured pre met) (captured (word ∷ post) (own ∷ rest))
                (length (names_of pre)) at);
    }

module _ (regex_match : Regex → Bytes → Bool) (parse : Bytes → Option (List Bytes)) (method : ℕ)
    (target request : Bytes) (h : Handler) (t : RouteTable) (root : Layer)
    (segs front back post met rest : List Bytes) (nameless word own : Bytes) where
  -- Let a valid target have a parameter word without a name, such as "{}", somewhere before a
  -- parameter word with a name that no earlier word has, and be registered under one of the table's
  -- methods with a handler. A request of that method that follows the target gets under this name a
  -- segment that met an earlier parameter word of the target: the first of them if no earlier word
  -- has a name, the second if one has, and so on.
  pub nameless_word_shifts :
      method < method_count
      → is_valid_parametric_target regex_match target ≡ true
      → get_elem? t.entrance method ≡ some root
      → parse request ≡ some segs
      → Follows (split_target_segments target) (nonempty segs) root
      → split_target_segments target ≡ (front ++ nameless ∷ back) ++ word ∷ post
      → nonempty segs ≡ met ++ own ∷ rest
      → SameLength (front ++ nameless ∷ back) met
      → IsNameless nameless
      → is_parameter_segment word ≡ true
      → extract_param_name word ≢ []
      → All (λ other. other ≢ extract_param_name word) (names_of (front ++ nameless ∷ back))
      → IsShifted
          (front ++ nameless ∷ back)
          met
          (extract_param_name word)
          (route_internal parse method request
            (add_route_entry regex_match method target (some h) t).0).parameters
  unfolding extract_param_names
  nameless_word_shifts lt v e p follows words' segs' same n is_param named other =
      let pre = front ++ nameless ∷ back in
      let served =
        route_internal-add_route_entry regex_match parse method target request h t root segs lt v e
          p follows in
      let both : fill_params [] (names_of (split_target_segments target))
            (captured (split_target_segments target) (nonempty segs))
          ≡ fill_params [] (names_of (pre ++ word ∷ post))
              (captured (pre ++ word ∷ post) (met ++ own ∷ rest)) =
        ap₂ (λ ws ss. fill_params [] (names_of ws) (captured ws ss)) words' segs' in
      subst (IsShifted pre met (extract_param_name word)) (sym (served.parameterised ∙ both)) (
        IsShifted-fill_params front back post met rest nameless word own n is_param named other
          same)
