-- ===== src/Route/Mount/Joining.antt =====
-- `JoinRouteTemplate`, described on the segments of the prefix and the path of a template.
use bsrvcore.Base.{
  ℕ, Bool, Bytes, codes, bytes_eq, ◌&&◌, bytes_eq_of_ne, is_empty, length, ltb, if◌then◌else◌, List,
  [], ◌∷◌, ◌++◌, append-nil, true, false, ◌≡◌, ◌≢◌, refl, arith, All, Lacks, inl, inr, ◌⊎◌, sym, ap,
  ◌∙◌,
}
use bsrvcore.Route.Segments.{back_is, normalize_route_template, split_target_segments}
use bsrvcore.Route.Segments.Laws.{
  IsSegment, join, before_query, before_query_of_Lacks, strip_query_lem, Lacks-append_slash,
  split_target_segments-join, split_target_segments-join_slash,
}
use bsrvcore.Route.Mount.{pop_back, join_route_template}

-- A path, or the root's where there is none.
abbrev pub or_root : Bytes → Bytes
or_root [] = b'/' ∷ []
or_root (c ∷ s) = c ∷ s

-- The path of a template below the segments of a prefix.
abbrev pub under : List Bytes → Bytes → Bytes
under [] path = path
under (p ∷ ps) path = if bytes_eq path (b'/' ∷ []) then join (p ∷ ps) else join (p ∷ ps) ++ path

-- A prefix is written as its segments are joined, with or without a '/' at the end.
pub record Spells (prefix : Bytes) (ps : List Bytes) : Type 0 where
  pub segments : All IsSegment ps
  pub plain : Lacks b'?' (join ps)
  pub text : (prefix ≡ join ps) ⊎ (prefix ≡ join ps ++ b'/' ∷ [])

pub split-Spells :
    {prefix : Bytes} {ps : List Bytes} → Spells prefix ps → split_target_segments prefix ≡ ps
split-Spells {ps} h = elim h.text [
  | inl e ↦ ap split_target_segments e ∙ split_target_segments-join ps h.segments h.plain
  | inr e ↦ ap split_target_segments e ∙ split_target_segments-join_slash ps h.segments h.plain
]

normalize_lem : (t : Bytes) → normalize_route_template t ≡ or_root (before_query t)
unfolding normalize_route_template
normalize_lem t = rw (strip_query_lem t) (cases (before_query t))
  where
    cases : (s : Bytes) → (if is_empty s then codes "/" else s) ≡ or_root s
    cases [] = refl
    cases (c ∷ s) = refl

back_is-append_one : (s : Bytes) → back_is b'/' (s ++ b'/' ∷ []) ≡ true
back_is-append_one [] = refl
back_is-append_one (c ∷ []) = refl
back_is-append_one (c ∷ d ∷ s) = back_is-append_one (d ∷ s)

pop_back-append_one : (s : Bytes) → pop_back (s ++ b'/' ∷ []) ≡ s
pop_back-append_one [] = refl
pop_back-append_one (c ∷ []) = refl
pop_back-append_one (c ∷ d ∷ s) = ap (◌∷◌ c) (pop_back-append_one (d ∷ s))

back_is-Lacks : (s : Bytes) → Lacks b'/' s → back_is b'/' s ≡ false
back_is-Lacks [] h = refl
back_is-Lacks (c ∷ []) h = ground arith
back_is-Lacks (c ∷ d ∷ s) h = back_is-Lacks (d ∷ s) h.1

back_is-append : (s t : Bytes) → t ≢ [] → back_is b'/' (s ++ t) ≡ back_is b'/' t
back_is-append [] t h = refl
back_is-append (c ∷ []) [] h = absurd (h refl)
back_is-append (c ∷ []) (d ∷ t) h = refl
back_is-append (c ∷ d ∷ s) t h = back_is-append (d ∷ s) t h

back_is-join :
    (p : Bytes) (ps : List Bytes) → All IsSegment (p ∷ ps) → back_is b'/' (join (p ∷ ps)) ≡ false
back_is-join [] ps h = absurd (h.0.0 refl)
back_is-join (c ∷ p) [] h =
    ap (λ s. back_is b'/' (b'/' ∷ s)) (append-nil (c ∷ p)) ∙ back_is-Lacks (c ∷ p) h.0.1
back_is-join (c ∷ p) (q ∷ ps) h =
    back_is-append (b'/' ∷ c ∷ p) (join (q ∷ ps)) (λ e. cc) ∙ back_is-join q ps h.1

join-ne_root : (p : Bytes) (ps : List Bytes) → p ≢ [] → bytes_eq (join (p ∷ ps)) (codes "/") ≡ false
join-ne_root [] ps h = absurd (h refl)
join-ne_root (c ∷ p) ps h = bytes_eq_of_ne (join ((c ∷ p) ∷ ps)) (codes "/") (λ e. cc)

-- The joining of a prefix and a path, both normalised: the prefix loses a '/' at its end first.
abbrev stem : Bytes → Bytes
stem given = if ltb 1 (length given) && back_is b'/' given then pop_back given else given

abbrev from_stem : Bytes → Bytes → Bytes
from_stem s path =
    if bytes_eq s (codes "/") then path else (if bytes_eq path (codes "/") then s else s ++ path)

abbrev joined : Bytes → Bytes → Bytes
joined given path = from_stem (stem given) path

stem-join :
    (p : Bytes) (ps : List Bytes) → All IsSegment (p ∷ ps) → stem (join (p ∷ ps)) ≡ join (p ∷ ps)
stem-join p ps h =
    let given = join (p ∷ ps) in
    let whole : (ltb 1 (length given) && back_is b'/' given) ≡ false =
      ground (arith, back_is-join p ps h) in
    rw whole refl

stem-append_slash : (c d : ℕ) (s : Bytes) → stem ((c ∷ d ∷ s) ++ b'/' ∷ []) ≡ c ∷ d ∷ s
stem-append_slash c d s =
    let given = (c ∷ d ∷ s) ++ b'/' ∷ [] in
    let cut : (ltb 1 (length given) && back_is b'/' given) ≡ true =
      ground (arith, back_is-append_one (c ∷ d ∷ s)) in
    ap (λ (b : Bool). if b then pop_back given else given) cut ∙ pop_back-append_one (c ∷ d ∷ s)

from_stem-join :
    (p path : Bytes) (ps : List Bytes)
    → p ≢ []
    → from_stem (join (p ∷ ps)) path ≡ under (p ∷ ps) path
from_stem-join p path ps h = rw (join-ne_root p ps h) refl

joined-join :
    (p path : Bytes) (ps : List Bytes)
    → All IsSegment (p ∷ ps)
    → joined (join (p ∷ ps)) path ≡ under (p ∷ ps) path
joined-join p path ps h =
    ap (λ s. from_stem s path) (stem-join p ps h) ∙ from_stem-join p path ps h.0.0

joined-join_slash :
    (p path : Bytes) (ps : List Bytes)
    → All IsSegment (p ∷ ps)
    → joined (join (p ∷ ps) ++ b'/' ∷ []) path ≡ under (p ∷ ps) path
joined-join_slash [] path ps h = absurd (h.0.0 refl)
joined-join_slash (c ∷ p) path ps h =
    ap (λ s. from_stem s path) (stem-append_slash b'/' c (p ++ join ps))
    ∙ from_stem-join (c ∷ p) path ps (λ e. cc)

joined-Spells :
    (given path : Bytes) (ps : List Bytes)
    → All IsSegment ps
    → (given ≡ join ps) ⊎ (given ≡ join ps ++ b'/' ∷ [])
    → joined (or_root given) path ≡ under ps path
unfolding bytes_eq
joined-Spells given path [] h text = elim text [
  | inl e ↦ ap (λ g. joined (or_root g) path) e
  | inr e ↦ ap (λ g. joined (or_root g) path) e
]
joined-Spells given path (p ∷ ps) h text = elim text [
  | inl e ↦ ap (λ g. joined (or_root g) path) e ∙ joined-join p path ps h
  | inr e ↦ ap (λ g. joined (or_root g) path) e ∙ joined-join_slash p path ps h
]

before_query-Spells :
    {prefix : Bytes} {ps : List Bytes} → Spells prefix ps → before_query prefix ≡ prefix
before_query-Spells {ps} h = elim h.text [
  | inl e ↦ ap before_query e ∙ before_query_of_Lacks (join ps) h.plain ∙ sym e
  | inr e ↦
      ap before_query e
      ∙ before_query_of_Lacks (join ps ++ b'/' ∷ []) (Lacks-append_slash (join ps) h.plain)
      ∙ sym e
]

-- The code's joining of a prefix and a template.
pub join_route_template-under :
    (prefix t : Bytes) (ps : List Bytes)
    → Spells prefix ps
    → join_route_template prefix t ≡ under ps (or_root (before_query t))
unfolding join_route_template
join_route_template-under prefix t ps h =
    rw (normalize_lem prefix, normalize_lem t, before_query-Spells h)
      (joined-Spells prefix (or_root (before_query t)) ps h.segments h.text)
