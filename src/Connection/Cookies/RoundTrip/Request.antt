-- ===== src/Connection/Cookies/RoundTrip/Request.antt =====
-- The Cookie header that a client joins is read by the server cookie by cookie.
use bsrvcore.Base.{
  ℕ, zero, suc, ◌≡◌, ◌≢◌, refl, sym, ◌∙◌, ap, subst, Bytes, codes, is_empty, bytes_eq,
  bytes_eq_refl, bytes_eq_of_ne, eq_of_bytes_eq, drop, get_elem?, ◌==◌, if◌then◌else◌, List, [],
  ◌∷◌, ◌++◌, append_assoc, append-nil, map, false, some, some-injective, arith, Bool-cases, inl,
  inr, All, Lacks,
}
use bsrvcore.Connection.Text.{trim_view}
use bsrvcore.Connection.Text.Laws.{
  trim_view-IsTrim, trim_view-blank, find-Lacks, take-length, drop-length,
}
use bsrvcore.Connection.Cookies.Server.{
  split_cookie_header, split_cookie_header_using_split, unquote_pair_value, parse_cookie_pair_view,
  set_pair, get_pair, cookie_pairs, generate_cookie_pairs, get_cookie,
}
use bsrvcore.Connection.Cookies.Jar.{Cookie}
use bsrvcore.Connection.Cookies.Jar.Header.{pair_text, joined}
use bsrvcore.Connection.Cookies.RoundTrip.Tokens.{IsClean, linked, append-given}
use bsrvcore.Connection.Cookies.RoundTrip.Parsing.{first-IsClean, filled}

-- A cookie whose name and value can stand in a header, neither of them empty.
pub record IsSendable (c : Cookie) : Type 0 where
  pub name_clean : IsClean c.name
  pub name_lacks : Lacks b'=' c.name
  pub value_clean : IsClean c.value

split-close :
    (cur s t : Bytes)
    → Lacks b';' s
    → split_cookie_header cur (s ++ b';' ∷ t) ≡ trim_view (cur ++ s) ∷ split_cookie_header [] t
unfolding split_cookie_header
split-close cur [] t h = ap (λ u. trim_view u ∷ split_cookie_header [] t) (sym (append-nil cur))
split-close cur (c ∷ s) t h =
    let no : (c == b';') ≡ false = ground (arith, h.0) in
    rw no (
      split-close (cur ++ c ∷ []) s t h.1
      ∙ ap (λ u. trim_view u ∷ split_cookie_header [] t) (append_assoc cur (c ∷ []) s))

split-last : (cur s : Bytes) → Lacks b';' s → split_cookie_header cur s ≡ trim_view (cur ++ s) ∷ []
unfolding split_cookie_header
split-last cur [] h = ap (λ u. trim_view u ∷ []) (sym (append-nil cur))
split-last cur (c ∷ s) h =
    let no : (c == b';') ≡ false = ground (arith, h.0) in
    rw no
      (split-last (cur ++ c ∷ []) s h.1 ∙ ap (λ u. trim_view u ∷ []) (append_assoc cur (c ∷ []) s))

split-linked :
    (f : Bytes) (ts : List Bytes)
    → Lacks b';' f
    → All IsClean ts
    → split_cookie_header [] (f ++ linked ts) ≡ trim_view f ∷ ts
split-linked f [] l a = ap (split_cookie_header []) (append-nil f) ∙ split-last [] f l
split-linked f (t ∷ ts) l a =
    split-close [] f (b' ' ∷ (t ++ linked ts)) l
    ∙ ap (◌∷◌ (trim_view f)) (
        split-linked (b' ' ∷ t) ts (λ e. omega (arith, e), a.0.lacks) a.1
        ∙ ap (λ u. u ∷ ts) (trim_view-blank b' ' t refl ∙ trim_view-IsTrim t a.0.trim))

pair-IsClean : (c : Cookie) → IsSendable c → IsClean (pair_text c)
pair-IsClean c h = first-IsClean c.name c.value h.name_clean h.value_clean

pairs-IsClean : (cs : List Cookie) → All IsSendable cs → All IsClean (map pair_text cs)
pairs-IsClean [] a = tt
pairs-IsClean (c ∷ cs) a = (pair-IsClean c a.0, pairs-IsClean cs a.1)

joined-linked :
    (c : Cookie) (cs : List Cookie) → joined (c ∷ cs) ≡ pair_text c ++ linked (map pair_text cs)
joined-linked c [] = sym (append-nil (pair_text c))
joined-linked c (d ∷ cs) = ap (λ t. pair_text c ++ (codes "; " ++ t)) (joined-linked d cs)

using_split : (s : Bytes) → s ≢ [] → split_cookie_header_using_split s ≡ split_cookie_header [] s
unfolding split_cookie_header_using_split
using_split [] n = absurd (n refl)
using_split (c ∷ s) n = refl

tokens-joined :
    (cs : List Cookie)
    → All IsSendable cs
    → split_cookie_header_using_split (joined cs) ≡ map pair_text cs
unfolding split_cookie_header_using_split
tokens-joined [] a = refl
tokens-joined (c ∷ cs) a =
    let f = pair-IsClean c a.0 in
    ap split_cookie_header_using_split (joined-linked c cs)
    ∙ using_split (pair_text c ++ linked (map pair_text cs))
        (append-given (pair_text c) (linked (map pair_text cs)) f.trim.given)
    ∙ split-linked (pair_text c) (map pair_text cs) f.lacks (pairs-IsClean cs a.1)
    ∙ ap (λ u. u ∷ map pair_text cs) (trim_view-IsTrim (pair_text c) f.trim)

pair-parsed :
    (c : Cookie)
    → IsSendable c
    → parse_cookie_pair_view (pair_text c) ≡ (c.name, unquote_pair_value c.value)
unfolding parse_cookie_pair_view
pair-parsed c h =
    let f = pair-IsClean c h in
    rw
      (
        trim_view-IsTrim (pair_text c) f.trim,
        filled (pair_text c) f.trim.given,
        find-Lacks b'=' c.name c.value h.name_lacks,
        trim_view-IsTrim (pair_text c) f.trim,
        take-length c.name (b'=' ∷ c.value),
        drop-length c.name b'=' c.value,
        trim_view-IsTrim c.name h.name_clean.trim,
        trim_view-IsTrim c.value h.value_clean.trim,
      )
      refl

-- The map that the server fills, cookie by cookie.
stored : List Cookie → List (Bytes × Bytes) → List (Bytes × Bytes)
stored [] ps = ps
stored (c ∷ cs) ps = stored cs (set_pair c.name (unquote_pair_value c.value) ps)

cookie_pairs-stored :
    (cs : List Cookie) (ps : List (Bytes × Bytes))
    → All IsSendable cs
    → cookie_pairs (map pair_text cs) ps ≡ stored cs ps
unfolding cookie_pairs stored
cookie_pairs-stored [] ps a = refl
cookie_pairs-stored (c ∷ cs) ps a =
    ap (λ r. cookie_pairs (map pair_text cs) (if is_empty r.0 then ps else set_pair r.0 r.1 ps))
      (pair-parsed c a.0)
    ∙ rw (filled c.name a.0.name_clean.trim.given)
        (cookie_pairs-stored cs (set_pair c.name (unquote_pair_value c.value) ps) a.1)

get-set : (k v : Bytes) (ps : List (Bytes × Bytes)) → get_pair k (set_pair k v ps) ≡ some v
unfolding set_pair get_pair
get-set k v [] = rw (bytes_eq_refl k) refl
get-set k v ((n, w) ∷ ps) = elim (Bool-cases (bytes_eq n k)) [
  | inl e ↦ rw (e, bytes_eq_refl k) refl
  | inr e ↦ rw (e, e, get-set k v ps) refl
]

get-set_ne :
    (k n v : Bytes) (ps : List (Bytes × Bytes))
    → bytes_eq n k ≡ false
    → get_pair k (set_pair n v ps) ≡ get_pair k ps
unfolding set_pair get_pair
get-set_ne k n v [] h = rw h refl
get-set_ne k n v ((m, w) ∷ ps) h = elim (Bool-cases (bytes_eq m n)) [
  | inl e ↦
      let same : bytes_eq m k ≡ false = ap (λ u. bytes_eq u k) (eq_of_bytes_eq m n e) ∙ h in
      rw (e, h, same) refl
  | inr e ↦ rw e (elim (Bool-cases (bytes_eq m k)) [
    | inl f ↦ rw f refl
    | inr f ↦ rw (f, get-set_ne k n v ps h) refl
  ])
]

stored-none :
    (k : Bytes) (cs : List Cookie) (ps : List (Bytes × Bytes))
    → All (λ d. d.name ≢ k) cs
    → get_pair k (stored cs ps) ≡ get_pair k ps
unfolding stored
stored-none k [] ps a = refl
stored-none k (c ∷ cs) ps a =
    stored-none k cs (set_pair c.name (unquote_pair_value c.value) ps) a.1
    ∙ get-set_ne k c.name (unquote_pair_value c.value) ps (bytes_eq_of_ne c.name k a.0)

stored-at :
    (cs : List Cookie) (i : ℕ) (c : Cookie) (ps : List (Bytes × Bytes))
    → get_elem? cs i ≡ some c
    → All (λ d. d.name ≢ c.name) (drop (suc i) cs)
    → get_pair c.name (stored cs ps) ≡ some (unquote_pair_value c.value)
unfolding stored
stored-at [] i c ps e a = cc
stored-at (d ∷ cs) zero c ps e a =
    let same : d ≡ c = some-injective d c e in
    stored-none c.name cs (set_pair d.name (unquote_pair_value d.value) ps) a
    ∙ subst
        (λ x.
          get_pair c.name (set_pair x.name (unquote_pair_value x.value) ps)
          ≡ some (unquote_pair_value c.value))
        (sym same) (get-set c.name (unquote_pair_value c.value) ps)
stored-at (d ∷ cs) (suc i) c ps e a =
    stored-at cs i c (set_pair d.name (unquote_pair_value d.value) ps) e a

-- The server finds in the Cookie header that joins a client's cookies, whose names and values can
-- be told apart, under a cookie's name that cookie's value, unquoted, if no later cookie of the
-- header has this name.
pub get_cookie-joined :
    (cs : List Cookie) (i : ℕ) (c : Cookie)
    → All IsSendable cs
    → get_elem? cs i ≡ some c
    → All (λ d. d.name ≢ c.name) (drop (suc i) cs)
    → get_cookie c.name (generate_cookie_pairs (joined cs)) ≡ unquote_pair_value c.value
unfolding get_cookie generate_cookie_pairs
get_cookie-joined cs i c s e a =
    rw (tokens-joined cs s, cookie_pairs-stored cs [] s, stored-at cs i c [] e a) refl
