-- ===== src/Connection/Cookies/Jar/Matching.antt =====
-- Which hosts and paths a cookie is for, said by how the texts are composed.
use bsrvcore.Base.{
  ℕ, zero, suc, ◌+◌, ◌-◌, ◌≡◌, ◌↔◌, ◌⊎◌, inl, inr, refl, sym, ◌∙◌, ap, Bytes, codes, bytes_eq,
  bytes_eq_iff, bytes_eq_refl, take, drop, length, length-append, ◌==◌, leb, ◌||◌, if◌then◌else◌,
  [], ◌∷◌, ◌++◌, true, false, arith, Bool-cases,
}
use bsrvcore.Route.Segments.{front_is, back_is}
use bsrvcore.Connection.Cookies.Jar.{domain_matches, path_matches, starts_with}

take-drop : (n : ℕ) (s : Bytes) → take n s ++ drop n s ≡ s
take-drop zero s = refl
take-drop (suc n) [] = refl
take-drop (suc n) (c ∷ s) = ap (◌∷◌ c) (take-drop n s)

drop-suc :
    (n : ℕ) (c : ℕ) (s : Bytes) → front_is c (drop n s) ≡ true → drop n s ≡ c ∷ drop (suc n) s
drop-suc zero c [] h = cc
drop-suc zero c (b ∷ s) h = let e : b ≡ c = ground arith in ap (λ x. x ∷ s) e
drop-suc (suc n) c [] h = cc
drop-suc (suc n) c (b ∷ s) h = drop-suc n c s h

drop-append : (s t : Bytes) → drop (length s) (s ++ t) ≡ t
drop-append [] t = refl
drop-append (c ∷ s) t = drop-append s t

-- `host` ends in a dot and `domain`.
abbrev pub IsSubdomain : Bytes → Bytes → Type 0
IsSubdomain host domain = (x : Bytes) × (host ≡ x ++ b'.' ∷ domain)

-- Cut where a dot stands before `domain`.
cut_at :
    (n : ℕ) (host domain : Bytes)
    → bytes_eq (drop (suc n) host) domain ≡ true
    → front_is b'.' (drop n host) ≡ true
    → IsSubdomain host domain
cut_at n host domain h k = (
  take n host,
  sym (take-drop n host)
      ∙ ap (λ u. take n host ++ u)
          (drop-suc n b'.' host k ∙ ap (◌∷◌ b'.') ((bytes_eq_iff (drop (suc n) host) domain).0 h)),
)

domain_matches-cut :
    (host domain : Bytes)
    → domain_matches host domain ≡ true
    → (host ≡ domain) ⊎ IsSubdomain host domain
unfolding domain_matches
domain_matches-cut host domain h = elim (Bool-cases (bytes_eq host domain)) [
  | inl e ↦ inl ((bytes_eq_iff host domain).0 e)
  | inr e ↦ inr (rest e (Bool-cases (leb (length host) (length domain))))
]
  where
    rest :
        bytes_eq host domain ≡ false
        → (leb (length host) (length domain) ≡ true) ⊎ (leb (length host) (length domain) ≡ false)
        → IsSubdomain host domain
    rest e (inl l) = absurd (ground arith)
    rest e (inr l) =
        let n = length host - length domain - 1 in
        let size : suc n ≡ length host - length domain = ground arith in
        cut_at n host domain (rw size (ground arith)) (ground arith)

matches-append : (x domain : Bytes) → domain_matches (x ++ b'.' ∷ domain) domain ≡ true
unfolding domain_matches
matches-append x domain =
    let size = length-append x (b'.' ∷ domain) in
    let off : length (x ++ b'.' ∷ domain) - length domain ≡ suc (length x) = omega (arith, size) in
    let before : suc (length x) - 1 ≡ length x = omega arith in
    let tail : drop (suc (length x)) (x ++ b'.' ∷ domain) ≡ domain = drop-tail x in
    let long : leb (length (x ++ b'.' ∷ domain)) (length domain) ≡ false = ground (arith, size) in
    let dotted : drop (length x) (x ++ b'.' ∷ domain) ≡ b'.' ∷ domain =
      drop-append x (b'.' ∷ domain) in
    elim (Bool-cases (bytes_eq (x ++ b'.' ∷ domain) domain)) [
      | inl e ↦ rw e refl
      | inr e ↦ rw (e, long, off, before, tail, dotted, bytes_eq_refl domain) refl
    ]
  where
    drop-tail : (y : Bytes) → drop (suc (length y)) (y ++ b'.' ∷ domain) ≡ domain
    drop-tail [] = refl
    drop-tail (c ∷ y) = drop-tail y

-- `DomainMatches` accepts a host for a domain exactly when the two are equal, or the host ends in
-- the domain with a dot before it and anything before the dot.
pub domain_matches_iff :
    (host domain : Bytes)
    → (domain_matches host domain ≡ true) ↔ ((host ≡ domain) ⊎ IsSubdomain host domain)
domain_matches_iff host domain = (domain_matches-cut host domain, back)
  where
    back : (host ≡ domain) ⊎ IsSubdomain host domain → domain_matches host domain ≡ true
    back (inl e) =
        unfold domain_matches in let same = (bytes_eq_iff host domain).1 e in rw same refl
    back (inr (x, e)) = rw e (matches-append x domain)

starts_with_iff : (s t : Bytes) → (starts_with s t ≡ true) ↔ ((x : Bytes) × (s ≡ t ++ x))
starts_with_iff s t = (go s t, λ r. ap (λ u. starts_with u t) r.1 ∙ back t r.0)
  where
    go : (u v : Bytes) → starts_with u v ≡ true → (x : Bytes) × (u ≡ v ++ x)
    go u [] h = (u, refl)
    go [] (b ∷ v) h = cc
    go (a ∷ u) (b ∷ v) h =
        let (x, e) = go u v (ground arith) in
        let f : a ≡ b = ground arith in (x, ap (◌∷◌ a) e ∙ ap (λ y. y ∷ (v ++ x)) f)

    back : (v x : Bytes) → starts_with (v ++ x) v ≡ true
    back [] x = elim x [ [] ↦ refl | (_ ∷ _) ↦ refl ]
    back (b ∷ v) x = ground (arith, back v x)

-- The path that a cookie's path stands for: "/" unless it begins with '/'.
abbrev pub cookie_path : Bytes → Bytes
cookie_path given_path = if front_is b'/' given_path then given_path else codes "/"

-- RFC 6265, 5.1.4: the request's path is the cookie's path, or goes on after it, and then one of the
-- two has a '/' where they meet.
abbrev pub IsUnder : Bytes → Bytes → Type 0
IsUnder request_path path =
    (x : Bytes) × (request_path ≡ path ++ x)
    × ((x ≡ []) ⊎ ((back_is b'/' path ≡ true) ⊎ (front_is b'/' x ≡ true)))

path_matches-IsUnder :
    (request_path path : Bytes)
    → path_matches request_path path ≡ true
    → (cookie_path path ≡ codes "/") ⊎ IsUnder request_path (cookie_path path)
unfolding path_matches
path_matches-IsUnder request_path path h =
    let p = cookie_path path in
    elim (Bool-cases (bytes_eq p (codes "/"))) [
      | inl e ↦ inl ((bytes_eq_iff p (codes "/")).0 e)
      | inr e ↦
          let (x, f) = (starts_with_iff request_path p).0 (ground arith) in
          let tail : drop (length p) request_path ≡ x = ap (drop (length p)) f ∙ drop-append p x in
          let size : length request_path ≡ length p + length x = ap length f ∙ length-append p x in
          inr (x, f, meet x e tail size)
    ]
  where
    meet :
        (x : Bytes)
        → bytes_eq (cookie_path path) (codes "/") ≡ false
        → drop (length (cookie_path path)) request_path ≡ x
        → length request_path ≡ length (cookie_path path) + length x
        → (x ≡ []) ⊎ ((back_is b'/' (cookie_path path) ≡ true) ⊎ (front_is b'/' x ≡ true))
    meet [] e tail size = inl refl
    meet (c ∷ x) e tail size = inr (elim (Bool-cases (back_is b'/' (cookie_path path))) [
      | inl b ↦ inl b
      | inr b ↦ inr (ap (front_is b'/') (sym tail) ∙ ground arith)
    ])

under-matches :
    (request_path path : Bytes)
    → IsUnder request_path (cookie_path path)
    → path_matches request_path path ≡ true
unfolding path_matches
under-matches request_path path (x, f, h) =
    let p = cookie_path path in
    let prefixed : starts_with request_path p ≡ true = (starts_with_iff request_path p).1 (x, f) in
    let tail : drop (length p) request_path ≡ x = ap (drop (length p)) f ∙ drop-append p x in
    let size : length request_path ≡ length p + length x = ap length f ∙ length-append p x in
    let met : (length request_path == length p || (back_is b'/' p || front_is b'/' x)) ≡ true =
      meet x h size in
    rw tail (ground (arith, prefixed, met))
  where
    meet :
        (x : Bytes)
        → ((x ≡ []) ⊎ ((back_is b'/' (cookie_path path) ≡ true) ⊎ (front_is b'/' x ≡ true)))
        → length request_path ≡ length (cookie_path path) + length x
        → (length request_path == length (cookie_path path)
            || (back_is b'/' (cookie_path path) || front_is b'/' x))
          ≡ true
    meet x (inl e) size = let n : length x ≡ 0 = ap length e in ground arith
    meet x (inr (inl e)) size = ground arith
    meet x (inr (inr e)) size = ground arith

-- `PathMatches` accepts a request's path for a cookie's path, where one that does not start with
-- '/' counts as "/", exactly when the cookie's path is "/", or the request's path goes on from it
-- with a rest that is empty, or that starts with '/', or that follows a '/' at the end of the
-- cookie's path.
pub path_matches_iff :
    (request_path path : Bytes)
    → (path_matches request_path path ≡ true)
      ↔ ((cookie_path path ≡ codes "/") ⊎ IsUnder request_path (cookie_path path))
path_matches_iff request_path path = (path_matches-IsUnder request_path path, back)
  where
    back :
        (cookie_path path ≡ codes "/") ⊎ IsUnder request_path (cookie_path path)
        → path_matches request_path path ≡ true
    back (inl e) =
        let same = (bytes_eq_iff (cookie_path path) (codes "/")).1 e in
        unfold path_matches in rw same refl
    back (inr u) = under-matches request_path path u
