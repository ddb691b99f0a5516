-- ===== src/Connection/Cookies/Jar/Origin.antt =====
-- Whose cookies the jar holds: a host's own, or of a domain that the host is in.
use bsrvcore.Base.{
  ℕ, ◌≡◌, refl, Bytes, codes, is_empty, find, leb, ◌&&◌, ◌||◌, not, if◌then◌else◌, List, [], ◌∷◌,
  Bool, true, false, Option, none, some, arith, Bool-cases, Option-cases, inl, inr, if-elim, upto,
}
use bsrvcore.Base.Integers.{ℤ, is_positive}
use bsrvcore.Route.Segments.{front_is}
use bsrvcore.Connection.Text.{trim_view, to_lower, i_equals, split_once, split_set_cookie_tokens}
use bsrvcore.Connection.Cookies.Time.{Tm}
use bsrvcore.Connection.Cookies.Jar.{
  Cookie, CookieExpiryInfo, no_expiry_info, normalize_domain, before_last_slash,
  default_path_from_target, domain_matches, apply_set_cookie_attribute, apply_attributes,
  compute_and_apply_expiry, parse_tokens, parse_set_cookie_value,
}

-- A cookie that `host` may set: it has a name and an absolute path, and its domain is the host, or
-- one that the host is in where the cookie is not for that host only.
pub record IsFrom (host : Bytes) (c : Cookie) : Type 0 where
  pub named : is_empty c.name ≡ false
  pub absolute : front_is b'/' c.path ≡ true
  pub own : c.host_only ≡ true → c.domain ≡ to_lower host
  pub within : c.host_only ≡ false → domain_matches (to_lower host) c.domain ≡ true

before_last_slash-front :
    (s : Bytes)
    → front_is b'/' s ≡ true
    → is_empty (before_last_slash s) ≡ false
    → front_is b'/' (before_last_slash s) ≡ true
unfolding before_last_slash
before_last_slash-front [] h k = cc
before_last_slash-front (c ∷ s) h k = elim (Option-cases (find b'/' s)) [
  | inl e ↦ absurd (ground (arith, e))
  | inr (j, e) ↦ rw (e, front_is) h
]

pub default_path_from_target-absolute :
    (target : Bytes) → front_is b'/' (default_path_from_target target) ≡ true
unfolding default_path_from_target
default_path_from_target-absolute target =
    let path = upto (find b'?' target) target in
    elim (Bool-cases (front_is b'/' path)) [
      | inl e ↦ elim (Bool-cases (is_empty (before_last_slash path))) [
        | inl f ↦ rw (e, f) refl
        | inr f ↦ rw (e, f) (before_last_slash-front path e f)
      ]
      | inr e ↦ rw e refl
    ]

-- What holds of a result, where there is one.
abbrev pub Gives {ℓ} : {A : Type ℓ} → (A → Type 0) → Option A → Type 0
Gives P none = Unit {0}
Gives P (some x) = P x

abbrev OfHost : Bytes → Cookie × CookieExpiryInfo → Type 0
OfHost host (c, info) = IsFrom host c

expiry-IsFrom :
    (host : Bytes) (now : ℕ) (info : CookieExpiryInfo) (c : Cookie)
    → IsFrom host c
    → IsFrom host (compute_and_apply_expiry now info c)
unfolding compute_and_apply_expiry
expiry-IsFrom host now info c h =
    if-elim (IsFrom host) (info.has_max_age && info.max_age_valid)
      (λ _. if-elim (IsFrom host) (is_positive info.max_age_secs) (λ _. same) (λ _. same))
      (λ _. by_date info.expires_tp)
  where
    same : {v : Bytes} {e : Option ℕ} → IsFrom host (record c { value = v; expiry = e })
    same = record { named = h.named; absolute = h.absolute; own = h.own; within = h.within }

    by_date :
        (o : Option ℕ)
        → IsFrom host (elim o [
          | none ↦ c
          | some tp ↦ record c { expiry = some tp; value = if leb tp now then [] else c.value }
        ])
    by_date none = h
    by_date (some tp) = same

module _ (stoll : Bytes → Option ℤ) (get_time : Bytes → Option Tm) (host : Bytes) where
  apply-IsFrom :
      (key value : Bytes) (r : Cookie × CookieExpiryInfo)
      → OfHost host r
      → Gives (OfHost host) (apply_set_cookie_attribute stoll get_time key value (to_lower host) r)
  unfolding apply_set_cookie_attribute
  apply-IsFrom key value (c, info) h =
      if-elim Q (i_equals key (codes "Secure")) (λ _. secured)
        (λ _.
          if-elim Q (i_equals key (codes "HttpOnly") || i_equals key (codes "SameSite")) (λ _. h)
            (λ _.
              if-elim Q (i_equals key (codes "Domain"))
                (λ _.
                  if-elim Q (not (is_empty dom) && domain_matches (to_lower host) dom) placed
                    (λ _. tt))
                (λ _.
                  if-elim Q (i_equals key (codes "Path")) (λ _. pathed)
                    (λ _.
                      if-elim Q (i_equals key (codes "Max-Age")) (λ _. h)
                        (λ _. if-elim Q (i_equals key (codes "Expires")) (λ _. h) (λ _. h))))))
    where
      Q : Option (Cookie × CookieExpiryInfo) → Type 0
      Q = Gives (OfHost host)

      dom : Bytes
      dom = normalize_domain value

      secured : IsFrom host (record c { secure = true })
      secured = record { named = h.named; absolute = h.absolute; own = h.own; within = h.within }

      placed :
          (not (is_empty dom) && domain_matches (to_lower host) dom) ≡ true
          → IsFrom host (record c { domain = dom; host_only = false })
      placed e = record {
        named = h.named;
        absolute = h.absolute;
        own = λ f. cc;
        within = λ f. ground arith;
      }

      pathed : IsFrom host (if front_is b'/' value then record c { path = value } else c)
      pathed =
          if-elim (IsFrom host) (front_is b'/' value)
            (λ e. record { named = h.named; absolute = e; own = h.own; within = h.within }) (λ e. h)

  attributes-IsFrom :
      (tokens : List Bytes) (r : Cookie × CookieExpiryInfo)
      → OfHost host r
      → Gives (OfHost host) (apply_attributes stoll get_time (to_lower host) tokens r)
  unfolding apply_attributes
  attributes-IsFrom [] r h = h
  attributes-IsFrom (token ∷ tokens) r h = go (attributes-IsFrom tokens) (is_empty token)
    where
      k : Bytes
      k = trim_view (split_once b'=' token).0

      v : Bytes
      v = trim_view (split_once b'=' token).1

      next :
          ((s : Cookie × CookieExpiryInfo)
            → OfHost host s
            → Gives (OfHost host) (apply_attributes stoll get_time (to_lower host) tokens s))
          → (o : Option (Cookie × CookieExpiryInfo)) → Gives (OfHost host) o
          → Gives (OfHost host) (elim o [
            | none ↦ none
            | some r' ↦ apply_attributes stoll get_time (to_lower host) tokens r'
          ])
      next ih none g = tt
      next ih (some r') g = ih r' g

      go :
          ((s : Cookie × CookieExpiryInfo)
            → OfHost host s
            → Gives (OfHost host) (apply_attributes stoll get_time (to_lower host) tokens s))
          → (b : Bool)
          → Gives (OfHost host) (elim b [
            | true ↦ apply_attributes stoll get_time (to_lower host) tokens r
            | false ↦ elim (apply_set_cookie_attribute stoll get_time k v (to_lower host) r) [
              | none ↦ none
              | some r' ↦ apply_attributes stoll get_time (to_lower host) tokens r'
            ]
          ])
      go ih true = ih r h
      go ih false =
          next ih (apply_set_cookie_attribute stoll get_time k v (to_lower host) r)
            (apply-IsFrom k v r h)

  pub parse_set_cookie_value-IsFrom :
      (target value : Bytes) (now : ℕ)
      → Gives (IsFrom host) (parse_set_cookie_value stoll get_time host target value now)
  unfolding parse_set_cookie_value parse_tokens
  parse_set_cookie_value-IsFrom target value now =
      if-elim (Gives (IsFrom host)) (is_empty (trim_view value)) (λ _. tt)
        (λ _. tokens (split_set_cookie_tokens (trim_view value)))
    where
      tokens :
          (ts : List Bytes) → Gives (IsFrom host) (parse_tokens stoll get_time host target now ts)
      tokens [] = tt
      tokens (first ∷ ts) =
          if-elim (Gives (IsFrom host)) (is_empty first || is_empty name) (λ _. tt)
            (λ e.
              done (apply_attributes stoll get_time (to_lower host) ts (cookie, no_expiry_info))
                (attributes-IsFrom ts (cookie, no_expiry_info) (begun (ground arith))))
        where
          name : Bytes
          name = trim_view (split_once b'=' first).0

          cookie : Cookie
          cookie = record {
            name = name;
            value = trim_view (split_once b'=' first).1;
            domain = to_lower host;
            host_only = true;
            path = default_path_from_target target;
            secure = false;
            expiry = none;
          }

          begun : is_empty name ≡ false → IsFrom host cookie
          begun n = record {
            named = n;
            absolute = default_path_from_target-absolute target;
            own = λ f. refl;
            within = λ f. cc;
          }

          done :
              (o : Option (Cookie × CookieExpiryInfo))
              → Gives (OfHost host) o
              → Gives (IsFrom host) (elim o [
                | none ↦ none
                | some (c, expiry) ↦ some (compute_and_apply_expiry now expiry c)
              ])
          done none g = tt
          done (some (c, info)) g = expiry-IsFrom host now info c g
