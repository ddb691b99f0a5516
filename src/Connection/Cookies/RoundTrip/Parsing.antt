-- ===== src/Connection/Cookies/RoundTrip/Parsing.antt =====
-- What the client makes of each attribute, and of the whole text.
use bsrvcore.Base.{
  ℕ, ◌≡◌, ◌≢◌, refl, sym, ◌∙◌, ap, subst, Bytes, codes, is_empty, find, ◌||◌, if◌then◌else◌, List,
  [], ◌∷◌, ◌++◌, append_assoc, Bool, true, false, Option, none, some, All, Lacks, is_absent,
  is_absent-Lacks,
}
use bsrvcore.Base.Integers.{ℤ}
use bsrvcore.Route.Segments.{front_is}
use bsrvcore.Connection.Text.{
  trim_front, trim_back, trim_view, to_lower, i_equals, split_once, split_set_cookie_tokens,
}
use bsrvcore.Connection.Text.Laws.{IsTrim, trim_view-IsTrim, split_once-Lacks, Lacks-append}
use bsrvcore.Connection.Cookies.Server.{
  ServerSetCookie, new_set_cookie, SameSite, given, same_site_text, same_site_name, is_none_site,
  is_set, max_age_text, cookie_to_string, strip_end,
}
use bsrvcore.Connection.Cookies.Time.{Tm, parse_imf_fixdate}
use bsrvcore.Connection.Cookies.Jar.{
  Cookie, CookieExpiryInfo, no_expiry_info, with_max_age, normalize_domain,
  default_path_from_target, domain_matches, apply_set_cookie_attribute, apply_attributes,
  compute_and_apply_expiry, parse_tokens, parse_set_cookie_value,
}
use bsrvcore.Connection.Cookies.RoundTrip.Tokens.{
  IsClean, IsClean-append, IsTrim-front, append-given, spaced, linked, strip_end-linked,
  trim_view-linked, split-linked,
}
use bsrvcore.Connection.Cookies.RoundTrip.{
  token, flag, tokens, IsPlain, IsCleanOption, attributes-spaced, tokens-IsClean,
  same_site_text-IsClean,
}

-- The domain that a client accepts, if one is given.
abbrev pub AcceptsDomain : Bytes → Option Bytes → Type 0
AcceptsDomain host none = Unit {0}
AcceptsDomain host (some d) =
    (is_empty (normalize_domain d) ≡ false)
    × (domain_matches (to_lower host) (normalize_domain d) ≡ true)

abbrev pub path_of : Bytes → Option Bytes → Bytes
path_of old none = old
path_of old (some p) = if front_is b'/' p then p else old

abbrev pub domain_of : Bytes → Option Bytes → Bytes
domain_of host none = to_lower host
domain_of host (some d) = normalize_domain d

abbrev pub is_unset : Option Bytes → Bool
is_unset none = true
is_unset (some d) = false

pub filled : (s : Bytes) → s ≢ [] → is_empty s ≡ false
filled [] g = absurd (g refl)
filled (b ∷ s) g = refl

pub first-IsClean : (n v : Bytes) → IsClean n → IsClean v → IsClean (n ++ b'=' ∷ v)
first-IsClean [] v h k = absurd (h.trim.given refl)
first-IsClean (b ∷ n) v h k = subst IsClean (append_assoc (b ∷ n) (codes "=") v) (
    IsClean-append b (n ++ codes "=") v (IsTrim-front b n h.trim)
      (Lacks-append b';' (b ∷ n) (codes "=") h.lacks (is_absent-Lacks b';' (codes "=") refl)) k)

module _ (to_string : ℤ → Bytes) (stoll : Bytes → Option ℤ) (get_time : Bytes → Option Tm) where
  abbrev run : Bytes → List Bytes → Cookie → CookieExpiryInfo → Option (Cookie × CookieExpiryInfo)
  run host ts c info = apply_attributes stoll get_time (to_lower host) ts (c, info)

  run-token :
      (host key s : Bytes) (ts : List Bytes) (c d : Cookie) (info after : CookieExpiryInfo)
      → IsTrim key
      → is_absent b'=' key ≡ true
      → IsTrim s
      → apply_set_cookie_attribute stoll get_time key s (to_lower host) (c, info) ≡ some (d, after)
      → run host ((key ++ b'=' ∷ s) ∷ ts) c info ≡ run host ts d after
  unfolding apply_attributes
  run-token host [] s ts c d info after k l h e = absurd (k.given refl)
  run-token host (b ∷ key) s ts c d info after k l h e =
      rw
        (
          split_once-Lacks b'=' (b ∷ key) s (is_absent-Lacks b'=' (b ∷ key) l),
          trim_view-IsTrim (b ∷ key) k,
          trim_view-IsTrim s h,
          e,
          apply_attributes,
        )
        refl

  abbrev pub expires_of : Option Bytes → Option ℕ → Option ℕ
  expires_of none old = old
  expires_of (some s) old = parse_imf_fixdate get_time s

  run-expires :
      (host : Bytes) (o : Option Bytes) (ts : List Bytes) (c : Cookie) (info : CookieExpiryInfo)
      → IsCleanOption o
      → run host (token (codes "Expires") o ++ ts) c info
        ≡ run host ts c (record info { expires_tp = expires_of o info.expires_tp })
  unfolding apply_set_cookie_attribute i_equals trim_front trim_back
  run-expires host none ts c info h = refl
  run-expires host (some s) ts c info h =
      run-token host (codes "Expires") s ts c c info
        (record info { expires_tp = parse_imf_fixdate get_time s })
        (record { front = refl; back = refl; given = λ g. cc }) refl h.trim refl

  run-path :
      (host : Bytes) (o : Option Bytes) (ts : List Bytes) (c : Cookie) (info : CookieExpiryInfo)
      → IsCleanOption o
      → run host (token (codes "Path") o ++ ts) c info
        ≡ run host ts (record c { path = path_of c.path o }) info
  unfolding apply_set_cookie_attribute i_equals trim_front trim_back
  run-path host none ts c info h = refl
  run-path host (some s) ts c info h =
      run-token host (codes "Path") s ts c (record c { path = path_of c.path (some s) }) info info
        (record { front = refl; back = refl; given = λ g. cc }) refl h.trim
        (ap (λ d. some (d, info)) (absolute (front_is b'/' s)))
    where
      absolute :
          (b : Bool)
          → (if b then record c { path = s } else c) ≡ record c { path = if b then s else c.path }
      absolute true = refl
      absolute false = refl

  run-domain :
      (host : Bytes) (o : Option Bytes) (ts : List Bytes) (c : Cookie) (info : CookieExpiryInfo)
      → IsCleanOption o
      → AcceptsDomain host o
      → run host
          (token (codes "Domain") o ++ ts)
          (record c { domain = to_lower host; host_only = true })
          info
        ≡ run host ts (record c { domain = domain_of host o; host_only = is_unset o }) info
  unfolding apply_set_cookie_attribute i_equals trim_front trim_back
  run-domain host none ts c info h a = refl
  run-domain host (some s) ts c info h a =
      run-token host (codes "Domain") s ts (record c { domain = to_lower host; host_only = true })
        (record c { domain = normalize_domain s; host_only = false }) info info
        (record { front = refl; back = refl; given = λ g. cc }) refl h.trim (rw (a.0, a.1) refl)

  -- `max_age_text` of a count that `std::stoll` reads back.
  abbrev pub Reads : Option ℤ → Type 0
  Reads none = Unit {0}
  Reads (some n) = stoll (to_string n) ≡ some n

  abbrev pub age_of : Option ℤ → CookieExpiryInfo → CookieExpiryInfo
  age_of none info = info
  age_of (some n) info = with_max_age (some n) info

  run-age :
      (host : Bytes) (o : Option ℤ) (ts : List Bytes) (c : Cookie) (info : CookieExpiryInfo)
      → IsCleanOption (max_age_text to_string o)
      → Reads o
      → run host (token (codes "Max-Age") (max_age_text to_string o) ++ ts) c info
        ≡ run host ts c (age_of o info)
  unfolding apply_set_cookie_attribute i_equals trim_front trim_back
  run-age host none ts c info h r = refl
  run-age host (some n) ts c info h r =
      run-token host (codes "Max-Age") (to_string n) ts c c info (with_max_age (some n) info)
        (record { front = refl; back = refl; given = λ g. cc }) refl h.trim (rw r refl)

  run-site :
      (host : Bytes) (o : Option SameSite) (ts : List Bytes) (c : Cookie) (info : CookieExpiryInfo)
      → IsCleanOption (same_site_text o)
      → run host (token (codes "SameSite") (same_site_text o) ++ ts) c info ≡ run host ts c info
  unfolding apply_set_cookie_attribute i_equals trim_front trim_back
  run-site host none ts c info h = refl
  run-site host (some s) ts c info h =
      run-token host (codes "SameSite") (same_site_name s) ts c c info info
        (record { front = refl; back = refl; given = λ g. cc }) refl h.trim refl

  run-flags :
      (host : Bytes) (secure http_only : Bool) (c : Cookie) (info : CookieExpiryInfo)
      → run host
          (flag secure (codes "Secure") ++ flag http_only (codes "HttpOnly"))
          (record c { secure = false })
          info
        ≡ some (record c { secure = secure }, info)
  unfolding apply_attributes apply_set_cookie_attribute i_equals trim_view trim_front trim_back
      split_once find
  run-flags host true true c info = refl
  run-flags host true false c info = refl
  run-flags host false true c info = refl
  run-flags host false false c info = refl

  -- The cookie as the client has it, before its expiry.
  abbrev pub received : Bytes → Bytes → ServerSetCookie → Cookie
  received host target c = record {
    name = given c.name;
    value = given c.value;
    domain = domain_of host c.domain;
    host_only = is_unset c.domain;
    path = path_of (default_path_from_target target) c.path;
    secure = is_none_site c.same_site || is_set c.secure;
    expiry = none;
  }

  abbrev pub received_expiry : ServerSetCookie → CookieExpiryInfo
  received_expiry c =
      age_of c.max_age (record no_expiry_info { expires_tp = expires_of c.expiry none })

  run-tokens :
      (host target : Bytes) (c : ServerSetCookie) (name value : Bytes)
      → IsPlain to_string c
      → AcceptsDomain host c.domain
      → Reads c.max_age
      → run host
          (tokens to_string c)
          (record (received host target new_set_cookie) { name = name; value = value })
          no_expiry_info
        ≡ some (record (received host target c) { name = name; value = value }, received_expiry c)
  unfolding tokens
  run-tokens host target c name value h a r =
      let c0 = record (received host target new_set_cookie) { name = name; value = value } in
      let c1 = record c0 { path = path_of c0.path c.path } in
      let c2 = record c1 { domain = domain_of host c.domain; host_only = is_unset c.domain } in
      let i1 = record no_expiry_info { expires_tp = expires_of c.expiry none } in
      let i2 = age_of c.max_age i1 in
      run-expires host c.expiry _ c0 no_expiry_info h.expiry_clean
      ∙ run-path host c.path _ c0 i1 h.path_clean
      ∙ run-domain host c.domain _ c1 i1 h.domain_clean a
      ∙ run-age host c.max_age _ c2 i1 h.age_clean r
      ∙ run-site host c.same_site _ c2 i2 (same_site_text-IsClean c.same_site)
      ∙ run-flags host (is_none_site c.same_site || is_set c.secure) (is_set c.http_only) c2 i2

  text-linked :
      (c : ServerSetCookie) (h : IsPlain to_string c)
      → cookie_to_string to_string c
        ≡ (h.name_text ++ b'=' ∷ h.value_text) ++ linked (tokens to_string c)
  unfolding cookie_to_string tokens
  text-linked c h =
      let n = h.name_text in
      let v = h.value_text in
      let ts = tokens to_string c in
      rw
        (
          h.name_given,
          h.value_given,
          filled n h.name_clean.trim.given,
          filled v h.value_clean.trim.given,
        )
        (ap strip_end (
            ap (λ x. n ++ b'=' ∷ (v ++ b';' ∷ x)) (attributes-spaced to_string c h)
            ∙ sym (append_assoc n (b'=' ∷ v) (b';' ∷ spaced ts)))
          ∙ strip_end-linked (n ++ b'=' ∷ v) ts (first-IsClean n v h.name_clean h.value_clean)
              (tokens-IsClean to_string c h))

  parse-split :
      (host target : Bytes) (now : ℕ) (s : Bytes) (ts : List Bytes)
      → is_empty (trim_view s) ≡ false
      → split_set_cookie_tokens (trim_view s) ≡ ts
      → parse_set_cookie_value stoll get_time host target s now
        ≡ parse_tokens stoll get_time host target now ts
  unfolding parse_set_cookie_value
  parse-split host target now s ts h e = rw h (ap (parse_tokens stoll get_time host target now) e)

  parse-linked :
      (host target n v : Bytes) (ts : List Bytes) (now : ℕ) (d : Cookie) (after : CookieExpiryInfo)
      → IsClean n
      → Lacks b'=' n
      → IsClean v
      → All IsClean ts
      → run host ts
          (record (received host target new_set_cookie) { name = n; value = v })
          no_expiry_info
        ≡ some (d, after)
      → parse_set_cookie_value stoll get_time host target ((n ++ b'=' ∷ v) ++ linked ts) now
        ≡ some (compute_and_apply_expiry now after d)
  unfolding parse_tokens
  parse-linked host target n v ts now d after h l k a e =
      let f = first-IsClean n v h k in
      let text = (n ++ b'=' ∷ v) ++ linked ts in
      let trimmed : trim_view text ≡ text = trim_view-linked (n ++ b'=' ∷ v) ts f a in
      let whole : is_empty ((n ++ b'=' ∷ v) ++ linked ts) ≡ false =
        filled ((n ++ b'=' ∷ v) ++ linked ts)
          (append-given (n ++ b'=' ∷ v) (linked ts) f.trim.given) in
      let first : is_empty (n ++ b'=' ∷ v) ≡ false = filled (n ++ b'=' ∷ v) f.trim.given in
      let name : is_empty n ≡ false = filled n h.trim.given in
      parse-split host target now text ((n ++ b'=' ∷ v) ∷ ts) (ap is_empty trimmed ∙ whole) (
        ap split_set_cookie_tokens trimmed
        ∙ split-linked (n ++ b'=' ∷ v) ts f.trim.given f.lacks a
        ∙ ap (λ u. u ∷ ts) (trim_view-IsTrim (n ++ b'=' ∷ v) f.trim))
      ∙ rw
          (
            split_once-Lacks b'=' n v l,
            trim_view-IsTrim n h.trim,
            trim_view-IsTrim v k.trim,
            first,
            name,
            e,
          )
          refl

  -- The parsed text, up to the computation of the expiry.
  pub parse_set_cookie_value-computed :
      (host target : Bytes) (c : ServerSetCookie) (now : ℕ)
      → IsPlain to_string c
      → AcceptsDomain host c.domain
      → Reads c.max_age
      → parse_set_cookie_value stoll get_time host target (cookie_to_string to_string c) now
        ≡ some (compute_and_apply_expiry now (received_expiry c) (received host target c))
  parse_set_cookie_value-computed host target c now h a r =
      let texts : record (received host target c) { name = h.name_text; value = h.value_text }
          ≡ received host target c =
        λ i. record (received host target c) {
          name = given (sym h.name_given i);
          value = given (sym h.value_given i);
        } in
      ap (λ t. parse_set_cookie_value stoll get_time host target t now) (text-linked c h)
      ∙ parse-linked host target h.name_text h.value_text (tokens to_string c) now
          (record (received host target c) { name = h.name_text; value = h.value_text })
          (received_expiry c) h.name_clean h.name_lacks h.value_clean (tokens-IsClean to_string c h)
          (run-tokens host target c h.name_text h.value_text h a r)
      ∙ ap (λ d. some (compute_and_apply_expiry now (received_expiry c) d)) texts
