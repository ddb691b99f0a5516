-- ===== src/Connection/Cookies/RoundTrip.antt =====
-- A cookie that a server writes with `ServerSetCookie::ToString` is the cookie that a client parses.
pub mod Tokens
pub mod Parsing
pub mod Parsed
pub mod Request
pub mod Lease
use bsrvcore.Base.{
  ℕ, ◌≡◌, ◌≢◌, refl, sym, ◌∙◌, ap, ap₂, subst, Bytes, codes, is_empty, find, ◌==◌, ◌&&◌, ◌||◌, not,
  if◌then◌else◌, List, [], ◌∷◌, ◌++◌, append_assoc, append-nil, Bool, true, false, Option, none,
  some, arith, Bool-cases, inl, inr, All, All-append, Lacks, is_absent, is_absent-Lacks,
}
use bsrvcore.Base.Integers.{ℤ, pos}
use bsrvcore.Route.Segments.{front_is}
use bsrvcore.Connection.Text.{
  is_ws, trim_front, trim_back, trim_view, to_lower, i_equals, split_once, split_set_cookie_tokens,
}
use bsrvcore.Connection.Text.Laws.{trim_view-IsTrim, split_once-Lacks, split_once-Lacks-none}
use bsrvcore.Connection.Cookies.Server.{
  ServerSetCookie, SameSite, strict, lax, no_restriction, given, attribute, always, same_site_name,
  same_site_text, is_none_site, is_set, max_age_text, attributes, cookie_to_string, strip_end,
}
use bsrvcore.Connection.Cookies.Time.{Tm, parse_imf_fixdate}
use bsrvcore.Connection.Cookies.Jar.{
  Cookie, CookieExpiryInfo, no_expiry_info, with_max_age, normalize_domain,
  default_path_from_target, domain_matches, apply_set_cookie_attribute, apply_attributes,
  compute_and_apply_expiry, parse_tokens, parse_set_cookie_value,
}
use bsrvcore.Connection.Cookies.RoundTrip.Tokens.{
  IsClean, IsClean-append, IsTrim-front, spaced, spaced-append, linked, strip_end-linked,
  trim_view-linked, split-linked,
}

-- The token of an attribute that is given.
abbrev pub token : Bytes → Option Bytes → List Bytes
token key none = []
token key (some s) = (key ++ b'=' ∷ s) ∷ []

abbrev pub flag : Bool → Bytes → List Bytes
flag true key = key ∷ []
flag false key = []

abbrev pub IsCleanOption : Option Bytes → Type 0
IsCleanOption none = Unit {0}
IsCleanOption (some s) = IsClean s

token-spaced :
    (key : Bytes) (o : Option Bytes) → IsCleanOption o → attribute key o ≡ spaced (token key o)
token-spaced key none h = refl
token-spaced key (some []) h = absurd (h.trim.given refl)
token-spaced key (some (c ∷ s)) h =
    ap (◌∷◌ b' ') (sym (append_assoc key (b'=' ∷ c ∷ s) (codes ";")))

always-spaced : (key : Bytes) (o : Option Bytes) → always key o ≡ spaced (token key o)
always-spaced key none = refl
always-spaced key (some s) = ap (◌∷◌ b' ') (sym (append_assoc key (b'=' ∷ s) (codes ";")))

flag-spaced :
    (b : Bool) (key : Bytes) → (if b then b' ' ∷ (key ++ codes ";") else []) ≡ spaced (flag b key)
flag-spaced true key = refl
flag-spaced false key = refl

token-IsClean :
    (c : ℕ) (k : Bytes) (o : Option Bytes)
    → is_ws c ≡ false
    → is_absent b';' (c ∷ k ++ codes "=") ≡ true
    → IsCleanOption o
    → All IsClean (token (c ∷ k) o)
token-IsClean c k none w l h = tt
token-IsClean c k (some s) w l h = (
  subst IsClean (append_assoc (c ∷ k) (codes "=") s)
      (IsClean-append c (k ++ codes "=") s w (is_absent-Lacks b';' (c ∷ k ++ codes "=") l) h),
  tt,
)

pub IsClean-literal :
    (s : Bytes)
    → trim_front s ≡ s
    → trim_back s ≡ s
    → strip_end s ≡ s
    → is_absent b';' s ≡ true
    → is_empty s ≡ false
    → IsClean s
IsClean-literal s f b e l n = record {
  trim = record { front = f; back = b; given = λ g. cc };
  solid = e;
  lacks = is_absent-Lacks b';' s l;
}

pub same_site_text-IsClean : (o : Option SameSite) → IsCleanOption (same_site_text o)
unfolding trim_front trim_back strip_end
same_site_text-IsClean none = tt
same_site_text-IsClean (some strict) = IsClean-literal (codes "Strict") refl refl refl refl refl
same_site_text-IsClean (some lax) = IsClean-literal (codes "Lax") refl refl refl refl refl
same_site_text-IsClean (some no_restriction) =
    IsClean-literal (codes "None") refl refl refl refl refl

module _ (to_string : ℤ → Bytes) where
  -- The tokens after the first of a cookie that is written.
  unfoldable pub tokens : ServerSetCookie → List Bytes
  tokens c =
      token (codes "Expires") c.expiry
      ++ (token (codes "Path") c.path
          ++ (token (codes "Domain") c.domain
              ++ (token (codes "Max-Age") (max_age_text to_string c.max_age)
                  ++ (token (codes "SameSite") (same_site_text c.same_site)
                      ++ (flag (is_none_site c.same_site || is_set c.secure) (codes "Secure")
                          ++ flag (is_set c.http_only) (codes "HttpOnly"))))))

  -- The texts of a cookie that can be told apart in a header.
  pub record IsPlain (c : ServerSetCookie) : Type 0 where
    pub name_text : Bytes
    pub name_given : c.name ≡ some name_text
    pub name_clean : IsClean name_text
    pub name_lacks : Lacks b'=' name_text
    pub value_text : Bytes
    pub value_given : c.value ≡ some value_text
    pub value_clean : IsClean value_text
    pub expiry_clean : IsCleanOption c.expiry
    pub path_clean : IsCleanOption c.path
    pub domain_clean : IsCleanOption c.domain
    pub age_clean : IsCleanOption (max_age_text to_string c.max_age)

  pub attributes-spaced :
      (c : ServerSetCookie) → IsPlain c → attributes to_string c ≡ spaced (tokens c)
  unfolding tokens
  attributes-spaced c h = both _ _ (token-spaced (codes "Expires") c.expiry h.expiry_clean) (
      both _ _ (token-spaced (codes "Path") c.path h.path_clean) (
        both _ _ (token-spaced (codes "Domain") c.domain h.domain_clean) (
          both _ _ (always-spaced (codes "Max-Age") (max_age_text to_string c.max_age)) (
            both _ _ (always-spaced (codes "SameSite") (same_site_text c.same_site)) (
              both _ _ (flag-spaced (is_none_site c.same_site || is_set c.secure) (codes "Secure"))
                (flag-spaced (is_set c.http_only) (codes "HttpOnly")))))))
    where
      both :
          (xs ys : List Bytes) {s t : Bytes}
          → s ≡ spaced xs
          → t ≡ spaced ys
          → (s ++ t) ≡ spaced (xs ++ ys)
      both xs ys e f = ap₂ ◌++◌ e f ∙ sym (spaced-append xs ys)

  pub tokens-IsClean : (c : ServerSetCookie) → IsPlain c → All IsClean (tokens c)
  unfolding tokens trim_front trim_back strip_end
  tokens-IsClean c h =
      join _ _ (token-IsClean b'E' (codes "xpires") c.expiry refl refl h.expiry_clean) (
        join _ _ (token-IsClean b'P' (codes "ath") c.path refl refl h.path_clean) (
          join _ _ (token-IsClean b'D' (codes "omain") c.domain refl refl h.domain_clean) (
            join _ _
              (token-IsClean b'M' (codes "ax-Age") (max_age_text to_string c.max_age) refl refl
                h.age_clean)
              (join _ _
                (token-IsClean b'S' (codes "ameSite") (same_site_text c.same_site) refl refl
                  (same_site_text-IsClean c.same_site))
                (join _ _
                  (flag-IsClean (is_none_site c.same_site || is_set c.secure) (codes "Secure")
                    (IsClean-literal (codes "Secure") refl refl refl refl refl))
                  (flag-IsClean (is_set c.http_only) (codes "HttpOnly")
                    (IsClean-literal (codes "HttpOnly") refl refl refl refl refl)))))))
    where
      join : (xs ys : List Bytes) → All IsClean xs → All IsClean ys → All IsClean (xs ++ ys)
      join xs ys a b = All-append IsClean xs ys a b

      flag-IsClean : (b : Bool) (key : Bytes) → IsClean key → All IsClean (flag b key)
      flag-IsClean true key k = (k, tt)
      flag-IsClean false key k = tt
