-- ===== src/Connection/Cookies/Jar/History.antt =====
-- The jar after any history of responses.
use bsrvcore.Base.{
  ℕ, ◌≡◌, ◌⊎◌, sym, ◌∙◌, Bytes, is_empty, eq_of_bytes_eq, ◌&&◌, List, [], ◌∷◌, Bool, true, Option,
  none, some, arith, Bool-cases, inl, inr, All, All-get_elem?, get_elem?,
}
use bsrvcore.Base.Integers.{ℤ}
use bsrvcore.Connection.Text.{to_lower}
use bsrvcore.Connection.Cookies.Time.{Tm}
use bsrvcore.Connection.Cookies.Jar.{
  Cookie, SetCookieField, same_cookie, has_passed, cleanup_expired, keep_cookie, domain_matches,
  is_sent, parse_set_cookie_value, sync_set_cookie, on_response_header,
}
use bsrvcore.Connection.Cookies.Jar.Keys.{
  erase_if-All, upsert_cookie-All, NoTwins, sync_set_cookie-NoTwins,
}
use bsrvcore.Connection.Cookies.Jar.Origin.{IsFrom, Gives, parse_set_cookie_value-IsFrom}

-- A response: the host and target of the request, and the Set-Cookie fields of its header.
pub record Response : Type 0 where
  pub host : Bytes
  pub target : Bytes
  pub fields : List SetCookieField

module _ (stoll : Bytes → Option ℤ) (get_time : Bytes → Option Tm) where
  -- The jar after the responses of a history, in their order.
  unfoldable pub receive : List Response → List Cookie → List Cookie
  unfolding on_response_header
  receive [] cookies = cookies
  receive (r ∷ rs) cookies =
      receive rs (on_response_header stoll get_time r.host r.target r.fields cookies)

  fields-NoTwins :
      (host target : Bytes) (fs : List SetCookieField) (cs : List Cookie)
      → NoTwins cs
      → NoTwins (on_response_header stoll get_time host target fs cs)
  unfolding on_response_header
  fields-NoTwins host target [] cs h = h
  fields-NoTwins host target (f ∷ fs) cs h =
      fields-NoTwins host target fs
        (sync_set_cookie stoll get_time host target f.value f.start f.now f.later cs)
        (sync_set_cookie-NoTwins stoll get_time host target f.value f.start f.now f.later cs h)

  pub receive-NoTwins :
      (rs : List Response) (cookies : List Cookie) → NoTwins cookies → NoTwins (receive rs cookies)
  unfolding receive
  receive-NoTwins [] cookies h = h
  receive-NoTwins (r ∷ rs) cookies h =
      receive-NoTwins rs (on_response_header stoll get_time r.host r.target r.fields cookies)
        (fields-NoTwins r.host r.target r.fields cookies h)

  module _ (Known : Bytes → Type 0) where
    -- A cookie that one of the known hosts may set.
    abbrev IsOfKnown : Cookie → Type 0
    IsOfKnown c = (h : Bytes) × Known h × IsFrom h c

    kept-IsOfKnown :
        (c d : Cookie)
        → IsOfKnown d
        → IsOfKnown (record d { value = c.value; secure = c.secure; expiry = c.expiry })
    kept-IsOfKnown c d (h, k, f) =
        (h, k, record { named = f.named; absolute = f.absolute; own = f.own; within = f.within })

    keep_cookie-IsOfKnown :
        (later : ℕ) (c : Cookie) (cs : List Cookie)
        → IsOfKnown c
        → All IsOfKnown cs
        → All IsOfKnown (keep_cookie later c cs)
    keep_cookie-IsOfKnown later c cs h a =
        elim (Bool-cases (is_empty c.value && has_passed later c.expiry)) [
          | inl e ↦ rw e (erase_if-All IsOfKnown (same_cookie c) cs a)
          | inr e ↦ rw e (upsert_cookie-All IsOfKnown c cs h (kept-IsOfKnown c) a)
        ]

    sync-IsOfKnown :
        (host target value : Bytes) (start now later : ℕ) (cs : List Cookie)
        → Known host
        → All IsOfKnown cs
        → All IsOfKnown (sync_set_cookie stoll get_time host target value start now later cs)
    unfolding sync_set_cookie
    sync-IsOfKnown host target value start now later cs k a =
        go (parse_set_cookie_value stoll get_time host target value now)
          (parse_set_cookie_value-IsFrom stoll get_time host target value now)
      where
        left : All IsOfKnown (cleanup_expired start cs)
        left = erase_if-All IsOfKnown (λ c. has_passed start c.expiry) cs a

        go :
            (parsed : Option Cookie)
            → Gives (IsFrom host) parsed
            → All IsOfKnown (elim parsed [
              | none ↦ cleanup_expired start cs
              | some c ↦ keep_cookie later c (cleanup_expired start cs)
            ])
        go none g = left
        go (some c) g = keep_cookie-IsOfKnown later c (cleanup_expired start cs) (host, k, g) left

    fields-IsOfKnown :
        (host target : Bytes) (fs : List SetCookieField) (cs : List Cookie)
        → Known host
        → All IsOfKnown cs
        → All IsOfKnown (on_response_header stoll get_time host target fs cs)
    unfolding on_response_header
    fields-IsOfKnown host target [] cs k a = a
    fields-IsOfKnown host target (f ∷ fs) cs k a =
        fields-IsOfKnown host target fs
          (sync_set_cookie stoll get_time host target f.value f.start f.now f.later cs) k
          (sync-IsOfKnown host target f.value f.start f.now f.later cs k a)

    pub receive-IsFrom :
        (rs : List Response) (cs : List Cookie)
        → All (λ r. Known r.host) rs
        → All IsOfKnown cs
        → All IsOfKnown (receive rs cs)
    unfolding receive
    receive-IsFrom [] cs k a = a
    receive-IsFrom (r ∷ rs) cs k a =
        receive-IsFrom rs (on_response_header stoll get_time r.host r.target r.fields cs) k.1
          (fields-IsOfKnown r.host r.target r.fields cs k.0 a)

    -- Why a cookie may go to `host`: it is a known host's own, and that host is `host`, or both
    -- are in the cookie's domain.
    abbrev pub IsMeantFor : Bytes → Cookie → Type 0
    IsMeantFor host c =
        (h : Bytes) × Known h
        × (((c.host_only ≡ true) × (to_lower h ≡ to_lower host))
            ⊎ ((domain_matches (to_lower h) c.domain ≡ true)
                × (domain_matches (to_lower host) c.domain ≡ true)))

    meant_for :
        (host path : Bytes) (is_https : Bool) (c : Cookie)
        → IsOfKnown c
        → is_sent (to_lower host) path is_https c ≡ true
        → ((c.secure ≡ true → is_https ≡ true) × IsMeantFor host c)
    unfolding is_sent
    meant_for host path is_https c (h, k, f) e = (
      λ s. ground arith,
      (
        h,
        k,
        elim (Bool-cases c.host_only) [
          | inl o ↦
              inl (o, sym (f.own o) ∙ sym (eq_of_bytes_eq (to_lower host) c.domain (ground arith)))
          | inr o ↦ inr (f.within o, ground arith)
        ],
      ),
    )

    -- Let all the hosts that a client, with an empty jar at first, has had responses from be known.
    -- A cookie of its jar that is sent to a host was set for that same host by a known host of the
    -- same name in lower case, or its domain is matched both by a known host and by the host that
    -- it is sent to; and a secure cookie is only sent over HTTPS.
    pub receive-is_sent :
        (rs : List Response) (host path : Bytes) (is_https : Bool) (i : ℕ) (c : Cookie)
        → All (λ r. Known r.host) rs
        → get_elem? (receive rs []) i ≡ some c
        → is_sent (to_lower host) path is_https c ≡ true
        → (c.secure ≡ true → is_https ≡ true) × IsMeantFor host c
    receive-is_sent rs host path is_https i c k e =
        meant_for host path is_https c
          (All-get_elem? IsOfKnown (receive rs []) i e (receive-IsFrom rs [] k tt))
