-- ===== src/Connection/Cookies/RoundTrip/Lease.antt =====
-- How long a client keeps a cookie for which the server gave a Max-Age.
use bsrvcore.Base.{
  ℕ, ◌+◌, ◌<◌, ◌≤◌, ◌≡◌, refl, ◌∙◌, ap, Bytes, is_empty, leb, if◌then◌else◌, List, [], true, false,
  Option, none, some, arith,
}
use bsrvcore.Base.Integers.{ℤ, pos, is_positive}
use bsrvcore.Connection.Cookies.Server.{ServerSetCookie, given, cookie_to_string}
use bsrvcore.Base.Clock.{epoch, wrap, IsInRange}
use bsrvcore.Connection.Cookies.Time.{Tm, seconds}
use bsrvcore.Connection.Cookies.Jar.{
  Cookie, no_expiry_info, cleanup_expired, same_cookie, compute_and_apply_expiry, sync_set_cookie,
}
use bsrvcore.Connection.Cookies.Jar.Keys.{NoTwins, same_cookie_self, sync_set_cookie-NoTwins}
use bsrvcore.Connection.Cookies.Jar.Store.{held, fresh, synced, sync_set_cookie-held, held-cleanup}
use bsrvcore.Connection.Cookies.RoundTrip.{IsPlain}
use bsrvcore.Connection.Cookies.RoundTrip.Parsing.{
  AcceptsDomain, Reads, age_of, expires_of, received, received_expiry, filled,
  parse_set_cookie_value-computed,
}

wrap-IsInRange : (t : ℕ) → IsInRange t → wrap t ≡ t
wrap-IsInRange t h = omega (arith, h)

value-filled :
    (to_string : ℤ → Bytes) (c : ServerSetCookie)
    → IsPlain to_string c
    → is_empty (given c.value) ≡ false
value-filled to_string c h =
    ap (λ o. is_empty (given o)) h.value_given ∙ filled h.value_text h.value_clean.trim.given

module _ (to_string : ℤ → Bytes) (stoll : Bytes → Option ℤ) (get_time : Bytes → Option Tm) where
  -- The cookie in the jar.
  abbrev pub leased : Bytes → Bytes → ServerSetCookie → ℕ → Cookie
  leased host target c until = record (received to_string stoll get_time host target c) {
    expiry = some until;
  }

  same_key-leased :
      (host target : Bytes) (c : ServerSetCookie) (until : ℕ)
      → same_cookie (received to_string stoll get_time host target c) (leased host target c until)
        ≡ true
  unfolding same_cookie
  same_key-leased host target c until =
      same_cookie_self (received to_string stoll get_time host target c)

  compute-leased :
      (host target : Bytes) (c : ServerSetCookie) (n now : ℕ)
      → c.max_age ≡ some (pos n)
      → 0 < n
      → IsInRange (now + seconds n)
      → compute_and_apply_expiry now
          (received_expiry to_string stoll get_time c)
          (received to_string stoll get_time host target c)
        ≡ leased host target c (now + seconds n)
  unfolding compute_and_apply_expiry
  compute-leased host target c n now m p h =
      let d = received to_string stoll get_time host target c in
      let i = record no_expiry_info {
        expires_tp = expires_of to_string stoll get_time c.expiry none;
      } in
      let positive : is_positive (pos n) ≡ true = ground arith in
      ap (λ o. compute_and_apply_expiry now (age_of to_string stoll get_time o i) d) m
      ∙ rw positive (ap (λ t. record d { expiry = some t }) (wrap-IsInRange (now + seconds n) h))

  compute-deleted :
      (host target : Bytes) (c : ServerSetCookie) (n : ℤ) (now : ℕ)
      → c.max_age ≡ some n
      → is_positive n ≡ false
      → compute_and_apply_expiry now
          (received_expiry to_string stoll get_time c)
          (received to_string stoll get_time host target c)
        ≡ record (leased host target c epoch) { value = [] }
  unfolding compute_and_apply_expiry
  compute-deleted host target c n now m h =
      let d = received to_string stoll get_time host target c in
      let i = record no_expiry_info {
        expires_tp = expires_of to_string stoll get_time c.expiry none;
      } in
      ap (λ o. compute_and_apply_expiry now (age_of to_string stoll get_time o i) d) m ∙ rw h refl

  -- What the client's jar has under the key of a cookie once it has read the text of it.
  held-after :
      (host target : Bytes) (c : ServerSetCookie) (start now later : ℕ) (jar : List Cookie)
      (d : Cookie)
      → IsPlain to_string c
      → AcceptsDomain host c.domain
      → Reads to_string stoll get_time c.max_age
      → NoTwins jar
      → compute_and_apply_expiry now
          (received_expiry to_string stoll get_time c)
          (received to_string stoll get_time host target c)
        ≡ d
      → (k : Cookie)
      → held
          (sync_set_cookie stoll get_time host target
            (cookie_to_string to_string c)
            start
            now
            later
            jar)
          k
        ≡ synced (some d) start later k (held jar k)
  held-after host target c start now later jar d h a r n e k =
      sync_set_cookie-held stoll get_time host target (cookie_to_string to_string c) start now later
        jar k n
      ∙ ap (λ o. synced o start later k (held jar k))
          (parse_set_cookie_value-computed to_string stoll get_time host target c now h a r
            ∙ ap some e)

  -- Let a server write a cookie whose texts can be told apart, with a positive Max-Age, and a
  -- client with a jar without two cookies of one key receive it, accept its domain and read its
  -- Max-Age back. If the end of the lease is within the range of the 64-bit clock, a cleaning of
  -- the jar at any time leaves the cookie there, with that end as its expiry, if the time is before
  -- the end of the lease, and has removed it if not.
  pub cookie_to_string-held :
      (host target : Bytes) (c : ServerSetCookie) (n start now later t : ℕ) (jar : List Cookie)
      → IsPlain to_string c
      → AcceptsDomain host c.domain
      → Reads to_string stoll get_time c.max_age
      → NoTwins jar
      → c.max_age ≡ some (pos n)
      → 0 < n
      → IsInRange (now + seconds n)
      → held
          (cleanup_expired t (
            sync_set_cookie stoll get_time host target
              (cookie_to_string to_string c)
              start
              now
              later
              jar))
          (received to_string stoll get_time host target c)
        ≡ (if leb (now + seconds n) t then none else some (leased host target c (now + seconds n)))
  cookie_to_string-held host target c n start now later t jar h a r tw m p u =
      let d = leased host target c (now + seconds n) in
      let k = received to_string stoll get_time host target c in
      let text = cookie_to_string to_string c in
      let after =
        held-after host target c start now later jar d h a r tw
          (compute-leased host target c n now m p u) k in
      let full : is_empty d.value ≡ false = value-filled to_string c h in
      let same : same_cookie k d ≡ true = same_key-leased host target c (now + seconds n) in
      let stays : synced (some d) start later k (held jar k) ≡ some d = rw (full, same) refl in
      held-cleanup t k (sync_set_cookie stoll get_time host target text start now later jar)
        (sync_set_cookie-NoTwins stoll get_time host target text start now later jar tw)
      ∙ ap (fresh t) (after ∙ stays)

  -- A Max-Age that is not positive takes the cookie out of the jar.
  pub cookie_to_string-deleted :
      (host target : Bytes) (c : ServerSetCookie) (n : ℤ) (start now later : ℕ) (jar : List Cookie)
      → IsPlain to_string c
      → AcceptsDomain host c.domain
      → Reads to_string stoll get_time c.max_age
      → NoTwins jar
      → c.max_age ≡ some n
      → is_positive n ≡ false
      → epoch ≤ later
      → held
          (sync_set_cookie stoll get_time host target
            (cookie_to_string to_string c)
            start
            now
            later
            jar)
          (received to_string stoll get_time host target c)
        ≡ none
  unfolding same_cookie
  cookie_to_string-deleted host target c n start now later jar h a r tw m neg le =
      let d = record (leased host target c epoch) { value = [] } in
      let k = received to_string stoll get_time host target c in
      let after =
        held-after host target c start now later jar d h a r tw
          (compute-deleted host target c n now m neg) k in
      let same : same_cookie k d ≡ true = same_key-leased host target c epoch in
      let due : leb epoch later ≡ true = ground arith in
      let gone : synced (some d) start later k (held jar k) ≡ none = rw (due, same) refl in
      after ∙ gone
