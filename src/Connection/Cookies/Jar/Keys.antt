-- ===== src/Connection/Cookies/Jar/Keys.antt =====
-- The jar as a map from keys: a cookie's key is its name, domain, `host_only` and path.
use bsrvcore.Base.{
  ℕ, ◌≡◌, refl, sym, ◌∙◌, Bytes, is_empty, bytes_eq, bytes_eq_refl, ◌&&◌, List, [], ◌∷◌, Bool, true,
  false, Option, none, some, arith, Bool-cases, inl, inr, All,
}
use bsrvcore.Base.Integers.{ℤ}
use bsrvcore.Connection.Cookies.Time.{Tm}
use bsrvcore.Connection.Cookies.Jar.{
  Cookie, bool_eq, same_cookie, upsert_cookie, erase_if, has_passed, cleanup_expired, keep_cookie,
  parse_set_cookie_value, sync_set_cookie,
}

-- No two cookies of the jar have one key.
abbrev pub NoTwins : List Cookie → Type 0
NoTwins [] = Unit {0}
NoTwins (c ∷ cs) = All (λ d. same_cookie c d ≡ false) cs × NoTwins cs

bytes_eq_comm : (s t : Bytes) → bytes_eq s t ≡ bytes_eq t s
unfolding bytes_eq
bytes_eq_comm [] [] = refl
bytes_eq_comm [] (b ∷ t) = refl
bytes_eq_comm (a ∷ s) [] = refl
bytes_eq_comm (a ∷ s) (b ∷ t) = let e = bytes_eq_comm s t in ground (arith, e)

bool_eq_comm : (a b : Bool) → bool_eq a b ≡ bool_eq b a
bool_eq_comm true true = refl
bool_eq_comm true false = refl
bool_eq_comm false true = refl
bool_eq_comm false false = refl

pub same_cookie_comm : (c d : Cookie) → same_cookie c d ≡ same_cookie d c
unfolding same_cookie
same_cookie_comm c d =
    rw
      (
        bytes_eq_comm d.name c.name,
        bytes_eq_comm d.domain c.domain,
        bool_eq_comm c.host_only d.host_only,
        bytes_eq_comm d.path c.path,
      )
      refl

pub same_cookie_self : (c : Cookie) → same_cookie c c ≡ true
unfolding same_cookie
same_cookie_self c =
    rw (bytes_eq_refl c.name, bytes_eq_refl c.domain, bytes_eq_refl c.path) (self c.host_only)
  where
    self : (b : Bool) → (bool_eq b b && true) ≡ true
    self true = refl
    self false = refl

-- A predicate that a cookie's key decides holds of what stays and of what is put in.
module _ {ℓ} (P : Cookie → Type ℓ) where
  pub erase_if-All : (p : Cookie → Bool) (cs : List Cookie) → All P cs → All P (erase_if p cs)
  unfolding erase_if
  erase_if-All p [] h = tt
  erase_if-All p (c ∷ cs) h = elim (Bool-cases (p c)) [
    | inl e ↦ rw e (erase_if-All p cs h.1)
    | inr e ↦ rw e (h.0, erase_if-All p cs h.1)
  ]

  pub upsert_cookie-All :
      (incoming : Cookie) (cs : List Cookie)
      → P incoming
      → ((c : Cookie)
          → P c
          → P (record c {
            value = incoming.value;
            secure = incoming.secure;
            expiry = incoming.expiry;
          }))
      → All P cs
      → All P (upsert_cookie incoming cs)
  unfolding upsert_cookie
  upsert_cookie-All incoming [] h k a = (h, tt)
  upsert_cookie-All incoming (c ∷ cs) h k a = elim (Bool-cases (same_cookie incoming c)) [
    | inl e ↦ rw e (k c a.0, a.1)
    | inr e ↦ rw e (a.0, upsert_cookie-All incoming cs h k a.1)
  ]

pub erase_if-NoTwins : (p : Cookie → Bool) (cs : List Cookie) → NoTwins cs → NoTwins (erase_if p cs)
unfolding erase_if
erase_if-NoTwins p [] h = tt
erase_if-NoTwins p (c ∷ cs) h = elim (Bool-cases (p c)) [
  | inl e ↦ rw e (erase_if-NoTwins p cs h.1)
  | inr e ↦ rw e (erase_if-All (λ d. same_cookie c d ≡ false) p cs h.0, erase_if-NoTwins p cs h.1)
]

pub upsert_cookie-NoTwins :
    (incoming : Cookie) (cs : List Cookie) → NoTwins cs → NoTwins (upsert_cookie incoming cs)
unfolding upsert_cookie same_cookie
upsert_cookie-NoTwins incoming [] h = (tt, tt)
upsert_cookie-NoTwins incoming (c ∷ cs) h = elim (Bool-cases (same_cookie incoming c)) [
  | inl e ↦ rw e (h.0, h.1)
  | inr e ↦ rw e (
    upsert_cookie-All (λ d. same_cookie c d ≡ false) incoming cs
        (sym (same_cookie_comm incoming c) ∙ e) (λ d k. k) h.0,
    upsert_cookie-NoTwins incoming cs h.1,
  )
]

pub keep_cookie-NoTwins :
    (later : ℕ) (cookie : Cookie) (cs : List Cookie)
    → NoTwins cs
    → NoTwins (keep_cookie later cookie cs)
keep_cookie-NoTwins later cookie cs h =
    elim (Bool-cases (is_empty cookie.value && has_passed later cookie.expiry)) [
      | inl e ↦ rw e (erase_if-NoTwins (same_cookie cookie) cs h)
      | inr e ↦ rw e (upsert_cookie-NoTwins cookie cs h)
    ]

module _ (stoll : Bytes → Option ℤ) (get_time : Bytes → Option Tm) where
  -- The jar never holds two cookies of one key.
  pub sync_set_cookie-NoTwins :
      (host target value : Bytes) (start now later : ℕ) (cookies : List Cookie)
      → NoTwins cookies
      → NoTwins (sync_set_cookie stoll get_time host target value start now later cookies)
  unfolding sync_set_cookie
  sync_set_cookie-NoTwins host target value start now later cookies h =
      go (parse_set_cookie_value stoll get_time host target value now)
    where
      left : NoTwins (cleanup_expired start cookies)
      left = erase_if-NoTwins (λ c. has_passed start c.expiry) cookies h

      go :
          (parsed : Option Cookie)
          → NoTwins (elim parsed [
            | none ↦ cleanup_expired start cookies
            | some c ↦ keep_cookie later c (cleanup_expired start cookies)
          ])
      go none = left
      go (some c) = keep_cookie-NoTwins later c (cleanup_expired start cookies) left
