-- ===== src/Connection/Cookies/Jar/Store.antt =====
-- What the jar promises: a map from keys to cookies, whose operations are these of a map.
use bsrvcore.Base.{
  ℕ, ◌≡◌, refl, sym, ◌∙◌, ap, Bytes, is_empty, eq_of_bytes_eq, ◌&&◌, if◌then◌else◌, List, [], ◌∷◌,
  Bool, true, false, Option, none, some, arith, Bool-cases, inl, inr, All,
}
use bsrvcore.Base.Integers.{ℤ}
use bsrvcore.Connection.Cookies.Time.{Tm}
use bsrvcore.Connection.Cookies.Jar.{
  Cookie, bool_eq, same_cookie, upsert_cookie, erase_if, has_passed, cleanup_expired, keep_cookie,
  parse_set_cookie_value, sync_set_cookie,
}
use bsrvcore.Connection.Cookies.Jar.Keys.{NoTwins, same_cookie_comm}

-- The map that a jar stands for: the cookie that has the key of `k`, if there is one.
abbrev pub held : List Cookie → Cookie → Option Cookie
held [] k = none
held (c ∷ cs) k = if same_cookie k c then some c else held cs k

-- The operations of the map, at one key.
abbrev pub fresh : ℕ → Option Cookie → Option Cookie
fresh now none = none
fresh now (some c) = if has_passed now c.expiry then none else some c

abbrev pub put : Cookie → Cookie → Option Cookie → Option Cookie
put c k old = if same_cookie k c then some c else old

abbrev pub remove : Cookie → Cookie → Option Cookie → Option Cookie
remove c k old = if same_cookie k c then none else old

-- The fields that two cookies of one key share.
record SameKey (a b : Cookie) : Type 0 where
  name_eq : b.name ≡ a.name
  domain_eq : b.domain ≡ a.domain
  host_only_eq : b.host_only ≡ a.host_only
  path_eq : b.path ≡ a.path

eq_of_bool_eq : (a b : Bool) → bool_eq a b ≡ true → a ≡ b
eq_of_bool_eq true true h = refl
eq_of_bool_eq true false h = cc
eq_of_bool_eq false true h = cc
eq_of_bool_eq false false h = refl

same_cookie-SameKey : (a b : Cookie) → same_cookie a b ≡ true → SameKey a b
unfolding same_cookie
same_cookie-SameKey a b h = record {
  name_eq = eq_of_bytes_eq b.name a.name (ground arith);
  domain_eq = eq_of_bytes_eq b.domain a.domain (ground arith);
  host_only_eq = sym (eq_of_bool_eq a.host_only b.host_only (ground arith));
  path_eq = eq_of_bytes_eq b.path a.path (ground arith);
}

same_key : (a b c : Cookie) → same_cookie a b ≡ true → same_cookie b c ≡ same_cookie a c
unfolding same_cookie
same_key a b c h =
    let k = same_cookie-SameKey a b h in rw (k.name_eq, k.domain_eq, k.host_only_eq, k.path_eq) refl

updated : Cookie → Cookie → Cookie
updated c d = record d { value = c.value; secure = c.secure; expiry = c.expiry }

updated-same : (c d : Cookie) → same_cookie c d ≡ true → updated c d ≡ c
unfolding updated
updated-same c d h =
    let k = same_cookie-SameKey c d h in
    λ i. record c {
      name = k.name_eq i;
      domain = k.domain_eq i;
      host_only = k.host_only_eq i;
      path = k.path_eq i;
    }

held-upsert : (c k : Cookie) (cs : List Cookie) → held (upsert_cookie c cs) k ≡ put c k (held cs k)
unfolding upsert_cookie updated
held-upsert c k [] = refl
held-upsert c k (d ∷ cs) = elim (Bool-cases (same_cookie c d)) [
  | inl e ↦
      let key : same_cookie k d ≡ same_cookie k c =
        same_cookie_comm k d ∙ same_key c d k e ∙ same_cookie_comm c k in
      let all : updated c d ≡ c = updated-same c d e in
      rw e (ap (λ x. held (x ∷ cs) k) all ∙ first key)
  | inr e ↦ rw e (elim (Bool-cases (same_cookie k d)) [
    | inl f ↦
        let g : same_cookie k c ≡ false = sym (same_key k d c f) ∙ same_cookie_comm d c ∙ e in
        rw (f, g) refl
    | inr f ↦ rw (f, held-upsert c k cs) refl
  ])
]
  where
    first : same_cookie k d ≡ same_cookie k c → held (c ∷ cs) k ≡ put c k (held (d ∷ cs) k)
    first e = elim (Bool-cases (same_cookie k c)) [ inl f ↦ rw f refl | inr f ↦ rw (f, e ∙ f) refl ]

held-erase_same :
    (c k : Cookie) (cs : List Cookie)
    → held (erase_if (same_cookie c) cs) k ≡ remove c k (held cs k)
unfolding erase_if
held-erase_same c k [] = elim (Bool-cases (same_cookie k c)) [
  | inl e ↦ rw e refl
  | inr e ↦ rw e refl
]
held-erase_same c k (d ∷ cs) = elim (Bool-cases (same_cookie c d)) [
  | inl e ↦
      let key : same_cookie k d ≡ same_cookie k c =
        same_cookie_comm k d ∙ same_key c d k e ∙ same_cookie_comm c k in
      rw (e, held-erase_same c k cs)
        (elim (Bool-cases (same_cookie k c)) [ inl f ↦ rw f refl | inr f ↦ rw (f, key ∙ f) refl ])
  | inr e ↦ rw e (elim (Bool-cases (same_cookie k d)) [
    | inl f ↦
        let g : same_cookie k c ≡ false = sym (same_key k d c f) ∙ same_cookie_comm d c ∙ e in
        rw (f, g) refl
    | inr f ↦ rw (f, held-erase_same c k cs) refl
  ])
]

-- A key that no cookie has is not held.
held-none :
    (k d : Cookie) (cs : List Cookie)
    → same_cookie k d ≡ true
    → All (λ c. same_cookie d c ≡ false) cs
    → held cs k ≡ none
held-none k d [] h a = refl
held-none k d (c ∷ cs) h a = rw (sym (same_key k d c h) ∙ a.0, held-none k d cs h a.1) refl

pub held-cleanup :
    (now : ℕ) (k : Cookie) (cs : List Cookie)
    → NoTwins cs
    → held (cleanup_expired now cs) k ≡ fresh now (held cs k)
unfolding erase_if
held-cleanup now k [] h = refl
held-cleanup now k (c ∷ cs) h = elim (Bool-cases (has_passed now c.expiry)) [
  | inl e ↦
      rw (e, held-cleanup now k cs h.1)
        (elim (Bool-cases (same_cookie k c)) [
          | inl f ↦ rw (f, held-none k c cs f h.0, e) refl
          | inr f ↦ rw f refl
        ])
  | inr e ↦ rw e (elim (Bool-cases (same_cookie k c)) [
    | inl f ↦ rw (f, e) refl
    | inr f ↦ rw (f, held-cleanup now k cs h.1) refl
  ])
]

-- The map after a Set-Cookie: what has expired at `start` is gone, and then the parsed cookie is
-- put in, or taken out where it asks for its deletion.
abbrev pub synced : Option Cookie → ℕ → ℕ → Cookie → Option Cookie → Option Cookie
synced none start later k old = fresh start old
synced (some c) start later k old =
    if is_empty c.value && has_passed later c.expiry
    then remove c k (fresh start old)
    else put c k (fresh start old)

module _ (stoll : Bytes → Option ℤ) (get_time : Bytes → Option Tm) where
  -- In a jar without two cookies of one key (name, domain, `host_only` and path), `SyncSetCookie`
  -- does at every key what it means for a map: what has expired is gone, and then the parsed cookie
  -- is put under its key, or taken out where its value is empty and its expiry has passed, or
  -- nothing more is done where the text is refused.
  pub sync_set_cookie-held :
      (host target value : Bytes) (start now later : ℕ) (cookies : List Cookie) (k : Cookie)
      → NoTwins cookies
      → held (sync_set_cookie stoll get_time host target value start now later cookies) k
        ≡ synced
            (parse_set_cookie_value stoll get_time host target value now)
            start
            later
            k
            (held cookies k)
  unfolding sync_set_cookie
  sync_set_cookie-held host target value start now later cookies k h =
      go (parse_set_cookie_value stoll get_time host target value now)
    where
      kept : held (cleanup_expired start cookies) k ≡ fresh start (held cookies k)
      kept = held-cleanup start k cookies h

      go :
          (parsed : Option Cookie)
          → held
              (elim parsed [
                | none ↦ cleanup_expired start cookies
                | some c ↦ keep_cookie later c (cleanup_expired start cookies)
              ])
              k
            ≡ synced parsed start later k (held cookies k)
      go none = kept
      go (some c) = elim (Bool-cases (is_empty c.value && has_passed later c.expiry)) [
        | inl e ↦ rw (e, held-erase_same c k (cleanup_expired start cookies), kept) refl
        | inr e ↦ rw (e, held-upsert c k (cleanup_expired start cookies), kept) refl
      ]
