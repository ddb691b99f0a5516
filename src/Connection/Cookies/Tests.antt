-- ===== src/Connection/Cookies/Tests.antt =====
-- Cookies at concrete hosts, headers and clocks.
use mathlib.Core.List.{Permᴰ}
use mathlib.Core.List.Permᴰ as Permᴰ
use bsrvcore.Base.{
  ℕ, zero, suc, ◌+◌, ◌-◌, ◌*◌, ◌/◌, ◌%◌, ◌≡◌, ◌≢◌, ◌↔◌, ◌⊎◌, refl, ap, subst, Bytes, codes,
  bytes_eq, find, take, drop, length, leb, ltb, ◌&&◌, if◌then◌else◌, List, [], ◌∷◌, ◌++◌, true,
  false, Option, none, some, arith, Bool-cases, inl, inr, All, is_absent-Lacks,
}
use bsrvcore.Base.Integers.{ℤ, pos, negsuc}
use bsrvcore.Connection.Text.{to_lower, trim_front, trim_back}
use bsrvcore.Base.Clock.{epoch}
use bsrvcore.Connection.Cookies.Time.{Tm, seconds, parse_imf_fixdate}
use bsrvcore.Connection.Cookies.Server.{
  ServerSetCookie, new_set_cookie, lax, cookie_to_string, strip_end, get_cookie,
  generate_cookie_pairs,
}
use bsrvcore.Connection.Cookies.Jar.{
  Cookie, CookieCandidate, cleanup_expired, normalize_domain, domain_matches, path_matches, is_sent,
  same_cookie, build_cookie_header, inject_cookies, parse_set_cookie_value, sync_set_cookie,
}
use bsrvcore.Connection.Cookies.Jar.Keys.{NoTwins}
use bsrvcore.Connection.Cookies.Jar.Matching.{
  IsSubdomain, domain_matches_iff, cookie_path, IsUnder, path_matches_iff,
}
use bsrvcore.Connection.Cookies.Jar.Store.{held, synced, sync_set_cookie-held}
use bsrvcore.Connection.Cookies.Jar.History.{Response, receive, receive-is_sent, IsMeantFor}
use bsrvcore.Connection.Cookies.Jar.Header.{
  IsDescending, lengths, IsSort, IsHeaderOf, joined, build_cookie_header-IsHeaderOf,
}
use bsrvcore.Connection.Cookies.RoundTrip.{IsPlain, IsClean-literal}
use bsrvcore.Connection.Cookies.RoundTrip.Parsing.{received}
use bsrvcore.Connection.Cookies.RoundTrip.Lease.{leased, cookie_to_string-held}
use bsrvcore.Connection.Cookies.RoundTrip.Request.{IsSendable, get_cookie-joined}

-- Decimal digits, written and read.
abbrev show : ℕ → ℕ → Bytes
show zero n = []
show (suc fuel) n =
    let front = show fuel (n / 10) in
    if ltb n 10 then (b'0' + n) ∷ [] else front ++ (b'0' + n % 10) ∷ []

abbrev to_string : ℤ → Bytes
to_string (pos n) = show 20 n
to_string (negsuc n) = b'-' ∷ show 20 (suc n)

abbrev digits : Option ℕ → Bytes → Option ℕ
digits o [] = o
digits none (c ∷ s) = if leb b'0' c && leb c b'9' then digits (some (c - b'0')) s else none
digits (some n) (c ∷ s) =
    if leb b'0' c && leb c b'9' then digits (some (n * 10 + (c - b'0'))) s else none

abbrev stoll : Bytes → Option ℤ
stoll s = elim (digits none s) [ none ↦ none | some n ↦ some (pos n) ]

abbrev number : ℕ → ℕ → Bytes → ℕ
number i n s = elim (digits none (take n (drop i s))) [ none ↦ 0 | some k ↦ k ]

-- The fields of a date at their places, with the month by its number.
abbrev get_time : Bytes → Option Tm
get_time s =
    if ltb (length s) 19
    then none
    else some (record {
      year = number 0 4 s;
      month = number 5 2 s;
      day = number 8 2 s;
      hour = number 11 2 s;
      minute = number 14 2 s;
      second = number 17 2 s;
    })

abbrev session_cookie : Cookie
session_cookie = record {
  name = codes "sid";
  value = codes "abc";
  domain = codes "example.com";
  host_only = false;
  path = codes "/app";
  secure = true;
  expiry = none;
}

-- The last date is past the clock's range, and its count wraps to one before 1970.
date_tests :
    (parse_imf_fixdate get_time (codes "1970-01-01 00:00:01") ≡ some (epoch + seconds 1))
    × (parse_imf_fixdate get_time (codes "2000-02-29 12:00:00") ≡ some (epoch + seconds 951825600))
    × (parse_imf_fixdate get_time (codes "1969-12-31 23:59:59") ≡ some (epoch - seconds 1))
    × (parse_imf_fixdate get_time (codes "2023-02-29 12:00:00") ≡ none)
    × (parse_imf_fixdate get_time (codes "9999-12-31 23:59:59")
        ≡ some (epoch - 4852116232933722624))
unfolding parse_imf_fixdate
date_tests = (refl, refl, refl, refl, refl)

-- A secure cookie for a domain, a host's own, and the deletion of the first.
abbrev history : List Response
history =
    record {
      host = codes "Shop.example.com";
      target = codes "/app/index.html?x=1";
      fields =
          record {
            value = codes "sid=abc; Domain=.Example.com; Path=/app; Secure";
            start = epoch;
            now = epoch;
            later = epoch;
          }
          ∷ record { value = codes "tmp=1; Max-Age=60"; start = epoch; now = epoch; later = epoch }
          ∷ record {
            value = codes "bad=1; Domain=other.org";
            start = epoch;
            now = epoch;
            later = epoch;
          }
          ∷ [];
    }
    ∷ []

abbrev temporary_cookie : Cookie
temporary_cookie = record {
  name = codes "tmp";
  value = codes "1";
  domain = codes "shop.example.com";
  host_only = true;
  path = codes "/app";
  secure = false;
  expiry = some (epoch + seconds 60);
}

abbrev jar : List Cookie
jar = session_cookie ∷ temporary_cookie ∷ []

history_tests :
    (receive stoll get_time history [] ≡ jar)
    × (cleanup_expired (epoch + seconds 60) jar ≡ session_cookie ∷ [])
    × (sync_set_cookie stoll get_time
          (codes "example.com")
          (codes "/")
          (codes "sid=; Domain=example.com; Path=/app; Max-Age=0")
          epoch
          epoch
          epoch
          jar
        ≡ temporary_cookie ∷ [])
    × (sync_set_cookie stoll get_time
          (codes "example.com")
          (codes "/")
          (codes "sid=new; Domain=example.com; Path=/app")
          epoch
          epoch
          epoch
          jar
        ≡ record session_cookie { value = codes "new"; secure = false } ∷ temporary_cookie ∷ [])
unfolding receive sync_set_cookie
history_tests = (refl, refl, refl, refl)

matching_tests :
    (domain_matches (codes "a.example.com") (codes "example.com") ≡ true)
    × (domain_matches (codes "badexample.com") (codes "example.com") ≡ false)
    × (path_matches (codes "/app/x") (codes "/app") ≡ true)
    × (path_matches (codes "/application") (codes "/app") ≡ false)
unfolding domain_matches path_matches
matching_tests = (refl, refl, refl, refl)

jar-NoTwins : NoTwins jar
unfolding same_cookie
jar-NoTwins = ((refl, tt), (tt, tt))

sync_set_cookie-held_example :
    held
      (sync_set_cookie stoll get_time
        (codes "example.com")
        (codes "/")
        (codes "sid=new; Domain=example.com; Path=/app")
        epoch
        epoch
        epoch
        jar)
      session_cookie
    ≡ synced
        (parse_set_cookie_value stoll get_time
          (codes "example.com")
          (codes "/")
          (codes "sid=new; Domain=example.com; Path=/app")
          epoch)
        epoch
        epoch
        session_cookie
        (held jar session_cookie)
sync_set_cookie-held_example =
    sync_set_cookie-held stoll get_time (codes "example.com") (codes "/")
      (codes "sid=new; Domain=example.com; Path=/app") epoch epoch epoch jar session_cookie
      jar-NoTwins

-- The hosts of the history.
abbrev IsShop : Bytes → Type 0
IsShop h = h ≡ codes "Shop.example.com"

receive-is_sent_example :
    (session_cookie.secure ≡ true → true ≡ true)
    × IsMeantFor stoll get_time IsShop (codes "www.example.com") session_cookie
unfolding receive is_sent
receive-is_sent_example =
    receive-is_sent stoll get_time IsShop history (codes "www.example.com") (codes "/app/x") true 0
      session_cookie (refl, tt) refl refl

-- Insertion, the longest path first.
abbrev insert : CookieCandidate → List CookieCandidate → List CookieCandidate
insert x [] = x ∷ []
insert x (y ∷ ys) = if ltb x.path_len y.path_len then y ∷ insert x ys else x ∷ y ∷ ys

abbrev sort : List CookieCandidate → List CookieCandidate
sort [] = []
sort (x ∷ xs) = insert x (sort xs)

insert-permutes : (x : CookieCandidate) (xs : List CookieCandidate) → Permᴰ (x ∷ xs) (insert x xs)
insert-permutes x [] = Permᴰ.refl (x ∷ [])
insert-permutes x (y ∷ ys) = elim (Bool-cases (ltb x.path_len y.path_len)) [
  | inl e ↦ rw e (Permᴰ.trans (Permᴰ.swap refl refl) (Permᴰ.cons refl (insert-permutes x ys)))
  | inr e ↦ rw e (Permᴰ.refl (x ∷ y ∷ ys))
]

sort-permutes : (xs : List CookieCandidate) → Permᴰ xs (sort xs)
sort-permutes [] = Permᴰ.nil
sort-permutes (x ∷ xs) =
    Permᴰ.trans (Permᴰ.cons refl (sort-permutes xs)) (insert-permutes x (sort xs))

insert-orders :
    (x : CookieCandidate) (xs : List CookieCandidate)
    → IsDescending (lengths xs)
    → IsDescending (lengths (insert x xs))
insert-orders x [] h = tt
insert-orders x (y ∷ []) h = elim (Bool-cases (ltb x.path_len y.path_len)) [
  | inl e ↦ rw e (ground arith, tt)
  | inr e ↦ rw e (ground arith, tt)
]
insert-orders x (y ∷ z ∷ ys) h = elim (Bool-cases (ltb x.path_len y.path_len)) [
  | inl e ↦ rw e (next e (insert-orders x (z ∷ ys) h.1))
  | inr e ↦ rw e (ground arith, h)
]
  where
    next :
        ltb x.path_len y.path_len ≡ true
        → IsDescending (lengths (insert x (z ∷ ys)))
        → IsDescending (lengths (y ∷ insert x (z ∷ ys)))
    next e k = elim (Bool-cases (ltb x.path_len z.path_len)) [
      | inl f ↦
          rw f (
            h.0,
            subst (λ b. IsDescending (lengths (if b then z ∷ insert x ys else x ∷ z ∷ ys))) f k,
          )
      | inr f ↦ rw f (
        ground arith,
        subst (λ b. IsDescending (lengths (if b then z ∷ insert x ys else x ∷ z ∷ ys))) f k,
      )
    ]

sort-orders : (xs : List CookieCandidate) → IsDescending (lengths (sort xs))
sort-orders [] = tt
sort-orders (x ∷ xs) = insert-orders x (sort xs) (sort-orders xs)

abbrev sort-IsSort : IsSort sort
sort-IsSort = record { permutes = sort-permutes; orders = sort-orders }

abbrev deep_cookie : Cookie
deep_cookie = record temporary_cookie { name = codes "deep"; path = codes "/app/x" }

header_tests :
    (inject_cookies sort epoch
        (codes "SHOP.example.com")
        (codes "/app/x?y")
        true
        (deep_cookie ∷ jar)
      ≡ (deep_cookie ∷ jar, some (codes "deep=1; sid=abc; tmp=1")))
    × (build_cookie_header sort (codes "shop.example.com") (codes "/app") false jar
        ≡ some (codes "tmp=1"))
unfolding inject_cookies build_cookie_header find
header_tests = (refl, refl)

build_cookie_header-IsHeaderOf_example :
    IsHeaderOf
      (is_sent (to_lower (codes "shop.example.com")) (codes "/app/x") true)
      jar
      (build_cookie_header sort (codes "shop.example.com") (codes "/app/x") true jar)
unfolding find to_lower
build_cookie_header-IsHeaderOf_example =
    build_cookie_header-IsHeaderOf sort sort-IsSort (codes "shop.example.com") (codes "/app/x") true
      jar (refl, (refl, tt))

abbrev written_cookie : ServerSetCookie
written_cookie = record new_set_cookie {
  name = some (codes "sid");
  value = some (codes "a=b");
  path = some (codes "/app");
  domain = some (codes "Example.com");
  max_age = some (pos 60);
  same_site = some lax;
  http_only = some true;
}

written_cookie-IsPlain : IsPlain to_string written_cookie
unfolding trim_front trim_back strip_end
written_cookie-IsPlain = record {
  name_text = codes "sid";
  name_given = refl;
  name_clean = IsClean-literal (codes "sid") refl refl refl refl refl;
  name_lacks = is_absent-Lacks b'=' (codes "sid") refl;
  value_text = codes "a=b";
  value_given = refl;
  value_clean = IsClean-literal (codes "a=b") refl refl refl refl refl;
  expiry_clean = tt;
  path_clean = IsClean-literal (codes "/app") refl refl refl refl refl;
  domain_clean = IsClean-literal (codes "Example.com") refl refl refl refl refl;
  age_clean = IsClean-literal (codes "60") refl refl refl refl refl;
}

text_test :
    cookie_to_string to_string written_cookie
    ≡ codes "sid=a=b; Path=/app; Domain=Example.com; Max-Age=60; SameSite=Lax; HttpOnly"
unfolding cookie_to_string
text_test = refl

jar-IsSendable : All IsSendable jar
unfolding trim_front trim_back strip_end
jar-IsSendable = (
  record {
    name_clean = IsClean-literal (codes "sid") refl refl refl refl refl;
    name_lacks = is_absent-Lacks b'=' (codes "sid") refl;
    value_clean = IsClean-literal (codes "abc") refl refl refl refl refl;
  },
  (
    record {
      name_clean = IsClean-literal (codes "tmp") refl refl refl refl refl;
      name_lacks = is_absent-Lacks b'=' (codes "tmp") refl;
      value_clean = IsClean-literal (codes "1") refl refl refl refl refl;
    },
    tt,
  ),
)

tmp-ne-sid : codes "tmp" ≢ codes "sid"
unfolding bytes_eq
tmp-ne-sid e = let f : false ≡ true = ap (λ s. bytes_eq s (codes "sid")) e in cc

get_cookie-joined_example :
    get_cookie (codes "sid") (generate_cookie_pairs (joined jar)) ≡ codes "abc"
get_cookie-joined_example =
    get_cookie-joined jar 0 session_cookie jar-IsSendable refl (tmp-ne-sid, tt)

cookie_to_string-held_example :
    held
      (cleanup_expired (epoch + seconds 59) (
        sync_set_cookie stoll get_time
          (codes "example.com")
          (codes "/")
          (cookie_to_string to_string written_cookie)
          epoch
          epoch
          epoch
          jar))
      (received to_string stoll get_time (codes "example.com") (codes "/") written_cookie)
    ≡ some (
        leased to_string stoll get_time
          (codes "example.com")
          (codes "/")
          written_cookie
          (epoch + seconds 60))
unfolding normalize_domain domain_matches
cookie_to_string-held_example =
    cookie_to_string-held to_string stoll get_time (codes "example.com") (codes "/") written_cookie
      60 epoch epoch epoch (epoch + seconds 59) jar written_cookie-IsPlain (refl, refl) refl
      jar-NoTwins refl (ground arith) (ground arith)

domain_matches_iff_example :
    (domain_matches (codes "www.example.com") (codes "example.com") ≡ true) ↔ (
      (codes "www.example.com" ≡ codes "example.com")
      ⊎ IsSubdomain (codes "www.example.com") (codes "example.com"))
domain_matches_iff_example = domain_matches_iff (codes "www.example.com") (codes "example.com")

path_matches_iff_example :
    (path_matches (codes "/a/b") (codes "/a") ≡ true)
    ↔ ((cookie_path (codes "/a") ≡ codes "/") ⊎ IsUnder (codes "/a/b") (cookie_path (codes "/a")))
path_matches_iff_example = path_matches_iff (codes "/a/b") (codes "/a")
