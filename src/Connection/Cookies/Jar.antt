-- ===== src/Connection/Cookies/Jar.antt =====
-- SessionRequestAssembler of src/connection/client/request_assembler.cc: the cookies that a client
-- keeps. A call holds the lock; its readings of the clock are arguments, in their order.
-- `std::stoll` and `std::get_time` are parameters, and so is `std::ranges::sort`.
pub mod Matching
pub mod Keys
pub mod Store
pub mod Origin
pub mod History
pub mod Header
use bsrvcore.Base.{
  ℕ, zero, suc, ◌+◌, ◌-◌, Bytes, codes, is_empty, bytes_eq, find, upto, take, drop, length,
  get_elem?, ◌==◌, leb, ltb, ◌&&◌, ◌||◌, not, if◌then◌else◌, List, [], ◌∷◌, ◌++◌, Bool, true, false,
  Option, none, some,
}
use bsrvcore.Base.Integers.{ℤ, pos, negsuc, is_positive}
use bsrvcore.Route.Segments.{front_is, back_is}
use bsrvcore.Connection.Text.{trim_view, to_lower, i_equals, split_once, split_set_cookie_tokens}
use bsrvcore.Base.Clock.{epoch, wrap}
use bsrvcore.Connection.Cookies.Time.{seconds, Tm, parse_imf_fixdate}

pub record Cookie : Type 0 where
  pub name : Bytes
  pub value : Bytes
  pub domain : Bytes
  pub host_only : Bool
  pub path : Bytes
  pub secure : Bool
  pub expiry : Option ℕ

pub record CookieExpiryInfo : Type 0 where
  pub has_max_age : Bool
  pub max_age_valid : Bool
  pub max_age_secs : ℤ
  pub expires_tp : Option ℕ

abbrev pub no_expiry_info : CookieExpiryInfo
no_expiry_info = record {
  has_max_age = false;
  max_age_valid = false;
  max_age_secs = pos 0;
  expires_tp = none;
}

abbrev pub has_passed : ℕ → Option ℕ → Bool
has_passed now none = false
has_passed now (some expiry) = leb expiry now

-- `std::erase_if`.
unfoldable pub erase_if : (Cookie → Bool) → List Cookie → List Cookie
erase_if p [] = []
erase_if p (c ∷ cs) = let rest = erase_if p cs in if p c then rest else c ∷ rest

abbrev pub cleanup_expired : ℕ → List Cookie → List Cookie
cleanup_expired now = erase_if (λ c. has_passed now c.expiry)

-- `NormalizeHost` is `to_lower`.
unfoldable pub normalize_domain : Bytes → Bytes
unfolding trim_view to_lower
normalize_domain domain =
    let trimmed = trim_view domain in
    to_lower (if front_is b'.' trimmed then drop 1 trimmed else trimmed)

-- `path.substr(0, path.find_last_of('/'))`, and nothing where there is no '/'.
unfoldable pub before_last_slash : Bytes → Bytes
before_last_slash [] = []
before_last_slash (c ∷ s) = elim (find b'/' s) [ none ↦ [] | some k ↦ c ∷ before_last_slash s ]

unfoldable pub default_path_from_target : Bytes → Bytes
unfolding before_last_slash find
default_path_from_target target =
    let path = upto (find b'?' target) target in
    if not (front_is b'/' path)
    then codes "/"
    else (if is_empty (before_last_slash path) then codes "/" else before_last_slash path)

unfoldable pub domain_matches : Bytes → Bytes → Bool
unfolding bytes_eq
domain_matches host domain =
    let offset = length host - length domain in
    if bytes_eq host domain
    then true
    else (if leb (length host) (length domain)
        then false
        else bytes_eq (drop offset host) domain && front_is b'.' (drop (offset - 1) host))

abbrev pub starts_with : Bytes → Bytes → Bool
starts_with s [] = true
starts_with [] (_ ∷ _) = false
starts_with (a ∷ s) (b ∷ t) = (a == b) && starts_with s t

unfoldable pub path_matches : Bytes → Bytes → Bool
unfolding bytes_eq
path_matches request_path given_path =
    let cookie_path = if front_is b'/' given_path then given_path else codes "/" in
    if bytes_eq cookie_path (codes "/")
    then true
    else (if not (starts_with request_path cookie_path)
        then false
        else (if length request_path == length cookie_path
            then true
            else (back_is b'/' cookie_path
                || front_is b'/' (drop (length cookie_path) request_path))))

-- The tests of the loop of `CollectMatchingCookiesLocked`.
unfoldable pub is_sent : Bytes → Bytes → Bool → Cookie → Bool
unfolding domain_matches path_matches bytes_eq
is_sent host_norm request_path is_https c =
    if c.secure && not is_https
    then false
    else ((if c.host_only then bytes_eq host_norm c.domain else domain_matches host_norm c.domain)
        && path_matches request_path c.path)

pub record CookieCandidate : Type 0 where
  pub index : ℕ
  pub path_len : ℕ

-- The loop, from the index `i` on.
unfoldable pub collect_from : (Cookie → Bool) → ℕ → List Cookie → List CookieCandidate
collect_from p i [] = []
collect_from p i (c ∷ cs) =
    let rest = collect_from p (suc i) cs in
    if p c then record { index = i; path_len = length c.path } ∷ rest else rest

unfoldable pub collect_matching_cookies : Bytes → Bytes → Bool → List Cookie → List CookieCandidate
unfolding collect_from is_sent
collect_matching_cookies host_norm request_path is_https cookies =
    collect_from (is_sent host_norm request_path is_https) 0 cookies

-- One round of the loop of `SerializeCookieCandidates`; `none` is an index out of range.
abbrev pub append_cookie : Bytes → Cookie → Bytes
append_cookie out c =
    if is_empty c.name
    then out
    else (if is_empty out then out else out ++ codes "; ") ++ (c.name ++ b'=' ∷ c.value)

unfoldable pub serialize_cookie_candidates :
    List Cookie → Bytes → List CookieCandidate → Option Bytes
serialize_cookie_candidates cookies out [] = some out
serialize_cookie_candidates cookies out (candidate ∷ candidates) =
    elim (get_elem? cookies candidate.index) [
      | none ↦ none
      | some c ↦ serialize_cookie_candidates cookies (append_cookie out c) candidates
    ]

-- The comparison of name, domain, `host_only` and path.
abbrev pub bool_eq : Bool → Bool → Bool
bool_eq true b = b
bool_eq false b = not b

unfoldable pub same_cookie : Cookie → Cookie → Bool
unfolding bytes_eq
same_cookie incoming c =
    bytes_eq c.name incoming.name
    && (bytes_eq c.domain incoming.domain
        && (bool_eq c.host_only incoming.host_only && bytes_eq c.path incoming.path))

unfoldable pub upsert_cookie : Cookie → List Cookie → List Cookie
upsert_cookie incoming [] = incoming ∷ []
upsert_cookie incoming (c ∷ cs) =
    if same_cookie incoming c
    then record c { value = incoming.value; secure = incoming.secure; expiry = incoming.expiry }
      ∷ cs
    else c ∷ upsert_cookie incoming cs

abbrev pub keep_cookie : ℕ → Cookie → List Cookie → List Cookie
keep_cookie later cookie cookies =
    if is_empty cookie.value && has_passed later cookie.expiry
    then erase_if (same_cookie cookie) cookies
    else upsert_cookie cookie cookies

module _ (sort : List CookieCandidate → List CookieCandidate) where
  -- `BuildCookieHeaderLocked`.
  unfoldable pub build_cookie_header : Bytes → Bytes → Bool → List Cookie → Option Bytes
  unfolding collect_matching_cookies serialize_cookie_candidates to_lower
  build_cookie_header host target is_https cookies =
      let candidates =
        collect_matching_cookies (to_lower host) (upto (find b'?' target) target) is_https
          cookies in
      if is_empty candidates
      then some []
      else serialize_cookie_candidates cookies [] (sort candidates)

  -- The part of `MaybeInjectCookies` under the lock: the cookies that are left, and the header.
  unfoldable pub inject_cookies :
      ℕ → Bytes → Bytes → Bool → List Cookie → List Cookie × Option Bytes
  unfolding build_cookie_header erase_if
  inject_cookies now host target is_https cookies =
      let left = cleanup_expired now cookies in
      (left, build_cookie_header host target is_https left)

abbrev pub with_max_age : Option ℤ → CookieExpiryInfo → CookieExpiryInfo
with_max_age none info = record info { has_max_age = true; max_age_valid = false }
with_max_age (some secs) info = record info {
  has_max_age = true;
  max_age_valid = true;
  max_age_secs = secs;
}

abbrev pub secs_of : ℤ → ℕ
secs_of (pos n) = n
secs_of (negsuc n) = 0

-- `ComputeAndApplyExpiry`; its caller returns the cookie whatever it returns.
unfoldable pub compute_and_apply_expiry : ℕ → CookieExpiryInfo → Cookie → Cookie
compute_and_apply_expiry now expiry cookie =
    if expiry.has_max_age && expiry.max_age_valid
    then (if is_positive expiry.max_age_secs
        then record cookie { expiry = some (wrap (now + seconds (secs_of expiry.max_age_secs))) }
        else record cookie { value = []; expiry = some epoch })
    else elim expiry.expires_tp [
      | none ↦ cookie
      | some tp ↦ record cookie {
        expiry = some tp;
        value = if leb tp now then [] else cookie.value;
      }
    ]

module _ (stoll : Bytes → Option ℤ) (get_time : Bytes → Option Tm) where
  -- `ApplySetCookieAttribute`; `none` is `return false`, upon which the cookie is dropped.
  unfoldable pub apply_set_cookie_attribute :
      Bytes → Bytes → Bytes → Cookie × CookieExpiryInfo → Option (Cookie × CookieExpiryInfo)
  unfolding i_equals normalize_domain domain_matches parse_imf_fixdate
  apply_set_cookie_attribute key value host_norm (cookie, expiry) =
      let dom = normalize_domain value in
      if i_equals key (codes "Secure")
      then some (record cookie { secure = true }, expiry)
      else (if i_equals key (codes "HttpOnly") || i_equals key (codes "SameSite")
          then some (cookie, expiry)
          else (if i_equals key (codes "Domain")
              then (if not (is_empty dom) && domain_matches host_norm dom
                  then some (record cookie { domain = dom; host_only = false }, expiry)
                  else none)
              else (if i_equals key (codes "Path")
                  then some (
                    if front_is b'/' value then record cookie { path = value } else cookie,
                    expiry,
                  )
                  else (if i_equals key (codes "Max-Age")
                      then some (cookie, with_max_age (stoll value) expiry)
                      else (if i_equals key (codes "Expires")
                          then some (
                            cookie,
                            record expiry { expires_tp = parse_imf_fixdate get_time value },
                          )
                          else some (cookie, expiry))))))

  -- The loop over the tokens after the first.
  unfoldable pub apply_attributes :
      Bytes → List Bytes → Cookie × CookieExpiryInfo → Option (Cookie × CookieExpiryInfo)
  unfolding apply_set_cookie_attribute trim_view split_once
  apply_attributes host_norm [] r = some r
  apply_attributes host_norm (token ∷ tokens) r =
      let (k, v) = split_once b'=' token in
      elim (is_empty token) [
        | true ↦ apply_attributes host_norm tokens r
        | false ↦ elim (apply_set_cookie_attribute (trim_view k) (trim_view v) host_norm r) [
          | none ↦ none
          | some r' ↦ apply_attributes host_norm tokens r'
        ]
      ]

  -- `ParseSetCookieValue`, of the trimmed value.
  unfoldable pub parse_tokens : Bytes → Bytes → ℕ → List Bytes → Option Cookie
  unfolding apply_attributes compute_and_apply_expiry trim_view split_once default_path_from_target
      to_lower
  parse_tokens host target now [] = none
  parse_tokens host target now (first ∷ tokens) =
      let (nv_name, nv_value) = split_once b'=' first in
      let cookie : Cookie = record {
        name = trim_view nv_name;
        value = trim_view nv_value;
        domain = to_lower host;
        host_only = true;
        path = default_path_from_target target;
        secure = false;
        expiry = none;
      } in
      if is_empty first || is_empty (trim_view nv_name)
      then none
      else elim (apply_attributes (to_lower host) tokens (cookie, no_expiry_info)) [
        | none ↦ none
        | some (c, expiry) ↦ some (compute_and_apply_expiry now expiry c)
      ]

  unfoldable pub parse_set_cookie_value : Bytes → Bytes → Bytes → ℕ → Option Cookie
  unfolding parse_tokens split_set_cookie_tokens trim_view
  parse_set_cookie_value host target value now =
      if is_empty (trim_view value)
      then none
      else parse_tokens host target now (split_set_cookie_tokens (trim_view value))

  -- `SyncSetCookie`: `start` is the reading of the cleanup, `now` of the parsing, `later` of the
  -- test for a deletion.
  unfoldable pub sync_set_cookie : Bytes → Bytes → Bytes → ℕ → ℕ → ℕ → List Cookie → List Cookie
  unfolding parse_set_cookie_value erase_if upsert_cookie same_cookie
  sync_set_cookie host target value start now later cookies =
      let left = cleanup_expired start cookies in
      elim (parse_set_cookie_value host target value now) [
        | none ↦ left
        | some cookie ↦ keep_cookie later cookie left
      ]

-- A Set-Cookie field and the readings of the clock while `SyncSetCookie` runs on it.
pub record SetCookieField : Type 0 where
  pub value : Bytes
  pub start : ℕ
  pub now : ℕ
  pub later : ℕ

module _ (stoll : Bytes → Option ℤ) (get_time : Bytes → Option Tm) where
  -- `SessionRequestAssembler::OnResponseHeader`, of the header's Set-Cookie fields.
  unfoldable pub on_response_header :
      Bytes → Bytes → List SetCookieField → List Cookie → List Cookie
  unfolding sync_set_cookie
  on_response_header host target [] cookies = cookies
  on_response_header host target (f ∷ fields) cookies =
      on_response_header host target fields
        (sync_set_cookie stoll get_time host target f.value f.start f.now f.later cookies)

abbrev pub clear_cookies : List Cookie → List Cookie
clear_cookies cookies = []

abbrev pub cookie_count : ℕ → List Cookie → ℕ
cookie_count now cookies = length (cleanup_expired now cookies)
