-- ===== src/Connection/Cookies/Server.antt =====
-- src/connection/server/server_set_cookie.cc, and the reading of a Cookie header in
-- src/connection/include/internal/server/http_server_task_detail.h and
-- src/connection/server/http_server_task_base.cc.
use bsrvcore.Base.{
  ℕ, suc, Bytes, codes, is_empty, bytes_eq, find, take, drop, length, ◌==◌, leb, ◌&&◌, ◌||◌,
  if◌then◌else◌, List, [], ◌∷◌, ◌++◌, Bool, true, false, Option, none, some,
}
use bsrvcore.Base.Integers.{ℤ}
use bsrvcore.Route.Segments.{front_is, back_is}
use bsrvcore.Route.Mount.{pop_back}
use bsrvcore.Connection.Text.{trim_view}

pub data SameSite : Type 0 where
  strict lax no_restriction : SameSite

pub record ServerSetCookie : Type 0 where
  pub name : Option Bytes
  pub value : Option Bytes
  pub expiry : Option Bytes
  pub path : Option Bytes
  pub domain : Option Bytes
  pub max_age : Option ℤ
  pub same_site : Option SameSite
  pub secure : Option Bool
  pub http_only : Option Bool

abbrev pub new_set_cookie : ServerSetCookie
new_set_cookie = record {
  name = none;
  value = none;
  expiry = none;
  path = none;
  domain = none;
  max_age = none;
  same_site = none;
  secure = none;
  http_only = none;
}

abbrev pub given : Option Bytes → Bytes
given none = []
given (some s) = s

-- ` Key=`, a text and a `;`.
abbrev pub tagged : Bytes → Bytes → Bytes
tagged key s = b' ' ∷ (key ++ b'=' ∷ (s ++ b';' ∷ []))

-- An attribute that is written if it has a text that is not empty, and one that always is.
abbrev pub attribute : Bytes → Option Bytes → Bytes
attribute key none = []
attribute key (some s) = if is_empty s then [] else tagged key s

abbrev pub always : Bytes → Option Bytes → Bytes
always key none = []
always key (some s) = tagged key s

abbrev pub same_site_name : SameSite → Bytes
same_site_name strict = codes "Strict"
same_site_name lax = codes "Lax"
same_site_name no_restriction = codes "None"

abbrev pub same_site_text : Option SameSite → Option Bytes
same_site_text none = none
same_site_text (some s) = some (same_site_name s)

abbrev pub is_none_site : Option SameSite → Bool
is_none_site (some no_restriction) = true
is_none_site (some strict) = false
is_none_site (some lax) = false
is_none_site none = false

abbrev pub is_set : Option Bool → Bool
is_set none = false
is_set (some b) = b

-- The last loop: blanks and `;` go off the end; `std::isspace` of an ASCII byte.
abbrev pub is_space_or_semi : ℕ → Bool
is_space_or_semi c = c == b' ' || ((leb 9 c && leb c 13) || c == b';')

unfoldable pub strip_end : Bytes → Bytes
strip_end [] = []
strip_end (c ∷ s) =
    let rest = strip_end s in if is_empty rest && is_space_or_semi c then [] else c ∷ rest

-- `std::to_string` of an `int64_t` is a parameter.
module _ (to_string : ℤ → Bytes) where
  abbrev pub max_age_text : Option ℤ → Option Bytes
  max_age_text none = none
  max_age_text (some n) = some (to_string n)

  -- The text before the last loop.
  abbrev pub attributes : ServerSetCookie → Bytes
  attributes c =
      attribute (codes "Expires") c.expiry
      ++ (attribute (codes "Path") c.path
          ++ (attribute (codes "Domain") c.domain
              ++ (always (codes "Max-Age") (max_age_text c.max_age)
                  ++ (always (codes "SameSite") (same_site_text c.same_site)
                      ++ ((if is_none_site c.same_site || is_set c.secure
                            then codes " Secure;"
                            else [])
                          ++ (if is_set c.http_only then codes " HttpOnly;" else []))))))

  -- `ServerSetCookie::ToString`.
  unfoldable pub cookie_to_string : ServerSetCookie → Bytes
  unfolding strip_end
  cookie_to_string c =
      if is_empty (given c.name) || is_empty (given c.value)
      then []
      else strip_end (given c.name ++ b'=' ∷ (given c.value ++ b';' ∷ attributes c))

-- `views::split(';')`, trimmed: unlike `SplitSetCookieTokens`, a text that is not empty and ends in
-- a separator has a last, empty token.
unfoldable pub split_cookie_header : Bytes → Bytes → List Bytes
unfolding trim_view
split_cookie_header cur [] = trim_view cur ∷ []
split_cookie_header cur (c ∷ s) =
    let closed = trim_view cur ∷ split_cookie_header [] s in
    let open_token = split_cookie_header (cur ++ c ∷ []) s in
    if c == b';' then closed else open_token

-- `split_cookie_header_using_split`: the empty text has no part.
unfoldable pub split_cookie_header_using_split : Bytes → List Bytes
unfolding split_cookie_header
split_cookie_header_using_split [] = []
split_cookie_header_using_split (c ∷ s) = split_cookie_header [] (c ∷ s)

abbrev pub unquote_pair_value : Bytes → Bytes
unquote_pair_value value =
    if leb 2 (length value) && (front_is b'"' value && back_is b'"' value)
    then pop_back (drop 1 value)
    else value

-- `ParseCookiePairView`.
unfoldable pub parse_cookie_pair_view : Bytes → Bytes × Bytes
unfolding trim_view find
parse_cookie_pair_view raw =
    let token = trim_view raw in
    if is_empty token then ([], []) else elim (find b'=' token) [
      | none ↦ (trim_view token, [])
      | some eq ↦ (trim_view (take eq token), unquote_pair_value (trim_view (drop (suc eq) token)))
    ]

-- `state_->cookies`: an assignment overwrites.
unfoldable pub set_pair : Bytes → Bytes → List (Bytes × Bytes) → List (Bytes × Bytes)
set_pair key value [] = (key, value) ∷ []
set_pair key value ((k, v) ∷ ps) =
    if bytes_eq k key then (key, value) ∷ ps else (k, v) ∷ set_pair key value ps

unfoldable pub get_pair : Bytes → List (Bytes × Bytes) → Option Bytes
get_pair key [] = none
get_pair key ((k, v) ∷ ps) = if bytes_eq k key then some v else get_pair key ps

-- The loop of `GenerateCookiePairs`.
unfoldable pub cookie_pairs : List Bytes → List (Bytes × Bytes) → List (Bytes × Bytes)
unfolding parse_cookie_pair_view set_pair
cookie_pairs [] ps = ps
cookie_pairs (token ∷ tokens) ps =
    let (name, value) = parse_cookie_pair_view token in
    cookie_pairs tokens (if is_empty name then ps else set_pair name value ps)

unfoldable pub generate_cookie_pairs : Bytes → List (Bytes × Bytes)
unfolding cookie_pairs split_cookie_header_using_split
generate_cookie_pairs header = cookie_pairs (split_cookie_header_using_split header) []

-- `GetCookie`: a missing name has the empty value.
unfoldable pub get_cookie : Bytes → List (Bytes × Bytes) → Bytes
unfolding get_pair
get_cookie key ps = given (get_pair key ps)
