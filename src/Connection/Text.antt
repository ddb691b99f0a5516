-- ===== src/Connection/Text.antt =====
-- The string helpers that the connection's sources repeat: TrimView and IEquals of
-- src/connection/client/request_assembler.cc, TrimView and ToLowerString of
-- src/connection/include/internal/server/http_server_task_detail.h, TrimAscii and ToLowerAscii of
-- request_body_processor_detail.h.
pub mod Laws
use bsrvcore.Base.{
  ℕ, zero, suc, ◌+◌, Bytes, codes, is_empty, bytes_eq, find, take, drop, length, ◌==◌, leb, ◌&&◌,
  ◌||◌, if◌then◌else◌, List, [], ◌∷◌, ◌++◌, Bool, true, false, Option, none, some, map,
}

-- `" \t\r\n"`.
abbrev pub is_ws : ℕ → Bool
is_ws c = c == b' ' || (c == b'\t' || (c == b'\r' || c == b'\n'))

-- From `find_first_not_of` on.
unfoldable pub trim_front : Bytes → Bytes
trim_front [] = []
trim_front (c ∷ s) = if is_ws c then trim_front s else c ∷ s

-- Up to `find_last_not_of`.
unfoldable pub trim_back : Bytes → Bytes
trim_back [] = []
trim_back (c ∷ s) = let rest = trim_back s in if is_empty rest && is_ws c then [] else c ∷ rest

unfoldable pub trim_view : Bytes → Bytes
unfolding trim_front trim_back
trim_view s = trim_back (trim_front s)

-- `std::tolower`, of an ASCII byte.
abbrev pub to_lower_byte : ℕ → ℕ
to_lower_byte c = if leb b'A' c && leb c b'Z' then c + 32 else c

unfoldable pub to_lower : Bytes → Bytes
to_lower [] = []
to_lower (c ∷ s) = to_lower_byte c ∷ to_lower s

-- `IEquals`.
unfoldable pub i_equals : Bytes → Bytes → Bool
i_equals [] [] = true
i_equals [] (_ ∷ _) = false
i_equals (_ ∷ _) [] = false
i_equals (a ∷ s) (b ∷ t) = (to_lower_byte a == to_lower_byte b) && i_equals s t

-- `SplitOnce`.
unfoldable pub split_once : ℕ → Bytes → Bytes × Bytes
unfolding find
split_once delim s = elim (find delim s) [
  | none ↦ (s, [])
  | some pos ↦ (take pos s, drop (suc pos) s)
]

-- The loop of `SplitSetCookieTokens`, where each round takes a byte at least; a text that ends in
-- a separator has no last empty token.
unfoldable pub tokens_loop : ℕ → Bytes → List Bytes
tokens_loop zero s = []
tokens_loop (suc fuel) [] = []
tokens_loop (suc fuel) (c ∷ s) = elim (find b';' (c ∷ s)) [
  | none ↦ trim_view (c ∷ s) ∷ []
  | some semi ↦ trim_view (take semi (c ∷ s)) ∷ tokens_loop fuel (drop (suc semi) (c ∷ s))
]

unfoldable pub split_set_cookie_tokens : Bytes → List Bytes
unfolding tokens_loop trim_view find
split_set_cookie_tokens s = tokens_loop (suc (length s)) s
