-- ===== src/Route/Segments/Laws.antt =====
-- Splitting a target into segments: the loop against a reading byte by byte, and the round trip.
use bsrvcore.Base.{
  ℕ, zero, suc, ◌<◌, ◌≡◌, ◌≢◌, refl, sym, Bytes, find, take, drop, length, ◌==◌, if◌then◌else◌,
  List, [], ◌∷◌, ◌++◌, append_assoc, append-nil, none, some, arith, All, Lacks, length-drop, inl,
  inr, Option-cases, Bool-cases, ap, ◌∙◌,
}
use bsrvcore.Route.Segments.{strip_query, emplace, split_loop, split_target_segments}

-- Reading byte by byte, `cur` being the part of the open segment that has been read.
unfoldable pub words : Bytes → Bytes → List Bytes
words cur [] = emplace cur []
words cur (c ∷ s) =
    let closed = emplace cur (words [] s) in
    let open_segment = words (cur ++ c ∷ []) s in if c == b'/' then closed else open_segment

words-find-none : (cur s : Bytes) → find b'/' s ≡ none → words cur s ≡ emplace (cur ++ s) []
unfolding words find
words-find-none cur [] h = rw append-nil
words-find-none cur (c ∷ s) h = elim (Option-cases (find b'/' s)) [
  | inl e ↦ ground (arith, e, words-find-none (cur ++ c ∷ []) s e, append_assoc cur (c ∷ []) s)
  | inr (k, e) ↦ ground (arith, e)
]

words-find-some :
    (cur s : Bytes) (k : ℕ)
    → find b'/' s ≡ some k
    → words cur s ≡ emplace (cur ++ take k s) (words [] (drop (suc k) s))
unfolding words find
words-find-some cur [] k h = cc
words-find-some cur (c ∷ s) zero h = elim (Option-cases (find b'/' s)) [
  | inl e ↦ ground (arith, e, append-nil cur)
  | inr (j, e) ↦ ground (arith, e, append-nil cur)
]
words-find-some cur (c ∷ s) (suc k) h = elim (Option-cases (find b'/' s)) [
  | inl e ↦ ground (arith, e)
  | inr (j, e) ↦
      ground (arith, e, words-find-some (cur ++ c ∷ []) s k, append_assoc cur (c ∷ []) (take k s))
]

split_loop-words : (fuel : ℕ) (url : Bytes) → length url < fuel → split_loop fuel url ≡ words [] url
unfolding split_loop words
split_loop-words zero url h = absurd (omega arith)
split_loop-words (suc fuel) [] h = refl
split_loop-words (suc fuel) (c ∷ s) h = elim (Option-cases (find b'/' (c ∷ s))) [
  | inl e ↦ rw (e, split_loop) (sym (words-find-none [] (c ∷ s) e))
  | inr (k, e) ↦
      rw (e, split_loop, split_loop-words fuel (drop k s) (omega (arith, length-drop k s)))
        (sym (words-find-some [] (c ∷ s) k e))
]

-- The bytes before the first '?', read one by one.
abbrev pub before_query : Bytes → Bytes
before_query [] = []
before_query (c ∷ s) = if c == b'?' then [] else c ∷ before_query s

pub strip_query_lem : (s : Bytes) → strip_query s ≡ before_query s
unfolding strip_query find
strip_query_lem [] = refl
strip_query_lem (c ∷ s) = elim (Option-cases (find b'?' s)) [
  | inl e ↦ ground (arith, e, strip_query_lem s)
  | inr (k, e) ↦ ground (arith, e, strip_query_lem s)
]

-- The splitting loop returns the runs of bytes other than '/' before the first '?'.
pub split_target_segments-words :
    (target : Bytes) → split_target_segments target ≡ words [] (before_query target)
unfolding split_target_segments
split_target_segments-words target =
    split_loop-words (suc (length (strip_query target))) (strip_query target) (omega arith)
    ∙ ap (words []) (strip_query_lem target)

-- A segment as the table keeps it: not empty, no '/'.
abbrev pub IsSegment : Bytes → Type 0
IsSegment s = (s ≢ []) × Lacks b'/' s

Lacks-push : (c x : ℕ) (s : Bytes) → Lacks c s → x ≢ c → Lacks c (s ++ x ∷ [])
Lacks-push c x [] h k = (k, tt)
Lacks-push c x (b ∷ s) (p, h) k = (p, Lacks-push c x s h k)

All-emplace :
    (cur : Bytes) (ws : List Bytes)
    → Lacks b'/' cur
    → All IsSegment ws
    → All IsSegment (emplace cur ws)
All-emplace [] ws h k = k
All-emplace (b ∷ s) ws h k = ((λ e. cc, h), k)

words-IsSegment : (cur s : Bytes) → Lacks b'/' cur → All IsSegment (words cur s)
unfolding words
words-IsSegment cur [] h = All-emplace cur [] h tt
words-IsSegment cur (c ∷ s) h = elim (Bool-cases (c == b'/')) [
  | inl e ↦ rw e (All-emplace cur (words [] s) h (words-IsSegment [] s tt))
  | inr e ↦ rw e (words-IsSegment (cur ++ c ∷ []) s (Lacks-push b'/' c cur h (ground arith)))
]

-- Whatever the target, no segment is empty and no segment holds a '/'.
pub split_target_segments-IsSegment :
    (target : Bytes) → All IsSegment (split_target_segments target)
split_target_segments-IsSegment target =
    rw (split_target_segments-words target) (words-IsSegment [] (before_query target) tt)

-- The path of a list of segments, as the code writes locations: '/' before each.
abbrev pub join : List Bytes → Bytes
join [] = []
join (s ∷ ss) = b'/' ∷ s ++ join ss

words-Lacks : (cur s rest : Bytes) → Lacks b'/' s → words cur (s ++ rest) ≡ words (cur ++ s) rest
unfolding words
words-Lacks cur [] rest h = rw append-nil
words-Lacks cur (c ∷ s) rest (p, h) =
    ground (arith, words-Lacks (cur ++ c ∷ []) s rest h, append_assoc cur (c ∷ []) s)

-- The path may end in a rest that closes the open segment, such as nothing or a '/'.
words-join :
    (cur rest : Bytes) (ss : List Bytes)
    → ((c : Bytes) → words c rest ≡ emplace c [])
    → All IsSegment ss
    → words cur (join ss ++ rest) ≡ emplace cur ss
unfolding words
words-join cur rest [] e h = e cur
words-join cur rest ([] ∷ ss) e h = absurd (h.0.0 refl)
words-join cur rest ((b ∷ s) ∷ ss) e h =
    ap (λ u. words cur (b'/' ∷ u)) (append_assoc (b ∷ s) (join ss) rest)
    ∙ ap (emplace cur)
        (words-Lacks [] (b ∷ s) (join ss ++ rest) h.0.1 ∙ words-join (b ∷ s) rest ss e h.1)

pub before_query_of_Lacks : (s : Bytes) → Lacks b'?' s → before_query s ≡ s
before_query_of_Lacks [] h = refl
before_query_of_Lacks (c ∷ s) (p, h) = ground (arith, before_query_of_Lacks s h)

-- Splitting a path that was joined from segments, each not empty and without a '/', and with no '?'
-- in the path, gives the segments back.
pub split_target_segments-join :
    (ss : List Bytes)
    → All IsSegment ss
    → Lacks b'?' (join ss)
    → split_target_segments (join ss) ≡ ss
split_target_segments-join ss h q =
    split_target_segments-words (join ss)
    ∙ ap (words []) (before_query_of_Lacks (join ss) q ∙ sym (append-nil (join ss)))
    ∙ (unfold words in words-join [] [] ss (λ c. refl) h)

pub Lacks-append_slash : (s : Bytes) → Lacks b'?' s → Lacks b'?' (s ++ b'/' ∷ [])
Lacks-append_slash [] h = (omega arith, tt)
Lacks-append_slash (c ∷ s) (p, h) = (p, Lacks-append_slash s h)

-- A '/' at the end makes no difference.
pub split_target_segments-join_slash :
    (ss : List Bytes)
    → All IsSegment ss
    → Lacks b'?' (join ss)
    → split_target_segments (join ss ++ b'/' ∷ []) ≡ ss
split_target_segments-join_slash ss h q =
    split_target_segments-words (join ss ++ b'/' ∷ [])
    ∙ ap (words []) (before_query_of_Lacks (join ss ++ b'/' ∷ []) (Lacks-append_slash (join ss) q))
    ∙ (unfold words in words-join [] (b'/' ∷ []) ss (λ c. refl) h)
