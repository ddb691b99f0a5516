-- ===== src/Connection/Cookies/RoundTrip/Tokens.antt =====
-- The text of a Set-Cookie is its tokens, each after "; ".
use bsrvcore.Base.{
  ℕ, ◌≤◌, ◌≡◌, ◌≢◌, refl, sym, ◌∙◌, ap, Bytes, codes, is_empty, length, List, [], ◌∷◌, ◌++◌,
  append_assoc, append-nil, true, false, arith, Bool-cases, inl, inr, All, Lacks,
}
use bsrvcore.Connection.Text.{is_ws, trim_front, trim_back, trim_view, split_set_cookie_tokens}
use bsrvcore.Connection.Text.Laws.{
  IsTrim, trim_view-IsTrim, trim_view-blank, trim_back-append, IsTrim-append,
  split_set_cookie_tokens-cons, split_set_cookie_tokens-last, Lacks-append,
}
use bsrvcore.Connection.Cookies.Server.{strip_end}

-- A text that may stand between the separators: no ';' in it, and nothing at its ends to cut off.
pub record IsClean (s : Bytes) : Type 0 where
  pub trim : IsTrim s
  pub solid : strip_end s ≡ s
  pub lacks : Lacks b';' s

strip_end-append : (s t : Bytes) → strip_end t ≢ [] → strip_end (s ++ t) ≡ s ++ strip_end t
unfolding strip_end
strip_end-append [] t h = refl
strip_end-append (c ∷ s) t h =
    let kept = strip_end-append s t h in
    let full : is_empty (s ++ strip_end t) ≡ false = filled s (strip_end t) h in
    rw (kept, full) refl
  where
    filled : (u v : Bytes) → v ≢ [] → is_empty (u ++ v) ≡ false
    filled [] [] n = absurd (n refl)
    filled [] (b ∷ v) n = refl
    filled (b ∷ u) v n = refl

strip_end-semi : (s : Bytes) → strip_end (s ++ b';' ∷ []) ≡ strip_end s
unfolding strip_end
strip_end-semi [] = refl
strip_end-semi (c ∷ s) = rw (strip_end-semi s) refl

-- Tokens as `ToString` writes them, and as they stand once its last loop has run.
abbrev pub spaced : List Bytes → Bytes
spaced [] = []
spaced (t ∷ ts) = b' ' ∷ (t ++ b';' ∷ spaced ts)

abbrev pub linked : List Bytes → Bytes
linked [] = []
linked (t ∷ ts) = b';' ∷ b' ' ∷ (t ++ linked ts)

pub spaced-append : (ts us : List Bytes) → spaced (ts ++ us) ≡ spaced ts ++ spaced us
spaced-append [] us = refl
spaced-append (t ∷ ts) us =
    ap (λ x. b' ' ∷ (t ++ b';' ∷ x)) (spaced-append ts us)
    ∙ ap (◌∷◌ b' ') (sym (append_assoc t (b';' ∷ spaced ts) (spaced us)))

pub append-given : (s t : Bytes) → s ≢ [] → (s ++ t) ≢ []
append-given [] t h e = h refl
append-given (c ∷ s) t h e = cc

pub strip_end-linked :
    (f : Bytes) (ts : List Bytes)
    → IsClean f
    → All IsClean ts
    → strip_end (f ++ b';' ∷ spaced ts) ≡ f ++ linked ts
strip_end-linked f [] h a = strip_end-semi f ∙ h.solid ∙ sym (append-nil f)
strip_end-linked f (t ∷ ts) h a =
    let rest = strip_end-linked t ts a.0 a.1 in
    let left : strip_end (t ++ b';' ∷ spaced ts) ≢ [] =
      λ e. append-given t (linked ts) a.0.trim.given (sym rest ∙ e) in
    ap strip_end (sym (append_assoc f (codes "; ") (t ++ b';' ∷ spaced ts)))
    ∙ strip_end-append (f ++ codes "; ") (t ++ b';' ∷ spaced ts) left
    ∙ ap (λ u. (f ++ codes "; ") ++ u) rest
    ∙ append_assoc f (codes "; ") (t ++ linked ts)

trim_front-length : (s : Bytes) → length (trim_front s) ≤ length s
unfolding trim_front
trim_front-length [] = omega arith
trim_front-length (c ∷ s) = elim (Bool-cases (is_ws c)) [
  | inl e ↦ rw e (omega (arith, trim_front-length s))
  | inr e ↦ rw e (omega arith)
]

pub IsTrim-front : (c : ℕ) (s : Bytes) → IsTrim (c ∷ s) → is_ws c ≡ false
unfolding trim_front
IsTrim-front c s h = elim (Bool-cases (is_ws c)) [
  | inl e ↦
      let same : trim_front s ≡ c ∷ s = sym (shut e) ∙ h.front in
      absurd (omega (arith, trim_front-length s, ap length same))
  | inr e ↦ e
]
  where
    shut : is_ws c ≡ true → trim_front (c ∷ s) ≡ trim_front s
    shut e = rw e refl

trim_back-linked :
    (f : Bytes) (ts : List Bytes)
    → IsClean f
    → All IsClean ts
    → trim_back (f ++ linked ts) ≡ f ++ linked ts
trim_back-linked f [] h a = ap trim_back (append-nil f) ∙ h.trim.back ∙ sym (append-nil f)
trim_back-linked f (t ∷ ts) h a =
    let rest = trim_back-linked t ts a.0 a.1 in
    let left : trim_back (t ++ linked ts) ≢ [] =
      λ e. append-given t (linked ts) a.0.trim.given (sym rest ∙ e) in
    ap trim_back (sym (append_assoc f (codes "; ") (t ++ linked ts)))
    ∙ trim_back-append (f ++ codes "; ") (t ++ linked ts) left
    ∙ ap (λ u. (f ++ codes "; ") ++ u) rest
    ∙ append_assoc f (codes "; ") (t ++ linked ts)

pub trim_view-linked :
    (f : Bytes) (ts : List Bytes)
    → IsClean f
    → All IsClean ts
    → trim_view (f ++ linked ts) ≡ f ++ linked ts
unfolding trim_view
trim_view-linked f ts h a = ap trim_back (front f h) ∙ trim_back-linked f ts h a
  where
    front : (g : Bytes) → IsClean g → trim_front (g ++ linked ts) ≡ g ++ linked ts
    front [] k = absurd (k.trim.given refl)
    front (c ∷ g) k = unfold trim_front in rw (IsTrim-front c g k.trim) refl

-- The split gives the tokens back.
pub split-linked :
    (f : Bytes) (ts : List Bytes)
    → f ≢ []
    → Lacks b';' f
    → All IsClean ts
    → split_set_cookie_tokens (f ++ linked ts) ≡ trim_view f ∷ ts
split-linked f [] n l a =
    ap split_set_cookie_tokens (append-nil f) ∙ split_set_cookie_tokens-last f n l
split-linked f (t ∷ ts) n l a =
    let blank : trim_view (b' ' ∷ t) ≡ t =
      trim_view-blank b' ' t refl ∙ trim_view-IsTrim t a.0.trim in
    split_set_cookie_tokens-cons f (b' ' ∷ (t ++ linked ts)) l
    ∙ ap (◌∷◌ (trim_view f)) (
        split-linked (b' ' ∷ t) ts (λ e. cc) (λ e. omega (arith, e), a.0.lacks) a.1
        ∙ ap (λ u. u ∷ ts) blank)

-- A text in front of a clean one.
pub IsClean-append :
    (c : ℕ) (s t : Bytes)
    → is_ws c ≡ false
    → Lacks b';' (c ∷ s)
    → IsClean t
    → IsClean ((c ∷ s) ++ t)
IsClean-append c s t w l h = record {
  trim = IsTrim-append c s t w h.trim;
  solid =
      strip_end-append (c ∷ s) t (λ e. h.trim.given (sym h.solid ∙ e))
      ∙ ap (λ u. (c ∷ s) ++ u) h.solid;
  lacks = Lacks-append b';' (c ∷ s) t l h.lacks;
}
