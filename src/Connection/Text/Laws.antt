-- ===== src/Connection/Text/Laws.antt =====
-- Trimming, and cutting a text into its parts.
use bsrvcore.Base.{
  ℕ, zero, suc, ◌+◌, ◌<◌, ◌≡◌, ◌≢◌, refl, sym, ◌∙◌, ap, Bytes, is_empty, find, take, drop, length,
  length-append, length-drop, [], ◌∷◌, ◌++◌, true, false, none, some, arith, Option-cases, inl, inr,
  Lacks,
}
use bsrvcore.Connection.Text.{
  is_ws, trim_front, trim_back, trim_view, split_once, tokens_loop, split_set_cookie_tokens,
}

-- A text that has no blank at either end, and is not empty.
pub record IsTrim (s : Bytes) : Type 0 where
  pub front : trim_front s ≡ s
  pub back : trim_back s ≡ s
  pub given : s ≢ []

pub trim_view-IsTrim : (s : Bytes) → IsTrim s → trim_view s ≡ s
unfolding trim_view
trim_view-IsTrim s h = ap trim_back h.front ∙ h.back

trim_front-blank : (c : ℕ) (s : Bytes) → is_ws c ≡ true → trim_front (c ∷ s) ≡ trim_front s
unfolding trim_front
trim_front-blank c s h = rw h refl

pub trim_view-blank : (c : ℕ) (s : Bytes) → is_ws c ≡ true → trim_view (c ∷ s) ≡ trim_view s
unfolding trim_view
trim_view-blank c s h = ap trim_back (trim_front-blank c s h)

pub trim_back-append : (s t : Bytes) → trim_back t ≢ [] → trim_back (s ++ t) ≡ s ++ trim_back t
unfolding trim_back
trim_back-append [] t h = refl
trim_back-append (c ∷ s) t h =
    let kept = trim_back-append s t h in
    let full : is_empty (s ++ trim_back t) ≡ false = filled s (trim_back t) h in
    rw (kept, full) refl
  where
    filled : (u v : Bytes) → v ≢ [] → is_empty (u ++ v) ≡ false
    filled [] [] n = absurd (n refl)
    filled [] (b ∷ v) n = refl
    filled (b ∷ u) v n = refl

-- Only the ends matter.
pub IsTrim-append : (c : ℕ) (s t : Bytes) → is_ws c ≡ false → IsTrim t → IsTrim ((c ∷ s) ++ t)
IsTrim-append c s t h k = record {
  front = unfold trim_front in rw h refl;
  back = trim_back-append (c ∷ s) t (λ e. k.given (sym k.back ∙ e)) ∙ ap (λ u. (c ∷ s) ++ u) k.back;
  given = λ e. cc;
}

pub find-Lacks : (c : ℕ) (s t : Bytes) → Lacks c s → find c (s ++ c ∷ t) ≡ some (length s)
unfolding find
find-Lacks c [] t h = ground arith
find-Lacks c (b ∷ s) t h = ground (arith, find-Lacks c s t h.1, h.0)

pub find-Lacks-none : (c : ℕ) (s : Bytes) → Lacks c s → find c s ≡ none
unfolding find
find-Lacks-none c [] h = refl
find-Lacks-none c (b ∷ s) h = ground (arith, find-Lacks-none c s h.1, h.0)

pub take-length : (s t : Bytes) → take (length s) (s ++ t) ≡ s
take-length [] t = refl
take-length (b ∷ s) t = ap (◌∷◌ b) (take-length s t)

pub drop-length : (s : Bytes) (c : ℕ) (t : Bytes) → drop (suc (length s)) (s ++ c ∷ t) ≡ t
drop-length [] c t = refl
drop-length (b ∷ s) c t = drop-length s c t

pub split_once-Lacks : (c : ℕ) (s t : Bytes) → Lacks c s → split_once c (s ++ c ∷ t) ≡ (s, t)
unfolding split_once
split_once-Lacks c s t h =
    rw (find-Lacks c s t h, split_once, take-length s (c ∷ t), drop-length s c t) refl

pub split_once-Lacks-none : (c : ℕ) (s : Bytes) → Lacks c s → split_once c s ≡ (s, [])
unfolding split_once
split_once-Lacks-none c s h = rw (find-Lacks-none c s h, split_once) refl

pub find-lt : (c : ℕ) (s : Bytes) {k : ℕ} → find c s ≡ some k → k < length s
unfolding find
find-lt c [] e = cc
find-lt c (b ∷ s) {k} e = elim (Option-cases (find c s)) [
  | inl n ↦ ground (arith, n)
  | inr (j, f) ↦ ground (arith, f, find-lt c s f)
]

tokens_loop-fuel :
    (fuel more : ℕ) (s : Bytes)
    → length s < fuel
    → length s < more
    → tokens_loop fuel s ≡ tokens_loop more s
unfolding tokens_loop
tokens_loop-fuel zero more s h k = absurd (omega arith)
tokens_loop-fuel (suc fuel) zero s h k = absurd (omega arith)
tokens_loop-fuel (suc fuel) (suc more) [] h k = refl
tokens_loop-fuel (suc fuel) (suc more) (c ∷ s) h k = elim (Option-cases (find b';' (c ∷ s))) [
  | inl n ↦ rw (n, tokens_loop) refl
  | inr (i, f) ↦
      rw
        (
          f,
          tokens_loop,
          tokens_loop-fuel fuel more (drop i s) (omega (arith, length-drop i s))
              (omega (arith, length-drop i s)),
        )
        refl
]

-- The first token ends at the first separator.
pub split_set_cookie_tokens-cons :
    (s t : Bytes)
    → Lacks b';' s
    → split_set_cookie_tokens (s ++ b';' ∷ t) ≡ trim_view s ∷ split_set_cookie_tokens t
unfolding split_set_cookie_tokens
split_set_cookie_tokens-cons s t h =
    let u = s ++ b';' ∷ t in let size = length-append s (b';' ∷ t) in go u (length u) refl size
  where
    go :
        (u : Bytes) (n : ℕ)
        → u ≡ s ++ b';' ∷ t
        → n ≡ length s + suc (length t)
        → tokens_loop (suc n) u ≡ trim_view s ∷ tokens_loop (suc (length t)) t
    go [] n e k = absurd (omega (arith, ap length e, length-append s (b';' ∷ t)))
    go (c ∷ v) n e k =
        let found : find b';' (c ∷ v) ≡ some (length s) =
          ap (find b';') e ∙ find-Lacks b';' s t h in
        let first : take (length s) (c ∷ v) ≡ s =
          ap (take (length s)) e ∙ take-length s (b';' ∷ t) in
        let rest : drop (suc (length s)) (c ∷ v) ≡ t =
          ap (drop (suc (length s))) e ∙ drop-length s b';' t in
        rw (found, tokens_loop, first)
          (ap (◌∷◌ (trim_view s)) (
            ap (tokens_loop n) rest
            ∙ tokens_loop-fuel n (suc (length t)) t (omega arith) (omega arith)))

pub split_set_cookie_tokens-last :
    (s : Bytes) → s ≢ [] → Lacks b';' s → split_set_cookie_tokens s ≡ trim_view s ∷ []
unfolding split_set_cookie_tokens tokens_loop
split_set_cookie_tokens-last [] n h = absurd (n refl)
split_set_cookie_tokens-last (c ∷ s) n h = rw (find-Lacks-none b';' (c ∷ s) h, tokens_loop) refl

pub Lacks-append : (c : ℕ) (s t : Bytes) → Lacks c s → Lacks c t → Lacks c (s ++ t)
Lacks-append c [] t h k = k
Lacks-append c (b ∷ s) t h k = (h.0, Lacks-append c s t h.1 k)
