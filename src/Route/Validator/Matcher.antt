-- ===== src/Route/Validator/Matcher.antt =====
-- A `regex_match` that can be run: it takes the derivative by each byte. It shows that the
-- assumption on the library's matcher can be met.
use bsrvcore.Base.{
  ℕ, Bytes, ◌||◌, ◌&&◌, if◌then◌else◌, [], ◌∷◌, Bool, true, false, ◌≡◌, inl, inr, refl, ap, arith,
  Bool-cases,
}
use bsrvcore.Route.Validator.{Regex, chars, seq, alt, star}
use bsrvcore.Route.Validator.Language.{Star, done, more, Matches, IsSoundMatcher}

abbrev nothing : Regex
nothing = chars (λ c. false)

unfoldable pub nullable : Regex → Bool
nullable (chars p) = false
nullable (seq r q) = nullable r && nullable q
nullable (alt r q) = nullable r || nullable q
nullable (star r) = true

unfoldable pub derivative : ℕ → Regex → Regex
derivative c (chars p) = if p c then star nothing else nothing
derivative c (seq r q) =
    if nullable r then alt (seq (derivative c r) q) (derivative c q) else seq (derivative c r) q
derivative c (alt r q) = alt (derivative c r) (derivative c q)
derivative c (star r) = seq (derivative c r) (star r)

unfoldable pub derivative_match : Regex → Bytes → Bool
unfolding nullable derivative
derivative_match r [] = nullable r
derivative_match r (c ∷ u) = derivative_match (derivative c r) u

nullable_sound : (r : Regex) → nullable r ≡ true → Matches r []
unfolding nullable
nullable_sound (chars p) h = cc
nullable_sound (seq r q) h =
    ([], [], refl, nullable_sound r (ground arith), nullable_sound q (ground arith))
nullable_sound (alt r q) h = elim (Bool-cases (nullable r)) [
  | inl e ↦ inl (nullable_sound r e)
  | inr e ↦ inr (nullable_sound q (ground (arith, e)))
]
nullable_sound (star r) h = done

Star-nothing : (u : Bytes) → Star (Matches nothing) u → u ≡ []
Star-nothing u done = refl
Star-nothing u (more s t e (c, one, x) rest) = cc

derivative_sound : (c : ℕ) (r : Regex) (u : Bytes) → Matches (derivative c r) u → Matches r (c ∷ u)
unfolding derivative
derivative_sound c (chars p) u m = elim (Bool-cases (p c)) [
  | inl e ↦ let m' : Star (Matches nothing) u = rw e at m in (c, ap (◌∷◌ c) (Star-nothing u m'), e)
  | inr e ↦ let m' : Matches nothing u = rw e at m in absurd (cc m'.2)
]
derivative_sound c (seq r q) u m = elim (Bool-cases (nullable r)) [
  | inl e ↦
      let m' : Matches (alt (seq (derivative c r) q) (derivative c q)) u = rw e at m in
      elim m' [
        | inl (s, t, whole, x, y) ↦ (c ∷ s, t, ap (◌∷◌ c) whole, derivative_sound c r s x, y)
        | inr x ↦ ([], c ∷ u, refl, nullable_sound r e, derivative_sound c q u x)
      ]
  | inr e ↦
      let (s, t, whole, x, y) = let m' : Matches (seq (derivative c r) q) u = rw e at m in m' in
      (c ∷ s, t, ap (◌∷◌ c) whole, derivative_sound c r s x, y)
]
derivative_sound c (alt r q) u (inl x) = inl (derivative_sound c r u x)
derivative_sound c (alt r q) u (inr x) = inr (derivative_sound c q u x)
derivative_sound c (star r) u (s, t, whole, x, y) =
    more (c ∷ s) t (ap (◌∷◌ c) whole) (derivative_sound c r s x) y

pub derivative_match-IsSoundMatcher : IsSoundMatcher derivative_match
unfolding derivative_match
derivative_match-IsSoundMatcher r [] h = nullable_sound r h
derivative_match-IsSoundMatcher r (c ∷ u) h =
    derivative_sound c r u (derivative_match-IsSoundMatcher (derivative c r) u h)
