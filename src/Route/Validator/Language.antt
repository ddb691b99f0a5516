-- ===== src/Route/Validator/Language.antt =====
-- The language of a regular expression, and what the target expression alone guarantees.
use bsrvcore.Base.{
  ℕ, suc, Bytes, ◌==◌, ◌||◌, if◌then◌else◌, [], ◌∷◌, ◌++◌, append_assoc, Bool, true, false, ◌≡◌,
  ◌≢◌, ◌⊎◌, inl, inr, refl, ap, ap₂, ◌∙◌, arith, Bool-cases, is_empty, ltb, length, not,
}
use bsrvcore.Route.Segments.{front_is}
use bsrvcore.Route.Validator.{
  Regex, chars, seq, alt, star, is_target_char, is_name_char, parameter_regex, valid_target_regex,
  braces_pair, non_param_target, has_dot_dot, is_valid_parametric_target,
}

-- Any number of texts of `P`, one after another.
pub data Star (P : Bytes → Type 0) : Bytes → Type 0 where
  done : Star P []
  more : {u : Bytes} (s t : Bytes) → u ≡ s ++ t → P s → Star P t → Star P u

abbrev pub Matches : Regex → Bytes → Type 0
Matches (chars p) u = (c : ℕ) × (u ≡ c ∷ []) × (p c ≡ true)
Matches (seq r q) u = (s t : Bytes) × (u ≡ s ++ t) × Matches r s × Matches q t
Matches (alt r q) u = Matches r u ⊎ Matches q u
Matches (star r) u = Star (Matches r) u

-- A byte that is no brace leaves the count as it is.
pair_plain : (n c : ℕ) (s : Bytes) → c ≢ b'{' → c ≢ b'}' → braces_pair n (c ∷ s) ≡ braces_pair n s
unfolding braces_pair
pair_plain n c s h k = ground arith

name_char_plain : (c : ℕ) → is_name_char c ≡ true → (c ≢ b'{') × (c ≢ b'}')
name_char_plain c h = (λ e. brace (rw e at h), λ e. brace' (rw e at h))
  where
    brace : ¬ (is_name_char b'{' ≡ true)
    brace x = cc

    brace' : ¬ (is_name_char b'}' ≡ true)
    brace' x = cc

target_char_plain : (c : ℕ) → is_target_char c ≡ true → (c ≢ b'{') × (c ≢ b'}')
target_char_plain c h = (λ e. brace (rw e at h), λ e. brace' (rw e at h))
  where
    brace : ¬ (is_target_char b'{' ≡ true)
    brace x = cc

    brace' : ¬ (is_target_char b'}' ≡ true)
    brace' x = cc

pair_names :
    (n : ℕ) (s t : Bytes)
    → Star (Matches (chars is_name_char)) s
    → braces_pair n (s ++ t) ≡ braces_pair n t
pair_names n s t done = refl
pair_names n u t (more s r e (c, one, name) rest) =
    let whole : u ≡ c ∷ r = e ∙ ap (λ x. x ++ r) one in
    let (a, b) = name_char_plain c name in
    rw whole (pair_plain n c (r ++ t) a b ∙ pair_names n r t rest)

pair_open :
    (n c : ℕ) (s : Bytes) → (c == b'{') ≡ true → braces_pair n (c ∷ s) ≡ braces_pair (suc n) s
unfolding braces_pair
pair_open n c s h = ground arith

pair_close : (c : ℕ) (s : Bytes) → (c == b'}') ≡ true → braces_pair 1 (c ∷ s) ≡ braces_pair 0 s
unfolding braces_pair
pair_close c s h = ground arith

pair_parameter :
    (s t : Bytes) → Matches parameter_regex s → braces_pair 0 (s ++ t) ≡ braces_pair 0 t
pair_parameter s t
      (open_brace, rest, e, (c, one, is_open), (name, close, e', names, (d, one', is_close))) =
    let tail : rest ≡ name ++ d ∷ [] = e' ∙ ap (◌++◌ name) one' in
    let whole : s ≡ c ∷ name ++ d ∷ [] = e ∙ ap₂ ◌++◌ one tail in
    ap (λ x. braces_pair 0 (x ++ t)) whole
    ∙ pair_open 0 c ((name ++ d ∷ []) ++ t) is_open
    ∙ ap (braces_pair 1) (append_assoc name (d ∷ []) t)
    ∙ pair_names 1 name (d ∷ t) names
    ∙ pair_close d t is_close

pair_item :
    (s t : Bytes)
    → Matches (alt (chars is_target_char) parameter_regex) s
    → braces_pair 0 (s ++ t) ≡ braces_pair 0 t
pair_item s t (inl (c, one, target)) =
    let (a, b) = target_char_plain c target in
    ap (λ x. braces_pair 0 (x ++ t)) one ∙ pair_plain 0 c t a b
pair_item s t (inr m) = pair_parameter s t m

pair_items :
    (u : Bytes)
    → Star (Matches (alt (chars is_target_char) parameter_regex)) u
    → braces_pair 0 u ≡ true
unfolding braces_pair
pair_items u done = refl
pair_items u (more s t e item rest) = ap (braces_pair 0) e ∙ pair_item s t item ∙ pair_items t rest

-- A target in the language of the target expression has its braces paired, so that the loop over
-- `brace_count` never refuses what the expression has accepted.
pub braces_pair-Matches : (u : Bytes) → Matches valid_target_regex u → braces_pair 0 u ≡ true
braces_pair-Matches u (s, t, e, (c, one, slash), items) =
    let whole : u ≡ c ∷ t = e ∙ ap (λ x. x ++ t) one in
    ap (braces_pair 0) whole ∙ pair_plain 0 c t (ground arith) (ground arith) ∙ pair_items t items

-- `regex_match` accepts only what the expression denotes.
abbrev pub IsSoundMatcher : (Regex → Bytes → Bool) → Type 0
IsSoundMatcher regex_match = (r : Regex) (u : Bytes) → regex_match r u ≡ true → Matches r u

abbrev pub without_brace_check : (Regex → Bytes → Bool) → Bytes → Bool
without_brace_check regex_match target =
    if is_empty target || ltb 2048 (length target) || not (front_is b'/' target)
    then false
    else (if not (regex_match valid_target_regex target)
        then false
        else not (has_dot_dot (non_param_target false target)))

-- With a sound `regex_match` the validator decides every target as it would without the loop over
-- `brace_count`.
pub brace_check_redundant :
    (regex_match : Regex → Bytes → Bool) (target : Bytes)
    → IsSoundMatcher regex_match
    → is_valid_parametric_target regex_match target ≡ without_brace_check regex_match target
unfolding is_valid_parametric_target
brace_check_redundant regex_match target sound =
    elim (Bool-cases (regex_match valid_target_regex target)) [
      | inl m ↦ rw (m, braces_pair-Matches target (sound valid_target_regex target m)) refl
      | inr m ↦ rw m refl
    ]
