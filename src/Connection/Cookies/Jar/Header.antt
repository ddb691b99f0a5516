-- ===== src/Connection/Cookies/Jar/Header.antt =====
-- The Cookie header of a request is the sendable cookies, each once, the longest path first.
use mathlib.Core.List.{Permᴰ}
use bsrvcore.Base.{
  ℕ, suc, ◌≤◌, ◌≡◌, refl, sym, ◌∙◌, ap, ap₂, subst, Bytes, codes, is_empty, find, upto, length,
  get_elem?, if◌then◌else◌, List, [], ◌∷◌, ◌++◌, append_assoc, append-nil, Bool, false, Option,
  some, map, Bool-cases, inl, inr, All, All-get_elem?,
}
use bsrvcore.Connection.Text.{to_lower}
use bsrvcore.Connection.Cookies.Jar.{
  Cookie, CookieCandidate, is_sent, collect_from, collect_matching_cookies, append_cookie,
  serialize_cookie_candidates, build_cookie_header,
}

-- The cookies of the jar that pass a test, in the jar's order.
abbrev pub passing : (Cookie → Bool) → List Cookie → List Cookie
passing p [] = []
passing p (c ∷ cs) = if p c then c ∷ passing p cs else passing p cs

abbrev pub pair_text : Cookie → Bytes
pair_text c = c.name ++ b'=' ∷ c.value

-- `name=value` texts with "; " between them.
abbrev pub joined : List Cookie → Bytes
joined [] = []
joined (c ∷ []) = pair_text c
joined (c ∷ d ∷ cs) = pair_text c ++ (codes "; " ++ joined (d ∷ cs))

abbrev pub IsDescending : List ℕ → Type 0
IsDescending [] = Unit {0}
IsDescending (n ∷ []) = Unit {0}
IsDescending (n ∷ m ∷ ns) = (m ≤ n) × IsDescending (m ∷ ns)

abbrev pub path_lengths : List Cookie → List ℕ
path_lengths = map (λ c. length c.path)

abbrev pub lengths : List CookieCandidate → List ℕ
lengths = map (λ c. c.path_len)

-- What `std::ranges::sort` is relied on for: it permutes, and what it returns is in order.
pub record IsSort (sort : List CookieCandidate → List CookieCandidate) : Type 0 where
  pub permutes : (xs : List CookieCandidate) → Permᴰ xs (sort xs)
  pub orders : (xs : List CookieCandidate) → IsDescending (lengths (sort xs))

-- A candidate points at a cookie of the jar.
record IsAt (jar : List Cookie) (k : CookieCandidate) (c : Cookie) : Type 0 where
  at : get_elem? jar k.index ≡ some c
  size : k.path_len ≡ length c.path

abbrev Points : List Cookie → List CookieCandidate → List Cookie → Type 0
Points jar [] [] = Unit {0}
Points jar [] (c ∷ cs) = ⊥
Points jar (k ∷ ks) [] = ⊥
Points jar (k ∷ ks) (c ∷ cs) = IsAt jar k c × Points jar ks cs

get_elem?-append :
    (pre : List Cookie) (c : Cookie) (cs : List Cookie)
    → get_elem? (pre ++ c ∷ cs) (length pre) ≡ some c
get_elem?-append [] c cs = refl
get_elem?-append (d ∷ pre) c cs = get_elem?-append pre c cs

length-snoc : (pre : List Cookie) (c : Cookie) → length (pre ++ c ∷ []) ≡ suc (length pre)
length-snoc [] c = refl
length-snoc (d ∷ pre) c = ap suc (length-snoc pre c)

collect-Points :
    (p : Cookie → Bool) (pre cs : List Cookie)
    → Points (pre ++ cs) (collect_from p (length pre) cs) (passing p cs)
unfolding collect_from
collect-Points p pre [] = tt
collect-Points p pre (c ∷ cs) =
    let shift : (pre ++ c ∷ []) ++ cs ≡ pre ++ c ∷ cs = append_assoc pre (c ∷ []) cs in
    let moved : Points (pre ++ c ∷ cs) (collect_from p (suc (length pre)) cs) (passing p cs) =
      subst (λ n. Points (pre ++ c ∷ cs) (collect_from p n cs) (passing p cs)) (length-snoc pre c)
        (subst (λ j. Points j (collect_from p (length (pre ++ c ∷ [])) cs) (passing p cs)) shift
          (collect-Points p (pre ++ c ∷ []) cs)) in
    elim (Bool-cases (p c)) [
      | inl e ↦ rw e (record { at = get_elem?-append pre c cs; size = refl }, moved)
      | inr e ↦ rw e moved
    ]

-- A permutation of the candidates is one of the cookies.
permuted :
    (jar : List Cookie) {ks ls : List CookieCandidate} (cs : List Cookie)
    → Permᴰ ks ls
    → Points jar ks cs
    → (ds : List Cookie) × Permᴰ cs ds × Points jar ls ds
permuted jar (c ∷ cs) Permᴰ.nil h = absurd h
permuted jar [] (Permᴰ.cons e p) h = absurd h
permuted jar [] (Permᴰ.swap e f) h = absurd h
permuted jar (c ∷ []) (Permᴰ.swap e f) h = absurd h.1
permuted jar [] Permᴰ.nil h = ([], Permᴰ.nil, tt)
permuted jar (c ∷ cs) (Permᴰ.cons e p) h =
    let (ds, q, r) = permuted jar cs p h.1 in
    (c ∷ ds, Permᴰ.cons refl q, (subst (λ k. IsAt jar k c) e h.0, r))
permuted jar (c ∷ d ∷ cs) (Permᴰ.swap e f) h = (
  d ∷ c ∷ cs,
  Permᴰ.swap refl refl,
  (subst (λ k. IsAt jar k d) f h.1.0, (subst (λ k. IsAt jar k c) e h.0, h.1.1)),
)
permuted jar cs (Permᴰ.trans p q) h =
    let (ds, a, b) = permuted jar cs p h in
    let (es, a', b') = permuted jar ds q b in (es, Permᴰ.trans a a', b')

lengths-Points :
    (jar : List Cookie) (ks : List CookieCandidate) (cs : List Cookie)
    → Points jar ks cs
    → lengths ks ≡ path_lengths cs
lengths-Points jar [] [] h = refl
lengths-Points jar [] (c ∷ cs) h = absurd h
lengths-Points jar (k ∷ ks) [] h = absurd h
lengths-Points jar (k ∷ ks) (c ∷ cs) h = ap₂ ◌∷◌ h.0.size (lengths-Points jar ks cs h.1)

-- The loop of `SerializeCookieCandidates`, over the cookies themselves.
appended : Bytes → List Cookie → Bytes
appended out [] = out
appended out (c ∷ cs) = appended (append_cookie out c) cs

serialize-Points :
    (jar : List Cookie) (ks : List CookieCandidate) (cs : List Cookie) (out : Bytes)
    → Points jar ks cs
    → serialize_cookie_candidates jar out ks ≡ some (appended out cs)
unfolding serialize_cookie_candidates appended
serialize-Points jar [] [] out h = refl
serialize-Points jar [] (c ∷ cs) out h = absurd h
serialize-Points jar (k ∷ ks) [] out h = absurd h
serialize-Points jar (k ∷ ks) (c ∷ cs) out h =
    rw (h.0.at, serialize_cookie_candidates) (serialize-Points jar ks cs (append_cookie out c) h.1)

abbrev pub Named : List Cookie → Type 0
Named = All (λ c. is_empty c.name ≡ false)

Points-Named :
    (jar : List Cookie) (ks : List CookieCandidate) (cs : List Cookie)
    → Points jar ks cs
    → Named jar
    → Named cs
Points-Named jar [] [] h n = tt
Points-Named jar [] (c ∷ cs) h n = absurd h
Points-Named jar (k ∷ ks) [] h n = absurd h
Points-Named jar (k ∷ ks) (c ∷ cs) h n = (
  All-get_elem? (λ d. is_empty d.name ≡ false) jar k.index h.0.at n,
  Points-Named jar ks cs h.1 n,
)

append-filled : (s t : Bytes) → is_empty s ≡ false → is_empty (s ++ t) ≡ false
append-filled [] t h = cc
append-filled (b ∷ s) t h = refl

-- Each text after the first has "; " before it.
tail_text : List Cookie → Bytes
tail_text [] = []
tail_text (c ∷ cs) = codes "; " ++ (pair_text c ++ tail_text cs)

joined-cons : (c : Cookie) (cs : List Cookie) → joined (c ∷ cs) ≡ pair_text c ++ tail_text cs
unfolding tail_text
joined-cons c [] = sym (append-nil (pair_text c))
joined-cons c (d ∷ cs) = ap (λ t. pair_text c ++ (codes "; " ++ t)) (joined-cons d cs)

appended-filled :
    (out : Bytes) (cs : List Cookie)
    → is_empty out ≡ false
    → Named cs
    → appended out cs ≡ out ++ tail_text cs
unfolding appended tail_text
appended-filled out [] h n = sym (append-nil out)
appended-filled out (c ∷ cs) h n =
    let next =
      appended-filled ((out ++ codes "; ") ++ pair_text c) cs
        (append-filled (out ++ codes "; ") (pair_text c) (append-filled out (codes "; ") h)) n.1 in
    rw (n.0, h)
      (next
        ∙ append_assoc (out ++ codes "; ") (pair_text c) (tail_text cs)
        ∙ append_assoc out (codes "; ") (pair_text c ++ tail_text cs))

appended-joined : (cs : List Cookie) → Named cs → appended [] cs ≡ joined cs
unfolding appended
appended-joined [] n = refl
appended-joined (c ∷ cs) n =
    rw n.0 (appended-filled (pair_text c) cs (append-filled c.name (b'=' ∷ c.value) n.0) n.1)
    ∙ sym (joined-cons c cs)

-- The cookies of the header `text`, in their order there: all that pass the test `p` and no
-- others, each once, none before one whose path is longer.
pub record IsHeaderOf (p : Cookie → Bool) (jar : List Cookie) (text : Option Bytes) : Type 0 where
  pub order : List Cookie
  pub complete : Permᴰ (passing p jar) order
  pub longest_first : IsDescending (path_lengths order)
  pub written : text ≡ some (joined order)

module _ (sort : List CookieCandidate → List CookieCandidate) (sorts : IsSort sort) where
  -- If `std::ranges::sort` permutes and orders, and every cookie of the jar has a name, the Cookie
  -- header joins with "; " the texts of exactly the cookies of the jar that match the host, the
  -- path and the scheme, each once, none before one whose path is longer; no index is out of range.
  pub build_cookie_header-IsHeaderOf :
      (host target : Bytes) (is_https : Bool) (jar : List Cookie)
      → Named jar
      → IsHeaderOf
          (is_sent (to_lower host) (upto (find b'?' target) target) is_https)
          jar
          (build_cookie_header sort host target is_https jar)
  unfolding build_cookie_header collect_matching_cookies
  build_cookie_header-IsHeaderOf host target is_https jar n =
      go (collect_from p 0 jar) (collect-Points p [] jar)
    where
      p : Cookie → Bool
      p = is_sent (to_lower host) (upto (find b'?' target) target) is_https

      none_left : (cs : List Cookie) → Points jar [] cs → Permᴰ cs []
      none_left [] h = Permᴰ.nil
      none_left (c ∷ cs) h = absurd h

      go :
          (ks : List CookieCandidate)
          → Points jar ks (passing p jar)
          → IsHeaderOf p jar
              (if is_empty ks then some [] else serialize_cookie_candidates jar [] (sort ks))
      go [] h = record {
        order = [];
        complete = none_left (passing p jar) h;
        longest_first = tt;
        written = refl;
      }
      go (k ∷ ks) h =
          let (ds, moved, at) = permuted jar (passing p jar) (sorts.permutes (k ∷ ks)) h in
          record {
            order = ds;
            complete = moved;
            longest_first =
                subst IsDescending (lengths-Points jar (sort (k ∷ ks)) ds at)
                  (sorts.orders (k ∷ ks));
            written =
                serialize-Points jar (sort (k ∷ ks)) ds [] at
                ∙ ap some (appended-joined ds (Points-Named jar (sort (k ∷ ks)) ds at n));
          }
