-- ===== src/Connection/Sse/Laws.antt =====
-- However the stream is cut into chunks, the parser gives the same events.
use bsrvcore.Base.{
  ℕ, zero, suc, ◌<◌, ◌≡◌, refl, sym, ◌∙◌, ap, Bytes, find, take, drop, length, length-drop, ◌==◌,
  List, [], ◌∷◌, ◌++◌, append_assoc, append-nil, Option, none, some, arith, Bool-cases,
  Option-cases, subst, inl, inr, Lacks,
}
use bsrvcore.Connection.Sse.{
  SseEvent, Building, SseEventParser, consume_line, strip_cr, feed_loop, feed,
}

find-append :
    (c : ℕ) (s t : Bytes) {k : ℕ}
    → find c s ≡ some k
    → (find c (s ++ t) ≡ some k)
      × (take k (s ++ t) ≡ take k s)
      × (drop (suc k) (s ++ t) ≡ drop (suc k) s ++ t)
      × (k < length s)
unfolding find
find-append c [] t e = cc
find-append c (b ∷ s) t {k} e = elim (Bool-cases (b == c)) [
  | inl same ↦
      let first : zero ≡ k = ground arith in rw (same, ← first) (refl, refl, refl, omega arith)
  | inr other ↦ elim (Option-cases (find c s)) [
    | inl n ↦ ground (arith, n)
    | inr (j, f) ↦
        let next : suc j ≡ k = ground (arith, f) in
        let (found, taken, dropped, inside) = find-append c s t f in
        rw (← next, other, found, taken, dropped) (refl, refl, refl, omega (arith, inside))
  ]
]

find-none-Lacks : (c : ℕ) (s : Bytes) → find c s ≡ none → Lacks c s
unfolding find
find-none-Lacks c [] e = tt
find-none-Lacks c (b ∷ s) e = elim (Option-cases (find c s)) [
  | inl n ↦ (ground (arith, n), find-none-Lacks c s n)
  | inr (k, f) ↦ ground (arith, f)
]

Lacks-find-none : (c : ℕ) (s : Bytes) → Lacks c s → find c s ≡ none
unfolding find
Lacks-find-none c [] h = refl
Lacks-find-none c (b ∷ s) h = ground (arith, Lacks-find-none c s h.1, h.0)

abbrev pub concat : List Bytes → Bytes
concat [] = []
concat (chunk ∷ chunks) = chunk ++ concat chunks

module _ (from_chars : Bytes → Option ℕ) where
  abbrev pub parse : Bytes → Building → SseEventParser × List SseEvent
  parse s b = feed_loop from_chars (suc (length s)) s b

  abbrev pub prepend :
      List SseEvent → SseEventParser × List SseEvent → SseEventParser × List SseEvent
  prepend es r = (r.0, es ++ r.1)

  enough_fuel :
      (fuel more : ℕ) (s : Bytes) (b : Building)
      → length s < fuel
      → length s < more
      → feed_loop from_chars fuel s b ≡ feed_loop from_chars more s b
  unfolding feed_loop
  enough_fuel zero more s b h k = absurd (omega arith)
  enough_fuel (suc fuel) zero s b h k = absurd (omega arith)
  enough_fuel (suc fuel) (suc more) s b h k = elim (Option-cases (find b'\n' s)) [
    | inl n ↦ rw (n, feed_loop) refl
    | inr (i, f) ↦
        let inside = (find-append b'\n' s [] f).3 in
        rw
          (
            f,
            feed_loop,
            enough_fuel fuel more (drop (suc i) s)
                (consume_line from_chars (strip_cr (take i s)) b).0
                (omega (arith, length-drop (suc i) s, inside))
                (omega (arith, length-drop (suc i) s, inside)),
          )
          refl
  ]

  parse-none :
      (s : Bytes) (b : Building)
      → find b'\n' s ≡ none
      → parse s b ≡ (record { pending = s; building = b }, [])
  unfolding feed_loop
  parse-none s b e = rw (e, feed_loop) refl

  parse-some :
      (s : Bytes) (b : Building) {k : ℕ}
      → find b'\n' s ≡ some k
      → let r = consume_line from_chars (strip_cr (take k s)) b in
        parse s b ≡ prepend r.1 (parse (drop (suc k) s) r.0)
  unfolding feed_loop
  parse-some s b {k} e =
      let r = consume_line from_chars (strip_cr (take k s)) b in
      let inside = (find-append b'\n' s [] e).3 in
      rw
        (
          e,
          feed_loop,
          enough_fuel (length s) (suc (length (drop (suc k) s))) (drop (suc k) s) r.0
              (omega (arith, length-drop (suc k) s, inside)) (omega arith),
        )
        refl

  parse-append :
      (fuel : ℕ) (s t : Bytes) (b : Building)
      → length s < fuel
      → let (p, events) = parse s b in
        parse (s ++ t) b ≡ prepend events (parse (p.pending ++ t) p.building)
  parse-append zero s t b h = absurd (omega arith)
  parse-append (suc fuel) s t b h = elim (Option-cases (find b'\n' s)) [
    | inl n ↦ rw (parse-none s b n) refl
    | inr (k, f) ↦
        let r = consume_line from_chars (strip_cr (take k s)) b in
        let rest = drop (suc k) s in
        let (found, taken, dropped, inside) = find-append b'\n' s t f in
        let (p, later) = parse rest r.0 in
        let after = parse (p.pending ++ t) p.building in
        let here : parse (s ++ t) b ≡ prepend r.1 (parse (rest ++ t) r.0) =
          subst
            (λ u.
              let r' = consume_line from_chars (strip_cr u) b in
              parse (s ++ t) b ≡ prepend r'.1 (parse (rest ++ t) r'.0))
            taken
            (subst
              (λ u.
                let r' = consume_line from_chars (strip_cr (take k (s ++ t))) b in
                parse (s ++ t) b ≡ prepend r'.1 (parse u r'.0))
              dropped (parse-some (s ++ t) b found)) in
        here
        ∙ ap (prepend r.1)
            (parse-append fuel rest t r.0 (omega (arith, length-drop (suc k) s, inside)))
        ∙ rw (parse-some s b f) (ap (λ es. (after.0, es)) (sym (append_assoc r.1 later after.1)))
  ]

  -- Feeding the event parser a chunk and then another leaves it as feeding the two as one does, and
  -- gives the same events in the same order.
  feed-append :
      (s t : Bytes) (p : SseEventParser)
      → let (first, events) = feed from_chars s p in
        let (second, later) = feed from_chars t first in
        feed from_chars (s ++ t) p ≡ (second, events ++ later)
  unfolding feed
  feed-append s t p =
      let (first, events) = feed from_chars s p in
      let (second, later) = feed from_chars t first in
      subst (λ u. parse u p.building ≡ (second, events ++ later)) (append_assoc p.pending s t)
        (parse-append (suc (length (p.pending ++ s))) (p.pending ++ s) t p.building (omega arith))

  pending-Lacks :
      (fuel : ℕ) (s : Bytes) (b : Building) → length s < fuel → Lacks b'\n' (parse s b).0.pending
  pending-Lacks zero s b h = absurd (omega arith)
  pending-Lacks (suc fuel) s b h = elim (Option-cases (find b'\n' s)) [
    | inl n ↦ rw (parse-none s b n) (find-none-Lacks b'\n' s n)
    | inr (k, f) ↦
        let inside = (find-append b'\n' s [] f).3 in
        rw (parse-some s b f) (
          pending-Lacks fuel (drop (suc k) s) (consume_line from_chars (strip_cr (take k s)) b).0
            (omega (arith, length-drop (suc k) s, inside)))
  ]

  -- The parser between calls: no complete line is left in its buffer.
  abbrev pub IsDrained : SseEventParser → Type 0
  IsDrained p = Lacks b'\n' p.pending

  feed-IsDrained : (s : Bytes) (p : SseEventParser) → IsDrained (feed from_chars s p).0
  unfolding feed
  feed-IsDrained s p =
      pending-Lacks (suc (length (p.pending ++ s))) (p.pending ++ s) p.building (omega arith)

  -- Feeding one chunk after another.
  abbrev pub feed_all : List Bytes → SseEventParser → SseEventParser × List SseEvent
  feed_all [] p = (p, [])
  feed_all (chunk ∷ chunks) p =
      let (first, events) = feed from_chars chunk p in
      let (last, later) = feed_all chunks first in (last, events ++ later)

  feed-nil : (p : SseEventParser) → IsDrained p → feed from_chars [] p ≡ (p, [])
  unfolding feed
  feed-nil p d =
      subst (λ u. parse u p.building ≡ (p, [])) (sym (append-nil p.pending))
        (parse-none p.pending p.building (Lacks-find-none b'\n' p.pending d))

  -- Whatever the chunks that a stream arrives in, the event parser ends in the same state and has
  -- given the same events as if the stream had come in one piece, if no complete line was left in
  -- its buffer at the start.
  pub feed_all-concat :
      (chunks : List Bytes) (p : SseEventParser)
      → IsDrained p
      → feed_all chunks p ≡ feed from_chars (concat chunks) p
  feed_all-concat [] p d = sym (feed-nil p d)
  feed_all-concat (chunk ∷ chunks) p d =
      let (first, events) = feed from_chars chunk p in
      ap (prepend events) (feed_all-concat chunks first (feed-IsDrained chunk p))
      ∙ sym (feed-append chunk (concat chunks) p)
