-- ===== src/Route/Match/Envelope.antt =====
-- What every result of the router carries, on every branch.
use bsrvcore.Base.{
  ℕ, Bytes, get_elem?, ◌<◌, List, [], ◌++◌, Option, none, ◌≡◌, ◌≢◌, refl, sym, arith, append-nil,
  Option-cases, inl, inr,
}
use bsrvcore.Route.Layer.{Aspect, settings_of}
use bsrvcore.Route.Registry.{RouteTable}
use bsrvcore.Route.Match.{
  Matched, RouteResult, or_no_aspects, subtree_aspects, match_segments, collect_aspects,
  build_default_route_result, matched_result, route_internal,
}

-- A statement about the two kinds of result is one about the result of any request.
route_internal_cases {ℓ} :
    (P : RouteResult → Type ℓ) (parse : Bytes → Option (List Bytes)) (method : ℕ) (target : Bytes)
    (t : RouteTable)
    → P (build_default_route_result t)
    → ((m : Matched) → P (matched_result t method m))
    → P (route_internal parse method target t)
unfolding route_internal
route_internal_cases P parse method target t fallback matched =
    elim (Option-cases (get_elem? t.entrance method)) [
      | inl e ↦ rw (e, route_internal) fallback
      | inr (root, e) ↦ elim (Option-cases (parse target)) [
        | inl p ↦ rw (e, p, route_internal) fallback
        | inr (segs, p) ↦ elim (Option-cases (match_segments root segs)) [
          | inl q ↦ rw (e, p, q, route_internal) fallback
          | inr (m, q) ↦ rw (e, p, q, route_internal) (matched m)
        ]
      ]
    ]

-- A result that a connection can serve: there is a handler, and no limit is zero.
pub record IsServable (r : RouteResult) : Type 0 where
  pub handled : r.handler ≢ none
  pub body_bounded : 0 < r.max_body_size
  pub read_timed : 0 < r.read_expiry
  pub write_timed : 0 < r.write_expiry

-- What the table has to provide for that.
pub record HasDefaults (t : RouteTable) : Type 0 where
  pub handled : t.default_handler ≢ none
  pub body_bounded : 0 < t.default_max_body_size
  pub read_timed : 0 < t.default_read_expiry
  pub write_timed : 0 < t.default_write_expiry

matched_result-IsServable :
    (t : RouteTable) (method : ℕ) (m : Matched)
    → HasDefaults t
    → IsServable (matched_result t method m)
unfolding matched_result build_default_route_result
matched_result-IsServable t method m d = elim (Option-cases (settings_of m.layer).handler) [
  | inl e ↦
      rw (e, matched_result)
        (record {
          handled = d.handled;
          body_bounded = d.body_bounded;
          read_timed = d.read_timed;
          write_timed = d.write_timed;
        })
  | inr (h, e) ↦
      rw (e, matched_result)
        (record {
          handled = λ n. cc;
          body_bounded = ground (arith, d.body_bounded);
          read_timed = ground (arith, d.read_timed);
          write_timed = ground (arith, d.write_timed);
        })
]

-- In a table whose default handler is set and whose default limits are positive, every request,
-- whatever its method and target, is answered by a handler under positive limits.
pub route_internal-IsServable :
    (parse : Bytes → Option (List Bytes)) (method : ℕ) (target : Bytes) (t : RouteTable)
    → HasDefaults t
    → IsServable (route_internal parse method target t)
route_internal-IsServable parse method target t d =
    route_internal_cases IsServable parse method target t
      (record {
        handled = unfold build_default_route_result in d.handled;
        body_bounded = unfold build_default_route_result in d.body_bounded;
        read_timed = unfold build_default_route_result in d.read_timed;
        write_timed = unfold build_default_route_result in d.write_timed;
      })
      (λ m. matched_result-IsServable t method m d)

-- The aspects of a result: the table's global ones first.
abbrev pub StartsWith : List Aspect → List Aspect → Type 0
StartsWith prefix aspects = (rest : List Aspect) × (aspects ≡ prefix ++ rest)

matched_result-StartsWith :
    (t : RouteTable) (method : ℕ) (m : Matched)
    → StartsWith t.global_aspects (matched_result t method m).aspects
unfolding matched_result build_default_route_result collect_aspects
matched_result-StartsWith t method m = elim (Option-cases (settings_of m.layer).handler) [
  | inl e ↦ rw (e, matched_result) ([], sym (append-nil t.global_aspects))
  | inr (h, e) ↦
      rw (e, matched_result)
        (
          or_no_aspects (get_elem? t.global_specific_aspects method)
              ++ (subtree_aspects m.layers ++ (settings_of m.layer).terminal_aspects),
          refl,
        )
]

-- Every request runs inside the table's global aspects, in their order and before any other, also
-- when it is answered by the default handler.
pub route_internal-StartsWith :
    (parse : Bytes → Option (List Bytes)) (method : ℕ) (target : Bytes) (t : RouteTable)
    → StartsWith t.global_aspects (route_internal parse method target t).aspects
route_internal-StartsWith parse method target t =
    route_internal_cases (λ r. StartsWith t.global_aspects r.aspects) parse method target t
      ([], unfold build_default_route_result in sym (append-nil t.global_aspects))
      (λ m. matched_result-StartsWith t method m)
