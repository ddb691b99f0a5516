-- ===== src/Connection/Task/Finalize/Laws.antt =====
-- At its end a task gives the connection away, by one call at most.
use bsrvcore.Base.{
  ◌≡◌, ◌⊎◌, inl, inr, refl, sym, ◌&&◌, not, if◌then◌else◌, if-elim, List, [], ◌∷◌, Bool, true,
  false, arith,
}
use bsrvcore.Connection.Task.{
  Mode, automatic, manual, web_socket, header_prepared, Shared, Call, pre_service, service,
  post_service, do_write_response, do_close, do_cycle, start_websocket, Readings, at_submit,
  at_close, at_manual, Http,
}
use bsrvcore.Connection.Task.Finalize.{
  Step, try_close_connection, then_close, Stage, write_submitted, accept_pending, skipped,
  unavailable, is_manual, is_web_socket, is_header_prepared, append_set_cookies, snapshot,
  submit_final_response, finalize_manual_action, try_start_upgrade, after_automatic, after_manual,
  after_web_socket, finalize_post_phase,
}

-- The calls that give the connection away.
abbrev pub is_action : Call → Bool
is_action (pre_service i) = false
is_action service = false
is_action (post_service i) = false
is_action (do_write_response fields body keep_alive) = true
is_action do_close = true
is_action do_cycle = true
is_action (start_websocket fields) = true

abbrev pub IsOneAction : List Call → Type 0
IsOneAction calls = (calls ≡ []) ⊎ ((a : Call) × (is_action a ≡ true) × (calls ≡ a ∷ []))

-- The connection is gone, by one call or, where its stream had ended, by none.
pub record IsFinal (x : Step) : Type 0 where
  pub freed : x.0.conn ≡ false
  pub once : IsOneAction x.1

pub try_close-IsFinal : (r : Readings) (s : Shared) → IsFinal (try_close_connection r s)
unfolding try_close_connection
try_close-IsFinal r s =
    if-elim IsFinal (not s.conn) (λ e. record { freed = off s.conn e; once = inl refl })
      (λ e. record {
        freed = refl;
        once =
            if-elim IsOneAction (r.stream at_close) (λ f. inr (do_close, refl, refl))
              (λ f. inl refl);
      })
  where
    off : (b : Bool) → not b ≡ true → b ≡ false
    off true h = sym h
    off false h = refl

-- What has given the connection away already is not changed by a closing.
then_close-IsFinal :
    (r : Readings) (s : Shared) (a : Call)
    → s.conn ≡ false
    → is_action a ≡ true
    → IsFinal (then_close r (s, a ∷ []))
unfolding try_close_connection
then_close-IsFinal r s a h k =
    if-elim (λ (x : Step). IsFinal (x.0, a ∷ x.1)) (not s.conn)
      (λ _. record { freed = h; once = inr (a, k, refl) }) (λ e. absurd (ground arith))

module _ (http : Http) where
  -- The four ends of `SubmitFinalResponseWriteIfNeeded`, under a predicate.
  submit-elim :
      (Q : Stage × Step → Type 0) (r : Readings) (s : Shared)
      → (is_manual s.mode ≡ true → Q (skipped, (s, [])))
      → Q (unavailable, try_close_connection r s)
      → ((s' : Shared) → is_header_prepared s'.upgrade_state ≡ true → Q (accept_pending, (s', [])))
      → ((s' : Shared) (a : Call)
          → s'.conn ≡ false
          → is_action a ≡ true
          → Q (write_submitted, (s', a ∷ [])))
      → Q (submit_final_response http r s)
  unfolding submit_final_response
  submit-elim Q r s f g h k =
      let fields = append_set_cookies http s.set_cookies s.fields in
      if-elim Q (is_manual s.mode) f (λ _.
        if-elim Q (not (s.conn && r.stream at_submit)) (λ _. g)
          (λ _.
            if-elim Q (is_web_socket s.mode)
              (λ _.
                h (record s { fields = fields; body = []; upgrade_state = header_prepared }) refl)
              (λ _.
                k (record s { fields = fields; conn = false })
                  (do_write_response fields s.body s.keep_alive) refl refl)))

  manual_action-IsFinal : (r : Readings) (s : Shared) → IsFinal (finalize_manual_action http r s)
  unfolding finalize_manual_action
  manual_action-IsFinal r s =
      if-elim IsFinal (not (s.conn && r.stream at_manual)) (λ _. try_close-IsFinal r s)
        (λ _. record {
          freed = refl;
          once = inr ((if s.keep_alive then do_cycle else do_close), either s.keep_alive, refl);
        })
    where
      either : (b : Bool) → is_action (if b then do_cycle else do_close) ≡ true
      either true = refl
      either false = refl

  try_start_upgrade-IsFinal :
      (r : Readings) (s : Shared)
      → is_header_prepared s.upgrade_state ≡ true
      → IsFinal (try_start_upgrade http r (snapshot http s.fields []) s)
  unfolding try_start_upgrade
  try_start_upgrade-IsFinal r s h =
      let taken = record s { upgrade_handler = false } in
      if-elim IsFinal (not (is_header_prepared s.upgrade_state)) (λ e. absurd (ground arith))
        (λ _.
          if-elim IsFinal (not (s.upgrade_handler && s.conn)) (λ _. try_close-IsFinal r taken)
            (λ _.
              if-elim IsFinal (not r.creates) (λ _. try_close-IsFinal r taken)
                (λ _. record {
                  freed = refl;
                  once = inr (start_websocket (snapshot http s.fields []), refl, refl);
                })))

  pub finalize_post_phase-IsFinal :
      (r : Readings) (mode : Mode) (s : Shared) → IsFinal (finalize_post_phase http r mode s)
  unfolding finalize_post_phase
  finalize_post_phase-IsFinal r automatic s =
      submit-elim (λ x. IsFinal (after_automatic http r x)) r s (λ _. try_close-IsFinal r s)
        (try_close-IsFinal r s) (λ s' _. try_close-IsFinal r s')
        (λ s' a h k. record { freed = h; once = inr (a, k, refl) })
  finalize_post_phase-IsFinal r manual s =
      submit-elim (λ x. IsFinal (after_manual http r x)) r s (λ _. manual_action-IsFinal r s)
        (try_close-IsFinal r s) (λ s' _. try_close-IsFinal r s')
        (λ s' a h k. then_close-IsFinal r s' a h k)
  finalize_post_phase-IsFinal r web_socket s =
      submit-elim (λ x. IsFinal (after_web_socket http r x)) r s (λ _. try_close-IsFinal r s)
        (try_close-IsFinal r s) (λ s' p. try_start_upgrade-IsFinal r s' p)
        (λ s' a h k. then_close-IsFinal r s' a h k)
