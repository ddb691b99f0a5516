-- ===== src/Connection/Task/Finalize/Acts.antt =====
-- A task that still has its connection gives it away by a call.
use bsrvcore.Base.{◌≡◌, refl, is_empty, ◌&&◌, not, if-elim, List, [], ◌∷◌, true, false, arith}
use bsrvcore.Connection.Task.{
  Mode, automatic, manual, web_socket, header_prepared, Shared, Call, do_write_response, Readings,
  Check, at_submit, at_close, at_manual, Http,
}
use bsrvcore.Connection.Task.Finalize.{
  Step, try_close_connection, Stage, write_submitted, accept_pending, skipped, is_manual,
  is_web_socket, is_header_prepared, append_set_cookies, snapshot, submit_final_response,
  finalize_manual_action, try_start_upgrade, after_automatic, after_manual, after_web_socket,
  finalize_post_phase,
}

-- The server runs, and the stream is available, whenever the code asks.
pub record IsUp (r : Readings) : Type 0 where
  pub runs : (c : Check) → r.running c ≡ true
  pub streams : (c : Check) → r.stream c ≡ true

abbrev pub Acts : Step → Type 0
Acts x = is_empty x.1 ≡ false

module _ (http : Http) (r : Readings) (up : IsUp r) where
  try_close-Acts : (s : Shared) → s.conn ≡ true → Acts (try_close_connection r s)
  unfolding try_close_connection
  try_close-Acts s h =
      if-elim Acts (not s.conn) (λ e. absurd (ground (arith, h)))
        (λ _.
          if-elim (λ (calls : List Call). is_empty calls ≡ false) (r.stream at_close) (λ _. refl)
            (λ e. absurd (ground (arith, up.streams at_close))))

  try_start-Acts :
      (s : Shared)
      → s.conn ≡ true
      → is_header_prepared s.upgrade_state ≡ true
      → Acts (try_start_upgrade http r (snapshot http s.fields []) s)
  unfolding try_start_upgrade
  try_start-Acts s h p =
      let taken = record s { upgrade_handler = false } in
      if-elim Acts (not (is_header_prepared s.upgrade_state)) (λ e. absurd (ground arith))
        (λ _.
          if-elim Acts (not (s.upgrade_handler && s.conn)) (λ _. try_close-Acts taken h)
            (λ _. if-elim Acts (not r.creates) (λ _. try_close-Acts taken h) (λ _. refl)))

  manual-Acts : (s : Shared) → s.conn ≡ true → Acts (finalize_manual_action http r s)
  unfolding finalize_manual_action
  manual-Acts s h =
      if-elim Acts (not (s.conn && r.stream at_manual))
        (λ e. absurd (ground (arith, h, up.streams at_manual))) (λ _. refl)

  -- The state in which a WebSocket upgrade waits.
  abbrev prepared : Shared → Shared
  prepared s = record s {
    fields = append_set_cookies http s.set_cookies s.fields;
    body = [];
    upgrade_state = header_prepared;
  }

  -- The branch of `SubmitFinalResponseWriteIfNeeded` that each mode takes.
  submit-Acts :
      (Q : Stage × Step → Type 0) (s : Shared)
      → s.conn ≡ true
      → (is_manual s.mode ≡ true → Q (skipped, (s, [])))
      → (is_manual s.mode ≡ false
          → is_web_socket s.mode ≡ true
          → Q (accept_pending, (prepared s, [])))
      → (is_manual s.mode ≡ false
          → is_web_socket s.mode ≡ false
          → (s' : Shared) (a : Call) → Q (write_submitted, (s', a ∷ [])))
      → Q (submit_final_response http r s)
  unfolding submit_final_response
  submit-Acts Q s h f g k =
      let fields = append_set_cookies http s.set_cookies s.fields in
      if-elim Q (is_manual s.mode) f (λ m.
        if-elim Q (not (s.conn && r.stream at_submit))
          (λ e. absurd (ground (arith, h, up.streams at_submit)))
          (λ _. if-elim Q (is_web_socket s.mode) (g m) (λ w.
            k m w (record s { fields = fields; conn = false })
              (do_write_response fields s.body s.keep_alive))))

  pub finalize_post_phase-Acts :
      (mode : Mode) (s : Shared) → s.conn ≡ true → Acts (finalize_post_phase http r mode s)
  unfolding finalize_post_phase
  finalize_post_phase-Acts automatic s h =
      submit-Acts (λ x. Acts (after_automatic http r x)) s h (λ m. try_close-Acts s h)
        (λ _ w. try_close-Acts (prepared s) h) (λ _ _ s' a. refl)
  finalize_post_phase-Acts manual s h =
      submit-Acts (λ x. Acts (after_manual http r x)) s h (λ m. manual-Acts s h)
        (λ _ w. try_close-Acts (prepared s) h) (λ _ _ s' a. refl)
  finalize_post_phase-Acts web_socket s h =
      submit-Acts (λ x. Acts (after_web_socket http r x)) s h (λ m. try_close-Acts s h)
        (λ _ w. try_start-Acts (prepared s) h refl) (λ _ _ s' a. refl)
