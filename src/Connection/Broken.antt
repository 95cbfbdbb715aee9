-- ===== src/Connection/Broken.antt =====
-- udt-sys/udt/core.cpp: the flags of CUDT over all that happens to a connection.
use ninewire.Base.{
  ℕ, ◌/◌, ◌≡◌, signed32, refl, subst, ◌∙◌, Bool, ◌==◌, Bool-cases, inl, inr, if◌then◌else◌, pos,
  ltb_ℤ, List, [], ◌∷◌,
}
use ninewire.Packet.{get_ack_seq_no, get_type}
use ninewire.SeqNo.{seqcmp, incseq}
use ninewire.Connection.{
  Congestion, TimeWindow, Udt, Status, CtrlPacket, int_at, break_off, cc_update,
}
use ninewire.Connection.Receive.{process_ack, send_ack2}
use ninewire.Connection.Loss.{process_nak, decode}
use ninewire.Connection.Data.{process_data, pack_data}
use ninewire.Connection.Timers.{
  process_ctrl, dispatch, process_handshake, process_shutdown, process_warning, check_timers,
  ack_due, check_ack, check_expiration,
}
use ninewire.Connection.Flags.{
  Later, same-Later, Later-trans, if-same, status-if, accept_ack-status, send_ack2-status,
  light_ack-status, process_ack2-status, decode-status, pack_data-status, check_expiration-Later,
  process_drop-status, check_ack-status, process_data-status,
}

-- What happens to a connection, with the readings of the clocks.
pub data Event : Type 0 where
  control : CtrlPacket → ℕ → ℕ → Event
  arrival : ℕ → ℕ → ℕ → ℕ → Event
  departure : ℕ → ℕ → Event
  timers : ℕ → ℕ → ℕ → Event

module _ (k : Congestion) (t : TimeWindow) (slower : ℕ → ℕ) (rendezvous : Bool)
    (answer : List ℕ) where
  open k use {C}
  open t use {W}

  break_off-Later : (s : Status) (u : Udt C W) → u.status ≡ s → Later s (break_off u).status
  unfolding break_off
  break_off-Later s u e =
      rw e (record { closing = λ h. h; shutdown = λ h. h; broken = λ h. refl; unhealthy = λ h. h })

  process_ack-Later :
      (u : Udt C W) (p : CtrlPacket) (a b : ℕ) → Later u.status (process_ack k u p a b).status
  unfolding process_ack
  process_ack-Later u p a b =
      let ack = int_at p.words 0 in
      let u' = send_ack2 k u (signed32 (get_ack_seq_no p.packet)) a b in
      let same = send_ack2-status k u (signed32 (get_ack_seq_no p.packet)) a b in
      elim (Bool-cases (p.packet.len == 4)) [
        | inl e ↦ rw e (same-Later u.status _ (light_ack-status k u ack))
        | inr e ↦ elim (Bool-cases (ltb_ℤ (pos 0) (seqcmp ack (incseq u'.snd_curr_seq_no)))) [
          | inl f ↦ rw (e, f) (break_off-Later u.status u' same)
          | inr f ↦ rw (e, f) (same-Later u.status _ (accept_ack-status k u' ack p a b ∙ same))
        ]
      ]

  process_nak-Later : (u : Udt C W) (p : CtrlPacket) → Later u.status (process_nak k u p).status
  unfolding process_nak
  process_nak-Later u p =
      let n = p.packet.len / 4 in
      let told = cc_update k (record u { cc = k.on_loss u.cc p.words n }) in
      let r = decode n told p.words 0 n in
      let same = decode-status k n told p.words 0 n in
      elim (Bool-cases r.1) [
        | inl e ↦ rw e (same-Later u.status _ same)
        | inr e ↦ rw e (break_off-Later u.status r.0 same)
      ]

  process_handshake-status :
      (u : Udt C W) (p : CtrlPacket) → (process_handshake k rendezvous answer u p).status ≡ u.status
  unfolding process_handshake
  process_handshake-status u p = simp (status-if, if-same)

  dispatch-Later :
      (u : Udt C W) (p : CtrlPacket) (type a b : ℕ)
      → Later u.status (dispatch k slower rendezvous answer u p type a b).status
  unfolding dispatch process_shutdown process_warning
  dispatch-Later u p type a b = elim (Bool-cases (type == 2)) [
    | inl e ↦ rw e (process_ack-Later u p a b)
    | inr n0 ↦ elim (Bool-cases (type == 6)) [
      | inl e ↦ rw (n0, e) (same-Later u.status _ (process_ack2-status k u p b))
      | inr n1 ↦ elim (Bool-cases (type == 3)) [
        | inl e ↦ rw (n0, n1, e) (process_nak-Later u p)
        | inr n2 ↦ elim (Bool-cases (type == 4)) [
          | inl e ↦ rw (n0, n1, n2, e) (same-Later u.status _ refl)
          | inr n3 ↦ elim (Bool-cases (type == 0)) [
            | inl e ↦ rw (n0, n1, n2, n3, e) (same-Later u.status _ (process_handshake-status u p))
            | inr n4 ↦ elim (Bool-cases (type == 5)) [
              | inl e ↦
                  rw (n0, n1, n2, n3, n4, e)
                    (record {
                      closing = λ h. refl;
                      shutdown = λ h. refl;
                      broken = λ h. refl;
                      unhealthy = λ h. h;
                    })
              | inr n5 ↦ elim (Bool-cases (type == 7)) [
                | inl e ↦
                    rw (n0, n1, n2, n3, n4, n5, e)
                      (same-Later u.status _ (process_drop-status k u p))
                | inr n6 ↦ elim (Bool-cases (type == 8)) [
                  | inl e ↦
                      rw (n0, n1, n2, n3, n4, n5, n6, e)
                        (record {
                          closing = λ h. h;
                          shutdown = λ h. h;
                          broken = λ h. h;
                          unhealthy = λ h. refl;
                        })
                  | inr n7 ↦ elim (Bool-cases (type == 0x7FFF)) [
                    | inl e ↦ rw (n0, n1, n2, n3, n4, n5, n6, n7, e) (same-Later u.status _ refl)
                    | inr n8 ↦ rw (n0, n1, n2, n3, n4, n5, n6, n7, n8) (same-Later u.status _ refl)
                  ]
                ]
              ]
            ]
          ]
        ]
      ]
    ]
  ]

  unfoldable pub happen : Udt C W → Event → Udt C W
  unfolding process_ctrl process_data pack_data check_timers
  happen u (control p a b) = process_ctrl k slower rendezvous answer u p a b
  happen u (arrival a b c d) = (process_data k t u a b c d).0
  happen u (departure a b) = (pack_data k u a b).0
  happen u (timers a b c) = check_timers k t u a b c

  happen-Later : (u : Udt C W) (e : Event) → Later u.status (happen u e).status
  unfolding happen process_ctrl check_timers
  happen-Later u (control p a b) =
      dispatch-Later (record u { exp_count = 1; last_rsp_time = a }) p (get_type p.packet) a b
  happen-Later u (arrival a b c d) = same-Later u.status _ (process_data-status k t u a b c d)
  happen-Later u (departure a b) = same-Later u.status _ (pack_data-status k u a b)
  happen-Later u (timers a b c) =
      let u' = check_ack k t (cc_update k u) a b c in
      let at = if ack_due k t (cc_update k u) a then b else a in
      subst (λ s. Later s (check_expiration k u' at c).status)
        (check_ack-status k t (cc_update k u) a b c) (check_expiration-Later k u' at c)

  unfoldable pub run : Udt C W → List Event → Udt C W
  unfolding happen
  run u [] = u
  run u (e ∷ es) = run (happen u e) es

  -- Whatever control and data packets come, whatever is sent and whichever timers fire, a
  -- connection that is broken, closing or shut down stays so, and a peer that reported an error
  -- does not count as healthy again.
  pub run-Later : (u : Udt C W) (es : List Event) → Later u.status (run u es).status
  unfolding run
  run-Later u [] = same-Later u.status _ refl
  run-Later u (e ∷ es) = Later-trans (happen-Later u e) (run-Later (happen u e) es)
