-- ===== src/Setup/Responses.antt =====
-- udt-sys/udt/core.cpp: what a handshake of the server comes to, for a client that connects.
use ninewire.Base.{
  ℕ, ◌+◌, ◌-◌, ◌%◌, ◌^◌, leb, scale, to_word, ◌≡◌, refl, ◌∙◌, Bool, true, false, ◌==◌, ◌||◌, not,
  minus_one, if_true, if_false, sym, inl, inr, Bool-cases, if◌then◌else◌, if_chooses, ap, ℤ, pos,
  signed32, ltb_ℤ, ◌-ℤ◌, arith, Option, none, some,
}
use ninewire.Base.Results.{ok, err}
use ninewire.Packet.{Packet}
use ninewire.Setup.{call, new_entry, Socket, start_receiving, set_sizes}
use ninewire.Setup.Connect.{
  from_cache, build, Factory, Outcome, returned, terminated, connect_response, is_handshake,
  read_response, prepare, too_large, agree, asked_again, shows_connected, finish,
}
use ninewire.Setup.Negotiate.{resp_post, resp_again}

-- Whether the connection's buffers cannot be made with the MSS and the window of a handshake, as its
-- words: 32 times the bytes of a packet behind 64 bytes of headers, or twice the window, is a
-- negative int.
abbrev pub is_unusable : ℕ → ℕ → Bool
is_unusable mss window =
    leb (2 ^ 26) ((mss + (2 ^ 27 - 64)) % 2 ^ 27) || leb (2 ^ 30) (window % 2 ^ 31)

-- The result, whether the socket is connected then, and the cookie of its next request; `none` for
-- the end of the program.
abbrev pub in_short : {C W : Type 0} → Outcome (Socket C W) → Option (ℤ × Bool × ℕ)
in_short (returned r s) = some (r, s.connected, s.conn_req.cookie)
in_short terminated = none

size_test :
    (m : ℕ)
    → ltb_ℤ (signed32 (to_word (scale 32 (signed32 m -ℤ pos 48 -ℤ pos 16)))) (pos 0)
      ≡ leb (2 ^ 26) ((m + (2 ^ 27 - 64)) % 2 ^ 27)
unfolding ◌-ℤ◌ scale to_word
size_test m = ground arith

window_test :
    (w : ℕ) → ltb_ℤ (signed32 (to_word (scale 2 (signed32 w)))) (pos 0) ≡ leb (2 ^ 30) (w % 2 ^ 31)
unfolding scale to_word
window_test w = ground arith

finish_short :
    (f : Factory) (cached : Option (ℤ × ℤ)) (s : Socket f.k.C f.W)
    → in_short (finish f (prepare f cached s))
      ≡ (if too_large f s then none else some (pos 0, true, s.conn_req.cookie))
unfolding finish prepare
finish_short f cached s =
    if_chooses
      (λ r.
        in_short (finish f r)
        ≡ (if too_large f s then none else some (pos 0, true, s.conn_req.cookie)))
      (too_large f s) {x = err 3 2}
      {y = ok (
        call new_entry (record s {
          initial = from_cache cached s.initial;
          connected = true;
          conn = some (build f s (from_cache cached s.initial));
        }))}
      (λ b. rw b refl) (λ b. rw b refl)

too_large-agree :
    (f : Factory) (s : Socket f.k.C f.W)
    → too_large f (agree f s) ≡ is_unusable s.conn_res.mss s.conn_res.flight_flag_size
unfolding agree set_sizes start_receiving too_large
too_large-agree f s = rw (size_test s.conn_res.mss, window_test s.conn_res.flight_flag_size) refl

decides_handshake :
    (f : Factory) (p : Packet) (cached : Option (ℤ × ℤ)) (s : Socket f.k.C f.W)
    → s.options.rendezvous ≡ false
    → s.connecting ≡ true
    → is_handshake f p ≡ true
    → let hs = (read_response f p s).conn_res in
      in_short (connect_response f p cached s) ≡ (
        if hs.req_type == 1
        then some (pos 1, s.connected, hs.cookie)
        else if is_unusable hs.mss hs.flight_flag_size
        then none
        else some (pos 0, true, s.conn_req.cookie))
unfolding asked_again agree set_sizes start_receiving read_response
decides_handshake f p cached s r c h =
    let s' = read_response f p s in
    elim (Bool-cases (s'.conn_res.req_type == 1)) [
      | inl q ↦ rw q (ap in_short (resp_again f f p cached s c r h q))
      | inr q ↦ rw q (
          ap in_short (resp_post f f p cached s c r h q)
          ∙ finish_short f cached (agree f s')
          ∙ ap (λ b. if b then none else some (pos 0, true, s.conn_req.cookie))
              (too_large-agree f s'))
    ]

passes_over_idle :
    (f : Factory) (p : Packet) (cached : Option (ℤ × ℤ)) (s : Socket f.k.C f.W)
    → s.connecting ≡ false
    → connect_response f p cached s ≡ returned minus_one s
unfolding connect_response
passes_over_idle f p cached s c = if_true (not s.connecting) _ _ (ground (arith, c))

passes_over_other :
    (f : Factory) (p : Packet) (cached : Option (ℤ × ℤ)) (s : Socket f.k.C f.W)
    → s.connecting ≡ true
    → s.options.rendezvous ≡ false
    → is_handshake f p ≡ false
    → connect_response f p cached s ≡ returned minus_one s
unfolding connect_response shows_connected
passes_over_other f p cached s c r h =
    if_false (not s.connecting) _ _ (ground (arith, c))
    ∙ if_false (shows_connected f p s) _ _ (rw r refl)
    ∙ if_false (is_handshake f p) _ _ h

-- For a client that is not in rendezvous mode, every packet is decided so. If the client does not
-- connect or the packet is no handshake, the result is -1; if the handshake has a cookie for it, the
-- result is 1 and the next request has this cookie. Otherwise, if 32 times the bytes of a packet, of
-- the handshake's MSS less 64, or twice its window are negative ints, where a product out of range
-- wraps, the program is ended. Otherwise the client is connected, even if the handshake says that
-- the server refuses it.
pub connect_response_decides :
    (f : Factory) (p : Packet) (cached : Option (ℤ × ℤ)) (s : Socket f.k.C f.W)
    → s.options.rendezvous ≡ false
    → let hs = (read_response f p s).conn_res in
      in_short (connect_response f p cached s) ≡ (
        if not s.connecting || not (is_handshake f p)
        then some (minus_one, s.connected, s.conn_req.cookie)
        else if hs.req_type == 1
        then some (pos 1, s.connected, hs.cookie)
        else if is_unusable hs.mss hs.flight_flag_size
        then none
        else some (pos 0, true, s.conn_req.cookie))
connect_response_decides f p cached s r = elim (Bool-cases s.connecting) [
  | inr c ↦
      ap in_short (passes_over_idle f p cached s c)
      ∙ sym (if_true (not s.connecting || not (is_handshake f p)) _ _ (ground (arith, c)))
  | inl c ↦ elim (Bool-cases (is_handshake f p)) [
    | inr h ↦
        ap in_short (passes_over_other f p cached s c r h)
        ∙ sym (if_true (not s.connecting || not (is_handshake f p)) _ _ (ground (arith, h)))
    | inl h ↦
        decides_handshake f p cached s r c h
        ∙ sym (if_false (not s.connecting || not (is_handshake f p)) _ _ (ground (arith, c, h)))
  ]
]
