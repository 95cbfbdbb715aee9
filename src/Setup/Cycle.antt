-- ===== src/Setup/Cycle.antt =====
-- udt-sys/udt/core.cpp: what a socket can be, whatever is called in whatever order.
use ninewire.Base.{
  minus_one, Bool-cases, subst, inl, inr, ℕ, ◌-◌, ◌^◌, ◌≡◌, refl, ap, arith, Bool, true, false,
  ◌==◌, not, ◌||◌, if_chooses, List, [], ◌∷◌, Option, none, some, ℤ, pos,
}
use ninewire.Base.Results.{ok, err, after}
use ninewire.Packet.{Packet}
use ninewire.Setup.{new_entry, Socket, call, start_listening}
use ninewire.Setup.Connect.{
  asked_again, shows_connected, is_handshake, read_response, agree, from_cache, build, finish,
  Factory, Outcome, returned, terminated, connect, connect_response, prepare, too_large,
  post_connect, negotiate,
}
use ninewire.Setup.Roles.{
  HasOneRole, start_listening-HasOneRole, connect-HasOneRole, close-HasOneRole,
}
use ninewire.Setup.Close.{close}

-- A call of the program, or a packet that comes for a socket that connects.
pub data Action : Type 0 where
  listens : Bool → Action
  connects : List ℕ → ℤ → ℕ → List ℕ → Action
  responds : Packet → Option (ℤ × ℤ) → Action
  closes : Action

module _ (f : Factory) where
  open f use {k, W}

  -- The socket after `connect(response)`, unless it ends the program.
  abbrev left : Outcome (Socket k.C W) → Option (Socket k.C W)
  left (returned result s) = some s
  left terminated = none

  -- A call that throws leaves the socket as it is.
  unfoldable pub act : Action → Socket k.C W → Option (Socket k.C W)
  unfolding start_listening connect connect_response close
  act (listens taken) s = some (after s (start_listening taken s))
  act (connects ip isn now scratch) s = some (after s (connect f ip isn now scratch s))
  act (responds p cached) s = left (connect_response f p cached s)
  act closes s = some (close s)

  unfoldable pub run : List Action → Socket k.C W → Option (Socket k.C W)
  unfolding act
  run [] s = some s
  run (a ∷ actions) s = elim (act a s) [ none ↦ none | some t ↦ run actions t ]

  -- A socket that is left is in one role.
  abbrev Good : Outcome (Socket k.C W) → Type 0
  Good o = (t : Socket k.C W) → left o ≡ some t → HasOneRole f t

  abbrev of : Option (Socket k.C W) → Socket k.C W → Socket k.C W
  of none s = s
  of (some t) s = t

  returned-Good : (r : ℤ) (s : Socket k.C W) → HasOneRole f s → Good (returned r s)
  returned-Good r s v t e = subst (HasOneRole f) (ap (λ o. of o s) e) v

  prepare-Good :
      (cached : Option (ℤ × ℤ)) (s : Socket k.C W)
      → s.listening ≡ false
      → Good (finish f (prepare f cached s))
  unfolding finish prepare
  prepare-Good cached s l =
      let failed : Good (finish f (err 3 2)) = λ t e. ground (arith, e) in
      if_chooses (λ r. Good (finish f r)) (too_large f s) {x = err 3 2}
        {y = ok (
          call new_entry (record s {
            initial = from_cache cached s.initial;
            connected = true;
            conn = some (build f s (from_cache cached s.initial));
          }))}
        (λ b. failed)
        (λ b. returned-Good (pos 0) _ (record {
          free = λ h. refl;
          alone = λ h. ground (arith, l, h);
          unconnected = λ h. ground (arith, h);
          buffers = λ h e. ground (arith, e);
        }))

  post_connect-Good :
      (cached : Option (ℤ × ℤ)) (s : Socket k.C W)
      → s.listening ≡ false
      → Good (post_connect f cached s)
  unfolding post_connect agree
  post_connect-Good cached s l = prepare-Good cached (agree f s) l

  negotiate-Good :
      (cached : Option (ℤ × ℤ)) (s : Socket k.C W)
      → s.listening ≡ false
      → HasOneRole f s
      → Good (negotiate f cached s)
  unfolding negotiate asked_again
  negotiate-Good cached s l v =
      let again = λ (c : ℕ).
        returned-Good (pos 1)
          (record s {
            conn_req = record s.conn_req { req_type = 2 ^ 32 - 1; cookie = c };
            last_req_time = 0;
          })
          v in
      if_chooses Good s.options.rendezvous
        (λ r.
          if_chooses Good (s.conn_res.req_type == 1) (λ q. returned-Good minus_one s v)
            λ q.
              if_chooses Good (s.conn_req.req_type == 0 || s.conn_res.req_type == 0)
                (λ z. again s.conn_req.cookie) λ z. post_connect-Good cached s l)
        (λ r.
          if_chooses Good (s.conn_res.req_type == 1) (λ q. again s.conn_res.cookie)
            λ q. post_connect-Good cached s l)

  connect_response-Good :
      (p : Packet) (cached : Option (ℤ × ℤ)) (s : Socket k.C W)
      → HasOneRole f s
      → Good (connect_response f p cached s)
  unfolding connect_response read_response
  connect_response-Good p cached s v =
      if_chooses Good (not s.connecting) (λ c. returned-Good minus_one s v)
        λ c.
          let l : s.listening ≡ false = elim (Bool-cases s.listening) [
            | inl h ↦ ground (arith, c, v.free h)
            | inr h ↦ h
          ] in
          if_chooses Good (shows_connected f p s) (λ b. post_connect-Good cached s l)
            λ b.
              if_chooses Good (is_handshake f p)
                (λ h. negotiate-Good cached (read_response f p s) l v)
                (λ h. returned-Good minus_one s v)

  -- Every call and every packet keeps a socket in one role.
  act-Good : (a : Action) (s t : Socket k.C W) → HasOneRole f s → act a s ≡ some t → HasOneRole f t
  unfolding act
  act-Good (listens taken) s t v e =
      subst (HasOneRole f) (ap (λ o. of o s) e) (start_listening-HasOneRole f taken s v)
  act-Good (connects ip isn now scratch) s t v e =
      subst (HasOneRole f) (ap (λ o. of o s) e) (connect-HasOneRole f ip isn now scratch s v)
  act-Good (responds p cached) s t v e = connect_response-Good p cached s v t e
  act-Good closes s t v e = subst (HasOneRole f) (ap (λ o. of o s) e) (close-HasOneRole f s v)

  onward :
      (r : Option (Socket k.C W)) (rest : Socket k.C W → Option (Socket k.C W)) (t : Socket k.C W)
      → ((m : Socket k.C W) → r ≡ some m → rest m ≡ some t → HasOneRole f t)
      → elim r [ none ↦ none | some m ↦ rest m ] ≡ some t
      → HasOneRole f t
  onward none rest t ih e = ground (arith, e)
  onward (some m) rest t ih e = ih m refl e

  -- Let a socket be in at most one of the roles of listening, connecting and being connected, the
  -- last only with its buffers, such as one that was just opened. Then it stays so, whatever calls
  -- of listen, connect and close and whatever packets for a connecting socket come, in any order,
  -- unless one of them ends the program.
  pub run-HasOneRole :
      (actions : List Action) (s t : Socket k.C W)
      → HasOneRole f s
      → run actions s ≡ some t
      → HasOneRole f t
  unfolding run
  run-HasOneRole [] s t v e = subst (HasOneRole f) (ap (λ o. of o s) e) v
  run-HasOneRole (a ∷ actions) s t v e =
      onward (act a s) (run actions) t (λ m h. run-HasOneRole actions m t (act-Good a s m v h)) e
