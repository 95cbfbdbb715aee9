-- ===== src/United/Repeat.antt =====
-- udt-sys/udt/api.cpp: a peer that asks twice gets one connection.
use ninewire.Base.{
  not, length, ℕ, ◌-◌, ◌≡◌, refl, sym, ap, subst, arith, Bool, true, false, ltb, leb, ◌==◌, ==_self,
  ne→==, if◌then◌else◌, if_chooses, if_true, if_false, List, [], ◌∷◌, Option, none, some, ℤ, pos,
  ℕ_discrete, ◌∙◌,
}
use ninewire.Base.Results.{Result, ok, err, ◌>>=◌}
use ninewire.Packet.HandShake.{HandShake}
use ninewire.RcvQueue.{find_entry, set_entry}
use ninewire.RcvQueue.Mailbox.{find_entry-set_entry}
use ninewire.Packet.HandShake.{words}
use ninewire.Setup.{
  open_socket, new, Socket, call, send_to, new_entry, start_sending, start_receiving, set_sizes,
}
use ninewire.Setup.Connect.{
  Factory, connect_peer, agree_peer, answered, from_cache, prepare, too_large, build,
}
use ninewire.United.{
  UdtSocket, United, assign, set_insert, peer_key, has_peer, first_with, or_empty, locate,
  locate_peer, open_only, is_broken, is_closed, answer_again,
}
use ninewire.United.Calls.{
  Env, register, entry_for, fresh_end, finish_connection, refuse, add_connection, known_peer,
  process_request, new_connection,
}

in_front :
    {A : Type 0} (m : List (ℕ × A)) (k j : ℕ) (a : A)
    → find_entry ((k, a) ∷ m) j ≡ (if j == k then some a else find_entry m j)
unfolding find_entry
in_front m k j a = ground arith

pub find_entry-assign :
    {A : Type 0} (m : List (ℕ × A)) (k j : ℕ) (a : A)
    → find_entry (assign m k a) j ≡ (if j == k then some a else find_entry m j)
unfolding assign
find_entry-assign {A = A} m k j a = by_entry (find_entry m k) refl
  where
    by_entry :
        (o : Option A)
        → find_entry m k ≡ o
        → find_entry (elim o [ none ↦ (k, a) ∷ m | some b ↦ set_entry m k a ]) j
          ≡ (if j == k then some a else find_entry m j)
    by_entry none e = in_front m k j a
    by_entry (some b) e = find_entry-set_entry m k j a b e

not_chosen :
    (b : Bool) (y : ℕ) (o : Option ℕ) → (if b then some y else o) ≡ none → (b ≡ false) × (o ≡ none)
not_chosen true y o e = ground (arith, e)
not_chosen false y o e = (refl, e)

module _ {C W : Type 0} where
  -- The identifier of the one socket of the peer is found in a set that it was put into.
  first_with-set_insert :
      (g h : United C W) (peer id : ℕ) (ids : List ℕ)
      → has_peer peer (find_entry h.sockets id) ≡ true
      → ((x : ℕ)
          → (x ≡ id → ⊥)
          → has_peer peer (find_entry h.sockets x) ≡ has_peer peer (find_entry g.sockets x))
      → first_with g peer ids ≡ none
      → first_with h peer (set_insert ids id) ≡ some id
  unfolding first_with set_insert
  first_with-set_insert g h peer id [] t same e = rw t refl
  first_with-set_insert g h peer id (y ∷ ids) t same e =
      let Finds = λ (l : List ℕ). first_with h peer l ≡ some id in
      let left = not_chosen (has_peer peer (find_entry g.sockets y)) y (first_with g peer ids) e in
      if_chooses Finds (ltb id y) (λ c. rw t refl)
        λ c.
          if_chooses Finds (id == y)
            (λ c.
              let eq : id ≡ y = ground (arith, c) in
              rw (subst (λ k. has_peer peer (find_entry h.sockets k) ≡ true) eq t)
                (ap (λ k. some k) (sym eq)))
            (λ d.
              rw (same y (ground (arith, d)) ∙ left.0)
                (first_with-set_insert g h peer id ids t same left.1))

-- The listener, the new socket and the registry with it.
module _ (f : Factory) (g : United f.k.C f.W) (listener id : ℕ) (ls ns : UdtSocket f.k.C f.W)
    (here : find_entry g.sockets listener ≡ some ls) (fresh : find_entry g.sockets id ≡ none) where
  not_new : listener ≡ id → ⊥
  not_new e = let z = sym here ∙ ap (find_entry g.sockets) e ∙ fresh in ground (arith, z)

  abbrev after : United f.k.C f.W
  after = register f listener ls id ns g

  abbrev ls' : UdtSocket f.k.C f.W
  ls' = record ls { queued_sockets = set_insert ls.queued_sockets id }

  there : find_entry (assign g.sockets id ns) listener ≡ some ls
  there =
      find_entry-assign g.sockets id listener ns
      ∙ if_false (listener == id) (some ns) (find_entry g.sockets listener)
          (ne→== listener id not_new)
      ∙ here

  sockets_after :
      (x : ℕ)
      → find_entry after.sockets x
        ≡ (if x == listener then some ls' else if x == id then some ns else find_entry g.sockets x)
  unfolding register
  sockets_after x =
      find_entry-set_entry (assign g.sockets id ns) listener x ls' ls there
      ∙ ap (λ o. if x == listener then some ls' else o) (find_entry-assign g.sockets id x ns)

  new_after : find_entry after.sockets id ≡ some ns
  new_after =
      sockets_after id ∙ rw (ne→== id listener (λ e. not_new (sym e))) (rw (==_self id) refl)

  listener_after : find_entry after.sockets listener ≡ some ls'
  listener_after = sockets_after listener ∙ rw (==_self listener) refl

  peers_after :
      (peer x : ℕ)
      → (x ≡ id → ⊥)
      → has_peer peer (find_entry after.sockets x) ≡ has_peer peer (find_entry g.sockets x)
  unfolding has_peer
  peers_after peer x ne = elim (ℕ_discrete x listener) [
    | yes e ↦
        ap (has_peer peer) (ap (find_entry after.sockets) e ∙ listener_after)
        ∙ sym (ap (has_peer peer) (ap (find_entry g.sockets) e ∙ here))
    | no e ↦
        ap (has_peer peer) (sockets_after x ∙ rw (ne→== x listener e) (rw (ne→== x id ne) refl))
  ]

  located_after :
      (peer : ℕ)
      → ns.peer_addr ≡ peer
      → locate_peer g peer ns.peer_id ns.isn ≡ none
      → locate_peer after peer ns.peer_id ns.isn ≡ some id
  unfolding locate_peer register has_peer
  located_after peer p e =
      let key = peer_key ns.peer_id ns.isn in
      let old = or_empty (find_entry g.peer_rec key) in
      let recorded : find_entry after.peer_rec key ≡ some (set_insert old id) =
        find_entry-assign g.peer_rec key key (set_insert old id)
        ∙ if_true (key == key) _ _ (==_self key) in
      rw recorded (
        first_with-set_insert g after peer id old
          (ap (has_peer peer) new_after ∙ ap (λ a. a == peer) p ∙ ==_self peer) (peers_after peer)
          e)

-- The socket that `connect` sets up is the one that it was called for, and not broken.
pub record IsSound {C W : Type 0} (id : ℕ) (s : Socket C W) : Type 0 where
  pub same : s.id ≡ id
  pub whole : elim s.conn [ none ↦ s.status.broken | some u ↦ u.status.broken ] ≡ false

abbrev result_or : {A : Type 0} → A → Result A → A
result_or a (ok b) = b
result_or a (err i j) = a

connect_peer-IsSound :
    (f : Factory) (ip : List ℕ) (hs : HandShake) (cached : Option (ℤ × ℤ)) (now : ℕ)
    (s t : Socket f.k.C f.W)
    → s.status.broken ≡ false
    → connect_peer f ip hs cached now s ≡ ok t
    → IsSound s.id t
unfolding connect_peer prepare build agree_peer start_sending start_receiving set_sizes
connect_peer-IsSound f ip hs cached now s t w =
    if_chooses
      (λ r.
        (r >>= λ c. ok (call (send_to hs.id (words (answered f s ip hs)) (pos 48)) c)) ≡ ok t
        → IsSound s.id t)
      (too_large f (agree_peer f hs now s)) {x = err 3 2}
      {y = ok (
        call new_entry (record (agree_peer f hs now s) {
          initial = from_cache cached s.initial;
          connected = true;
          conn = some (build f (agree_peer f hs now s) (from_cache cached s.initial));
        }))}
      (λ b e. ground (arith, e))
      (λ b e. subst (IsSound s.id) (ap (result_or s) e) (record { same = refl; whole = w }))

-- A second request of the same peer, for the registry after the first one.
pub record IsKnown (f : Factory) (listener peer : ℕ) (env : Env) (hs : HandShake)
    (g : United f.k.C f.W) : Type 0 where
  pub answered : (new_connection f listener peer env g hs).0 ≡ pos 0
  pub same_socket : (new_connection f listener peer env g hs).1.id ≡ g.socket_id
  pub nothing_new : (new_connection f listener peer env g hs).2 ≡ g

module _ (f : Factory) (g : United f.k.C f.W) (listener peer : ℕ) (ls : UdtSocket f.k.C f.W)
    (env env' : Env) (hs : HandShake) where
  finish_connection-IsKnown :
      (r : Result (Socket f.k.C f.W))
      → ((s : Socket f.k.C f.W) → r ≡ ok s → IsSound (g.socket_id - 1) s)
      → find_entry g.sockets listener ≡ some ls
      → is_closed ls.status ≡ false
      → find_entry g.sockets (g.socket_id - 1) ≡ none
      → locate_peer g peer hs.id hs.isn ≡ none
      → (finish_connection f listener ls peer hs env g r).0 ≡ pos 1
      → IsKnown f listener peer env' hs (finish_connection f listener ls peer hs env g r).2
  unfolding finish_connection entry_for new_connection locate open_only process_request known_peer
      is_broken answer_again register
  finish_connection-IsKnown (err i j) sound here up fresh unknown e = ground (arith, e)
  finish_connection-IsKnown (ok s) sound here up fresh unknown e =
      let id = g.socket_id - 1 in
      let ns = entry_for f listener peer hs s in
      let after = register f listener ls id ns g in
      let s' = sound s refl in
      let located : locate after listener ≡ some (ls' f g listener id ls ns here fresh) =
        rw (listener_after f g listener id ls ns here fresh, locate) (rw up refl) in
      let known : new_connection f listener peer env' after hs
          ≡ (pos 0, answer_again ns hs, after) =
        rw (located, new_connection)
          (rw (located_after f g listener id ls ns here fresh peer refl unknown, process_request)
            (rw (new_after f g listener id ls ns here fresh, process_request)
              (rw (s'.whole, known_peer) refl))) in
      record {
        answered = ap (λ r. r.0) known;
        same_socket = ap (λ r. r.1.id) known ∙ s'.same;
        nothing_new = ap (λ r. r.2) known;
      }

-- Let a listener of the registry be open, let the next identifier be free, and let no socket be known
-- for the peer's handshake. If `newConnection` makes a connection, then the next request of this
-- peer with the same handshake changes nothing in the registry, and the answer names the socket that
-- was made.
pub new_connection-IsKnown :
    (f : Factory) (g : United f.k.C f.W) (listener peer : ℕ) (ls : UdtSocket f.k.C f.W)
    (env env' : Env) (hs : HandShake)
    → find_entry g.sockets listener ≡ some ls
    → is_closed ls.status ≡ false
    → find_entry g.sockets (g.socket_id - 1) ≡ none
    → locate_peer g peer hs.id hs.isn ≡ none
    → (new_connection f listener peer env g hs).0 ≡ pos 1
    → IsKnown f listener peer env' hs (new_connection f listener peer env g hs).2
unfolding new_connection locate open_only process_request add_connection refuse fresh_end
    open_socket new
new_connection-IsKnown f g listener peer ls env env' hs here up fresh unknown =
    let id = g.socket_id - 1 in
    let Known =
      λ (r : ℤ × HandShake × United f.k.C f.W). r.0 ≡ pos 1 → IsKnown f listener peer env' hs r.2 in
    let adds : new_connection f listener peer env g hs
        ≡ add_connection f listener ls peer hs env g =
      rw (here, new_connection, locate) (rw up (rw (unknown, process_request) refl)) in
    let sound = λ (s : Socket f.k.C f.W).
      connect_peer-IsSound f env.ip hs env.cached env.now (fresh_end f ls env id) s refl in
    let made =
      finish_connection-IsKnown f g listener peer ls env env' hs
        (connect_peer f env.ip hs env.cached env.now (fresh_end f ls env id)) sound here up fresh
        unknown in
    subst Known (sym adds) (
      if_chooses Known (leb ls.backlog (length ls.queued_sockets)) (λ c e. ground (arith, e))
        λ c. if_chooses Known (not env.bound) (λ b e. ground (arith, e)) λ b. made)
