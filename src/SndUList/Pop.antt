-- ===== src/SndUList/Pop.antt =====
-- CSndUList::pop (udt-sys/udt/queue.cpp).
use ninewire.Base.{
  ℕ, ◌≤◌, ◌≡◌, ◌||◌, refl, ap, subst, arith, true, false, ltb, ◌==◌, not, if◌then◌else◌, pos,
  Option, none, some, Bool-cases, inl, inr,
}
use ninewire.SndUList.{SndUList, Ready, key, insert_node, remove_node, send_next, pop}
use ninewire.SndUList.Order.{IsValid, root_least}
use ninewire.SndUList.Up.{insert_node-IsValid}
use ninewire.SndUList.Down.{Removed, remove_node-Removed}

-- What the callers of `pop` see: the list stays in order, and a socket that may send is one that is
-- connected and not broken and gave a packet, whose time has come, and no other one's is earlier.
pub record Popped (s : SndUList) (now : ℕ) (ready : ℕ → Ready) (r : SndUList × Option ℕ)
    : Type 0 where
  pub valid : IsValid r.0
  pub fit :
      (u : ℕ)
      → r.1 ≡ some u
      → ((ready u).connected ≡ true)
        × ((ready u).broken ≡ false)
        × ((t : ℕ) × ((ready u).packed ≡ some t))
  pub due : (u : ℕ) → r.1 ≡ some u → s.time u ≤ now
  pub earliest : (u w i : ℕ) → r.1 ≡ some u → s.loc w ≡ pos i → s.time u ≤ s.time w

abbrev get_some : Option ℕ → ℕ → ℕ
get_some none d = d
get_some (some x) d = x

reinsert-IsValid :
    (s r : SndUList) (u ts : ℕ)
    → Removed s u r
    → IsValid (if ltb 0 ts then insert_node r ts u else r)
reinsert-IsValid s r u ts v = elim (Bool-cases (ltb 0 ts)) [
  | inl t ↦ rw t ((insert_node-IsValid r ts u v.valid (ground (arith, v.members u))).0)
  | inr t ↦ rw t v.valid
]

quiet :
    (s : SndUList) (now : ℕ) (ready : ℕ → Ready) (r : SndUList)
    → IsValid r
    → Popped s now ready (r, none)
quiet s now ready r v = record {
  valid = v;
  fit = λ u e. cc;
  due = λ u e. cc;
  earliest = λ u w i e. cc;
}

send_next-Popped :
    (s : SndUList) (now : ℕ) (ready : ℕ → Ready) (u : ℕ) (r : SndUList) (packed : Option ℕ)
    → (ready u).packed ≡ packed
    → (ready u).connected ≡ true
    → (ready u).broken ≡ false
    → Removed s u r
    → s.time u ≤ now
    → ((w i : ℕ) → s.loc w ≡ pos i → s.time u ≤ s.time w)
    → Popped s now ready (send_next r u packed)
unfolding send_next
send_next-Popped s now ready u r none p c b v due least = quiet s now ready r v.valid
send_next-Popped s now ready u r (some ts) p c b v due least = record {
  valid = reinsert-IsValid s r u ts v;
  fit = λ w e.
      subst
        (λ x.
          ((ready x).connected ≡ true)
          × ((ready x).broken ≡ false)
          × ((t : ℕ) × ((ready x).packed ≡ some t)))
        (ap (λ o. get_some o u) e) (c, b, (ts, p));
  due = λ w e. ground (arith, e, due);
  earliest = λ x w i e f. ground (arith, e, least w i);
}

-- `pop` keeps the heap in order, whatever the sockets answer; and the socket whose packet it gives
-- is connected and not broken, had a packet to send, and has the earliest time on the list, which
-- has come.
pub pop-Popped :
    (s : SndUList) (now : ℕ) (ready : ℕ → Ready) → IsValid s → Popped s now ready (pop s now ready)
unfolding pop
pop-Popped s now ready v =
    let u = s.heap 0 in
    elim (Bool-cases (s.count == 0 || ltb now (key s 0))) [
      | inl t ↦ rw t (quiet s now ready s v)
      | inr t ↦
          let taken = remove_node-Removed s u 0 v (v.linked.0 0 (ground (arith, t))) (inl refl) in
          elim (Bool-cases (not (ready u).connected || (ready u).broken)) [
            | inl e ↦ rw (t, e) (quiet s now ready (remove_node s u) taken.valid)
            | inr e ↦
                rw (t, e)
                  (send_next-Popped s now ready u (remove_node s u) (ready u).packed refl
                    (ground (arith, e)) (ground (arith, e)) taken (ground (arith, t))
                    (λ w i f. root_least s w i v f))
          ]
    ]
