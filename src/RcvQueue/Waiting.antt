-- ===== src/RcvQueue/Waiting.antt =====
-- udt-sys/udt/queue.cpp: the packets that wait for connecting sockets, as one queue for each socket.
use ninewire.Base.{
  suc, ℕ_discrete, ne→==, ℕ, ◌≤◌, ◌≡◌, refl, sym, ap, subst, arith, Bool, true, false, ltb, ◌==◌,
  ==_self, if◌then◌else◌, if_chooses, List, [], ◌∷◌, ◌++◌, map, length, Option, none, some, ◌∙◌,
}
use ninewire.Packet.{Packet}
use ninewire.RcvQueue.{
  Mail, Received, nothing, too_long, packet, find_entry, set_entry, erase_entry, push_pkt, leave,
  take_front,
}
use ninewire.RcvQueue.Mailbox.{
  IsDistinct, find_entry-set_entry, find_entry-erase_entry, set_entry-IsDistinct,
  erase_entry-IsDistinct,
}

-- What the queues are: at most 17 packets for each socket, first in first out.
abbrev pub Waiting : Type 0
Waiting = ℕ → List Packet

abbrev pub at : Waiting → ℕ → List Packet → Waiting
at w id q j = if j == id then q else w j

-- The queue after one more packet, and without its first one.
abbrev pub enqueue : List Packet → Packet → List Packet
enqueue q p = if ltb 16 (length q) then q else q ++ p ∷ []

abbrev pub rest_of : List Packet → List Packet
rest_of [] = []
rest_of (p ∷ q) = q

abbrev pub front_of : List Packet → Received
front_of [] = nothing
front_of (p ∷ q) = packet p

-- The entry of the map for a queue.
abbrev pub entry : List Packet → Option (List (Option Packet))
entry [] = none
entry (p ∷ q) = some (map some (p ∷ q))

pub data Fits (limit : ℕ) : List Packet → Type 0 where
  nil : Fits limit []
  cons : {p : Packet} {q : List Packet} → p.len ≤ limit → Fits limit q → Fits limit (p ∷ q)

pub record Holds (limit : ℕ) (m : Mail) (w : Waiting) : Type 0 where
  pub distinct : IsDistinct m
  pub same : (j : ℕ) → find_entry m j ≡ entry (w j)
  pub fits : (j : ℕ) → Fits limit (w j)

length-entry : (q : List Packet) → length (map {B = Option Packet} some q) ≡ length q
length-entry [] = refl
length-entry (p ∷ q) = ap (λ n. suc n) (length-entry q)

map-append :
    (q : List Packet) (p : Packet)
    → map {B = Option Packet} some (q ++ p ∷ []) ≡ map some q ++ some p ∷ []
map-append [] p = refl
map-append (x ∷ q) p = ap (λ r. some x ∷ r) (map-append q p)

append-Fits :
    (limit : ℕ) (q : List Packet) (p : Packet)
    → p.len ≤ limit
    → Fits limit q
    → Fits limit (q ++ p ∷ [])
append-Fits limit [] p h nil = cons h nil
append-Fits limit (x ∷ q) p h (cons l f) = cons l (append-Fits limit q p h f)

either_entry :
    (b : Bool) (q r : List Packet) (o : Option (List (Option Packet)))
    → o ≡ entry r
    → (if b then entry q else o) ≡ entry (if b then q else r)
either_entry true q r o e = refl
either_entry false q r o e = e

-- A map that differs from one that holds `w` in the entry of `id` only.
at-Holds :
    (limit : ℕ) (m m' : Mail) (w : Waiting) (id : ℕ) (q : List Packet)
    → Holds limit m w
    → IsDistinct m'
    → ((j : ℕ) → find_entry m' j ≡ (if j == id then entry q else find_entry m j))
    → Fits limit q
    → Holds limit m' (at w id q)
at-Holds limit m m' w id q v d e f = record {
  distinct = d;
  same = λ j. e j ∙ either_entry (j == id) q (w j) (find_entry m j) (v.same j);
  fits = λ j. if_chooses (Fits limit) (j == id) (λ h. f) (λ h. v.fits j);
}

-- Nothing changes where the queue stays the same.
at_self : (w : Waiting) (id : ℕ) (q : List Packet) (j : ℕ) → w id ≡ q → w j ≡ at w id q j
at_self w id q j e = elim (ℕ_discrete j id) [
  | yes h ↦ rw h (rw (==_self id) e)
  | no h ↦ rw (ne→== j id h) refl
]

stay-Holds :
    (limit : ℕ) (m : Mail) (w : Waiting) (id : ℕ) (q : List Packet)
    → w id ≡ q
    → Holds limit m w
    → Holds limit m (at w id q)
stay-Holds limit m w id q e v = record {
  distinct = v.distinct;
  same = λ j. v.same j ∙ ap entry (at_self w id q j e);
  fits = λ j. subst (Fits limit) (at_self w id q j e) (v.fits j);
}

pub push_pkt-Holds :
    (limit : ℕ) (m : Mail) (w : Waiting) (id : ℕ) (p : Packet) (q : List Packet)
    → p.len ≤ limit
    → Holds limit m w
    → w id ≡ q
    → Holds limit (push_pkt m id p (entry q)) (at w id (enqueue q p))
unfolding push_pkt IsDistinct find_entry
push_pkt-Holds limit m w id p [] h v e =
    at-Holds limit m ((id, some p ∷ []) ∷ m) w id (p ∷ []) v (v.same id ∙ ap entry e, v.distinct)
      (λ j. ground arith) (cons h nil)
push_pkt-Holds limit m w id p (x ∷ q) h v e =
    let full = λ (k : Bool). if k then x ∷ q else x ∷ q ++ p ∷ [] in
    let longer : List (Option Packet) = map some (x ∷ q) ++ some p ∷ [] in
    let there = v.same id ∙ ap entry e in
    if_chooses (λ m'. Holds limit m' (at w id (enqueue (x ∷ q) p)))
      (ltb 16 (length (map {B = Option Packet} some (x ∷ q)))) {x = m} {y = set_entry m id longer}
      (λ c.
        subst (λ k. Holds limit m (at w id (full k))) (sym c ∙ same_test)
          (stay-Holds limit m w id (x ∷ q) e v))
      (λ c.
        subst (λ k. Holds limit (set_entry m id longer) (at w id (full k))) (sym c ∙ same_test)
          (at-Holds limit m (set_entry m id longer) w id (x ∷ q ++ p ∷ []) v
            (set_entry-IsDistinct m id longer v.distinct)
            (λ j.
              subst
                (λ l.
                  find_entry (set_entry m id longer) j
                  ≡ (if j == id then some l else find_entry m j))
                (sym (map-append (x ∷ q) p)) (find_entry-set_entry m id j longer _ there))
            (append-Fits limit (x ∷ q) p h (subst (Fits limit) e (v.fits id)))))
  where
    same_test : ltb 16 (length (map {B = Option Packet} some (x ∷ q))) ≡ ltb 16 (length (x ∷ q))
    same_test = ap (ltb 16) (length-entry (x ∷ q))

split_Fits :
    (limit : ℕ) (p : Packet) (q : List Packet) → Fits limit (p ∷ q) → (p.len ≤ limit) × Fits limit q
split_Fits limit p q (cons l f) = (l, f)

pub take_front-Holds :
    (limit room : ℕ) (m : Mail) (w : Waiting) (id : ℕ) (q : List Packet)
    → limit ≤ room
    → Holds limit m w
    → w id ≡ q
    → ((take_front m id room (entry q)).0 ≡ front_of q)
      × Holds limit (take_front m id room (entry q)).1 (at w id (rest_of q))
unfolding take_front leave
take_front-Holds limit room m w id [] h v e = (refl, stay-Holds limit m w id [] e v)
take_front-Holds limit room m w id (p ∷ []) h v e =
    let fits = split_Fits limit p [] (subst (Fits limit) e (v.fits id)) in
    if_chooses (λ (r : Received × Mail). (r.0 ≡ packet p) × Holds limit r.1 (at w id []))
      (ltb room p.len) {x = (too_long, set_entry m id (none ∷ map some []))}
      {y = (packet p, erase_entry m id)} (λ c. ground (arith, c, h, fits.0))
      (λ c. (
        refl,
        at-Holds limit m (erase_entry m id) w id [] v (erase_entry-IsDistinct m id v.distinct)
            (λ j. find_entry-erase_entry m id j v.distinct) fits.1,
      ))
take_front-Holds limit room m w id (p ∷ x ∷ q) h v e =
    let fits = split_Fits limit p (x ∷ q) (subst (Fits limit) e (v.fits id)) in
    if_chooses (λ (r : Received × Mail). (r.0 ≡ packet p) × Holds limit r.1 (at w id (x ∷ q)))
      (ltb room p.len) {x = (too_long, set_entry m id (none ∷ map some (x ∷ q)))}
      {y = (packet p, set_entry m id (map some (x ∷ q)))} (λ c. ground (arith, c, h, fits.0))
      (λ c. (
        refl,
        at-Holds limit m (set_entry m id (map some (x ∷ q))) w id (x ∷ q) v
            (set_entry-IsDistinct m id (map some (x ∷ q)) v.distinct)
            (λ j.
              find_entry-set_entry m id j (map some (x ∷ q)) (map some (p ∷ x ∷ q))
                (v.same id ∙ ap entry e))
            fits.1,
      ))
