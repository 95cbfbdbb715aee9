-- ===== src/RcvUList/Order.antt =====
-- CRcvUList (udt-sys/udt/queue.cpp) as the list of its nodes, the one that waited longest first.
use ninewire.Base.{
  ℕ, ◌≡◌, refl, sym, ◌∙◌, subst, true, false, if_true, if_false, Option, none, some, List, [], ◌∷◌,
  ◌++◌, put,
}
use ninewire.RcvUList.{RcvUList, put_at, append, insert, place, detach, remove, move_last, update}
use mathlib.Core.List.{append-nil}
use ninewire.RcvUList.Links.{
  head_or, last_or, Linked, NotIn, Distinct, Linked-detach, Linked-split, Linked-join,
  Linked-put_next, Linked-put_prev, Linked-back, Distinct-append, append-Distinct, append-NotIn,
  Apart, Apart-tail, put_self, put_at-before,
}

-- The list holds just these nodes, in this order, linked in both directions.
pub record Holds (l : RcvUList) (xs : List ℕ) : Type 0 where
  pub start : l.u_list ≡ head_or none xs
  pub end : l.last ≡ last_or none xs
  pub linked : Linked l.prev l.next none xs none
  pub distinct : Distinct xs

last-append : (o : Option ℕ) (xs ys : List ℕ) → last_or o (xs ++ ys) ≡ last_or (last_or o xs) ys
last-append o [] ys = refl
last-append o (x ∷ xs) ys = last-append (some x) xs ys

abbrev final : ℕ → List ℕ → ℕ
final x [] = x
final x (y ∷ ys) = final y ys

last-final : (x : ℕ) (xs : List ℕ) → last_or (some x) xs ≡ some (final x xs)
last-final x [] = refl
last-final x (y ∷ ys) = last-final y ys

-- Without `n`.
Distinct-without :
    (ys zs : List ℕ) (n : ℕ) → Distinct (ys ++ n ∷ zs) → Distinct (ys ++ zs) × NotIn n (ys ++ zs)
Distinct-without ys zs n d =
    let (dys, dnzs, apart) = Distinct-append ys (n ∷ zs) d in
    let (near, out) = Apart-tail ys zs n apart in
    (append-Distinct ys zs dys dnzs.1 near, append-NotIn n ys zs out dnzs.0)

module _ (l : RcvUList) (n : ℕ) where
  at_start :
      (ys zs : List ℕ)
      → l.u_list ≡ head_or none (ys ++ n ∷ zs)
      → l.prev n ≡ last_or none ys
      → l.next n ≡ head_or none zs
      → (detach l n).u_list ≡ head_or none (ys ++ zs)
  unfolding detach
  at_start [] zs s p q = rw p q
  at_start (y ∷ ys) zs s p q = rw (p ∙ last-final y ys) s

  at_end :
      (ys zs : List ℕ)
      → l.last ≡ last_or none (ys ++ n ∷ zs)
      → l.prev n ≡ last_or none ys
      → l.next n ≡ head_or none zs
      → (detach l n).last ≡ last_or none (ys ++ zs)
  unfolding detach
  at_end ys [] e p q = rw q (p ∙ sym (last-append none ys []))
  at_end ys (z ∷ zs) e p q =
      rw q (e ∙ last-append none ys (n ∷ z ∷ zs) ∙ sym (last-append none ys (z ∷ zs)))

  detach-Holds :
      (ys zs : List ℕ)
      → Holds l (ys ++ n ∷ zs)
      → Holds (detach l n) (ys ++ zs) × NotIn n (ys ++ zs) × (l.next n ≡ head_or none zs)
  unfolding detach
  detach-Holds ys zs h =
      let (left, mid) = Linked-split l.prev l.next none ys (n ∷ zs) none h.linked in
      let (d, out) = Distinct-without ys zs n h.distinct in
      (
        record {
          start = at_start ys zs h.start mid.0 mid.1;
          end = at_end ys zs h.end mid.0 mid.1;
          linked = Linked-detach l.prev l.next ys zs n h.distinct h.linked;
          distinct = d;
        },
        out,
        mid.1,
      )

Apart-single : (n : ℕ) (xs : List ℕ) → NotIn n xs → Apart xs (n ∷ [])
Apart-single n [] h = tt
Apart-single n (x ∷ xs) h = ((λ e. h.0 (sym e), tt), Apart-single n xs h.1)

append-Holds :
    (l : RcvUList) (n x : ℕ) (xs : List ℕ)
    → Holds l (x ∷ xs)
    → NotIn n (x ∷ xs)
    → Holds (append l n) (x ∷ xs ++ n ∷ [])
unfolding append
append-Holds l n x xs h out =
    let all = x ∷ xs in
    let prev' = put l.prev n l.last in
    let next' = put l.next n none in
    let front : Linked prev' (put_at next' (last_or none all) (some n)) none all (some n) =
      Linked-back prev' next' none all none (some n) h.distinct (
        Linked-put_next prev' l.next n none none all none out
          (Linked-put_prev l.prev l.next n l.last none all none out h.linked)) in
    let back : Linked prev' (put_at next' (last_or none all) (some n)) (last_or none all) (n ∷ [])
        none =
      (
        put_self l.prev n l.last ∙ h.end,
        put_at-before next' n x xs (some n) out ∙ put_self l.next n none,
        tt,
      ) in
    record {
      start = h.start;
      end = sym (last-append none all (n ∷ []));
      linked =
          subst (λ o. Linked prev' (put_at next' o (some n)) none (all ++ n ∷ []) none) (sym h.end)
            (Linked-join prev' (put_at next' (last_or none all) (some n)) none all (n ∷ []) none
              front back);
      distinct = append-Distinct all (n ∷ []) h.distinct (tt, tt) (Apart-single n all out);
    }

-- The same, for a list that is known to have a first node.
append_behind :
    (l : RcvUList) (n first : ℕ) (xs : List ℕ)
    → head_or none xs ≡ some first
    → Holds l xs
    → NotIn n xs
    → Holds (append l n) (xs ++ n ∷ [])
append_behind l n first [] e h out = cc
append_behind l n first (x ∷ xs) e h out = append-Holds l n x xs h out

head_of_middle : (ys zs : List ℕ) (z : ℕ) → (x : ℕ) × (head_or none (ys ++ z ∷ zs) ≡ some x)
head_of_middle [] zs z = (z, refl)
head_of_middle (y ∷ ys) zs z = (y, refl)

-- For a list that holds nodes in an order, `insert` puts a node that is not among them behind the
-- others.
pub insert_appends :
    (l : RcvUList) (n clock : ℕ) (xs : List ℕ)
    → Holds l xs
    → NotIn n xs
    → Holds (insert l n clock) (xs ++ n ∷ [])
unfolding insert place
insert_appends l n clock [] h out = rw h.start (record {
  start = refl;
  end = refl;
  linked = (put_self l.prev n none, put_self l.next n none, tt);
  distinct = (tt, tt);
})
insert_appends l n clock (x ∷ xs) h out =
    let stamped : RcvUList = record l { time_stamp = put l.time_stamp n clock } in
    subst (λ o. Holds (place o stamped n) (x ∷ xs ++ n ∷ [])) (sym h.start)
      (append-Holds stamped n x xs
        (record { start = h.start; end = h.end; linked = h.linked; distinct = h.distinct }) out)

removed :
    (l : RcvUList) (n : ℕ) (xs : List ℕ)
    → Holds (detach l n) xs
    → NotIn n xs
    → l.on_list n ≡ true
    → Holds (remove l n) xs
unfolding remove
removed l n xs h out on =
    let cut = detach l n in
    rw on (record {
      start = h.start;
      end = h.end;
      linked =
          Linked-put_prev cut.prev (put cut.next n none) n none none xs none out
            (Linked-put_next cut.prev cut.next n none none xs none out h.linked);
      distinct = h.distinct;
    })

move_last-Holds :
    (l : RcvUList) (n : ℕ) (ys zs : List ℕ)
    → Holds l (ys ++ n ∷ zs)
    → Holds (move_last (head_or none zs) l n) (ys ++ zs ++ n ∷ [])
unfolding move_last
move_last-Holds l n ys [] h = subst (λ w. Holds l (w ++ n ∷ [])) (sym (append-nil ys)) h
move_last-Holds l n ys (z ∷ zs) h =
    let (cut, out, follows) = detach-Holds l n ys (z ∷ zs) h in
    let (x, first) = head_of_middle ys zs z in
    append_behind (detach l n) n x (ys ++ z ∷ zs) first cut out

updated :
    (l : RcvUList) (n clock : ℕ) (ys zs : List ℕ)
    → Holds l (ys ++ n ∷ zs)
    → l.on_list n ≡ true
    → Holds (update l n clock) (ys ++ zs ++ n ∷ [])
unfolding update
updated l n clock ys zs h on =
    let stamped : RcvUList = record l { time_stamp = put l.time_stamp n clock } in
    let same : Holds stamped (ys ++ n ∷ zs) = record {
      start = h.start;
      end = h.end;
      linked = h.linked;
      distinct = h.distinct;
    } in
    let follows : l.next n ≡ head_or none zs = (detach-Holds l n ys zs h).2 in
    subst (λ w. Holds w (ys ++ zs ++ n ∷ [])) (sym (if_true (l.on_list n) _ l on))
      (subst (λ o. Holds (move_last o stamped n) (ys ++ zs ++ n ∷ [])) (sym follows)
        (move_last-Holds stamped n ys zs same))

-- Let a list hold nodes in an order, `n` among them. If its flag says that it is on the list, it
-- leaves by `remove`, and the others keep their order; by `update` it goes behind all the others.
-- If the flag says that it is not, neither changes anything.
pub remove_and_update :
    (l : RcvUList) (n clock : ℕ) (ys zs : List ℕ)
    → Holds l (ys ++ n ∷ zs)
    → (l.on_list n ≡ true
        → Holds (remove l n) (ys ++ zs) × Holds (update l n clock) (ys ++ zs ++ n ∷ []))
      × (l.on_list n ≡ false → (remove l n ≡ l) × (update l n clock ≡ l))
unfolding remove update
remove_and_update l n clock ys zs h =
    let (cut, out, follows) = detach-Holds l n ys zs h in
    (
      λ on. (removed l n (ys ++ zs) cut out on, updated l n clock ys zs h on),
      λ off. (if_false (l.on_list n) _ l off, if_false (l.on_list n) _ l off),
    )
