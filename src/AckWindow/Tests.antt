-- ===== src/AckWindow/Tests.antt =====
-- A window of three slots: it remembers two records.
use ninewire.Base.{◌≡◌, refl, pos, [], ◌∷◌, arith}
use ninewire.AckWindow.{AckWindow, store, acknowledge}
use ninewire.AckWindow.Records.{IsValid, contents}
use ninewire.AckWindow.Store.{store_refines, remember}
use ninewire.AckWindow.Acknowledge.{acknowledge_refines, answer, reply}

-- Two records, the second of them at slot 0 of the circle.
abbrev wrapped : AckWindow
wrapped = record {
  ack_seq_no = pos 2 ∷ pos 9 ∷ pos 1 ∷ [];
  ack = pos 200 ∷ pos 90 ∷ pos 100 ∷ [];
  time_stamp = 20 ∷ 9 ∷ 10 ∷ [];
  size = 3;
  head = 1;
  tail = 2;
}

wrapped-IsValid : IsValid wrapped
wrapped-IsValid = omega arith

finds_the_second : (acknowledge wrapped 50 (pos 2)).0 ≡ pos 30
unfolding acknowledge
finds_the_second = refl

store_refines_example :
    contents (store wrapped 60 (pos 3) (pos 300))
    ≡ remember 3 ((pos 1, pos 100, 10) ∷ (pos 2, pos 200, 20) ∷ []) (pos 3, pos 300, 60)
store_refines_example = store_refines wrapped 60 (pos 3) (pos 300) wrapped-IsValid

acknowledge_refines_example :
    (reply (acknowledge wrapped 50 (pos 2))
      ≡ answer 50 (pos 2) ((pos 1, pos 100, 10) ∷ (pos 2, pos 200, 20) ∷ []))
    × IsValid (acknowledge wrapped 50 (pos 2)).2
acknowledge_refines_example = acknowledge_refines wrapped 50 (pos 2) wrapped-IsValid
