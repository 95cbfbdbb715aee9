-- ===== src/SndBuffer/Tests.antt =====
-- A buffer of two blocks of three bytes, which has to grow.
use ninewire.Base.{◌≡◌, refl, arith, minus_one, false, some, List, ℕ, [], ◌∷◌, ◌++◌}
use ninewire.SndBuffer.{SndBuffer, blank, new, add_buffer, read_data}
use ninewire.SndBuffer.Grow.{IsValid, contents, pending}
use ninewire.SndBuffer.Add.{packets, add_buffer_refines}
use ninewire.SndBuffer.Stream.{carried, AllShort, Reads, packets_carry, read_data_refines}

abbrev fresh : SndBuffer
fresh = record {
  circle = blank ∷ blank ∷ [];
  first_block = 1;
  curr_block = 1;
  last_block = 1;
  next_msg_no = 1;
  size = 2;
  unit = 2;
  mss = 3;
  count = 0;
}

fresh-IsValid : IsValid fresh
fresh-IsValid = omega arith

abbrev hello : List ℕ
hello = 1 ∷ 2 ∷ 3 ∷ 4 ∷ []

first_packet :
    (read_data (add_buffer (new 2 3) hello 4 minus_one false 7)).0
    ≡ some (record {
      payload = 1 ∷ 2 ∷ 3 ∷ [];
      msg_no = 0x8000_0001;
      origin_time = 7;
      ttl = minus_one;
    })
unfolding new add_buffer read_data
first_packet = refl

add_buffer_refines_example :
    let b' = add_buffer fresh hello 4 minus_one false 7 in
    (contents b' ≡ [] ++ packets fresh hello 4 minus_one false 7)
    × (pending b' ≡ [] ++ packets fresh hello 4 minus_one false 7)
    × IsValid b'
add_buffer_refines_example = add_buffer_refines fresh hello 4 minus_one false 7 fresh-IsValid

packets_carry_example :
    (carried (packets fresh hello 4 minus_one false 7) ≡ hello)
    × AllShort 3 (packets fresh hello 4 minus_one false 7)
packets_carry_example = packets_carry fresh hello minus_one false 7 (omega arith)

read_data_refines_example : Reads fresh (read_data fresh)
read_data_refines_example = read_data_refines fresh fresh-IsValid
