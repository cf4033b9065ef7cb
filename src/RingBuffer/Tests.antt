-- ===== src/RingBuffer/Tests.antt =====
-- Runs of a ring of four bytes.
use ob_preliminary.Common.{ℕ, ◌≡◌, ◌++◌, refl, List, [], ◌∷◌, length, take, arith}
use ob_preliminary.Common.Int.{pos, ◌<ℤ◌}
use ob_preliminary.Common.Rc.{Rc}
use ob_preliminary.RingBuffer.{RingBuffer, capacity, write, read, go_back, forward, region}
use ob_preliminary.RingBuffer.Inv.{IsRing, contents}
use ob_preliminary.RingBuffer.Write.{write_lem}
use ob_preliminary.RingBuffer.Read.{read_lem}
use ob_preliminary.RingBuffer.GoBack.{go_back_lem, go_back_wrapped}

-- The bytes 1, 2, 3 with the oldest at place 2, so that they pass the end of the buffer.
abbrev ring : RingBuffer
ring = record { buffer = 3 ∷ 0 ∷ 1 ∷ 2 ∷ []; data_size = 3; write_pos = pos 1 }

ring-IsRing : IsRing ring 1
ring-IsRing = record { here = refl; inside = omega arith; holds = omega arith }

abbrev more : List ℕ
more = 8 ∷ 9 ∷ []

write_lem_example :
    let (rc, count, r') = write ring more (pos 2) in
    (rc ≡ Rc.success)
    × (count ≡ 1)
    × ((w' : ℕ) × IsRing r' w' × (contents r' w' ≡ contents ring 1 ++ take count more))
    × (capacity r' ≡ 4)
write_lem_example = write_lem ring 1 more 2 ring-IsRing (omega arith)

read_lem_example :
    let (rc, out, r') = read ring (pos 2) in
    (rc ≡ Rc.success)
    × (length out ≡ 2)
    × (contents ring 1 ≡ out ++ contents r' 1)
    × IsRing r' 1
    × (capacity r' ≡ 4)
read_lem_example = read_lem ring 1 2 ring-IsRing

go_back_lem_example :
    let (rc, r') = go_back ring (pos 1) in
    (rc ≡ Rc.success)
    × IsRing r' 0
    × ((last : List ℕ) × (contents ring 1 ≡ contents r' 0 ++ last) × (length last ≡ 1))
go_back_lem_example = go_back_lem ring 1 1 ring-IsRing (omega arith) (omega arith) (omega arith)

go_back_wrapped_example :
    let (rc, r') = go_back ring (pos 2) in
    let shown = pos 2 in
    (rc ≡ Rc.success)
    × (r'.write_pos <ℤ pos 0)
    × (r'.data_size ≡ 1)
    × ((region r').1 ≡ shown)
    × (pos r'.data_size <ℤ shown)
    × (forward r' shown ≡ (Rc.invalid_argument, r'))
go_back_wrapped_example = go_back_wrapped ring 1 2 ring-IsRing (omega arith) (omega arith)

holds : contents ring 1 ≡ 1 ∷ 2 ∷ 3 ∷ []
holds = refl
