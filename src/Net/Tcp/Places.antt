-- ===== src/Net/Tcp/Places.antt =====
-- Where segments end, against a place of the stream.
use onix.Base.{ℕ, ◌+◌, ◌%◌, ◌^◌, ◌≤◌, ◌<◌, not, List, [], ◌∷◌, leb, ◌≡◌, ap, arith}
use onix.Net.Tcp.{Seg, seg_size, seq_gt}
use onix.Net.Tcp.Output.{seg_end}
use onix.Net.Tcp.Seq.{seq_leq-places}
use onix.Net.Tcp.Stream.{Contiguous}

-- Every segment ends behind the place.
unfoldable pub EndAfter : ℕ → ℕ → List Seg → Type 0
EndAfter place from [] = Unit
EndAfter place from (g ∷ gs) = (place < from + seg_size g) × EndAfter place (from + seg_size g) gs

pub after_place :
    (from place : ℕ) (g : Seg)
    → g.seqno ≡ from % 2 ^ 32
    → from + seg_size g < place + 2 ^ 31
    → place < from + seg_size g + 2 ^ 31
    → seq_gt (seg_end g) (place % 2 ^ 32) ≡ not (leb (from + seg_size g) place)
after_place from place g e lt gt =
    let m : seg_end g ≡ (from + seg_size g) % 2 ^ 32 = omega (arith, e) in
    rw m (ap not (seq_leq-places (from + seg_size g) place lt gt))

pub bounded :
    (stream : ℕ → ℕ) (from : ℕ) (gs : List Seg) (to : ℕ) → Contiguous stream from gs to → from ≤ to
unfolding Contiguous
bounded stream from [] to c = omega (arith, c)
bounded stream from (g ∷ gs) to c = omega (arith, bounded stream (from + seg_size g) gs to c.2)
