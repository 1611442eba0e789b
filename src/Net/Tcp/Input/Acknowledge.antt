-- ===== src/Net/Tcp/Input/Acknowledge.antt =====
-- What an acknowledgement releases.
use onix.Base.{
  ℕ, ◌+◌, ◌%◌, ◌^◌, ◌≤◌, ◌<◌, true, false, some, List, [], ◌∷◌, ltb, leb, ◌&&◌, ◌≡◌, refl, arith,
  dec_lt,
}
use onix.Net.Tcp.{Seg, seg_size}
use onix.Net.Tcp.Input.{acked_loop}
use onix.Net.Tcp.Places.{EndAfter, after_place, bounded}
use onix.Net.Tcp.Stream.{Contiguous}

-- Each segment is held once or twice.
unfoldable pub Held : List Seg → Type 0
Held [] = Unit
Held (g ∷ gs) = (1 ≤ g.count) × (g.count ≤ 2) × Held gs

-- Nothing behind the acknowledged place is released.
all_stay :
    (stream : ℕ → ℕ) (place from : ℕ) (gs : List Seg) (to : ℕ)
    → Contiguous stream from gs to
    → place < from
    → to < place + 2 ^ 31
    → (acked_loop (place % 2 ^ 32) gs ≡ some gs) × EndAfter place from gs
unfolding acked_loop Contiguous EndAfter
all_stay stream place from [] to c lt gt = (refl, tt)
all_stay stream place from (g ∷ gs) to c lt gt =
    let b = bounded stream (from + seg_size g) gs to c.2 in
    let e = after_place from place g c.0 (omega (arith, b)) (omega arith) in
    let e1 : leb (from + seg_size g) place ≡ false = ground arith in
    let r = all_stay stream place (from + seg_size g) gs to c.2 (omega arith) gt in
    (rw (e, e1, r.0) refl, (omega arith, r.1))

-- A list of segments carries the stream from one place to another, all less than 2 ^ 31 from the
-- acknowledged place. The loop releases a front part of them: what stays carries the stream from a place
-- up to which all is acknowledged, without a gap, and every segment that stays ends behind the
-- acknowledged place.
pub acked_loop-Contiguous :
    (stream : ℕ → ℕ) (place from : ℕ) (gs : List Seg) (to : ℕ)
    → Contiguous stream from gs to
    → Held gs
    → from ≤ place
    → place < from + 2 ^ 31
    → to < place + 2 ^ 31
    → (rest : List Seg) × (start : ℕ) × (acked_loop (place % 2 ^ 32) gs ≡ some rest)
      × Contiguous stream start rest to
      × (from ≤ start)
      × (start ≤ place)
      × EndAfter place start rest
unfolding acked_loop Contiguous Held EndAfter
acked_loop-Contiguous stream place from [] to c h le lt gt =
    ([], from, refl, c, omega arith, le, tt)
acked_loop-Contiguous stream place from (g ∷ gs) to c h le lt gt =
    let b = bounded stream (from + seg_size g) gs to c.2 in
    let e = after_place from place g c.0 (omega (arith, b)) (omega arith) in
    elim (dec_lt place (from + seg_size g)) [
      | yes d ↦
          let e1 : leb (from + seg_size g) place ≡ false = ground arith in
          let r = all_stay stream place (from + seg_size g) gs to c.2 d gt in
          (g ∷ gs, from, rw (e, e1, r.0) refl, c, omega arith, le, (d, r.1))
      | no d ↦
          let e1 : leb (from + seg_size g) place ≡ true = ground arith in
          let e2 : (ltb 0 g.count && leb g.count 2) ≡ true = ground (arith, h.0, h.1) in
          let r =
            acked_loop-Contiguous stream place (from + seg_size g) gs to c.2 h.2 (omega arith)
              (omega arith) gt in
          (r.0, r.1, rw (e, e1, e2) r.2, r.3, omega (arith, r.4), r.5, r.6)
    ]
