-- ===== src/Net/Tcp/Output/Enqueue.antt =====
-- How `tcp_enqueue` cuts bytes into segments.
use onix.Base.{
  Option, none, Option-cases, Bool-cases, ℕ, zero, suc, ◌+◌, ◌-◌, ◌/◌, ◌^◌, ◌≤◌, ◌<◌, true, false,
  some, List, length, ltb, ◌==◌, ◌≡◌, refl, ap, ◌∙◌, arith, dec_lt, inl, inr, subst, min,
}
use onix.Net.Tcp.{Pcb, Seg, has_flag, tcp_syn, seg_size, tcp_default_mss}
use onix.Net.Tcp.Output.{
  overruns, segment_room, filled, keeps, buffered, bytes_left, enqueue_round, enqueue_loop,
  tcp_enqueue,
}
use onix.Net.Tcp.Places.{bounded}
use onix.Net.Tcp.Stream.{slice, length-slice}
use onix.Net.Tcp.Output.Round.{Filling, Queued, buffered-Filling, round_lem, enqueue_round-Queued}

-- The segment that is being filled has at most 28 bytes of header.
abbrev pub HeaderFits : Option Seg → Type 0
HeaderFits none = Unit
HeaderFits (some g) = g.total ≤ seg_size g + 28

buffered-HeaderFits :
    (flags : ℕ) (p : Pcb)
    → HeaderFits p.snd_buf
    → (buffered flags p).total ≤ seg_size (buffered flags p) + 28
buffered-HeaderFits flags p h = elim (Option-cases p.snd_buf) [
  | inl e ↦ rw e (elim (Bool-cases (has_flag flags tcp_syn)) [
    | inl s ↦ rw s (omega arith)
    | inr s ↦ rw s (omega arith)
  ])
  | inr (g, e) ↦ rw e (subst HeaderFits e h)
]

enqueue_round-HeaderFits :
    (size flags : ℕ) (ptr : List ℕ) (p : Pcb)
    → (filled flags ptr p).total ≤ seg_size (filled flags ptr p) + 28
    → HeaderFits (enqueue_round size flags ptr p).snd_buf
unfolding enqueue_round
enqueue_round-HeaderFits size flags ptr p h =
    elim (Bool-cases (keeps size p (filled flags ptr p))) [ inl e ↦ rw e h | inr e ↦ rw e tt ]

enqueue_loop-Queued :
    (stream : ℕ → ℕ) (fuel from mid to len size flags : ℕ) (ptr : List ℕ) (p : Pcb)
    → Queued stream from mid to p
    → 1 ≤ p.snd_mss
    → p.snd_mss + 28 ≤ segment_room
    → HeaderFits p.snd_buf
    → ptr ≡ slice stream to len
    → len < fuel
    → (from + 2 ^ 31) / 2 ^ 32 ≡ (to + len + 2 ^ 31) / 2 ^ 32
    → (q : Pcb) × (mid' : ℕ) × (enqueue_loop fuel size flags ptr p ≡ some q)
      × Queued stream from mid' (to + len) q
unfolding enqueue_loop Filling
enqueue_loop-Queued stream zero from mid to len size flags ptr p q m room fits e h same =
    absurd (omega arith)
enqueue_loop-Queued stream (suc fuel) from mid to len size flags ptr p q m room fits e h same =
    let f = buffered-Filling stream from mid to flags p m q in
    let k = min len (p.snd_mss - (to - mid)) in
    let r = round_lem stream mid to len flags ptr p q.ordered f e in
    let low = bounded stream from p.unsent mid q.in_order in
    let same' : (from + 2 ^ 31) / 2 ^ 32 ≡ (to + k + 2 ^ 31) / 2 ^ 32 =
      omega (arith, same, low, q.ordered, r.fits) in
    let t = enqueue_round-Queued stream from mid to len k size flags ptr p q r same' in
    let held : seg_size (buffered flags p) ≡ to - mid =
      ap length f.1 ∙ length-slice stream mid (to - mid) in
    let ok : ltb p.snd_mss (seg_size (buffered flags p)) ≡ false =
      ground (arith, held, f.2, q.ordered) in
    let rest : length (bytes_left flags ptr p) ≡ len - k =
      ap length r.left ∙ length-slice stream (to + k) (len - k) in
    let total : (filled flags ptr p).total ≤ to - mid + k + 28 =
      omega (arith, buffered-HeaderFits flags p fits, held, r.taken) in
    let full : seg_size (filled flags ptr p) ≡ to + k - mid =
      ap length r.bytes ∙ length-slice stream mid (to + k - mid) in
    let inside : overruns flags ptr p ≡ false = ground (arith, total, room, r.room, q.ordered) in
    elim (dec_lt k len) [
      | no d ↦
          let done : (length (bytes_left flags ptr p) == 0) ≡ true = ground (arith, rest) in
          let all : to + k ≡ to + len = omega (arith, r.fits) in
          (
            enqueue_round size flags ptr p,
            t.0,
            rw (ok, inside, done) refl,
            subst (λ x. Queued stream from t.0 x (enqueue_round size flags ptr p)) all t.1,
          )
      | yes d ↦
          let more : (length (bytes_left flags ptr p) == 0) ≡ false = ground (arith, rest) in
          let pos : 0 < k = elim r.some_taken [
            | inl z ↦ absurd (omega (arith, z, d))
            | inr s ↦ s
          ] in
          let all : to + k + (len - k) ≡ to + len = omega (arith, r.fits) in
          let (u, mid', run, done) =
            enqueue_loop-Queued stream fuel from t.0 (to + k) (len - k) size flags
              (bytes_left flags ptr p) (enqueue_round size flags ptr p) t.1 (omega (arith, m, t.2))
              (omega (arith, room, t.2))
              (enqueue_round-HeaderFits size flags ptr p (omega (arith, total, full, q.ordered)))
              r.left (omega arith) (omega (arith, same, all)) in
          (u, mid', rw (ok, inside, more) run, subst (λ x. Queued stream from mid' x u) all done)
    ]

-- A block whose `snd_mss` is at least TCP_DEFAULT_MSS, and leaves room for 28 bytes of header in a buffer, has the stream up to a place `to`: queued, and in the
-- segment that is being filled, which has at most 28 bytes of header. `tcp_enqueue` of the next `len` bytes of the stream, on more fuel than
-- bytes, returns, and the block then has the stream up to `to + len`, cut into segments of at most
-- `snd_mss` bytes, each of which has stayed within its buffer. The numbers of all these places, as `int`s, grow with the places.
pub tcp_enqueue-Queued :
    (stream : ℕ → ℕ) (fuel from mid to len flags : ℕ) (p : Pcb)
    → Queued stream from mid to p
    → tcp_default_mss ≤ p.snd_mss
    → p.snd_mss + 28 ≤ segment_room
    → HeaderFits p.snd_buf
    → len < fuel
    → (from + 2 ^ 31) / 2 ^ 32 ≡ (to + len + 2 ^ 31) / 2 ^ 32
    → (q : Pcb) × (mid' : ℕ) × (tcp_enqueue fuel (slice stream to len) flags p ≡ some q)
      × Queued stream from mid' (to + len) q
unfolding tcp_enqueue
tcp_enqueue-Queued stream fuel from mid to len flags p q m room fits h same =
    let big : ltb p.snd_mss tcp_default_mss ≡ false = ground (arith, m) in
    let (u, mid', run, done) =
      enqueue_loop-Queued stream fuel from mid to len (length (slice stream to len)) flags
        (slice stream to len) p q (omega arith) room fits refl h same in
    (u, mid', rw big run, done)
