-- ===== src/Net/Tcp/Input/Deliver.antt =====
-- The bytes that a connection delivers, against the stream that the other side sends.
use onix.Base.{
  ℕ, ◌+◌, ◌-◌, ◌%◌, ◌^◌, ◌≤◌, ◌<◌, true, false, not, some, ◌++◌, length, drop, ltb, leb, ◌==◌,
  if◌then◌else◌, ◌≡◌, refl, sym, ap, ap₂, ◌∙◌, arith, Bool-cases, inl, inr, dec_lt, lt→ltb, subst,
}
use onix.Base.Word.{add_u32, sub_u32}
use onix.Net.Tcp.{
  Pcb, Seg, Header, tcp_state_number, seg_size, has_flag, seq_lt, seq_leq, seq_gt, tf_quickack,
}
use onix.Net.Tcp.Input.{tcp_update_buf, accept_seg, quick_ack, delay_ack, trimmed}
use onix.Net.Tcp.Output.{tcp_send_ack, tcp_output_seg}
use onix.Net.Tcp.Stream.{
  slice, slice_join, length-slice, drop-slice, slice_same, bytes_of, NoneAbove, bytes_of-insert_seg,
}
use onix.Net.Tcp.Seq.{seq_leq-places, seq_lt-places}

pub quick_ack-rcv :
    (route : ℕ → ℕ) (p : Pcb)
    → ((quick_ack route p).rcv_nxt ≡ p.rcv_nxt)
      × ((quick_ack route p).recved ≡ p.recved)
      × ((quick_ack route p).state ≡ p.state)
unfolding tcp_send_ack tcp_output_seg
quick_ack-rcv route p = elim (Bool-cases (has_flag p.flags tf_quickack)) [
  | inl e ↦ rw e (refl, refl, refl)
  | inr e ↦ rw e (refl, refl, refl)
]

-- A segment that is queued adds its bytes at the end.
accept_seg-bytes :
    (route : ℕ → ℕ) (p : Pcb) (g : Seg) (nxt : ℕ)
    → tcp_state_number p.state ≤ 4
    → NoneAbove g.seqno p.recved
    → ((accept_seg route p g nxt).rcv_nxt ≡ nxt)
      × (bytes_of (accept_seg route p g nxt).recved ≡ bytes_of p.recved ++ g.bytes)
unfolding accept_seg
accept_seg-bytes route p g nxt h a =
    let d : Pcb = delay_ack (record p {
      rcv_nxt = nxt;
      rcv_wnd = (p.rcv_wnd + (2 ^ 16 - seg_size g % 2 ^ 16)) % 2 ^ 16;
    }) in
    let r = quick_ack-rcv route d in
    let c : ltb 4 (tcp_state_number (quick_ack route d).state) ≡ false = rw (r.2) (ground arith) in
    rw c (r.0, rw (r.1) (bytes_of-insert_seg (record g { count = g.count + 1 }) p.recved a))

-- The comparisons of `tcp_update_buf`, as comparisons of places.
past_end :
    (S n P : ℕ)
    → S + n < P + 2 ^ 31
    → P < S + n + 2 ^ 31
    → seq_leq (add_u32 (S % 2 ^ 32) n) (P % 2 ^ 32) ≡ leb (S + n) P
past_end S n P h k = ground arith

not_before :
    (S P : ℕ) → S < P + 2 ^ 31 → P < S + 2 ^ 31 → seq_gt (S % 2 ^ 32) (P % 2 ^ 32) ≡ not (leb S P)
not_before S P h k = ap not (seq_leq-places S P h k)

behind : (S P : ℕ) → S < P → P < S + 2 ^ 31 → sub_u32 (P % 2 ^ 32) (S % 2 ^ 32) ≡ P - S
behind S P h k = ground arith

-- The block has delivered the stream up to place `P`, and holds it from place `R` on.
pub record Delivered (stream : ℕ → ℕ) (R P : ℕ) (p : Pcb) : Type 0 where
  pub ordered : R ≤ P
  pub next : p.rcv_nxt ≡ P % 2 ^ 32
  pub held : bytes_of p.recved ≡ slice stream R (P - R)

-- A segment has the `n` bytes of the stream from place `S` on.
pub record Carries (stream : ℕ → ℕ) (S n : ℕ) (g : Seg) (h : Header) : Type 0 where
  pub place : h.seqno ≡ S % 2 ^ 32
  pub number : g.seqno ≡ h.seqno
  pub bytes : g.bytes ≡ slice stream S n
  pub single : g.count ≡ 1

-- The place up to which the stream is delivered after the segment.
pub reach : ℕ → ℕ → ℕ → ℕ
reach P S n = if leb S P then (if ltb P (S + n) then S + n else P) else P

trimmed-slice :
    (stream : ℕ → ℕ) (P S n : ℕ) (p : Pcb) (g : Seg) (h : Header)
    → p.rcv_nxt ≡ P % 2 ^ 32
    → Carries stream S n g h
    → S ≤ P
    → P < S + 2 ^ 31
    → ((trimmed p g h).bytes ≡ slice stream P (S + n - P))
      × ((trimmed p g h).seqno ≡ h.seqno)
      × ((trimmed p g h).count ≡ 1)
trimmed-slice stream P S n p g h e c le lt = elim (dec_lt S P) [
  | yes d ↦
      let t : seq_lt h.seqno p.rcv_nxt ≡ true =
        rw (c.place, e) (seq_lt-places S P (omega arith) lt ∙ lt→ltb S P d) in
      let k : sub_u32 p.rcv_nxt h.seqno ≡ P - S = rw (c.place, e) (behind S P d lt) in
      rw (t, k)
        (
          ap (drop (P - S)) c.bytes
              ∙ (drop-slice stream (P - S) S n
                  ∙ slice_same stream (S + (P - S)) P (n - (P - S)) (S + n - P) (omega arith)
                      (omega arith)),
          c.number,
          c.single,
        )
  | no d ↦
      let t : seq_lt h.seqno p.rcv_nxt ≡ false =
        rw (c.place, e) (seq_lt-places S P (omega arith) lt ∙ ground arith) in
      rw t (
        c.bytes ∙ slice_same stream S P n (S + n - P) (omega arith) (omega arith),
        c.number,
        c.single,
      )
]

delay_ack-Delivered :
    (stream : ℕ → ℕ) (R P : ℕ) (p : Pcb)
    → Delivered stream R P p
    → Delivered stream R P (delay_ack p)
delay_ack-Delivered stream R P p d = record { ordered = d.ordered; next = d.next; held = d.held }

-- The segment starts at a delivered place and ends behind it.
deliver_new :
    (route : ℕ → ℕ) (stream : ℕ → ℕ) (R P S n nxt : ℕ) (p : Pcb) (g : Seg) (h : Header)
    → Delivered stream R P p
    → Carries stream S n g h
    → tcp_state_number p.state ≤ 4
    → NoneAbove h.seqno p.recved
    → S ≤ P
    → P < S + n
    → P < S + 2 ^ 31
    → nxt ≡ (S + n) % 2 ^ 32
    → ((seg_size (trimmed p g h) == 0) ≡ false)
      × (((trimmed p g h).count == 1) ≡ true)
      × Delivered stream R (S + n) (accept_seg route p (trimmed p g h) nxt)
deliver_new route stream R P S n nxt p g h d c st a le lt gt e =
    let t = trimmed-slice stream P S n p g h d.next c le gt in
    let size : seg_size (trimmed p g h) ≡ S + n - P =
      ap length t.0 ∙ length-slice stream P (S + n - P) in
    let above = subst (λ x. NoneAbove x p.recved) (sym t.1) a in
    let q = accept_seg-bytes route p (trimmed p g h) nxt st above in
    (
      ground (arith, size),
      rw t.2 refl,
      record {
        ordered = omega (arith, d.ordered);
        next = q.0 ∙ e;
        held =
            q.1
            ∙ (ap₂ (λ x y. x ++ y) d.held t.0
                ∙ slice_join stream R P (S + n) d.ordered (omega arith));
      },
    )

-- A block of a connection that is not closing gets a segment of `n` bytes of the stream, which begins and
-- ends less than 2 ^ 31 places from what is delivered. No waiting segment has a higher number as an `int`.
-- Then `tcp_update_buf` returns, and the block has delivered the stream without a gap and without a
-- repetition: up to the end of the segment if it starts at a delivered place and ends behind it, and else
-- as far as before.
pub tcp_update_buf-Delivered :
    (route : ℕ → ℕ) (stream : ℕ → ℕ) (R P S n : ℕ) (p : Pcb) (g : Seg) (h : Header)
    → Delivered stream R P p
    → Carries stream S n g h
    → tcp_state_number p.state ≤ 4
    → NoneAbove h.seqno p.recved
    → S + n < P + 2 ^ 31
    → P < S + 2 ^ 31
    → (q : Pcb) × (tcp_update_buf route p g h ≡ some q) × Delivered stream R (reach P S n) q
unfolding tcp_update_buf reach
tcp_update_buf-Delivered route stream R P S n p g h d c st a lt gt =
    let len : seg_size g ≡ n = ap length c.bytes ∙ length-slice stream S n in
    let c1 : seq_leq (add_u32 h.seqno (seg_size g)) p.rcv_nxt ≡ leb (S + n) P =
      rw (c.place, d.next, len) (past_end S n P lt (omega arith)) in
    let c2 : seq_gt h.seqno p.rcv_nxt ≡ not (leb S P) =
      rw (c.place, d.next) (not_before S P (omega arith) gt) in
    let nxt : add_u32 h.seqno (seg_size g) ≡ (S + n) % 2 ^ 32 = omega (arith, c.place, len) in
    elim (dec_lt P (S + n)) [
      | no l ↦
          let b1 : leb (S + n) P ≡ true = ground arith in
          let r : reach P S n ≡ P = ground arith in
          (delay_ack p, rw (c1, b1) refl, rw r (delay_ack-Delivered stream R P p d))
      | yes l ↦
          let b1 : leb (S + n) P ≡ false = ground arith in
          elim (dec_lt P S) [
            | yes s ↦
                let b2 : leb S P ≡ false = ground arith in
                let r : reach P S n ≡ P = ground arith in
                (delay_ack p, rw (c1, b1, c2, b2) refl, rw r (delay_ack-Delivered stream R P p d))
            | no s ↦
                let b2 : leb S P ≡ true = ground arith in
                let r : reach P S n ≡ S + n = ground arith in
                let q =
                  deliver_new route stream R P S n (add_u32 h.seqno (seg_size g)) p g h d c st a
                    (omega arith) l gt nxt in
                (
                  accept_seg route p (trimmed p g h) (add_u32 h.seqno (seg_size g)),
                  rw (c1, b1, c2, b2, q.0, q.1) refl,
                  rw r q.2,
                )
          ]
    ]
