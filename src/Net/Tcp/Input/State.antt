-- ===== src/Net/Tcp/Input/State.antt =====
-- `tcp_receive` leaves the state of the connection as it is.
use onix.Base.{
  ℕ, ◌+◌, ◌-◌, ◌*◌, ◌%◌, ◌^◌, true, false, not, Option, none, some, List, [], ◌∷◌, ltb, ◌==◌, ◌&&◌,
  ◌≡◌, refl, ◌∙◌, Bool-cases, Option-cases, inl, inr, OnSome-some, arith, ℕ_discrete, ◌⊎◌,
}
use onix.Base.Word.{add_u32}
use onix.Net.Tcp.{
  Pcb, Seg, Header, seg_size, seq_geq, seq_gt, seq_leq, has_flag, tcp_ack, tcp_syn,
  tcp_rexmit_threash, tcp_state_number, established,
}
use onix.Net.Tcp.Input.{
  tcp_update_wnd, is_newer, half_window, tcp_handle_duppacks, note_ack, acked_loop, flush_seg,
  flush_buf, wake_on_empty, tcp_handle_syn_sent, tcp_update_ack, tcp_update_buf, accept_seg,
  delay_ack, quick_ack, trimmed, tcp_receive,
}
use onix.Net.Tcp.Input.Deliver.{quick_ack-rcv}
use onix.Net.Tcp.Output.{tcp_rexmit}
use onix.Net.Tcp.Output.State.{SameState, tcp_rexmit-SameState}
use onix.Net.Tcp.Timer.{tcp_xmit_timer}

duppacks-SameState : (route : ℕ → ℕ) (p : Pcb) → SameState p (tcp_handle_duppacks route p)
unfolding tcp_handle_duppacks
duppacks-SameState route p = elim (Bool-cases (ltb p.dupacks tcp_rexmit_threash)) [
  | inl e ↦ rw (tcp_handle_duppacks, e) refl
  | inr e ↦ elim (Bool-cases (p.dupacks == tcp_rexmit_threash)) [
    | inl f ↦ elim (Bool-cases (p.snd_mss == 0)) [
      | inl z ↦ rw (tcp_handle_duppacks, e, f, z) tt
      | inr z ↦
          let start : Pcb = record p {
            snd_ssthresh = half_window p * p.snd_mss;
            snd_cwnd = p.snd_mss;
            rtt = 0;
          } in
          elim (Option-cases (tcp_rexmit route start)) [
            | inl k ↦ rw (tcp_handle_duppacks, e, f, z, k) tt
            | inr (r, k) ↦
                rw (tcp_handle_duppacks, e, f, z, k)
                  (OnSome-some (λ q. q.state ≡ p.state) (tcp_rexmit-SameState route start) k)
          ]
    ]
    | inr f ↦
        rw (tcp_handle_duppacks, e, f)
          (tcp_rexmit-SameState route (record p { snd_cwnd = add_u32 p.snd_cwnd p.snd_mss }))
  ]
]

note_ack-state : (p : Pcb) (h : Header) → (note_ack p h).state ≡ p.state
unfolding note_ack tcp_xmit_timer
note_ack-state p h = elim (Bool-cases (not (p.rtt == 0) && (h.ackno == p.rtt_seq))) [
  | inl e ↦ rw e refl
  | inr e ↦ rw e refl
]

wake_on_empty-state :
    (unacked unsent : List Seg) (waiter : Option ℕ) (p : Pcb)
    → (wake_on_empty unacked unsent waiter p).state ≡ p.state
wake_on_empty-state (g ∷ gs) unsent waiter p = refl
wake_on_empty-state [] (g ∷ gs) waiter p = refl
wake_on_empty-state [] [] none p = refl
wake_on_empty-state [] [] (some task) p = refl

flush_seg-state : (b : Option Seg) (p : Pcb) (h : Header) → (flush_seg b p h).state ≡ p.state
flush_seg-state none p h = refl
flush_seg-state (some g) p h = elim (Bool-cases (ltb 0 (seg_size g) && (h.ackno == p.snd_max))) [
  | inl e ↦ rw e refl
  | inr e ↦ rw e refl
]

tcp_update_wnd-state : (p : Pcb) (h : Header) → (tcp_update_wnd p h).state ≡ p.state
unfolding tcp_update_wnd
tcp_update_wnd-state p h = elim (Bool-cases (is_newer p h)) [
  | inl e ↦ rw e refl
  | inr e ↦ rw e refl
]

accept_seg-state :
    (route : ℕ → ℕ) (p : Pcb) (g : Seg) (nxt : ℕ) → (accept_seg route p g nxt).state ≡ p.state
unfolding accept_seg
accept_seg-state route p g nxt =
    let d : Pcb = delay_ack (record p {
      rcv_nxt = nxt;
      rcv_wnd = (p.rcv_wnd + (2 ^ 16 - seg_size g % 2 ^ 16)) % 2 ^ 16;
    }) in
    let r = (quick_ack-rcv route d).2 in
    elim (Bool-cases (ltb 4 (tcp_state_number (quick_ack route d).state))) [
      | inl e ↦ rw e r
      | inr e ↦ rw e r
    ]

tcp_update_buf-SameState :
    (route : ℕ → ℕ) (p : Pcb) (g : Seg) (h : Header) → SameState p (tcp_update_buf route p g h)
unfolding tcp_update_buf
tcp_update_buf-SameState route p g h =
    let nxt = add_u32 h.seqno (seg_size g) in
    elim (Bool-cases (seq_leq nxt p.rcv_nxt)) [
      | inl e ↦ rw e refl
      | inr e ↦ elim (Bool-cases (seq_gt h.seqno p.rcv_nxt)) [
        | inl f ↦ rw (e, f) refl
        | inr f ↦ elim (Bool-cases (seg_size (trimmed p g h) == 0)) [
          | inl k ↦ rw (e, f, k) refl
          | inr k ↦ elim (Bool-cases ((trimmed p g h).count == 1)) [
            | inl l ↦ rw (e, f, k, l) (accept_seg-state route p (trimmed p g h) nxt)
            | inr l ↦ rw (e, f, k, l) tt
          ]
        ]
      ]
    ]

tcp_update_ack-SameState :
    (route : ℕ → ℕ) (p : Pcb) (g : Seg) (h : Header) → SameState p (tcp_update_ack route p g h)
unfolding tcp_update_ack
tcp_update_ack-SameState route p g h =
    let q = note_ack p h in
    elim (Bool-cases (seq_geq p.snd_una h.ackno)) [
      | inl e ↦ elim (Bool-cases (seg_size g == 0)) [
        | inl f ↦
            rw (tcp_update_ack, e, f)
              (duppacks-SameState route (record p { dupacks = add_u32 p.dupacks 1 }))
        | inr f ↦ rw (tcp_update_ack, e, f) refl
      ]
      | inr e ↦ elim (Option-cases (acked_loop h.ackno q.unacked)) [
        | inl f ↦ rw (tcp_update_ack, e, f) tt
        | inr (unacked, f) ↦ elim (Option-cases (acked_loop h.ackno q.unsent)) [
          | inl k ↦ rw (tcp_update_ack, e, f, k) tt
          | inr (unsent, k) ↦
              let r : Pcb = record q { unacked = unacked; unsent = unsent } in
              let u = flush_buf r h in
              rw (tcp_update_ack, e, f, k)
                (wake_on_empty-state u.unacked u.unsent u.tx_waiter u
                  ∙ (flush_seg-state r.snd_buf r h ∙ note_ack-state p h))
        ]
      ]
    ]

pub tcp_receive-SameState :
    (route : ℕ → ℕ) (p : Pcb) (g : Seg) (h : Header)
    → has_flag h.flags tcp_ack ≡ true
    → SameState p (tcp_receive route p g h)
unfolding tcp_receive
tcp_receive-SameState route p g h a =
    let w = tcp_update_wnd p h in
    elim (Option-cases (tcp_update_ack route w g h)) [
      | inl e ↦ rw (tcp_receive, a, e) tt
      | inr (q, e) ↦
          let same =
            OnSome-some (λ q. q.state ≡ w.state) (tcp_update_ack-SameState route w g h) e
            ∙ tcp_update_wnd-state p h in
          elim (Bool-cases (ltb 0 (seg_size g))) [
            | inr f ↦ rw (tcp_receive, a, e, f) same
            | inl f ↦ elim (Option-cases (tcp_update_buf route q g h)) [
              | inl k ↦ rw (tcp_receive, a, e, f, k) tt
              | inr (u, k) ↦
                  rw (tcp_receive, a, e, f, k)
                    (OnSome-some (λ u. u.state ≡ q.state) (tcp_update_buf-SameState route q g h) k
                      ∙ same)
            ]
          ]
    ]

-- `tcp_handle_syn_sent` leaves the state, or SYN and ACK arrived and the connection is established.
pub handle_syn_sent-state :
    (route : ℕ → ℕ) (p : Pcb) (h : Header)
    → ((tcp_handle_syn_sent route p h).1.state ≡ p.state)
      ⊎ ((h.flags ≡ tcp_syn + tcp_ack) × ((tcp_handle_syn_sent route p h).1.state ≡ established))
unfolding tcp_handle_syn_sent
handle_syn_sent-state route p h = elim (ℕ_discrete h.flags (tcp_syn + tcp_ack)) [
  | no d ↦ let e : (h.flags == tcp_syn + tcp_ack) ≡ false = ground arith in inl (rw e refl)
  | yes d ↦
      let e : (h.flags == tcp_syn + tcp_ack) ≡ true = ground arith in
      elim (Bool-cases (h.ackno == add_u32 p.snd_nxt 1)) [
        | inr f ↦ inl (rw (e, f) refl)
        | inl f ↦ inr (
          d,
          rw (e, f)
              (quick_ack-rcv route (
                delay_ack (record p {
                  state = established;
                  rcv_nxt = add_u32 h.seqno 1;
                  snd_nxt = h.ackno;
                  snd_wnd = h.window;
                  snd_una = h.ackno;
                  snd_nbb = h.ackno;
                }))).2,
        )
      ]
]
