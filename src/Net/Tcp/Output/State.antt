-- ===== src/Net/Tcp/Output/State.antt =====
-- What is sent leaves the state of the connection as it is.
use onix.Base.{
  ℕ, Option, List, [], ◌∷◌, ltb, ◌==◌, ◌≡◌, refl, ◌∙◌, Bool-cases, Option-cases, inl, inr, OnSome,
  OnSome-some, zero, suc, length,
}
use onix.Base.Int.{ℤ}
use onix.Base.Word.{add_u32}
use onix.Net.Tcp.{Pcb, Seg, seg_size, seq_gt, has_flag, tf_ack_now, tcp_default_mss}
use onix.Net.Tcp.Output.{
  send_seg, seg_end, output_loop, tcp_output, tcp_output_seg, tcp_send_ack, tcp_rexmit, tcp_enqueue,
  overruns, enqueue_round, enqueue_loop, keeps, filled, buffered, bytes_left, slow_start,
  rexmit_loop, min_u32,
}

-- The result, where there is one, is in the same state as the block.
abbrev pub SameState : Pcb → Option Pcb → Type 0
SameState p = OnSome (λ q. q.state ≡ p.state)

output_loop-SameState :
    (route : ℕ → ℕ) (wnd : ℕ) (gs : List Seg) (p : Pcb) → SameState p (output_loop route wnd gs p)
unfolding output_loop send_seg tcp_output_seg
output_loop-SameState route wnd [] p = refl
output_loop-SameState route wnd (g ∷ gs) p =
    elim (Bool-cases (seq_gt (seg_end g) (add_u32 p.snd_una wnd))) [
      | inl e ↦ rw e refl
      | inr e ↦ elim (Bool-cases (g.count == 1)) [
        | inl f ↦ rw (e, f) (output_loop-SameState route wnd gs (send_seg route g p))
        | inr f ↦ rw (e, f) tt
      ]
    ]

pub tcp_output-SameState :
    (route : ℕ → ℕ) (p : Pcb) → OnSome (λ (r : ℤ × Pcb). r.1.state ≡ p.state) (tcp_output route p)
unfolding tcp_output tcp_send_ack tcp_output_seg
tcp_output-SameState route p =
    let wnd = min_u32 (slow_start p).snd_cwnd (slow_start p).snd_wnd in
    let loop = output_loop-SameState route wnd p.unsent (slow_start p) in
    elim (Bool-cases (ltb wnd tcp_default_mss)) [
      | inl e ↦ rw e refl
      | inr e ↦ elim (Option-cases (output_loop route wnd p.unsent (slow_start p))) [
        | inl f ↦ rw (e, f) tt
        | inr (q, f) ↦
            let same = OnSome-some (λ q. q.state ≡ p.state) loop f in
            elim (Bool-cases (has_flag q.flags tf_ack_now)) [
              | inl a ↦ rw (e, f, a) same
              | inr a ↦ rw (e, f, a) same
            ]
      ]
    ]

pub tcp_rexmit-SameState : (route : ℕ → ℕ) (p : Pcb) → SameState p (tcp_rexmit route p)
unfolding tcp_rexmit
tcp_rexmit-SameState route p =
    let lists = rexmit_loop p.unacked p.unsent in
    let start : Pcb = record p { unacked = lists.0; unsent = lists.1 } in
    elim (Option-cases (tcp_output route start)) [
      | inl e ↦ rw (tcp_rexmit, e) tt
      | inr (r, e) ↦
          rw (tcp_rexmit, e)
            (OnSome-some (λ (r : ℤ × Pcb). r.1.state ≡ p.state) (tcp_output-SameState route start)
              e)
    ]

enqueue_round-state :
    (size flags : ℕ) (ptr : List ℕ) (p : Pcb) → (enqueue_round size flags ptr p).state ≡ p.state
unfolding enqueue_round
enqueue_round-state size flags ptr p = elim (Bool-cases (keeps size p (filled flags ptr p))) [
  | inl e ↦ rw e refl
  | inr e ↦ rw e refl
]

enqueue_loop-SameState :
    (fuel size flags : ℕ) (ptr : List ℕ) (p : Pcb)
    → SameState p (enqueue_loop fuel size flags ptr p)
unfolding enqueue_loop
enqueue_loop-SameState zero size flags ptr p = tt
enqueue_loop-SameState (suc fuel) size flags ptr p =
    let q = enqueue_round size flags ptr p in
    let round = enqueue_round-state size flags ptr p in
    let loop = enqueue_loop-SameState fuel size flags (bytes_left flags ptr p) q in
    elim (Bool-cases (ltb p.snd_mss (seg_size (buffered flags p)))) [
      | inl e ↦ rw e tt
      | inr e ↦ elim (Bool-cases (overruns flags ptr p)) [
        | inl o ↦ rw (e, o) tt
        | inr o ↦ elim (Bool-cases (length (bytes_left flags ptr p) == 0)) [
          | inl f ↦ rw (e, o, f) round
          | inr f ↦ elim (Option-cases (enqueue_loop fuel size flags (bytes_left flags ptr p) q)) [
            | inl k ↦ rw (e, o, f, k) tt
            | inr (u, k) ↦ rw (e, o, f, k) (OnSome-some (λ r. r.state ≡ q.state) loop k ∙ round)
          ]
        ]
      ]
    ]

pub tcp_enqueue-SameState :
    (fuel : ℕ) (bytes : List ℕ) (flags : ℕ) (p : Pcb) → SameState p (tcp_enqueue fuel bytes flags p)
unfolding tcp_enqueue
tcp_enqueue-SameState fuel bytes flags p = elim (Bool-cases (ltb p.snd_mss tcp_default_mss)) [
  | inl e ↦ rw e (
      enqueue_loop-SameState fuel (length bytes) flags bytes
        (record p { snd_mss = tcp_default_mss }))
  | inr e ↦ rw e (enqueue_loop-SameState fuel (length bytes) flags bytes p)
]
