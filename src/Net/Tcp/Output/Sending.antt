-- ===== src/Net/Tcp/Output/Sending.antt =====
-- `tcp_output`, against the stream that is queued.
use onix.Base.{
  ℕ, ◌+◌, ◌%◌, ◌^◌, ◌≤◌, ◌<◌, false, some, [], append-nil, ltb, ◌≡◌, refl, ◌∙◌, arith, Bool-cases,
  inl, inr,
}
use onix.Base.Int.{pos}
use onix.Net.Tcp.{Pcb, has_flag, tcp_ack, tcp_default_mss, tf_ack_now}
use onix.Net.Tcp.Output.{tcp_output, tcp_output_seg, tcp_send_ack, header_of, slow_start, min_u32}
use onix.Net.Tcp.Stream.{Contiguous}
use onix.Net.Tcp.Output.Window.{sent_bytes, sent_bytes-snoc, Single, Progress, output_loop-Progress}

-- An acknowledgement by itself has no bytes.
send_ack-Progress :
    (route : ℕ → ℕ) (stream : ℕ → ℕ) (from mid to una wnd : ℕ) (p q : Pcb)
    → Progress stream from mid to una wnd p q
    → Progress stream from mid to una wnd p (tcp_send_ack route tcp_ack q)
unfolding tcp_send_ack tcp_output_seg
send_ack-Progress route stream from mid to una wnd p q r = record {
  stays = r.stays;
  forward = r.forward;
  within = r.within;
  blocked = r.blocked;
  carried =
      sent_bytes-snoc q.sent (header_of q.snd_nxt tcp_ack [] q)
      ∙ (append-nil (sent_bytes q.sent) ∙ r.carried);
}

-- The window that `tcp_output` uses.
unfoldable pub usable : Pcb → ℕ
usable p = min_u32 (slow_start p).snd_cwnd (slow_start p).snd_wnd

-- The queued segments carry a stretch of the stream, none of them is held elsewhere, and all is within
-- 2 ^ 30 places of the first unacknowledged byte. With a usable window of at least TCP_DEFAULT_MSS and
-- below 2 ^ 30, `tcp_output` returns 0, and it has sent a front part of the stretch, in order: nothing, or
-- up to a place within the window. What stays queued carries the rest, and each of its segments would end
-- behind the window.
pub tcp_output-Progress :
    (route : ℕ → ℕ) (stream : ℕ → ℕ) (from to una : ℕ) (p : Pcb)
    → Contiguous stream from p.unsent to
    → Single p.unsent
    → p.snd_una ≡ una % 2 ^ 32
    → una ≤ from
    → to < una + 2 ^ 30
    → tcp_default_mss ≤ usable p
    → usable p < 2 ^ 30
    → (q : Pcb) × (mid : ℕ) × (tcp_output route p ≡ some (pos 0, q))
      × Progress stream from mid to una (usable p) p q
unfolding tcp_output usable
tcp_output-Progress route stream from to una p c h e le lt low high =
    let enough : ltb (usable p) tcp_default_mss ≡ false = ground (arith, low) in
    let (q, mid, run, r) =
      output_loop-Progress route stream from to una (usable p) p.unsent (slow_start p) c h e le lt
        high in
    let r' : Progress stream from mid to una (usable p) p q = record {
      stays = r.stays;
      forward = r.forward;
      within = r.within;
      blocked = r.blocked;
      carried = r.carried;
    } in
    elim (Bool-cases (has_flag q.flags tf_ack_now)) [
      | inl a ↦ (
        tcp_send_ack route tcp_ack q,
        mid,
        rw (enough, run, a) refl,
        send_ack-Progress route stream from mid to una (usable p) p q r',
      )
      | inr a ↦ (q, mid, rw (enough, run, a) refl, r')
    ]
