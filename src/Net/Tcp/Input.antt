-- ===== src/Net/Tcp/Input.antt =====
-- src/net/tcp_input.c: what a received segment does to the control block it is for. The header is in the
-- host's byte order, and `g` is the segment behind it.
pub mod Deliver
pub mod State
pub mod Acknowledge
use onix.Base.{
  ℕ, ◌+◌, ◌-◌, ◌*◌, ◌/◌, ◌%◌, ◌^◌, Bool, true, false, not, Option, none, some, List, [], ◌∷◌,
  length, drop, ◌==◌, ltb, leb, if◌then◌else◌, ◌&&◌, ◌||◌, bit_or,
}
use onix.Base.Int.{ℤ, pos, neg}
use onix.Base.Word.{add_u32, sub_u32}
use onix.Net.Tcp.{
  TcpState, established, tcp_state_number, Pcb, Seg, Header, Timers, seg_size, insert_seg, has_flag,
  wake, seq_lt, seq_leq, seq_gt, seq_geq, tcp_ack, tcp_syn, tcp_to_persmin, tcp_rexmit_threash,
  tcp_max_window, tf_ack_delay, tf_quickack,
}
use onix.Net.Tcp.Output.{min_u32, seg_end, tcp_rexmit, tcp_send_ack}
use onix.Net.Tcp.Timer.{tcp_xmit_timer}

-- Whether a segment has a later word on the window than the last one.
abbrev pub is_newer : Pcb → Header → Bool
is_newer p h = seq_lt p.snd_wl1 h.seqno || ((h.seqno == p.snd_wl1) && seq_leq p.snd_wl2 h.ackno)

-- `tcp_update_wnd`
pub tcp_update_wnd : Pcb → Header → Pcb
tcp_update_wnd p h =
    if is_newer p h
    then record p {
      snd_wnd = h.window;
      snd_wl1 = h.seqno;
      snd_wl2 = h.ackno;
      snd_mwnd = if ltb p.snd_mwnd h.window then h.window else p.snd_mwnd;
      timers = record p.timers { persist = if h.window == 0 then tcp_to_persmin else 0 };
    }
    else p

-- `segs` of `tcp_handle_duppacks`; the division is by a positive `snd_mss`.
abbrev pub half_window : Pcb → ℕ
half_window p =
    let segs = min_u32 p.snd_wnd p.snd_cwnd / 2 / p.snd_mss in if ltb segs 2 then 2 else segs

-- `tcp_handle_duppacks`; `none` also where `snd_mss` is 0.
pub tcp_handle_duppacks : (ℕ → ℕ) → Pcb → Option Pcb
tcp_handle_duppacks route p =
    if ltb p.dupacks tcp_rexmit_threash
    then some p
    else if p.dupacks == tcp_rexmit_threash
    then (if p.snd_mss == 0
        then none
        else elim (tcp_rexmit route (record p {
          snd_ssthresh = half_window p * p.snd_mss;
          snd_cwnd = p.snd_mss;
          rtt = 0;
        })) [
          | none ↦ none
          | some r ↦ some (record r { snd_cwnd = r.snd_ssthresh + r.snd_mss * r.dupacks })
        ])
    else tcp_rexmit route (record p { snd_cwnd = add_u32 p.snd_cwnd p.snd_mss })

-- The congestion window after an acknowledgement of new bytes.
abbrev pub unit : Pcb → ℕ → ℕ
unit p cwnd = if ltb p.snd_ssthresh cwnd then p.snd_mss * p.snd_mss / cwnd else p.snd_mss

abbrev pub deflated : Pcb → ℕ
deflated p =
    if ltb tcp_rexmit_threash p.dupacks && ltb p.snd_ssthresh p.snd_cwnd
    then p.snd_ssthresh
    else p.snd_cwnd

-- Up to the loops of `tcp_update_ack`, for an acknowledgement of new bytes.
pub note_ack : Pcb → Header → Pcb
note_ack p h =
    let cwnd = deflated p in
    let q = record p { dupacks = 0; snd_cwnd = min_u32 (cwnd + unit p cwnd) tcp_max_window } in
    let r =
      if not (q.rtt == 0) && (h.ackno == q.rtt_seq) then tcp_xmit_timer q (q.rtt - 1) else q in
    record r { rtt = 1; snd_una = h.ackno; rtx_cnt = 0 }

-- A loop of `tcp_update_ack` that releases segments: those that stay.
pub acked_loop : ℕ → List Seg → Option (List Seg)
acked_loop ackno [] = some []
acked_loop ackno (g ∷ gs) =
    let rest = acked_loop ackno gs in
    if seq_gt (seg_end g) ackno
    then elim rest [ none ↦ none | some r ↦ some (g ∷ r) ]
    else if ltb 0 g.count && leb g.count 2
    then rest
    else none

-- The buffered segment is queued when all that was sent is acknowledged.
abbrev pub flush_seg : Option Seg → Pcb → Header → Pcb
flush_seg none p h = p
flush_seg (some g) p h =
    if ltb 0 (seg_size g) && (h.ackno == p.snd_max)
    then record p { unsent = insert_seg g p.unsent; snd_buf = none }
    else p

abbrev pub flush_buf : Pcb → Header → Pcb
flush_buf p h = flush_seg p.snd_buf p h

-- The end of `tcp_update_ack`: the writer is woken where both lists are empty.
abbrev pub wake_on_empty : List Seg → List Seg → Option ℕ → Pcb → Pcb
wake_on_empty (g ∷ gs) unsent waiter p = p
wake_on_empty [] (g ∷ gs) waiter p = p
wake_on_empty [] [] none p = p
wake_on_empty [] [] (some task) p = record p {
  woken = wake (some task) (pos 0) p.woken;
  tx_waiter = none;
  timers = record p.timers { rexmit = 0 };
}

abbrev pub wake_writer : Pcb → Pcb
wake_writer p = wake_on_empty p.unacked p.unsent p.tx_waiter p

-- `tcp_update_ack`
pub tcp_update_ack : (ℕ → ℕ) → Pcb → Seg → Header → Option Pcb
tcp_update_ack route p g h =
    if seq_geq p.snd_una h.ackno
    then if seg_size g == 0
      then tcp_handle_duppacks route (record p { dupacks = add_u32 p.dupacks 1 })
      else some (record p { dupacks = 0 })
    else (let q = note_ack p h in
        elim (acked_loop h.ackno q.unacked) [
          | none ↦ none
          | some unacked ↦ elim (acked_loop h.ackno q.unsent) [
            | none ↦ none
            | some unsent ↦
                some (wake_writer (flush_buf (record q { unacked = unacked; unsent = unsent }) h))
          ]
        ])

abbrev pub delay_ack : Pcb → Pcb
delay_ack p = record p { flags = bit_or p.flags tf_ack_delay }

-- The bytes of a segment from `rcv_nxt` on.
abbrev pub trimmed : Pcb → Seg → Header → Seg
trimmed p g h =
    if seq_lt h.seqno p.rcv_nxt
    then record g { bytes = drop (sub_u32 p.rcv_nxt h.seqno) g.bytes }
    else g

-- The end of `tcp_update_buf`: the segment is queued, and the reader woken.
abbrev pub queue_recved : Seg → Pcb → Pcb
queue_recved g p = record p {
  recved = insert_seg (record g { count = g.count + 1 }) p.recved;
  woken = wake p.rx_waiter (pos 0) p.woken;
  rx_waiter = none;
}

abbrev pub quick_ack : (ℕ → ℕ) → Pcb → Pcb
quick_ack route p = if has_flag p.flags tf_quickack then tcp_send_ack route tcp_ack p else p

-- `tcp_update_buf` of a segment that has bytes to deliver.
pub accept_seg : (ℕ → ℕ) → Pcb → Seg → ℕ → Pcb
accept_seg route p g rcv_nxt =
    let q = quick_ack route (
      delay_ack (record p {
        rcv_nxt = rcv_nxt;
        rcv_wnd = (p.rcv_wnd + (2 ^ 16 - seg_size g % 2 ^ 16)) % 2 ^ 16;
      })) in
    if ltb (tcp_state_number established) (tcp_state_number q.state) then q else queue_recved g q

-- `tcp_update_buf`
pub tcp_update_buf : (ℕ → ℕ) → Pcb → Seg → Header → Option Pcb
tcp_update_buf route p g h =
    let rcv_nxt = add_u32 h.seqno (seg_size g) in
    let g' = trimmed p g h in
    if seq_leq rcv_nxt p.rcv_nxt
    then some (delay_ack p)
    else if seq_gt h.seqno p.rcv_nxt
    then some (delay_ack p)
    else if seg_size g' == 0
    then some (delay_ack p)
    else if g'.count == 1
    then some (accept_seg route p g' rcv_nxt)
    else none

-- `tcp_receive`
pub tcp_receive : (ℕ → ℕ) → Pcb → Seg → Header → Option Pcb
tcp_receive route p g h =
    let acked =
      if has_flag h.flags tcp_ack then tcp_update_ack route (tcp_update_wnd p h) g h else some p in
    elim acked [
      | none ↦ none
      | some q ↦ if ltb 0 (seg_size g) then tcp_update_buf route q g h else some q
    ]

-- `tcp_handle_syn_sent`
pub tcp_handle_syn_sent : (ℕ → ℕ) → Pcb → Header → ℤ × Pcb
tcp_handle_syn_sent route p h =
    if not (h.flags == tcp_syn + tcp_ack)
    then (neg 102, p)
    else if not (h.ackno == add_u32 p.snd_nxt 1)
    then (neg 102, p)
    else (let q = quick_ack route (
          delay_ack (record p {
            state = established;
            rcv_nxt = add_u32 h.seqno 1;
            snd_nxt = h.ackno;
            snd_wnd = h.window;
            snd_una = h.ackno;
            snd_nbb = h.ackno;
          })) in
        (pos 0, record q { woken = wake q.ac_waiter (pos 0) q.woken; ac_waiter = none }))

-- `tcp_validate`
pub tcp_validate : Pcb → Seg → Header → ℤ
tcp_validate p g h =
    if has_flag h.flags tcp_syn
    then pos 0
    else if seq_gt (seg_end g) (add_u32 p.rcv_nxt p.rcv_wnd)
    then neg 102
    else if seq_lt (seg_end g) p.rcv_nxt
    then neg 102
    else pos 0
