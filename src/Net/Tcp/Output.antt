-- ===== src/Net/Tcp/Output.antt =====
-- src/net/tcp_output.c: segments are queued, sent within the window, and queued again. The `ip_output` of
-- a frame is its place at the end of `sent`. `route` gives the address of the interface that
-- `netif_route` chooses for an address.
pub mod Window
pub mod Sending
pub mod Round
pub mod State
pub mod Enqueue
use onix.Base.{
  ℕ, zero, suc, ◌+◌, ◌-◌, ◌*◌, ◌%◌, ◌^◌, ◌<◌, Bool, true, false, not, Option, none, some, List, [],
  ◌∷◌, ◌++◌, length, take, drop, ◌==◌, ltb, leb, if◌then◌else◌, ◌&&◌, ◌||◌, bit_and, bit_or, ◌>>◌,
  assert,
}
use onix.Base.Int.{ℤ, pos, neg}
use onix.Base.Bits.{complement}
use onix.Base.Word.{add_u32, sub_u32}
use onix.Net.Tcp.{
  Pcb, Seg, Frame, Timers, seg_size, insert_seg, has_flag, seq_leq, seq_gt, tcp_default_mss,
  tcp_syn, tcp_ack, tcp_psh, tcp_rst, tf_ack_delay, tf_ack_now, tf_nodelay,
}

-- The window that a header announces.
abbrev pub announced : Pcb → ℕ
announced p = if ltb p.rcv_wnd p.rcv_mss then 0 else p.rcv_wnd

-- `tcp->ack = true` where the header has no SYN.
abbrev pub flags_out : ℕ → ℕ
flags_out flags = if has_flag flags tcp_syn then flags else bit_or flags tcp_ack

-- `pcb->flags` after a header with these flags went out.
abbrev pub flags_left : ℕ → ℕ → ℕ
flags_left flags kept =
    if has_flag flags tcp_syn
    then kept
    else bit_and kept (complement 32 (tf_ack_delay + tf_ack_now))

-- The header of `tcp_output_seg`.
abbrev pub header_of : ℕ → ℕ → List ℕ → Pcb → Frame
header_of seqno flags bytes p = record {
  seqno = seqno;
  ackno = p.rcv_nxt;
  flags = flags_out flags;
  window = announced p;
  bytes = bytes;
}

-- `tcp_output_seg` of a header with these fields.
unfoldable pub tcp_output_seg : (ℕ → ℕ) → ℕ → ℕ → List ℕ → Pcb → Pcb
tcp_output_seg route seqno flags bytes p = record p {
  flags = flags_left flags p.flags;
  laddr = if p.laddr == 0 then route p.raddr else p.laddr;
  sent = p.sent ++ (header_of seqno flags bytes p ∷ []);
}

-- `tcp_send_ack`
unfoldable pub tcp_send_ack : (ℕ → ℕ) → ℕ → Pcb → Pcb
tcp_send_ack route flags p = tcp_output_seg route p.snd_nxt flags [] p

-- `tcp_response`
pub tcp_response : ℕ → ℕ → ℕ → Pcb → Pcb
tcp_response seqno ackno flags p = record p {
  sent =
      p.sent
      ++ (record { seqno = seqno; ackno = ackno; flags = flags; window = announced p; bytes = [] }
          ∷ []);
}

-- The header of `tcp_reset`, which has no control block.
pub tcp_reset : ℕ → ℕ → Frame
tcp_reset seqno ackno = record {
  seqno = seqno;
  ackno = ackno;
  flags = bit_or tcp_ack tcp_rst;
  window = 0;
  bytes = [];
}

-- The bookkeeping of `tcp_output` for a segment that goes out.
abbrev pub note_sent : ℕ → Pcb → Pcb
note_sent nxt p = record p {
  rtt = if not (p.rtt == 0) && seq_leq p.rtt_seq p.snd_una then 1 else p.rtt;
  rtt_seq = if not (p.rtt == 0) && seq_leq p.rtt_seq p.snd_una then nxt else p.rtt_seq;
  snd_nxt = nxt;
  snd_max = if seq_gt nxt p.snd_max then nxt else p.snd_max;
}

-- `seqno + size` of a segment.
abbrev pub seg_end : Seg → ℕ
seg_end g = add_u32 g.seqno (seg_size g)

-- A round of the loop of `tcp_output` that sends: the segment goes to `unacked`, and its header out.
pub send_seg : (ℕ → ℕ) → Seg → Pcb → Pcb
send_seg route g p =
    let q = tcp_output_seg route g.seqno g.flags g.bytes (note_sent (seg_end g) p) in
    record q {
      unacked = insert_seg (record g { count = g.count + 1; flags = flags_out g.flags }) q.unacked;
      timers = record q.timers { rexmit = q.rto };
    }

-- The loop of `tcp_output` over `unsent`, which begins with these segments.
pub output_loop : (ℕ → ℕ) → ℕ → List Seg → Pcb → Option Pcb
output_loop route wnd [] p = some (record p { unsent = [] })
output_loop route wnd (g ∷ gs) p =
    let rest = output_loop route wnd gs (send_seg route g p) in
    if seq_gt (seg_end g) (add_u32 p.snd_una wnd)
    then some (record p { unsent = g ∷ gs })
    else if g.count == 1
    then rest
    else none

-- `MIN`
abbrev pub min_u32 : ℕ → ℕ → ℕ
min_u32 a b = if ltb a b then a else b

-- The start of `tcp_output`: slow start after an idle time.
abbrev pub slow_start : Pcb → Pcb
slow_start p = record p {
  snd_cwnd = if (p.snd_max == p.snd_una) && leb p.rto p.idle then p.snd_mss else p.snd_cwnd;
}

-- `tcp_output`: its result, and the control block.
pub tcp_output : (ℕ → ℕ) → Pcb → Option (ℤ × Pcb)
tcp_output route p =
    let q = slow_start p in
    let wnd = min_u32 q.snd_cwnd q.snd_wnd in
    if ltb wnd tcp_default_mss then some (neg 22, q) else elim (output_loop route wnd q.unsent q) [
      | none ↦ none
      | some r ↦
          some (pos 0, if has_flag r.flags tf_ack_now then tcp_send_ack route tcp_ack r else r)
    ]

-- The loop of `tcp_rexmit`: the segments that stay in `unacked`, and `unsent`.
pub rexmit_loop : List Seg → List Seg → List Seg × List Seg
rexmit_loop [] unsent = ([], unsent)
rexmit_loop (g ∷ gs) unsent =
    let skip = rexmit_loop gs unsent in
    let move = rexmit_loop gs (insert_seg g unsent) in
    if ltb 1 g.count then (g ∷ skip.0, skip.1) else move

-- `tcp_rexmit`
pub tcp_rexmit : (ℕ → ℕ) → Pcb → Option Pcb
tcp_rexmit route p =
    let lists = rexmit_loop p.unacked p.unsent in
    elim (tcp_output route (record p { unacked = lists.0; unsent = lists.1 })) [
      | none ↦ none
      | some r ↦ some (record r.1 { timers = record r.1.timers { rexmit = r.1.rto } })
    ]

-- A segment from `pbuf_get`, with the header that `tcp_enqueue` writes.
abbrev pub fresh_seg : ℕ → Pcb → Seg
fresh_seg flags p = record {
  seqno = p.snd_nbb;
  bytes = [];
  flags = flags;
  count = 1;
  length = 0;
  total = if has_flag flags tcp_syn then 28 else 20;
}

abbrev pub buffered : ℕ → Pcb → Seg
buffered flags p = elim p.snd_buf [ none ↦ fresh_seg flags p | some g ↦ g ]

-- `len` of a round of `tcp_enqueue`: of `left` bytes, what fits into the segment.
abbrev pub fill_len : ℕ → Pcb → Seg → ℕ
fill_len left p g = if ltb left (p.snd_mss - seg_size g) then left else p.snd_mss - seg_size g

-- The bytes left after a round.
abbrev pub bytes_left : ℕ → List ℕ → Pcb → List ℕ
bytes_left flags ptr p = drop (fill_len (length ptr) p (buffered flags p)) ptr

-- The segment after a round; the last one gets PSH where it has bytes.
abbrev pub filled : ℕ → List ℕ → Pcb → Seg
filled flags ptr p =
    let g = buffered flags p in
    let bytes = g.bytes ++ take (fill_len (length ptr) p g) ptr in
    let last = ltb 0 (length bytes) && (length (bytes_left flags ptr p) == 0) in
    record g {
      bytes = bytes;
      flags = bit_or (bit_or g.flags flags) (if last then tcp_psh else 0);
      total = g.total + fill_len (length ptr) p g;
    }

-- Whether a round leaves the segment in `snd_buf`.
abbrev pub keeps : ℕ → Pcb → Seg → Bool
keeps size p g = not (has_flag p.flags tf_nodelay) && (ltb (seg_size g) p.snd_mss && ltb 0 size)

-- A round of the loop of `tcp_enqueue`.
pub enqueue_round : ℕ → ℕ → List ℕ → Pcb → Pcb
enqueue_round size flags ptr p =
    let g = filled flags ptr p in
    let q = record p { snd_nbb = add_u32 p.snd_nbb (fill_len (length ptr) p (buffered flags p)) } in
    if keeps size p g
    then record q { snd_buf = some g }
    else record q { snd_buf = none; unsent = insert_seg g q.unsent }

-- The bytes of a `pbuf_t` from the header of TCP on: it is half a page, and 40 bytes of its own and 34 of
-- the headers before come first.
abbrev pub segment_room : ℕ
segment_room = 1974

-- Whether the `memcpy` of a round goes past the end of the buffer.
abbrev pub overruns : ℕ → List ℕ → Pcb → Bool
overruns flags ptr p =
    ltb 0 (fill_len (length ptr) p (buffered flags p))
    && ltb segment_room (filled flags ptr p).total

-- The loop of `tcp_enqueue` with the bytes left, on fuel; `none` also where the segment is longer than
-- `snd_mss`, and where a buffer is too small.
pub enqueue_loop : ℕ → ℕ → ℕ → List ℕ → Pcb → Option Pcb
enqueue_loop zero size flags ptr p = none
enqueue_loop (suc fuel) size flags ptr p =
    let q = enqueue_round size flags ptr p in
    let more = enqueue_loop fuel size flags (bytes_left flags ptr p) q in
    if ltb p.snd_mss (seg_size (buffered flags p))
    then none
    else if overruns flags ptr p
    then none
    else if length (bytes_left flags ptr p) == 0
    then some q
    else more

-- `tcp_enqueue`
pub tcp_enqueue : ℕ → List ℕ → ℕ → Pcb → Option Pcb
tcp_enqueue fuel bytes flags p =
    enqueue_loop fuel (length bytes) flags bytes
      (if ltb p.snd_mss tcp_default_mss then record p { snd_mss = tcp_default_mss } else p)
