-- ===== src/Net/Tcp/Process.antt =====
-- src/net/tcp_input.c: the states of a connection, as received segments drive them.
pub mod Moves
pub mod Transitions
use onix.Base.{
  ℕ, zero, suc, ◌+◌, ◌*◌, ◌%◌, ◌^◌, Bool, true, false, not, Option, none, some, List, [], ◌∷◌,
  length, ◌==◌, ltb, if◌then◌else◌, ◌&&◌, ◌||◌, bit_or,
}
use onix.Base.Int.{ℤ, pos, neg, leb_ℤ}
use onix.Base.Word.{add_u32}
use onix.Libc.Nodes.{without, put}
use onix.Net.Addr.{ip_addr_isbroadcast, ip_addr_ismulticast}
use onix.Net.Tcp.{
  TcpState, closed, listening, syn_sent, syn_rcvd, established, fin_wait1, fin_wait2, close_wait,
  closing, last_ack, time_wait, tcp_state_number, Pcb, Seg, Header, Frame, Timers, seg_size,
  has_flag, wake, seq_gt, tcp_fin, tcp_syn, tcp_rst, tcp_ack, tcp_default_mss, tf_ack_now,
  tf_keepalive, tcp_to_syn, tcp_to_fin_wait2, tcp_to_keep_idle,
}
use onix.Net.Tcp.Input.{tcp_receive, tcp_handle_syn_sent, tcp_validate}
use onix.Net.Tcp.Output.{tcp_enqueue, tcp_output, tcp_reset}
use onix.Net.Tcp.Stack.{
  Stack, on, try_on, unlink, tcp_pcb_get, tcp_pcb_purge, tcp_pcb_put, tcp_pcb_timewait,
  tcp_find_pcb,
}

-- What the environment of a call gives: the address of the interface that a frame came in at, `netif_route`
-- (see Output), and, for a new block, the address from `kmalloc` and the number from `tcp_next_isn`.
pub record Env : Type 0 where
  pub ipaddr : ℕ
  pub route : ℕ → ℕ
  pub fresh : ℕ
  pub isn : ℕ
  pub fuel : ℕ

-- `tcp_handle_reset`
pub tcp_handle_reset : Env → ℕ → Stack → Option (ℤ × Stack)
tcp_handle_reset env a s =
    if ltb (tcp_state_number (s.pcb a).state) 3
    then some (neg 108, s)
    else elim (tcp_pcb_purge env.fuel (neg 108) a s) [
      | none ↦ none
      | some t ↦ some (neg 108, on a (λ p. record p { state = closed }) t)
    ]

-- The block that `tcp_handle_listen` makes of a new one.
abbrev pub child : Env → ℕ → ℕ → Pcb → Header → Pcb → Pcb
child env src a p h n = record n {
  laddr = env.ipaddr;
  raddr = src;
  lport = p.lport;
  rport = h.sport;
  state = syn_rcvd;
  snd_wnd = h.window;
  snd_mss = if ltb p.snd_mss tcp_default_mss then tcp_default_mss else p.snd_mss;
  rcv_nxt = add_u32 h.seqno 1;
  listen = some a;
}

-- The listening block notes the new one.
abbrev pub note_child : ℕ → Pcb → Pcb
note_child n p = record p { acclist = n ∷ p.acclist; backcnt = p.backcnt + 1 }

-- `tcp_enqueue` and `tcp_output` of a segment without bytes.
pub send_flags : (ℕ → ℕ) → ℕ → Pcb → Option Pcb
send_flags route flags p = elim (tcp_enqueue 1 [] flags p) [
  | none ↦ none
  | some q ↦ elim (tcp_output route q) [ none ↦ none | some r ↦ some r.1 ]
]

-- `tcp_handle_listen`
pub tcp_handle_listen : Env → ℕ → ℕ → Header → Stack → Option (ℤ × Stack)
tcp_handle_listen env src a h s =
    if not (h.flags == tcp_syn)
    then some (neg 102, s)
    else if (s.pcb a).backcnt == (s.pcb a).backlog
    then some (neg 102, s)
    else (let n = env.fresh in
        let t =
          on a (note_child n) (on n (child env src a (s.pcb a) h) (tcp_pcb_get n env.isn s)) in
        let u = unlink n t in
        elim (try_on n (send_flags env.route (tcp_syn + tcp_ack))
          (record u { active = n ∷ u.active })) [
            | none ↦ none
            | some v ↦
                some
                  (pos 0, on a (λ p. record p { timers = record p.timers { syn = tcp_to_syn } }) v)
          ])

-- Whether a segment acknowledges the SYN or the FIN that comes behind `snd_nxt`.
abbrev pub acks_last : Pcb → Header → Bool
acks_last p h = has_flag h.flags tcp_ack && (h.ackno == add_u32 p.snd_nxt 1)

-- The case SYN_RCVD of `tcp_process`; `none` where the `assert` fails.
pub process_syn_rcvd : ℕ → Header → Stack → Option Stack
process_syn_rcvd a h s = if not (acks_last (s.pcb a) h) then some s else elim (s.pcb a).listen [
  | none ↦ none
  | some l ↦ some (
      on l (λ p. record p { woken = wake p.ac_waiter (pos 0) p.woken })
        (on a (λ p. record p { state = established; snd_nxt = h.ackno; snd_nbb = h.ackno }) s))
]

-- `pcb->snd_nxt = pcb->snd_nxt + 1; pcb->snd_nbb = pcb->snd_nxt`
abbrev pub pass_fin : Pcb → Pcb
pass_fin p = record p { snd_nxt = add_u32 p.snd_nxt 1; snd_nbb = add_u32 p.snd_nxt 1 }

-- `pcb->rcv_nxt = tcp->seqno + 1; pcb->flags |= TF_ACK_NOW`
abbrev pub take_fin : Header → Pcb → Pcb
take_fin h p = record p { rcv_nxt = add_u32 h.seqno 1; flags = bit_or p.flags tf_ack_now }

-- The case FIN_WAIT1 up to its last test.
pub leave_fin_wait1 : Env → ℕ → Header → Stack → Option Stack
leave_fin_wait1 env a h s =
    if has_flag h.flags tcp_fin && acks_last (s.pcb a) h
    then tcp_pcb_timewait env.fuel a (on a pass_fin s)
    else if has_flag h.flags tcp_fin
    then some (on a (λ p. record p { state = closing }) s)
    else if acks_last (s.pcb a) h
    then some (
        on a
          (λ p. record (pass_fin p) {
            state = fin_wait2;
            timers = record p.timers { fin_wait2 = tcp_to_fin_wait2 };
          })
          s)
    else some s

pub process_fin_wait1 : Env → ℕ → Header → Stack → Option Stack
process_fin_wait1 env a h s = elim (leave_fin_wait1 env a h s) [
  | none ↦ none
  | some t ↦ some (if has_flag h.flags tcp_fin then on a (take_fin h) t else t)
]

-- The case TIME_WAIT.
abbrev pub note_late : Seg → Header → Pcb → Pcb
note_late g h p =
    let last = add_u32 h.seqno (seg_size g) in
    record p {
      rcv_nxt = if seq_gt last p.rcv_nxt then last else p.rcv_nxt;
      flags = if ltb 0 (seg_size g) then bit_or p.flags tf_ack_now else p.flags;
    }

abbrev pub ok : Option Stack → Option (ℤ × Stack)
ok none = none
ok (some s) = some (pos 0, s)

-- The `switch` of `tcp_process`.
unfoldable pub process_state : Env → ℕ → ℕ → Seg → Header → Stack → TcpState → Option (ℤ × Stack)
process_state env src a g h s closed = some (pos 0, s)
process_state env src a g h s listening = tcp_handle_listen env src a h s
process_state env src a g h s syn_sent =
    let r = tcp_handle_syn_sent env.route (s.pcb a) h in some (r.0, on a (λ _. r.1) s)
process_state env src a g h s syn_rcvd = ok (process_syn_rcvd a h s)
process_state env src a g h s established = some (
  pos 0,
  if has_flag h.flags tcp_fin
      then on a (λ p. record (take_fin h p) { state = close_wait }) s
      else s,
)
process_state env src a g h s fin_wait1 = ok (process_fin_wait1 env a h s)
process_state env src a g h s fin_wait2 =
    if has_flag h.flags tcp_fin
    then ok (tcp_pcb_timewait env.fuel a (on a (take_fin h) s))
    else some (pos 0, s)
process_state env src a g h s close_wait = some (
  pos 0,
  if has_flag h.flags tcp_fin
      then on a (λ p. record (take_fin h p) { state = close_wait }) s
      else s,
)
process_state env src a g h s closing =
    if acks_last (s.pcb a) h
    then ok (tcp_pcb_timewait env.fuel a (on a pass_fin s))
    else some (pos 0, s)
process_state env src a g h s last_ack =
    if has_flag h.flags tcp_ack
    then ok (tcp_pcb_put env.fuel a (on a (λ p. record p { state = closed }) s))
    else some (pos 0, s)
process_state env src a g h s time_wait = some (pos 0, on a (note_late g h) s)

-- The start of `tcp_process`: `tcp_receive` of a segment with ACK.
unfoldable pub received : Env → ℕ → Seg → Header → Stack → Option Stack
received env a g h s =
    if has_flag h.flags tcp_ack && not (tcp_state_number (s.pcb a).state == 10)
    then try_on a (λ p. tcp_receive env.route p g h) s
    else some s

-- `tcp_process`
unfoldable pub tcp_process : Env → ℕ → ℕ → Seg → Header → Stack → Option (ℤ × Stack)
tcp_process env src a g h s = elim (received env a g h s) [
  | none ↦ none
  | some t ↦ process_state env src a g h t (t.pcb a).state
]
