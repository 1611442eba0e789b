-- ===== src/Net/Tcp/Socket.antt =====
-- src/net/tcp.c: the calls on a socket. A call that blocks is two functions: what it does before
-- `task_block`, and what it does with the result of `task_block`.
pub mod Receive
use onix.Base.{
  ℕ, zero, suc, ◌+◌, ◌-◌, ◌%◌, ◌^◌, ◌<◌, Bool, true, false, not, Option, none, some, List, [], ◌∷◌,
  ◌++◌, length, take, drop, ◌==◌, ltb, leb, if◌then◌else◌, ◌&&◌, ◌||◌, bit_and, bit_or,
}
use onix.Base.Bits.{complement}
use onix.Base.Int.{ℤ, pos, negsuc, neg}
use onix.Libc.Nodes.{without}
use onix.Net.Addr.{ip_addr_isany}
use onix.Net.Iovec.{Iovec, iovec_write}
use onix.Net.Port.{port_get}
use onix.Net.Tcp.{
  TcpState, closed, listening, syn_sent, syn_rcvd, established, fin_wait1, last_ack, close_wait,
  time_wait, fin_wait2, closing, tcp_state_number, Pcb, Seg, Timers, seg_size, tcp_fin, tcp_syn,
  tcp_to_syn, tcp_to_keep_idle, tf_keepalive, tf_nodelay, tf_quickack, tcp_window,
}
use onix.Net.Tcp.Output.{tcp_enqueue, tcp_output}
use onix.Net.Tcp.Process.{Env, send_flags}
use onix.Net.Tcp.Stack.{Stack, on, try_on, unlink, tcp_pcb_put}

-- FIN is queued, the state changes, and `tcp_output` runs.
pub send_fin : (ℕ → ℕ) → TcpState → Pcb → Option Pcb
send_fin route state p = elim (tcp_enqueue 1 [] tcp_fin p) [
  | none ↦ none
  | some q ↦ elim (tcp_output route (record q { state = state })) [
    | none ↦ none
    | some r ↦ some r.1
  ]
]

-- The `switch` of `tcp_close`.
pub close_state : Env → ℕ → Stack → TcpState → Option Stack
close_state env a s closed = tcp_pcb_put env.fuel a s
close_state env a s syn_sent = tcp_pcb_put env.fuel a s
close_state env a s listening = tcp_pcb_put env.fuel a s
close_state env a s syn_rcvd = try_on a (send_fin env.route fin_wait1) s
close_state env a s established = try_on a (send_fin env.route fin_wait1) s
close_state env a s close_wait = try_on a (send_fin env.route last_ack) s
close_state env a s fin_wait1 = some s
close_state env a s fin_wait2 = some s
close_state env a s closing = some s
close_state env a s last_ack = some s
close_state env a s time_wait = some s

-- `tcp_close`
pub tcp_close : Env → ℕ → Stack → Option Stack
tcp_close env a s = close_state env a s (s.pcb a).state

-- `tcp_listen`
pub tcp_listen : ℕ → ℕ → Stack → ℤ × Stack
tcp_listen a backlog s =
    if tcp_state_number (s.pcb a).state == 1
    then (pos 0, s)
    else if not (tcp_state_number (s.pcb a).state == 0)
    then (neg 102, s)
    else (let t =
          unlink a (on a (λ p. record p { state = listening; backcnt = 0; backlog = backlog }) s) in
        (pos 0, record t { listens = a ∷ t.listens }))

-- The loop of `tcp_find_npcb`.
pub find_npcb : (ℕ → Pcb) → List ℕ → Option ℕ
find_npcb pcb [] = none
find_npcb pcb (n ∷ rest) =
    if tcp_state_number (pcb n).state == 4 then some n else find_npcb pcb rest

-- `tcp_find_npcb`
pub tcp_find_npcb : ℕ → Stack → Option ℕ × Stack
tcp_find_npcb a s = elim (find_npcb s.pcb (s.pcb a).acclist) [
  | none ↦ (none, s)
  | some n ↦ (some n, on a (λ p. record p { acclist = without n p.acclist }) s)
]

-- The low 16 bits of a result: what `pcb->lport = port_get(...)` keeps of it.
abbrev pub low_u16 : ℤ → ℕ
low_u16 (pos n) = n % 2 ^ 16
low_u16 (negsuc n) = 2 ^ 16 - 1 - n % 2 ^ 16

-- The port that `tcp_connect` uses: its own, or any free one. A failed `port_get` goes unnoticed.
pub connect_port : Pcb → Stack → Option (ℕ × Stack)
connect_port p s = if not (p.lport == 0) then some (p.lport, s) else elim (port_get s.port_map 0) [
  | none ↦ none
  | some r ↦ some (low_u16 r.0, record s { port_map = r.1 })
]

-- `tcp_connect` of a task up to `task_block`, to a port in the host's byte order: its result where it does
-- not block.
pub tcp_connect : Env → ℕ → ℕ → ℕ → ℕ → Stack → Option (Option ℤ × Stack)
tcp_connect env task a addr port s =
    if not (tcp_state_number (s.pcb a).state == 0)
    then some (some (neg 22), s)
    else if ip_addr_isany addr || (port == 0)
    then some (some (neg 101), s)
    else elim (connect_port (s.pcb a) s) [
      | none ↦ none
      | some r ↦
          let t = unlink a (
            on a (λ p. record p { raddr = addr; rport = port; lport = r.0; state = syn_sent })
              r.1) in
          elim (try_on a (send_flags env.route tcp_syn) (record t { active = a ∷ t.active })) [
            | none ↦ none
            | some u ↦ some (
              none,
              on a
                  (λ p. record p {
                    timers = record p.timers { syn = tcp_to_syn };
                    ac_waiter = some task;
                  })
                  u,
            )
          ]
    ]

-- The end of `tcp_connect`, with the result of `task_block`.
pub connected : ℕ → ℤ → Stack → ℤ × Stack
connected a ret s = (ret, on a (λ p. record p { ac_waiter = none }) s)

-- `if (val) flags |= flag; else flags &= ~flag;`
abbrev pub set_flag : ℕ → Bool → ℕ → ℕ
set_flag flag true flags = bit_or flags flag
set_flag flag false flags = bit_and flags (complement 32 flag)

-- The options that `tcp_setsockopt` knows.
pub data SockOption : Type 0 where
  so_keepalive : SockOption
  so_tcp_nodelay : SockOption
  so_tcp_quickack : SockOption
  so_other : SockOption

-- `tcp_setsockopt`
pub tcp_setsockopt : SockOption → Bool → Pcb → ℤ × Pcb
tcp_setsockopt so_keepalive val p = (
  pos 0,
  record p {
    timers = record p.timers { keepalive = if val then tcp_to_keep_idle else 0 };
    flags = set_flag tf_keepalive val p.flags;
  },
)
tcp_setsockopt so_tcp_nodelay val p = (pos 0, record p { flags = set_flag tf_nodelay val p.flags })
tcp_setsockopt so_tcp_quickack val p =
    (pos 0, record p { flags = set_flag tf_quickack val p.flags })
tcp_setsockopt so_other val p = (neg 22, p)

-- `if (pbuf->total) { pbuf->length = pbuf->size; pbuf->total = 0; }`
abbrev pub note_length : Seg → Seg
note_length g = if g.total == 0 then g else record g { length = seg_size g; total = 0 }

-- The loop of `tcp_recvmsg`: the bytes left to read, the segments, the window and the buffers. `none` where
-- an `assert` fails.
pub recv_loop : ℕ → ℕ → List Seg → ℕ → List Iovec → Option (ℕ × List Seg × ℕ × List Iovec)
recv_loop iovlen left [] wnd iov = some (left, [], wnd, iov)
recv_loop iovlen left (g ∷ gs) wnd iov =
    let h = note_length g in
    let len = if ltb left (seg_size h) then left else seg_size h in
    elim (iovec_write iov iovlen h.bytes len) [
      | none ↦ none
      | some r ↦
          let wnd' = (wnd + h.length) % 2 ^ 16 in
          let rest = recv_loop iovlen (left - len) gs wnd' r.1 in
          if not (r.0 == len)
          then none
          else if ltb len (seg_size h)
          then some (left - len, record h { bytes = drop (left - len) h.bytes } ∷ gs, wnd, r.1)
          else if (h.count == 1) && leb wnd' tcp_window
          then rest
          else none
    ]

-- `tcp_recvmsg` from the loop on, for `size` bytes of room: its test of the state, its wait for segments
-- and its assertion of a size above 0 come before.
pub tcp_recvmsg : ℕ → ℕ → List Iovec → Pcb → Option (ℕ × List Iovec × Pcb)
tcp_recvmsg iovlen size iov p = elim (recv_loop iovlen size p.recved p.rcv_wnd iov) [
  | none ↦ none
  | some r ↦ some (size - r.0, r.3, record p { recved = r.1; rcv_wnd = r.2 })
]
