-- ===== src/Net/Tcp/Stack.antt =====
-- src/net/tcp_pcb.c: all control blocks, their four lists, and how a block is got, emptied, parked and put
-- back. A block is its address, which `kmalloc` chose; a list is that of the blocks' addresses.
pub mod States
pub mod Purge
use onix.Base.{
  ℕ, zero, suc, ◌+◌, Bool, true, false, Option, none, some, List, [], ◌∷◌, ◌++◌, ◌==◌, ltb, leb,
  if◌then◌else◌, ◌&&◌, ◌||◌, not,
}
use onix.Base.Int.{ℤ, pos, neg}
use onix.Libc.Bitmap.{Bitmap}
use onix.Libc.Nodes.{without, insert_by, put}
use onix.Net.Addr.{ip_addr_cmp, ip_addr_isany}
use onix.Net.Port.{port_put}
use onix.Net.Tcp.{
  TcpState, closed, time_wait, Pcb, Seg, Timers, wake, tcp_mss, tcp_window, tcp_default_mss,
  tcp_max_window, tcp_to_timewait, tcp_to_rtt_default, tcp_to_min,
}
use onix.Net.Tcp.Timer.{tcp_update_rto}

-- The blocks, and the lists of `tcp_pcb.c`; `freed` has the blocks that went to `kfree`.
pub record Stack : Type 0 where
  pub pcb : ℕ → Pcb
  pub create : List ℕ
  pub active : List ℕ
  pub listens : List ℕ
  pub timewait : List ℕ
  pub port_map : Bitmap
  pub freed : List ℕ

-- `pcb->... = ...`
abbrev pub on : ℕ → (Pcb → Pcb) → Stack → Stack
on a f s = record s { pcb = put s.pcb a (f (s.pcb a)) }

abbrev pub try_on : ℕ → (Pcb → Option Pcb) → Stack → Option Stack
try_on a f s = elim (f (s.pcb a)) [ none ↦ none | some p ↦ some (on a (λ _. p) s) ]

-- `list_remove(&pcb->node)`: a block is in one of the four lists.
abbrev pub unlink : ℕ → Stack → Stack
unlink a s = record s {
  create = without a s.create;
  active = without a s.active;
  listens = without a s.listens;
  timewait = without a s.timewait;
}

-- A block of `tcp_pcb_get`, with the initial sequence number of `tcp_next_isn`.
unfoldable pub new_pcb : ℕ → Pcb
new_pcb isn =
    let p : Pcb = record {
      laddr = 0;
      raddr = 0;
      lport = 0;
      rport = 0;
      state = closed;
      flags = 0;
      snd_una = isn;
      snd_nxt = isn;
      snd_wnd = tcp_default_mss;
      snd_mss = tcp_default_mss;
      snd_nbb = isn;
      snd_max = 0;
      snd_wl1 = 0;
      snd_wl2 = 0;
      snd_mwnd = 0;
      snd_buf = none;
      rcv_nxt = 0;
      rcv_wnd = tcp_window;
      rcv_mss = tcp_mss;
      timers = record {
        syn = 0;
        rexmit = 0;
        persist = 0;
        keepalive = 0;
        fin_wait2 = 0;
        timewait = 0;
      };
      idle = 0;
      rto = 0;
      rtx_cnt = 0;
      rtt = 0;
      rtt_seq = isn;
      srtt = 0;
      rttvar = tcp_to_rtt_default;
      rttmin = tcp_to_min;
      dupacks = 0;
      snd_cwnd = tcp_default_mss;
      snd_ssthresh = tcp_max_window;
      acclist = [];
      backlog = 0;
      backcnt = 0;
      listen = none;
      unsent = [];
      unacked = [];
      outseq = [];
      recved = [];
      ac_waiter = none;
      tx_waiter = none;
      rx_waiter = none;
      sent = [];
      woken = [];
    } in
    record p { rto = tcp_update_rto p 1 }

-- `tcp_pcb_get`, at the address that `kmalloc` returns.
unfoldable pub tcp_pcb_get : ℕ → ℕ → Stack → Stack
tcp_pcb_get a isn s = record s { pcb = put s.pcb a (new_pcb isn); create = a ∷ s.create }

-- The loop of `tcp_list_put`: whether every `assert` holds.
pub tcp_list_put : List Seg → Bool
tcp_list_put [] = true
tcp_list_put (g ∷ gs) = if g.count == 1 then tcp_list_put gs else false

-- The four calls of `tcp_list_put`.
pub put_lists : Pcb → Option Pcb
put_lists p =
    if tcp_list_put p.recved
      && (tcp_list_put p.outseq && (tcp_list_put p.unsent && tcp_list_put p.unacked))
    then some (record p { recved = []; outseq = []; unsent = []; unacked = [] })
    else none

-- The end of `tcp_pcb_purge`: all that wait for the block are woken.
unfoldable pub wake_all : ℤ → Pcb → Pcb
wake_all reason p = record p {
  woken = wake p.tx_waiter reason (wake p.rx_waiter reason (wake p.ac_waiter reason p.woken));
  ac_waiter = none;
  rx_waiter = none;
  tx_waiter = none;
}

-- The loop of `tcp_pcb_purge` over the accepted blocks, with `tcp_pcb_put`.
pub put_each : (ℕ → Stack → Option Stack) → List ℕ → Stack → Option Stack
put_each put_pcb [] s = some s
put_each put_pcb (a ∷ rest) s = elim (put_pcb a s) [
  | none ↦ none
  | some t ↦ put_each put_pcb rest t
]

-- `if (pcb->lport != 0 && !pcb->listen) port_put(...)`
pub put_port : Pcb → Stack → Option Stack
put_port p s = elim p.listen [
  | some l ↦ some s
  | none ↦ if p.lport == 0 then some s else elim (port_put s.port_map p.lport) [
    | none ↦ none
    | some map ↦ some (record s { port_map = map })
  ]
]

-- `tcp_pcb_put`, given `tcp_pcb_purge`.
abbrev pub put_with : (ℕ → Stack → Option Stack) → ℕ → Stack → Option Stack
put_with purge a s = elim (put_port (s.pcb a) s) [
  | none ↦ none
  | some t ↦ elim (purge a t) [
    | none ↦ none
    | some u ↦ some (record (unlink a u) { freed = u.freed ++ (a ∷ []) })
  ]
]

-- `tcp_pcb_purge`, on fuel for the accepted blocks inside accepted blocks.
pub tcp_pcb_purge : ℕ → ℤ → ℕ → Stack → Option Stack
tcp_pcb_purge zero reason a s = none
tcp_pcb_purge (suc fuel) reason a s = elim (try_on a put_lists s) [
  | none ↦ none
  | some t ↦
      elim (put_each (put_with (tcp_pcb_purge fuel (neg 62))) (t.pcb a).acclist
        (on a (λ p. record p { acclist = [] }) t)) [
          | none ↦ none
          | some u ↦ some (on a (wake_all reason) u)
        ]
]

-- `tcp_pcb_put`
pub tcp_pcb_put : ℕ → ℕ → Stack → Option Stack
tcp_pcb_put fuel a s = put_with (tcp_pcb_purge fuel (neg 62)) a s

-- The end of `tcp_pcb_timewait`: the block is parked, in the order of the timers.
pub park : ℕ → Stack → Stack
park a s =
    let t =
      unlink a
        (on a (λ p. record p { timers = record p.timers { timewait = tcp_to_timewait } }) s) in
    record t { timewait = insert_by (λ b. (t.pcb b).timers.timewait) a t.timewait }

-- `tcp_pcb_timewait`
pub tcp_pcb_timewait : ℕ → ℕ → Stack → Option Stack
tcp_pcb_timewait fuel a s =
    elim (tcp_pcb_purge fuel (neg 62) a (on a (λ p. record p { state = time_wait }) s)) [
      | none ↦ none
      | some t ↦ some (park a t)
    ]

-- Whether a round of `tcp_find_pcb` returns the block.
abbrev pub is_match : Pcb → ℕ → ℕ → ℕ → ℕ → Bool
is_match p laddr lport raddr rport =
    (p.lport == lport)
    && ((ip_addr_isany p.laddr || ip_addr_cmp p.laddr laddr)
        && ((rport == 0)
            || ((p.rport == rport) && (ip_addr_isany p.raddr || ip_addr_cmp p.raddr raddr))))

-- A loop of `tcp_find_pcb` over one list.
pub find_in : (ℕ → Pcb) → List ℕ → ℕ → ℕ → ℕ → ℕ → Option ℕ
find_in pcb [] laddr lport raddr rport = none
find_in pcb (a ∷ rest) laddr lport raddr rport =
    if is_match (pcb a) laddr lport raddr rport
    then some a
    else find_in pcb rest laddr lport raddr rport

-- `tcp_find_pcb`
pub tcp_find_pcb : ℕ → ℕ → ℕ → ℕ → Stack → Option ℕ
tcp_find_pcb laddr lport raddr rport s = elim (find_in s.pcb s.active laddr lport raddr rport) [
  | some a ↦ some a
  | none ↦ elim (find_in s.pcb s.timewait laddr lport raddr rport) [
    | some a ↦ some a
    | none ↦ find_in s.pcb s.listens laddr lport raddr 0
  ]
]
