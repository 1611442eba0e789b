-- ===== src/Net/Tcp/Clock.antt =====
-- src/net/tcp_timer.c: the rounds of the two timer tasks over all blocks.
pub mod GiveUp
use onix.Base.{
  ℕ, zero, suc, ◌+◌, ◌-◌, ◌*◌, ◌%◌, ◌^◌, Bool, true, false, not, Option, none, some, List, [], ◌∷◌,
  ◌==◌, ltb, if◌then◌else◌,
}
use onix.Base.Int.{ℤ, pos, neg}
use onix.Base.Word.{add_u32}
use onix.Net.Tcp.{
  TcpState, closed, tcp_state_number, Pcb, Timers, has_flag, tf_keepalive, tcp_maxrxtcnt,
  tcp_to_keep_interval, tcp_to_keepcnt,
}
use onix.Net.Tcp.Output.{tcp_rexmit}
use onix.Net.Tcp.Process.{Env}
use onix.Net.Tcp.Stack.{Stack, on, try_on, tcp_pcb_purge, tcp_pcb_put}
use onix.Net.Tcp.Timer.{tcp_persist, tcp_keepalive, tcp_update_rto, tcp_backoff, fast_round}

-- The index of a timer.
pub data TimerKind : Type 0 where
  timer_syn : TimerKind
  timer_rexmit : TimerKind
  timer_persist : TimerKind
  timer_keepalive : TimerKind
  timer_fin_wait2 : TimerKind
  timer_timewait : TimerKind

-- A block is given up: it is emptied with ETIME, and closed.
pub give_up : Env → ℕ → Stack → Option Stack
give_up env a s = elim (tcp_pcb_purge env.fuel (neg 62) a s) [
  | none ↦ none
  | some t ↦ some (on a (λ p. record p { state = closed }) t)
]

-- The case TCP_TIMER_REXMIT where the block is not given up.
pub retry : (ℕ → ℕ) → Pcb → Option Pcb
retry route p = tcp_rexmit route (record p { rto = tcp_update_rto p (tcp_backoff p.rtx_cnt) })

-- The case TCP_TIMER_REXMIT.
pub timeout_rexmit : Env → ℕ → Stack → Option Stack
timeout_rexmit env a s =
    let t = on a (λ p. record p { rtx_cnt = p.rtx_cnt + 1 }) s in
    if ltb tcp_maxrxtcnt (t.pcb a).rtx_cnt then give_up env a t else try_on a (retry env.route) t

-- The case TCP_TIMER_KEEPALIVE.
pub timeout_keepalive : Env → ℕ → Stack → Option Stack
timeout_keepalive env a s =
    let p = s.pcb a in
    if not (has_flag p.flags tf_keepalive)
    then some s
    else if ltb (tcp_state_number p.state) 4
    then some s
    else if ltb (tcp_to_keep_interval * tcp_to_keepcnt) p.idle
    then give_up env a s
    else some (on a tcp_keepalive s)

-- `tcp_timeout`
pub tcp_timeout : Env → ℕ → TimerKind → Stack → Option Stack
tcp_timeout env a timer_syn s =
    if (tcp_state_number (s.pcb a).state == 2)
    then give_up env a s
    else if tcp_state_number (s.pcb a).state == 3
    then give_up env a s
    else some s
tcp_timeout env a timer_rexmit s = timeout_rexmit env a s
tcp_timeout env a timer_persist s = some (on a tcp_persist s)
tcp_timeout env a timer_keepalive s = timeout_keepalive env a s
tcp_timeout env a timer_fin_wait2 s = tcp_pcb_put env.fuel a s
tcp_timeout env a timer_timewait s = tcp_pcb_put env.fuel a s

abbrev pub get_timer : TimerKind → Timers → ℕ
get_timer timer_syn t = t.syn
get_timer timer_rexmit t = t.rexmit
get_timer timer_persist t = t.persist
get_timer timer_keepalive t = t.keepalive
get_timer timer_fin_wait2 t = t.fin_wait2
get_timer timer_timewait t = t.timewait

abbrev pub set_timer : TimerKind → ℕ → Timers → Timers
set_timer timer_syn n t = record t { syn = n }
set_timer timer_rexmit n t = record t { rexmit = n }
set_timer timer_persist n t = record t { persist = n }
set_timer timer_keepalive n t = record t { keepalive = n }
set_timer timer_fin_wait2 n t = record t { fin_wait2 = n }
set_timer timer_timewait n t = record t { timewait = n }

-- One timer of one block, in a round of `tcp_slowtimo`.
pub count_down : Env → ℕ → TimerKind → Stack → Option Stack
count_down env a i s =
    let n = get_timer i (s.pcb a).timers in
    let t = on a (λ p. record p { timers = set_timer i (n - 1) p.timers }) s in
    if n == 0 then some s else if n == 1 then tcp_timeout env a i t else some t

pub count_all : Env → ℕ → List TimerKind → Stack → Option Stack
count_all env a [] s = some s
count_all env a (i ∷ rest) s = elim (count_down env a i s) [
  | none ↦ none
  | some t ↦ count_all env a rest t
]

abbrev pub all_timers : List TimerKind
all_timers =
    timer_syn ∷ timer_rexmit ∷ timer_persist ∷ timer_keepalive ∷ timer_fin_wait2 ∷ timer_timewait
    ∷ []

-- `pcb->idle++; if (pcb->rtt) pcb->rtt++;`
abbrev pub age : Pcb → Pcb
age p = record p { idle = add_u32 p.idle 1; rtt = if p.rtt == 0 then 0 else add_u32 p.rtt 1 }

-- One block in a round of `tcp_slowtimo`.
pub slow_round : Env → ℕ → Stack → Option Stack
slow_round env a s = count_all env a all_timers (on a age s)

pub slow_rounds : Env → List ℕ → Stack → Option Stack
slow_rounds env [] s = some s
slow_rounds env (a ∷ rest) s = elim (slow_round env a s) [
  | none ↦ none
  | some t ↦ slow_rounds env rest t
]

-- A round of `tcp_slowtimo` over the two lists. The second list is read when its turn comes.
pub tcp_slowtimo : Env → Stack → Option Stack
tcp_slowtimo env s = elim (slow_rounds env s.active s) [
  | none ↦ none
  | some t ↦ slow_rounds env t.timewait t
]

pub fast_rounds : (ℕ → ℕ) → List ℕ → Stack → Option Stack
fast_rounds route [] s = some s
fast_rounds route (a ∷ rest) s = elim (try_on a (fast_round route) s) [
  | none ↦ none
  | some t ↦ fast_rounds route rest t
]

-- A round of `tcp_fastimo`.
pub tcp_fastimo : (ℕ → ℕ) → Stack → Option Stack
tcp_fastimo route s = elim (fast_rounds route s.active s) [
  | none ↦ none
  | some t ↦ fast_rounds route t.timewait t
]
