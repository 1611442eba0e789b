-- ===== src/Net/Tcp/Timer.antt =====
-- src/net/tcp_timer.c: the estimate of the round trip time, the retransmission time, and what the timers of
-- one control block do that stays in the block.
pub mod Estimate
use onix.Base.{
  ℕ, ◌+◌, ◌-◌, ◌*◌, ◌/◌, ◌%◌, ◌^◌, Bool, true, false, Option, none, some, ◌==◌, ltb, leb,
  if◌then◌else◌, ◌||◌, bit_or,
}
use onix.Base.Word.{add_u32, sub_u32, is_negative, shift_int, abs_int}
use onix.Net.Tcp.{
  Pcb, Timers, has_flag, tcp_ack, tcp_maxrxtcnt, tcp_to_permax, tcp_to_keep_interval,
  tcp_to_rexmit_max, tf_ack_delay, tf_ack_now,
}
use onix.Net.Tcp.Output.{tcp_output, tcp_response}

-- `tcp_range_value`
pub tcp_range_value : ℕ → ℕ → ℕ → ℕ
tcp_range_value val lo hi = if ltb val lo then lo else if ltb hi val then hi else val

-- `tcp_backoff`, as `tcp_timer_init` fills it.
pub tcp_backoff : ℕ → ℕ
tcp_backoff i = if ltb i 6 then 2 ^ i else 64

-- `tcp_update_rto`
pub tcp_update_rto : Pcb → ℕ → ℕ
tcp_update_rto p backoff =
    tcp_range_value ((p.srtt + p.rttvar * 4) % 2 ^ 32 * backoff % 2 ^ 32) p.rttmin tcp_to_rexmit_max

-- `if (x <= 0) x = 1` of an `int`
abbrev pub at_least_one : ℕ → ℕ
at_least_one x = if is_negative x || x == 0 then 1 else x

-- `tcp_xmit_timer` up to the new `rto`.
abbrev pub estimated : Pcb → ℕ → Pcb
estimated p rtt =
    let err = sub_u32 rtt p.srtt in
    record p {
      srtt = at_least_one (add_u32 p.srtt (shift_int err 8));
      rttvar = at_least_one (add_u32 p.rttvar (shift_int (sub_u32 (abs_int err) p.rttvar) 4));
      rtt = 0;
      rtx_cnt = 0;
    }

-- `tcp_xmit_timer`
unfoldable pub tcp_xmit_timer : Pcb → ℕ → Pcb
tcp_xmit_timer p rtt = record (estimated p rtt) { rto = tcp_update_rto (estimated p rtt) 1 }

-- `tcp_persist`
pub tcp_persist : Pcb → Pcb
tcp_persist p =
    let value = shift_int (add_u32 (shift_int p.srtt 4) p.rttvar) 2 in
    tcp_response p.snd_una p.rcv_nxt tcp_ack (record p {
      timers = record p.timers {
        persist =
            tcp_range_value (value * tcp_backoff p.rtx_cnt % 2 ^ 32) tcp_to_permax tcp_to_permax;
      };
      rtx_cnt = if ltb p.rtx_cnt tcp_maxrxtcnt then p.rtx_cnt + 1 else p.rtx_cnt;
    })

-- `tcp_keepalive`
pub tcp_keepalive : Pcb → Pcb
tcp_keepalive p =
    let q = tcp_response (sub_u32 p.snd_una 1) p.rcv_nxt tcp_ack p in
    record q { timers = record q.timers { keepalive = tcp_to_keep_interval } }

-- What a round of `tcp_fastimo` does to a block: an acknowledgement that could wait is due now.
abbrev pub hurry : Pcb → Pcb
hurry p =
    if has_flag p.flags tf_ack_delay then record p { flags = bit_or p.flags tf_ack_now } else p

pub fast_round : (ℕ → ℕ) → Pcb → Option Pcb
fast_round route p =
    let q = hurry p in
    if has_flag q.flags tf_ack_now
    then elim (tcp_output route q) [ none ↦ none | some r ↦ some r.1 ]
    else some q
