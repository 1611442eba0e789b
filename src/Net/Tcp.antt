-- ===== src/Net/Tcp.antt =====
-- src/include/onix/net/tcp.h: the control block of a connection, its segments, and the order of sequence
-- numbers. Sequence numbers and the `int` fields are words of 32 bits (Base/Word). A `pbuf_t` that a
-- control block holds is a segment; numbers are in the host's byte order.
pub mod Seq
pub mod Stream
pub mod Places
pub mod Output
pub mod Timer
pub mod Input
pub mod Stack
pub mod Process
pub mod Arrival
pub mod Clock
pub mod Socket
mod Tests
use onix.Base.{
  ℕ, ◌+◌, ◌-◌, ◌%◌, ◌^◌, Bool, true, false, not, Option, none, some, List, [], ◌∷◌, ◌++◌, length,
  ◌==◌, leb, if◌then◌else◌, ◌||◌, bit_and, bit_or,
}
use onix.Base.Int.{ℤ, pos}
use onix.Base.Word.{add_u32, sub_u32, is_negative, leb_int}

abbrev pub tcp_mss : ℕ
tcp_mss = 1500 - 40

abbrev pub tcp_window : ℕ
tcp_window = 8192

abbrev pub tcp_max_window : ℕ
tcp_max_window = 65535

abbrev pub tcp_default_mss : ℕ
tcp_default_mss = 536

-- `TCP_SEQ_LT`, `TCP_SEQ_LEQ`, `TCP_SEQ_GT`, `TCP_SEQ_GEQ`
abbrev pub seq_lt : ℕ → ℕ → Bool
seq_lt a b = is_negative (sub_u32 a b)

abbrev pub seq_leq : ℕ → ℕ → Bool
seq_leq a b = is_negative (sub_u32 a b) || sub_u32 a b == 0

abbrev pub seq_gt : ℕ → ℕ → Bool
seq_gt a b = not (seq_leq a b)

abbrev pub seq_geq : ℕ → ℕ → Bool
seq_geq a b = not (seq_lt a b)

-- `TF_ACK_DELAY` and its neighbours
abbrev pub tf_ack_delay : ℕ
tf_ack_delay = 0x01

abbrev pub tf_ack_now : ℕ
tf_ack_now = 0x02

abbrev pub tf_keepalive : ℕ
tf_keepalive = 0x04

abbrev pub tf_nodelay : ℕ
tf_nodelay = 0x08

abbrev pub tf_quickack : ℕ
tf_quickack = 0x10

-- `tcp_state_t`
pub data TcpState : Type 0 where
  closed : TcpState
  listening : TcpState
  syn_sent : TcpState
  syn_rcvd : TcpState
  established : TcpState
  fin_wait1 : TcpState
  fin_wait2 : TcpState
  close_wait : TcpState
  closing : TcpState
  last_ack : TcpState
  time_wait : TcpState

abbrev pub tcp_state_number : TcpState → ℕ
tcp_state_number closed = 0
tcp_state_number listening = 1
tcp_state_number syn_sent = 2
tcp_state_number syn_rcvd = 3
tcp_state_number established = 4
tcp_state_number fin_wait1 = 5
tcp_state_number fin_wait2 = 6
tcp_state_number close_wait = 7
tcp_state_number closing = 8
tcp_state_number last_ack = 9
tcp_state_number time_wait = 10

-- `tcp_flag_t`
abbrev pub tcp_fin : ℕ
tcp_fin = 0x01

abbrev pub tcp_syn : ℕ
tcp_syn = 0x02

abbrev pub tcp_rst : ℕ
tcp_rst = 0x04

abbrev pub tcp_psh : ℕ
tcp_psh = 0x08

abbrev pub tcp_ack : ℕ
tcp_ack = 0x10

-- A bit of the flags of a header, or of a control block.
unfoldable pub has_flag : ℕ → ℕ → Bool
has_flag flags f = not (bit_and flags f == 0)

-- The six timers of a control block.
pub record Timers : Type 0 where
  pub syn : ℕ
  pub rexmit : ℕ
  pub persist : ℕ
  pub keepalive : ℕ
  pub fin_wait2 : ℕ
  pub timewait : ℕ

-- `TCP_TO_SYN` and its neighbours, at two rounds a second.
abbrev pub tcp_to_syn : ℕ
tcp_to_syn = 150

abbrev pub tcp_to_fin_wait2 : ℕ
tcp_to_fin_wait2 = 1200

abbrev pub tcp_to_timewait : ℕ
tcp_to_timewait = 480

abbrev pub tcp_to_persmin : ℕ
tcp_to_persmin = 10

abbrev pub tcp_to_permax : ℕ
tcp_to_permax = 120

abbrev pub tcp_to_keep_idle : ℕ
tcp_to_keep_idle = 14400

abbrev pub tcp_to_keep_interval : ℕ
tcp_to_keep_interval = 150

abbrev pub tcp_to_keepcnt : ℕ
tcp_to_keepcnt = 8

abbrev pub tcp_to_rtt_default : ℕ
tcp_to_rtt_default = 2

abbrev pub tcp_to_min : ℕ
tcp_to_min = 2

abbrev pub tcp_to_rexmit_max : ℕ
tcp_to_rexmit_max = 128

abbrev pub tcp_maxrxtcnt : ℕ
tcp_maxrxtcnt = 12

abbrev pub tcp_rexmit_threash : ℕ
tcp_rexmit_threash = 3

-- The `pbuf_t` of a segment: `bytes` has the `pbuf->size` bytes at `pbuf->data`, and `flags` are those of
-- its header.
pub record Seg : Type 0 where
  pub seqno : ℕ
  pub bytes : List ℕ
  pub flags : ℕ
  pub count : ℕ
  pub length : ℕ
  pub total : ℕ

-- `pbuf->size`
abbrev pub seg_size : Seg → ℕ
seg_size g = length g.bytes

-- The fields of a received header that the code reads.
pub record Header : Type 0 where
  pub sport : ℕ
  pub dport : ℕ
  pub seqno : ℕ
  pub ackno : ℕ
  pub len : ℕ
  pub flags : ℕ
  pub window : ℕ

-- What goes to `ip_output`: the fields of the header, and the bytes behind it.
pub record Frame : Type 0 where
  pub seqno : ℕ
  pub ackno : ℕ
  pub flags : ℕ
  pub window : ℕ
  pub bytes : List ℕ

-- `tcp_pcb_t`. Tasks and control blocks are numbers; `sent` has what the block passed to `ip_output` and
-- `woken` the calls of `task_unblock`, both from the first on.
pub record Pcb : Type 0 where
  pub laddr : ℕ
  pub raddr : ℕ
  pub lport : ℕ
  pub rport : ℕ
  pub state : TcpState
  pub flags : ℕ
  pub snd_una : ℕ
  pub snd_nxt : ℕ
  pub snd_wnd : ℕ
  pub snd_mss : ℕ
  pub snd_nbb : ℕ
  pub snd_max : ℕ
  pub snd_wl1 : ℕ
  pub snd_wl2 : ℕ
  pub snd_mwnd : ℕ
  pub snd_buf : Option Seg
  pub rcv_nxt : ℕ
  pub rcv_wnd : ℕ
  pub rcv_mss : ℕ
  pub timers : Timers
  pub idle : ℕ
  pub rto : ℕ
  pub rtx_cnt : ℕ
  pub rtt : ℕ
  pub rtt_seq : ℕ
  pub srtt : ℕ
  pub rttvar : ℕ
  pub rttmin : ℕ
  pub dupacks : ℕ
  pub snd_cwnd : ℕ
  pub snd_ssthresh : ℕ
  pub acclist : List ℕ
  pub backlog : ℕ
  pub backcnt : ℕ
  pub listen : Option ℕ
  pub unsent : List Seg
  pub unacked : List Seg
  pub outseq : List Seg
  pub recved : List Seg
  pub ac_waiter : Option ℕ
  pub tx_waiter : Option ℕ
  pub rx_waiter : Option ℕ
  pub sent : List Frame
  pub woken : List (ℕ × ℤ)

-- `list_insert_sort` by `seqno`, which it compares as an `int`.
unfoldable pub insert_seg : Seg → List Seg → List Seg
insert_seg g [] = g ∷ []
insert_seg g (h ∷ gs) = if leb_int h.seqno g.seqno then h ∷ insert_seg g gs else g ∷ h ∷ gs

-- `if (waiter) task_unblock(waiter, reason)`
abbrev pub wake : Option ℕ → ℤ → List (ℕ × ℤ) → List (ℕ × ℤ)
wake none reason log = log
wake (some task) reason log = log ++ ((task, reason) ∷ [])
