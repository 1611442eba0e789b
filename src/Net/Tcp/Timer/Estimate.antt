-- ===== src/Net/Tcp/Timer/Estimate.antt =====
-- The round trip time and the retransmission time: the smoothing in closed form, and the bounds.
use onix.Base.{ℕ, ◌+◌, ◌-◌, ◌*◌, ◌/◌, ◌%◌, ◌^◌, ◌≤◌, ◌<◌, max, ◌≡◌, arith}
use onix.Base.Word.{add_u32, sub_u32, shift_int, abs_int}
use onix.Net.Tcp.{Pcb, tcp_to_rexmit_max}
use onix.Net.Tcp.Timer.{tcp_range_value, estimated, tcp_update_rto, at_least_one, tcp_xmit_timer}

range_value_within :
    (val lo hi : ℕ) → lo ≤ hi → (lo ≤ tcp_range_value val lo hi) × (tcp_range_value val lo hi ≤ hi)
unfolding tcp_range_value
range_value_within val lo hi h = ground arith

-- For a lower bound of at most TCP_TO_REXMIT_MAX, the retransmission time of any estimate and any
-- factor lies between the two bounds.
pub tcp_update_rto_within :
    (p : Pcb) (backoff : ℕ)
    → p.rttmin ≤ tcp_to_rexmit_max
    → (p.rttmin ≤ tcp_update_rto p backoff) × (tcp_update_rto p backoff ≤ tcp_to_rexmit_max)
unfolding tcp_update_rto
tcp_update_rto_within p backoff h =
    range_value_within ((p.srtt + p.rttvar * 4) % 2 ^ 32 * backoff % 2 ^ 32) p.rttmin 128 h

smooth :
    (srtt rtt : ℕ)
    → srtt < 2 ^ 29
    → rtt < 2 ^ 29
    → at_least_one (add_u32 srtt (shift_int (sub_u32 rtt srtt) 8)) ≡ max 1 ((7 * srtt + rtt) / 8)
smooth srtt rtt h k = ground arith

-- |a - b|
pub distance : ℕ → ℕ → ℕ
distance a b = (a - b) + (b - a)

abs_int-distance :
    (srtt rtt : ℕ) → srtt < 2 ^ 29 → rtt < 2 ^ 29 → abs_int (sub_u32 rtt srtt) ≡ distance rtt srtt
unfolding distance
abs_int-distance srtt rtt h k = ground arith

distance_lt : (a b n : ℕ) → a < n → b < n → distance a b < n
unfolding distance
distance_lt a b n h k = omega arith

smooth_var :
    (var err : ℕ)
    → var < 2 ^ 29
    → err < 2 ^ 29
    → at_least_one (add_u32 var (shift_int (sub_u32 err var) 4)) ≡ max 1 ((3 * var + err) / 4)
smooth_var var err h k = ground arith

-- For a measured time, an estimate and a deviation below 2 ^ 29, `tcp_xmit_timer` leaves the estimate
-- (7 * srtt + rtt) / 8 and the deviation (3 * rttvar + |rtt - srtt|) / 4, both rounded down and at least 1,
-- and both below 2 ^ 29 again; with a lower bound of at most TCP_TO_REXMIT_MAX the retransmission time is
-- within its bounds.
pub tcp_xmit_timer-smooth :
    (p : Pcb) (rtt : ℕ)
    → p.srtt < 2 ^ 29
    → p.rttvar < 2 ^ 29
    → rtt < 2 ^ 29
    → p.rttmin ≤ tcp_to_rexmit_max
    → ((tcp_xmit_timer p rtt).srtt ≡ max 1 ((7 * p.srtt + rtt) / 8))
      × ((tcp_xmit_timer p rtt).rttvar ≡ max 1 ((3 * p.rttvar + distance rtt p.srtt) / 4))
      × ((tcp_xmit_timer p rtt).srtt < 2 ^ 29)
      × ((tcp_xmit_timer p rtt).rttvar < 2 ^ 29)
      × (p.rttmin ≤ (tcp_xmit_timer p rtt).rto)
      × ((tcp_xmit_timer p rtt).rto ≤ tcp_to_rexmit_max)
unfolding tcp_xmit_timer
tcp_xmit_timer-smooth p rtt hs hv hr hm =
    let s = smooth p.srtt rtt hs hr in
    let lt = distance_lt rtt p.srtt (2 ^ 29) hr hs in
    let v : (tcp_xmit_timer p rtt).rttvar ≡ max 1 ((3 * p.rttvar + distance rtt p.srtt) / 4) =
      rw (abs_int-distance p.srtt rtt hs hr) (smooth_var p.rttvar (distance rtt p.srtt) hv lt) in
    let w = tcp_update_rto_within (estimated p rtt) 1 hm in
    (s, v, omega (arith, s), omega (arith, v, lt), w.0, w.1)
