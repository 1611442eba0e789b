-- ===== src/Net/Tcp/Tests.antt =====
-- Two blocks of a connection, and what happens to them.
use onix.Base.{
  ℕ, ◌+◌, ◌-◌, ◌*◌, ◌/◌, ◌%◌, ◌^◌, ◌≤◌, ◌<◌, ◌≡◌, ◌≢◌, max, refl, some, List, [], ◌∷◌, leb, arith,
}
use onix.Base.Int.{pos}
use onix.Libc.Memory.{memcpy}
use onix.Net.Iovec.{Iovec, iovec_write, round_len, advance}
use onix.Net.Tcp.{established, Pcb, Seg, Header, seq_leq, tcp_ack, tcp_to_rexmit_max}
use onix.Net.Tcp.Stack.{Stack, new_pcb}
use onix.Net.Tcp.Seq.{seq_leq-places}
use onix.Net.Tcp.Timer.{tcp_xmit_timer}
use onix.Net.Tcp.Timer.Estimate.{distance, tcp_xmit_timer-smooth}
use onix.Net.Tcp.Stream.{slice, bytes_of, Contiguous, NoneAbove}
use onix.Net.Tcp.Places.{EndAfter}
use onix.Net.Tcp.Input.{tcp_update_buf, acked_loop}
use onix.Net.Tcp.Input.Deliver.{Delivered, reach, tcp_update_buf-Delivered}
use onix.Net.Tcp.Input.Acknowledge.{Held, acked_loop-Contiguous}
use onix.Net.Tcp.Output.{tcp_output, tcp_enqueue}
use onix.Net.Tcp.Output.Window.{Single, Progress}
use onix.Net.Tcp.Output.Sending.{usable, tcp_output-Progress}
use onix.Net.Tcp.Output.Round.{Queued, Filling, Small}
use onix.Net.Tcp.Output.Enqueue.{tcp_enqueue-Queued}
use onix.Net.Tcp.Process.{Env}
use onix.Net.Tcp.Process.Moves.{Moves}
use onix.Net.Tcp.Clock.{tcp_timeout, timer_rexmit}
use onix.Net.Tcp.Clock.GiveUp.{GivenUp, tcp_timeout-gives_up}
use onix.Net.Tcp.Socket.{tcp_recvmsg}
use onix.Net.Tcp.Socket.Receive.{tcp_recvmsg-repeats}

-- The number goes round from 2 ^ 32 - 1 to 0 between the two places.
seq_leq-places_example :
    seq_leq ((2 ^ 32 - 3) % 2 ^ 32) ((2 ^ 32 + 5) % 2 ^ 32) ≡ leb (2 ^ 32 - 3) (2 ^ 32 + 5)
seq_leq-places_example = seq_leq-places (2 ^ 32 - 3) (2 ^ 32 + 5) (omega arith) (omega arith)

abbrev measured : Pcb
measured = record (new_pcb 1000) { srtt = 16; rttvar = 4 }

tcp_xmit_timer-smooth_example :
    ((tcp_xmit_timer measured 8).srtt ≡ max 1 ((7 * 16 + 8) / 8))
    × ((tcp_xmit_timer measured 8).rttvar ≡ max 1 ((3 * 4 + distance 8 16) / 4))
    × ((tcp_xmit_timer measured 8).srtt < 2 ^ 29)
    × ((tcp_xmit_timer measured 8).rttvar < 2 ^ 29)
    × (measured.rttmin ≤ (tcp_xmit_timer measured 8).rto)
    × ((tcp_xmit_timer measured 8).rto ≤ tcp_to_rexmit_max)
unfolding new_pcb
tcp_xmit_timer-smooth_example =
    tcp_xmit_timer-smooth measured 8 (omega arith) (omega arith) (omega arith) (omega arith)

abbrev ones : ℕ → ℕ
ones n = n % 7

abbrev seg : ℕ → ℕ → Seg
seg place n = record {
  seqno = place;
  bytes = slice ones place n;
  flags = tcp_ack;
  count = 1;
  length = 0;
  total = 20;
}

abbrev header : ℕ → ℕ → ℕ → Header
header seqno ackno flags = record {
  sport = 80;
  dport = 4000;
  seqno = seqno;
  ackno = ackno;
  len = 5;
  flags = flags;
  window = 4096;
}

abbrev open_block : Pcb
open_block = record (new_pcb 1000) { state = established; rcv_nxt = 500 }

open_block-Delivered : Delivered ones 500 500 open_block
unfolding new_pcb slice bytes_of
open_block-Delivered = record { ordered = omega arith; next = refl; held = refl }

-- Four bytes that start two places before what is awaited.
tcp_update_buf-Delivered_example :
    (q : Pcb) × (tcp_update_buf (λ a. a) open_block (seg 498 4) (header 498 0 tcp_ack) ≡ some q)
    × Delivered ones 500 (reach 500 498 4) q
unfolding new_pcb NoneAbove
tcp_update_buf-Delivered_example =
    tcp_update_buf-Delivered (λ a. a) ones 500 500 498 4 open_block (seg 498 4)
      (header 498 0 tcp_ack) open_block-Delivered
      (record { place = refl; number = refl; bytes = refl; single = refl }) (omega arith) tt
      (omega arith) (omega arith)

abbrev in_flight : List Seg
in_flight = seg 1000 3 ∷ seg 1003 3 ∷ seg 1006 3 ∷ []

in_flight-Contiguous : Contiguous ones 1000 in_flight 1009
unfolding Contiguous slice
in_flight-Contiguous = ((refl, refl, (refl, refl, (refl, refl, refl))))

acked_loop-Contiguous_example :
    (rest : List Seg) × (start : ℕ) × (acked_loop (1004 % 2 ^ 32) in_flight ≡ some rest)
    × Contiguous ones start rest 1009
    × (1000 ≤ start)
    × (start ≤ 1004)
    × EndAfter 1004 start rest
unfolding Held
acked_loop-Contiguous_example =
    acked_loop-Contiguous ones 1004 1000 in_flight 1009 in_flight-Contiguous
      ((omega arith, omega arith, (omega arith, omega arith, (omega arith, omega arith, tt))))
      (omega arith) (omega arith) (omega arith)

abbrev ready : Pcb
ready = record (new_pcb 1000) { state = established; unsent = in_flight }

tcp_output-Progress_example :
    (q : Pcb) × (mid : ℕ) × (tcp_output (λ a. a) ready ≡ some (pos 0, q))
    × Progress ones 1000 mid 1009 1000 (usable ready) ready q
unfolding Single new_pcb usable
tcp_output-Progress_example =
    tcp_output-Progress (λ a. a) ones 1000 1009 1000 ready in_flight-Contiguous
      (refl, (refl, (refl, tt))) refl (omega arith) (omega arith) (omega arith) (omega arith)

abbrev idle_block : Pcb
idle_block = record (new_pcb 1000) { state = established }

tcp_enqueue-Queued_example :
    (q : Pcb) × (mid : ℕ) × (tcp_enqueue 6 (slice ones 1000 5) 0 idle_block ≡ some q)
    × Queued ones 1000 mid (1000 + 5) q
unfolding new_pcb Filling Contiguous Small
tcp_enqueue-Queued_example =
    tcp_enqueue-Queued ones 6 1000 1000 1000 5 0 idle_block
      (record { in_order = refl; small = tt; next = refl; ordered = omega arith; filling = refl })
      (omega arith) (omega arith) tt (omega arith) refl

abbrev stack_of : Pcb → Stack
stack_of p = record {
  pcb = λ a. p;
  create = [];
  active = 7 ∷ [];
  listens = [];
  timewait = [];
  port_map = record { bits = []; length = 0; offset = 0 };
  freed = [];
}

abbrev env : Env
env = record { ipaddr = 1; route = λ a. a; fresh = 9; isn = 5000; fuel = 2 }

abbrev tired : Pcb
tired = record (new_pcb 1000) {
  state = established;
  rtx_cnt = 12;
  unacked = in_flight;
  tx_waiter = some 4;
}

tcp_timeout-gives_up_example :
    (t : Stack) × (tcp_timeout env 7 timer_rexmit (stack_of tired) ≡ some t)
    × GivenUp tired (t.pcb 7)
    × ((b : ℕ) → b ≢ 7 → t.pcb b ≡ tired)
unfolding new_pcb Single
tcp_timeout-gives_up_example =
    tcp_timeout-gives_up env 1 7 (stack_of tired) refl (omega arith)
      (record { recved = tt; outseq = tt; unsent = tt; unacked = (refl, (refl, (refl, tt))) }) refl

abbrev waiting : Pcb
waiting = record (new_pcb 1000) { state = established; recved = seg 500 4 ∷ [] }

abbrev room_for_two : List Iovec
room_for_two = record { passed = []; base = 0 ∷ 0 ∷ []; size = 2 } ∷ []

abbrev two_read : List Iovec
two_read = record { passed = ones 500 ∷ ones 501 ∷ []; base = []; size = 0 } ∷ []

tcp_recvmsg-repeats_example :
    (q : Pcb) × (tcp_recvmsg 1 2 room_for_two waiting ≡ some (2, two_read, q))
    × (bytes_of q.recved ≡ bytes_of waiting.recved)
unfolding new_pcb slice iovec_write round_len advance memcpy
tcp_recvmsg-repeats_example =
    tcp_recvmsg-repeats 1 2 room_for_two two_read (seg 500 4) [] waiting refl (omega arith) refl
