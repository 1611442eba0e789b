-- ===== src/Net/Tcp/Arrival.antt =====
-- src/net/tcp_input.c: a packet on its way to the block that it is for. The result of a reset is that of
-- `ip_output`, taken as 0.
use onix.Base.{ℕ, suc, ◌*◌, not, Option, none, some, List, [], ◌∷◌, ◌==◌, ltb, if◌then◌else◌, ◌||◌}
use onix.Base.Int.{ℤ, pos, neg, leb_ℤ}
use onix.Base.Word.{add_u32}
use onix.Net.Addr.{ip_addr_isbroadcast, ip_addr_ismulticast}
use onix.Net.Tcp.{
  tcp_state_number, Pcb, Seg, Header, Frame, seg_size, has_flag, tcp_rst, tf_keepalive,
  tcp_to_keep_idle,
}
use onix.Net.Tcp.Input.{tcp_validate}
use onix.Net.Tcp.Output.{tcp_reset}
use onix.Net.Tcp.Stack.{Stack, on, tcp_find_pcb}
use onix.Net.TcpOption.{ended, outside, unended, tcp_parse_option}
use onix.Net.Tcp.Process.{Env, tcp_process, tcp_handle_reset}

-- The idle time is over.
abbrev pub note_alive : ℕ → Pcb → Pcb
note_alive mss p = record p {
  snd_mss = mss;
  idle = 0;
  timers =
      if has_flag p.flags tf_keepalive
      then record p.timers { keepalive = tcp_to_keep_idle }
      else p.timers;
}

-- `tcp_input` from `tcp_find_pcb` on, for a packet from `src` to `dst`: a reset that answers a closed block,
-- the result, and the blocks. `options` has the bytes behind the header.
pub deliver : Env → ℕ → ℕ → Seg → Header → List ℕ → Stack → Option (List Frame × ℤ × Stack)
deliver env src dst g h options s = elim (tcp_find_pcb dst h.dport src h.sport s) [
  | none ↦ some ([], neg 101, s)
  | some a ↦
      if not (leb_ℤ (pos 0) (tcp_validate (s.pcb a) g h))
      then some ([], neg 102, s)
      else if tcp_state_number (s.pcb a).state == 0
      then some (tcp_reset (add_u32 h.ackno 1) (add_u32 h.seqno (seg_size g)) ∷ [], pos 0, s)
      else if has_flag h.flags tcp_rst
      then elim (tcp_handle_reset env a s) [ none ↦ none | some r ↦ some ([], r.0, r.1) ]
      else elim (tcp_parse_option (suc (h.len * 4)) h.len options (s.pcb a).snd_mss) [
        | unended ↦ none
        | outside ↦ none
        | ended result mss ↦
            if not (leb_ℤ (pos 0) result)
            then some ([], result, on a (λ p. record p { snd_mss = mss }) s)
            else elim (tcp_process env src a g h (on a (note_alive mss) s)) [
              | none ↦ none
              | some r ↦ some ([], r.0, r.1)
            ]
      ]
]

-- `tcp_input` of a packet whose checksum, at a card that does not check it, came to `sum`.
pub tcp_input :
    Env → ℕ → ℕ → ℕ → ℕ → Seg → Header → List ℕ → Stack → Option (List Frame × ℤ × Stack)
tcp_input env netmask sum src dst g h options s =
    if ltb (h.len * 4) 20
    then some ([], neg 102, s)
    else if ip_addr_isbroadcast dst netmask || ip_addr_ismulticast dst
    then some ([], pos 0, s)
    else if not (sum == 0)
    then some ([], neg 109, s)
    else deliver env src dst g h options s
