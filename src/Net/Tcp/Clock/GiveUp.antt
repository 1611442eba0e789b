-- ===== src/Net/Tcp/Clock/GiveUp.antt =====
-- A connection whose segments stay unacknowledged is given up.
use onix.Base.{
  ℕ, List, Option, none, ◌∷◌, ◌++◌, append-nil, append_assoc, suc, ◌+◌, ◌≤◌, true, some, [], ltb,
  ◌≡◌, ◌≢◌, refl, sym, ap, ◌∙◌, arith, subst,
}
use onix.Base.Int.{ℤ, neg}
use onix.Net.Tcp.{closed, Pcb, wake, tcp_maxrxtcnt}
use onix.Net.Tcp.Clock.{tcp_timeout, timer_rexmit, timeout_rexmit, give_up}
use onix.Net.Tcp.Process.{Env}
use onix.Net.Tcp.Stack.{Stack, on, tcp_pcb_purge, wake_all}
use onix.Net.Tcp.Stack.Purge.{Sole, emptied, tcp_pcb_purge-emptied}
use onix.Net.Tcp.Stack.States.{on_self, on_other}

abbrev pub set_closed : Pcb → Pcb
set_closed p = record p { state = closed }

abbrev pub count_rexmit : Pcb → Pcb
count_rexmit p = record p { rtx_cnt = p.rtx_cnt + 1 }

-- The block is emptied with ETIME, and closed.
give_up-closed :
    (env : Env) (n a : ℕ) (s : Stack)
    → env.fuel ≡ suc n
    → Sole (s.pcb a)
    → (s.pcb a).acclist ≡ []
    → (t : Stack) × (give_up env a s ≡ some t)
      × (t.pcb a ≡ set_closed (emptied (neg 62) (s.pcb a)))
      × ((b : ℕ) → b ≢ a → t.pcb b ≡ s.pcb b)
unfolding give_up
give_up-closed env n a s f h e =
    let (t, run, here, there) = tcp_pcb_purge-emptied n (neg 62) a s h e in
    let run' : tcp_pcb_purge env.fuel (neg 62) a s ≡ some t =
      ap (λ k. tcp_pcb_purge k (neg 62) a s) f ∙ run in
    (
      on a set_closed t,
      rw (give_up, run') refl,
      on_self a set_closed t ∙ ap set_closed here,
      λ b d. on_other a b set_closed t d ∙ there b d,
    )

-- The call of `task_unblock` for a waiter, with ETIME.
abbrev pub unblocked : Option ℕ → List (ℕ × ℤ)
unblocked none = []
unblocked (some task) = (task, neg 62) ∷ []

-- The block after it is given up: closed, with no segments in its four lists and no waiters, and with its
-- waiters unblocked.
pub record GivenUp (p q : Pcb) : Type 0 where
  pub closes : q.state ≡ closed
  pub unsent : q.unsent ≡ []
  pub unacked : q.unacked ≡ []
  pub outseq : q.outseq ≡ []
  pub recved : q.recved ≡ []
  pub no_connecting : q.ac_waiter ≡ none
  pub no_reader : q.rx_waiter ≡ none
  pub no_writer : q.tx_waiter ≡ none
  pub woken :
      q.woken
      ≡ p.woken ++ (unblocked p.ac_waiter ++ (unblocked p.rx_waiter ++ unblocked p.tx_waiter))
  pub filling : q.snd_buf ≡ p.snd_buf

wake-unblocked : (w : Option ℕ) (log : List (ℕ × ℤ)) → wake w (neg 62) log ≡ log ++ unblocked w
wake-unblocked none log = sym (append-nil log)
wake-unblocked (some task) log = refl

emptied-GivenUp : (p : Pcb) → GivenUp p (set_closed (emptied (neg 62) (count_rexmit p)))
unfolding wake_all
emptied-GivenUp p = record {
  closes = refl;
  unsent = refl;
  unacked = refl;
  outseq = refl;
  recved = refl;
  no_connecting = refl;
  no_reader = refl;
  no_writer = refl;
  woken =
      wake-unblocked p.tx_waiter (wake p.rx_waiter (neg 62) (wake p.ac_waiter (neg 62) p.woken))
      ∙ (ap (λ l. l ++ unblocked p.tx_waiter)
            (wake-unblocked p.rx_waiter (wake p.ac_waiter (neg 62) p.woken)
              ∙ ap (λ l. l ++ unblocked p.rx_waiter) (wake-unblocked p.ac_waiter p.woken))
          ∙ (append_assoc (p.woken ++ unblocked p.ac_waiter) (unblocked p.rx_waiter)
                (unblocked p.tx_waiter)
              ∙ append_assoc p.woken (unblocked p.ac_waiter)
                  (unblocked p.rx_waiter ++ unblocked p.tx_waiter)));
  filling = refl;
}

-- The retransmission timer of a block runs out after TCP_MAXRXTCNT or more retransmissions. The block has
-- no accepted blocks, and no other part holds its segments. Then `tcp_timeout` returns: the block is
-- closed, its lists unsent, unacked, outseq and recved are empty, `task_unblock` is called with ETIME for
-- the tasks that waited to connect, to read and to write, in this order and for no other, none of them
-- waits any more, and no other block changes. The segment that was being filled in `snd_buf` stays.
pub tcp_timeout-gives_up :
    (env : Env) (n a : ℕ) (s : Stack)
    → env.fuel ≡ suc n
    → tcp_maxrxtcnt ≤ (s.pcb a).rtx_cnt
    → Sole (s.pcb a)
    → (s.pcb a).acclist ≡ []
    → (t : Stack) × (tcp_timeout env a timer_rexmit s ≡ some t)
      × GivenUp (s.pcb a) (t.pcb a)
      × ((b : ℕ) → b ≢ a → t.pcb b ≡ s.pcb b)
unfolding tcp_timeout timeout_rexmit
tcp_timeout-gives_up env n a s f m h e =
    let u = on a count_rexmit s in
    let here = on_self a count_rexmit s in
    let over : ltb tcp_maxrxtcnt (u.pcb a).rtx_cnt ≡ true = rw here (ground (arith, m)) in
    let sole : Sole (u.pcb a) =
      subst Sole (sym here)
        (record { recved = h.recved; outseq = h.outseq; unsent = h.unsent; unacked = h.unacked }) in
    let (t, run, at, others) =
      give_up-closed env n a u f sole (ap (λ (q : Pcb). q.acclist) here ∙ e) in
    (
      t,
      rw over run,
      subst (GivenUp (s.pcb a)) (sym (at ∙ ap (λ q. set_closed (emptied (neg 62) q)) here))
          (emptied-GivenUp (s.pcb a)),
      λ b d. others b d ∙ on_other a b count_rexmit s d,
    )
