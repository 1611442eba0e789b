-- ===== src/Net/Tcp/Process/Moves.antt =====
-- The moves between the states of a connection that a received segment can cause.
use onix.Base.{
  ℕ, ◌+◌, ◌%◌, ◌^◌, true, false, Option, none, some, ◌==◌, ◌≡◌, ◌≢◌, refl, sym, ap, ◌∙◌, arith,
  ℕ_discrete, Bool-cases, Option-cases, ◌⊎◌, inl, inr, OnSome, subst,
}
use onix.Base.Int.{ℤ, pos}
use onix.Net.Tcp.{
  TcpState, closed, syn_sent, syn_rcvd, established, fin_wait1, fin_wait2, close_wait, closing,
  last_ack, time_wait, Pcb, Header, has_flag, wake, tcp_fin, tcp_syn, tcp_ack, tcp_to_fin_wait2,
}
use onix.Net.Tcp.Input.{tcp_handle_syn_sent}
use onix.Net.Tcp.Input.State.{handle_syn_sent-state}
use onix.Net.Tcp.Process.{Env, process_syn_rcvd, leave_fin_wait1, acks_last, pass_fin, ok}
use onix.Net.Tcp.Stack.{Stack, on, tcp_pcb_timewait}
use onix.Net.Tcp.Stack.States.{
  SameStates, on-SameStates, on_self, on_other, tcp_pcb_timewait-SameStates,
}

-- The segment acknowledges the number behind `snd_nxt` of a block, which is that of its SYN or FIN.
pub record AcksNext (h : Header) (p : Pcb) : Type 0 where
  pub ack : has_flag h.flags tcp_ack ≡ true
  pub next : h.ackno ≡ (p.snd_nxt + 1) % 2 ^ 32

-- The moves, each with what it needs of the segment and the block.
pub data Moves (h : Header) (p : Pcb) : TcpState → TcpState → Type 0 where
  connects : h.flags ≡ tcp_syn + tcp_ack → Moves h p syn_sent established
  accepts : AcksNext h p → Moves h p syn_rcvd established
  other_ends : has_flag h.flags tcp_fin ≡ true → Moves h p established close_wait
  both_end : has_flag h.flags tcp_fin ≡ true → Moves h p fin_wait1 closing
  ends_at_once : has_flag h.flags tcp_fin ≡ true → AcksNext h p → Moves h p fin_wait1 time_wait
  end_acked : AcksNext h p → Moves h p fin_wait1 fin_wait2
  ends_later : has_flag h.flags tcp_fin ≡ true → Moves h p fin_wait2 time_wait
  both_acked : AcksNext h p → Moves h p closing time_wait
  last_acked : has_flag h.flags tcp_ack ≡ true → Moves h p last_ack closed

pub acks_last-AcksNext : (p : Pcb) (h : Header) → acks_last p h ≡ true → AcksNext h p
acks_last-AcksNext p h e = record { ack = ground (arith, e); next = ground (arith, e) }

pub SameStates-refl : (s : Stack) → SameStates s s
unfolding SameStates
SameStates-refl s b = refl

abbrev pub set_time_wait : Pcb → Pcb
set_time_wait p = record p { state = time_wait }

-- A state is set after a step that leaves it, or at once.
on-on-state :
    (a : ℕ) (f : Pcb → Pcb) (s : Stack) (b : ℕ)
    → ((on a set_time_wait (on a f s)).pcb b).state ≡ ((on a set_time_wait s).pcb b).state
on-on-state a f s b = elim (ℕ_discrete b a) [
  | yes e ↦ let t : (b == a) ≡ true = ground arith in rw t refl
  | no d ↦ let t : (b == a) ≡ false = ground arith in rw t refl
]

-- Every block but a new one stays in its state, or it is the block of the segment, and moves.
unfoldable pub Follows : Header → Pcb → ℕ → ℕ → TcpState → Stack → Stack → Type 0
Follows h p fresh a st s t =
    (b : ℕ)
    → b ≢ fresh
    → ((t.pcb b).state ≡ (s.pcb b).state) ⊎ ((b ≡ a) × Moves h p st (t.pcb b).state)

pub same-Follows :
    (h : Header) (p : Pcb) (fresh a : ℕ) (st : TcpState) (s t : Stack)
    → SameStates s t
    → Follows h p fresh a st s t
unfolding Follows SameStates
same-Follows h p fresh a st s t e b d = inl (e b)

-- The block is put into a state by `f`, and no other changes from there on.
pub moved-Follows :
    (h : Header) (p : Pcb) (fresh a : ℕ) (st : TcpState) (f : Pcb → Pcb) (s t : Stack)
    → Moves h p st (f (s.pcb a)).state
    → SameStates (on a f s) t
    → Follows h p fresh a st s t
unfolding Follows SameStates
moved-Follows h p fresh a st f s t m e b d = elim (ℕ_discrete b a) [
  | yes q ↦
      let r : (t.pcb b).state ≡ (f (s.pcb a)).state =
        e b ∙ (ap (λ x. ((on a f s).pcb x).state) q ∙ ap (λ p. p.state) (on_self a f s)) in
      inr (q, subst (Moves h p st) (sym r) m)
  | no n ↦ inl (e b ∙ ap (λ p. p.state) (on_other a b f s n))
]

pub ok-OnSome :
    (P : Stack → Type 0) (x : Option Stack) → OnSome P x → OnSome (λ (r : ℤ × Stack). P r.1) (ok x)
ok-OnSome P none h = tt
ok-OnSome P (some s) h = h

pub OnSome-map {ℓ} :
    {A : Type ℓ} (P Q : A → Type 0) (x : Option A) → ((a : A) → P a → Q a) → OnSome P x → OnSome Q x
OnSome-map P Q none f h = tt
OnSome-map P Q (some a) f h = f a h

pub syn_rcvd-Follows :
    (fresh a : ℕ) (h : Header) (p : Pcb) (s : Stack)
    → (acks_last (s.pcb a) h ≡ true → AcksNext h p)
    → OnSome (Follows h p fresh a syn_rcvd s) (process_syn_rcvd a h s)
unfolding process_syn_rcvd
syn_rcvd-Follows fresh a h p s k = elim (Bool-cases (acks_last (s.pcb a) h)) [
  | inr e ↦ rw (process_syn_rcvd, e) (same-Follows h p fresh a syn_rcvd s s (SameStates-refl s))
  | inl e ↦
      let ack = k e in
      elim (Option-cases (s.pcb a).listen) [
        | inl f ↦ rw (process_syn_rcvd, e, f) tt
        | inr (l, f) ↦
            let g =
              λ (p : Pcb). record p { state = established; snd_nxt = h.ackno; snd_nbb = h.ackno } in
            let w = λ (p : Pcb). record p { woken = wake p.ac_waiter (pos 0) p.woken } in
            rw (process_syn_rcvd, e, f)
              (moved-Follows h p fresh a syn_rcvd g s (on l w (on a g s)) (accepts ack)
                (on-SameStates l w (on a g s) refl))
      ]
]

pub syn_sent-Follows :
    (route : ℕ → ℕ) (fresh a : ℕ) (h : Header) (s : Stack)
    → (s.pcb a).state ≡ syn_sent
    → Follows h
        (s.pcb a)
        fresh
        a
        syn_sent
        s
        (on a (λ _. (tcp_handle_syn_sent route (s.pcb a) h).1) s)
syn_sent-Follows route fresh a h s st =
    let f = λ (p : Pcb). (tcp_handle_syn_sent route (s.pcb a) h).1 in
    elim (handle_syn_sent-state route (s.pcb a) h) [
      | inl e ↦ same-Follows h (s.pcb a) fresh a syn_sent s (on a f s) (on-SameStates a f s e)
      | inr e ↦
          moved-Follows h (s.pcb a) fresh a syn_sent f s (on a f s)
            (subst (Moves h (s.pcb a) syn_sent) (sym e.1) (connects e.0))
            (SameStates-refl (on a f s))
    ]

-- TIME_WAIT, by way of a step that leaves the state.
pub timewait-Follows :
    (fuel fresh a : ℕ) (h : Header) (p : Pcb) (st : TcpState) (f : Pcb → Pcb) (s : Stack)
    → Moves h p st time_wait
    → OnSome (Follows h p fresh a st s) (tcp_pcb_timewait fuel a (on a f s))
unfolding SameStates
timewait-Follows fuel fresh a h p st f s m =
    OnSome-map (SameStates (on a set_time_wait (on a f s))) (Follows h p fresh a st s)
      (tcp_pcb_timewait fuel a (on a f s))
      (λ t e. moved-Follows h p fresh a st set_time_wait s t m (λ b. e b ∙ on-on-state a f s b))
      (tcp_pcb_timewait-SameStates fuel a (on a f s))

pub fin_wait1-Follows :
    (env : Env) (a : ℕ) (h : Header) (s : Stack)
    → OnSome (Follows h (s.pcb a) env.fresh a fin_wait1 s) (leave_fin_wait1 env a h s)
unfolding leave_fin_wait1
fin_wait1-Follows env a h s = elim (Bool-cases (has_flag h.flags tcp_fin)) [
  | inl e ↦ elim (Bool-cases (acks_last (s.pcb a) h)) [
    | inl f ↦
        rw (leave_fin_wait1, e, f)
          (timewait-Follows env.fuel env.fresh a h (s.pcb a) fin_wait1 pass_fin s
            (ends_at_once e (acks_last-AcksNext (s.pcb a) h f)))
    | inr f ↦
        let g = λ (p : Pcb). record p { state = closing } in
        rw (leave_fin_wait1, e, f)
          (moved-Follows h (s.pcb a) env.fresh a fin_wait1 g s (on a g s) (both_end e)
            (SameStates-refl (on a g s)))
  ]
  | inr e ↦ elim (Bool-cases (acks_last (s.pcb a) h)) [
    | inl f ↦
        let ack = acks_last-AcksNext (s.pcb a) h f in
        let g = λ (p : Pcb). record (pass_fin p) {
          state = fin_wait2;
          timers = record p.timers { fin_wait2 = tcp_to_fin_wait2 };
        } in
        rw (leave_fin_wait1, e, f)
          (moved-Follows h (s.pcb a) env.fresh a fin_wait1 g s (on a g s) (end_acked ack)
            (SameStates-refl (on a g s)))
    | inr f ↦
        rw (leave_fin_wait1, e, f)
          (same-Follows h (s.pcb a) env.fresh a fin_wait1 s s (SameStates-refl s))
  ]
]
