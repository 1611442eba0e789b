-- ===== src/Net/Tcp/Stack/States.antt =====
-- Emptying, parking and putting back blocks changes the state of none of them, but for the one that
-- TIME_WAIT is set in.
use onix.Base.{
  ℕ, zero, suc, Option, none, some, List, [], ◌∷◌, ◌==◌, ◌&&◌, ◌≡◌, ◌≢◌, refl, ap, ◌∙◌, ℕ_discrete,
  Bool-cases, Option-cases, inl, inr, OnSome, OnSome-elim, ◌++◌,
}
use onix.Base.Int.{ℤ, neg}
use onix.Libc.Nodes.Laws.{put_self, put_other}
use onix.Net.Port.{port_put}
use onix.Net.Tcp.{time_wait, Pcb}
use onix.Net.Tcp.Output.State.{SameState}
use onix.Net.Tcp.Stack.{
  Stack, on, try_on, unlink, put_lists, wake_all, put_each, put_port, put_with, tcp_pcb_purge,
  tcp_pcb_put, park, tcp_pcb_timewait, tcp_list_put,
}

-- Every block is in the state that it was in.
unfoldable pub SameStates : Stack → Stack → Type 0
SameStates s t = (b : ℕ) → (t.pcb b).state ≡ (s.pcb b).state

-- A block that is not this one is in the state that it was in.
pub on_other : (a b : ℕ) (f : Pcb → Pcb) (s : Stack) → b ≢ a → ((on a f s).pcb b) ≡ s.pcb b
on_other a b f s d = put_other s.pcb a b (f (s.pcb a)) d

pub on_self : (a : ℕ) (f : Pcb → Pcb) (s : Stack) → ((on a f s).pcb a) ≡ f (s.pcb a)
on_self a f s = put_self s.pcb a (f (s.pcb a))

pub on-SameStates :
    (a : ℕ) (f : Pcb → Pcb) (s : Stack)
    → (f (s.pcb a)).state ≡ (s.pcb a).state
    → SameStates s (on a f s)
unfolding SameStates
on-SameStates a f s h b = elim (ℕ_discrete b a) [
  | yes e ↦ rw e (ap (λ p. p.state) (on_self a f s) ∙ h)
  | no d ↦ ap (λ p. p.state) (on_other a b f s d)
]

pub try_on-SameStates :
    (a : ℕ) (f : Pcb → Option Pcb) (s : Stack)
    → SameState (s.pcb a) (f (s.pcb a))
    → OnSome (SameStates s) (try_on a f s)
try_on-SameStates a f s h =
    OnSome-elim (λ q. q.state ≡ (s.pcb a).state) (SameStates s) (f (s.pcb a))
      (λ p. some (on a (λ _. p) s)) h (λ p e. on-SameStates a (λ _. p) s e)

put_lists-SameState : (p : Pcb) → SameState p (put_lists p)
unfolding put_lists
put_lists-SameState p =
    let c =
      tcp_list_put p.recved
      && (tcp_list_put p.outseq && (tcp_list_put p.unsent && tcp_list_put p.unacked)) in
    elim (Bool-cases c) [ inl e ↦ rw e refl | inr e ↦ rw e tt ]

SameStates-trans :
    (s t : Stack) (r : Option Stack)
    → SameStates s t
    → OnSome (SameStates t) r
    → OnSome (SameStates s) r
unfolding SameStates
SameStates-trans s t none h k = tt
SameStates-trans s t (some u) h k = λ b. k b ∙ h b

put_each-SameStates :
    (f : ℕ → Stack → Option Stack) (as' : List ℕ) (s : Stack)
    → ((a : ℕ) (t : Stack) → OnSome (SameStates t) (f a t))
    → OnSome (SameStates s) (put_each f as' s)
unfolding put_each SameStates
put_each-SameStates f [] s h = λ b. refl
put_each-SameStates f (a ∷ rest) s h =
    OnSome-elim (SameStates s) (SameStates s) (f a s) (λ t. put_each f rest t) (h a s)
      (λ t e. SameStates-trans s t (put_each f rest t) e (put_each-SameStates f rest t h))

put_port-SameStates : (p : Pcb) (s : Stack) → OnSome (SameStates s) (put_port p s)
unfolding put_port SameStates
put_port-SameStates p s = elim (Option-cases p.listen) [
  | inr (l, e) ↦ rw (put_port, e) (λ b. refl)
  | inl e ↦ elim (Bool-cases (p.lport == 0)) [
    | inl f ↦ rw (put_port, e, f) (λ b. refl)
    | inr f ↦ elim (Option-cases (port_put s.port_map p.lport)) [
      | inl k ↦ rw (put_port, e, f, k) tt
      | inr (m, k) ↦ rw (put_port, e, f, k) (λ b. refl)
    ]
  ]
]

put_with-SameStates :
    (purge : ℕ → Stack → Option Stack) (a : ℕ) (s : Stack)
    → ((t : Stack) → OnSome (SameStates t) (purge a t))
    → OnSome (SameStates s) (put_with purge a s)
unfolding SameStates
put_with-SameStates purge a s h =
    OnSome-elim (SameStates s) (SameStates s) (put_port (s.pcb a) s)
      (λ t. elim (purge a t) as (λ _. Option Stack) [
        | none ↦ none
        | some u ↦ some (record (unlink a u) { freed = u.freed ++ (a ∷ []) })
      ])
      (put_port-SameStates (s.pcb a) s)
      (λ t e.
        OnSome-elim (SameStates t) (SameStates s) (purge a t)
          (λ u. some (record (unlink a u) { freed = u.freed ++ (a ∷ []) })) (h t)
          (λ u k b. k b ∙ e b))

pub tcp_pcb_purge-SameStates :
    (fuel : ℕ) (reason : ℤ) (a : ℕ) (s : Stack)
    → OnSome (SameStates s) (tcp_pcb_purge fuel reason a s)
unfolding tcp_pcb_purge wake_all SameStates
tcp_pcb_purge-SameStates zero reason a s = tt
tcp_pcb_purge-SameStates (suc fuel) reason a s =
    let put_pcb = put_with (tcp_pcb_purge fuel (neg 62)) in
    let cleared = λ (t : Stack). on a (λ p. record p { acclist = [] }) t in
    OnSome-elim (SameStates s) (SameStates s) (try_on a put_lists s)
      (λ t. elim (put_each put_pcb (t.pcb a).acclist (cleared t)) as (λ _. Option Stack) [
        | none ↦ none
        | some u ↦ some (on a (wake_all reason) u)
      ])
      (try_on-SameStates a put_lists s (put_lists-SameState (s.pcb a)))
      (λ t e.
        OnSome-elim (SameStates (cleared t)) (SameStates s)
          (put_each put_pcb (t.pcb a).acclist (cleared t)) (λ u. some (on a (wake_all reason) u))
          (put_each-SameStates put_pcb (t.pcb a).acclist (cleared t) (λ c v.
            put_with-SameStates (tcp_pcb_purge fuel (neg 62)) c v
              (tcp_pcb_purge-SameStates fuel (neg 62) c)))
          (λ u k b.
            on-SameStates a (wake_all reason) u refl b
            ∙ (k b ∙ (on-SameStates a (λ p. record p { acclist = [] }) t refl b ∙ e b))))

pub tcp_pcb_put-SameStates : (fuel a : ℕ) (s : Stack) → OnSome (SameStates s) (tcp_pcb_put fuel a s)
unfolding tcp_pcb_put
tcp_pcb_put-SameStates fuel a s =
    put_with-SameStates (tcp_pcb_purge fuel (neg 62)) a s (tcp_pcb_purge-SameStates fuel (neg 62) a)

-- `tcp_pcb_timewait` changes the state of its block to TIME_WAIT, and no other.
pub tcp_pcb_timewait-SameStates :
    (fuel a : ℕ) (s : Stack)
    → OnSome (SameStates (on a (λ p. record p { state = time_wait }) s)) (tcp_pcb_timewait fuel a s)
unfolding tcp_pcb_timewait park SameStates
tcp_pcb_timewait-SameStates fuel a s =
    let start = on a (λ p. record p { state = time_wait }) s in
    OnSome-elim (SameStates start) (SameStates start) (tcp_pcb_purge fuel (neg 62) a start)
      (λ t. some (park a t)) (tcp_pcb_purge-SameStates fuel (neg 62) a start)
      (λ t e b.
        on-SameStates a (λ p. record p { timers = record p.timers { timewait = 480 } }) t refl b
        ∙ e b)
