-- ===== src/Net/Tcp/Stack/Purge.antt =====
-- What is left of a block that is emptied.
use onix.Base.{ℕ, suc, true, some, List, [], ◌∷◌, ◌==◌, ◌&&◌, ◌≡◌, ◌≢◌, refl, ap, ◌∙◌, arith}
use onix.Base.Int.{ℤ}
use onix.Net.Tcp.{Pcb, Seg}
use onix.Net.Tcp.Output.Window.{Single}
use onix.Net.Tcp.Stack.{Stack, on, put_lists, wake_all, put_each, tcp_pcb_purge, tcp_list_put}
use onix.Net.Tcp.Stack.States.{on_self, on_other}

-- No other part of the system holds a segment of the block.
pub record Sole (p : Pcb) : Type 0 where
  pub recved : Single p.recved
  pub outseq : Single p.outseq
  pub unsent : Single p.unsent
  pub unacked : Single p.unacked

abbrev pub without_lists : Pcb → Pcb
without_lists p = record p { recved = []; outseq = []; unsent = []; unacked = [] }

-- A block without segments and accepted blocks, whose waiting tasks are woken.
abbrev pub emptied : ℤ → Pcb → Pcb
emptied reason p = wake_all reason (record (without_lists p) { acclist = [] })

list_put-Single : (gs : List Seg) → Single gs → tcp_list_put gs ≡ true
unfolding tcp_list_put Single
list_put-Single [] h = refl
list_put-Single (g ∷ gs) h =
    let one : (g.count == 1) ≡ true = ground (arith, h.0) in rw one (list_put-Single gs h.1)

put_lists-Sole : (p : Pcb) → Sole p → put_lists p ≡ some (without_lists p)
unfolding put_lists
put_lists-Sole p h =
    let c : (tcp_list_put p.recved
          && (tcp_list_put p.outseq && (tcp_list_put p.unsent && tcp_list_put p.unacked)))
        ≡ true =
      rw
        (
          list_put-Single p.recved h.recved,
          list_put-Single p.outseq h.outseq,
          list_put-Single p.unsent h.unsent,
          list_put-Single p.unacked h.unacked,
        )
        refl in
    rw c refl

-- A block without accepted blocks, whose segments no other part holds, is emptied, and all that wait for
-- it are woken; no other block changes.
pub tcp_pcb_purge-emptied :
    (fuel : ℕ) (reason : ℤ) (a : ℕ) (s : Stack)
    → Sole (s.pcb a)
    → (s.pcb a).acclist ≡ []
    → (t : Stack) × (tcp_pcb_purge (suc fuel) reason a s ≡ some t)
      × (t.pcb a ≡ emptied reason (s.pcb a))
      × ((b : ℕ) → b ≢ a → t.pcb b ≡ s.pcb b)
unfolding tcp_pcb_purge put_each
tcp_pcb_purge-emptied fuel reason a s h e =
    let p = s.pcb a in
    let clear = λ (q : Pcb). record q { acclist = [] } in
    let s1 = on a (λ _. without_lists p) s in
    let s2 = on a clear s1 in
    let s3 = on a (wake_all reason) s2 in
    let at1 = on_self a (λ _. without_lists p) s in
    let at2 = on_self a clear s1 ∙ ap clear at1 in
    let at3 = on_self a (wake_all reason) s2 ∙ ap (wake_all reason) at2 in
    let none_left : (s1.pcb a).acclist ≡ [] = ap (λ (q : Pcb). q.acclist) at1 ∙ e in
    (
      s3,
      rw (tcp_pcb_purge, put_lists-Sole p h, none_left) refl,
      at3,
      λ b d.
          on_other a b (wake_all reason) s2 d
          ∙ (on_other a b clear s1 d ∙ on_other a b (λ _. without_lists p) s d),
    )
