-- ===== src/Kernel/Mutex/System/Preserve.antt =====
-- Every step keeps the invariant, and no `assert` of mutex.c fails.
use onix.Base.{
  ℕ, ◌+◌, ◌-◌, ◌%◌, ◌^◌, ◌<◌, ◌≡◌, ◌≢◌, refl, sym, ap, ◌∙◌, inl, inr, true, false, Option, none,
  some, List, [], ◌∷◌, ◌++◌, ◌==◌, ltb, arith, ℕ_discrete, Bool-cases,
}
use onix.Kernel.Mutex.{
  mutex_init, mutex_lock, mutex_unlock, lock_init, holds, acquire_again, acquire_first, release,
}
use onix.Kernel.Mutex.System.{
  System, Place, outside, entering, blocked, behind, holding, leaving, moved, move, locked, start,
  acquire, enter, take, give, leave, Step, acquires, acquires_again, enters, takes, gives, leaves,
}
use onix.Kernel.Mutex.System.Inv.{
  inside, held_by, Owns, Names, Owns-stay, Owns-gain, Owns-lose, Names-stay, Names-take, Names-give,
  Blocked, Avoids, Apart, Inv, Blocked-Avoids, Blocked-moved, Blocked-snoc, Apart-snoc, moved_self,
  moved_other,
}

-- A step that does not fail and keeps the invariant.
abbrev pub Kept : Option System → Type 0
Kept result = (s : System) × (owner : Option ℕ) × (result ≡ some s) × Inv s owner

pub start-Inv : Inv start none
unfolding start lock_init mutex_init
start-Inv = record {
  value = refl;
  owns = λ t. (λ e. absurd (ground arith), λ e. absurd (ground arith));
  names = (refl, λ t e. absurd (ground arith));
  waiting = tt;
  apart = tt;
  marked = λ t. refl;
  awake = inr (inl refl);
}

holds_none :
    (h : Option ℕ) (r t : ℕ) (place : ℕ → Place)
    → Names h r place
    → place t ≢ holding
    → holds h t ≡ false
unfolding holds
holds_none none r t place n e = refl
holds_none (some u) r t place n e = elim (ℕ_discrete u t) [
  | yes d ↦ absurd (e ((n.1 t).1 d))
  | no d ↦ ground arith
]

holds_some :
    (h : Option ℕ) (r t : ℕ) (place : ℕ → Place) → Names h r place → place t ≡ holding → h ≡ some t
holds_some none r t place n e = absurd (n.1 t e)
holds_some (some u) r t place n e = ap some ((n.1 t).0 e)

free_holder :
    (h : Option ℕ) (r : ℕ) (owner : Option ℕ) (t : ℕ) (place : ℕ → Place)
    → Names h r place
    → Owns owner place
    → inside (place t) ≡ true
    → place t ≢ holding
    → (h ≡ none) × (r ≡ 0)
free_holder none r owner t place n o i e = (refl, n.0)
free_holder (some u) r owner t place n o i e =
    let held = (n.1 u).1 refl in
    let a : owner ≡ some u = (o u).0 (rw held refl) in
    let b : owner ≡ some t = (o t).0 i in
    let same : u ≡ t = ground (arith, a, b) in absurd (e (rw same at held))

free_owner : (owner : Option ℕ) → held_by owner ≡ false → owner ≡ none
free_owner none e = refl
free_owner (some u) e = absurd (ground arith)

module _ (s : System) (owner : Option ℕ) (v : Inv s owner) (t : ℕ) where
  avoids : s.place t ≢ blocked → Avoids t s.lock.mutex.waiters
  avoids e = Blocked-Avoids s.place t s.lock.mutex.waiters v.waiting e

  acquire-outside : s.place t ≡ outside → Kept (acquire t s)
  unfolding acquire
  acquire-outside e =
      let other : s.place t ≢ holding = λ i. ground arith in
      let h = holds_none s.lock.holder s.lock.repeat t s.place v.names other in
      (
        move t entering s,
        owner,
        rw (acquire, h) refl,
        record {
          value = v.value;
          owns = Owns-stay s.place t entering owner (rw e refl) v.owns;
          names =
              Names-stay s.place t entering s.lock.holder s.lock.repeat other (λ i. ground arith)
                v.names;
          waiting =
              Blocked-moved s.place t entering s.lock.mutex.waiters v.waiting
                (avoids (λ i. ground arith));
          marked = v.marked;
          apart = v.apart;
          awake = inr (inr (t, moved_self s.place t entering));
        },
      )

  acquire-holding : s.place t ≡ holding → s.lock.repeat + 1 < 2 ^ 32 → Kept (acquire t s)
  unfolding acquire acquire_again holds
  acquire-holding e fits =
      let h = holds_some s.lock.holder s.lock.repeat t s.place v.names e in
      let test : holds s.lock.holder t ≡ true = rw h (ground arith) in
      let more : (s.lock.repeat + 1) % 2 ^ 32 ≡ s.lock.repeat + 1 = omega arith in
      let names : Names (some t) s.lock.repeat s.place = rw h at v.names in
      (
        record s { lock = acquire_again s.lock },
        owner,
        rw (acquire, test) refl,
        record {
          value = v.value;
          owns = v.owns;
          names = rw (h, more) (omega arith, names.1);
          waiting = v.waiting;
          marked = v.marked;
          apart = v.apart;
          awake = v.awake;
        },
      )

  enter_busy : s.place t ≡ entering → s.lock.mutex.value ≡ true → Kept (enter t s)
  unfolding enter mutex_lock
  enter_busy e busy =
      let free : s.place t ≢ blocked = λ i. ground arith in
      (
        move t blocked
            (locked (record { value = true; waiters = s.lock.mutex.waiters ++ (t ∷ []) }) s),
        owner,
        rw (enter, mutex_lock, busy, busy) refl,
        record {
          value = sym busy ∙ v.value;
          owns = Owns-stay s.place t blocked owner (rw e refl) v.owns;
          names =
              Names-stay s.place t blocked s.lock.holder s.lock.repeat (λ i. ground arith)
                (λ i. ground arith) v.names;
          waiting =
              Blocked-snoc (moved s.place t blocked) t s.lock.mutex.waiters
                (Blocked-moved s.place t blocked s.lock.mutex.waiters v.waiting (avoids free))
                (moved_self s.place t blocked);
          marked = v.marked;
          apart = Apart-snoc t s.lock.mutex.waiters v.apart (avoids free);
          awake = inl refl;
        },
      )

  enter_free : s.place t ≡ entering → s.lock.mutex.value ≡ false → Kept (enter t s)
  unfolding enter mutex_lock
  enter_free e free =
      let nobody : owner ≡ none = free_owner owner (sym v.value ∙ free) in
      (
        move t behind (locked (record s.lock.mutex { value = true }) s),
        some t,
        rw (enter, mutex_lock, free) refl,
        record {
          value = refl;
          owns = Owns-gain s.place t behind refl (rw nobody at v.owns);
          names =
              Names-stay s.place t behind s.lock.holder s.lock.repeat (λ i. ground arith)
                (λ i. ground arith) v.names;
          waiting =
              Blocked-moved s.place t behind s.lock.mutex.waiters v.waiting
                (avoids (λ i. ground arith));
          marked = v.marked;
          apart = v.apart;
          awake = inl refl;
        },
      )

  busy_inside : inside (s.place t) ≡ true → (owner ≡ some t) × (s.lock.mutex.value ≡ true)
  busy_inside i = let o = (v.owns t).0 i in (o, rw o at v.value)

  take-behind : s.place t ≡ behind → Kept (take t s)
  unfolding take acquire_first
  take-behind e =
      let within : inside (s.place t) ≡ true = rw e refl in
      let free =
        free_holder s.lock.holder s.lock.repeat owner t s.place v.names v.owns within
          (λ i. ground arith) in
      let test : (s.lock.repeat == 0) ≡ true = ground (arith, free.1) in
      let nobody : Names none 0 s.place = rw (free.0, free.1) at v.names in
      (
        move t holding (record s { lock = record s.lock { holder = some t; repeat = 1 } }),
        owner,
        rw (take, acquire_first, test) refl,
        record {
          value = v.value;
          owns = Owns-stay s.place t holding owner (rw e refl) v.owns;
          names = Names-take s.place t holding refl nobody;
          waiting =
              Blocked-moved s.place t holding s.lock.mutex.waiters v.waiting
                (avoids (λ i. ground arith));
          marked = v.marked;
          apart = v.apart;
          awake = inl (busy_inside within).1;
        },
      )

  give-holding : s.place t ≡ holding → Kept (give t s)
  unfolding give release holds
  give-holding e =
      let h = holds_some s.lock.holder s.lock.repeat t s.place v.names e in
      let test : holds s.lock.holder t ≡ true = rw h (ground arith) in
      let names : Names (some t) s.lock.repeat s.place = rw h at v.names in
      elim (Bool-cases (ltb 1 s.lock.repeat)) [
        | inl more ↦ (
          record s { lock = record s.lock { repeat = s.lock.repeat - 1 } },
          owner,
          rw (give, release, test, more) refl,
          record {
            value = v.value;
            owns = v.owns;
            names = rw h (ground arith, names.1);
            waiting = v.waiting;
            marked = v.marked;
            apart = v.apart;
            awake = v.awake;
          },
        )
        | inr last ↦
            let one : (s.lock.repeat == 1) ≡ true = let low = names.0 in ground arith in
            (
              move t leaving (record s { lock = record s.lock { holder = none; repeat = 0 } }),
              owner,
              rw (give, release, test, last, one) refl,
              record {
                value = v.value;
                owns = Owns-stay s.place t leaving owner (rw e refl) v.owns;
                names = Names-give s.place t leaving s.lock.repeat (λ i. ground arith) names;
                waiting =
                    Blocked-moved s.place t leaving s.lock.mutex.waiters v.waiting
                      (avoids (λ i. ground arith));
                marked = v.marked;
                apart = v.apart;
                awake = inl (busy_inside (rw e refl)).1;
              },
            )
      ]

  leave_none : s.place t ≡ leaving → s.lock.mutex.waiters ≡ [] → Kept (leave t s)
  unfolding leave mutex_unlock
  leave_none e none_left =
      let b = busy_inside (rw e refl) in
      (
        move t outside (locked (record { value = false; waiters = [] }) s),
        none,
        rw (leave, mutex_unlock, b.1, none_left) refl,
        record {
          value = refl;
          owns = Owns-lose s.place t outside refl (rw b.0 at v.owns);
          names =
              Names-stay s.place t outside s.lock.holder s.lock.repeat (λ i. ground arith)
                (λ i. ground arith) v.names;
          waiting = tt;
          marked = v.marked;
          apart = tt;
          awake = inr (inl refl);
        },
      )

  leave_some :
      (w : ℕ) (ws : List ℕ) → s.place t ≡ leaving → s.lock.mutex.waiters ≡ w ∷ ws → Kept (leave t s)
  unfolding leave mutex_unlock
  leave_some w ws e woken =
      let b = busy_inside (rw e refl) in
      let waiting : Blocked s.place (w ∷ ws) = rw woken at v.waiting in
      let apart : Apart (w ∷ ws) = rw woken at v.apart in
      let away : Avoids t (w ∷ ws) = rw woken at (avoids (λ i. ground arith)) in
      let after = moved s.place t outside in
      let still : after w ≡ blocked =
        rw (moved_other s.place t w outside (λ d. away.0 (sym d))) waiting.0 in
      let names =
        Names-stay s.place t outside s.lock.holder s.lock.repeat (λ i. ground arith)
          (λ i. ground arith) v.names in
      (
        move w entering (move t outside (locked (record { value = false; waiters = ws }) s)),
        none,
        rw (leave, mutex_unlock, b.1, woken, v.marked w) refl,
        record {
          value = refl;
          owns =
              Owns-stay after w entering none (rw still refl)
                (Owns-lose s.place t outside refl (rw b.0 at v.owns));
          names =
              Names-stay after w entering s.lock.holder s.lock.repeat
                (λ i. ground (arith, still, i)) (λ i. ground arith) names;
          waiting =
              Blocked-moved after w entering ws
                (Blocked-moved s.place t outside ws waiting.1 away.1) apart.0;
          marked = v.marked;
          apart = apart.1;
          awake = inr (inr (w, moved_self after w entering));
        },
      )

  enter-entering : s.place t ≡ entering → Kept (enter t s)
  enter-entering e = elim (Bool-cases s.lock.mutex.value) [
    | inl busy ↦ enter_busy e busy
    | inr free ↦ enter_free e free
  ]

  leave-leaving : (ws : List ℕ) → s.lock.mutex.waiters ≡ ws → s.place t ≡ leaving → Kept (leave t s)
  leave-leaving [] e p = leave_none p e
  leave-leaving (w ∷ ws) e p = leave_some w ws p e

pub Step-Inv : (s : System) (owner : Option ℕ) (r : Option System) → Inv s owner → Step s r → Kept r
Step-Inv s owner r v (acquires t e) = acquire-outside s owner v t e
Step-Inv s owner r v (acquires_again t e fits) = acquire-holding s owner v t e fits
Step-Inv s owner r v (enters t e) = enter-entering s owner v t e
Step-Inv s owner r v (takes t e) = take-behind s owner v t e
Step-Inv s owner r v (gives t e) = give-holding s owner v t e
Step-Inv s owner r v (leaves t e) = leave-leaving s owner v t s.lock.mutex.waiters refl e
