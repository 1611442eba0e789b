-- ===== src/Kernel/Mutex/System/Inv.antt =====
-- What holds of the lock and its tasks after every step.
use onix.Base.{
  ℕ, ◌<◌, ◌≡◌, ◌≢◌, ◌⊎◌, refl, sym, ap, Bool, true, false, Option, none, some, List, [], ◌∷◌, ◌++◌,
  ◌==◌, arith, ℕ_discrete,
}
use onix.Kernel.Mutex.{onix_magic}
use onix.Kernel.Mutex.System.{
  System, Place, outside, entering, blocked, behind, holding, leaving, moved,
}

-- The places between `mutex_lock` and `mutex_unlock`.
abbrev pub inside : Place → Bool
inside outside = false
inside entering = false
inside blocked = false
inside behind = true
inside holding = true
inside leaving = true

abbrev pub held_by : Option ℕ → Bool
held_by none = false
held_by (some t) = true

-- Every task of a list is blocked.
abbrev pub Blocked : (ℕ → Place) → List ℕ → Type 0
Blocked place [] = Unit
Blocked place (w ∷ ws) = (place w ≡ blocked) × Blocked place ws

abbrev pub Avoids : ℕ → List ℕ → Type 0
Avoids t [] = Unit
Avoids t (w ∷ ws) = (t ≢ w) × Avoids t ws

abbrev pub Apart : List ℕ → Type 0
Apart [] = Unit
Apart (w ∷ ws) = Avoids w ws × Apart ws

-- The owner of the mutex is the one task between its `mutex_lock` and `mutex_unlock`.
abbrev pub Owns : Option ℕ → (ℕ → Place) → Type 0
Owns owner place =
    (t : ℕ)
    → (inside (place t) ≡ true → owner ≡ some t) × (owner ≡ some t → inside (place t) ≡ true)

-- `holder` and `repeat` are those of the one task that holds the lock.
abbrev pub Names : Option ℕ → ℕ → (ℕ → Place) → Type 0
Names none repeat place = (repeat ≡ 0) × ((t : ℕ) → place t ≢ holding)
Names (some h) repeat place =
    (0 < repeat) × ((t : ℕ) → (place t ≡ holding → h ≡ t) × (h ≡ t → place t ≡ holding))

-- No wake-up is lost: if the mutex is free and tasks wait for it, a task is about to test it.
abbrev pub Awake : Bool → List ℕ → (ℕ → Place) → Type 0
Awake value waiters place = (value ≡ true) ⊎ ((waiters ≡ []) ⊎ ((t : ℕ) × (place t ≡ entering)))

pub record Inv (s : System) (owner : Option ℕ) : Type 0 where
  pub value : s.lock.mutex.value ≡ held_by owner
  pub owns : Owns owner s.place
  pub names : Names s.lock.holder s.lock.repeat s.place
  pub waiting : Blocked s.place s.lock.mutex.waiters
  pub apart : Apart s.lock.mutex.waiters
  pub marked : (t : ℕ) → s.magic t ≡ onix_magic
  pub awake : Awake s.lock.mutex.value s.lock.mutex.waiters s.place

module _ (place : ℕ → Place) where
  -- A task that is not blocked is not in the list.
  pub Blocked-Avoids : (t : ℕ) (ws : List ℕ) → Blocked place ws → place t ≢ blocked → Avoids t ws
  Blocked-Avoids t [] h k = tt
  Blocked-Avoids t (w ∷ ws) h k = (λ e. k (rw e h.0), Blocked-Avoids t ws h.1 k)

  pub Blocked-moved :
      (t : ℕ) (p : Place) (ws : List ℕ)
      → Blocked place ws
      → Avoids t ws
      → Blocked (moved place t p) ws
  Blocked-moved t p [] h k = tt
  Blocked-moved t p (w ∷ ws) h k =
      let other : (w == t) ≡ false = ground (arith, k.0) in
      (rw other h.0, Blocked-moved t p ws h.1 k.1)

pub Blocked-snoc :
    (place : ℕ → Place) (t : ℕ) (ws : List ℕ)
    → Blocked place ws
    → place t ≡ blocked
    → Blocked place (ws ++ (t ∷ []))
Blocked-snoc place t [] h k = (k, tt)
Blocked-snoc place t (w ∷ ws) h k = (h.0, Blocked-snoc place t ws h.1 k)

pub Avoids-snoc : (v t : ℕ) (ws : List ℕ) → Avoids v ws → v ≢ t → Avoids v (ws ++ (t ∷ []))
Avoids-snoc v t [] h k = (k, tt)
Avoids-snoc v t (w ∷ ws) h k = (h.0, Avoids-snoc v t ws h.1 k)

pub Apart-snoc : (t : ℕ) (ws : List ℕ) → Apart ws → Avoids t ws → Apart (ws ++ (t ∷ []))
Apart-snoc t [] h k = (tt, tt)
Apart-snoc t (w ∷ ws) h k = (Avoids-snoc w t ws h.0 (λ e. k.0 (sym e)), Apart-snoc t ws h.1 k.1)

pub moved_self : (place : ℕ → Place) (t : ℕ) (p : Place) → moved place t p t ≡ p
moved_self place t p = ground arith

pub moved_other : (place : ℕ → Place) (t u : ℕ) (p : Place) → u ≢ t → moved place t p u ≡ place u
moved_other place t u p h = ground (arith, h)

module _ (place : ℕ → Place) (t : ℕ) (p : Place) where
  -- The task stays on its side of the mutex.
  pub Owns-stay :
      (owner : Option ℕ)
      → inside p ≡ inside (place t)
      → Owns owner place
      → Owns owner (moved place t p)
  Owns-stay owner e o u = elim (ℕ_discrete u t) [
    | yes d ↦ rw (d, moved_self place t p, e) (o t)
    | no d ↦ rw (moved_other place t u p d) (o u)
  ]

  pub Owns-gain : inside p ≡ true → Owns none place → Owns (some t) (moved place t p)
  Owns-gain e o u = elim (ℕ_discrete u t) [
    | yes d ↦ (λ i. ap some (sym d), λ q. rw (d, moved_self place t p) e)
    | no d ↦
        rw (moved_other place t u p d)
          (λ i. let x = (o u).0 i in absurd (ground arith), λ q. absurd (d (ground arith)))
  ]

  pub Owns-lose : inside p ≡ false → Owns (some t) place → Owns none (moved place t p)
  Owns-lose e o u = elim (ℕ_discrete u t) [
    | yes d ↦
        rw (d, moved_self place t p, e) (λ i. absurd (ground arith), λ q. absurd (ground arith))
    | no d ↦
        rw (moved_other place t u p d)
          (λ i. let x = (o u).0 i in absurd (d (ground arith)), λ q. absurd (ground arith))
  ]

  pub Names-stay :
      (holder : Option ℕ) (repeat : ℕ)
      → place t ≢ holding
      → p ≢ holding
      → Names holder repeat place
      → Names holder repeat (moved place t p)
  Names-stay none repeat h k n = (
    n.0,
    λ u. elim (ℕ_discrete u t) [
      | yes d ↦ rw (d, moved_self place t p) k
      | no d ↦ rw (moved_other place t u p d) (n.1 u)
    ],
  )
  Names-stay (some w) repeat h k n = (
    n.0,
    λ u. elim (ℕ_discrete u t) [
      | yes d ↦ rw (d, moved_self place t p) ((λ i. absurd (k i)), (λ e. absurd (h ((n.1 t).1 e))))
      | no d ↦ rw (moved_other place t u p d) (n.1 u)
    ],
  )

  pub Names-take : p ≡ holding → Names none 0 place → Names (some t) 1 (moved place t p)
  Names-take e n = (
    omega arith,
    λ u. elim (ℕ_discrete u t) [
      | yes d ↦ (λ i. sym d, λ q. rw (d, moved_self place t p) e)
      | no d ↦ rw (moved_other place t u p d) (λ i. absurd (n.1 u i), λ q. absurd (d (sym q)))
    ],
  )

  pub Names-give :
      (repeat : ℕ) → p ≢ holding → Names (some t) repeat place → Names none 0 (moved place t p)
  Names-give repeat e n = (
    refl,
    λ u. elim (ℕ_discrete u t) [
      | yes d ↦ rw (d, moved_self place t p) e
      | no d ↦ rw (moved_other place t u p d) (λ i. d (sym ((n.1 u).0 i)))
    ],
  )
