-- ===== src/Kernel/Device/Elevator.antt =====
-- Which request follows, and that one does.
use onix.Base.{
  ℕ, ◌≡◌, refl, ap, true, false, Option, none, some, List, [], ◌∷◌, ◌++◌, ◌==◌, arith, ◌⊎◌, inl,
  inr, Bool-cases,
}
use onix.Libc.LinkedList.Chain.{Out}
use onix.Libc.Nodes.{has, without}
use onix.Libc.Nodes.Laws.{without-Out}
use onix.Kernel.Device.{
  Direction, direct_up, direct_down, first, after, before, turned, toward, request_nextreq,
}

-- The last node of a list, or what stands in front of it.
abbrev pub last_or : Option ℕ → List ℕ → Option ℕ
last_or p [] = p
last_or p (x ∷ xs) = last_or (some x) xs

-- An elevator between the node before and the node behind: it goes on in its direction, and turns
-- where there is no node.
abbrev pub elevator : Direction → Option ℕ → Option ℕ → Option ℕ × Direction
elevator direct_up prev (some b) = (some b, direct_up)
elevator direct_up prev none = (prev, direct_down)
elevator direct_down (some a) next = (some a, direct_down)
elevator direct_down none next = (next, direct_up)

after-split : (a : ℕ) (xs ys : List ℕ) → Out a xs → after a (xs ++ (a ∷ ys)) ≡ first ys
unfolding after
after-split a [] ys o = let self : (a == a) ≡ true = ground arith in rw (after, self) refl
after-split a (x ∷ xs) ys o =
    let ne : (x == a) ≡ false = ground (arith, o.0) in rw (after, ne) (after-split a xs ys o.1)

before-split :
    (p : Option ℕ) (a : ℕ) (xs ys : List ℕ) → Out a xs → before p a (xs ++ (a ∷ ys)) ≡ last_or p xs
unfolding before
before-split p a [] ys o = let self : (a == a) ≡ true = ground arith in rw (before, self) refl
before-split p a (x ∷ xs) ys o =
    let ne : (x == a) ≡ false = ground (arith, o.0) in
    rw (before, ne) (before-split (some x) a xs ys o.1)

elevator_lem :
    (d : Direction) (prev next : Option ℕ)
    → (toward (turned d next prev) next prev, turned d next prev) ≡ elevator d prev next
unfolding toward turned
elevator_lem direct_up prev (some b) = refl
elevator_lem direct_up prev none = refl
elevator_lem direct_down (some a) next = refl
elevator_lem direct_down none next = refl

-- `request_nextreq` of a request that stands once in the list is an elevator: it goes to the request
-- behind or before it in the list, in the direction of the device, and turns at the end of the list.
pub request_nextreq-elevator :
    (xs ys : List ℕ) (req : ℕ) (direct : Direction)
    → Out req xs
    → request_nextreq (xs ++ (req ∷ ys)) direct req ≡ elevator direct (last_or none xs) (first ys)
unfolding request_nextreq
request_nextreq-elevator xs ys req direct o =
    rw (request_nextreq, after-split req xs ys o, before-split none req xs ys o)
      (elevator_lem direct (last_or none xs) (first ys))

pub without-split :
    (a : ℕ) (xs ys : List ℕ) → Out a xs → Out a ys → without a (xs ++ (a ∷ ys)) ≡ xs ++ ys
unfolding without
without-split a [] ys o q =
    let self : (a == a) ≡ true = ground arith in rw self (without-Out a ys q)
without-split a (x ∷ xs) ys o q =
    let ne : (x == a) ≡ false = ground (arith, o.0) in
    rw ne (ap (λ t. x ∷ t) (without-split a xs ys o.1 q))

has-left : (a : ℕ) (xs ys : List ℕ) → has a xs ≡ true → has a (xs ++ ys) ≡ true
unfolding has
has-left a [] ys h = absurd (ground (arith, h))
has-left a (x ∷ xs) ys h = elim (Bool-cases (x == a)) [
  | inl e ↦ rw e refl
  | inr e ↦ rw e (has-left a xs ys (rw e at h))
]

has-right : (b : ℕ) (xs ys : List ℕ) → has b (xs ++ (b ∷ ys)) ≡ true
unfolding has
has-right b [] ys = let self : (b == b) ≡ true = ground arith in rw self refl
has-right b (x ∷ xs) ys = elim (Bool-cases (x == b)) [
  | inl e ↦ rw e refl
  | inr e ↦ rw e (has-right b xs ys)
]

last_or-has :
    (p : Option ℕ) (x : ℕ) (xs : List ℕ)
    → (a : ℕ) × (last_or p (x ∷ xs) ≡ some a) × (has a (x ∷ xs) ≡ true)
unfolding has
last_or-has p x [] = (x, refl, let self : (x == x) ≡ true = ground arith in rw self refl)
last_or-has p x (y ∷ ys) =
    let (a, e, h) = last_or-has (some x) y ys in
    (a, e, elim (Bool-cases (x == a)) [ inl s ↦ rw s refl | inr s ↦ rw s h ])

-- The elevator finds a request when there is one.
pub elevator-has :
    (d : Direction) (xs ys : List ℕ)
    → ((xs ≡ []) × (ys ≡ []) × ((elevator d (last_or none xs) (first ys)).0 ≡ none))
      ⊎ ((q : ℕ) × ((elevator d (last_or none xs) (first ys)).0 ≡ some q)
          × (has q (xs ++ ys) ≡ true))
unfolding first
elevator-has direct_up [] [] = inl (refl, refl, refl)
elevator-has direct_down [] [] = inl (refl, refl, refl)
elevator-has direct_up xs (y ∷ ys) = inr (y, refl, has-right y xs ys)
elevator-has direct_down [] (y ∷ ys) = inr (y, refl, has-right y [] ys)
elevator-has direct_up (x ∷ xs) [] =
    let (a, e, h) = last_or-has none x xs in inr (a, e, has-left a (x ∷ xs) [] h)
elevator-has direct_down (x ∷ xs) ys =
    let (a, e, h) = last_or-has none x xs in inr (a, rw e refl, has-left a (x ∷ xs) ys h)
