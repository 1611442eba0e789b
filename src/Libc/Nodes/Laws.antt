-- ===== src/Libc/Nodes/Laws.antt =====
-- What the operations on nodes keep.
use onix.Base.{
  ℕ, ◌≡◌, ◌≢◌, refl, sym, ap, true, false, some, List, [], ◌∷◌, ◌++◌, ◌==◌, arith, ℕ_discrete,
  Bool-cases, ◌⊎◌, inl, inr,
}
use onix.Libc.LinkedList.Chain.{Out, All, Distinct}
use onix.Libc.Nodes.{has, without, unsnoc, put}

pub has-Out : (a : ℕ) (xs : List ℕ) → Out a xs → has a xs ≡ false
unfolding has
has-Out a [] o = refl
has-Out a (x ∷ xs) o = ground (arith, has-Out a xs o.1, o.0)

pub Out-has : (a : ℕ) (xs : List ℕ) → has a xs ≡ false → Out a xs
unfolding has
Out-has a [] h = tt
Out-has a (x ∷ xs) h = elim (ℕ_discrete a x) [
  | yes d ↦ absurd (ground arith)
  | no d ↦ (d, Out-has a xs (ground arith))
]

pub without-Out : (a : ℕ) (xs : List ℕ) → Out a xs → without a xs ≡ xs
unfolding without
without-Out a [] o = refl
without-Out a (x ∷ xs) o = ground (arith, without-Out a xs o.1, o.0)

pub Out-without_self : (a : ℕ) (xs : List ℕ) → Out a (without a xs)
unfolding without
Out-without_self a [] = tt
Out-without_self a (x ∷ xs) = elim (ℕ_discrete a x) [
  | yes d ↦ let e : (x == a) ≡ true = ground arith in rw e (Out-without_self a xs)
  | no d ↦ let e : (x == a) ≡ false = ground arith in rw e (d, Out-without_self a xs)
]

pub Out-without : (a b : ℕ) (xs : List ℕ) → Out b xs → Out b (without a xs)
unfolding without
Out-without a b [] o = tt
Out-without a b (x ∷ xs) o = elim (Bool-cases (x == a)) [
  | inl e ↦ rw e (Out-without a b xs o.1)
  | inr e ↦ rw e (o.0, Out-without a b xs o.1)
]

pub All-without {ℓ} : (P : ℕ → Type ℓ) (a : ℕ) (xs : List ℕ) → All P xs → All P (without a xs)
unfolding without
All-without P a [] h = tt
All-without P a (x ∷ xs) h = elim (Bool-cases (x == a)) [
  | inl e ↦ rw e (All-without P a xs h.1)
  | inr e ↦ rw e (h.0, All-without P a xs h.1)
]

pub Distinct-without : (a : ℕ) (xs : List ℕ) → Distinct xs → Distinct (without a xs)
unfolding without
Distinct-without a [] h = tt
Distinct-without a (x ∷ xs) h = elim (Bool-cases (x == a)) [
  | inl e ↦ rw e (Distinct-without a xs h.1)
  | inr e ↦ rw e (Out-without a x xs h.0, Distinct-without a xs h.1)
]

pub unsnoc_snoc : (xs : List ℕ) (a : ℕ) → unsnoc (xs ++ (a ∷ [])) ≡ some (xs, a)
unfolding unsnoc
unsnoc_snoc [] a = refl
unsnoc_snoc (x ∷ xs) a = rw (unsnoc, unsnoc_snoc xs a) refl

-- A list is empty or has a last node.
pub snoc_cases : (xs : List ℕ) → (xs ≡ []) ⊎ ((ys : List ℕ) × (a : ℕ) × (xs ≡ ys ++ (a ∷ [])))
snoc_cases [] = inl refl
snoc_cases (x ∷ xs) = elim (snoc_cases xs) [
  | inl e ↦ inr ([], x, ap (λ t. x ∷ t) e)
  | inr r ↦ inr (x ∷ r.0, r.1, ap (λ t. x ∷ t) r.2)
]

pub Out-init : (b : ℕ) (xs : List ℕ) (a : ℕ) → Out b (xs ++ (a ∷ [])) → Out b xs × (b ≢ a)
Out-init b [] a o = (tt, o.0)
Out-init b (x ∷ xs) a o = let r = Out-init b xs a o.1 in ((o.0, r.0), r.1)

pub All-init {ℓ} : (P : ℕ → Type ℓ) (xs : List ℕ) (a : ℕ) → All P (xs ++ (a ∷ [])) → All P xs × P a
All-init P [] a h = (tt, h.0)
All-init P (x ∷ xs) a h = let r = All-init P xs a h.1 in ((h.0, r.0), r.1)

pub Distinct-init : (xs : List ℕ) (a : ℕ) → Distinct (xs ++ (a ∷ [])) → Distinct xs × Out a xs
Distinct-init [] a h = (tt, tt)
Distinct-init (x ∷ xs) a h =
    let r = Distinct-init xs a h.1 in
    let o = Out-init x xs a h.0 in ((o.0, r.0), (λ e. o.1 (sym e), r.1))

-- A change of a node outside a list does not show in it.
pub All-put {ℓ κ} :
    {A : Type ℓ} (P : A → Type κ) (f : ℕ → A) (a : ℕ) (v : A) (xs : List ℕ)
    → Out a xs
    → All (λ b. P (f b)) xs
    → All (λ b. P (put f a v b)) xs
All-put P f a v [] o h = tt
All-put P f a v (x ∷ xs) o h =
    let e : (x == a) ≡ false = ground (arith, o.0) in (rw e h.0, All-put P f a v xs o.1 h.1)

pub put_self {ℓ} : {A : Type ℓ} (f : ℕ → A) (a : ℕ) (v : A) → put f a v a ≡ v
put_self f a v = let e : (a == a) ≡ true = ground arith in rw e refl

pub put_other {ℓ} : {A : Type ℓ} (f : ℕ → A) (a b : ℕ) (v : A) → b ≢ a → put f a v b ≡ f b
put_other f a b v h = let e : (b == a) ≡ false = ground (arith, h) in rw e refl

pub All-map {ℓ κ} :
    (P : ℕ → Type ℓ) (Q : ℕ → Type κ) → ((a : ℕ) → P a → Q a) → (xs : List ℕ) → All P xs → All Q xs
All-map P Q f [] h = tt
All-map P Q f (x ∷ xs) h = (f x h.0, All-map P Q f xs h.1)

pub All-map_others {ℓ κ} :
    (P : ℕ → Type ℓ) (Q : ℕ → Type κ) (b : ℕ)
    → ((a : ℕ) → b ≢ a → P a → Q a)
    → (xs : List ℕ) → Out b xs
    → All P xs
    → All Q xs
All-map_others P Q b f [] o h = tt
All-map_others P Q b f (x ∷ xs) o h = (f x o.0 h.0, All-map_others P Q b f xs o.1 h.1)
