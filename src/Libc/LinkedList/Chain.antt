-- ===== src/Libc/LinkedList/Chain.antt =====
-- What it is for links to form a list, and how changes of links leave the parts of a list alone.
use onix.Base.{ℕ, ◌≡◌, ◌≢◌, ◌∙◌, sym, List, [], ◌∷◌, ◌++◌, arith}
use onix.Libc.LinkedList.{Links, Ends, null, update}

-- `a` is none of the nodes `xs`.
abbrev pub Out : ℕ → List ℕ → Type 0
Out a [] = Unit
Out a (x ∷ xs) = (a ≢ x) × Out a xs

abbrev pub Distinct : List ℕ → Type 0
Distinct [] = Unit
Distinct (x ∷ xs) = Out x xs × Distinct xs

abbrev pub All {ℓ} : (ℕ → Type ℓ) → List ℕ → Type ℓ
All P [] = Unit
All P (x ∷ xs) = P x × All P xs

-- The links lead from `p` through the nodes `xs` to `q`, and back.
abbrev pub Chain : Links → ℕ → List ℕ → ℕ → Type 0
Chain s p [] q = (s.next p ≡ q) × (s.prev q ≡ p)
Chain s p (x ∷ xs) q = (s.next p ≡ x) × (s.prev x ≡ p) × Chain s x xs q

-- The nodes of a list with its two ends.
abbrev pub around : Ends → List ℕ → List ℕ
around l xs = l.head ∷ xs ++ (l.tail ∷ [])

-- `l` holds the nodes `xs`, in order.
pub record Holds (s : Links) (l : Ends) (xs : List ℕ) : Type 0 where
  pub chain : Chain s l.head xs l.tail
  pub distinct : Distinct (around l xs)
  pub non_null : All (λ a. a ≢ null) (around l xs)

-- The node before and the node behind a place.
abbrev pub last : ℕ → List ℕ → ℕ
last p [] = p
last p (y ∷ ys) = last y ys

abbrev pub first : List ℕ → ℕ → ℕ
first [] q = q
first (z ∷ zs) q = z

pub Out-append : (a : ℕ) (xs ys : List ℕ) → Out a (xs ++ ys) → Out a xs × Out a ys
Out-append a [] ys o = (tt, o)
Out-append a (x ∷ xs) ys o = let r = Out-append a xs ys o.1 in ((o.0, r.0), r.1)

pub append-Out : (a : ℕ) (xs ys : List ℕ) → Out a xs → Out a ys → Out a (xs ++ ys)
append-Out a [] ys o u = u
append-Out a (x ∷ xs) ys o u = (o.0, append-Out a xs ys o.1 u)

pub All-append {ℓ} : (P : ℕ → Type ℓ) (xs ys : List ℕ) → All P (xs ++ ys) → All P xs × All P ys
All-append P [] ys h = (tt, h)
All-append P (x ∷ xs) ys h = let r = All-append P xs ys h.1 in ((h.0, r.0), r.1)

pub append-All {ℓ} : (P : ℕ → Type ℓ) (xs ys : List ℕ) → All P xs → All P ys → All P (xs ++ ys)
append-All P [] ys h k = k
append-All P (x ∷ xs) ys h k = (h.0, append-All P xs ys h.1 k)

-- Both halves of a distinct list are distinct, and share no node.
pub Distinct-append :
    (xs ys : List ℕ) → Distinct (xs ++ ys) → Distinct xs × Distinct ys × All (λ x. Out x ys) xs
Distinct-append [] ys d = (tt, d, tt)
Distinct-append (x ∷ xs) ys d =
    let r = Distinct-append xs ys d.1 in
    let o = Out-append x xs ys d.0 in ((o.0, r.0), r.1, (o.1, r.2))

pub append-Distinct :
    (xs ys : List ℕ) → Distinct xs → Distinct ys → All (λ x. Out x ys) xs → Distinct (xs ++ ys)
append-Distinct [] ys d e o = e
append-Distinct (x ∷ xs) ys d e o = (append-Out x xs ys d.0 o.0, append-Distinct xs ys d.1 e o.1)

-- What holds of all the nodes of a run holds of its last.
pub All-last {ℓ} : (P : ℕ → Type ℓ) (p : ℕ) (ys : List ℕ) → All P (p ∷ ys) → P (last p ys)
All-last P p [] h = h.0
All-last P p (y ∷ ys) h = All-last P y ys h.1

pub ne-last : (a p : ℕ) (ys : List ℕ) → Out a (p ∷ ys) → a ≢ last p ys
ne-last a p [] o = o.0
ne-last a p (y ∷ ys) o = ne-last a y ys o.1

pub All-first {ℓ} : (P : ℕ → Type ℓ) (zs : List ℕ) (q : ℕ) → All P (zs ++ (q ∷ [])) → P (first zs q)
All-first P [] q h = h.0
All-first P (z ∷ zs) q h = h.0

pub ne-first : (a : ℕ) (zs : List ℕ) (q : ℕ) → Out a (zs ++ (q ∷ [])) → a ≢ first zs q
ne-first a [] q o = o.0
ne-first a (z ∷ zs) q o = o.0

-- A chain stands while the links that it reads stay.
pub frame :
    (s t : Links) (p : ℕ) (xs : List ℕ) (q : ℕ)
    → All (λ a. t.next a ≡ s.next a) (p ∷ xs)
    → All (λ a. t.prev a ≡ s.prev a) (xs ++ (q ∷ []))
    → Chain s p xs q
    → Chain t p xs q
frame s t p [] q n m c = (n.0 ∙ c.0, m.0 ∙ c.1)
frame s t p (x ∷ xs) q n m c = (n.0 ∙ c.0, m.0 ∙ c.1, frame s t x xs q n.1 m.1 c.2)

-- A chain splits at each of its nodes.
pub split :
    (s : Links) (p : ℕ) (ys : List ℕ) (x : ℕ) (zs : List ℕ) (q : ℕ)
    → Chain s p (ys ++ (x ∷ zs)) q
    → Chain s p ys x × Chain s x zs q
split s p [] x zs q c = ((c.0, c.1), c.2)
split s p (y ∷ ys) x zs q c = let r = split s y ys x zs q c.2 in ((c.0, c.1, r.0), r.1)

pub join :
    (s : Links) (p : ℕ) (ys : List ℕ) (x : ℕ) (zs : List ℕ) (q : ℕ)
    → Chain s p ys x
    → Chain s x zs q
    → Chain s p (ys ++ (x ∷ zs)) q
join s p [] x zs q c d = (c.0, c.1, d)
join s p (y ∷ ys) x zs q c d = (c.0, c.1, join s y ys x zs q c.2 d)

-- The links next to the ends of a chain.
pub next-first : (s : Links) (p : ℕ) (zs : List ℕ) (q : ℕ) → Chain s p zs q → s.next p ≡ first zs q
next-first s p [] q c = c.0
next-first s p (z ∷ zs) q c = c.0

pub prev-last : (s : Links) (p : ℕ) (ys : List ℕ) (q : ℕ) → Chain s p ys q → s.prev q ≡ last p ys
prev-last s p [] q c = c.1
prev-last s p (y ∷ ys) q c = prev-last s y ys q c.2

-- A write at `a` is not seen at the other nodes.
pub update-Out : (f : ℕ → ℕ) (a v : ℕ) (xs : List ℕ) → Out a xs → All (λ b. update f a v b ≡ f b) xs
update-Out f a v [] o = tt
update-Out f a v (x ∷ xs) o = (ground arith, update-Out f a v xs o.1)

pub updates-Out :
    (f : ℕ → ℕ) (a v b w : ℕ) (xs : List ℕ)
    → Out a xs
    → Out b xs
    → All (λ c. update (update f a v) b w c ≡ f c) xs
updates-Out f a v b w [] o u = tt
updates-Out f a v b w (x ∷ xs) o u = (ground arith, updates-Out f a v b w xs o.1 u.1)

pub updates-elsewhere :
    (f : ℕ → ℕ) (a v b w : ℕ) (xs : List ℕ)
    → Out a xs
    → All (λ c. c ≢ b → update (update f a v) b w c ≡ f c) xs
updates-elsewhere f a v b w [] o = tt
updates-elsewhere f a v b w (x ∷ xs) o = ((λ ne. ground arith), updates-elsewhere f a v b w xs o.1)

pub updates-but_first :
    (f : ℕ → ℕ) (b v a w : ℕ) (xs : List ℕ)
    → Out a xs
    → All (λ c. c ≢ b → update (update f b v) a w c ≡ f c) xs
updates-but_first f b v a w [] o = tt
updates-but_first f b v a w (x ∷ xs) o = ((λ ne. ground arith), updates-but_first f b v a w xs o.1)

-- A chain cut between two of its nodes, and pasted together.
pub cut :
    (s : Links) (p : ℕ) (ys zs : List ℕ) (q : ℕ)
    → Chain s p (ys ++ zs) q
    → Chain s p ys (first zs q) × Chain s (last p ys) zs q
cut s p [] [] q c = (c, c)
cut s p [] (z ∷ zs) q c = ((c.0, c.1), c)
cut s p (y ∷ ys) zs q c = let r = cut s y ys zs q c.2 in ((c.0, c.1, r.0), r.1)

pub paste :
    (s : Links) (p : ℕ) (ys zs : List ℕ) (q : ℕ)
    → Chain s p ys (first zs q)
    → Chain s (last p ys) zs q
    → Chain s p (ys ++ zs) q
paste s p [] zs q c d = d
paste s p (y ∷ ys) zs q c d = (c.0, c.1, paste s y ys zs q c.2 d)

-- The end of a chain moved: only the links between its last node and its end may change.
pub retarget :
    (s t : Links) (p : ℕ) (ys : List ℕ) (x a : ℕ)
    → Distinct (p ∷ ys)
    → All (λ b. b ≢ last p ys → t.next b ≡ s.next b) (p ∷ ys)
    → All (λ b. t.prev b ≡ s.prev b) ys
    → t.next (last p ys) ≡ a
    → t.prev a ≡ last p ys
    → Chain s p ys x
    → Chain t p ys a
retarget s t p [] x a d n m e f c = (e, f)
retarget s t p (y ∷ ys) x a d n m e f c =
    (n.0 (ne-last p y ys d.0) ∙ c.0, m.0 ∙ c.1, retarget s t y ys x a d.1 n.1 m.1 e f c.2)

-- All but the first node of a run with its end.
abbrev pub rest : List ℕ → ℕ → List ℕ
rest [] q = []
rest (z ∷ zs) q = zs ++ (q ∷ [])

-- The start of a chain moved.
pub restart :
    (s t : Links) (p n : ℕ) (zs : List ℕ) (q : ℕ)
    → All (λ b. t.next b ≡ s.next b) zs
    → All (λ b. t.prev b ≡ s.prev b) (rest zs q)
    → t.next n ≡ first zs q
    → t.prev (first zs q) ≡ n
    → Chain s p zs q
    → Chain t n zs q
restart s t p n [] q h k e f c = (e, f)
restart s t p n (z ∷ zs) q h k e f c = (e, f, frame s t z zs q h k c.2)

pub Out-sym : (a : ℕ) (xs : List ℕ) → All (λ x. x ≢ a) xs → Out a xs
Out-sym a [] h = tt
Out-sym a (x ∷ xs) h = ((λ e. h.0 (sym e)), Out-sym a xs h.1)

pub All-map {ℓ κ} :
    (P : ℕ → Type ℓ) (Q : ℕ → Type κ) (xs : List ℕ) → ((a : ℕ) → P a → Q a) → All P xs → All Q xs
All-map P Q [] f h = tt
All-map P Q (x ∷ xs) f h = (f x h.0, All-map P Q xs f h.1)

-- The facts about the two halves of a distinct run that a change between them needs.
pub record Halves (p : ℕ) (ys zs : List ℕ) (q : ℕ) : Type 0 where
  pub front : Distinct (p ∷ ys)
  pub back : Distinct (zs ++ (q ∷ []))
  pub apart : All (λ x. Out x (zs ++ (q ∷ []))) (p ∷ ys)

pub Distinct-Halves :
    (p : ℕ) (ys zs : List ℕ) (q : ℕ) → Distinct ((p ∷ ys) ++ (zs ++ (q ∷ []))) → Halves p ys zs q
Distinct-Halves p ys zs q d =
    let r = Distinct-append (p ∷ ys) (zs ++ (q ∷ [])) d in
    record { front = r.0; back = r.1; apart = r.2 }

module _ {p : ℕ} {ys zs : List ℕ} {q : ℕ} (h : Halves p ys zs q) where
  pub last-Out : Out (last p ys) (zs ++ (q ∷ []))
  last-Out = All-last (λ x. Out x (zs ++ (q ∷ []))) p ys h.apart

  pub first-Out : Out (first zs q) (p ∷ ys)
  first-Out = Out-sym (first zs q) (p ∷ ys) (
      All-map (λ x. Out x (zs ++ (q ∷ []))) (λ x. x ≢ first zs q) (p ∷ ys) (λ x. ne-first x zs q)
        h.apart)

  pub first-Out-rest : Out (first zs q) (rest zs q)
  first-Out-rest = go zs h.back
    where
      go : (ws : List ℕ) → Distinct (ws ++ (q ∷ [])) → Out (first ws q) (rest ws q)
      go [] d = tt
      go (w ∷ ws) d = d.0

pub Out-rest : (a : ℕ) (zs : List ℕ) (q : ℕ) → Out a (zs ++ (q ∷ [])) → Out a (rest zs q)
Out-rest a [] q o = tt
Out-rest a (z ∷ zs) q o = o.1
