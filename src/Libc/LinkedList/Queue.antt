-- ===== src/Libc/LinkedList/Queue.antt =====
-- The lists as queues: `list_push`, `list_pushback`, `list_pop`, `list_popback`.
use onix.Base.{
  ℕ, ◌+◌, ◌<◌, length-append, ◌≡◌, ◌≢◌, ◌∙◌, sym, refl, true, false, Option, none, some, List, [],
  ◌∷◌, ◌++◌, ◌==◌, arith, length, append-nil, subst,
}
use onix.Libc.LinkedList.{Links, Ends, null, get_prev, push, pushback, pop, popback}
use onix.Libc.LinkedList.Chain.{
  Out, around, Holds, last, first, Out-append, All-append, All-last, All-first, next-first,
  prev-last,
}
use onix.Libc.LinkedList.Insert.{
  spliced, insert_before-spliced, insert_after-spliced, spliced-Holds, spliced-same,
}
use onix.Libc.LinkedList.Remove.{remove-Holds}
use onix.Libc.LinkedList.Search.{mem, mem-Out, walks_lem, get_first}

-- The two stores agree but at the nodes `xs`.
abbrev pub SameOutside : Links → Links → List ℕ → Type 0
SameOutside s t xs = (a : ℕ) → Out a xs → (t.prev a ≡ s.prev a) × (t.next a ≡ s.next a)

module _ {s : Links} {l : Ends} {xs : List ℕ} (fuel node : ℕ) (h : Holds s l xs)
    (k : length xs < fuel) where
  -- `list_push` of a new node returns, and puts it in front of the others.
  pub push-cons :
      Out node (around l xs)
      → node ≢ null
      → (t : Links) × (push fuel l node s ≡ some t)
        × Holds t l (node ∷ xs)
        × SameOutside s t (node ∷ around l xs)
  unfolding push
  push-cons new nn =
      let o = Out-append node xs (l.tail ∷ []) new.1 in
      let a = first xs l.tail in
      let at_first : s.next l.head ≡ a = next-first s l.head xs l.tail h.chain in
      let a-null : a ≢ null = All-first (λ c. c ≢ null) xs l.tail h.non_null.1 in
      let wrote = insert_after-spliced s l.head node h.non_null.0 nn new.0 (ground arith) in
      (
        spliced s l.head node a,
        rw ((walks_lem fuel node h k).0, mem-Out node xs o.0) (wrote ∙ rw at_first),
        spliced-Holds s l [] xs node h new nn,
        λ c out. spliced-same s l [] xs node c out,
      )

  -- `list_push` of a node that is in the list stops at its `assert`.
  pub push-mem : mem node xs ≡ true → push fuel l node s ≡ none
  unfolding push
  push-mem m = rw ((walks_lem fuel node h k).0, m)

  -- `list_pushback` of a new node returns, and puts it behind the others.
  pub pushback-append :
      Out node (around l xs)
      → node ≢ null
      → (t : Links) × (pushback fuel l node s ≡ some t)
        × Holds t l (xs ++ (node ∷ []))
        × SameOutside s t (node ∷ around l xs)
  unfolding pushback
  pushback-append new nn =
      let o = Out-append node xs (l.tail ∷ []) new.1 in
      let b = last l.head xs in
      let all = All-append (λ c. c ≢ null) (l.head ∷ xs) (l.tail ∷ []) h.non_null in
      let at_last : s.prev l.tail ≡ b = prev-last s l.head xs l.tail h.chain in
      let b-null : b ≢ null = All-last (λ c. c ≢ null) l.head xs all.0 in
      let wrote = insert_before-spliced s l.tail node all.1.0 nn o.1.0 (ground arith) in
      let whole : Holds s l (xs ++ []) = subst (Holds s l) (sym (append-nil xs)) h in
      let new' : Out node (around l (xs ++ [])) =
        subst (λ r. Out node (around l r)) (sym (append-nil xs)) new in
      (
        spliced s b node l.tail,
        rw ((walks_lem fuel node h k).0, mem-Out node xs o.0) (wrote ∙ rw at_last),
        spliced-Holds s l xs [] node whole new' nn,
        λ c out.
            spliced-same s l xs [] node c
              (subst (λ r. Out c (node ∷ around l r)) (sym (append-nil xs)) out),
      )

last-append : (p : ℕ) (xs : List ℕ) (x : ℕ) → last p (xs ++ (x ∷ [])) ≡ x
last-append p [] x = refl
last-append p (y ∷ xs) x = last-append y xs x

-- What a pop leaves: the list with the other nodes, and the popped node with both links cleared.
abbrev pub Popped : Links → Ends → ℕ → List ℕ → Links → Type 0
Popped s l x xs t = Holds t l xs × (t.prev x ≡ null) × (t.next x ≡ null)

pop-cons :
    {s : Links} {l : Ends} {x : ℕ} {xs : List ℕ}
    → Holds s l (x ∷ xs)
    → (t : Links) × (pop l s ≡ some (x, t)) × Popped s l x xs t
unfolding pop
pop-cons {s} {l} {x} {xs} h =
    let (t, e, held, p, n, same) = remove-Holds s l [] x xs h in
    let walks = walks_lem (length (x ∷ xs) + 1) 0 h (omega arith) in
    (t, rw (walks.2, get_first h) (ground (arith, e)), (held, p, n))

-- What `list_pop` gives for the nodes of the list.
abbrev pub Pops : Links → Ends → List ℕ → Option (ℕ × Links) → Type 0
Pops s l [] r = r ≡ none
Pops s l (x ∷ xs) r = (t : Links) × (r ≡ some (x, t)) × Popped s l x xs t

-- `list_pop` stops at its `assert` on an empty list; else it returns the first node, with both its
-- links `NULL`, and leaves the rest of the list in order.
pub pop_lem : {s : Links} {l : Ends} (xs : List ℕ) → Holds s l xs → Pops s l xs (pop l s)
unfolding pop
pop_lem [] h = rw ((walks_lem 1 0 h (omega arith)).2)
pop_lem (x ∷ xs) h = pop-cons h

-- `list_popback` of a list that holds `xs` and then `x` returns `x`, with both its links `NULL`, and
-- leaves `xs` in order.
pub popback-append :
    {s : Links} {l : Ends} (xs : List ℕ) (x : ℕ)
    → Holds s l (xs ++ (x ∷ []))
    → (t : Links) × (popback l s ≡ some (x, t)) × Popped s l x xs t
unfolding popback get_prev
popback-append {s} {l} xs x h =
    let (t, e, held, p, n, same) = remove-Holds s l xs x [] h in
    let walks = walks_lem (length (xs ++ (x ∷ [])) + 1) 0 h (omega arith) in
    let some_left : (length (xs ++ (x ∷ [])) == 0) ≡ false =
      ground (arith, length-append xs (x ∷ [])) in
    let all = All-append (λ c. c ≢ null) (l.head ∷ (xs ++ (x ∷ []))) (l.tail ∷ []) h.non_null in
    let at_last : s.prev l.tail ≡ x =
      prev-last s l.head (xs ++ (x ∷ [])) l.tail h.chain ∙ last-append l.head xs x in
    (t, rw (walks.2, some_left) (ground (arith, e)), (subst (Holds t l) (append-nil xs) held, p, n))
