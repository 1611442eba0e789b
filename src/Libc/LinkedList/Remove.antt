-- ===== src/Libc/LinkedList/Remove.antt =====
-- `list_remove`: a node leaves its list, and its own links are cleared.
use onix.Base.{ℕ, ◌≡◌, ◌≢◌, ◌∙◌, sym, some, List, [], ◌∷◌, ◌++◌, arith, append_assoc, subst}
use onix.Libc.LinkedList.{Links, Ends, null, update, get_prev, get_next, set_prev, set_next, remove}
use onix.Libc.LinkedList.Chain.{
  Out, Distinct, All, Chain, around, Holds, last, first, rest, Halves, Distinct-Halves, last-Out,
  first-Out, first-Out-rest, Out-rest, Out-append, All-append, append-All, append-Distinct, All-map,
  All-last, All-first, ne-last, ne-first, split, paste, retarget, restart, updates-Out,
  updates-but_first, next-first, prev-last,
}

-- The links without node `x`, which stood between `b` and `a`.
abbrev pub unlinked : Links → ℕ → ℕ → ℕ → Links
unlinked s b x a = record {
  prev = update (update s.prev a b) x null;
  next = update (update s.next b a) x null;
}

pub remove-unlinked :
    (s : Links) (x : ℕ)
    → x ≢ null
    → s.prev x ≢ null
    → s.next x ≢ null
    → s.prev x ≢ x
    → s.next x ≢ x
    → remove x s ≡ some (unlinked s (s.prev x) x (s.next x))
unfolding remove get_prev get_next set_prev set_next
remove-unlinked s x hx hp hn np nn = ground arith

drop-Halves :
    {p : ℕ} {ys : List ℕ} {x : ℕ} {zs : List ℕ} {q : ℕ} → Halves p ys (x ∷ zs) q → Halves p ys zs q
drop-Halves {p} {ys} {x} {zs} {q} h = record {
  front = h.front;
  back = h.back.1;
  apart =
      All-map (λ y. Out y (x ∷ (zs ++ (q ∷ [])))) (λ y. Out y (zs ++ (q ∷ []))) (p ∷ ys)
        (λ y o. o.1) h.apart;
}

unlinked-Chain :
    (s : Links) (p : ℕ) (ys : List ℕ) (x : ℕ) (zs : List ℕ) (q : ℕ)
    → Halves p ys (x ∷ zs) q
    → Chain s p (ys ++ (x ∷ zs)) q
    → Chain (unlinked s (last p ys) x (first zs q)) p (ys ++ zs) q
unlinked-Chain s p ys x zs q h c =
    let b = last p ys in
    let a = first zs q in
    let t = unlinked s b x a in
    let parts = split s p ys x zs q c in
    let less = drop-Halves h in
    let x_front : Out x (p ∷ ys) = first-Out h in
    let x_back : Out x (zs ++ (q ∷ [])) = h.back.0 in
    let x_behind : Out x zs = (Out-append x zs (q ∷ []) x_back).0 in
    let apart : Out b zs = (Out-append b zs (q ∷ []) (last-Out less)).0 in
    let x-b : x ≢ b = ne-last x p ys x_front in
    let x-a : x ≢ a = ne-first x zs q x_back in
    paste t p ys zs q
      (retarget s t p ys x a h.front (updates-but_first s.next b a x null (p ∷ ys) x_front)
        (updates-Out s.prev a b x null ys (first-Out less).1 x_front.1) (ground arith)
        (ground arith) parts.0)
      (restart s t x b zs q (updates-Out s.next b a x null zs apart x_behind)
        (updates-Out s.prev a b x null (rest zs q) (first-Out-rest less) (Out-rest x zs q x_back))
        (ground arith) (ground arith) parts.1)

-- `list_remove` of a node of a list returns: the list holds the other nodes in their order, both
-- links of the node are `NULL`, and no link of a node outside the list has changed.
pub remove-Holds :
    (s : Links) (l : Ends) (ys : List ℕ) (x : ℕ) (zs : List ℕ)
    → Holds s l (ys ++ (x ∷ zs))
    → (t : Links) × (remove x s ≡ some t)
      × Holds t l (ys ++ zs)
      × (t.prev x ≡ null)
      × (t.next x ≡ null)
      × ((a : ℕ)
          → Out a (around l (ys ++ (x ∷ zs)))
          → (t.prev a ≡ s.prev a) × (t.next a ≡ s.next a))
remove-Holds s l ys x zs h =
    let back = zs ++ (l.tail ∷ []) in
    let b = last l.head ys in
    let a = first zs l.tail in
    let open_up = append_assoc ys (x ∷ zs) (l.tail ∷ []) in
    let close = append_assoc ys zs (l.tail ∷ []) in
    let d : Distinct ((l.head ∷ ys) ++ (x ∷ back)) =
      subst (λ r. Distinct (l.head ∷ r)) open_up h.distinct in
    let halves = Distinct-Halves l.head ys (x ∷ zs) l.tail d in
    let less = drop-Halves halves in
    let v =
      All-append (λ c. c ≢ null) (l.head ∷ ys) (x ∷ back)
        (subst (λ r. All (λ c. c ≢ null) (l.head ∷ r)) open_up h.non_null) in
    let parts = split s l.head ys x zs l.tail h.chain in
    let before : s.prev x ≡ b = prev-last s l.head ys x parts.0 in
    let behind : s.next x ≡ a = next-first s x zs l.tail parts.1 in
    let x-b : x ≢ b = ne-last x l.head ys (first-Out halves) in
    let x-a : x ≢ a = ne-first x zs l.tail halves.back.0 in
    let b-null : b ≢ null = All-last (λ c. c ≢ null) l.head ys v.0 in
    let a-null : a ≢ null = All-first (λ c. c ≢ null) zs l.tail v.1.1 in
    (
      unlinked s b x a,
      remove-unlinked s x v.1.0 (ground arith) (ground arith) (ground arith) (ground arith)
          ∙ rw (before, behind),
      record {
        chain = unlinked-Chain s l.head ys x zs l.tail halves h.chain;
        distinct =
            subst (λ r. Distinct (l.head ∷ r)) (sym close)
              (append-Distinct (l.head ∷ ys) back less.front less.back less.apart);
        non_null =
            subst (λ r. All (λ c. c ≢ null) (l.head ∷ r)) (sym close)
              (append-All (λ c. c ≢ null) (l.head ∷ ys) back v.0 v.1.1);
      },
      ground arith,
      ground arith,
      λ c o.
          let parted =
            Out-append c (l.head ∷ ys) (x ∷ back) (subst (λ r. Out c (l.head ∷ r)) open_up o) in
          let c-b : c ≢ b = ne-last c l.head ys parted.0 in
          let c-a : c ≢ a = ne-first c zs l.tail parted.1.1 in
          let c-x : c ≢ x = parted.1.0 in (ground arith, ground arith),
    )
