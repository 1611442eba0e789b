-- ===== src/Libc/LinkedList/Insert.antt =====
-- `list_insert_before` and `list_insert_after`: a node comes between two neighbours.
use onix.Base.{ℕ, ◌≡◌, ◌≢◌, sym, some, List, [], ◌∷◌, ◌++◌, arith, append_assoc, subst}
use onix.Libc.LinkedList.{
  Links, Ends, null, update, get_prev, get_next, set_prev, set_next, init, insert_before,
  insert_after,
}
use onix.Libc.LinkedList.Chain.{
  Out, Distinct, All, Chain, around, Holds, last, first, rest, Halves, Distinct-Halves, last-Out,
  first-Out, first-Out-rest, Out-rest, Out-append, All-append, append-All, append-Distinct, ne-last,
  ne-first, cut, join, retarget, restart, updates-Out, updates-elsewhere,
}

-- The links with node `n` put between `b` and `a`.
abbrev pub spliced : Links → ℕ → ℕ → ℕ → Links
spliced s b n a = record {
  prev = update (update s.prev n b) a n;
  next = update (update s.next n a) b n;
}

-- The node that `anchor` follows is read twice, with the same result.
pub insert_before-spliced :
    (s : Links) (anchor n : ℕ)
    → anchor ≢ null
    → n ≢ null
    → n ≢ anchor
    → s.prev anchor ≢ null
    → insert_before anchor n s ≡ some (spliced s (s.prev anchor) n anchor)
unfolding insert_before get_prev set_prev set_next
insert_before-spliced s anchor n ha hn ne hp = ground arith

pub insert_after-spliced :
    (s : Links) (anchor n : ℕ)
    → anchor ≢ null
    → n ≢ null
    → n ≢ anchor
    → s.next anchor ≢ null
    → insert_after anchor n s ≡ some (spliced s anchor n (s.next anchor))
unfolding insert_after get_next set_prev set_next
insert_after-spliced s anchor n ha hn ne hp = ground arith

module _ (s : Links) (p : ℕ) (ys zs : List ℕ) (q n : ℕ) (new : Out n ((p ∷ ys) ++ (zs ++ (q ∷ []))))
    (h : Halves p ys zs q) where
  spliced-Chain :
      Chain s p (ys ++ zs) q → Chain (spliced s (last p ys) n (first zs q)) p (ys ++ (n ∷ zs)) q
  spliced-Chain c =
      let b = last p ys in
      let a = first zs q in
      let t = spliced s b n a in
      let parts = cut s p ys zs q c in
      let o = Out-append n (p ∷ ys) (zs ++ (q ∷ [])) new in
      let behind : Out n zs = (Out-append n zs (q ∷ []) o.1).0 in
      let apart : Out b zs = (Out-append b zs (q ∷ []) (last-Out h)).0 in
      let n-b : n ≢ b = ne-last n p ys o.0 in
      let n-a : n ≢ a = ne-first n zs q o.1 in
      join t p ys n zs q
        (retarget s t p ys a n h.front (updates-elsewhere s.next n a b n (p ∷ ys) o.0)
          (updates-Out s.prev n b a n ys o.0.1 (first-Out h).1) (ground arith) (ground arith)
          parts.0)
        (restart s t b n zs q (updates-Out s.next n a b n zs behind apart)
          (updates-Out s.prev n b a n (rest zs q) (Out-rest n zs q o.1) (first-Out-rest h))
          (ground arith) (ground arith) parts.1)

Out-around :
    (n : ℕ) (l : Ends) (ys zs : List ℕ)
    → Out n (around l (ys ++ zs))
    → Out n ((l.head ∷ ys) ++ (zs ++ (l.tail ∷ [])))
Out-around n l ys zs o = (o.0, subst (Out n) (append_assoc ys zs (l.tail ∷ [])) o.1)

-- A list keeps its form as a new node comes between `ys` and `zs`.
pub spliced-Holds :
    (s : Links) (l : Ends) (ys zs : List ℕ) (n : ℕ)
    → Holds s l (ys ++ zs)
    → Out n (around l (ys ++ zs))
    → n ≢ null
    → Holds (spliced s (last l.head ys) n (first zs l.tail)) l (ys ++ (n ∷ zs))
spliced-Holds s l ys zs n h new nn =
    let tail = zs ++ (l.tail ∷ []) in
    let open_up : (ys ++ zs) ++ (l.tail ∷ []) ≡ ys ++ tail = append_assoc ys zs (l.tail ∷ []) in
    let close : (ys ++ (n ∷ zs)) ++ (l.tail ∷ []) ≡ ys ++ (n ∷ tail) =
      append_assoc ys (n ∷ zs) (l.tail ∷ []) in
    let d : Distinct ((l.head ∷ ys) ++ tail) =
      subst (λ r. Distinct (l.head ∷ r)) open_up h.distinct in
    let v =
      All-append (λ a. a ≢ null) (l.head ∷ ys) tail
        (subst (λ r. All (λ a. a ≢ null) (l.head ∷ r)) open_up h.non_null) in
    let o = Out-append n (l.head ∷ ys) tail (Out-around n l ys zs new) in
    let halves = Distinct-Halves l.head ys zs l.tail d in
    record {
      chain = spliced-Chain s l.head ys zs l.tail n (Out-around n l ys zs new) halves h.chain;
      distinct =
          subst (λ r. Distinct (l.head ∷ r)) (sym close)
            (append-Distinct (l.head ∷ ys) (n ∷ tail) halves.front (o.1, halves.back)
              (widen (l.head ∷ ys) tail o.0 halves.apart));
      non_null =
          subst (λ r. All (λ a. a ≢ null) (l.head ∷ r)) (sym close)
            (append-All (λ a. a ≢ null) (l.head ∷ ys) (n ∷ tail) v.0 (nn, v.1));
    }
  where
    widen : (xs ws : List ℕ) → Out n xs → All (λ x. Out x ws) xs → All (λ x. Out x (n ∷ ws)) xs
    widen [] ws o a = tt
    widen (x ∷ xs) ws o a = (((λ e. o.0 (sym e)), a.0), widen xs ws o.1 a.1)

-- No link changes but those of the new node and of its neighbours.
pub spliced-same :
    (s : Links) (l : Ends) (ys zs : List ℕ) (n c : ℕ)
    → Out c (n ∷ around l (ys ++ zs))
    → let t = spliced s (last l.head ys) n (first zs l.tail) in
      (t.prev c ≡ s.prev c) × (t.next c ≡ s.next c)
spliced-same s l ys zs n c out =
    let o = Out-append c (l.head ∷ ys) (zs ++ (l.tail ∷ [])) (Out-around c l ys zs out.1) in
    let c-b : c ≢ last l.head ys = ne-last c l.head ys o.0 in
    let c-a : c ≢ first zs l.tail = ne-first c zs l.tail o.1 in
    let c-n : c ≢ n = out.0 in (ground arith, ground arith)

-- `list_init` of two distinct nodes that are not `NULL` returns an empty list, whatever the links
-- were.
pub init-Holds :
    (s : Links) (l : Ends)
    → l.head ≢ null
    → l.tail ≢ null
    → l.head ≢ l.tail
    → (t : Links) × (init l s ≡ some t) × Holds t l []
unfolding init set_prev set_next
init-Holds s l hh ht ne = (
  record {
    prev = update (update s.prev l.head null) l.tail l.head;
    next = update (update s.next l.tail null) l.head l.tail;
  },
  ground arith,
  record {
    chain = (ground arith, ground arith);
    distinct = ((ne, tt), (tt, tt));
    non_null = (hh, (ht, tt));
  },
)
