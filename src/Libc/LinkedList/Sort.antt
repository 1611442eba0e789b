-- ===== src/Libc/LinkedList/Sort.antt =====
-- `list_insert_sort`: insertion before the first node with a greater key.
use onix.Base.{
  ℕ, zero, suc, ◌+◌, ◌<◌, ◌≡◌, ◌≢◌, sym, refl, some, List, [], ◌∷◌, ◌++◌, if◌then◌else◌, arith,
  length, length-append, ap, append_assoc, subst, Bool-cases, inl, inr,
}
use onix.Base.Int.{ℤ, leb_ℤ, ◌≤ℤ◌}
use onix.Libc.LinkedList.{Links, Ends, null, get_next, get_prev, find_anchor, insert_sort}
use onix.Libc.LinkedList.Chain.{
  Out, All, Chain, around, Holds, last, first, Out-append, All-append, append-All, All-map,
  All-last, All-first, next-first, prev-last, cut, ne-first,
}
use onix.Libc.LinkedList.Insert.{spliced, insert_before-spliced, spliced-Holds}
use onix.Libc.LinkedList.Search.{get_first, tail-Out, nodes-non_null}

module _ (key : ℕ → ℤ) where
  -- The nodes up to the first with a key greater than `k`, and the others.
  abbrev pub below : ℤ → List ℕ → List ℕ
  below k [] = []
  below k (x ∷ xs) = if leb_ℤ (key x) k then x ∷ below k xs else []

  abbrev pub above : ℤ → List ℕ → List ℕ
  above k [] = []
  above k (x ∷ xs) = if leb_ℤ (key x) k then above k xs else x ∷ xs

  below-append-above : (k : ℤ) (xs : List ℕ) → below k xs ++ above k xs ≡ xs
  below-append-above k [] = refl
  below-append-above k (x ∷ xs) = ground (arith, below-append-above k xs)

  -- Keys in ascending order.
  abbrev pub Sorted : List ℕ → Type 0
  Sorted [] = Unit
  Sorted (x ∷ xs) = All (λ y. key x ≤ℤ key y) xs × Sorted xs

  find_anchor-above :
      (s : Links) (l : Ends) (k : ℤ) (fuel p : ℕ) (xs : List ℕ)
      → Chain s p xs l.tail
      → Out l.tail xs
      → All (λ a. a ≢ null) xs
      → length xs < fuel
      → find_anchor fuel key l (first xs l.tail) k s ≡ some (first (above k xs) l.tail)
  unfolding find_anchor get_next
  find_anchor-above s l k zero p xs c o v h = absurd (omega arith)
  find_anchor-above s l k (suc fuel) p [] c o v h = ground arith
  find_anchor-above s l k (suc fuel) p (x ∷ xs) c o v h = ground (
    arith,
    next-first s x xs l.tail c.2,
    find_anchor-above s l k fuel x xs c.2 o.1 v.1 (omega arith),
  )

  All-below : (k : ℤ) (xs : List ℕ) → All (λ y. key y ≤ℤ k) (below k xs)
  All-below k [] = tt
  All-below k (x ∷ xs) = elim (Bool-cases (leb_ℤ (key x) k)) [
    | inl le ↦ rw le (ground arith, All-below k xs)
    | inr gt ↦ rw gt tt
  ]

  All-insert :
      (P : ℕ → Type 0) (k : ℤ) (n : ℕ) (xs : List ℕ)
      → P n
      → All P xs
      → All P (below k xs ++ (n ∷ above k xs))
  All-insert P k n xs h a =
      let parts =
        All-append P (below k xs) (above k xs) (subst (All P) (sym (below-append-above k xs)) a) in
      append-All P (below k xs) (n ∷ above k xs) parts.0 (h, parts.1)

  Sorted-insert :
      (n : ℕ) (xs : List ℕ) → Sorted xs → Sorted (below (key n) xs ++ (n ∷ above (key n) xs))
  Sorted-insert n [] h = (tt, tt)
  Sorted-insert n (x ∷ xs) h = elim (Bool-cases (leb_ℤ (key x) (key n))) [
    | inl le ↦
        rw le
          (All-insert (λ y. key x ≤ℤ key y) (key n) n xs (ground arith) h.0, Sorted-insert n xs h.1)
    | inr gt ↦
        let n-x : key n ≤ℤ key x = ground arith in
        rw gt (
          (n-x, All-map (λ y. key x ≤ℤ key y) (λ y. key n ≤ℤ key y) xs (λ y le. omega arith) h.0),
          h,
        )
  ]

  -- `list_insert_sort` of a new node whose links are `NULL` returns: the node comes behind the nodes
  -- before the first one with a greater key, and the others keep their order.
  pub insert_sort_lem :
      {s : Links} {l : Ends} {xs : List ℕ} (fuel n : ℕ)
      → Holds s l xs
      → length xs < fuel
      → Out n (around l xs)
      → n ≢ null
      → s.prev n ≡ null
      → s.next n ≡ null
      → (t : Links) × (insert_sort fuel key l n s ≡ some t)
        × Holds t l (below (key n) xs ++ (n ∷ above (key n) xs))
        × All (λ y. key y ≤ℤ key n) (below (key n) xs)
  unfolding insert_sort get_next get_prev
  insert_sort_lem {s} {l} {xs} fuel n h k new nn hp hn =
      let ys = below (key n) xs in
      let zs = above (key n) xs in
      let b = last l.head ys in
      let a = first zs l.tail in
      let same : ys ++ zs ≡ xs = below-append-above (key n) xs in
      let h' : Holds s l (ys ++ zs) = subst (Holds s l) (sym same) h in
      let new' : Out n (around l (ys ++ zs)) = subst (λ r. Out n (around l r)) (sym same) new in
      let halves = open_up l ys zs in
      let all =
        All-append (λ c. c ≢ null) (l.head ∷ ys) (zs ++ (l.tail ∷ []))
          (subst (λ r. All (λ c. c ≢ null) (l.head ∷ r)) halves h'.non_null) in
      let outs =
        Out-append n (l.head ∷ ys) (zs ++ (l.tail ∷ []))
          (subst (λ r. Out n (l.head ∷ r)) halves new') in
      let parts = cut s l.head ys zs l.tail h'.chain in
      let before : s.prev a ≡ b = prev-last s l.head ys a parts.0 in
      let a-null : a ≢ null = All-first (λ c. c ≢ null) zs l.tail all.1 in
      let b-null : b ≢ null = All-last (λ c. c ≢ null) l.head ys all.0 in
      let wrote =
        insert_before-spliced s a n a-null nn (ne-first n zs l.tail outs.1) (ground arith) in
      let found =
        find_anchor-above s l (key n) fuel l.head xs h.chain (tail-Out h) (nodes-non_null h) k in
      (
        spliced s b n a,
        rw (get_first h) (ground (arith, found, wrote)),
        spliced-Holds s l ys zs n h' new' nn,
        All-below (key n) xs,
      )
    where
      open_up :
          (l : Ends) (us ws : List ℕ) → (us ++ ws) ++ (l.tail ∷ []) ≡ us ++ (ws ++ (l.tail ∷ []))
      open_up l us ws = append_assoc us ws (l.tail ∷ [])

  -- A list in ascending order of keys is in ascending order after `list_insert_sort` of a new node
  -- whose links are `NULL`.
  pub insert_sort-Sorted :
      {s : Links} {l : Ends} {xs : List ℕ} (fuel n : ℕ)
      → Holds s l xs
      → Sorted xs
      → length xs < fuel
      → Out n (around l xs)
      → n ≢ null
      → s.prev n ≡ null
      → s.next n ≡ null
      → (t : Links) × (ys : List ℕ) × (insert_sort fuel key l n s ≡ some t)
        × Holds t l ys
        × (length ys ≡ length xs + 1)
        × Sorted ys
  insert_sort-Sorted {xs} fuel n h sorted k new nn hp hn =
      let (t, e, held, le) = insert_sort_lem fuel n h k new nn hp hn in
      (
        t,
        below (key n) xs ++ (n ∷ above (key n) xs),
        e,
        held,
        length-insert n xs,
        Sorted-insert n xs sorted,
      )
    where
      length-insert :
          (n : ℕ) (ws : List ℕ)
          → length (below (key n) ws ++ (n ∷ above (key n) ws)) ≡ length ws + 1
      length-insert n ws = omega (
        arith,
        length-append (below (key n) ws) (n ∷ above (key n) ws),
        length-append (below (key n) ws) (above (key n) ws),
        ap length (below-append-above (key n) ws),
      )
