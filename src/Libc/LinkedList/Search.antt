-- ===== src/Libc/LinkedList/Search.antt =====
-- The walks along a list: `list_search`, `list_size`, `list_empty`.
use onix.Base.{
  ℕ, zero, suc, ◌+◌, ◌%◌, ◌^◌, ◌<◌, ◌≡◌, ◌≢◌, ◌∙◌, refl, Bool, true, false, some, List, [], ◌∷◌,
  ◌==◌, if◌then◌else◌, arith, length,
}
use onix.Libc.LinkedList.{Links, Ends, null, get_next, search_from, search, empty, size_from, size}
use onix.Libc.LinkedList.Chain.{
  Out, All, Chain, Holds, first, All-append, Distinct-append, next-first, Out-sym, All-map,
}

abbrev pub mem : ℕ → List ℕ → Bool
mem node [] = false
mem node (x ∷ xs) = if x == node then true else mem node xs

-- The walks start at the first node.
pub get_first :
    {s : Links} {l : Ends} {xs : List ℕ} → Holds s l xs → get_next l.head s ≡ some (first xs l.tail)
unfolding get_next
get_first {s} {l} {xs} h = ground (arith, next-first s l.head xs l.tail h.chain, h.non_null.0)

module _ (s : Links) (l : Ends) where
  search_from-mem :
      (fuel : ℕ) (node p : ℕ) (xs : List ℕ)
      → Chain s p xs l.tail
      → Out l.tail xs
      → All (λ a. a ≢ null) xs
      → length xs < fuel
      → search_from fuel l (first xs l.tail) node s ≡ some (mem node xs)
  unfolding search_from get_next
  search_from-mem zero node p xs c o v h = absurd (omega arith)
  search_from-mem (suc fuel) node p [] c o v h = ground arith
  search_from-mem (suc fuel) node p (x ∷ xs) c o v h = ground (
    arith,
    next-first s x xs l.tail c.2,
    search_from-mem fuel node x xs c.2 o.1 v.1 (omega arith),
  )

  size_from-length :
      (fuel n p : ℕ) (xs : List ℕ)
      → Chain s p xs l.tail
      → Out l.tail xs
      → All (λ a. a ≢ null) xs
      → length xs < fuel
      → n < 2 ^ 32
      → size_from fuel l (first xs l.tail) n s ≡ some ((n + length xs) % 2 ^ 32)
  unfolding size_from get_next
  size_from-length zero n p xs c o v h k = absurd (omega arith)
  size_from-length (suc fuel) n p [] c o v h k = ground arith
  size_from-length (suc fuel) n p (x ∷ xs) c o v h k =
      let sum : ((n + 1) % 2 ^ 32 + length xs) % 2 ^ 32 ≡ (n + suc (length xs)) % 2 ^ 32 =
        omega arith in
      ground (
        arith,
        next-first s x xs l.tail c.2,
        sum,
        size_from-length fuel ((n + 1) % 2 ^ 32) x xs c.2 o.1 v.1 (omega arith) (omega arith),
      )

-- The end of a list is none of its nodes, and no node is `NULL`.
pub tail-Out : {s : Links} {l : Ends} {xs : List ℕ} → Holds s l xs → Out l.tail xs
tail-Out {l} {xs} h = Out-sym l.tail xs (
    All-map (λ x. Out x (l.tail ∷ [])) (λ x. x ≢ l.tail) xs (λ x o. o.0)
      (Distinct-append xs (l.tail ∷ []) h.distinct.1).2)

pub nodes-non_null : {s : Links} {l : Ends} {xs : List ℕ} → Holds s l xs → All (λ a. a ≢ null) xs
nodes-non_null {l} {xs} h = (All-append (λ a. a ≢ null) xs (l.tail ∷ []) h.non_null.1).0

-- On a list of fewer nodes than the fuel, `list_search` returns whether the node is one of them,
-- `list_size` their number modulo 2 ^ 32, and `list_empty` whether there are none.
pub walks_lem :
    {s : Links} {l : Ends} {xs : List ℕ} (fuel node : ℕ)
    → Holds s l xs
    → length xs < fuel
    → (search fuel l node s ≡ some (mem node xs))
      × (size fuel l s ≡ some (length xs % 2 ^ 32))
      × (empty l s ≡ some (length xs == 0))
unfolding search size empty
walks_lem {s} {l} {xs} fuel node h k = (
  rw (get_first h)
      (search_from-mem s l fuel node l.head xs h.chain (tail-Out h) (nodes-non_null h) k),
  rw (get_first h) (
      size_from-length s l fuel 0 l.head xs h.chain (tail-Out h) (nodes-non_null h) k (omega arith)
      ∙ ground arith),
  rw (get_first h) (go xs (tail-Out h)),
)
  where
    go : (ys : List ℕ) → Out l.tail ys → some (first ys l.tail == l.tail) ≡ some (length ys == 0)
    go [] o = ground arith
    go (y ∷ ys) o = ground arith

pub mem-Out : (node : ℕ) (xs : List ℕ) → Out node xs → mem node xs ≡ false
mem-Out node [] o = refl
mem-Out node (x ∷ xs) o = ground (arith, mem-Out node xs o.1)
