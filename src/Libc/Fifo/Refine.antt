-- ===== src/Libc/Fifo/Refine.antt =====
-- A valid ring behaves as the dropping queue of its contents.
use onix.Base.{
  ℕ, ℕ_discrete, Option, zero, suc, ◌+◌, ◌-◌, ◌≤◌, ◌<◌, ◌≡◌, refl, ap, ap₂, ◌≢◌, true, none, some,
  List, [], ◌∷◌, ◌++◌, ◌==◌, ltb, leb, if◌then◌else◌, arith, length, get_or, set, get_or-set,
  get_elem?-get_or, length-set,
}
use onix.Libc.Fifo.{Fifo, full, empty, get, make_room, put}
use onix.Libc.Fifo.Inv.{IsValid, after, next-after}
use onix.Libc.Fifo.Queue

module _ (cells : ℕ) (buf : List ℕ) where
  -- The `n` bytes from place `p` on.
  abbrev pub run_from : ℕ → ℕ → List ℕ
  run_from p zero = []
  run_from p (suc n) = get_or buf p 0 ∷ run_from (after cells p) n

  length-run_from : (p n : ℕ) → length (run_from p n) ≡ n
  length-run_from p zero = refl
  length-run_from p (suc n) = ap suc (length-run_from (after cells p) n)

-- How many bytes a ring holds.
abbrev pub count : Fifo → ℕ
count f = if leb f.tail f.head then f.head - f.tail else f.head + f.length - f.tail

-- The bytes that a ring holds, oldest first.
abbrev pub contents : Fifo → List ℕ
contents f = run_from f.length f.buf f.tail (count f)

pub length-contents : (f : Fifo) → length (contents f) ≡ count f
length-contents f = length-run_from f.length f.buf f.tail (count f)

-- The place `n` cells on from `p`.
abbrev ahead : ℕ → ℕ → ℕ → ℕ
ahead cells p n = if ltb (p + n) cells then p + n else p + n - cells

-- Writing the cell behind a run of fewer than `cells` bytes makes the run longer by that byte.
run_from-set :
    (cells : ℕ) (buf : List ℕ) (x p n i : ℕ)
    → cells ≤ length buf
    → p < cells
    → n < cells
    → i ≡ ahead cells p n
    → run_from cells (set buf i x) p (suc n) ≡ run_from cells buf p n ++ (x ∷ [])
run_from-set cells buf x p zero i hs hp hn e =
    let here : i ≡ p = ground arith in
    rw here (ap (λ (b : ℕ). b ∷ []) (ground (arith, get_or-set buf p p x 0)))
run_from-set cells buf x p (suc n) i hs hp hn e =
    ap₂ ◌∷◌ (ground (arith, get_or-set buf i p x 0))
      (run_from-set cells buf x (after cells p) n i hs (ground arith) (omega arith) (ground arith))

-- `fifo_empty` says whether the queue is empty, `fifo_full` whether it has come to its bound.
pub empty_full_lem :
    {f : Fifo}
    → IsValid f
    → (empty f ≡ (length (contents f) == 0)) × (full f ≡ (length (contents f) == f.length - 1))
unfolding empty full
empty_full_lem {f} v = (
  ground (arith, length-contents f),
  ground (arith, length-contents f, next-after f.head v v.head_in),
)

run_from-cons :
    (cells : ℕ) (buf : List ℕ) (p n : ℕ)
    → n ≢ 0
    → run_from cells buf p n ≡ get_or buf p 0 ∷ run_from cells buf (after cells p) (n - 1)
run_from-cons cells buf p zero h = absurd (h refl)
run_from-cons cells buf p (suc n) h =
    ap (λ k. get_or buf p 0 ∷ run_from cells buf (after cells p) k) (omega arith)

count-store :
    {f : Fifo}
    → IsValid f
    → after f.length f.head ≢ f.tail
    → (if leb f.tail (after f.length f.head)
        then after f.length f.head - f.tail
        else after f.length f.head + f.length - f.tail)
      ≡ suc (count f)
count-store v room = ground arith

get-some :
    {f : Fifo}
    → IsValid f
    → f.head ≢ f.tail
    → get f ≡ some (get_or f.buf f.tail 0, record f { tail = after f.length f.tail })
unfolding get empty
get-some {f} v ne = ground (arith, get_elem?-get_or f.buf f.tail 0, next-after f.tail v v.tail_in)

-- The ring without its oldest byte, and the ring with one more.
abbrev drop : Fifo → Fifo
drop f = record f { tail = after f.length f.tail }

abbrev store : Fifo → ℕ → Fifo
store f x = record f { buf = set f.buf f.head x; head = after f.length f.head }

store_lem :
    {f : Fifo} (x : ℕ)
    → IsValid f
    → after f.length f.head ≢ f.tail
    → IsValid (store f x) × (contents (store f x) ≡ contents f ++ (x ∷ []))
store_lem {f} x v room = (
  record {
    storage = omega (arith, length-set f.buf f.head x, v.storage);
    roomy = v.roomy;
    word = v.word;
    head_in = ground arith;
    tail_in = v.tail_in;
  },
  rw (count-store v room) (
      run_from-set f.length f.buf x f.tail (count f) f.head v.storage v.tail_in (ground arith)
        (ground arith)),
)

count-drop : {f : Fifo} → IsValid f → f.head ≢ f.tail → count (drop f) ≡ count f - 1
count-drop v ne = ground arith

drop_lem :
    {f : Fifo}
    → IsValid f
    → f.head ≢ f.tail
    → IsValid (drop f) × (contents f ≡ get_or f.buf f.tail 0 ∷ contents (drop f))
drop_lem {f} v ne = (
  record {
    storage = v.storage;
    roomy = v.roomy;
    word = v.word;
    head_in = v.head_in;
    tail_in = ground arith;
  },
  rw (count-drop v ne) (run_from-cons f.length f.buf f.tail (count f) (ground arith)),
)

-- The ring's answer to `fifo_get` beside the queue's.
abbrev pub Agrees : ℕ → Option (ℕ × Fifo) → Option (ℕ × List ℕ) → Type 0
Agrees n none none = Unit
Agrees n none (some r) = ⊥
Agrees n (some r) none = ⊥
Agrees n (some (b, g)) (some (c, q)) = IsValid g × (g.length ≡ n) × (b ≡ c) × (contents g ≡ q)

get-none : (f : Fifo) → f.head ≡ f.tail → get f ≡ none
unfolding get empty
get-none f e = ground arith

-- `fifo_get` on a valid ring stops exactly when its queue is empty. Else it returns the oldest byte
-- and leaves a valid ring of the same length that holds the rest.
pub get_refines : {f : Fifo} → IsValid f → Agrees f.length (get f) (Queue.get (contents f))
unfolding Queue.get
get_refines {f} v = elim (ℕ_discrete f.head f.tail) [
  | yes e ↦ let none_left : count f ≡ 0 = ground arith in rw (get-none f e, none_left) tt
  | no ne ↦ rw (get-some v ne, (drop_lem v ne).1) ((drop_lem v ne).0, refl, refl, refl)
]

put-room :
    {f : Fifo} (x : ℕ) → IsValid f → after f.length f.head ≢ f.tail → put f x ≡ some (store f x)
unfolding put make_room full
put-room {f} x v room = ground (arith, next-after f.head v v.head_in)

put-full :
    {f : Fifo} (x : ℕ)
    → IsValid f
    → after f.length f.head ≡ f.tail
    → put f x ≡ some (store (drop f) x)
unfolding put make_room full
put-full {f} x v e =
    let ne : f.head ≢ f.tail = ground arith in
    ground (
      arith,
      get-some v ne,
      next-after f.head v v.head_in,
      next-after {f = drop f} f.head (drop_lem v ne).0 v.head_in,
    )

-- `fifo_put` on a valid ring always returns: it leaves a valid ring of the same length, with the
-- byte behind what the ring held, less the oldest byte if the ring was full.
pub put_refines :
    {f : Fifo} (x : ℕ)
    → IsValid f
    → (g : Fifo) × (put f x ≡ some g)
      × IsValid g
      × (g.length ≡ f.length)
      × (contents g ≡ Queue.put (f.length - 1) (contents f) x)
unfolding Queue.put
put_refines {f} x v = elim (ℕ_discrete (after f.length f.head) f.tail) [
  | yes e ↦
      let ne : f.head ≢ f.tail = ground arith in
      let d = drop_lem v ne in
      let s = store_lem {f = drop f} x d.0 (ground arith) in
      let at_bound : (length (contents f) == f.length - 1) ≡ true =
        ground (arith, length-contents f) in
      (store (drop f) x, put-full x v e, s.0, refl, rw (s.1, at_bound, d.1))
  | no ne ↦ (
    store f x,
    put-room x v ne,
    (store_lem x v ne).0,
    refl,
    ground (arith, store_lem x v ne, length-contents f),
  )
]
