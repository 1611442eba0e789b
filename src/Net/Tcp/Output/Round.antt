-- ===== src/Net/Tcp/Output/Round.antt =====
-- A round of `tcp_enqueue`: bytes that go into a segment.
use onix.Base.{
  ℕ, ◌+◌, ◌-◌, ◌/◌, ◌%◌, ◌^◌, ◌≤◌, ◌<◌, true, Option, none, some, List, [], ◌∷◌, ◌++◌, length, take,
  drop, ◌≡◌, refl, sym, ap, ap₂, ◌∙◌, arith, Bool-cases, Option-cases, ◌⊎◌, inl, inr, subst, min,
}
use onix.Base.Word.{add_u32, leb_int}
use onix.Net.Tcp.{Pcb, Seg, seg_size, insert_seg}
use onix.Net.Tcp.Output.{buffered, bytes_left, filled, keeps, fill_len, enqueue_round}
use onix.Net.Tcp.Places.{bounded}
use onix.Net.Tcp.Stream.{
  Contiguous, slice, slice_join, slice_same, drop-slice, take-slice, length-slice, NoneAbove,
}

-- No segment is longer than this.
unfoldable pub Small : ℕ → List Seg → Type 0
Small mss [] = Unit
Small mss (g ∷ gs) = (seg_size g ≤ mss) × Small mss gs

-- The segment that is being filled carries the stream between two places, and has room.
unfoldable pub Filling : (ℕ → ℕ) → ℕ → ℕ → ℕ → Option Seg → Type 0
Filling stream mid to mss none = mid ≡ to
Filling stream mid to mss (some g) =
    (g.seqno ≡ mid % 2 ^ 32) × (g.bytes ≡ slice stream mid (to - mid)) × (to < mid + mss)

-- The block has the stream from one place to another: queued up to `mid`, and from there in the segment
-- that is being filled. No segment is longer than `snd_mss`.
pub record Queued (stream : ℕ → ℕ) (from mid to : ℕ) (p : Pcb) : Type 0 where
  pub in_order : Contiguous stream from p.unsent mid
  pub small : Small p.snd_mss p.unsent
  pub next : p.snd_nbb ≡ to % 2 ^ 32
  pub ordered : mid ≤ to
  pub filling : Filling stream mid to p.snd_mss p.snd_buf

pub buffered-Filling :
    (stream : ℕ → ℕ) (from mid to flags : ℕ) (p : Pcb)
    → 1 ≤ p.snd_mss
    → Queued stream from mid to p
    → Filling stream mid to p.snd_mss (some (buffered flags p))
unfolding Filling slice
buffered-Filling stream from mid to flags p h q = elim (Option-cases p.snd_buf) [
  | inl e ↦
      let m : mid ≡ to = subst (λ b. Filling stream mid to p.snd_mss b) e q.filling in
      rw e (
        q.next ∙ omega (arith, m),
        slice_same stream mid mid 0 (to - mid) refl (omega (arith, m)),
        omega (arith, m),
      )
  | inr (g, e) ↦ rw e (subst (λ b. Filling stream mid to p.snd_mss b) e q.filling)
]

-- The stretch of places in which numbers, as `int`s, grow with the place.
int_order :
    (a b from to : ℕ)
    → from ≤ a
    → a ≤ b
    → b ≤ to
    → (from + 2 ^ 31) / 2 ^ 32 ≡ (to + 2 ^ 31) / 2 ^ 32
    → leb_int (a % 2 ^ 32) (b % 2 ^ 32) ≡ true
int_order a b from to h k l e = ground arith

none_above :
    (stream : ℕ → ℕ) (from low mid to : ℕ) (gs : List Seg)
    → Contiguous stream low gs mid
    → from ≤ low
    → mid ≤ to
    → (from + 2 ^ 31) / 2 ^ 32 ≡ (to + 2 ^ 31) / 2 ^ 32
    → NoneAbove (mid % 2 ^ 32) gs
unfolding Contiguous NoneAbove
none_above stream from low mid to [] c h k e = tt
none_above stream from low mid to (g ∷ gs) c h k e =
    let b = bounded stream (low + seg_size g) gs mid c.2 in
    (
      rw c.0 (int_order low mid from to h (omega (arith, b)) k e),
      none_above stream from (low + seg_size g) mid to gs c.2 (omega arith) k e,
    )

-- A segment goes behind all others.
append :
    (stream : ℕ → ℕ) (mss from mid : ℕ) (g : Seg) (gs : List Seg)
    → Contiguous stream from gs mid
    → Small mss gs
    → NoneAbove g.seqno gs
    → g.seqno ≡ mid % 2 ^ 32
    → g.bytes ≡ slice stream mid (seg_size g)
    → seg_size g ≤ mss
    → Contiguous stream from (insert_seg g gs) (mid + seg_size g) × Small mss (insert_seg g gs)
unfolding Contiguous Small NoneAbove insert_seg
append stream mss from mid g [] c s a e b l = ((rw c e, rw c b, omega (arith, c)), (l, tt))
append stream mss from mid g (h ∷ gs) c s a e b l =
    let r = append stream mss (from + seg_size h) mid g gs c.2 s.1 a.1 e b l in
    rw a.0 ((c.0, c.1, r.0), (s.0, r.1))

-- What a round takes, where the bytes to queue are `len` bytes of the stream.
pub record Round (stream : ℕ → ℕ) (mid to len flags : ℕ) (ptr : List ℕ) (p : Pcb) (k : ℕ)
    : Type 0 where
  pub taken : fill_len (length ptr) p (buffered flags p) ≡ k
  pub fits : k ≤ len
  pub room : to + k ≤ mid + p.snd_mss
  pub some_taken : (len ≡ 0) ⊎ (0 < k)
  pub left : bytes_left flags ptr p ≡ slice stream (to + k) (len - k)
  pub number : (filled flags ptr p).seqno ≡ mid % 2 ^ 32
  pub bytes : (filled flags ptr p).bytes ≡ slice stream mid (to + k - mid)

pub round_lem :
    (stream : ℕ → ℕ) (mid to len flags : ℕ) (ptr : List ℕ) (p : Pcb)
    → mid ≤ to
    → Filling stream mid to p.snd_mss (some (buffered flags p))
    → ptr ≡ slice stream to len
    → Round stream mid to len flags ptr p (min len (p.snd_mss - (to - mid)))
unfolding Filling
round_lem stream mid to len flags ptr p h f e =
    let k = min len (p.snd_mss - (to - mid)) in
    let size : seg_size (buffered flags p) ≡ to - mid =
      ap length f.1 ∙ length-slice stream mid (to - mid) in
    let l : length ptr ≡ len = ap length e ∙ length-slice stream to len in
    let t : fill_len (length ptr) p (buffered flags p) ≡ k = rw (size, l) (ground arith) in
    record {
      taken = t;
      fits = omega arith;
      room = omega (arith, f.2, h);
      some_taken = ground (arith, f.2, h);
      left = rw t (ap (drop k) e ∙ drop-slice stream k to len);
      number = f.0;
      bytes =
          ap₂ (λ x y. x ++ take y ptr) f.1 t
          ∙ (ap (λ x. slice stream mid (to - mid) ++ take k x) e
              ∙ (ap (λ x. slice stream mid (to - mid) ++ x)
                    (take-slice stream k to len
                      ∙ slice_same stream to to (min k len) (to + k - to) refl (omega arith))
                  ∙ slice_join stream mid to (to + k) h (omega arith)));
    }

-- A round queues `k` more bytes of the stream.
pub enqueue_round-Queued :
    (stream : ℕ → ℕ) (from mid to len k size flags : ℕ) (ptr : List ℕ) (p : Pcb)
    → Queued stream from mid to p
    → Round stream mid to len flags ptr p k
    → (from + 2 ^ 31) / 2 ^ 32 ≡ (to + k + 2 ^ 31) / 2 ^ 32
    → (mid' : ℕ) × Queued stream from mid' (to + k) (enqueue_round size flags ptr p)
      × ((enqueue_round size flags ptr p).snd_mss ≡ p.snd_mss)
unfolding enqueue_round Filling
enqueue_round-Queued stream from mid to len k size flags ptr p q r same =
    let g = filled flags ptr p in
    let n : seg_size g ≡ to + k - mid =
      ap length r.bytes ∙ length-slice stream mid (to + k - mid) in
    let nxt : add_u32 p.snd_nbb (fill_len (length ptr) p (buffered flags p)) ≡ (to + k) % 2 ^ 32 =
      omega (arith, q.next, r.taken) in
    elim (Bool-cases (keeps size p g)) [
      | inl e ↦
          let small : seg_size g < p.snd_mss = ground (arith, e) in
          (
            mid,
            rw e (record {
              in_order = q.in_order;
              small = q.small;
              next = nxt;
              ordered = omega (arith, q.ordered);
              filling = (r.number, r.bytes, omega (arith, n, small, q.ordered));
            }),
            rw e refl,
          )
      | inr e ↦
          let above =
            none_above stream from from mid (to + k) p.unsent q.in_order (omega arith)
              (omega (arith, q.ordered)) same in
          let a =
            append stream p.snd_mss from mid g p.unsent q.in_order q.small
              (subst (λ x. NoneAbove x p.unsent) (sym r.number) above) r.number
              (r.bytes ∙ ap (slice stream mid) (sym n)) (omega (arith, n, r.room)) in
          let stop : mid + seg_size g ≡ to + k = omega (arith, n, q.ordered) in
          (
            to + k,
            rw e (record {
              in_order = subst (λ x. Contiguous stream from (insert_seg g p.unsent) x) stop a.0;
              small = a.1;
              next = nxt;
              ordered = omega arith;
              filling = refl;
            }),
            rw e refl,
          )
    ]
