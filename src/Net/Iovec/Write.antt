-- ===== src/Net/Iovec/Write.antt =====
-- `iovec_write`: the bytes go to the buffers in their order.
use onix.Base.{
  ℕ, zero, suc, ◌+◌, ◌-◌, ◌%◌, ◌^◌, ◌≤◌, ◌<◌, ◌≡◌, refl, sym, ◌∙◌, true, false, Option, some, List,
  [], ◌∷◌, ◌++◌, length, take, drop, ◌==◌, min, arith, length-take, length-drop, take-append-drop,
  append_assoc, append-nil, Bool-cases, inl, inr,
}
use onix.Libc.Memory.Laws.{memcpy-take}
use onix.Net.Iovec.{Iovec, advance, round_len, iovec_write}
use onix.Net.Iovec.Read.{round_len-le, round_len-Round, count-round}
use onix.Net.Iovec.Payload.{
  window, payload, Reach, Round, rewind, rewind_self, drop-Round, drop-filled, take-append,
  take-all, take-split, drop-passed,
}

-- What `iovec_write` leaves: the first `w` bytes of the payload are those of `buf`, the others as they
-- were, and the array stands behind them.
abbrev pub Writes : List Iovec → List ℕ → ℕ → Option (ℕ × List Iovec) → Type 0
Writes iov buf w result =
    (rest : List Iovec) × (result ≡ some (w, rest))
    × (payload rest ≡ drop w (payload iov))
    × (payload (rewind iov rest) ≡ take w buf ++ drop w (payload iov))
    × Reach rest

write-done :
    (iov : List Iovec) (n : ℕ) (buf : List ℕ)
    → Reach iov
    → Writes iov buf 0 (iovec_write iov n buf 0)
unfolding iovec_write
write-done iov zero buf h = (iov, refl, refl, rewind_self iov, h)
write-done iov (suc n) buf h = (iov, refl, refl, rewind_self iov, h)

-- A buffer after a round: the new bytes, and what is left of the old ones.
window-filled :
    (size len : ℕ) (buf base : List ℕ)
    → len ≤ size
    → len ≤ length buf
    → take size (take len buf ++ drop len base) ≡ take len buf ++ take (size - len) (drop len base)
window-filled size len buf base h k =
    let e : length (take len buf) ≡ len = omega (arith, length-take len buf) in
    take-append size (take len buf) (drop len base)
    ∙ rw (take-all size (take len buf) (omega arith), e) refl

-- After a round there are no old bytes left in its buffer, or no new ones for those behind.
in-order :
    (size len r : ℕ) (buf old rest : List ℕ)
    → Round size len r
    → (take len buf ++ take (size - len) old) ++ (take r (drop len buf) ++ rest)
      ≡ take (len + r) buf ++ (take (size - len) old ++ rest)
in-order size len r buf old rest (inl a) =
    let e : len + r ≡ len = omega (arith, a.0) in
    rw (e, a.0) (append_assoc (take len buf) (take (size - len) old) rest)
in-order size len r buf old rest (inr a) =
    let e : size - size ≡ 0 = omega arith in
    rw (take-split len r buf, a, e)
      (rw (append-nil (take size buf))
        (sym (append_assoc (take size buf) (take r (drop size buf)) rest)))

write-Round :
    (v : Iovec) (iov : List Iovec) (buf : List ℕ) (count len r : ℕ)
    → round_len (suc count) v ≡ len
    → suc count < 2 ^ 32
    → Reach (v ∷ iov)
    → (v.size == 0) ≡ false
    → suc count ≤ length buf
    → Round v.size len r
    → r ≤ suc count - len
    → (len ≤ suc count) × (len ≤ v.size)
    → Writes iov (drop len buf) r (iovec_write iov (length iov) (drop len buf) (suc count - len))
    → Writes (v ∷ iov) buf (len + r) (iovec_write (v ∷ iov) (length (v ∷ iov)) buf (suc count))
unfolding iovec_write advance
write-Round v iov buf count len r e c h z b k s l rest =
    let fits : len ≤ length buf = omega arith in
    let filled = take len buf ++ drop len v.base in
    let fill = memcpy-take v.base buf len (omega arith) fits in
    let total : (len + r) % 2 ^ 32 ≡ len + r = omega arith in
    let over = drop-filled len buf v.base fits in
    let back : drop (length v.passed) (v.passed ++ take len filled ++ drop len filled) ≡ filled =
      rw (append_assoc v.passed (take len filled) (drop len filled), take-append-drop len filled)
        (drop-passed v.passed filled) in
    let old = drop-Round v.size len r v.base (payload iov) h.0 k in
    (
      advance (record v { base = filled }) len ∷ rest.0,
      rw (iovec_write, z, e, fill, e, rest.1, e, total) refl,
      rw (over, rest.2) (sym old),
      rw (back, window-filled v.size len buf v.base l.1 fits, rest.3, old)
          (in-order v.size len r buf (drop len v.base) (drop r (payload iov)) k),
      (rw over (omega (arith, length-drop len v.base)), rest.4),
    )

write_empty :
    (v : Iovec) (iov : List Iovec) (buf : List ℕ) (count w : ℕ)
    → v.size ≡ 0
    → Writes iov buf w (iovec_write iov (length iov) buf (suc count))
    → Writes (v ∷ iov) buf w (iovec_write (v ∷ iov) (length (v ∷ iov)) buf (suc count))
unfolding iovec_write
write_empty v iov buf count w z rest =
    let none_left : window v ≡ [] = rw z refl in
    let test : (v.size == 0) ≡ true = ground arith in
    (
      v ∷ rest.0,
      rw (iovec_write, test, rest.1) refl,
      rw none_left rest.2,
      rw (drop-passed v.passed v.base, none_left) rest.3,
      (omega arith, rest.4),
    )

-- To buffers that reach as far as their sizes say, `iovec_write` from a buffer of at least `count`
-- bytes writes as many bytes as are asked for and find room. The first bytes of the payload become
-- those of `buf`, the others stay, and the array moves on to the rest of the payload.
pub iovec_write-payload :
    (iov : List Iovec) (buf : List ℕ) (count : ℕ)
    → Reach iov
    → count < 2 ^ 32
    → count ≤ length buf
    → Writes iov buf (min count (length (payload iov))) (iovec_write iov (length iov) buf count)
unfolding iovec_write
iovec_write-payload [] buf count h c b =
    let e : min count 0 ≡ 0 = omega arith in rw e ([], refl, refl, refl, h)
iovec_write-payload (v ∷ iov) buf zero h c b =
    let e : min 0 (length (payload (v ∷ iov))) ≡ 0 = omega arith in
    rw e (write-done (v ∷ iov) (suc (length iov)) buf h)
iovec_write-payload (v ∷ iov) buf (suc count) h c b = elim (Bool-cases (v.size == 0)) [
  | inl z ↦
      let size : v.size ≡ 0 = ground arith in
      let none_left : window v ≡ [] = rw size refl in
      let rest =
        write_empty v iov buf count (min (suc count) (length (payload iov))) size
          (iovec_write-payload iov buf (suc count) h.1 c b) in
      rw none_left (rw none_left at rest)
  | inr z ↦
      let len = round_len (suc count) v in
      let r = min (suc count - len) (length (payload iov)) in
      let l = round_len-le (suc count) v in
      let rest =
        iovec_write-payload iov (drop len buf) (suc count - len) h.1 (omega arith)
          (omega (arith, length-drop len buf)) in
      rw (count-round v iov (suc count) h.0) (
        write-Round v iov buf count len r refl c h z b
          (round_len-Round (suc count) v r (omega arith)) (omega arith) l rest)
]
