-- ===== src/Net/Iovec/Read.antt =====
-- `iovec_read`: the bytes come out in the order of the buffers.
use onix.Base.{
  ℕ, zero, suc, ◌+◌, ◌-◌, ◌%◌, ◌^◌, ◌≤◌, ◌<◌, ◌≡◌, refl, sym, ◌∙◌, true, false, Option, some, List,
  [], ◌∷◌, ◌++◌, length, take, drop, ◌==◌, min, arith, length-append, length-drop, append_assoc,
  Bool-cases, dec_lt, inl, inr,
}
use onix.Libc.Memory.Laws.{memcpy-take}
use onix.Net.Iovec.{Iovec, advance, round_len, iovec_read}
use onix.Net.Iovec.Payload.{
  window, payload, Reach, drop-drop, length-window, Round, take-Round, drop-Round, take-filled,
  drop-filled,
}

-- What `iovec_read` leaves: it has read `r` bytes of the payload into `buf`.
abbrev pub Reads : List Iovec → List ℕ → ℕ → Option (ℕ × List Iovec × List ℕ) → Type 0
Reads iov buf r result =
    (rest : List Iovec) × (result ≡ some (r, rest, take r (payload iov) ++ drop r buf))
    × (payload rest ≡ drop r (payload iov))
    × Reach rest

read-done :
    (iov : List Iovec) (n : ℕ) (buf : List ℕ) → Reach iov → Reads iov buf 0 (iovec_read iov n buf 0)
unfolding iovec_read
read-done iov zero buf h = (iov, refl, refl, h)
read-done iov (suc n) buf h = (iov, refl, refl, h)

-- The bytes that a round copies.
copied-bytes :
    (v : Iovec) (iov : List Iovec) (buf : List ℕ) (len r : ℕ)
    → v.size ≤ length v.base
    → len ≤ v.size
    → Round v.size len r
    → take len (take len v.base ++ drop len buf) ++ (take r (payload iov) ++ drop r (drop len buf))
      ≡ take (len + r) (payload (v ∷ iov)) ++ drop (len + r) buf
copied-bytes v iov buf len r h l k =
    rw
      (
        take-filled len v.base buf (omega arith),
        take-Round v.size len r v.base (payload iov) h k,
        drop-drop r len buf,
      )
      (sym (append_assoc (take len v.base) (take r (payload iov)) (drop (len + r) buf)))

pub round_len-le :
    (count : ℕ) (v : Iovec) → (round_len count v ≤ count) × (round_len count v ≤ v.size)
unfolding round_len
round_len-le count v = (ground arith, ground arith)

read-Round :
    (v : Iovec) (iov : List Iovec) (buf : List ℕ) (count len r : ℕ)
    → round_len (suc count) v ≡ len
    → suc count < 2 ^ 32
    → Reach (v ∷ iov)
    → (v.size == 0) ≡ false
    → suc count ≤ length buf
    → Round v.size len r
    → r ≤ suc count - len
    → (len ≤ suc count) × (len ≤ v.size)
    → Reads iov (drop len buf) r (iovec_read iov (length iov) (drop len buf) (suc count - len))
    → Reads (v ∷ iov) buf (len + r) (iovec_read (v ∷ iov) (length (v ∷ iov)) buf (suc count))
unfolding iovec_read advance
read-Round v iov buf count len r e c h z b k s l rest =
    let fill = memcpy-take buf v.base len (omega arith) (omega arith) in
    let total : (len + r) % 2 ^ 32 ≡ len + r = omega arith in
    let run : iovec_read (v ∷ iov) (length (v ∷ iov)) buf (suc count)
        ≡ some (
          (len + r) % 2 ^ 32,
          advance v len ∷ rest.0,
          take len (take len v.base ++ drop len buf)
              ++ (take r (payload iov) ++ drop r (drop len buf)),
        ) =
      rw (iovec_read, z, e, fill, e, drop-filled len v.base buf (omega arith), rest.1, e) refl in
    (
      advance v len ∷ rest.0,
      run ∙ rw (total, copied-bytes v iov buf len r h.0 l.1 k) refl,
      rw rest.2 (sym (drop-Round v.size len r v.base (payload iov) h.0 k)),
      (omega (arith, length-drop len v.base), rest.3),
    )

-- A buffer without room is passed over.
read_empty :
    (v : Iovec) (iov : List Iovec) (buf : List ℕ) (count r : ℕ)
    → v.size ≡ 0
    → Reads iov buf r (iovec_read iov (length iov) buf (suc count))
    → Reads (v ∷ iov) buf r (iovec_read (v ∷ iov) (length (v ∷ iov)) buf (suc count))
unfolding iovec_read
read_empty v iov buf count r z rest =
    let none_left : window v ≡ [] = rw z refl in
    let test : (v.size == 0) ≡ true = ground arith in
    (
      v ∷ rest.0,
      rw (iovec_read, test, rest.1, none_left) refl,
      rw none_left rest.2,
      (omega arith, rest.3),
    )

pub round_len-Round :
    (count : ℕ) (v : Iovec) (r : ℕ)
    → r ≤ count - round_len count v
    → Round v.size (round_len count v) r
unfolding round_len
round_len-Round count v r h = elim (dec_lt count v.size) [
  | yes l ↦ inl (ground arith)
  | no l ↦ inr (ground arith)
]

-- The bytes that `count` asks for, counted by a round and those behind it.
pub count-round :
    (v : Iovec) (iov : List Iovec) (count : ℕ)
    → v.size ≤ length v.base
    → min count (length (payload (v ∷ iov)))
      ≡ round_len count v + min (count - round_len count v) (length (payload iov))
unfolding round_len
count-round v iov count h =
    ground (arith, length-append (window v) (payload iov), length-window v h)

-- From buffers that reach as far as their sizes say, `iovec_read` into a buffer of at least `count`
-- bytes reads as many bytes as are asked for and there are. It copies the first bytes of the payload,
-- leaves what lies behind them in `buf`, and moves the array on to the rest of the payload.
pub iovec_read-payload :
    (iov : List Iovec) (buf : List ℕ) (count : ℕ)
    → Reach iov
    → count < 2 ^ 32
    → count ≤ length buf
    → Reads iov buf (min count (length (payload iov))) (iovec_read iov (length iov) buf count)
unfolding iovec_read
iovec_read-payload [] buf count h c b =
    let e : min count 0 ≡ 0 = omega arith in rw e ([], refl, refl, h)
iovec_read-payload (v ∷ iov) buf zero h c b =
    let e : min 0 (length (payload (v ∷ iov))) ≡ 0 = omega arith in
    rw e (read-done (v ∷ iov) (suc (length iov)) buf h)
iovec_read-payload (v ∷ iov) buf (suc count) h c b = elim (Bool-cases (v.size == 0)) [
  | inl z ↦
      let size : v.size ≡ 0 = ground arith in
      let none_left : window v ≡ [] = rw size refl in
      let rest =
        read_empty v iov buf count (min (suc count) (length (payload iov))) size
          (iovec_read-payload iov buf (suc count) h.1 c b) in
      rw none_left (rw none_left at rest)
  | inr z ↦
      let len = round_len (suc count) v in
      let r = min (suc count - len) (length (payload iov)) in
      let l = round_len-le (suc count) v in
      let rest =
        iovec_read-payload iov (drop len buf) (suc count - len) h.1 (omega arith)
          (omega (arith, length-drop len buf)) in
      rw (count-round v iov (suc count) h.0) (
        read-Round v iov buf count len r refl c h z b
          (round_len-Round (suc count) v r (omega arith)) (omega arith) l rest)
]
