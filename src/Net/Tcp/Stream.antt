-- ===== src/Net/Tcp/Stream.antt =====
-- Stretches of a stream of bytes, and the segments that carry them.
use onix.Base.{
  ℕ, zero, suc, ◌+◌, ◌-◌, ◌%◌, ◌^◌, ◌≤◌, ◌≡◌, true, List, [], ◌∷◌, ◌++◌, append-nil, append_assoc,
  length, take, drop, min, refl, sym, ap, ap₂, ◌∙◌, arith,
}
use onix.Base.Word.{leb_int}
use onix.Net.Tcp.{Seg, seg_size, insert_seg}

-- `n` bytes of a stream from a place on.
unfoldable pub slice : (ℕ → ℕ) → ℕ → ℕ → List ℕ
slice stream from zero = []
slice stream from (suc n) = stream from ∷ slice stream (from + 1) n

pub length-slice : (stream : ℕ → ℕ) (from n : ℕ) → length (slice stream from n) ≡ n
unfolding slice
length-slice stream from zero = refl
length-slice stream from (suc n) = ap suc (length-slice stream (from + 1) n)

pub slice_same :
    (stream : ℕ → ℕ) (a b m n : ℕ) → a ≡ b → m ≡ n → slice stream a m ≡ slice stream b n
slice_same stream a b m n h k = ap₂ (slice stream) h k

pub drop-slice :
    (stream : ℕ → ℕ) (k from n : ℕ) → drop k (slice stream from n) ≡ slice stream (from + k) (n - k)
unfolding slice
drop-slice stream zero from n =
    slice_same stream from (from + 0) n (n - 0) (omega arith) (omega arith)
drop-slice stream (suc k) from zero =
    slice_same stream (from + suc k) (from + suc k) 0 (0 - suc k) refl (omega arith)
drop-slice stream (suc k) from (suc n) =
    drop-slice stream k (from + 1) n
    ∙ slice_same stream (from + 1 + k) (from + suc k) (n - k) (suc n - suc k) (omega arith)
        (omega arith)

pub take-slice :
    (stream : ℕ → ℕ) (k from n : ℕ) → take k (slice stream from n) ≡ slice stream from (min k n)
unfolding slice
take-slice stream zero from n = slice_same stream from from 0 (min 0 n) refl (omega arith)
take-slice stream (suc k) from zero =
    slice_same stream from from 0 (min (suc k) 0) refl (omega arith)
take-slice stream (suc k) from (suc n) =
    ap (λ t. stream from ∷ t) (take-slice stream k (from + 1) n)
    ∙ slice_same stream from from (suc (min k n)) (min (suc k) (suc n)) refl (omega arith)

pub slice-append :
    (stream : ℕ → ℕ) (from m n : ℕ)
    → slice stream from m ++ slice stream (from + m) n ≡ slice stream from (m + n)
unfolding slice
slice-append stream from zero n =
    slice_same stream (from + 0) from n (0 + n) (omega arith) (omega arith)
slice-append stream from (suc m) n =
    ap (λ t. stream from ∷ (slice stream (from + 1) m ++ t))
      (slice_same stream (from + suc m) (from + 1 + m) n n (omega arith) refl)
    ∙ (ap (λ t. stream from ∷ t) (slice-append stream (from + 1) m n)
        ∙ slice_same stream from from (suc (m + n)) (suc m + n) refl (omega arith))

-- Two stretches that meet.
pub slice_join :
    (stream : ℕ → ℕ) (a b c : ℕ)
    → a ≤ b
    → b ≤ c
    → slice stream a (b - a) ++ slice stream b (c - b) ≡ slice stream a (c - a)
slice_join stream a b c h k =
    ap (λ t. slice stream a (b - a) ++ t)
      (slice_same stream b (a + (b - a)) (c - b) (c - b) (omega arith) refl)
    ∙ (slice-append stream a (b - a) (c - b)
        ∙ slice_same stream a a (b - a + (c - b)) (c - a) refl (omega arith))

-- The bytes of segments, one behind the other.
unfoldable pub bytes_of : List Seg → List ℕ
bytes_of [] = []
bytes_of (g ∷ gs) = g.bytes ++ bytes_of gs

-- No segment's number, as an `int`, is above this one.
unfoldable pub NoneAbove : ℕ → List Seg → Type 0
NoneAbove seqno [] = Unit
NoneAbove seqno (g ∷ gs) = (leb_int g.seqno seqno ≡ true) × NoneAbove seqno gs

pub bytes_of-insert_seg :
    (g : Seg) (gs : List Seg)
    → NoneAbove g.seqno gs
    → bytes_of (insert_seg g gs) ≡ bytes_of gs ++ g.bytes
unfolding bytes_of NoneAbove insert_seg
bytes_of-insert_seg g [] a = append-nil g.bytes
bytes_of-insert_seg g (h ∷ gs) a = rw a.0 (
    ap (λ t. h.bytes ++ t) (bytes_of-insert_seg g gs a.1)
    ∙ sym (append_assoc h.bytes (bytes_of gs) g.bytes))

-- Segments that carry the stream from one place to another, each from where the last one ended.
unfoldable pub Contiguous : (ℕ → ℕ) → ℕ → List Seg → ℕ → Type 0
Contiguous stream from [] to = from ≡ to
Contiguous stream from (g ∷ gs) to =
    (g.seqno ≡ from % 2 ^ 32)
    × (g.bytes ≡ slice stream from (seg_size g))
    × Contiguous stream (from + seg_size g) gs to
