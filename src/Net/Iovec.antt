-- ===== src/Net/Iovec.antt =====
-- src/net/iovec.c: an array of buffers, read and written as one sequence of bytes. The bytes of a
-- message are split over the buffers in their order.
pub mod Payload
pub mod Read
pub mod Write
mod Tests
use onix.Base.{
  ℕ, zero, suc, ◌+◌, ◌-◌, ◌%◌, ◌^◌, Bool, true, false, Option, none, some, List, [], ◌∷◌, ◌++◌,
  take, drop, ◌==◌, ltb, if◌then◌else◌,
}
use onix.Libc.Memory.{memcpy}

-- `iovec_t`. A pointer is a place in a buffer: `base` has the bytes of the buffer from it on, and
-- `passed` those before it.
pub record Iovec : Type 0 where
  pub passed : List ℕ
  pub base : List ℕ
  pub size : ℕ

-- `iov->base += len; iov->size -= len`
unfoldable pub advance : Iovec → ℕ → Iovec
advance v len = record v {
  passed = v.passed ++ take len v.base;
  base = drop len v.base;
  size = v.size - len;
}

-- `iovec_size`; `none` is a read past the end of the array.
pub iovec_size : List Iovec → ℕ → Option ℕ
iovec_size iov zero = some 0
iovec_size [] (suc iovlen) = none
iovec_size (v ∷ iov) (suc iovlen) = elim (iovec_size iov iovlen) [
  | none ↦ none
  | some size ↦ some ((v.size + size) % 2 ^ 32)
]

-- `len` of a round of the loops.
unfoldable pub round_len : ℕ → Iovec → ℕ
round_len count v = if ltb count v.size then count else v.size

-- `iovec_read`: the bytes read, the array, and the bytes of `buf`.
pub iovec_read : List Iovec → ℕ → List ℕ → ℕ → Option (ℕ × List Iovec × List ℕ)
iovec_read iov zero buf count = some (0, iov, buf)
iovec_read iov (suc iovlen) buf zero = some (0, iov, buf)
iovec_read [] (suc iovlen) buf (suc count) = none
iovec_read (v ∷ iov) (suc iovlen) buf (suc count) =
    let len = round_len (suc count) v in
    elim (v.size == 0) [
      | true ↦ elim (iovec_read iov iovlen buf (suc count)) [
        | none ↦ none
        | some r ↦ some (r.0, v ∷ r.1, r.2)
      ]
      | false ↦ elim (memcpy buf v.base len) [
        | none ↦ none
        | some filled ↦ elim (iovec_read iov iovlen (drop len filled) (suc count - len)) [
          | none ↦ none
          | some r ↦ some ((len + r.0) % 2 ^ 32, advance v len ∷ r.1, take len filled ++ r.2)
        ]
      ]
    ]

-- `iovec_write`: the bytes written, and the array.
unfoldable pub iovec_write : List Iovec → ℕ → List ℕ → ℕ → Option (ℕ × List Iovec)
iovec_write iov zero buf count = some (0, iov)
iovec_write iov (suc iovlen) buf zero = some (0, iov)
iovec_write [] (suc iovlen) buf (suc count) = none
iovec_write (v ∷ iov) (suc iovlen) buf (suc count) =
    let len = round_len (suc count) v in
    elim (v.size == 0) [
      | true ↦ elim (iovec_write iov iovlen buf (suc count)) [
        | none ↦ none
        | some r ↦ some (r.0, v ∷ r.1)
      ]
      | false ↦ elim (memcpy v.base buf len) [
        | none ↦ none
        | some filled ↦ elim (iovec_write iov iovlen (drop len buf) (suc count - len)) [
          | none ↦ none
          | some r ↦ some ((len + r.0) % 2 ^ 32, advance (record v { base = filled }) len ∷ r.1)
        ]
      ]
    ]
