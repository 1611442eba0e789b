-- ===== src/Net/Tcp/Socket/Receive.antt =====
-- Reading less than the first segment holds.
use onix.Base.{
  ℕ, ◌-◌, ◌<◌, true, some, List, ◌∷◌, ◌++◌, length, ltb, ◌==◌, ◌≡◌, refl, sym, ap, ◌∙◌, arith,
  Bool-cases, inl, inr,
}
use onix.Net.Iovec.{Iovec, iovec_write}
use onix.Net.Tcp.{Pcb, Seg, seg_size}
use onix.Net.Tcp.Socket.{recv_loop, note_length, tcp_recvmsg}
use onix.Net.Tcp.Stream.{bytes_of}

note_length-bytes : (g : Seg) → (note_length g).bytes ≡ g.bytes
note_length-bytes g = elim (Bool-cases (g.total == 0)) [ inl e ↦ rw e refl | inr e ↦ rw e refl ]

-- A round that fills the room leaves the segment as it is.
recv_short :
    (iovlen left wnd : ℕ) (g : Seg) (gs : List Seg) (iov iov' : List Iovec)
    → ltb left (seg_size (note_length g)) ≡ true
    → iovec_write iov iovlen (note_length g).bytes left ≡ some (left, iov')
    → left - left ≡ 0
    → recv_loop iovlen left (g ∷ gs) wnd iov ≡ some (0, note_length g ∷ gs, wnd, iov')
unfolding recv_loop
recv_short iovlen left wnd g gs iov iov' more w zero_left =
    let same : (left == left) ≡ true = ground arith in
    rw (recv_loop, more, w, more, same, zero_left, more) refl

-- The room for a read is filled with the first bytes of the first segment, which has more. Then
-- `tcp_recvmsg` returns the size of the room, and the segments still hold all the bytes that they held, so
-- that the next read starts with the same bytes again.
pub tcp_recvmsg-repeats :
    (iovlen size : ℕ) (iov iov' : List Iovec) (g : Seg) (gs : List Seg) (p : Pcb)
    → p.recved ≡ g ∷ gs
    → size < seg_size g
    → iovec_write iov iovlen g.bytes size ≡ some (size, iov')
    → (q : Pcb) × (tcp_recvmsg iovlen size iov p ≡ some (size, iov', q))
      × (bytes_of q.recved ≡ bytes_of p.recved)
unfolding tcp_recvmsg bytes_of
tcp_recvmsg-repeats iovlen size iov iov' g gs p e lt w =
    let h = note_length g in
    let hb = note_length-bytes g in
    let more : ltb size (seg_size h) ≡ true = ground (arith, ap length hb, lt) in
    let w' : iovec_write iov iovlen h.bytes size ≡ some (size, iov') =
      ap (λ b. iovec_write iov iovlen b size) hb ∙ w in
    let loop : recv_loop iovlen size p.recved p.rcv_wnd iov ≡ some (0, h ∷ gs, p.rcv_wnd, iov') =
      ap (λ l. recv_loop iovlen size l p.rcv_wnd iov) e
      ∙ recv_short iovlen size p.rcv_wnd g gs iov iov' more w' (omega arith) in
    let all : size - 0 ≡ size = omega arith in
    (
      record p { recved = h ∷ gs },
      rw (tcp_recvmsg, loop, all) refl,
      ap (λ b. b ++ bytes_of gs) hb ∙ sym (ap bytes_of e),
    )
