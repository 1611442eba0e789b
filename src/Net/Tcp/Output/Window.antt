-- ===== src/Net/Tcp/Output/Window.antt =====
-- What `tcp_output` sends, and how far.
use onix.Base.{
  ℕ, ◌+◌, ◌-◌, ◌%◌, ◌^◌, ◌≤◌, ◌<◌, true, false, some, List, [], ◌∷◌, ◌++◌, append-nil, append_assoc,
  leb, ◌==◌, ◌≡◌, refl, sym, ap, ◌∙◌, arith, dec_lt, ◌⊎◌, inl, inr,
}
use onix.Base.Word.{add_u32}
use onix.Net.Tcp.{Pcb, Seg, Frame, seg_size, seq_gt}
use onix.Net.Tcp.Output.{seg_end, send_seg, output_loop, tcp_output_seg, header_of, note_sent}
use onix.Net.Tcp.Places.{EndAfter, after_place, bounded}
use onix.Net.Tcp.Stream.{Contiguous, slice, slice_join, slice_same}

-- The bytes of frames, one behind the other.
pub sent_bytes : List Frame → List ℕ
sent_bytes [] = []
sent_bytes (f ∷ fs) = f.bytes ++ sent_bytes fs

pub sent_bytes-snoc :
    (fs : List Frame) (f : Frame) → sent_bytes (fs ++ (f ∷ [])) ≡ sent_bytes fs ++ f.bytes
unfolding sent_bytes
sent_bytes-snoc [] f = append-nil f.bytes
sent_bytes-snoc (g ∷ fs) f =
    ap (λ t. g.bytes ++ t) (sent_bytes-snoc fs f)
    ∙ sym (append_assoc g.bytes (sent_bytes fs) f.bytes)

-- No other part of the system holds a segment.
unfoldable pub Single : List Seg → Type 0
Single [] = Unit
Single (g ∷ gs) = (g.count ≡ 1) × Single gs

send_seg-bytes :
    (route : ℕ → ℕ) (g : Seg) (p : Pcb)
    → ((send_seg route g p).snd_una ≡ p.snd_una)
      × (sent_bytes (send_seg route g p).sent ≡ sent_bytes p.sent ++ g.bytes)
unfolding send_seg tcp_output_seg
send_seg-bytes route g p =
    (refl, sent_bytes-snoc p.sent (header_of g.seqno g.flags g.bytes (note_sent (seg_end g) p)))

-- What a run of the loop leaves: it sent the stream from one place to another, all of it within the
-- window or nothing, and every segment that stays would end behind the window.
pub record Progress (stream : ℕ → ℕ) (from mid to una wnd : ℕ) (p q : Pcb) : Type 0 where
  pub stays : Contiguous stream mid q.unsent to
  pub forward : from ≤ mid
  pub within : (mid ≡ from) ⊎ (mid ≤ una + wnd)
  pub blocked : EndAfter (una + wnd) mid q.unsent
  pub carried : sent_bytes q.sent ≡ sent_bytes p.sent ++ slice stream from (mid - from)

carry :
    (stream : ℕ → ℕ) (from size mid : ℕ) (xs ys zs : List ℕ)
    → from + size ≤ mid
    → ys ≡ slice stream from size
    → zs ≡ (xs ++ ys) ++ slice stream (from + size) (mid - (from + size))
    → zs ≡ xs ++ slice stream from (mid - from)
carry stream from size mid xs ys zs h e k =
    k
    ∙ (append_assoc xs ys (slice stream (from + size) (mid - (from + size)))
        ∙ ap (λ t. xs ++ t)
            (ap (λ t. t ++ slice stream (from + size) (mid - (from + size)))
                (e ∙ slice_same stream from from size (from + size - from) refl (omega arith))
              ∙ slice_join stream from (from + size) mid (omega arith) h))

-- The loop stops at once.
stop :
    (stream : ℕ → ℕ) (from to una wnd : ℕ) (gs : List Seg) (p : Pcb)
    → Contiguous stream from gs to
    → EndAfter (una + wnd) from gs
    → Progress stream from from to una wnd p (record p { unsent = gs })
unfolding slice
stop stream from to una wnd gs p c e = record {
  stays = c;
  forward = omega arith;
  within = inl refl;
  blocked = e;
  carried =
      sym (append-nil (sent_bytes p.sent))
      ∙ ap (λ t. sent_bytes p.sent ++ t)
          (slice_same stream from from 0 (from - from) refl (omega arith));
}

-- A segment goes out, and then the others.
go_on :
    (route : ℕ → ℕ) (stream : ℕ → ℕ) (from mid to una wnd : ℕ) (g : Seg) (p q : Pcb)
    → g.bytes ≡ slice stream from (seg_size g)
    → from + seg_size g ≤ una + wnd
    → Progress stream (from + seg_size g) mid to una wnd (send_seg route g p) q
    → Progress stream from mid to una wnd p q
go_on route stream from mid to una wnd g p q b h r = record {
  stays = r.stays;
  forward = omega (arith, r.forward);
  within = elim r.within [ inl e ↦ inr (omega (arith, e, h)) | inr k ↦ inr k ];
  blocked = r.blocked;
  carried =
      carry stream from (seg_size g) mid (sent_bytes p.sent) g.bytes (sent_bytes q.sent) r.forward b
        (r.carried
          ∙ ap (λ t. t ++ slice stream (from + seg_size g) (mid - (from + seg_size g)))
              (send_seg-bytes route g p).1);
}

all_behind :
    (stream : ℕ → ℕ) (place from : ℕ) (gs : List Seg) (to : ℕ)
    → Contiguous stream from gs to
    → place < from
    → EndAfter place from gs
unfolding Contiguous EndAfter
all_behind stream place from [] to c h = tt
all_behind stream place from (g ∷ gs) to c h =
    (omega arith, all_behind stream place (from + seg_size g) gs to c.2 (omega arith))

output_loop_step :
    (route : ℕ → ℕ) (wnd : ℕ) (g : Seg) (gs : List Seg) (p q : Pcb)
    → seq_gt (seg_end g) (add_u32 p.snd_una wnd) ≡ false
    → (g.count == 1) ≡ true
    → output_loop route wnd gs (send_seg route g p) ≡ some q
    → output_loop route wnd (g ∷ gs) p ≡ some q
unfolding output_loop
output_loop_step route wnd g gs p q fits one run = rw (fits, one) run

-- The loop over queued segments that carry the stream from one place to another, none of them held
-- elsewhere, and within 2 ^ 30 places of the first unacknowledged byte: it returns, and sends a front part
-- of the stream that is queued.
pub output_loop-Progress :
    (route : ℕ → ℕ) (stream : ℕ → ℕ) (from to una wnd : ℕ) (gs : List Seg) (p : Pcb)
    → Contiguous stream from gs to
    → Single gs
    → p.snd_una ≡ una % 2 ^ 32
    → una ≤ from
    → to < una + 2 ^ 30
    → wnd < 2 ^ 30
    → (q : Pcb) × (mid : ℕ) × (output_loop route wnd gs p ≡ some q)
      × Progress stream from mid to una wnd p q
unfolding output_loop Contiguous Single EndAfter
output_loop-Progress route stream from to una wnd [] p c h e le lt w =
    (record p { unsent = [] }, from, refl, stop stream from to una wnd [] p c tt)
output_loop-Progress route stream from to una wnd (g ∷ gs) p c h e le lt w =
    let b = bounded stream (from + seg_size g) gs to c.2 in
    let m : add_u32 p.snd_una wnd ≡ (una + wnd) % 2 ^ 32 = omega (arith, e) in
    let k = after_place from (una + wnd) g c.0 (omega (arith, b)) (omega arith) in
    elim (dec_lt (una + wnd) (from + seg_size g)) [
      | yes d ↦
          let e1 : leb (from + seg_size g) (una + wnd) ≡ false = ground arith in
          let after = all_behind stream (una + wnd) (from + seg_size g) gs to c.2 d in
          (
            record p { unsent = g ∷ gs },
            from,
            rw (m, k, e1) refl,
            stop stream from to una wnd (g ∷ gs) p c (d, after),
          )
      | no d ↦
          let e1 : leb (from + seg_size g) (una + wnd) ≡ true = ground arith in
          let una' = (send_seg-bytes route g p).0 ∙ e in
          let one : (g.count == 1) ≡ true = ground (arith, h.0) in
          let (q, mid, run, r) =
            output_loop-Progress route stream (from + seg_size g) to una wnd gs (send_seg route g p)
              c.2 h.1 una' (omega arith) lt w in
          (
            q,
            mid,
            output_loop_step route wnd g gs p q (rw (m, k, e1) refl) one run,
            go_on route stream from mid to una wnd g p q c.1 (omega arith) r,
          )
    ]
