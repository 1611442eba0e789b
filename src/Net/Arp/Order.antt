-- ===== src/Net/Arp/Order.antt =====
-- Packets that wait for a link address go out in their order.
use onix.Base.{
  ℕ, ◌+◌, ◌%◌, ◌^◌, ◌≤◌, true, false, none, some, List, [], ◌∷◌, ◌++◌, append-nil, append_assoc,
  map, ◌==◌, ltb, ◌≡◌, refl, sym, ap, ap₂, ◌∙◌, subst, arith, ℕ_discrete, Bool-cases, inl, inr,
}
use onix.Base.Int.{ℤ, pos}
use onix.Libc.Nodes.{put}
use onix.Libc.Nodes.Laws.{put_self}
use onix.Net.Addr.{ip_addr_cmp, ip_addr_maskcmp, ip_addr_isany}
use onix.Net.Arp.{
  Arp, ArpEntry, Netif, arp_delay, lookup_loop, arp_lookup, arp_query, note_query, fill_entry,
  arp_refresh, arp_input, ArpPacket, popped, wait_at, arp_eth_output, ip_addr_isown,
}

-- An entry is found by its addresses alone.
lookup_loop-put :
    (entry : ℕ → ArpEntry) (as' : List ℕ) (netif query a : ℕ) (e : ArpEntry)
    → e.ipaddr ≡ (entry a).ipaddr
    → e.netif ≡ (entry a).netif
    → lookup_loop (put entry a e) as' netif query ≡ lookup_loop entry as' netif query
unfolding lookup_loop
lookup_loop-put entry [] netif query a e h k = refl
lookup_loop-put entry (b ∷ rest) netif query a e h k =
    let r = lookup_loop-put entry rest netif query a e h k in
    elim (ℕ_discrete b a) [
      | yes q ↦ let t : (b == a) ≡ true = ground arith in rw (t, h, k, q, r) refl
      | no d ↦ let t : (b == a) ≡ false = ground arith in rw (t, r) refl
    ]

-- An entry of the cache that an address is looked up at, which has no link address now.
pub record Unresolved (now netif addr a : ℕ) (s : Arp) : Type 0 where
  pub found : lookup_loop s.entry s.entries netif addr ≡ some a
  pub expired : (s.entry a).expires ≤ now
  pub near : ip_addr_maskcmp (s.netif netif).ipaddr addr (s.netif netif).netmask ≡ true
  pub back : ip_addr_maskcmp addr (s.netif netif).ipaddr (s.netif netif).netmask ≡ true
  pub real : ip_addr_isany addr ≡ false
  pub wire : (s.netif netif).loopback ≡ false
  pub other : ip_addr_isown s.netif s.netifs addr ≡ false

-- The packets that wait at an entry, the first one first.
abbrev pub waiting : ℕ → Arp → List ℕ
waiting a s = popped (s.entry a).pbuf_list

lookup-Unresolved :
    (now netif addr a : ℕ) (s : Arp)
    → Unresolved now netif addr a s
    → arp_lookup netif addr s ≡ (some a, s)
unfolding arp_lookup
lookup-Unresolved now netif addr a s u = rw (u.near, u.real, u.found) refl

-- Other fields of the entry do not count, but for the time.
put-Unresolved :
    (now netif addr a : ℕ) (e : ArpEntry) (s : Arp)
    → Unresolved now netif addr a s
    → e.ipaddr ≡ (s.entry a).ipaddr
    → e.netif ≡ (s.entry a).netif
    → e.expires ≡ (s.entry a).expires
    → Unresolved now netif addr a (record s { entry = put s.entry a e })
put-Unresolved now netif addr a e s u h k l = record {
  found = lookup_loop-put s.entry s.entries netif addr a e h k ∙ u.found;
  expired = omega (arith, ap (λ (x : ArpEntry). x.expires) (put_self s.entry a e), l, u.expired);
  near = u.near;
  back = u.back;
  real = u.real;
  wire = u.wire;
  other = u.other;
}

arp_query-Unresolved :
    (now netif addr a : ℕ) (s : Arp)
    → Unresolved now netif addr a s
    → Unresolved now netif addr a (arp_query now a s).1
      × (((arp_query now a s).1.entry a).pbuf_list ≡ (s.entry a).pbuf_list)
      × ((arp_query now a s).1.sent ≡ s.sent)
unfolding arp_query
arp_query-Unresolved now netif addr a s u =
    let q = note_query now (s.entry a) in
    let v = put-Unresolved now netif addr a q s u refl refl refl in
    elim (Bool-cases (ltb now (((s.entry a).query + arp_delay) % 2 ^ 32))) [
      | inl t ↦ rw (arp_query, t) (u, refl, refl)
      | inr t ↦
          rw (arp_query, t)
            (
              record {
                found = v.found;
                expired = v.expired;
                near = v.near;
                back = v.back;
                real = v.real;
                wire = v.wire;
                other = v.other;
              },
              ap (λ (x : ArpEntry). x.pbuf_list) (put_self s.entry a q),
              refl,
            )
    ]

-- A packet that waits is the last one, nothing goes out, and the entry is still without an address.
wait_at-Unresolved :
    (now netif addr a p : ℕ) (s : Arp)
    → Unresolved now netif addr a s
    → Unresolved now netif addr a (wait_at now a p s)
      × (waiting a (wait_at now a p s) ≡ waiting a s ++ (p ∷ []))
      × ((wait_at now a p s).sent ≡ s.sent)
unfolding wait_at popped
wait_at-Unresolved now netif addr a p s u =
    let e = record (s.entry a) { pbuf_list = p ∷ (s.entry a).pbuf_list } in
    let t : Arp = record s { entry = put s.entry a e } in
    let q =
      arp_query-Unresolved now netif addr a t
        (put-Unresolved now netif addr a e s u refl refl refl) in
    (q.0, ap popped (q.1 ∙ ap (λ (x : ArpEntry). x.pbuf_list) (put_self s.entry a e)), q.2)

-- Packets for one address, handed over one after the other.
pub output_all : ℕ → ℕ → List ℕ → ℕ → Arp → Arp
output_all now netif [] addr s = s
output_all now netif (p ∷ ps) addr s =
    output_all now netif ps addr (arp_eth_output now netif p addr s).1

output_step :
    (now netif addr a p : ℕ) (s : Arp)
    → Unresolved now netif addr a s
    → arp_eth_output now netif p addr s ≡ (pos 0, wait_at now a p s)
unfolding arp_eth_output
output_step now netif addr a p s u =
    let late : ltb now (s.entry a).expires ≡ false = ground (arith, u.expired) in
    rw
      (
        u.wire,
        u.other,
        lookup-Unresolved now netif addr a s u,
        lookup-Unresolved now netif addr a s u,
        late,
      )
      refl

output_all-waiting :
    (now netif addr a : ℕ) (ps : List ℕ) (s : Arp)
    → Unresolved now netif addr a s
    → Unresolved now netif addr a (output_all now netif ps addr s)
      × (waiting a (output_all now netif ps addr s) ≡ waiting a s ++ ps)
      × ((output_all now netif ps addr s).sent ≡ s.sent)
unfolding output_all
output_all-waiting now netif addr a [] s u = (u, sym (append-nil (waiting a s)), refl)
output_all-waiting now netif addr a (p ∷ ps) s u =
    let w = wait_at-Unresolved now netif addr a p s u in
    let r = output_all-waiting now netif addr a ps (wait_at now a p s) w.0 in
    let e : output_all now netif (p ∷ ps) addr s
        ≡ output_all now netif ps addr (wait_at now a p s) =
      ap (λ (x : ℤ × Arp). output_all now netif ps addr x.1) (output_step now netif addr a p s u) in
    (
      subst (λ x. Unresolved now netif addr a x) (sym e) r.0,
      ap (λ (x : Arp). waiting a x) e
          ∙ (r.1 ∙ (ap (λ x. x ++ ps) w.1 ∙ append_assoc (waiting a s) (p ∷ []) ps)),
      ap (λ (x : Arp). x.sent) e ∙ (r.2 ∙ w.2),
    )

arp_query-netif : (now a : ℕ) (s : Arp) → (arp_query now a s).1.netif ≡ s.netif
unfolding arp_query
arp_query-netif now a s = elim (Bool-cases (ltb now (((s.entry a).query + arp_delay) % 2 ^ 32))) [
  | inl h ↦ rw (arp_query, h) refl
  | inr h ↦ rw (arp_query, h) refl
]

output_all-netif :
    (now netif addr a : ℕ) (ps : List ℕ) (s : Arp)
    → Unresolved now netif addr a s
    → (output_all now netif ps addr s).netif ≡ s.netif
unfolding output_all wait_at
output_all-netif now netif addr a [] s u = refl
output_all-netif now netif addr a (p ∷ ps) s u =
    let w = wait_at-Unresolved now netif addr a p s u in
    ap (λ (x : ℤ × Arp). (output_all now netif ps addr x.1).netif)
      (output_step now netif addr a p s u)
    ∙ (output_all-netif now netif addr a ps (wait_at now a p s) w.0
        ∙ arp_query-netif now a (record s {
          entry = put s.entry a (record (s.entry a) { pbuf_list = p ∷ (s.entry a).pbuf_list });
        }))

-- The packets that wait go out, first those that waited longest.
arp_refresh-in_order :
    (now later netif addr a : ℕ) (hwsrc : List ℕ) (ps : List ℕ) (s : Arp)
    → Unresolved now netif addr a s
    → ((output_all now netif ps addr s).sent ≡ s.sent)
      × ((arp_refresh later netif addr hwsrc (output_all now netif ps addr s)).0 ≡ pos 0)
      × ((arp_refresh later netif addr hwsrc (output_all now netif ps addr s)).1.sent
          ≡ s.sent ++ map (λ p. (p, hwsrc)) (waiting a s ++ ps))
unfolding arp_refresh fill_entry
arp_refresh-in_order now later netif addr a hwsrc ps s u =
    let t = output_all now netif ps addr s in
    let r = output_all-waiting now netif addr a ps s u in
    let m = r.0.back in
    let l = lookup-Unresolved now netif addr a t r.0 in
    (r.2, rw (m, l) refl, rw (m, l, l) (ap₂ (λ x y. x ++ map (λ p. (p, hwsrc)) y) r.2 r.1))

-- A reply from an internet address to an interface.
pub record Answers (n : Netif) (addr : ℕ) (q : ArpPacket) : Type 0 where
  pub ethernet : q.hwtype ≡ 1
  pub internet : q.proto ≡ 2048
  pub reply : q.opcode ≡ 2
  pub mine : ip_addr_cmp n.ipaddr q.ipdst ≡ true
  pub from : q.ipsrc ≡ addr

-- Packets for an address on the net of the interface, whose entry has no link address now, are handed
-- over one after the other, and none goes out. When a reply from this address to the interface comes in,
-- `arp_input` returns 0 and sends no reply, and first the packets that waited before and then all these
-- go out, in their order, to the link address of the reply.
pub arp_input-in_order :
    (now later netif addr a : ℕ) (q : ArpPacket) (ps : List ℕ) (s : Arp)
    → Unresolved now netif addr a s
    → Answers (s.netif netif) addr q
    → (t : Arp) × ((output_all now netif ps addr s).sent ≡ s.sent)
      × (arp_input later netif q (output_all now netif ps addr s) ≡ (pos 0, none, t))
      × (t.sent ≡ s.sent ++ map (λ p. (p, q.hwsrc)) (waiting a s ++ ps))
unfolding arp_input
arp_input-in_order now later netif addr a q ps s u h =
    let t = output_all now netif ps addr s in
    let r = arp_refresh-in_order now later netif addr a q.hwsrc ps s u in
    let n : ip_addr_cmp (t.netif netif).ipaddr q.ipdst ≡ true =
      ap (λ (x : ℕ → Netif). ip_addr_cmp (x netif).ipaddr q.ipdst)
        (output_all-netif now netif addr a ps s u)
      ∙ h.mine in
    (
      (arp_refresh later netif addr q.hwsrc t).1,
      r.0,
      rw (h.ethernet, h.internet, n, h.reply, h.from)
          (ap (λ x. (x, none, (arp_refresh later netif addr q.hwsrc t).1)) r.1),
      r.2,
    )
