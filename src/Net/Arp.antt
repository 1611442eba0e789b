-- ===== src/Net/Arp.antt =====
-- src/net/arp.c: the cache of link addresses. A packet, an interface and an entry are their addresses; a
-- frame that goes out is at the end of `sent`, with the link address that it is for, and one that goes to
-- `netif_input` at the end of `received`. `now` is what `time` returns.
pub mod Order
mod Tests
use onix.Base.{
  ℕ, zero, suc, ◌+◌, ◌%◌, ◌^◌, Bool, true, false, not, Option, none, some, List, [], ◌∷◌, ◌++◌, map,
  ◌==◌, ltb, leb, if◌then◌else◌, ◌&&◌,
}
use onix.Base.Int.{ℤ, pos, neg}
use onix.Libc.Nodes.{without, insert_by, put}
use onix.Net.Addr.{ip_addr_cmp, ip_addr_maskcmp, ip_addr_isany}

abbrev pub arp_entry_timeout : ℕ
arp_entry_timeout = 600

abbrev pub arp_retry : ℕ
arp_retry = 5

abbrev pub arp_delay : ℕ
arp_delay = 2

-- `ETH_BROADCAST`
abbrev pub eth_broadcast : List ℕ
eth_broadcast = 255 ∷ 255 ∷ 255 ∷ 255 ∷ 255 ∷ 255 ∷ []

-- The fields of `netif_t` that the cache reads.
pub record Netif : Type 0 where
  pub hwaddr : List ℕ
  pub ipaddr : ℕ
  pub netmask : ℕ
  pub gateway : ℕ
  pub loopback : Bool

-- `arp_entry_t`
pub record ArpEntry : Type 0 where
  pub hwaddr : List ℕ
  pub ipaddr : ℕ
  pub expires : ℕ
  pub used : ℕ
  pub query : ℕ
  pub retry : ℕ
  pub pbuf_list : List ℕ
  pub netif : ℕ

-- The entries with `arp_entry_list`, the interfaces and those of this machine, the address that `kmalloc`
-- gives next, the packets that went out and their link addresses, the packets given up by `pbuf_put`, and
-- the requests that went out: the address asked for, and the link address.
pub record Arp : Type 0 where
  pub entry : ℕ → ArpEntry
  pub entries : List ℕ
  pub netif : ℕ → Netif
  pub netifs : List ℕ
  pub fresh : ℕ
  pub sent : List (ℕ × List ℕ)
  pub received : List (ℕ × List ℕ)
  pub dropped : List ℕ
  pub asked : List (ℕ × List ℕ)

-- The key that sorts the list: `list_insert_sort` reads `expires` as an `int`.
abbrev pub expires_key : (ℕ → ArpEntry) → ℕ → ℕ
expires_key entry a = ((entry a).expires + 2 ^ 31) % 2 ^ 32

-- `arp_entry_get`; `query` keeps what the memory had.
pub arp_entry_get : ℕ → ℕ → Arp → ℕ × Arp
arp_entry_get netif addr s =
    let e = record (s.entry s.fresh) {
      netif = netif;
      ipaddr = addr;
      hwaddr = eth_broadcast;
      expires = 0;
      retry = 0;
      used = 1;
      pbuf_list = [];
    } in
    let entry = put s.entry s.fresh e in
    (
      s.fresh,
      record s {
        entry = entry;
        entries = insert_by (expires_key entry) s.fresh s.entries;
        fresh = s.fresh + 1;
      },
    )

-- The nodes of a list in the order in which `list_popback` takes them.
pub popped : List ℕ → List ℕ
popped [] = []
popped (p ∷ ps) = popped ps ++ (p ∷ [])

-- `arp_entry_put`
pub arp_entry_put : ℕ → Arp → Arp
arp_entry_put a s = record s {
  dropped = s.dropped ++ popped (s.entry a).pbuf_list;
  entries = without a s.entries;
}

-- The loop of `arp_lookup`.
unfoldable pub lookup_loop : (ℕ → ArpEntry) → List ℕ → ℕ → ℕ → Option ℕ
lookup_loop entry [] netif query = none
lookup_loop entry (a ∷ rest) netif query =
    if ip_addr_cmp (entry a).ipaddr query && ((entry a).netif == netif)
    then some a
    else lookup_loop entry rest netif query

-- The address to ask for: the gateway's for an address outside the net.
abbrev pub next_hop : Netif → ℕ → ℕ
next_hop n addr = if ip_addr_maskcmp n.ipaddr addr n.netmask then addr else n.gateway

-- `arp_lookup`: the entry, and the cache.
pub arp_lookup : ℕ → ℕ → Arp → Option ℕ × Arp
arp_lookup netif addr s =
    let query = next_hop (s.netif netif) addr in
    if ip_addr_isany query then (none, s) else elim (lookup_loop s.entry s.entries netif query) [
      | some a ↦ (some a, s)
      | none ↦ let r = arp_entry_get netif query s in (some r.0, r.1)
    ]

-- The entry after a request.
abbrev pub note_query : ℕ → ArpEntry → ArpEntry
note_query now e = record e {
  query = now;
  retry = (e.retry + 1) % 2 ^ 32;
  hwaddr = if ltb 2 ((e.retry + 1) % 2 ^ 32) then eth_broadcast else e.hwaddr;
}

-- `arp_query`
pub arp_query : ℕ → ℕ → Arp → ℤ × Arp
arp_query now a s =
    let e = note_query now (s.entry a) in
    if ltb now (((s.entry a).query + arp_delay) % 2 ^ 32) then (neg 62, s) else (
      pos 0,
      record s { entry = put s.entry a e; asked = s.asked ++ ((e.ipaddr, e.hwaddr) ∷ []) },
    )

-- The entry that a reply fills, with its waiting packets gone.
abbrev pub answered : ℕ → List ℕ → ArpEntry → ArpEntry
answered now hwsrc e = record e {
  hwaddr = hwsrc;
  expires = (now + arp_entry_timeout) % 2 ^ 32;
  retry = 0;
  used = 0;
  pbuf_list = [];
}

-- `arp_refresh` from `arp_lookup` on: the waiting packets go out.
pub fill_entry : ℕ → List ℕ → ℕ → Arp → Arp
fill_entry now hwsrc a s =
    let entry = put s.entry a (answered now hwsrc (s.entry a)) in
    record s {
      entry = entry;
      entries = insert_by (expires_key entry) a (without a s.entries);
      sent = s.sent ++ map (λ p. (p, hwsrc)) (popped (s.entry a).pbuf_list);
    }

-- `arp_refresh` of a reply from an internet address and a link address.
pub arp_refresh : ℕ → ℕ → ℕ → List ℕ → Arp → ℤ × Arp
arp_refresh now netif ipsrc hwsrc s =
    let n = s.netif netif in
    let r = arp_lookup netif ipsrc s in
    if not (ip_addr_maskcmp ipsrc n.ipaddr n.netmask)
    then (neg 101, s)
    else elim r.0 [ none ↦ (neg 101, r.1) | some a ↦ (pos 0, fill_entry now hwsrc a r.1) ]

-- `arp_t`, with its numbers as `ntohs` gives them.
pub record ArpPacket : Type 0 where
  pub hwtype : ℕ
  pub proto : ℕ
  pub hwlen : ℕ
  pub protolen : ℕ
  pub opcode : ℕ
  pub hwsrc : List ℕ
  pub ipsrc : ℕ
  pub hwdst : List ℕ
  pub ipdst : ℕ

-- The packet that `arp_reply` makes of a request.
pub arp_reply : Netif → ArpPacket → ArpPacket
arp_reply n q = record q {
  opcode = 2;
  hwdst = q.hwsrc;
  ipdst = q.ipsrc;
  hwsrc = n.hwaddr;
  ipsrc = n.ipaddr;
}

-- `arp_input`: what it returns, the packet that `arp_reply` sends, and the cache.
pub arp_input : ℕ → ℕ → ArpPacket → Arp → ℤ × Option ArpPacket × Arp
arp_input now netif q s =
    let n = s.netif netif in
    let r = arp_refresh now netif q.ipsrc q.hwsrc s in
    if not (q.hwtype == 1)
    then (neg 102, none, s)
    else if not (q.proto == 2048)
    then (neg 102, none, s)
    else if not (ip_addr_cmp n.ipaddr q.ipdst)
    then (neg 102, none, s)
    else if q.opcode == 1
    then (pos 0, some (arp_reply n q), s)
    else if q.opcode == 2
    then (r.0, none, r.1)
    else (neg 102, none, s)

-- `ip_addr_isown`
unfoldable pub ip_addr_isown : (ℕ → Netif) → List ℕ → ℕ → Bool
ip_addr_isown netif [] addr = false
ip_addr_isown netif (n ∷ rest) addr =
    if ip_addr_cmp (netif n).ipaddr addr then true else ip_addr_isown netif rest addr

-- A packet waits at an entry, and a request goes out.
pub wait_at : ℕ → ℕ → ℕ → Arp → Arp
wait_at now a p s =
    let e = s.entry a in
    (arp_query now a
      (record s { entry = put s.entry a (record e { pbuf_list = p ∷ e.pbuf_list }) })).1

-- A packet goes out by an entry.
abbrev pub send_by : ℕ → ℕ → Arp → Arp
send_by a p s =
    let e = s.entry a in
    record s {
      entry = put s.entry a (record e { used = (e.used + 1) % 2 ^ 32 });
      sent = s.sent ++ ((p, e.hwaddr) ∷ []);
    }

-- `arp_eth_output`
pub arp_eth_output : ℕ → ℕ → ℕ → ℕ → Arp → ℤ × Arp
arp_eth_output now netif p addr s =
    let n = s.netif netif in
    let r = arp_lookup netif addr s in
    if n.loopback
    then (pos 0, record s { sent = s.sent ++ ((p, 0 ∷ 0 ∷ 0 ∷ 0 ∷ 0 ∷ 0 ∷ []) ∷ []) })
    else if ip_addr_isown s.netif s.netifs addr
    then (pos 0, record s { received = s.received ++ ((p, n.hwaddr) ∷ []) })
    else elim r.0 [
      | none ↦ (neg 101, r.1)
      | some a ↦
          (pos 0, if ltb now (r.1.entry a).expires then send_by a p r.1 else wait_at now a p r.1)
    ]

-- A round of `arp_thread` for one entry.
pub refresh_entry : ℕ → ℕ → Arp → Arp
refresh_entry now a s =
    let e = s.entry a in
    if ltb now e.expires
    then s
    else if ltb arp_retry e.retry
    then arp_entry_put a s
    else if e.used == 0
    then arp_entry_put a s
    else (arp_query now a s).1

-- A round of `arp_thread`, from the back of the list.
pub refresh_round : ℕ → List ℕ → Arp → Arp
refresh_round now [] s = s
refresh_round now (a ∷ rest) s = refresh_entry now a (refresh_round now rest s)
