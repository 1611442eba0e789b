-- ===== src/Net/Arp/Tests.antt =====
-- An entry for 192.168.0.2 that has no link address yet, with one packet waiting.
use onix.Base.{ℕ, ◌≡◌, refl, false, none, List, [], ◌∷◌, ◌++◌, map, arith}
use onix.Base.Int.{pos}
use onix.Net.Addr.{ip_addr_cmp, ip_addr_isany, ip_addr_maskcmp}
use onix.Net.Arp.{Arp, arp_input, ArpPacket, lookup_loop, ip_addr_isown, eth_broadcast}
use onix.Net.Arp.Order.{Unresolved, waiting, output_all, arp_input-in_order, Answers}

abbrev cache : Arp
cache = record {
  entry = λ a. record {
    hwaddr = eth_broadcast;
    ipaddr = 33597632;
    expires = 0;
    used = 1;
    query = 99;
    retry = 1;
    pbuf_list = 70 ∷ [];
    netif = 1;
  };
  entries = 5 ∷ [];
  netif = λ n. record {
    hwaddr = 2 ∷ 0 ∷ 0 ∷ 0 ∷ 0 ∷ 1 ∷ [];
    ipaddr = 16820416;
    netmask = 16777215;
    gateway = 0;
    loopback = false;
  };
  netifs = 1 ∷ [];
  fresh = 6;
  sent = [];
  received = [];
  dropped = [];
  asked = [];
}

abbrev its_address : List ℕ
its_address = 2 ∷ 0 ∷ 0 ∷ 0 ∷ 0 ∷ 9 ∷ []

cache-Unresolved : Unresolved 100 1 33597632 5 cache
unfolding lookup_loop ip_addr_cmp ip_addr_isany ip_addr_maskcmp ip_addr_isown
cache-Unresolved = record {
  found = refl;
  expired = omega arith;
  near = refl;
  back = refl;
  real = refl;
  wire = refl;
  other = refl;
}

abbrev its_reply : ArpPacket
its_reply = record {
  hwtype = 1;
  proto = 2048;
  hwlen = 6;
  protolen = 4;
  opcode = 2;
  hwsrc = its_address;
  ipsrc = 33597632;
  hwdst = 2 ∷ 0 ∷ 0 ∷ 0 ∷ 0 ∷ 1 ∷ [];
  ipdst = 16820416;
}

its_reply-Answers : Answers (cache.netif 1) 33597632 its_reply
unfolding ip_addr_cmp
its_reply-Answers = record {
  ethernet = refl;
  internet = refl;
  reply = refl;
  mine = refl;
  from = refl;
}

arp_input-in_order_example :
    (t : Arp) × ((output_all 100 1 (71 ∷ 72 ∷ []) 33597632 cache).sent ≡ [])
    × (arp_input 101 1 its_reply (output_all 100 1 (71 ∷ 72 ∷ []) 33597632 cache)
        ≡ (pos 0, none, t))
    × (t.sent ≡ [] ++ map (λ p. (p, its_address)) (waiting 5 cache ++ (71 ∷ 72 ∷ [])))
arp_input-in_order_example =
    arp_input-in_order 100 101 1 33597632 5 its_reply (71 ∷ 72 ∷ []) cache cache-Unresolved
      its_reply-Answers
