-- ===== src/Kernel/Device/Tests.antt =====
-- Device 3 with the requests 7, 8 and 9, and device 5, which reads characters.
use onix.Base.{ℕ, ◌≡◌, refl, true, none, some, List, [], ◌∷◌, ◌==◌, if◌then◌else◌, arith, ◌⊎◌}
use onix.Libc.Nodes.{has}
use onix.Kernel.Device.{
  direct_down, Device, Devices, null_device, request_nextreq, finish_request, dev_block, first,
}
use onix.Kernel.Device.Elevator.{elevator, last_or, request_nextreq-elevator}
use onix.Kernel.Device.Requests.{finish_request-wakes}

abbrev disk : Device
disk = record (null_device 3) { kind = dev_block; request_list = 7 ∷ 8 ∷ 9 ∷ [] }

abbrev busy : Devices
busy = record {
  devices = λ i. if i == 3 then disk else record (null_device i) { kind = 1 };
  requests = λ q. record { dev = 3; kind = 0; idx = q; count = 1; flags = 0; task = some q };
  fresh = 10;
}

request_nextreq-elevator_example :
    request_nextreq (7 ∷ 8 ∷ 9 ∷ []) direct_down 7
    ≡ elevator direct_down (last_or none []) (first (8 ∷ 9 ∷ []))
request_nextreq-elevator_example = request_nextreq-elevator [] (8 ∷ 9 ∷ []) 7 direct_down tt

finish_request-wakes_example :
    ((((finish_request 3 8 busy).1).devices 3).request_list ≡ 7 ∷ 9 ∷ [])
    × ((◌≡◌ {A = List ℕ} (7 ∷ []) [] × ◌≡◌ {A = List ℕ} (9 ∷ []) [])
        ⊎ ((q : ℕ) × (t : ℕ) × (has q (7 ∷ 9 ∷ []) ≡ true)
            × ((busy.requests q).task ≡ some t)
            × ((finish_request 3 8 busy).0 ≡ some t)))
finish_request-wakes_example =
    finish_request-wakes busy 3 8 (7 ∷ []) (9 ∷ []) refl (λ e. absurd (omega (arith, e)), tt)
      (λ e. absurd (omega (arith, e)), tt) (λ q h. (q, refl))
