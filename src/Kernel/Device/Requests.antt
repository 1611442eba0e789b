-- ===== src/Kernel/Device/Requests.antt =====
-- Requests of block devices: none is forgotten.
use onix.Base.{
  ℕ, ◌+◌, ◌%◌, ◌^◌, ◌≡◌, ◌≢◌, ◌<◌, refl, ap, ◌∙◌, true, not, Option, none, some, List, [], ◌∷◌,
  ◌++◌, ◌==◌, ltb, ◌&&◌, arith, ◌⊎◌, inl, inr,
}
use onix.Libc.LinkedList.Chain.{Out}
use onix.Libc.Nodes.{has, without, is_empty, insert_by}
use onix.Libc.Nodes.Laws.{put_self}
use onix.Kernel.Device.{
  Direction, Device, Devices, first, request_nextreq, finish_request, start_request, device_get,
  device_nr, dev_null, dev_block, request_key, as_block, requests_at, queued,
}
use onix.Kernel.Device.Elevator.{
  elevator, last_or, request_nextreq-elevator, elevator-has, without-split,
}

-- The request that is done stands once in the list of its device, among `xs` and `ys`, whose requests
-- all have a task that waits. Then `device_request` takes it out of the list and leaves the others, and
-- if there are others, it wakes the task of one of them: the list never waits for a request that
-- nobody works on.
pub finish_request-wakes :
    (k : Devices) (d req : ℕ) (xs ys : List ℕ)
    → (k.devices d).request_list ≡ xs ++ (req ∷ ys)
    → Out req xs
    → Out req ys
    → ((q : ℕ) → has q (xs ++ ys) ≡ true → (t : ℕ) × ((k.requests q).task ≡ some t))
    → ((((finish_request d req k).1).devices d).request_list ≡ xs ++ ys)
      × (((xs ≡ []) × (ys ≡ []))
          ⊎ ((q : ℕ) × (t : ℕ) × (has q (xs ++ ys) ≡ true)
              × ((k.requests q).task ≡ some t)
              × ((finish_request d req k).0 ≡ some t)))
unfolding finish_request
finish_request-wakes k d req xs ys list ox oy tasks =
    let self : (d == d) ≡ true = ground arith in
    let dev = k.devices d in
    let next : request_nextreq dev.request_list dev.direct req
        ≡ elevator dev.direct (last_or none xs) (first ys) =
      ap (λ l. request_nextreq l dev.direct req) list
      ∙ request_nextreq-elevator xs ys req dev.direct ox in
    (
      rw self (ap (without req) list ∙ without-split req xs ys ox oy),
      elim (elevator-has dev.direct xs ys) [
        | inl (a, b, c) ↦ inl (a, b)
        | inr (q, e, h) ↦
            let w = tasks q h in
            let found : (request_nextreq dev.request_list dev.direct req).0 ≡ some q =
              ap (λ (r : Option ℕ × Direction). r.0) next ∙ e in
            inr (q, w.0, h, w.1, rw (finish_request, found) (w.1))
      ],
    )

start_run :
    (k : Devices) (task dev count idx flags kind start : ℕ)
    → device_get dev k ≡ some dev
    → requests_at dev (as_block dev k) ≡ some dev
    → start_request task dev count idx flags kind start k
      ≡ some (
        dev,
        k.fresh,
        (queued dev task count ((idx + start) % 2 ^ 32) flags kind (as_block dev k)).0,
        (queued dev task count ((idx + start) % 2 ^ 32) flags kind (as_block dev k)).1,
      )
unfolding start_request
start_run k task dev count idx flags kind start here own = rw (start_request, here, own) refl

-- A request to a device that is not a part of another one waits just when the device has requests.
-- Whatever kind of device it was, it is a block device afterwards.
start_request-kind :
    (k : Devices) (task dev count idx flags kind start : ℕ)
    → dev < device_nr
    → (k.devices dev).kind ≢ dev_null
    → (k.devices dev).parent ≡ 0
    → (s : Devices) × (start_request task dev count idx flags kind start k
        ≡ some (dev, k.fresh, not (is_empty (k.devices dev).request_list), s))
      × ((s.devices dev).kind ≡ dev_block)
      × ((s.devices dev).request_list
          ≡ insert_by (request_key s.requests) k.fresh (k.devices dev).request_list)
unfolding start_request device_get requests_at
start_request-kind k task dev count idx flags kind start low known top =
    let self : (dev == dev) ≡ true = ground arith in
    let b = as_block dev k in
    let at_dev : b.devices dev ≡ record (k.devices dev) { kind = dev_block } =
      put_self k.devices dev (record (k.devices dev) { kind = dev_block }) in
    let here : device_get dev k ≡ some dev =
      let c : (ltb dev device_nr && not ((k.devices dev).kind == dev_null)) ≡ true = ground arith in
      rw (device_get, c) refl in
    let own : requests_at dev b ≡ some dev =
      let z : ((b.devices dev).parent == 0) ≡ true =
        ap (λ (x : Device). x.parent == 0) at_dev ∙ ground (arith, top) in
      rw (requests_at, z) refl in
    let q = queued dev task count ((idx + start) % 2 ^ 32) flags kind b in
    let waits : q.0 ≡ not (is_empty (k.devices dev).request_list) =
      ap (λ (x : Device). not (is_empty x.request_list)) at_dev in
    let now : q.1.devices dev ≡ record (b.devices dev) {
      request_list = insert_by (request_key q.1.requests) k.fresh (b.devices dev).request_list;
    } =
      put_self b.devices dev (record (b.devices dev) {
        request_list = insert_by (request_key q.1.requests) k.fresh (b.devices dev).request_list;
      }) in
    (
      q.1,
      start_run k task dev count idx flags kind start here own
          ∙ ap (λ w. some (dev, k.fresh, w, q.1)) waits,
      ap (λ (x : Device). x.kind) now ∙ ap (λ (x : Device). x.kind) at_dev,
      ap (λ (x : Device). x.request_list) now
          ∙ ap (λ (x : Device). insert_by (request_key q.1.requests) k.fresh x.request_list) at_dev,
    )
