-- ===== src/Kernel/Device.antt =====
-- src/kernel/device.c: the table of devices and the requests of block devices. What a driver answers
-- is an argument. A request is its address.
pub mod Elevator
pub mod Requests
mod Tests
use onix.Base.{
  ℕ, zero, suc, ◌+◌, ◌%◌, ◌^◌, Bool, true, false, not, Option, none, some, List, [], ◌∷◌, ◌==◌, ltb,
  if◌then◌else◌, ◌&&◌,
}
use onix.Base.Int.{ℤ, pos, negsuc, neg}
use onix.Libc.Nodes.{is_empty, without, insert_by, put}
use onix.Kernel.Task.{first_place, is_none}

-- `DEVICE_NR`, `DEV_NULL`, `DEV_BLOCK` and `ENOSYS`
abbrev pub device_nr : ℕ
device_nr = 64

abbrev pub dev_null : ℕ
dev_null = 0

abbrev pub dev_block : ℕ
dev_block = 2

abbrev pub enosys : ℕ
enosys = 38

-- `DIRECT_UP` and `DIRECT_DOWN`
pub data Direction : Type 0 where
  direct_up : Direction
  direct_down : Direction

-- `request_t`, without its buffer.
pub record Request : Type 0 where
  pub dev : ℕ
  pub kind : ℕ
  pub idx : ℕ
  pub count : ℕ
  pub flags : ℕ
  pub task : Option ℕ

-- `device_t`, without its name; a handler is a number.
pub record Device : Type 0 where
  pub kind : ℕ
  pub subtype : ℕ
  pub dev : ℕ
  pub parent : ℕ
  pub ptr : ℕ
  pub request_list : List ℕ
  pub direct : Direction
  pub ioctl : Option ℕ
  pub read : Option ℕ
  pub write : Option ℕ

-- `devices`, all requests, and the address that `kmalloc` gives next.
pub record Devices : Type 0 where
  pub devices : ℕ → Device
  pub requests : ℕ → Request
  pub fresh : ℕ

-- The loop of `device_init`.
abbrev pub null_device : ℕ → Device
null_device i = record {
  kind = dev_null;
  subtype = dev_null;
  dev = i;
  parent = 0;
  ptr = 0;
  request_list = [];
  direct = direct_up;
  ioctl = none;
  read = none;
  write = none;
}

-- `device_init`
abbrev pub device_init : (ℕ → Request) → ℕ → Devices
device_init requests fresh = record { devices = null_device; requests = requests; fresh = fresh }

-- `get_null_device`; `none` is its panic.
pub get_null_device : Devices → Option ℕ
get_null_device k = first_place (λ i. (k.devices i).kind == dev_null) 63 1

-- `device_install`
pub device_install : ℕ → ℕ → ℕ → ℕ → Option ℕ → Option ℕ → Option ℕ → Devices → Option (ℕ × Devices)
device_install kind subtype ptr parent ioctl read write k = elim (get_null_device k) [
  | none ↦ none
  | some i ↦ some (
    (k.devices i).dev,
    record k {
      devices = put k.devices i (record (k.devices i) {
        ptr = ptr;
        parent = parent;
        kind = kind;
        subtype = subtype;
        ioctl = ioctl;
        read = read;
        write = write;
      });
    },
  )
]

-- The loop of `device_find`, with the number of devices of the subtype so far.
pub find_loop : (ℕ → Device) → ℕ → ℕ → ℕ → ℕ → ℕ → Option ℕ
find_loop devices subtype idx zero i nr = none
find_loop devices subtype idx (suc n) i nr =
    if (devices i).subtype == subtype
    then (if nr == idx then some i else find_loop devices subtype idx n (i + 1) (nr + 1))
    else find_loop devices subtype idx n (i + 1) nr

-- `device_find`
pub device_find : ℕ → ℕ → Devices → Option ℕ
device_find subtype idx k = find_loop k.devices subtype idx device_nr 0 0

-- `device_get`
pub device_get : ℕ → Devices → Option ℕ
device_get dev k =
    if ltb dev device_nr && not ((k.devices dev).kind == dev_null) then some dev else none

-- `device_ioctl`, `device_read` and `device_write`: the driver's answer, or `ENOSYS`.
pub device_call : (Device → Option ℕ) → (ℕ → ℕ → ℤ) → ℕ → Devices → Option ℤ
device_call handler run dev k = elim (device_get dev k) [
  | none ↦ none
  | some i ↦ elim (handler (k.devices i)) [
    | none ↦ some (neg enosys)
    | some h ↦ some (run h (k.devices i).ptr)
  ]
]

-- The next and the previous node of a node in a list; `none` is the tail or the head.
pub first : List ℕ → Option ℕ
first [] = none
first (x ∷ xs) = some x

pub after : ℕ → List ℕ → Option ℕ
after a [] = none
after a (x ∷ xs) = if x == a then first xs else after a xs

pub before : Option ℕ → ℕ → List ℕ → Option ℕ
before p a [] = none
before p a (x ∷ xs) = if x == a then p else before (some x) a xs

-- The start of `request_nextreq`: the direction, which turns at an end of the list.
pub turned : Direction → Option ℕ → Option ℕ → Direction
turned direct_up next prev = if is_none next then direct_down else direct_up
turned direct_down next prev = if is_none prev then direct_up else direct_down

pub toward : Direction → Option ℕ → Option ℕ → Option ℕ
toward direct_up next prev = next
toward direct_down next prev = prev

-- `request_nextreq`: the request, and the direction of the device.
pub request_nextreq : List ℕ → Direction → ℕ → Option ℕ × Direction
request_nextreq list direct req =
    let next = after req list in
    let prev = before none req list in
    let way = turned direct next prev in (toward way next prev, way)

-- `list_insert_sort` compares sectors as `int`.
abbrev pub request_key : (ℕ → Request) → ℕ → ℕ
request_key requests r = ((requests r).idx + 2 ^ 31) % 2 ^ 32

-- The assertion of `device_request` that the device is a block device, which assigns.
abbrev pub as_block : ℕ → Devices → Devices
as_block i k = record k { devices = put k.devices i (record (k.devices i) { kind = dev_block }) }

-- The device that has the requests: the parent, when there is one.
pub requests_at : ℕ → Devices → Option ℕ
requests_at i k = if (k.devices i).parent == 0 then some i else device_get (k.devices i).parent k

-- The new request of a task, for a device and from a sector on, and whether the task is blocked.
abbrev pub queued : ℕ → ℕ → ℕ → ℕ → ℕ → ℕ → Devices → Bool × Devices
queued d task count sector flags kind k =
    let waits = not (is_empty (k.devices d).request_list) in
    let requests = put k.requests k.fresh (record {
      dev = (k.devices d).dev;
      kind = kind;
      idx = sector;
      count = count;
      flags = flags;
      task = if waits then some task else none;
    }) in
    (
      waits,
      record k {
        requests = requests;
        devices = put k.devices d (record (k.devices d) {
          request_list = insert_by (request_key requests) k.fresh (k.devices d).request_list;
        });
        fresh = k.fresh + 1;
      },
    )

-- `device_request` up to `do_request`: the device of the requests, the request, whether the task is
-- blocked before it is done, and the state. A blocked one goes on in `resume_request`. `start` is the first sector of the device.
pub start_request : ℕ → ℕ → ℕ → ℕ → ℕ → ℕ → ℕ → Devices → Option (ℕ × ℕ × Bool × Devices)
start_request task dev count idx flags kind start k = elim (device_get dev k) [
  | none ↦ none
  | some i ↦ elim (requests_at i (as_block i k)) [
    | none ↦ none
    | some d ↦
        let q = queued d task count ((idx + start) % 2 ^ 32) flags kind (as_block i k) in
        some (d, k.fresh, q.0, q.1)
  ]
]

-- A blocked `device_request` when its task goes on; `reason` is what `task_block` returns, and `none` is its
-- failed `assert`.
pub resume_request : ℤ → Devices → Option Devices
resume_request (pos zero) k = some k
resume_request (pos (suc n)) k = none
resume_request (negsuc n) k = none

-- `device_request` after `do_request`: the task that it wakes, and the state.
pub finish_request : ℕ → ℕ → Devices → Option ℕ × Devices
finish_request d req k =
    let dev = k.devices d in
    let n = request_nextreq dev.request_list dev.direct req in
    (
      elim n.0 [ none ↦ none | some r ↦ (k.requests r).task ],
      record k {
        devices =
            put k.devices d
              (record dev { request_list = without req dev.request_list; direct = n.1 });
      },
    )
