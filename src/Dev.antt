-- ===== src/Dev.antt =====
-- kernel/src/dev/driver.c, bus.c and device.c: the lists of devices and drivers, and the match of a
-- device with a driver.
pub mod Driven
pub mod Bound
mod Tests
use lapis.Base.{
  ℕ, suc, zero, ◌≡◌, ◌≢◌, Bool, true, false, not, ◌&&◌, ◌||◌, List, [], ◌∷◌, ◌==◌, if◌then◌else◌,
  has, put, ℤ, pos, negsuc,
}

-- `device_id_t`
pub record DeviceId : Type 0 where
  pub vendor_id : ℕ
  pub device_id : ℕ
  pub class : ℕ
  pub subclass : ℕ
  pub prog_if : ℕ

-- `device_irq_t`
pub record DeviceIrq : Type 0 where
  pub irq : ℕ
  pub hwirq : ℕ
  pub allocated : Bool

-- `device_t`, with its identity in `id`. The driver is an address, 0 for NULL.
pub record Device : Type 0 where
  pub driver : ℕ
  pub id : DeviceId
  pub irqs : List DeviceIrq
  pub parent : ℕ
  pub children : List ℕ

-- `driver_t`; `has_init` says that `init` is set, and the handler 0 is NULL.
pub record Driver : Type 0 where
  pub id_table : List DeviceId
  pub has_init : Bool
  pub irq_handler : ℕ

-- The devices and drivers by address, `global_device_list` and `driver_list`, the calls of `init`
-- with their device, and the state of the interrupt code.
pub record Devs {ℓ} (X : Type ℓ) : Type ℓ where
  pub devices : ℕ → Device
  pub drivers : ℕ → Driver
  pub device_list : List ℕ
  pub driver_list : List ℕ
  pub inits : List (ℕ × ℕ)
  pub irq_state : X

-- One test of `match_device`: 0 in the table fits all.
unfoldable pub same_or_any : (wanted got : ℕ) → Bool
same_or_any wanted got = (wanted == 0) || (wanted == got)

unfoldable pub match_device : (dev id : DeviceId) → Bool
match_device dev id =
    same_or_any id.class dev.class
    && same_or_any id.subclass dev.subclass
    && same_or_any id.prog_if dev.prog_if
    && same_or_any id.vendor_id dev.vendor_id
    && same_or_any id.device_id dev.device_id

-- A row of the table fits the device.
unfoldable pub match_any : DeviceId → List DeviceId → Bool
match_any dev [] = false
match_any dev (id ∷ ids) = match_device dev id || match_any dev ids

-- The first driver with such a row, or NULL.
unfoldable pub find_driver : (ℕ → Driver) → DeviceId → List ℕ → ℕ
find_driver drivers dev [] = 0
find_driver drivers dev (d ∷ ds) =
    if match_any dev (drivers d).id_table then d else find_driver drivers dev ds

-- `irq_request` for a line and a handler: the number of the interrupt, or an error below 0.
module _ {ℓ} {X : Type ℓ} (irq_request : (hwirq handler : ℕ) → X → ℤ × X) where
  unfoldable pub request_irqs : (handler : ℕ) → List DeviceIrq → X → List DeviceIrq × X
  request_irqs handler [] x = ([], x)
  request_irqs handler (i ∷ is) x =
      let (r, x1) = irq_request i.hwirq handler x in
      let (rest, x2) = request_irqs handler is (if i.allocated then x else x1) in
      if i.allocated then (i ∷ rest, x2) else elim r [
        | pos n ↦ (record i { irq = n; allocated = true } ∷ rest, x2)
        | negsuc n ↦ (i ∷ rest, x2)
      ]

  -- A driver takes a device that matches.
  unfoldable pub bind_device : (drv dev : ℕ) → Devs X → Devs X
  bind_device drv dev s =
      let driver = s.drivers drv in
      let old = s.devices dev in
      let (irqs, x) = request_irqs driver.irq_handler old.irqs s.irq_state in
      let handled = not (driver.irq_handler == 0) in
      record s {
        devices =
            put s.devices dev
              (record old { driver = drv; irqs = if handled then irqs else old.irqs });
        inits = if driver.has_init then (drv, dev) ∷ s.inits else s.inits;
        irq_state = if handled then x else s.irq_state;
      }

  unfoldable pub driver_try_bind : (dev : ℕ) → Devs X → Devs X
  driver_try_bind dev s =
      let drv = find_driver s.drivers (s.devices dev).id s.driver_list in
      if not ((s.devices dev).driver == 0) then s else if drv == 0 then s else bind_device drv dev s

  unfoldable pub bind_all : List ℕ → Devs X → Devs X
  bind_all [] s = s
  bind_all (dev ∷ devs) s = bind_all devs (driver_try_bind dev s)

  unfoldable pub driver_register : (drv : ℕ) → Devs X → Devs X
  driver_register drv s = bind_all s.device_list (record s { driver_list = drv ∷ s.driver_list })

  unfoldable pub bus_device_add : (dev : ℕ) → Devs X → Devs X
  bus_device_add dev s = driver_try_bind dev (record s { device_list = dev ∷ s.device_list })

  -- What the boot and the buses do, from empty lists: a driver is registered once, and a device is
  -- added once, as `device_create` has made it.
  pub data Reachable : Devs X → Type ℓ where
    start :
        (devices : ℕ → Device) (drivers : ℕ → Driver) (x : X)
        → Reachable (record {
          devices = devices;
          drivers = drivers;
          device_list = [];
          driver_list = [];
          inits = [];
          irq_state = x;
        })
    registered :
        (s : Devs X) (drv : ℕ)
        → Reachable s
        → (drv == 0) ≡ false
        → has drv s.driver_list ≡ false
        → Reachable (driver_register drv s)
    added :
        (s : Devs X) (dev : ℕ)
        → Reachable s
        → has dev s.device_list ≡ false
        → (s.devices dev).driver ≡ 0
        → Reachable (bus_device_add dev s)

module _ {ℓ} {X : Type ℓ} where
  unfoldable pub device_add_child : (parent child : ℕ) → Devs X → Devs X
  device_add_child parent child s =
      if (parent == 0) || (child == 0)
      then s
      else (let devices1 = put s.devices child (record (s.devices child) { parent = parent }) in
          let children = child ∷ (devices1 parent).children in
          record s {
            devices = put devices1 parent (record (devices1 parent) { children = children });
          })

  -- `device_add_irq`, when the allocation succeeds
  unfoldable pub device_add_irq : (dev hwirq : ℕ) → Devs X → Devs X
  device_add_irq dev hwirq s =
      let i : DeviceIrq = record { irq = 0; hwirq = hwirq; allocated = false } in
      if dev == 0 then s else record s {
        devices = put s.devices dev (record (s.devices dev) { irqs = i ∷ (s.devices dev).irqs });
      }
