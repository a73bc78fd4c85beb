-- ===== src/Dev/Tests.antt =====
-- A driver for one vendor's devices and a device of that vendor, which is added first.
use lapis.Base.{ℕ, ◌≡◌, refl, true, false, [], ◌∷◌, has, pos}
use lapis.Dev.{
  DeviceId, Device, Devs, start, registered, added, driver_register, bus_device_add,
  driver_try_bind, find_driver,
}
use lapis.Dev.Driven.{Bound}
use lapis.Dev.Bound.{reachable-Bound}

abbrev vendor_row : DeviceId
vendor_row = record { vendor_id = 0x8086; device_id = 0; class = 0; subclass = 0; prog_if = 0 }

abbrev nic : Device
nic = record {
  driver = 0;
  id = record { vendor_id = 0x8086; device_id = 0x100e; class = 2; subclass = 0; prog_if = 0 };
  irqs = record { irq = 0; hwirq = 11; allocated = false } ∷ [];
  parent = 0;
  children = [];
}

abbrev empty : Devs ℕ
empty = record {
  devices = λ a. nic;
  drivers = λ d. record { id_table = vendor_row ∷ []; has_init = true; irq_handler = 9 };
  device_list = [];
  driver_list = [];
  inits = [];
  irq_state = 32;
}

abbrev one_device : Devs ℕ
one_device = bus_device_add (λ hwirq handler x. (pos x, x)) 7 empty

abbrev two_steps : Devs ℕ
two_steps = driver_register (λ hwirq handler x. (pos x, x)) 5 one_device

reachable-Bound_example :
    (has 0 two_steps.driver_list ≡ false)
    × ((a : ℕ) → has a two_steps.device_list ≡ true → Bound two_steps a)
unfolding bus_device_add driver_try_bind find_driver
reachable-Bound_example =
    reachable-Bound (λ hwirq handler x. (pos x, x)) two_steps
      (registered one_device 5
        (added empty 7 (start (λ a. nic) (λ d. empty.drivers d) 32) refl refl) refl refl)
