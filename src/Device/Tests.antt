-- ===== src/Device/Tests.antt =====
-- Runs of kernel/device/, and instances of the theorems: the platform bus 1 with the device
-- "ata", two further devices of that name, and drivers by name.
use it_works_os.Base.{
  ℕ, ◌+◌, ◌≡◌, ◌≢◌, refl, arith, Bool, true, Option, none, some, List, [], ◌∷◌, if◌then◌else◌, ◌==◌,
}
use it_works_os.Device.Register.{device_register-bound, driver_register-bound}
use it_works_os.Device.Resource.{range_size}
use it_works_os.Device.{
  Registry, device_register, driver_register, platform_init, platform_driver_register,
  platform_device_register,
}
use it_works_os.Dlist.Chain.{has}
use it_works_os.Kerror.{Kerror, ok}
use it_works_os.Strings.{strcmp, difference}

abbrev ata : Option (List ℕ)
ata = some (b'a' ∷ (b't' ∷ (b'a' ∷ [])))

-- The devices 10 and 20 are called ata, as is the driver 30; the driver 40 has another name.
abbrev device_name : ℕ → Option (List ℕ)
device_name d = if d == 10 then ata else if d == 20 then ata else none

abbrev driver_name : ℕ → Option (List ℕ)
driver_name d = if d == 30 then ata else some (b'v' ∷ [])

-- A probe counts its calls.
abbrev counting : ℕ → Option (ℕ → ℕ → Kerror × ℕ)
counting drv = some (λ dev s. (ok, s + 1))

abbrev start : Registry ℕ
start = record {
  buses = [];
  drivers = λ _. [];
  devices = λ _. [];
  driver_bus = λ _. 0;
  device_bus = λ _. 0;
  bound = λ _. 0;
  state = 0;
}

abbrev at_boot : Registry ℕ
at_boot = (platform_init device_name driver_name counting 1 start).1

abbrev two_devices : Registry ℕ
two_devices =
    let first = (platform_device_register device_name driver_name counting 1 10 at_boot).1 in
    (platform_device_register device_name driver_name counting 1 20 first).1

abbrev both : Registry ℕ
both = (platform_driver_register device_name driver_name counting 1 30 two_devices).1

-- The first of the two devices is bound to the driver of both, the second is not.
first_bound : both.bound 10 ≡ 30
unfolding platform_init platform_device_register platform_driver_register strcmp difference
first_bound = refl

second_unbound : both.bound 20 ≡ 0
unfolding platform_init platform_device_register platform_driver_register strcmp difference
second_unbound = refl

-- The whole of the 32-bit ports has size 0.
all_ports : range_size 32 0 0xFFFFFFFF ≡ 0
unfolding range_size
all_ports = refl

-- The device 10 on the bus 1, which has the driver 30.
abbrev with_one_driver : Registry ℕ
with_one_driver = record start { drivers = λ _. 30 ∷ []; device_bus = λ _. 1 }

abbrev any_match : ℕ → ℕ → Bool
any_match dev drv = true

abbrev any_probe : ℕ → ℕ → ℕ → Kerror × ℕ
any_probe dev drv s = (ok, s)

device_register-bound_example :
    (d : ℕ) × (has d (30 ∷ []) ≡ true)
    × (any_match 10 d ≡ true)
    × ((device_register any_match any_probe 10 with_one_driver).1.bound 10 ≡ d)
    × ((k : ℕ) → k ≢ 10 → (device_register any_match any_probe 10 with_one_driver).1.bound k ≡ 0)
device_register-bound_example =
    device_register-bound any_match any_probe 10 30 with_one_driver (omega arith) (omega arith) refl
      refl (λ u. refl)

abbrev with_devices : Registry ℕ
with_devices = record start { devices = λ _. 10 ∷ (20 ∷ []); driver_bus = λ _. 1 }

driver_register-bound_example :
    (d : ℕ) × (has d (10 ∷ (20 ∷ [])) ≡ true)
    × (with_devices.bound d ≡ 0)
    × (any_match d 30 ≡ true)
    × ((driver_register any_match any_probe 30 with_devices).1.bound d ≡ 30)
    × ((k : ℕ) → k ≢ d → (driver_register any_match any_probe 30 with_devices).1.bound k ≡ 0)
driver_register-bound_example =
    driver_register-bound any_match any_probe 30 20 with_devices (omega arith) (omega arith) refl
      refl refl (λ u. refl)
