-- ===== src/Device.antt =====
-- Model of kernel/device/bus.c, device.c, driver.c and platform.c. Buses, devices and drivers are
-- known by the addresses of their structures, 0 for NULL; the lists of a bus are its nodes in their
-- order, since list_insert_back appends and list_for_each visits in order (Dlist). `S` is what the
-- probes of the drivers read and change. The debug messages are left out.

pub mod Bind
pub mod Register
pub mod Resource
pub mod Tests
use it_works_os.Base.{
  ℕ, Bool, true, false, not, ◌&&◌, ◌||◌, Option, none, some, is_some, List, [], ◌∷◌, ◌++◌,
  if◌then◌else◌, ◌==◌,
}
use it_works_os.Base.Int.{ℤ, pos, negsuc}
use it_works_os.Kerror.{Kerror, ok, inval, is_err}
use it_works_os.Strings.{strcmp}

-- The two function pointers of a bus.
pub record BusOps (S : Type 0) : Type 0 where
  pub match : Option (ℕ → ℕ → Bool)
  pub probe : Option (ℕ → ℕ → S → Kerror × S)

-- The buses, the lists of each bus, `bus` of each driver and device, and `driver` of each device.
pub record Registry (S : Type 0) : Type 0 where
  pub buses : List ℕ
  pub drivers : ℕ → List ℕ
  pub devices : ℕ → List ℕ
  pub driver_bus : ℕ → ℕ
  pub device_bus : ℕ → ℕ
  pub bound : ℕ → ℕ
  pub state : S

abbrev pub assign {ℓ} : {A : Type ℓ} → (ℕ → A) → ℕ → A → ℕ → A
assign f a v p = if p == a then v else f p

module _ {S : Type 0} where
  pub bus_init : ℕ → Registry S → Registry S
  bus_init bus r = record r { devices = assign r.devices bus []; drivers = assign r.drivers bus [] }

  pub bus_register : BusOps S → ℕ → Registry S → Kerror × Registry S
  bus_register ops bus r =
      if (bus == 0) || not (is_some ops.match) || not (is_some ops.probe)
      then (inval, r)
      else (ok, record r { buses = r.buses ++ (bus ∷ []) })

  module _ (match : ℕ → ℕ → Bool) (probe : ℕ → ℕ → S → Kerror × S) where
    -- The loop of bus_add_device over the drivers of the bus.
    pub try_drivers : ℕ → List ℕ → Registry S → Registry S
    try_drivers dev [] r = r
    try_drivers dev (drv ∷ drivers) r =
        let (ret, after) = probe dev drv r.state in
        let next =
          try_drivers dev drivers (if match dev drv then record r { state = after } else r) in
        if not (match dev drv)
        then next
        else if is_err ret
        then next
        else record r { state = after; bound = assign r.bound dev drv }

    pub bus_add_device : ℕ → ℕ → Registry S → Kerror × Registry S
    unfolding try_drivers
    bus_add_device bus dev r =
        if (bus == 0) || (dev == 0)
        then (inval, r)
        else let r1 = record r { devices = assign r.devices bus (r.devices bus ++ (dev ∷ [])) } in
          (ok, try_drivers dev (r.drivers bus) r1)

    -- The loop of bus_add_driver over the devices of the bus.
    pub try_devices : ℕ → List ℕ → Registry S → Registry S
    try_devices drv [] r = r
    try_devices drv (dev ∷ devices) r =
        let (ret, after) = probe dev drv r.state in
        let tried = (r.bound dev == 0) && match dev drv in
        let next = try_devices drv devices (if tried then record r { state = after } else r) in
        if not (r.bound dev == 0)
        then next
        else if not (match dev drv)
        then next
        else if is_err ret
        then next
        else record r { state = after; bound = assign r.bound dev drv }

    pub bus_add_driver : ℕ → ℕ → Registry S → Kerror × Registry S
    unfolding try_devices
    bus_add_driver bus drv r =
        if (bus == 0) || (drv == 0)
        then (inval, r)
        else let r1 = record r { drivers = assign r.drivers bus (r.drivers bus ++ (drv ∷ [])) } in
          (ok, try_devices drv (r.devices bus) r1)

    -- `dev->bus` and `drv->bus` are read before the bus is asked.
    pub device_register : ℕ → Registry S → Kerror × Registry S
    unfolding bus_add_device
    device_register dev r =
        if (dev == 0) || (r.device_bus dev == 0)
        then (inval, r)
        else bus_add_device (r.device_bus dev) dev r

    pub driver_register : ℕ → Registry S → Kerror × Registry S
    unfolding bus_add_driver
    driver_register drv r =
        if (drv == 0) || (r.driver_bus drv == 0)
        then (inval, r)
        else bus_add_driver (r.driver_bus drv) drv r

abbrev pub is_zero : ℤ → Bool
is_zero (pos n) = n == 0
is_zero (negsuc n) = false

-- The names of devices and drivers, none for NULL, and the probe of each platform driver.
module _ {S : Type 0} (device_name driver_name : ℕ → Option (List ℕ))
    (drv_probe : ℕ → Option (ℕ → S → Kerror × S)) where
  abbrev same_name : Option (List ℕ) → Option (List ℕ) → Bool
  same_name none n = false
  same_name (some m) none = false
  same_name (some m) (some n) = is_zero (strcmp m n)

  pub platform_match : ℕ → ℕ → Bool
  platform_match dev drv =
      if (dev == 0) || (drv == 0) then false else same_name (device_name dev) (driver_name drv)

  abbrev call_probe : Option (ℕ → S → Kerror × S) → ℕ → S → Kerror × S
  call_probe none dev s = (inval, s)
  call_probe (some f) dev s = f dev s

  pub platform_probe : ℕ → ℕ → S → Kerror × S
  platform_probe dev drv s = call_probe (drv_probe drv) dev s

  abbrev pub platform_ops : BusOps S
  platform_ops = record { match = some platform_match; probe = some platform_probe }

  -- The address of the structure `platform_bus`.
  module _ (platform_bus : ℕ) where
    pub platform_init : Registry S → Kerror × Registry S
    unfolding bus_init bus_register platform_match platform_probe
    platform_init r = bus_register platform_ops platform_bus (bus_init platform_bus r)

    pub platform_driver_register : ℕ → Registry S → Kerror × Registry S
    unfolding driver_register platform_match platform_probe
    platform_driver_register pdrv r =
        if pdrv == 0
        then (inval, r)
        else driver_register platform_match platform_probe pdrv
            (record r { driver_bus = assign r.driver_bus pdrv platform_bus })

    pub platform_device_register : ℕ → Registry S → Kerror × Registry S
    unfolding device_register platform_match platform_probe
    platform_device_register pdev r =
        if pdev == 0
        then (inval, r)
        else device_register platform_match platform_probe pdev
            (record r { device_bus = assign r.device_bus pdev platform_bus })
