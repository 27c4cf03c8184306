-- ===== src/Device/Register.antt =====
-- Registrations by kernel/device/device.c and driver.c.
use mathlib.Core.Path.{subst}
use it_works_os.Base.{
  ℕ, ◌≡◌, ◌≢◌, ◌⊎◌, inl, inr, refl, sym, ap, ◌∙◌, arith, Bool, true, false, ◌||◌, List, [], ◌∷◌,
  ◌++◌, ◌==◌, Bool-cases,
}
use it_works_os.Device.Bind.{
  Refused, AllRefused, DeviceOutcome, try_drivers_lem, Passed, AllPassed, DriverOutcome,
  try_devices_lem,
}
use it_works_os.Device.{
  Registry, assign, bus_add_device, bus_add_driver, device_register, driver_register,
}
use it_works_os.Dlist.Chain.{has, has-append}
use it_works_os.Kerror.{Kerror, ok, inval, is_err}

module _ {S : Type 0} (match : ℕ → ℕ → Bool) (probe : ℕ → ℕ → S → Kerror × S) where
  -- The bus, or the device, has a new last member.
  abbrev pub with_device : ℕ → ℕ → Registry S → Registry S
  with_device bus dev r = record r { devices = assign r.devices bus (r.devices bus ++ (dev ∷ [])) }

  abbrev pub with_driver : ℕ → ℕ → Registry S → Registry S
  with_driver bus drv r = record r { drivers = assign r.drivers bus (r.drivers bus ++ (drv ∷ [])) }

  pub device_register_lem :
      (dev : ℕ) (r : Registry S)
      → (((dev ≡ 0) ⊎ (r.device_bus dev ≡ 0)) × (device_register match probe dev r ≡ (inval, r)))
        ⊎ (((device_register match probe dev r).0 ≡ ok)
            × DeviceOutcome match probe dev
                (r.drivers (r.device_bus dev))
                (with_device (r.device_bus dev) dev r)
                (device_register match probe dev r).1)
  unfolding device_register bus_add_device
  device_register_lem dev r = elim (Bool-cases ((dev == 0) || (r.device_bus dev == 0))) [
    | inl e ↦ inl (ground arith, rw e refl)
    | inr e ↦
        let no_bus : ((r.device_bus dev == 0) || (dev == 0)) ≡ false = ground arith in
        inr (
          rw (e, no_bus) refl,
          rw (e, no_bus)
              (try_drivers_lem match probe dev (r.drivers (r.device_bus dev))
                (with_device (r.device_bus dev) dev r)),
        )
  ]

  pub driver_register_lem :
      (drv : ℕ) (r : Registry S)
      → (((drv ≡ 0) ⊎ (r.driver_bus drv ≡ 0)) × (driver_register match probe drv r ≡ (inval, r)))
        ⊎ (((driver_register match probe drv r).0 ≡ ok)
            × DriverOutcome match probe drv
                (r.devices (r.driver_bus drv))
                (with_driver (r.driver_bus drv) drv r)
                (driver_register match probe drv r).1)
  unfolding driver_register bus_add_driver
  driver_register_lem drv r = elim (Bool-cases ((drv == 0) || (r.driver_bus drv == 0))) [
    | inl e ↦ inl (ground arith, rw e refl)
    | inr e ↦
        let no_bus : ((r.driver_bus drv == 0) || (drv == 0)) ≡ false = ground arith in
        inr (
          rw (e, no_bus) refl,
          rw (e, no_bus)
              (try_devices_lem match probe drv (r.devices (r.driver_bus drv))
                (with_driver (r.driver_bus drv) drv r)),
        )
  ]

  -- A driver that matches and whose probe never fails refuses nothing.
  no-Refused :
      (dev drv : ℕ) (s t : S)
      → match dev drv ≡ true
      → ((u : S) → (probe dev drv u).0 ≡ ok)
      → Refused match probe dev drv s t
      → ⊥
  no-Refused dev drv s t m good (inl (no_match, _)) = cc
  no-Refused dev drv s t m good (inr (_, fails, _)) = cc (sym fails ∙ ap is_err (good s))

  no-AllRefused :
      (dev drv : ℕ) (drivers : List ℕ) (s t : S)
      → match dev drv ≡ true
      → ((u : S) → (probe dev drv u).0 ≡ ok)
      → has drv drivers ≡ true
      → AllRefused match probe dev drivers s t
      → ⊥
  no-AllRefused dev drv [] s t m good h all = cc
  no-AllRefused dev drv (d ∷ drivers) s t m good h (u, here, rest) = elim (Bool-cases (drv == d)) [
    | inl e ↦
        let same : d ≡ drv = ground arith in
        no-Refused dev drv s u m good (subst (λ k. Refused match probe dev k s u) same here)
    | inr e ↦ no-AllRefused dev drv drivers u t m good (ground arith) rest
  ]

  no-AllPassed :
      (drv dev : ℕ) (devices : List ℕ) (bound : ℕ → ℕ) (s t : S)
      → match dev drv ≡ true
      → ((u : S) → (probe dev drv u).0 ≡ ok)
      → bound dev ≡ 0
      → has dev devices ≡ true
      → AllPassed match probe drv devices bound s t
      → ⊥
  no-AllPassed drv dev [] bound s t m good free h all = cc
  no-AllPassed drv dev (d ∷ devices) bound s t m good free h (u, here, rest) =
      elim (Bool-cases (dev == d)) [
        | inl e ↦
            let same : d ≡ dev = ground arith in
            let passed = subst (λ k. Passed match probe drv k bound s u) same here in
            elim passed [
              | inl (taken, _) ↦ absurd (taken free)
              | inr refused ↦ no-Refused dev drv s u m good refused
            ]
        | inr e ↦ no-AllPassed drv dev devices bound u t m good free (ground arith) rest
      ]

  has_middle : (x : ℕ) (xs ys : List ℕ) → has x (xs ++ (x ∷ ys)) ≡ true
  has_middle x xs ys = ground (arith, has-append x xs (x ∷ ys))

  -- A device whose bus has a driver that matches it, with a probe that always succeeds, is bound
  -- by device_register to a driver of the bus that matches it, while every other device keeps
  -- its driver.
  pub device_register-bound :
      (dev drv : ℕ) (r : Registry S)
      → dev ≢ 0
      → r.device_bus dev ≢ 0
      → has drv (r.drivers (r.device_bus dev)) ≡ true
      → match dev drv ≡ true
      → ((u : S) → (probe dev drv u).0 ≡ ok)
      → (d : ℕ) × (has d (r.drivers (r.device_bus dev)) ≡ true)
        × (match dev d ≡ true)
        × ((device_register match probe dev r).1.bound dev ≡ d)
        × ((k : ℕ) → k ≢ dev → (device_register match probe dev r).1.bound k ≡ r.bound k)
  device_register-bound dev drv r dev_ne bus_ne has_drv m good =
      let go : (((dev ≡ 0) ⊎ (r.device_bus dev ≡ 0))
              × (device_register match probe dev r ≡ (inval, r)))
            ⊎ (((device_register match probe dev r).0 ≡ ok)
                × DeviceOutcome match probe dev (r.drivers (r.device_bus dev))
                    (with_device (r.device_bus dev) dev r) (device_register match probe dev r).1)
          → (d : ℕ) × (has d (r.drivers (r.device_bus dev)) ≡ true)
            × (match dev d ≡ true)
            × ((device_register match probe dev r).1.bound dev ≡ d)
            × ((k : ℕ) → k ≢ dev → (device_register match probe dev r).1.bound k ≡ r.bound k) =
        λ outcome. elim outcome [
          | inl (bad, _) ↦ elim bad [ inl e ↦ absurd (dev_ne e) | inr e ↦ absurd (bus_ne e) ]
          | inr (_, inl (t, all, _)) ↦
              absurd
                (no-AllRefused dev drv (r.drivers (r.device_bus dev)) r.state t m good has_drv all)
          | inr (_, inr (before, d, behind, s, t, split, all, accepted, e)) ↦ (
            d,
            rw split (has_middle d before behind),
            accepted.0,
            ap (λ q. q.bound dev) e ∙ ground arith,
            λ k ne. ap (λ q. q.bound k) e ∙ ground arith,
          )
        ] in
      go (device_register_lem dev r)

  -- When some device of the bus has no driver and the new driver matches it, with a probe that
  -- always succeeds for it, driver_register binds exactly one device without a driver to the new
  -- one: every other device keeps its driver, or stays without one, even where it matches too.
  pub driver_register-bound :
      (drv dev : ℕ) (r : Registry S)
      → drv ≢ 0
      → r.driver_bus drv ≢ 0
      → has dev (r.devices (r.driver_bus drv)) ≡ true
      → r.bound dev ≡ 0
      → match dev drv ≡ true
      → ((u : S) → (probe dev drv u).0 ≡ ok)
      → (d : ℕ) × (has d (r.devices (r.driver_bus drv)) ≡ true)
        × (r.bound d ≡ 0)
        × (match d drv ≡ true)
        × ((driver_register match probe drv r).1.bound d ≡ drv)
        × ((k : ℕ) → k ≢ d → (driver_register match probe drv r).1.bound k ≡ r.bound k)
  driver_register-bound drv dev r drv_ne bus_ne has_dev free m good =
      let go : (((drv ≡ 0) ⊎ (r.driver_bus drv ≡ 0))
              × (driver_register match probe drv r ≡ (inval, r)))
            ⊎ (((driver_register match probe drv r).0 ≡ ok)
                × DriverOutcome match probe drv (r.devices (r.driver_bus drv))
                    (with_driver (r.driver_bus drv) drv r) (driver_register match probe drv r).1)
          → (d : ℕ) × (has d (r.devices (r.driver_bus drv)) ≡ true)
            × (r.bound d ≡ 0)
            × (match d drv ≡ true)
            × ((driver_register match probe drv r).1.bound d ≡ drv)
            × ((k : ℕ) → k ≢ d → (driver_register match probe drv r).1.bound k ≡ r.bound k) =
        λ outcome. elim outcome [
          | inl (bad, _) ↦ elim bad [ inl e ↦ absurd (drv_ne e) | inr e ↦ absurd (bus_ne e) ]
          | inr (_, inl (t, all, _)) ↦ absurd (
              no-AllPassed drv dev (r.devices (r.driver_bus drv)) r.bound r.state t m good free
                has_dev all)
          | inr (_, inr (before, d, behind, s, t, split, all, unbound, accepted, e)) ↦ (
            d,
            rw split (has_middle d before behind),
            unbound,
            accepted.0,
            ap (λ q. q.bound d) e ∙ ground arith,
            λ k ne. ap (λ q. q.bound k) e ∙ ground arith,
          )
        ] in
      go (driver_register_lem drv r)
