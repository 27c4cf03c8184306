-- ===== src/Device/Bind.antt =====
-- Which driver a device is bound to by kernel/device/bus.c.
use mathlib.Core.Path.{subst}
use it_works_os.Base.{
  ℕ, ◌≡◌, ◌≢◌, ◌⊎◌, inl, inr, refl, sym, arith, Bool, true, false, List, [], ◌∷◌, ◌++◌, ◌==◌,
  Bool-cases,
}
use it_works_os.Device.{Registry, assign, try_drivers, try_devices}
use it_works_os.Kerror.{Kerror, ok, is_err}

module _ {S : Type 0} (match : ℕ → ℕ → Bool) (probe : ℕ → ℕ → S → Kerror × S) where
  -- The driver does not match the device, or its probe fails and leaves the state `t`.
  abbrev pub Refused : ℕ → ℕ → S → S → Type 0
  Refused dev drv s t =
      ((match dev drv ≡ false) × (t ≡ s))
      ⊎ ((match dev drv ≡ true) × (is_err (probe dev drv s).0 ≡ true) × (t ≡ (probe dev drv s).1))

  abbrev pub AllRefused : ℕ → List ℕ → S → S → Type 0
  AllRefused dev [] s t = t ≡ s
  AllRefused dev (drv ∷ drivers) s t = (u : S) × Refused dev drv s u × AllRefused dev drivers u t

  abbrev pub Accepted : ℕ → ℕ → S → S → Type 0
  Accepted dev drv s t =
      (match dev drv ≡ true) × ((probe dev drv s).0 ≡ ok) × (t ≡ (probe dev drv s).1)

  -- The device is bound to the first driver that accepts it, or to none, and nothing else changes.
  abbrev pub DeviceOutcome : ℕ → List ℕ → Registry S → Registry S → Type 0
  DeviceOutcome dev drivers r r' =
      ((t : S) × AllRefused dev drivers r.state t × (r' ≡ record r { state = t }))
      ⊎ ((before : List ℕ) × (drv : ℕ) × (behind : List ℕ) × (s : S) × (t : S) × (drivers
            ≡ (before ++ (drv ∷ behind)))
          × AllRefused dev before r.state s
          × Accepted dev drv s t
          × (r' ≡ record r { state = t; bound = assign r.bound dev drv }))

  -- One more driver that refused, in front.
  after_refusal :
      (dev drv : ℕ) (drivers : List ℕ) (r r' : Registry S) (u : S)
      → Refused dev drv r.state u
      → DeviceOutcome dev drivers (record r { state = u }) r'
      → DeviceOutcome dev (drv ∷ drivers) r r'
  after_refusal dev drv drivers r r' u no_drv (inl (t, all, e)) = inl (t, (u, no_drv, all), e)
  after_refusal dev drv drivers r r' u no_drv
        (inr (before, d, behind, s, t, split, all, accepted, e)) =
      inr (drv ∷ before, d, behind, s, t, (λ i. drv ∷ split i), (u, no_drv, all), accepted, e)

  is_ok : (e : Kerror) → is_err e ≡ false → e ≡ ok
  is_ok ok h = refl
  is_ok _ h = cc

  pub try_drivers_lem :
      (dev : ℕ) (drivers : List ℕ) (r : Registry S)
      → DeviceOutcome dev drivers r (try_drivers match probe dev drivers r)
  unfolding try_drivers
  try_drivers_lem dev [] r = inl (r.state, refl, refl)
  try_drivers_lem dev (drv ∷ drivers) r =
      let run = try_drivers match probe dev (drv ∷ drivers) r in
      let u = (probe dev drv r.state).1 in
      let refused = try_drivers match probe dev drivers (record r { state = u }) in
      let conclude : (r' : Registry S)
          → run ≡ r'
          → DeviceOutcome dev (drv ∷ drivers) r r'
          → DeviceOutcome dev (drv ∷ drivers) r run =
        λ r' e. subst (DeviceOutcome dev (drv ∷ drivers) r) (sym e) in
      elim (Bool-cases (match dev drv)) [
        | inr e ↦ conclude (try_drivers match probe dev drivers r) (rw e refl) (
            after_refusal dev drv drivers r (try_drivers match probe dev drivers r) r.state
              (inl (e, refl)) (try_drivers_lem dev drivers r))
        | inl e ↦ elim (Bool-cases (is_err (probe dev drv r.state).0)) [
          | inl f ↦ conclude refused (rw (e, f) refl) (
              after_refusal dev drv drivers r refused u (inr (e, f, refl))
                (try_drivers_lem dev drivers (record r { state = u })))
          | inr f ↦
              conclude (record r { state = u; bound = assign r.bound dev drv }) (rw (e, f) refl)
                (inr (
                  [],
                  drv,
                  drivers,
                  r.state,
                  u,
                  refl,
                  refl,
                  (e, is_ok (probe dev drv r.state).0 f, refl),
                  refl,
                ))
        ]
      ]

  -- A device with no driver, or one that the driver does not match or whose probe fails.
  abbrev pub Passed : ℕ → ℕ → (ℕ → ℕ) → S → S → Type 0
  Passed drv dev bound s t = ((bound dev ≢ 0) × (t ≡ s)) ⊎ Refused dev drv s t

  abbrev pub AllPassed : ℕ → List ℕ → (ℕ → ℕ) → S → S → Type 0
  AllPassed drv [] bound s t = t ≡ s
  AllPassed drv (dev ∷ devices) bound s t =
      (u : S) × Passed drv dev bound s u × AllPassed drv devices bound u t

  -- At most one device is bound to the driver: the first of those without one that it accepts.
  abbrev pub DriverOutcome : ℕ → List ℕ → Registry S → Registry S → Type 0
  DriverOutcome drv devices r r' =
      ((t : S) × AllPassed drv devices r.bound r.state t × (r' ≡ record r { state = t }))
      ⊎ ((before : List ℕ) × (dev : ℕ) × (behind : List ℕ) × (s : S) × (t : S) × (devices
            ≡ (before ++ (dev ∷ behind)))
          × AllPassed drv before r.bound r.state s
          × (r.bound dev ≡ 0)
          × Accepted dev drv s t
          × (r' ≡ record r { state = t; bound = assign r.bound dev drv }))

  after_pass :
      (drv dev : ℕ) (devices : List ℕ) (r r' : Registry S) (u : S)
      → Passed drv dev r.bound r.state u
      → DriverOutcome drv devices (record r { state = u }) r'
      → DriverOutcome drv (dev ∷ devices) r r'
  after_pass drv dev devices r r' u pass (inl (t, all, e)) = inl (t, (u, pass, all), e)
  after_pass drv dev devices r r' u pass
        (inr (before, d, behind, s, t, split, all, free, accepted, e)) =
      inr (dev ∷ before, d, behind, s, t, (λ i. dev ∷ split i), (u, pass, all), free, accepted, e)

  pub try_devices_lem :
      (drv : ℕ) (devices : List ℕ) (r : Registry S)
      → DriverOutcome drv devices r (try_devices match probe drv devices r)
  unfolding try_devices
  try_devices_lem drv [] r = inl (r.state, refl, refl)
  try_devices_lem drv (dev ∷ devices) r =
      let run = try_devices match probe drv (dev ∷ devices) r in
      let passed = try_devices match probe drv devices r in
      let u = (probe dev drv r.state).1 in
      let refused = try_devices match probe drv devices (record r { state = u }) in
      let conclude : (r' : Registry S)
          → run ≡ r'
          → DriverOutcome drv (dev ∷ devices) r r'
          → DriverOutcome drv (dev ∷ devices) r run =
        λ r' e. subst (DriverOutcome drv (dev ∷ devices) r) (sym e) in
      let skip : run ≡ passed
          → Passed drv dev r.bound r.state r.state
          → DriverOutcome drv (dev ∷ devices) r run =
        λ e pass.
          conclude passed e
            (after_pass drv dev devices r passed r.state pass (try_devices_lem drv devices r)) in
      elim (Bool-cases (r.bound dev == 0)) [
        | inr b ↦ skip (rw b refl) (inl (ground arith, refl))
        | inl b ↦ elim (Bool-cases (match dev drv)) [
          | inr e ↦ skip (rw (b, e) refl) (inr (inl (e, refl)))
          | inl e ↦ elim (Bool-cases (is_err (probe dev drv r.state).0)) [
            | inl f ↦ conclude refused (rw (b, e, f) refl) (
                after_pass drv dev devices r refused u (inr (inr (e, f, refl)))
                  (try_devices_lem drv devices (record r { state = u })))
            | inr f ↦
                conclude (record r { state = u; bound = assign r.bound dev drv })
                  (rw (b, e, f) refl)
                  (inr (
                    [],
                    dev,
                    devices,
                    r.state,
                    u,
                    refl,
                    refl,
                    ground arith,
                    (e, is_ok (probe dev drv r.state).0 f, refl),
                    refl,
                  ))
          ]
        ]
      ]
