-- ===== src/Irq/Request.antt =====
-- `irq_request`, `irq_free` and `irq_dispatch` together.
use it_works_os.Base.{ℕ, ◌<◌, ◌≡◌, ◌≢◌, refl, true, false, arith, Option, some, none, is_some}
use it_works_os.Kerror.{ok, busy}
use it_works_os.Irq.{
  Irq, IrqChip, IrqMap, irq_max, put, irq_is_allocated, irq_desc_get, is_configured, irq_request,
  irq_free, irq_map_hwirq_to_irq, irq_dispatch,
}

-- What a successful request says of the state before and after.
record Requested {W : Type 0} (s s' : Irq W) (irq : ℕ) (h : Option (ℕ → W → W)) (dev : ℕ)
    : Type 0 where
  in_range : irq < irq_max
  is_handler : is_some h ≡ true
  allocated : irq_is_allocated s irq ≡ true
  configured : is_configured (s.descs irq) ≡ true
  unused : is_some (s.descs irq).handler ≡ false
  same_bits : s'.allocated ≡ s.allocated
  descs : s'.descs ≡ put s.descs irq (record (s.descs irq) { handler = h; dev_id = dev })

module _ {W : Type 0} (s : Irq W) {s' : Irq W} (irq : ℕ) (h : Option (ℕ → W → W)) (dev : ℕ)
    (request : irq_request irq h dev s ≡ (ok, s')) where
  requested : Requested s s' irq h dev
  unfolding irq_request
  requested = ground arith

  -- The descriptor after the request.
  at_irq : s'.descs irq ≡ record (s.descs irq) { handler = h; dev_id = dev }
  unfolding put
  at_irq = rw requested.descs (ground arith)

  still_allocated : irq_is_allocated s' irq ≡ true
  unfolding irq_is_allocated
  still_allocated = rw requested.same_bits requested.allocated

  -- A second request of the number is refused as busy, whatever its handler, until it is freed.
  pub request-request : (h' : ℕ → W → W) (dev' : ℕ) → irq_request irq (some h') dev' s' ≡ (busy, s')
  unfolding irq_request
  request-request h' dev' = let r = requested in ground (arith, still_allocated, at_irq)

  -- Freeing a requested number succeeds, and leaves every other descriptor and all of this one but
  -- its `dev_id` as before the request.
  pub free-request :
      let (e, s'') = irq_free irq s' in
      (e ≡ ok)
      × (s''.allocated ≡ s.allocated)
      × (s''.descs irq ≡ record (s.descs irq) { dev_id = dev })
      × ((j : ℕ) → j ≢ irq → s''.descs j ≡ s.descs j)
  unfolding irq_free put
  free-request =
      let r = requested in
      let e : irq_free irq s' ≡ (
        ok,
        record s' { descs = put s'.descs irq (record (s'.descs irq) { handler = none }) },
      ) =
        ground (arith, still_allocated, at_irq) in
      rw e (refl, r.same_bits, ground (arith, at_irq), λ j ne. rw r.descs (ground arith))

  -- An interrupt that the chip decodes to the requested number runs the handler on its `dev_id`,
  -- once, and then acknowledges the hardware number of the descriptor.
  pub dispatch-request :
      (k : ℕ → W → W)
      → h ≡ some k
      → (chip : IrqChip W) (map : IrqMap) (vector hwirq : ℕ) (w w' : W)
      → chip.handle_vector vector w ≡ (ok, hwirq, w')
      → irq_map_hwirq_to_irq map hwirq ≡ irq
      → irq_dispatch chip map vector s' w ≡ (ok, chip.eoi (s.descs irq).hwirq (k dev w'))
  unfolding irq_dispatch irq_desc_get
  dispatch-request k hk chip map vector hwirq w w' decodes at =
      let r = requested in ground (arith, at_irq, decodes, at)
