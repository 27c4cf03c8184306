-- ===== src/Pmm/Init/Map.antt =====
-- The memory map that `pmm_init` leaves.
use it_works_os.Base.{
  ℕ, ◌+◌, ◌-◌, ◌*◌, ◌/◌, ◌%◌, ◌^◌, ◌≤◌, ◌<◌, ◌≡◌, refl, Bool, false, not, ◌||◌, some, List, ◌∷◌,
  arith, if◌then◌else◌, ltb, get_or, length,
}
use it_works_os.Kerror.{ok}
use it_works_os.Bitmap
use it_works_os.Bitmap.{Bitmap, test}
use it_works_os.Bitmap.Laws
use it_works_os.Bitmap.Laws.{init-IsValid, nbits-init}
use it_works_os.Bitmap.Range.{set_range}
use it_works_os.Bitmap.Range.Change.{nbits-set_range, set_range-IsValid, test-set_range}
use it_works_os.Bitmap.Range.Count.{count_loop_lem}
use it_works_os.Pmm.{Pmm}
use it_works_os.Pmm.Frames.{IsValid}
use it_works_os.Pmm.Init.{
  Entry, max_end, total_of, free_entries, force_reserve, kernel_virt_base, phys_of, reserve_bytes,
  init_bitmap, set_up, init,
}
use it_works_os.Pmm.Init.Loops.{
  is_usable, overlaps, Fit, max_end_bounds, limit, Became, total_of_lem, free_entries_lem,
  force_reserve_lem, reserve_bytes_lem,
}

-- Frame `q` is kept for the first MiB, the kernel image or the bitmap of `total` bits behind it.
abbrev pub is_kept : ℕ → ℕ → ℕ → ℕ → Bool
is_kept kernel_start kernel_end total q =
    ltb q 256
    || (overlaps (kernel_start - kernel_virt_base) (kernel_end - kernel_virt_base) q
        || overlaps (kernel_end - kernel_virt_base)
            (kernel_end - kernel_virt_base + (total + 7) / 8) q)

-- The kernel image lies in the higher half, and the words behind it hold the bitmap.
pub record IsPlaced (kernel_start kernel_end : ℕ) (buffer : List ℕ) (total : ℕ) : Type 0 where
  pub higher_half : kernel_virt_base ≤ kernel_start
  pub in_order : kernel_start ≤ kernel_end
  pub address : kernel_end < 2 ^ 32
  pub few : total + 31 < 2 ^ 32
  pub storage : total ≤ 32 * length buffer
  pub words_fit : (i : ℕ) → get_or buffer i 0 < 2 ^ 32

module _ {kernel_start kernel_end : ℕ} {buffer : List ℕ} (es : List Entry) (m : ℕ)
    (small : m ≤ limit) (fit : Fit m es) (p : IsPlaced kernel_start kernel_end buffer (total_of m))
    (bm : Bitmap) where
  abbrev total : ℕ
  total = total_of m

  abbrev blank : Bitmap
  blank = set_range (Bitmap.init bm buffer total) 0 total

  fresh : Laws.IsValid (Bitmap.init bm buffer total)
  fresh = init-IsValid bm buffer total p.storage p.few p.words_fit

  fits : 0 + total ≤ (Bitmap.init bm buffer total).nbits
  fits = omega (arith, nbits-init bm buffer total)

  freed : Became blank (free_entries es blank) (λ q. if is_usable es q then false else test blank q)
  freed = free_entries_lem es m small fit (set_range-IsValid 0 total fresh fits) (
      omega
        (arith, nbits-set_range (Bitmap.init bm buffer total) 0 total, nbits-init bm buffer total))

  freed_nbits : (free_entries es blank).nbits ≡ total
  freed_nbits = omega (
    arith,
    freed.same_nbits,
    nbits-set_range (Bitmap.init bm buffer total) 0 total,
    nbits-init bm buffer total,
  )

  starts : phys_of kernel_start ≡ kernel_start - kernel_virt_base
  unfolding phys_of
  starts = omega (arith, p.higher_half, p.in_order, p.address)

  ends : phys_of kernel_end ≡ kernel_end - kernel_virt_base
  unfolding phys_of
  ends = omega (arith, p.higher_half, p.in_order, p.address)

  abbrev one_mib : Bitmap
  one_mib = force_reserve total 0 256 (free_entries es blank)

  abbrev image : Bitmap
  image =
      reserve_bytes total (kernel_start - kernel_virt_base) (kernel_end - kernel_virt_base) one_mib

  init_bitmap-Became : Became blank (init_bitmap kernel_start kernel_end buffer bm es total) (λ q.
      if ltb q total
      then not (is_usable es q) || is_kept kernel_start kernel_end total q
      else test (init_bitmap kernel_start kernel_end buffer bm es total) q)
  unfolding init_bitmap
  init_bitmap-Became =
      let bytes : (kernel_end - kernel_virt_base + (total + 7) % 2 ^ 32 / 8) % 2 ^ 64
          ≡ kernel_end - kernel_virt_base + (total + 7) / 8 =
        omega (arith, p.few, p.address) in
      let a = force_reserve_lem total 0 256 _ freed.valid freed_nbits (omega arith) in
      let an : one_mib.nbits ≡ total = omega (arith, a.same_nbits, freed_nbits) in
      let b =
        reserve_bytes_lem total (kernel_start - kernel_virt_base) (kernel_end - kernel_virt_base)
          one_mib a.valid an (omega (arith, p.in_order)) (omega (arith, p.address)) in
      let bn : image.nbits ≡ total = omega (arith, b.same_nbits, an) in
      let c =
        reserve_bytes_lem total (kernel_end - kernel_virt_base)
          (kernel_end - kernel_virt_base + (total + 7) / 8) image b.valid bn (omega arith)
          (omega (arith, p.few, p.address)) in
      rw (starts, ends, bytes)
        (record {
          valid = c.valid;
          same_nbits = omega (arith, c.same_nbits, b.same_nbits, a.same_nbits, freed.same_nbits);
          tests = λ q. ground (
            arith,
            c.tests q,
            b.tests q,
            a.tests q,
            freed.tests q,
            test-set_range 0 total q fresh fits,
          );
        })

-- From a memory map whose usable entries end below 16 TiB `pmm_init` succeeds with a valid
-- manager of all the frames up to the highest usable address, in which a frame is free exactly if
-- one usable entry holds all of it and it is not kept for the first MiB, the kernel image or the
-- bitmap. The words behind the kernel image must hold the bitmap.
pub init_lem :
    {kernel_start kernel_end : ℕ} {buffer : List ℕ} (pmm : Pmm) (e : Entry) (es : List Entry)
    → Fit limit (e ∷ es)
    → IsPlaced kernel_start kernel_end buffer (total_of (max_end (e ∷ es) 0))
    → let (err, pmm') = init kernel_start kernel_end buffer pmm (some (e ∷ es)) in
      (err ≡ ok)
      × IsValid pmm'
      × (pmm'.total_frames ≡ (max_end (e ∷ es) 0 + 4095) / 4096)
      × ((q : ℕ)
          → q < pmm'.total_frames
          → test pmm'.bm q
            ≡ (not (is_usable (e ∷ es) q) || is_kept kernel_start kernel_end pmm'.total_frames q))
unfolding init set_up
init_lem {buffer} pmm e es fit p =
    let m : ℕ = max_end (e ∷ es) 0 in
    let b = max_end_bounds (e ∷ es) 0 limit (omega arith) (omega arith) fit in
    let i = init_bitmap-Became (e ∷ es) m b.1 b.2 p pmm.bm in
    let fresh_bits = nbits-init pmm.bm buffer (total_of m) in
    let blank_bits = nbits-set_range (Bitmap.init pmm.bm buffer (total_of m)) 0 (total_of m) in
    (
      refl,
      record {
        bitmap = i.valid;
        frames = omega (arith, i.same_nbits, fresh_bits, blank_bits);
        counted = count_loop_lem _ (total_of m) (omega (arith, p.few));
      },
      total_of_lem m b.1,
      λ q lt. ground (arith, i.tests q),
    )
