-- ===== src/Paging/Pages.antt =====
-- The pages of low memory that kernel/arch/x86/mm.c allocates, reads, writes and clears.
use it_works_os.Base.{
  ℕ, ◌+◌, ◌*◌, ◌/◌, ◌%◌, ◌^◌, ◌≤◌, ◌<◌, ◌≡◌, ◌≢◌, ◌⊎◌, inl, inr, ap, ◌∙◌, arith, true, false,
  Option, none, some, Bool-cases,
}
use it_works_os.Bitmap.{test}
use it_works_os.Kerror.{Kerror, ok, nomem}
use it_works_os.Layout.{kernel_lowmem_limit}
use it_works_os.Pmm.{Pmm, strict}
use it_works_os.Pmm.Frames.{IsValid}
use it_works_os.Pmm.Alloc.{InWindow, NoRun, AllocOutcome, alloc_lem}
use it_works_os.Paging.{
  Machine, entry_at, read_entry, write_entry, clear_page, write_word, clear_words, alloc_page,
}

-- A page of low memory whose frame is in use.
pub record IsPage (pmm : Pmm) (p : ℕ) : Type 0 where
  pub aligned : p % 4096 ≡ 0
  pub low : p + 4096 ≤ kernel_lowmem_limit
  pub taken : test pmm.bm (p / 4096) ≡ true

-- Two pages, or two entries of one, do not overlap.
module _ {pmm pmm' : Pmm} {t u : ℕ} (t_page : IsPage pmm t) (u_page : IsPage pmm' u) where
  entries_apart : {i j : ℕ} → i < 1024 → j < 1024 → (t ≢ u) ⊎ (i ≢ j) → entry_at t i ≢ entry_at u j
  entries_apart {i} {j} hi hj (inl ne) =
      omega (arith, t_page.aligned, t_page.low, u_page.aligned, u_page.low)
  entries_apart {i} {j} hi hj (inr ne) =
      omega (arith, t_page.aligned, t_page.low, u_page.aligned, u_page.low)

  pub read-write_other :
      (m : Machine) {i j : ℕ} (v : ℕ)
      → i < 1024
      → j < 1024
      → (t ≢ u) ⊎ (i ≢ j)
      → read_entry (write_entry m t i v) u j ≡ read_entry m u j
  unfolding write_word
  read-write_other m v hi hj ne = ground (arith, entries_apart hi hj ne)

  pub read-clear_other :
      (m : Machine) {j : ℕ} → j < 1024 → t ≢ u → read_entry (clear_page t m) u j ≡ read_entry m u j
  unfolding clear_words
  read-clear_other m hj ne = ground (arith, t_page.aligned, t_page.low, u_page.aligned, u_page.low)

pub read-write_same : (m : Machine) (t i v : ℕ) → read_entry (write_entry m t i v) t i ≡ v
unfolding write_word
read-write_same m t i v = ground arith

pub read-clear_same : (m : Machine) (t i : ℕ) → i < 1024 → read_entry (clear_page t m) t i ≡ 0
unfolding clear_words
read-clear_same m t i h = ground arith

pub write_word-lt :
    (memory : ℕ → ℕ) (a v : ℕ)
    → v < 2 ^ 32
    → ((x : ℕ) → memory x < 2 ^ 32)
    → (x : ℕ) → write_word memory a v x < 2 ^ 32
unfolding write_word
write_word-lt memory a v hv h x = ground (arith, h x)

pub clear_words-lt :
    (memory : ℕ → ℕ) (a : ℕ)
    → ((x : ℕ) → memory x < 2 ^ 32)
    → (x : ℕ) → clear_words memory a x < 2 ^ 32
unfolding clear_words
clear_words-lt memory a h x = ground (arith, h x)

-- What an allocation of one page of low memory changes.
pub record NewPage (pmm pmm' : Pmm) (p : ℕ) : Type 0 where
  pub page : IsPage pmm' p
  pub was_free : test pmm.bm (p / 4096) ≡ false
  pub kept : (q : ℕ) → test pmm.bm q ≡ true → test pmm'.bm q ≡ true
  pub valid : IsValid pmm'

-- Every page of low memory is in use.
abbrev pub NoPage : Pmm → Type 0
NoPage pmm =
    (p : ℕ)
    → p % 4096 ≡ 0
    → p + 4096 ≤ kernel_lowmem_limit
    → p + 4096 ≤ 4096 * pmm.total_frames
    → test pmm.bm (p / 4096) ≡ true

NoRun-NoPage : (pmm : Pmm) → NoRun pmm 0 kernel_lowmem_limit 1 → NoPage pmm
NoRun-NoPage pmm none_free p aligned low inside = elim (Bool-cases (test pmm.bm (p / 4096))) [
  | inl in_use ↦ in_use
  | inr is_free ↦
      let window : InWindow pmm 0 kernel_lowmem_limit 1 (p / 4096) = record {
        above = omega arith;
        below = inr (omega arith);
        in_memory = omega arith;
      } in
      absurd (
        none_free (p / 4096) window
          (λ q ge lt. let same : q ≡ p / 4096 = omega arith in ap (test pmm.bm) same ∙ is_free))
]

abbrev pub PageOutcome : Pmm → Kerror × Option ℕ × Pmm → Type 0
PageOutcome pmm r =
    ((p : ℕ) × (pmm' : Pmm) × (r ≡ (ok, some p, pmm')) × NewPage pmm pmm' p)
    ⊎ ((r ≡ (nomem, none, pmm)) × NoPage pmm)

pub alloc_page_lem : (pmm : Pmm) → IsValid pmm → PageOutcome pmm (alloc_page pmm)
alloc_page_lem pmm v =
    go _ (alloc_lem v (omega arith) 0 kernel_lowmem_limit strict (omega arith) (omega arith))
  where
    go :
        (r : Kerror × Option ℕ × Pmm)
        → AllocOutcome strict pmm 0 kernel_lowmem_limit 1 r
        → PageOutcome pmm r
    go (e, o, pmm') (inl g) =
        let e_ok = g.success in
        let o_some = g.address in
        let low : g.f * 4096 + 4096 ≤ kernel_lowmem_limit = ground (arith, g.inside.below) in
        let frame : g.f * 4096 / 4096 ≡ g.f = omega arith in
        inl (
          g.f * 4096,
          pmm',
          cc,
          record {
            page = record {
              aligned = omega arith;
              low = low;
              taken = rw frame (ground (arith, g.marks.marked g.f));
            };
            was_free = rw frame (ground (arith, g.was_free g.f));
            kept = λ q h. ground (arith, g.marks.marked q);
            valid = g.valid;
          },
        )
    go (e, o, pmm') (inr (no_run, (e_no, o_none, same))) = inr (cc, NoRun-NoPage pmm no_run)
