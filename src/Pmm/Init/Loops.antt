-- ===== src/Pmm/Init/Loops.antt =====
-- What each loop of `pmm_init` does to the bits of the bitmap.
use it_works_os.Base.{
  ℕ, zero, suc, ◌+◌, ◌-◌, ◌*◌, ◌/◌, ◌%◌, ◌^◌, ◌≤◌, ◌<◌, ◌≡◌, refl, inl, inr, Bool, true, false, not,
  ◌&&◌, ◌||◌, List, [], ◌∷◌, arith, if◌then◌else◌, ◌==◌, ltb, leb, Bool-cases,
}
use it_works_os.Bits.Align.{align_up, align_down, align_up_frame, align_down_frame}
use it_works_os.Bitmap
use it_works_os.Bitmap.{Bitmap, test}
use it_works_os.Bitmap.Laws
use it_works_os.Bitmap.Laws.{test-set, set-IsValid, nbits-set, init-IsValid, nbits-init}
use it_works_os.Bitmap.Range.{clear_range}
use it_works_os.Bitmap.Range.Change.{
  within, nbits-clear_range, clear_range-IsValid, test-clear_range,
}
use it_works_os.Pmm.{frame_size, addr_to_frame}
use it_works_os.Pmm.Init.{
  Entry, usable, entry_end, max_end, total_of, entry_start_frame, entry_end_frame, free_entries,
  force_reserve, reserve_bytes,
}

-- A usable entry holds the whole frame `q`.
abbrev pub holds : Entry → ℕ → Bool
holds e q =
    (e.type == usable)
    && (leb e.base (q * frame_size) && leb (q * frame_size + frame_size) (e.base + e.length))

abbrev pub is_usable : List Entry → ℕ → Bool
is_usable [] q = false
is_usable (e ∷ es) q = holds e q || is_usable es q

-- Frame `q` and the bytes from `lo` up to `hi` overlap.
abbrev pub overlaps : ℕ → ℕ → ℕ → Bool
overlaps lo hi q = ltb (q * frame_size) hi && ltb lo (q * frame_size + frame_size)

-- The usable entries end below 2^44, so that frame numbers fit 32 bits, and not behind `m`.
abbrev pub Fit : ℕ → List Entry → Type 0
Fit m [] = Unit
Fit m (e ∷ es) = (e.type ≡ usable → e.base + e.length ≤ m) × Fit m es

Fit-mono : (m m' : ℕ) (es : List Entry) → m ≤ m' → Fit m es → Fit m' es
Fit-mono m m' [] h f = tt
Fit-mono m m' (e ∷ es) h f = (λ u. omega (arith, f.0 u), Fit-mono m m' es h f.1)

-- The greatest end is an upper bound, and no greater than a bound that all the ends have.
pub max_end_bounds :
    (es : List Entry) (m M : ℕ)
    → M < 2 ^ 64
    → m ≤ M
    → Fit M es
    → (m ≤ max_end es m) × (max_end es m ≤ M) × Fit (max_end es m) es
unfolding max_end
max_end_bounds [] m M small h f = (omega arith, h, tt)
max_end_bounds (e ∷ es) m M small h f =
    let m' : ℕ =
      if not (e.type == usable) then m else if ltb m (entry_end e) then entry_end e else m in
    let up : (m ≤ m') × (m' ≤ M) × (e.type ≡ usable → e.base + e.length ≤ m') =
      (ground (arith, f.0), ground (arith, f.0), λ u. ground (arith, f.0)) in
    let rest = max_end_bounds es m' M small up.1 f.1 in
    (omega (arith, rest.0, up.0), rest.1, (λ u. omega (arith, rest.0, up.2 u), rest.2))

abbrev pub limit : ℕ
limit = 2 ^ 44 - 4096

pub total_of_lem : (m : ℕ) → m ≤ limit → total_of m ≡ (m + 4095) / 4096
unfolding total_of
total_of_lem m h = omega (arith, align_up_frame m (omega arith))

-- The frames that an entry frees are those that it holds.
entry_frames :
    (e : Entry) (m q : ℕ)
    → m ≤ limit
    → e.type ≡ usable
    → e.base + e.length ≤ m
    → (within (entry_start_frame e) (entry_end_frame e - entry_start_frame e) q ≡ holds e q)
      × (entry_start_frame e + (entry_end_frame e - entry_start_frame e) ≤ total_of m)
unfolding entry_start_frame entry_end_frame
entry_frames e m q small u h = (
  ground (arith, align_up_frame e.base, align_down_frame (entry_end e)),
  ground (arith, align_up_frame e.base, align_down_frame (entry_end e), total_of_lem m small),
)

-- `new` is a valid bitmap as long as `old`, with the bits that `bits` gives.
pub record Became (old new : Bitmap) (bits : ℕ → Bool) : Type 0 where
  pub valid : Laws.IsValid new
  pub same_nbits : new.nbits ≡ old.nbits
  pub tests : (q : ℕ) → test new q ≡ bits q

pub free_entries_lem :
    (es : List Entry) (m : ℕ) {bm : Bitmap}
    → m ≤ limit
    → Fit m es
    → Laws.IsValid bm
    → bm.nbits ≡ total_of m
    → Became bm (free_entries es bm) (λ q. if is_usable es q then false else test bm q)
unfolding free_entries
free_entries_lem [] m small f v n = record { valid = v; same_nbits = refl; tests = λ q. refl }
free_entries_lem (e ∷ es) m {bm} small f v n = elim (Bool-cases (e.type == usable)) [
  | inr other ↦
      let rest = free_entries_lem es m {bm = bm} small f.1 v n in
      rw other (record {
        valid = rest.valid;
        same_nbits = rest.same_nbits;
        tests = λ q. ground (arith, rest.tests q);
      })
  | inl use_it ↦
      let u : e.type ≡ usable = ground arith in
      let s = entry_start_frame e in
      let k = entry_end_frame e - entry_start_frame e in
      let fits : s + k ≤ bm.nbits = omega (arith, (entry_frames e m 0 small u (f.0 u)).1) in
      let rest =
        free_entries_lem es m {bm = clear_range bm s k} small f.1 (clear_range-IsValid s k v fits)
          (omega (arith, nbits-clear_range bm s k)) in
      rw use_it (record {
        valid = rest.valid;
        same_nbits = omega (arith, rest.same_nbits, nbits-clear_range bm s k);
        tests = λ q. ground (
          arith,
          rest.tests q,
          test-clear_range s k q v fits,
          (entry_frames e m q small u (f.0 u)).0,
        );
      })
]

pub force_reserve_lem :
    (total start left : ℕ) (bm : Bitmap)
    → Laws.IsValid bm
    → bm.nbits ≡ total
    → start + left < 2 ^ 32
    → Became bm
        (force_reserve total start left bm)
        (λ q. if within start left q && ltb q total then true else test bm q)
unfolding force_reserve
force_reserve_lem total start zero bm v n small = record {
  valid = v;
  same_nbits = refl;
  tests = λ q. ground arith;
}
force_reserve_lem total start (suc left) bm v n small =
    let e : start % 2 ^ 32 ≡ start = omega arith in
    elim (Bool-cases (ltb start total)) [
      | inl in_range ↦
          let h : start < bm.nbits = ground arith in
          let rest =
            force_reserve_lem total (start + 1) left (Bitmap.set bm start) (set-IsValid start v h)
              (omega (arith, nbits-set bm start)) (omega arith) in
          rw (e, in_range)
            (record {
              valid = rest.valid;
              same_nbits = omega (arith, rest.same_nbits, nbits-set bm start);
              tests = λ q. ground (arith, rest.tests q, test-set start v h q);
            })
      | inr out ↦
          let rest = force_reserve_lem total (start + 1) left bm v n (omega arith) in
          rw (e, out)
            (record {
              valid = rest.valid;
              same_nbits = rest.same_nbits;
              tests = λ q. ground (arith, rest.tests q);
            })
    ]

pub reserve_bytes_lem :
    (total lo hi : ℕ) (bm : Bitmap)
    → Laws.IsValid bm
    → bm.nbits ≡ total
    → lo ≤ hi
    → hi ≤ limit
    → Became bm
        (reserve_bytes total lo hi bm)
        (λ q. if overlaps lo hi q && ltb q total then true else test bm q)
unfolding reserve_bytes addr_to_frame
reserve_bytes_lem total lo hi bm v n le small =
    let s : align_down 64 lo 4096 / 4096 % 2 ^ 32 ≡ lo / 4096 =
      omega (arith, align_down_frame lo) in
    let t : align_up 64 hi 4096 / 4096 % 2 ^ 32 ≡ (hi + 4095) / 4096 =
      omega (arith, align_up_frame hi) in
    let k : ((hi + 4095) / 4096 + 2 ^ 32 - lo / 4096) % 2 ^ 32 ≡ (hi + 4095) / 4096 - lo / 4096 =
      omega arith in
    let r =
      force_reserve_lem total (lo / 4096) ((hi + 4095) / 4096 - lo / 4096) bm v n (omega arith) in
    rw (s, t, k)
      (record {
        valid = r.valid;
        same_nbits = r.same_nbits;
        tests = λ q. ground (arith, r.tests q);
      })
