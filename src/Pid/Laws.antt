-- ===== src/Pid/Laws.antt =====
-- Process numbers are unique, positive, and the lowest that are free.
use it_works_os.Base.{
  ℕ, ◌<◌, ◌≡◌, ◌≢◌, ◌⊎◌, refl, inl, inr, Bool, true, false, arith, if◌then◌else◌, ◌==◌, ltb, leb,
  Bool-cases, Option, some, none,
}
use it_works_os.Base.Int.{ℤ, pos, negsuc}
use it_works_os.Kerror.{Kerror, ok, inval, noent, nospc}
use it_works_os.Bitmap.{Bitmap, test, find_zero}
use it_works_os.Bitmap.Laws.{
  IsValid, test-set, test-clear, set-IsValid, clear-IsValid, nbits-set, nbits-clear,
}
use it_works_os.Bitmap.Find.{AllSet, IsFirstClear, find_zero-IsFirstClear}
use it_works_os.Pid.{pid_max, alloc_at, pid_alloc, pid_free, pid_init}

-- The bitmap after `pid_init`: number 0 is never free.
pub record IsReady (bm : Bitmap) : Type 0 where
  pub valid : IsValid bm
  pub bits : bm.nbits ≡ pid_max
  pub idle : test bm 0 ≡ true

-- `bm'` is `bm` with number `p` marked by `b`, and ready.
pub record Marks (bm bm' : Bitmap) (p : ℕ) (b : Bool) : Type 0 where
  pub tests : (q : ℕ) → test bm' q ≡ (if p == q then b else test bm q)
  pub ready : IsReady bm'

abbrev pub AllocOutcome : Bitmap → (Kerror ⊎ ℕ) × Bitmap → Type 0
AllocOutcome bm (inl e, bm') = (e ≡ nospc) × (bm' ≡ bm) × AllSet bm 0 pid_max
AllocOutcome bm (inr p, bm') =
    (0 < p) × (p < pid_max) × (test bm p ≡ false) × AllSet bm 0 p × Marks bm bm' p true

abbrev pub FreeOutcome : Bitmap → ℤ → Kerror × Bitmap → Type 0
FreeOutcome bm pid (e, bm') =
    ((p : ℕ) × (pid ≡ pos p)
      × (e ≡ ok)
      × (0 < p)
      × (p < pid_max)
      × (test bm p ≡ true)
      × Marks bm bm' p false)
    ⊎ ((p : ℕ) × (pid ≡ pos p) × (e ≡ noent) × (bm' ≡ bm) × (test bm p ≡ false))
    ⊎ ((e ≡ inval) × (bm' ≡ bm) × ((p : ℕ) → 0 < p → p < pid_max → pid ≢ pos p))

-- A fresh bitmap of 64 clear bits is made ready.
pub pid_init-IsReady : {bm : Bitmap} → IsValid bm → bm.nbits ≡ pid_max → IsReady (pid_init bm).1
unfolding pid_init
pid_init-IsReady {bm} v bits =
    let h : 0 < bm.nbits = omega arith in
    record {
      valid = set-IsValid 0 v h;
      bits = omega (arith, nbits-set bm 0);
      idle = ground (arith, test-set 0 v h 0);
    }

module _ {bm : Bitmap} (r : IsReady bm) where
  at_found : (o : Option ℕ) → IsFirstClear bm 0 o → AllocOutcome bm (alloc_at bm o)
  at_found none full = (refl, refl, λ q ge lt. full q ge (omega (arith, r.bits)))
  at_found (some p) (_, lt, clear, before) =
      let t = test-set p r.valid lt in
      let pos_p : 0 < p = ground (arith, r.idle) in
      (
        pos_p,
        omega (arith, r.bits),
        clear,
        before,
        record {
          tests = t;
          ready = record {
            valid = set-IsValid p r.valid lt;
            bits = omega (arith, nbits-set bm p, r.bits);
            idle = ground (arith, t 0, r.idle);
          };
        },
      )

  -- `pid_alloc` returns the lowest free number, which is never 0, and marks just that one; it says
  -- NOSPC, and changes nothing, only if all 64 numbers are taken.
  pub pid_alloc_lem : AllocOutcome bm (pid_alloc bm)
  unfolding pid_alloc
  pid_alloc_lem = at_found (find_zero bm) (find_zero-IsFirstClear r.valid)

  -- `pid_free` on every `pid_t`: it frees a taken number from 1 to 63, and refuses any other
  -- without a change.
  pub pid_free_lem : (pid : ℤ) → FreeOutcome bm pid (pid_free pid bm)
  unfolding pid_free
  pid_free_lem (negsuc n) = inr (inr (refl, refl, λ p gt lt e. cc))
  pid_free_lem (pos pid) = elim (Bool-cases (ltb pid 1)) [
    | inl low ↦ rw low (inr (inr (refl, refl, λ p gt lt e. ground arith)))
    | inr ge ↦ elim (Bool-cases (leb pid_max pid)) [
      | inl high ↦ rw (ge, high) (inr (inr (refl, refl, λ p gt lt e. ground arith)))
      | inr below ↦ elim (Bool-cases (test bm pid)) [
        | inr clear ↦ rw (ge, below, clear) (inr (inl (pid, refl, refl, refl, clear)))
        | inl taken ↦
            let lt : pid < bm.nbits = ground (arith, r.bits) in
            let t = test-clear pid r.valid lt in
            rw (ge, below, taken)
              (inl (
                pid,
                refl,
                refl,
                ground arith,
                ground arith,
                taken,
                record {
                  tests = t;
                  ready = record {
                    valid = clear-IsValid pid r.valid lt;
                    bits = omega (arith, nbits-clear bm pid, r.bits);
                    idle = ground (arith, t 0, r.idle);
                  };
                },
              ))
      ]
    ]
  ]

module _ {bm : Bitmap} (r : IsReady bm) where
  freed :
      {bm' : Bitmap} (p : ℕ) (o : Kerror × Bitmap)
      → AllocOutcome bm (inr p, bm')
      → FreeOutcome bm' (pos p) o
      → (o.0 ≡ ok) × IsReady o.1 × ((q : ℕ) → test o.1 q ≡ test bm q)
  freed p (e, b) (_, _, clear, _, m) (inl (p', same, done, _, _, _, m')) =
      let eq : p ≡ p' = ground arith in (done, m'.ready, λ q. ground (arith, m'.tests q, m.tests q))
  freed p (e, b) (_, _, _, _, m) (inr (inl (p', same, _, _, gone))) =
      let eq : p ≡ p' = ground arith in absurd (ground (arith, m.tests p))
  freed p (e, b) (gt, lt, _, _, _) (inr (inr (_, _, never))) = absurd (never p gt lt refl)

  -- Freeing a number that was just handed out succeeds, and every number is then as before.
  pub pid_free-pid_alloc :
      {bm' : Bitmap} (p : ℕ)
      → pid_alloc bm ≡ (inr p, bm')
      → ((pid_free (pos p) bm').0 ≡ ok)
        × IsReady (pid_free (pos p) bm').1
        × ((q : ℕ) → test (pid_free (pos p) bm').1 q ≡ test bm q)
  pid_free-pid_alloc {bm'} p got =
      let a = rw got at (pid_alloc_lem r) in
      freed p (pid_free (pos p) bm') a (pid_free_lem (a.4).ready (pos p))
