-- ===== src/Ringbuf/Window.antt =====
-- The bytes of a ring, read off its array from the tail on.
use native.Mathlib.Nat.{
  mod-add-mod, mod-mod_of_dvd, dvd_trans, dvd_refl, dvd-mul_right, pow-suc, mod-eq_of_lt,
  mod-eq-sub-mod,
}
use Prim.Native.Nat.{◌∣◌}
use it_works_os.Base.{
  ℕ, zero, suc, ◌+◌, ◌-◌, ◌%◌, ◌^◌, ◌≤◌, ◌<◌, ◌≡◌, ◌≢◌, refl, inl, inr, arith, List, [], ◌∷◌, ◌++◌,
  ap₂, ap, ◌∙◌, length, get_or, set, get_or-set_self, get_or-set_ne, Bool-cases, ltb,
}

-- `n` bytes from position `t` on; position `t` lies at index `t % cap`.
abbrev pub window : List ℕ → ℕ → ℕ → ℕ → List ℕ
window buf cap t zero = []
window buf cap t (suc n) = get_or buf (t % cap) 0 ∷ window buf cap (t + 1) n

pub length-window : (buf : List ℕ) (cap t n : ℕ) → length (window buf cap t n) ≡ n
length-window buf cap t zero = refl
length-window buf cap t (suc n) = ap suc (length-window buf cap (t + 1) n)

same_next : (cap t u : ℕ) → t % cap ≡ u % cap → (t + 1) % cap ≡ (u + 1) % cap
same_next cap t u e = rw (← mod-add-mod t cap 1, ← mod-add-mod u cap 1, e)

-- Only the index of a position counts.
pub window_of_same :
    (buf : List ℕ) (cap t u n : ℕ) → t % cap ≡ u % cap → window buf cap t n ≡ window buf cap u n
window_of_same buf cap t u zero e = refl
window_of_same buf cap t u (suc n) e =
    ap₂ ◌∷◌ (ap (λ (k : ℕ). get_or buf k 0) e)
      (window_of_same buf cap (t + 1) (u + 1) n (same_next cap t u e))

-- Fewer than `cap` positions further on, the index is another one.
index-ne : (cap t d : ℕ) → 0 < d → d < cap → (t + d) % cap ≢ t % cap
index-ne cap t d pos few same = elim (Bool-cases (ltb (t % cap + d) cap)) [
  | inl low ↦
      ground (arith, mod-add-mod t cap d, mod-eq_of_lt {n = t % cap + d} {m = cap} (ground arith))
  | inr high ↦ ground (
    arith,
    mod-add-mod t cap d,
    mod-eq-sub-mod {n = t % cap + d} {m = cap} (ground arith),
    mod-eq_of_lt {n = t % cap + d - cap} {m = cap} (omega arith),
  )
]

-- A byte written at the position behind a window that is not full becomes its last one.
pub window-set :
    (buf : List ℕ) (cap x n t i : ℕ)
    → cap ≤ length buf
    → n < cap
    → i ≡ (t + n) % cap
    → window (set buf i x) cap t (suc n) ≡ window buf cap t n ++ (x ∷ [])
window-set buf cap x zero t i room few e =
    let e' : i ≡ t % cap = e ∙ ap (λ (k : ℕ). k % cap) (omega arith) in
    rw e' (rw (get_or-set_self buf (t % cap) x 0 (omega arith)))
window-set buf cap x (suc n) t i room few e =
    ap₂ ◌∷◌ (get_or-set_ne buf i (t % cap) x 0 (rw e (index-ne cap t (suc n) (omega arith) few))) (
      window-set buf cap x n (t + 1) i room (omega arith)
        (e ∙ ap (λ (k : ℕ). k % cap) (omega arith)))

pub get_or-window :
    (buf : List ℕ) (cap t n i : ℕ)
    → i < n
    → get_or (window buf cap t n) i 0 ≡ get_or buf ((t + i) % cap) 0
get_or-window buf cap t zero i h = absurd (omega arith)
get_or-window buf cap t (suc n) zero h = ap (λ (k : ℕ). get_or buf (k % cap) 0) (omega arith)
get_or-window buf cap t (suc n) (suc i) h =
    get_or-window buf cap (t + 1) n i (omega arith)
    ∙ ap (λ (k : ℕ). get_or buf (k % cap) 0) (omega arith)

-- A power of two divides a greater one, so wrapping a position at 2^n keeps its index.
pow-dvd : (k d n : ℕ) → k + d ≡ n → 2 ^ k ∣ 2 ^ n
pow-dvd k zero n e = let e' : n ≡ k = omega arith in rw e' (dvd_refl (2 ^ k))
pow-dvd k (suc d) n e =
    let e' : n ≡ suc (k + d) = omega arith in
    rw (e', pow-suc) (dvd_trans (2 ^ k) (pow-dvd k d (k + d) refl) (dvd-mul_right (2 ^ (k + d)) 2))

pub wrap-mod : (k x : ℕ) → k ≤ 32 → x % 2 ^ 32 % 2 ^ k ≡ x % 2 ^ k
wrap-mod k x h = mod-mod_of_dvd (2 ^ k) x (pow-dvd k (32 - k) 32 (omega arith))
