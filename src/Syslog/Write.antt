-- ===== src/Syslog/Write.antt =====
-- What the log of kernel/log/syslog.c holds.
use it_works_os.Base.{
  ℕ, zero, suc, ◌+◌, ◌-◌, ◌^◌, ◌≤◌, ◌<◌, ◌≡◌, refl, inl, inr, ap, ◌∙◌, arith, true, List, [], ◌∷◌,
  ◌++◌, length, drop, Bool-cases, ◌==◌,
}
use it_works_os.Bits.{bit-pos}
use it_works_os.Ringbuf.{overwrite}
use it_works_os.Ringbuf.Fifo
use it_works_os.Ringbuf.Refine.{IsValid, contents, overwrite_refines}
use it_works_os.Syslog.{Syslog, syslog_putc, syslog_write}

-- The last `n` elements of a list, or all if there are fewer.
abbrev pub last : ℕ → List ℕ → List ℕ
last n xs = drop (length xs - n) xs

drop-snoc :
    (k : ℕ) (xs : List ℕ) (x : ℕ) → k ≤ length xs → drop k (xs ++ (x ∷ [])) ≡ drop k xs ++ (x ∷ [])
drop-snoc zero xs x h = refl
drop-snoc (suc k) [] x h = absurd (omega arith)
drop-snoc (suc k) (y ∷ xs) x h = drop-snoc k xs x (omega arith)

drop-drop : (k : ℕ) (xs : List ℕ) → drop 1 (drop k xs) ≡ drop (suc k) xs
drop-drop zero xs = refl
drop-drop (suc k) [] = refl
drop-drop (suc k) (x ∷ xs) = drop-drop k xs

length-drop : (k : ℕ) (xs : List ℕ) → length (drop k xs) ≡ length xs - k
length-drop zero xs = omega arith
length-drop (suc k) [] = omega arith
length-drop (suc k) (x ∷ xs) = omega (arith, length-drop k xs)

length-snoc : (xs : List ℕ) (x : ℕ) → length (xs ++ (x ∷ [])) ≡ length xs + 1
length-snoc [] x = omega arith
length-snoc (y ∷ xs) x = omega (arith, length-snoc xs x)

append_assoc : (xs : List ℕ) (x : ℕ) (ys : List ℕ) → (xs ++ (x ∷ [])) ++ ys ≡ xs ++ (x ∷ ys)
append_assoc [] x ys = refl
append_assoc (z ∷ xs) x ys = ap (λ l. z ∷ l) (append_assoc xs x ys)

-- Overwriting in the last `n` bytes of a history gives the last `n` bytes of the longer history.
overwrite-last :
    (n : ℕ) (xs : List ℕ) (x : ℕ) → 0 < n → Fifo.overwrite n (last n xs) x ≡ last n (xs ++ (x ∷ []))
unfolding Fifo.overwrite
overwrite-last n xs x pos =
    let l = length-drop (length xs - n) xs in
    let whole = drop-snoc (length xs + 1 - n) xs x (omega arith) in
    elim (Bool-cases (length (last n xs) == n)) [
      | inl full ↦
          let k : length xs + 1 - n ≡ suc (length xs - n) = ground (arith, l) in
          rw (full, length-snoc xs x, whole, k, drop-drop (length xs - n) xs) refl
      | inr free ↦
          let k : length xs + 1 - n ≡ length xs - n = ground (arith, l) in
          rw (free, length-snoc xs x, whole, k) refl
    ]

append_nil : (xs : List ℕ) → xs ++ [] ≡ xs
append_nil [] = refl
append_nil (x ∷ xs) = ap (λ l. x ∷ l) (append_nil xs)

-- A log that holds the last bytes of a history, as many as its ring has room for, holds those of the
-- longer history after `syslog_write`, and its ring stays valid.
pub syslog_write_lem :
    (str : List ℕ) (k : ℕ) (s : Syslog) (history : List ℕ)
    → s.syslog_ready ≡ true
    → IsValid k s.syslog_rb
    → contents s.syslog_rb ≡ last (2 ^ k) history
    → (contents (syslog_write str s).syslog_rb ≡ last (2 ^ k) (history ++ str))
      × IsValid k (syslog_write str s).syslog_rb
unfolding syslog_write
syslog_write_lem [] k s history ready v c = (rw append_nil c, v)
syslog_write_lem (x ∷ str) k s history ready v c =
    let o = overwrite_refines v x in
    let s' : Syslog = record s { syslog_rb = overwrite s.syslog_rb x } in
    let put : syslog_putc x s ≡ s' = unfold syslog_putc in rw ready refl in
    let pos : 0 < 2 ^ k = bit-pos k in
    let c' : contents s'.syslog_rb ≡ last (2 ^ k) (history ++ (x ∷ [])) =
      o.0
      ∙ ap (λ (n : ℕ). Fifo.overwrite n (contents s.syslog_rb) x) v.power
      ∙ ap (λ (q : List ℕ). Fifo.overwrite (2 ^ k) q x) c
      ∙ overwrite-last (2 ^ k) history x pos in
    let rest = syslog_write_lem str k s' (history ++ (x ∷ [])) ready o.1 c' in
    rw (syslog_write, put) (rw append_assoc at rest)
