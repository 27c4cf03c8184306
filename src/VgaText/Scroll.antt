-- ===== src/VgaText/Scroll.antt =====
-- The scrolling of kernel/drivers/video/vga/vga_text.c.
use native.Mathlib.Nat.{mul-le-mul_right}
use it_works_os.Base.{
  ℕ, zero, suc, ◌+◌, ◌-◌, ◌*◌, ◌^◌, ◌≤◌, ◌<◌, ◌≡◌, ap, ◌∙◌, arith, Bool, ◌&&◌, if◌then◌else◌, ◌==◌,
  ltb, leb, inl, inr, Bool-cases,
}
use it_works_os.VgaText.{vga_cell_clear, cell_index, write_cell, copy_cells, copy_rows, clear_cells}

-- Index `i` is one of the `n` from `a` on.
abbrev pub inside : ℕ → ℕ → ℕ → Bool
inside a n i = leb a i && ltb i (a + n)

module _ (w h : ℕ) (bounded : h * w < 2 ^ 32) where
  pub row-le : (y : ℕ) → y < h → y * w + w ≤ h * w
  row-le y hy = omega (arith, mul-le-mul_right w hy)

  pub cell_index_lem : (y x : ℕ) → y < h → x < w → cell_index w y x ≡ y * w + x
  cell_index_lem y x hy hx = omega (arith, row-le y hy)

  -- A row becomes the one after it.
  copy_cells_lem :
      (n x k : ℕ) (b : ℕ → ℕ) (i : ℕ)
      → suc k < h
      → x + n ≤ w
      → copy_cells w (suc k) n x b i ≡ (if inside (k * w + x) n i then b (i + w) else b i)
  unfolding copy_cells write_cell
  copy_cells_lem zero x k b i hk hx = ground arith
  copy_cells_lem (suc n) x k b i hk hx =
      let back : suc k - 1 ≡ k = omega arith in
      let to : cell_index w (suc k - 1) x ≡ k * w + x =
        rw back (cell_index_lem k x (omega arith) (omega arith)) in
      let from : cell_index w (suc k) x ≡ k * w + x + w =
        omega (arith, cell_index_lem (suc k) x hk (omega arith)) in
      rw (to, from)
        (copy_cells_lem n (x + 1) k (write_cell b (k * w + x) (b (k * w + x + w))) i hk
            (omega arith)
          ∙ elim (Bool-cases (i == k * w + x)) [
            | inl e ↦ let here : i ≡ k * w + x = ground arith in rw here (ground arith)
            | inr e ↦ ground arith
          ])

  copy_rows_lem :
      (n k : ℕ) (b : ℕ → ℕ) (i : ℕ)
      → k + n < h
      → copy_rows w n (suc k) b i ≡ (if inside (k * w) (n * w) i then b (i + w) else b i)
  unfolding copy_rows
  copy_rows_lem zero k b i hk = ground arith
  copy_rows_lem (suc n) k b i hk =
      let next = copy_rows_lem n (suc k) (copy_cells w (suc k) w 0 b) i (omega arith) in
      let start : suc k + 1 ≡ suc (suc k) = omega arith in
      rw start (
        next
        ∙ ground (
          arith,
          copy_cells_lem w 0 k b i (omega arith) (omega arith),
          copy_cells_lem w 0 k b (i + w) (omega arith) (omega arith),
        ))

  clear_cells_lem :
      (n x y : ℕ) (b : ℕ → ℕ) (i : ℕ)
      → y < h
      → x + n ≤ w
      → clear_cells w y n x b i ≡ (if inside (y * w + x) n i then vga_cell_clear else b i)
  unfolding clear_cells write_cell
  clear_cells_lem zero x y b i hy hx = ground arith
  clear_cells_lem (suc n) x y b i hy hx = rw (cell_index_lem y x hy (omega arith)) (
      clear_cells_lem n (x + 1) y (write_cell b (y * w + x) vga_cell_clear) i hy (omega arith)
      ∙ ground arith)

  -- The screen moves up by one row, and its last row is clear.
  pub scrolled :
      (b : ℕ → ℕ) (i : ℕ)
      → 0 < h
      → clear_cells w (h - 1) w 0 (copy_rows w (h - 1) 1 b) i
        ≡ (if ltb i ((h - 1) * w) then b (i + w) else if ltb i (h * w) then vga_cell_clear else b i)
  scrolled b i some_rows =
      let whole : h * w ≡ (h - 1) * w + w =
        let e : h ≡ h - 1 + 1 = omega arith in omega (arith, ap (λ t. t * w) e) in
      clear_cells_lem w 0 (h - 1) (copy_rows w (h - 1) 1 b) i (omega arith) (omega arith)
      ∙ ground (arith, copy_rows_lem (h - 1) 0 b i (omega arith))
