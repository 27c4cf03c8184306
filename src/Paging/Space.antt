-- ===== src/Paging/Space.antt =====
-- The invariant of the page tables of an address space, kernel/arch/x86/mm.c.
use it_works_os.Base.{
  ℕ, ◌/◌, ◌%◌, ◌^◌, ◌<◌, ◌≡◌, ◌≢◌, ◌⊎◌, inl, inr, refl, sym, arith, true, false, bit_and, ◌==◌,
  Bool-cases,
}
use it_works_os.Bits.Mask.{bit_and_mask}
use it_works_os.Kerror.{noent}
use it_works_os.Pmm.Frames.{IsValid}
use it_works_os.Paging.{
  Machine, read_entry, write_entry, page_mask, is_present, is_large, pde_index, pte_index, walk,
  x86_invlpg,
}
use it_works_os.Paging.Pages.{IsPage, read-write_other, read-write_same, write_word-lt}

-- Entry `i` of a directory refers to a table, which is then at `table_of`.
abbrev pub HasTable : ℕ → Machine → ℕ → Type 0
HasTable pd m i = (is_present (read_entry m pd i) ≡ true) × (is_large (read_entry m pd i) ≡ false)

abbrev pub table_of : ℕ → Machine → ℕ → ℕ
table_of pd m i = bit_and (read_entry m pd i) page_mask

-- The directory and its tables are different pages in use.
pub record IsSpace (pd : ℕ) (m : Machine) : Type 0 where
  pub frames : IsValid m.pmm
  pub words : (a : ℕ) → m.memory a < 2 ^ 32
  pub directory : IsPage m.pmm pd
  pub table : (i : ℕ) → i < 1024 → HasTable pd m i → IsPage m.pmm (table_of pd m i)
  pub not_directory : (i : ℕ) → i < 1024 → HasTable pd m i → table_of pd m i ≢ pd
  pub apart :
      (i j : ℕ)
      → i < 1024
      → j < 1024
      → i ≢ j
      → HasTable pd m i
      → HasTable pd m j
      → table_of pd m i ≢ table_of pd m j

pub pde_index-lt : (va : ℕ) → va < 2 ^ 32 → pde_index va < 1024
pde_index-lt va h = omega arith

pub pte_index_lem : (va : ℕ) → pte_index va ≡ va / 4096 % 1024
pte_index_lem va = bit_and_mask 10 (va / 2 ^ 12)

pub pte_index-lt : (va : ℕ) → pte_index va < 1024
pte_index-lt va = omega (arith, pte_index_lem va)

-- Two addresses of different pages differ in the index of the table or in that of the entry.
pub indices_apart :
    (va vb : ℕ) → va / 4096 ≢ vb / 4096 → pde_index va ≡ pde_index vb → pte_index va ≢ pte_index vb
indices_apart va vb ne same = omega (arith, pte_index_lem va, pte_index_lem vb)

-- What `walk` finds depends on the entry of the directory and on that of the table.
pub walk-agree :
    (pd' pd va : ℕ) (m m' : Machine)
    → read_entry m' pd' (pde_index va) ≡ read_entry m pd (pde_index va)
    → (HasTable pd m (pde_index va)
        → read_entry m' (table_of pd m (pde_index va)) (pte_index va)
          ≡ read_entry m (table_of pd m (pde_index va)) (pte_index va))
    → walk pd' va m' ≡ walk pd va m
unfolding walk
walk-agree pd' pd va m m' dir tab =
    rw dir (elim (Bool-cases (is_present (read_entry m pd (pde_index va)))) [
      | inr e ↦ rw e refl
      | inl e ↦ elim (Bool-cases (is_large (read_entry m pd (pde_index va)))) [
        | inl large ↦ rw (e, large) refl
        | inr small ↦ rw (e, small, tab (e, small)) refl
      ]
    ])

pub walk-mapped :
    (pd va : ℕ) (m : Machine)
    → HasTable pd m (pde_index va)
    → is_present (read_entry m (table_of pd m (pde_index va)) (pte_index va)) ≡ true
    → walk pd va m
      ≡ inr
          (table_of pd m (pde_index va), read_entry m (table_of pd m (pde_index va)) (pte_index va))
unfolding walk
walk-mapped pd va m (e, small) here = rw (e, small, here) refl

pub walk-unmapped :
    (pd va : ℕ) (m : Machine)
    → HasTable pd m (pde_index va)
    → is_present (read_entry m (table_of pd m (pde_index va)) (pte_index va)) ≡ false
    → walk pd va m ≡ inl noent
unfolding walk
walk-unmapped pd va m (e, small) here = rw (e, small, here) refl

pub walk-absent :
    (pd va : ℕ) (m : Machine)
    → is_present (read_entry m pd (pde_index va)) ≡ false
    → walk pd va m ≡ inl noent
unfolding walk
walk-absent pd va m e = rw e refl

-- Writing an entry of a table changes what is found for its page, and for no other.
module _ {pd : ℕ} {m : Machine} (v : IsSpace pd m) (va : ℕ) (word : va < 2 ^ 32)
    (has : HasTable pd m (pde_index va)) where
  abbrev pub written : ℕ → Machine
  written w = write_entry m (table_of pd m (pde_index va)) (pte_index va) w

  here : IsPage m.pmm (table_of pd m (pde_index va))
  here = v.table (pde_index va) (pde_index-lt va word) has

  pub same_directory : (w i : ℕ) → i < 1024 → read_entry (written w) pd i ≡ read_entry m pd i
  same_directory w i hi =
      read-write_other here v.directory m w (pte_index-lt va) hi
        (inl (v.not_directory (pde_index va) (pde_index-lt va word) has))

  pub written-other :
      (w vb : ℕ) → vb < 2 ^ 32 → vb / 4096 ≢ va / 4096 → walk pd vb (written w) ≡ walk pd vb m
  written-other w vb hb ne =
      walk-agree pd pd vb m (written w) (same_directory w (pde_index vb) (pde_index-lt vb hb))
        (λ has_b.
          read-write_other here (v.table (pde_index vb) (pde_index-lt vb hb) has_b) m w
            (pte_index-lt va) (pte_index-lt vb) (differs has_b))
    where
      differs :
          HasTable pd m (pde_index vb)
          → (table_of pd m (pde_index va) ≢ table_of pd m (pde_index vb))
            ⊎ (pte_index va ≢ pte_index vb)
      differs has_b = elim (Bool-cases (pde_index va == pde_index vb)) [
        | inl e ↦ inr (indices_apart va vb (λ e'. ne (sym e')) (ground arith))
        | inr e ↦ inl (
            v.apart (pde_index va) (pde_index vb) (pde_index-lt va word) (pde_index-lt vb hb)
              (ground arith) has has_b)
      ]

  pub written-HasTable : (w i : ℕ) → i < 1024 → HasTable pd (written w) i → HasTable pd m i
  written-HasTable w i hi h = rw (same_directory w i hi) at h

  pub written-IsSpace : (w : ℕ) → w < 2 ^ 32 → IsSpace pd (written w)
  written-IsSpace w small = record {
    frames = v.frames;
    words = write_word-lt m.memory _ w small v.words;
    directory = v.directory;
    table = λ i hi h. rw (same_directory w i hi) (v.table i hi (written-HasTable w i hi h));
    not_directory =
        λ i hi h. rw (same_directory w i hi) (v.not_directory i hi (written-HasTable w i hi h));
    apart = λ i j hi hj ne h h'.
        rw (same_directory w i hi, same_directory w j hj)
          (v.apart i j hi hj ne (written-HasTable w i hi h) (written-HasTable w j hj h'));
  }

  pub written-here :
      (w : ℕ) → is_present w ≡ true → walk pd va (written w) ≡ inr (table_of pd m (pde_index va), w)
  unfolding walk
  written-here w present =
      let (there, small) = has in
      rw
        (
          same_directory w (pde_index va) (pde_index-lt va word),
          there,
          small,
          read-write_same m (table_of pd m (pde_index va)) (pte_index va) w,
          present,
        )
        refl

  pub written-gone : (w : ℕ) → is_present w ≡ false → walk pd va (written w) ≡ inl noent
  unfolding walk
  written-gone w absent =
      let (there, small) = has in
      rw
        (
          same_directory w (pde_index va) (pde_index-lt va word),
          there,
          small,
          read-write_same m (table_of pd m (pde_index va)) (pte_index va) w,
          absent,
        )
        refl

pub flushed-IsSpace : {pd : ℕ} {m : Machine} (va : ℕ) → IsSpace pd m → IsSpace pd (x86_invlpg va m)
flushed-IsSpace va v = record {
  frames = v.frames;
  words = v.words;
  directory = v.directory;
  table = v.table;
  not_directory = v.not_directory;
  apart = v.apart;
}

pub walk-flushed : (pd va vb : ℕ) (m : Machine) → walk pd vb (x86_invlpg va m) ≡ walk pd vb m
unfolding walk
walk-flushed pd va vb m = refl
