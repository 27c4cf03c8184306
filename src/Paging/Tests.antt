-- ===== src/Paging/Tests.antt =====
-- Runs of the page tables on an empty address space.
use it_works_os.Base.{
  ℕ, zero, suc, ◌^◌, ◌≤◌, ◌<◌, ◌≡◌, ◌⊎◌, refl, ap, sym, ◌∙◌, ◌==◌, if◌then◌else◌, Bool-cases, arith,
  inl, inr, true, none, some, [], ◌∷◌,
}
use it_works_os.Bits.{mask_test}
use it_works_os.Bits.Page.{mask_test-bit_0}
use it_works_os.Bitmap.{word, test}
use it_works_os.Bitmap.Range.Count.{count_clear}
use it_works_os.Kerror.{ok, nomem, noent}
use it_works_os.Pmm.{Pmm}
use it_works_os.Pmm.Frames.{IsValid}
use it_works_os.Paging.{
  map_range, map_page, table_for, set_entry, write_word, x86_vm_flags_to_pte, is_present,
  read_entry, arch_vm_space_attach_kernel, Machine, walk, arch_vm_map, arch_vm_unmap,
  arch_vm_protect, arch_vm_translate, arch_vm_space_init,
}
use it_works_os.Paging.Space.{IsSpace}
use it_works_os.Paging.Attach.{arch_vm_space_attach_kernel_lem}
use it_works_os.Paging.Map.{MapOutcome, arch_vm_map_lem}
use it_works_os.Paging.Change.{CallOutcome, protected, arch_vm_protect_lem}
use it_works_os.Paging.Cycle.{translate-map, unmap-map, arch_vm_space_init_lem}

-- Frames 0, 2, 3 and 4 of 40 are taken; directories are in 2 and 4, and the one in 2 has a table in 3.
abbrev pub frames : Pmm
frames = record {
  bm = record { words = 29 ∷ 0 ∷ []; nbits = 40; nelems = 0 };
  max_addr = 163840;
  total_frames = 40;
  free_frames = 36;
}

abbrev pub machine : Machine
machine = record {
  memory = λ a. if a == 0xC0002004 then 0x3007 else 0;
  pmm = frames;
  flushed = [];
  cr3 = 0;
}

words_fit : (i : ℕ) → word frames.bm i < 2 ^ 32
words_fit zero = omega arith
words_fit (suc zero) = omega arith
words_fit (suc (suc i)) = omega arith

frames-IsValid : IsValid frames
unfolding count_clear test mask_test
frames-IsValid = record {
  bitmap = record { storage = omega arith; small = omega arith; words_fit = words_fit };
  frames = refl;
  counted = refl;
}

entry_one : (i : ℕ) → is_present (read_entry machine 8192 i) ≡ true → i ≡ 1
entry_one i present = elim (Bool-cases (i == 1)) [
  | inl e ↦ ground arith
  | inr e ↦
      let gone : read_entry machine 8192 i ≡ 0 = ground arith in
      absurd (ground (arith, mask_test-bit_0 0, rw gone at present))
]

pub machine-IsSpace : IsSpace 8192 machine
unfolding test mask_test
machine-IsSpace = record {
  frames = frames-IsValid;
  words = λ a. ground arith;
  directory = record { aligned = refl; low = omega arith; taken = refl };
  table = λ i h (here, _).
      rw (entry_one i here) (record { aligned = refl; low = omega arith; taken = refl });
  not_directory = λ i h (here, _). rw (entry_one i here) (omega arith);
  apart =
      λ i j h h' ne (here, _) (here', _). absurd (ne (entry_one i here ∙ sym (entry_one j here')));
}

no_entry : (i : ℕ) → i < 1024 → is_present (read_entry machine 0x4000 i) ≡ true → ⊥
no_entry i h present =
    let gone : read_entry machine 0x4000 i ≡ 0 = ground arith in
    ground (arith, mask_test-bit_0 0, rw gone at present)

kernel-IsSpace : IsSpace 0x4000 machine
unfolding test mask_test
kernel-IsSpace = record {
  frames = frames-IsValid;
  words = λ a. ground arith;
  directory = record { aligned = refl; low = omega arith; taken = refl };
  table = λ i h (here, _). absurd (no_entry i h here);
  not_directory = λ i h (here, _). absurd (no_entry i h here);
  apart = λ i j h h' ne (here, _) has'. absurd (no_entry i h here);
}

arch_vm_map_lem_example :
    MapOutcome 8192 0x400000 0x200000 8192 2 machine
      (arch_vm_map 8192 0x400000 0x200000 8192 2 machine)
arch_vm_map_lem_example =
    arch_vm_map_lem 0x400000 0x200000 8192 2 machine-IsSpace (omega arith) (omega arith)

arch_vm_protect_lem_example :
    CallOutcome
      (protected 0)
      8192
      0x400000
      4096
      machine
      (arch_vm_protect 8192 0x400000 4096 0 machine)
arch_vm_protect_lem_example = arch_vm_protect_lem 0x400000 4096 machine-IsSpace (omega arith) 0

abbrev after_map : Machine
after_map = (arch_vm_map 8192 0x400000 0x200000 4096 2 machine).1

one_page : (arch_vm_map 8192 0x400000 0x200000 4096 2 machine).0 ≡ ok
unfolding arch_vm_map map_range map_page table_for set_entry write_word x86_vm_flags_to_pte
    mask_test
one_page = refl

mapped_one : arch_vm_map 8192 0x400000 0x200000 4096 2 machine ≡ (ok, after_map)
mapped_one = ap (λ e. (e, after_map)) one_page

translate-map_example : arch_vm_translate 8192 0x400123 after_map ≡ (ok, some 0x200123)
translate-map_example =
    translate-map 0x400000 0x200000 4096 2 machine-IsSpace (omega arith) (omega arith) mapped_one
      0x400123 (omega arith) (omega arith)

unmap-map_example :
    (m'' : Machine) × (arch_vm_unmap 8192 0x400000 4096 after_map ≡ (ok, m''))
    × IsSpace 8192 m''
    × ((vb : ℕ) → vb < 2 ^ 32 → walk 8192 vb m'' ≡ walk 8192 vb machine)
unmap-map_example =
    unmap-map 0x400000 0x200000 4096 2 machine-IsSpace (omega arith) (omega arith) mapped_one

arch_vm_space_init_lem_example :
    ((pd : ℕ) × (m' : Machine) × (arch_vm_space_init machine ≡ (ok, some pd, m'))
      × IsSpace pd m'
      × ((vb : ℕ) → vb < 2 ^ 32 → walk pd vb m' ≡ inl noent))
    ⊎ (arch_vm_space_init machine ≡ (nomem, none, machine))
arch_vm_space_init_lem_example = arch_vm_space_init_lem machine frames-IsValid (λ a. ground arith)

arch_vm_space_attach_kernel_lem_example :
    let (e, m') = arch_vm_space_attach_kernel 8192 0x4000 machine in
    (e ≡ ok)
    × ((vb : ℕ) → 0xC0000000 ≤ vb → vb < 2 ^ 32 → walk 8192 vb m' ≡ walk 0x4000 vb machine)
    × ((vb : ℕ) → vb < 0xC0000000 → walk 8192 vb m' ≡ walk 8192 vb machine)
    × ((vb : ℕ) → vb < 2 ^ 32 → walk 0x4000 vb m' ≡ walk 0x4000 vb machine)
arch_vm_space_attach_kernel_lem_example =
    arch_vm_space_attach_kernel_lem machine-IsSpace kernel-IsSpace (omega arith)
      (λ i h (here, _). absurd (no_entry i h here))
