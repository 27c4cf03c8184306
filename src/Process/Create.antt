-- ===== src/Process/Create.antt =====
-- process_create of kernel/process/process.c gives back what it took when a step fails.
use mathlib.Core.Path.{subst}
use it_works_os.Base.{
  ℕ, ◌+◌, ◌-◌, ◌^◌, ◌≤◌, ◌<◌, ◌≡◌, ◌≢◌, ◌⊎◌, inl, inr, refl, ap, sym, ◌∙◌, arith, true, false, List,
  if◌then◌else◌, ◌==◌, Bool-cases,
}
use it_works_os.Bitmap.{Bitmap, test}
use it_works_os.Bitmap.Find.{AllSet}
use it_works_os.Kerror.{Kerror, inval, nospc, is_err}
use it_works_os.Kheap.{Kheap, kmalloc, kfree}
use it_works_os.Kheap.Alloc.{AllocOutcome, kmalloc_lem}
use it_works_os.Kheap.Blocks.{Block, used_of, Seg-total}
use it_works_os.Kheap.Cycle.{kfree-kmalloc}
use it_works_os.Kheap.Heap.{IsHeap, from_at}
use it_works_os.Pid.{pid_alloc}
use it_works_os.Pid.Laws
use it_works_os.Pid.Laws.{IsReady, Marks, pid_alloc_lem, pid_free-pid_alloc}
use it_works_os.Process.{
  Kernel, Process, Spaces, new_process, assign, give_pid, give_memory, with_stack, with_space,
  with_memory, with_pid, process_create,
}

-- The numbers and the blocks in use are those from before, and the table is the same.
pub record Unchanged {W : Type 0} (bs : List Block) (k k' : Kernel W) : Type 0 where
  pub pids : (q : ℕ) → test k'.pid_bm q ≡ test k.pid_bm q
  pub ready : IsReady k'.pid_bm
  pub blocks : List Block
  pub heap : IsHeap k'.heap blocks
  pub used : used_of k.heap.kheap_start blocks ≡ used_of k.heap.kheap_start bs
  pub table : k'.process_table ≡ k.process_table

module _ {W : Type 0} (spaces : Spaces W) (process_size name : ℕ) (k : Kernel W) (bs : List Block)
    (ready : IsReady k.pid_bm) (is : IsHeap k.heap bs) (large : 24 ≤ process_size)
    (small : process_size + 23 < 2 ^ 32) where
  -- The step that failed with the code `e`, and what it has left of the spaces and the stacks: no name,
  -- no free number, no memory, no address space or no kernel stack.
  pub data Cause (e : Kerror) (w' : W) : Type 0 where
    no_name : name ≡ 0 → e ≡ inval → w' ≡ k.rest → Cause e w'
    no_number : e ≡ nospc → AllSet k.pid_bm 0 64 → w' ≡ k.rest → Cause e w'
    no_memory : kmalloc process_size k.heap ≡ (inl e, k.heap) → w' ≡ k.rest → Cause e w'
    no_space :
        (proc : ℕ) (heap : Kheap)
        → kmalloc process_size k.heap ≡ (inr proc, heap)
        → spaces.vm_space_init proc (spaces.memset proc k.rest) ≡ (e, w')
        → is_err e ≡ true
        → Cause e w'
    no_stack :
        (proc : ℕ) (heap : Kheap)
        → kmalloc process_size k.heap ≡ (inr proc, heap)
        → (e1 : Kerror) (w1 w2 : W)
        → spaces.vm_space_init proc (spaces.memset proc k.rest) ≡ (e1, w1)
        → is_err e1 ≡ false
        → spaces.kstack_alloc proc w1 ≡ (e, w2)
        → is_err e ≡ true
        → w' ≡ (spaces.vm_space_destroy proc w2).1
        → Cause e w'

  -- Every step behind the memory has succeeded, and `w'` is what they have left.
  pub record AllDone (proc : ℕ) (w' : W) : Type 0 where
    pub e1 : Kerror
    pub w1 : W
    pub space : spaces.vm_space_init proc (spaces.memset proc k.rest) ≡ (e1, w1)
    pub has_space : is_err e1 ≡ false
    pub e2 : Kerror
    pub stack : spaces.kstack_alloc proc w1 ≡ (e2, w')
    pub has_stack : is_err e2 ≡ false

  -- A process, with the lowest free number, or the error of a failed step, that changes no number, no
  -- block and no entry of the table.
  abbrev pub CreateOutcome : (Kerror ⊎ ℕ) × Kernel W → Type 0
  CreateOutcome (inl e, k') = Unchanged bs k k' × Cause e k'.rest
  CreateOutcome (inr proc, k') =
      (pid : ℕ) × (0 < pid)
      × (pid < 64)
      × (test k.pid_bm pid ≡ false)
      × AllSet k.pid_bm 0 pid
      × ((q : ℕ) → test k'.pid_bm q ≡ (if pid == q then true else test k.pid_bm q))
      × (k'.process_table ≡ assign k.process_table pid proc)
      × (k'.processes proc ≡ new_process name pid)
      × (kmalloc process_size k.heap ≡ (inr proc, k'.heap))
      × AllDone proc k'.rest
      × (name ≢ 0)

  -- What was allocated ends in front of the end of the heap.
  inside :
      {proc : ℕ} {heap : Kheap}
      → kmalloc process_size k.heap ≡ (inr proc, heap)
      → proc + 24 < k.heap.kheap_end
  inside {proc} {heap} got = go _ (kmalloc_lem process_size k.heap bs is (omega arith) small) got
    where
      go :
          (r : (Kerror ⊎ ℕ) × Kheap)
          → AllocOutcome process_size k.heap bs r
          → r ≡ (inr proc, heap)
          → proc + 24 < k.heap.kheap_end
      go (r, h') (inr (no_room, _, _)) e = cc
      go (r, h') (inl (ptr, is_ptr, a)) e =
          let same : ptr ≡ proc = cc in
          let (b, behind) = from_at a.heap a.at in
          let end = Seg-total h' (ptr - 16 + a.at.block.size) h'.kheap_end a.at.right behind in
          omega (arith, end, a.room, a.same_end, same, a.behind_header)

  module _ (pid : ℕ) {bm : Bitmap} (took : pid_alloc k.pid_bm ≡ (inr pid, bm)) where
    -- Both are given back.
    gave_back :
        {proc : ℕ} {heap : Kheap}
        → kmalloc process_size k.heap ≡ (inr proc, heap)
        → (procs : ℕ → Process) → (w : W)
        → Unchanged bs k (
            give_memory spaces process_size proc (
              give_pid spaces process_size pid
                (record k { pid_bm = bm; heap = heap; processes = procs; rest = w })))
    gave_back {proc} {heap} got procs w =
        let (_, pid_ready, pids) = pid_free-pid_alloc ready pid took in
        let (h'', run, bs'', heap_is, used) =
          kfree-kmalloc process_size is (omega arith) small got (inside got) in
        let same : h'' ≡ (kfree proc heap).1 = ap (λ q. q.1) (sym run) in
        record {
          pids = pids;
          ready = pid_ready;
          blocks = bs'';
          heap = subst (λ h. IsHeap h bs'') same heap_is;
          used = used;
          table = refl;
        }

    -- The process, when all steps have succeeded.
    made :
        {proc : ℕ} {heap : Kheap}
        → kmalloc process_size k.heap ≡ (inr proc, heap)
        → Laws.AllocOutcome k.pid_bm (inr pid, bm)
        → (w : W) → AllDone proc w
        → name ≢ 0
        → CreateOutcome (
          inr proc,
          record k {
            pid_bm = bm;
            heap = heap;
            processes = assign k.processes proc (new_process name pid);
            process_table = assign k.process_table pid proc;
            rest = w;
          },
        )
    made {proc} got (gt, lt, was_free, lowest, marks) w all named =
        (pid, gt, lt, was_free, lowest, marks.tests, refl, ground arith, got, all, named)

    step_stack :
        {proc : ℕ} {heap : Kheap}
        → kmalloc process_size k.heap ≡ (inr proc, heap)
        → Laws.AllocOutcome k.pid_bm (inr pid, bm)
        → name ≢ 0
        → (e1 : Kerror) (w1 : W) → spaces.vm_space_init proc (spaces.memset proc k.rest) ≡ (e1, w1)
        → is_err e1 ≡ false
        → (w0 : W) → (r : Kerror × W) → spaces.kstack_alloc proc w1 ≡ r
        → CreateOutcome (
            with_stack spaces process_size pid proc
              (record k {
                pid_bm = bm;
                heap = heap;
                processes = assign k.processes proc (new_process name pid);
                rest = w0;
              })
              r)
    step_stack {proc} {heap} got outcome named e1 w1 space has w0 (e, w) stack =
        elim (Bool-cases (is_err e)) [
          | inl bad ↦ rw bad (
            gave_back got (assign k.processes proc (new_process name pid))
                (spaces.vm_space_destroy proc w).1,
            no_stack proc heap got e1 w1 w space has stack bad refl,
          )
          | inr good ↦ rw good (
              made got outcome w
                (record {
                  e1 = e1;
                  w1 = w1;
                  space = space;
                  has_space = has;
                  e2 = e;
                  stack = stack;
                  has_stack = good;
                })
                named)
        ]

    step_space :
        {proc : ℕ} {heap : Kheap}
        → kmalloc process_size k.heap ≡ (inr proc, heap)
        → Laws.AllocOutcome k.pid_bm (inr pid, bm)
        → name ≢ 0
        → (r : Kerror × W) → spaces.vm_space_init proc (spaces.memset proc k.rest) ≡ r
        → CreateOutcome (
            with_space spaces process_size pid proc
              (record k {
                pid_bm = bm;
                heap = heap;
                processes = assign k.processes proc (new_process name pid);
              })
              r)
    step_space {proc} {heap} got outcome named (e, w) space = elim (Bool-cases (is_err e)) [
      | inl bad ↦ rw bad (
        gave_back got (assign k.processes proc (new_process name pid)) w,
        no_space proc heap got space bad,
      )
      | inr good ↦
          rw good
            (step_stack got outcome named e w space good k.rest (spaces.kstack_alloc proc w) refl)
    ]

    step_memory :
        Laws.AllocOutcome k.pid_bm (inr pid, bm)
        → name ≢ 0
        → (r : (Kerror ⊎ ℕ) × Kheap) → kmalloc process_size k.heap ≡ r
        → AllocOutcome process_size k.heap bs r
        → CreateOutcome (with_memory spaces process_size name pid (record k { pid_bm = bm }) r)
    step_memory outcome named (inr proc, heap) got a =
        step_space got outcome named (spaces.vm_space_init proc (spaces.memset proc k.rest)) refl
    step_memory outcome named (inl e, heap) got (inl (ptr, bad, _)) = cc
    step_memory outcome named (inl e, heap) got (inr (_, same, _)) =
        let (_, pid_ready, pids) = pid_free-pid_alloc ready pid took in
        (
          record {
            pids = pids;
            ready = pid_ready;
            blocks = bs;
            heap = subst (λ h. IsHeap h bs) (sym same) is;
            used = refl;
            table = refl;
          },
          no_memory (got ∙ ap (λ h. (inl e, h)) same) refl,
        )

  unchanged : (bm : Bitmap) → bm ≡ k.pid_bm → Unchanged bs k (record k { pid_bm = bm })
  unchanged bm same = record {
    pids = λ q. ap (λ b. test b q) same;
    ready = subst IsReady (sym same) ready;
    blocks = bs;
    heap = is;
    used = refl;
    table = refl;
  }

  step_pid :
      (r : (Kerror ⊎ ℕ) × Bitmap)
      → name ≢ 0
      → pid_alloc k.pid_bm ≡ r
      → Laws.AllocOutcome k.pid_bm r
      → CreateOutcome (with_pid spaces process_size name k r)
  step_pid (inl e, bm) named took (e_nospc, same, full) =
      (unchanged bm same, no_number e_nospc full refl)
  step_pid (inr pid, bm) named took outcome =
      step_memory pid took outcome named (kmalloc process_size k.heap) refl
        (kmalloc_lem process_size k.heap bs is (omega arith) small)

  -- process_create on every branch. A process that it returns has the lowest free number, from 1
  -- to 63, which alone is taken, lies in a block that kmalloc gave, is in the state CREATED with its
  -- name, and stands in the table at its number; its address space is made on cleared memory, then its
  -- kernel stack, both with success. Otherwise a step has failed, in this order: the test of the name, the
  -- number, the memory, the address space, the kernel stack; its code is returned, every number is free
  -- or taken as before, the blocks in use are those from before, and the table is the same. Only if the
  -- kernel stack fails is the address space destroyed.
  pub process_create_lem : CreateOutcome (process_create spaces process_size name k)
  unfolding process_create
  process_create_lem = elim (Bool-cases (name == 0)) [
    | inl none_given ↦ rw none_given (unchanged k.pid_bm refl, no_name (ground arith) refl refl)
    | inr given ↦ rw given (step_pid (pid_alloc k.pid_bm) (ground arith) refl (pid_alloc_lem ready))
  ]
