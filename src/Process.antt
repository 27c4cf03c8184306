-- ===== src/Process.antt =====
-- Model of kernel/process/process.c (creation, and the table of processes) and of the stack in
-- kernel/arch/x86/proc.c, over the process numbers of Pid and the heap of Kheap. A process is known by
-- the address of its structure. Its address space and its kernel stack are kept in a state `W`, which
-- the functions of `Spaces`, those of kernel/mm/vmm.c and kernel_stack.c, read and change.
pub mod Create
pub mod Tests
use it_works_os.Base.{
  ℕ, ◌+◌, ◌-◌, ◌%◌, ◌^◌, Option, none, some, ◌⊎◌, inl, inr, if◌then◌else◌, ◌==◌, ltb, leb, ◌||◌,
  bit_or,
}
use it_works_os.Base.Int.{pos}
use it_works_os.Bitmap.{Bitmap}
use it_works_os.Kerror.{Kerror, ok, inval, is_err}
use it_works_os.Kheap.{Kheap, kmalloc, kfree}
use it_works_os.Pid.{pid_first, pid_max, pid_alloc, pid_free}

pub data State : Type 0 where
  created ready running blocked exited : State

-- `struct process`, without what lies in `W` and the node for the scheduler.
pub record Process : Type 0 where
  pub name : ℕ
  pub pid : ℕ
  pub state : State
  pub entry : ℕ

-- `memset` of the structures that lie in `W`, and vm_space_init, vm_space_destroy and kstack_alloc of
-- a process
pub record Spaces (W : Type 0) : Type 0 where
  pub memset : ℕ → W → W
  pub vm_space_init : ℕ → W → Kerror × W
  pub vm_space_destroy : ℕ → W → Kerror × W
  pub kstack_alloc : ℕ → W → Kerror × W

pub record Kernel (W : Type 0) : Type 0 where
  pub pid_bm : Bitmap
  pub heap : Kheap
  pub process_table : ℕ → ℕ
  pub processes : ℕ → Process
  pub rest : W

abbrev pub assign {ℓ} : {A : Type ℓ} → (ℕ → A) → ℕ → A → ℕ → A
assign f a v p = if p == a then v else f p

-- The structure after `memset` and the assignments behind it.
abbrev pub new_process : ℕ → ℕ → Process
new_process name pid = record { name = name; pid = pid; state = created; entry = 0 }

module _ {W : Type 0} where
  -- The address of the process, 0 for NULL.
  pub process_get : ℕ → Kernel W → ℕ
  process_get pid k = if ltb pid pid_first || leb pid_max pid then 0 else k.process_table pid

  module _ (spaces : Spaces W) (process_size : ℕ) where
    -- `pid_free(pid)`
    abbrev pub give_pid : ℕ → Kernel W → Kernel W
    give_pid pid k = record k { pid_bm = (pid_free (pos pid) k.pid_bm).1 }

    -- `kfree(proc)`
    abbrev pub give_memory : ℕ → Kernel W → Kernel W
    give_memory proc k = record k { heap = (kfree proc k.heap).1 }

    abbrev pub with_rest : W → Kernel W → Kernel W
    with_rest w k = record k { rest = w }

    -- What follows kstack_alloc.
    abbrev pub with_stack : ℕ → ℕ → Kernel W → Kerror × W → (Kerror ⊎ ℕ) × Kernel W
    with_stack pid proc k (e, w) =
        if is_err e
        then (
          inl e,
          give_memory proc (give_pid pid (with_rest (spaces.vm_space_destroy proc w).1 k)),
        )
        else (inr proc, record k { process_table = assign k.process_table pid proc; rest = w })

    -- What follows vm_space_init.
    abbrev pub with_space : ℕ → ℕ → Kernel W → Kerror × W → (Kerror ⊎ ℕ) × Kernel W
    with_space pid proc k (e, w) =
        if is_err e
        then (inl e, give_memory proc (give_pid pid (with_rest w k)))
        else with_stack pid proc k (spaces.kstack_alloc proc w)

    -- What follows kmalloc.
    abbrev pub with_memory : ℕ → ℕ → Kernel W → (Kerror ⊎ ℕ) × Kheap → (Kerror ⊎ ℕ) × Kernel W
    with_memory name pid k (inl e, heap) = (inl e, give_pid pid (record k { heap = heap }))
    with_memory name pid k (inr proc, heap) =
        with_space pid proc
          (record k { heap = heap; processes = assign k.processes proc (new_process name pid) })
          (spaces.vm_space_init proc (spaces.memset proc k.rest))

    -- What follows pid_alloc.
    abbrev pub with_pid : ℕ → Kernel W → (Kerror ⊎ ℕ) × Bitmap → (Kerror ⊎ ℕ) × Kernel W
    with_pid name k (inl e, bm) = (inl e, record k { pid_bm = bm })
    with_pid name k (inr pid, bm) =
        with_memory name pid (record k { pid_bm = bm }) (kmalloc process_size k.heap)

    -- The name is the address of a text, 0 for NULL; an error or the address of the process.
    pub process_create : ℕ → Kernel W → (Kerror ⊎ ℕ) × Kernel W
    process_create name k =
        if name == 0 then (inl inval, k) else with_pid name k (pid_alloc k.pid_bm)
