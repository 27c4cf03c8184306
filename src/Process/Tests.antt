-- ===== src/Process/Tests.antt =====
-- An instance of the theorem about kernel/process/process.c.
use it_works_os.Base.{ℕ, arith}
use it_works_os.Kerror.{ok, nomem}
use it_works_os.Kheap.Tests.{two_blocks, blocks, two_blocks-IsHeap}
use it_works_os.Pid.{pid_bm, pid_init}
use it_works_os.Pid.Tests.{pid_bm-IsReady}
use it_works_os.Process.{Kernel, Spaces, new_process, process_create}
use it_works_os.Process.Create.{CreateOutcome, process_create_lem}

-- There is no room for a kernel stack.
abbrev no_stack : Spaces ℕ
no_stack = record {
  memset = λ proc w. w;
  vm_space_init = λ proc w. (ok, w);
  vm_space_destroy = λ proc w. (ok, w);
  kstack_alloc = λ proc w. (nomem, w);
}

abbrev at_start : Kernel ℕ
at_start = record {
  pid_bm = (pid_init pid_bm).1;
  heap = two_blocks;
  process_table = λ pid. 0;
  processes = λ proc. new_process 0 0;
  rest = 0;
}

process_create_lem_example :
    CreateOutcome no_stack 30 4096 at_start blocks pid_bm-IsReady two_blocks-IsHeap
      (omega arith)
      (omega arith)
      (process_create no_stack 30 4096 at_start)
process_create_lem_example =
    process_create_lem no_stack 30 4096 at_start blocks pid_bm-IsReady two_blocks-IsHeap
      (omega arith) (omega arith)
