-- ===== src/Memory/Tests.antt =====
-- A move to a block that overlaps the source.
use it_works_os.Base.{◌+◌, ◌≡◌}
use it_works_os.Memory.{memmove}
use it_works_os.Memory.Move.{memmove_lem}

memmove_lem_example : memmove 12 10 5 (λ a. a + 100) 14 ≡ 112
memmove_lem_example = memmove_lem 12 10 5 (λ a. a + 100) 14
