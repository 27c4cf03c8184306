-- ===== src/Syslog/Tests.antt =====
-- Runs of kernel/log/syslog.c.
use it_works_os.Base.{ℕ, ◌^◌, ◌≡◌, refl, arith, true, List, [], ◌∷◌}
use it_works_os.Ringbuf
use it_works_os.Ringbuf.Refine.{IsValid, contents, init-IsValid}
use it_works_os.Syslog.{Syslog, syslog_write}
use it_works_os.Syslog.Write.{last, syslog_write_lem}

abbrev zeros : List ℕ
zeros = 0 ∷ 0 ∷ 0 ∷ 0 ∷ []

-- A log of four bytes.
abbrev log : Syslog
log = record { syslog_rb = Ringbuf.init zeros (2 ^ 2); syslog_ready = true }

syslog_write_lem_example :
    (contents (syslog_write (1 ∷ 2 ∷ 3 ∷ 4 ∷ 5 ∷ []) log).syslog_rb
      ≡ last (2 ^ 2) (1 ∷ 2 ∷ 3 ∷ 4 ∷ 5 ∷ []))
    × IsValid 2 (syslog_write (1 ∷ 2 ∷ 3 ∷ 4 ∷ 5 ∷ []) log).syslog_rb
syslog_write_lem_example =
    syslog_write_lem (1 ∷ 2 ∷ 3 ∷ 4 ∷ 5 ∷ []) 2 log [] refl
      (init-IsValid 2 zeros (omega arith) refl).0 (init-IsValid 2 zeros (omega arith) refl).1
