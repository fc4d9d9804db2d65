-- ===== src/Copier/CopyFile/Tests.antt =====
-- HW5/program.c: `copy_file` at a small file.
use advanced_c_language_proj.Base.{◌≡◌, refl, true, List, [], ◌∷◌, none}
use advanced_c_language_proj.Base.Text.{codes}
use advanced_c_language_proj.Descriptors.Opening.{opening_table, open_table}
use advanced_c_language_proj.Descriptors.Table.{table, first_free}
use advanced_c_language_proj.Copier.CopyFd.{Round, Copy, copy_fd, count_written}
use advanced_c_language_proj.Copier.CopyFile.{other, copied, copy_file}

abbrev rounds : List Round
rounds =
    record { read_ok = true; read_limit = 1; write_ok = true; write_limit = 1024 }
    ∷ record { read_ok = true; read_limit = 1; write_ok = true; write_limit = 1024 }
    ∷ []

abbrev nothing_yet : Copy
nothing_yet = record { dest = []; bytes_copied = 7; messages = [] }

copied_whole :
    (copy_file table opening_table
      (codes "a")
      (codes "b")
      other
      true
      rounds
      (10 ∷ [])
      nothing_yet
      (λ fd. none)).0
    ≡ copied (record { dest = 10 ∷ []; bytes_copied = 8; messages = [] })
unfolding copy_file open_table first_free copy_fd count_written
copied_whole = refl
