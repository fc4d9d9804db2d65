-- ===== src/Descriptors.antt =====
-- The descriptor table of a process, which the kernel keeps. The programs call `close`, `dup2` and
-- `fcntl`; what they rely on is what POSIX says of these calls.
pub mod Table
pub mod Opening
use advanced_c_language_proj.Base.{ℕ, ◌≤◌, ◌<◌, ◌≡◌, ◌≢◌, Option, none, some, ◌==◌, if◌then◌else◌}

-- `look s fd` is the open file that `fd` stands for, if it is open.
pub record Descriptors : Type 1 where
  pub State : Type 0
  pub File : Type 0
  pub look : State → ℕ → Option File
  pub close : ℕ → State → State
  pub dup2 : ℕ → ℕ → State → State  -- for an open first descriptor
  pub dup_from : ℕ → ℕ → State → Option (ℕ × State)  -- `fcntl(fd, F_DUPFD, least)`
  pub limit : ℕ  -- descriptors are below it

pub record IsLawful (D : Descriptors) : Type 0 where
  pub standard : 20 ≤ D.limit
  pub look-close :
      (s : D.State) (fd j : ℕ) → D.look (D.close fd s) j ≡ (if j == fd then none else D.look s j)
  pub look-dup2 :
      (s : D.State) (old new j : ℕ) (f : D.File)
      → D.look s old ≡ some f
      → new < D.limit
      → D.look (D.dup2 old new s) j ≡ (if j == new then some f else D.look s j)
  pub dup_from_closed :
      (s : D.State) (old least : ℕ) → D.look s old ≡ none → D.dup_from old least s ≡ none
  pub dup_from_limit :
      (s : D.State) (old least : ℕ) → D.limit ≤ least → D.dup_from old least s ≡ none
  pub dup_from_free :
      (s : D.State) (old least j : ℕ) (f : D.File)
      → D.look s old ≡ some f
      → least ≤ j
      → j < D.limit
      → D.look s j ≡ none
      → (fd : ℕ) × (s' : D.State) × (D.dup_from old least s ≡ some (fd, s'))
  pub dup_from_lowest :
      (s s' : D.State) (old least fd : ℕ)
      → D.dup_from old least s ≡ some (fd, s')
      → (least ≤ fd)
        × (D.look s fd ≡ none)
        × ((j : ℕ) → least ≤ j → j < fd → D.look s j ≢ none)
        × ((j : ℕ) → D.look s' j ≡ (if j == fd then D.look s old else D.look s j))
