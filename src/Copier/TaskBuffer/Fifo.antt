-- ===== src/Copier/TaskBuffer/Fifo.antt =====
-- The circular buffer is a queue of at most `buffer_size - 1` tasks.
use advanced_c_language_proj.Base.{
  ℕ, zero, suc, ◌+◌, ◌-◌, ◌%◌, ◌≤◌, ◌<◌, ◌≡◌, ◌≢◌, refl, ap, ◌∙◌, ◌⊎◌, ◌↔◌, inl, inr, true, false,
  List, [], ◌∷◌, ◌++◌, arith, length, get_or, set, get_or-set_self, get_or-set_ne, length-set,
  length-append, dec_lt,
}
use native.Mathlib.Nat.{mod-lt, mod-eq_of_lt, mod-eq-sub-mod, mod-add-mod, add-zero}
use advanced_c_language_proj.Copier.TaskBuffer.{
  Task, Buffer, no_task, is_full, is_empty, add_task, next_task,
}

pub record IsValid (b : Buffer) : Type 0 where
  pub storage : length b.buffer ≡ b.buffer_size
  pub in_range : b.buffer_in < b.buffer_size
  pub out_range : b.buffer_out < b.buffer_size

-- A sum of two indices comes round at most once.
mod_cases :
    (a size : ℕ)
    → a < size + size
    → ((a < size) × (a % size ≡ a)) ⊎ ((size ≤ a) × (a % size + size ≡ a))
mod_cases a size h = elim (dec_lt a size) [
  | yes p ↦ inl (p, mod-eq_of_lt p)
  | no p ↦ inr (
    omega arith,
    omega (
      arith,
      mod-eq-sub-mod {n = a} {m = size} (omega arith),
      mod-eq_of_lt {n = a - size} {m = size} (omega arith),
    ),
  )
]

-- The `n` tasks from index `i` on, oldest first.
unfoldable pub entries : List Task → ℕ → ℕ → ℕ → List Task
entries buf size i zero = []
entries buf size i (suc n) = entries buf size i n ++ get_or buf ((i + n) % size) no_task ∷ []

-- The number of tasks between the two indices.
unfoldable pub queued : Buffer → ℕ
queued b = (b.buffer_in + b.buffer_size - b.buffer_out) % b.buffer_size

unfoldable pub contents : Buffer → List Task
contents b = entries b.buffer b.buffer_size b.buffer_out (queued b)

length-entries : (buf : List Task) (size i n : ℕ) → length (entries buf size i n) ≡ n
unfolding entries
length-entries buf size i zero = refl
length-entries buf size i (suc n) = omega (
  arith,
  length-append (entries buf size i n) (get_or buf ((i + n) % size) no_task ∷ []),
  length-entries buf size i n,
)

entries-set :
    (buf : List Task) (size i n k : ℕ) (t : Task)
    → ((j : ℕ) → j < n → k ≢ (i + j) % size)
    → entries (set buf k t) size i n ≡ entries buf size i n
unfolding entries
entries-set buf size i zero k t apart = refl
entries-set buf size i (suc n) k t apart = rw (
  entries-set buf size i n k t (λ j h. apart j (omega arith)),
  get_or-set_ne buf k ((i + n) % size) t no_task (apart n (omega arith)),
)

-- The oldest task stands at the first index.
entries-first :
    (buf : List Task) (size i n : ℕ)
    → i < size
    → entries buf size i (suc n) ≡ get_or buf i no_task ∷ entries buf size ((i + 1) % size) n
unfolding entries
entries-first buf size i zero h = let e : (i + 0) % size ≡ i = rw (add-zero, mod-eq_of_lt h) in rw e
entries-first buf size i (suc n) h =
    let e : ((i + 1) % size + n) % size ≡ (i + suc n) % size =
      mod-add-mod (i + 1) size n ∙ ap (λ k. k % size) (omega arith) in
    rw (e, entries-first buf size i n h)

module _ {b : Buffer} (valid : IsValid b) where
  queued_lem :
      (queued b < b.buffer_size) × ((b.buffer_out + queued b) % b.buffer_size ≡ b.buffer_in)
  unfolding queued
  queued_lem = ground (
    arith,
    mod_cases (b.buffer_in + b.buffer_size - b.buffer_out) b.buffer_size (omega arith),
    mod_cases (b.buffer_out + (b.buffer_in + b.buffer_size - b.buffer_out) % b.buffer_size)
        b.buffer_size,
  )

  -- The buffer is empty by the worker's test exactly when it holds nothing.
  pub is_empty_iff : (is_empty b ≡ true) ↔ (queued b ≡ 0)
  unfolding is_empty queued
  is_empty_iff =
      ground
        (arith, mod_cases (b.buffer_in + b.buffer_size - b.buffer_out) b.buffer_size (omega arith))

  pub length-contents : length (contents b) ≡ queued b
  unfolding contents
  length-contents = length-entries b.buffer b.buffer_size b.buffer_out (queued b)

  pub add_task-IsValid : (t : Task) → IsValid (add_task b t)
  unfolding add_task
  add_task-IsValid t = record {
    storage = length-set b.buffer b.buffer_in t ∙ valid.storage;
    in_range = mod-lt _ (omega arith);
    out_range = valid.out_range;
  }

  pub next_task-IsValid : IsValid (next_task b).1
  unfolding next_task
  next_task-IsValid = record {
    storage = valid.storage;
    in_range = valid.in_range;
    out_range = mod-lt _ (omega arith);
  }

  queued-add_task : (t : Task) → is_full b ≡ false → queued (add_task b t) ≡ suc (queued b)
  unfolding add_task queued is_full
  queued-add_task t room = ground (
    arith,
    mod_cases (b.buffer_in + 1) b.buffer_size (omega arith),
    mod_cases (b.buffer_in + b.buffer_size - b.buffer_out) b.buffer_size (omega arith),
    mod_cases ((b.buffer_in + 1) % b.buffer_size + b.buffer_size - b.buffer_out) b.buffer_size,
  )

  queued-next_task : is_empty b ≡ false → queued b ≡ suc (queued (next_task b).1)
  unfolding next_task queued is_empty
  queued-next_task some_left = ground (
    arith,
    mod_cases (b.buffer_out + 1) b.buffer_size (omega arith),
    mod_cases (b.buffer_in + b.buffer_size - b.buffer_out) b.buffer_size (omega arith),
    mod_cases (b.buffer_in + b.buffer_size - (b.buffer_out + 1) % b.buffer_size) b.buffer_size,
  )

  -- No index of a queued task is the one that the next write goes to.
  apart : (j : ℕ) → j < queued b → b.buffer_in ≢ (b.buffer_out + j) % b.buffer_size
  apart j h = ground (
    arith,
    queued_lem,
    mod_cases (b.buffer_out + j) b.buffer_size (omega (arith, queued_lem)),
    mod_cases (b.buffer_out + queued b) b.buffer_size (omega (arith, queued_lem)),
  )

  -- A valid buffer that is not full takes a task behind all those that it holds.
  pub contents-add_task :
      (t : Task) → is_full b ≡ false → contents (add_task b t) ≡ contents b ++ t ∷ []
  unfolding contents add_task entries
  contents-add_task t room = rw (
    queued-add_task t room,
    entries-set b.buffer b.buffer_size b.buffer_out (queued b) b.buffer_in t apart,
    queued_lem.1,
    get_or-set_self b.buffer b.buffer_in t no_task (rw valid.storage valid.in_range),
  )

  -- A valid buffer that is not empty gives its oldest task, and holds the others as before.
  pub contents-next_task :
      is_empty b ≡ false → contents b ≡ (next_task b).0 ∷ contents (next_task b).1
  unfolding contents next_task
  contents-next_task some_left =
      rw (queued-next_task some_left)
        (entries-first b.buffer b.buffer_size b.buffer_out _ valid.out_range)

  pub contents-is_empty : is_empty b ≡ true → contents b ≡ []
  unfolding contents entries
  contents-is_empty h = rw (is_empty_iff.0 h)
