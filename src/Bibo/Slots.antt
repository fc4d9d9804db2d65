-- ===== src/Bibo/Slots.antt =====
-- Midterm_HW3/biboServer.c: the array `connected_clients` of process ids, 0 in a free slot. Its length
-- is `max_clients`.
pub mod Laws
use advanced_c_language_proj.Base.{
  ℕ, Bool, List, [], ◌∷◌, Option, none, some, ◌==◌, if◌then◌else◌, replicate,
}

-- The loop of `create_shared_struct`.
unfoldable pub free_slots : ℕ → List ℕ
free_slots max_clients = replicate max_clients 0

-- `add_client`: the first free slot gets the client; `none` stands for the result `false`, which
-- leaves the slots as they are.
unfoldable pub add_client : ℕ → List ℕ → Option (List ℕ)
add_client pid [] = none
add_client pid (c ∷ slots) =
    let rest = add_client pid slots in
    if c == 0 then some (pid ∷ slots) else (elim rest [ none ↦ none | some r ↦ some (c ∷ r) ])

-- The loop of `quit` and of `remove_client`: the first slot of the client is freed.
unfoldable pub free_slot : ℕ → List ℕ → List ℕ
free_slot pid [] = []
free_slot pid (c ∷ slots) = if c == pid then 0 ∷ slots else c ∷ free_slot pid slots

-- The loop of `signal_handler2` over the first `n` slots: the processes that get SIGTERM.
unfoldable pub killed : ℕ → List ℕ → List ℕ
killed n [] = []
killed ℕ.zero (c ∷ slots) = []
killed (ℕ.suc n) (c ∷ slots) = if c == 0 then killed n slots else c ∷ killed n slots
