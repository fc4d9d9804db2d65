-- ===== src/Copier/HashTable/Destroy.antt =====
-- HW5/program.c: `destroyHashtable`, on the memory in which the table lies. A pointer is a number, and NULL
-- is 0. `none` is an access to memory that is not allocated, or a loop that is not done.
pub mod Freed
pub mod Whole
mod Tests
use advanced_c_language_proj.Base.{
  ℕ, zero, suc, ◌+◌, List, [], ◌∷◌, Option, none, some, ◌==◌, if◌then◌else◌, get_or,
}
use advanced_c_language_proj.Base.Text.{Text}

-- What a block of memory holds: a string, a `Node`, the array of the buckets or a `Hashtable`.
pub data Block : Type 0 where
  string : Text → Block
  node : ℕ → ℕ → ℕ → Block  -- `key`, `value`, `next`
  array : List ℕ → Block
  table : ℕ → ℕ → ℕ → Block  -- `size`, `count`, `buckets`

abbrev pub Memory : Type 0
Memory = ℕ → Option Block

unfoldable pub free : ℕ → Memory → Option Memory
free p m = elim (m p) [ none ↦ none | some b ↦ some (λ q. if q == p then none else m q) ]

-- `key` and `next` of a node.
unfoldable pub node_at : Memory → ℕ → Option (ℕ × ℕ)
node_at m p = elim (m p) [
  | none ↦ none
  | some b ↦ elim b [
    | string s ↦ none
    | node key value next ↦ some (key, next)
    | array buckets ↦ none
    | table size count buckets ↦ none
  ]
]

-- `size` and `buckets` of a table.
unfoldable pub table_at : Memory → ℕ → Option (ℕ × ℕ)
table_at m p = elim (m p) [
  | none ↦ none
  | some b ↦ elim b [
    | string s ↦ none
    | node key value next ↦ none
    | array buckets ↦ none
    | table size count buckets ↦ some (size, buckets)
  ]
]

unfoldable pub array_at : Memory → ℕ → Option (List ℕ)
array_at m p = elim (m p) [
  | none ↦ none
  | some b ↦ elim b [
    | string s ↦ none
    | node key value next ↦ none
    | array buckets ↦ some buckets
    | table size count buckets ↦ none
  ]
]

-- The inner loop, with `fuel` as its number of rounds.
unfoldable pub destroy_chain : ℕ → ℕ → Memory → Option Memory
unfolding node_at free
destroy_chain zero current_node m = none
destroy_chain (suc fuel) current_node m =
    if current_node == 0 then some m else elim (node_at m current_node) [
      | none ↦ none
      | some (key, next_node) ↦ elim (free key m) [
        | none ↦ none
        | some m1 ↦ elim (free current_node m1) [
          | none ↦ none
          | some m2 ↦ destroy_chain fuel next_node m2
        ]
      ]
    ]

-- The outer loop from bucket `i` on, with the rounds that are left.
unfoldable pub destroy_from : ℕ → ℕ → ℕ → ℕ → Memory → Option Memory
unfolding table_at array_at destroy_chain
destroy_from fuel zero i hashtable m = some m
destroy_from fuel (suc rounds) i hashtable m = elim (table_at m hashtable) [
  | none ↦ none
  | some (size, at_buckets) ↦ elim (array_at m at_buckets) [
    | none ↦ none
    | some buckets ↦ elim (destroy_chain fuel (get_or buckets i 0) m) [
      | none ↦ none
      | some m' ↦ destroy_from fuel rounds (i + 1) hashtable m'
    ]
  ]
]

unfoldable pub destroy_hashtable : ℕ → ℕ → Memory → Option Memory
unfolding table_at destroy_from free
destroy_hashtable fuel hashtable m = elim (table_at m hashtable) [
  | none ↦ none
  | some (size, buckets) ↦ elim (destroy_from fuel size 0 hashtable m) [
    | none ↦ none
    | some m1 ↦ elim (free buckets m1) [ none ↦ none | some m2 ↦ free hashtable m2 ]
  ]
]
