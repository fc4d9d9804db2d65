-- ===== src/Copier/HashTable.antt =====
-- HW5/program.c: the chained hash table that counts the file types. A table is reached through one
-- pointer and its nodes are not shared, so an update returns the new table. The values are C ints
-- held as 32-bit patterns.
pub mod Lookup
pub mod Counts
pub mod Measure
pub mod Register
pub mod Report
pub mod Destroy
use advanced_c_language_proj.Base.{
  ℕ, zero, suc, ◌+◌, ◌-◌, ◌*◌, ◌%◌, ◌^◌, List, [], ◌∷◌, ◌++◌, Option, none, some, ltb,
  if◌then◌else◌, get_or, set, replicate,
}
use advanced_c_language_proj.Base.Int.{add32}
use advanced_c_language_proj.Base.Text.{Text, str_eq}

-- `struct Node`; its `next` is the rest of the list.
pub record Node : Type 0 where
  pub key : Text
  pub value : ℕ

-- `struct Hashtable`
pub record Table : Type 0 where
  pub size : ℕ
  pub count : ℕ
  pub buckets : List (List Node)

abbrev pub table_size : ℕ
table_size = 10

-- A `char` is signed: it is extended to an `int`, which `+` converts to `unsigned`.
unfoldable pub char_value : ℕ → ℕ
char_value c = if ltb c 128 then c else c + 2 ^ 32 - 256

-- The loop of `hash`.
unfoldable pub hash_from : ℕ → Text → ℕ
hash_from h [] = h
hash_from h (c ∷ key) = hash_from ((h * 31 + char_value c) % 2 ^ 32) key

-- `size` is positive wherever the program calls this.
unfoldable pub hash : Text → ℕ → ℕ
unfolding hash_from char_value
hash key size = hash_from 0 key % size

unfoldable pub create_node : Text → ℕ → Node
create_node key value = record { key = key; value = value }

unfoldable pub create_hashtable : Table
create_hashtable = record { size = table_size; count = 0; buckets = replicate table_size [] }

-- The loop of `insert`: the first node with the key counts one more. `none` if there is no such node.
unfoldable pub bump : Text → List Node → Option (List Node)
bump key [] = none
bump key (n ∷ chain) =
    let rest = bump key chain in
    if str_eq n.key key
    then some (record n { value = add32 n.value 1 } ∷ chain)
    else (elim rest [ none ↦ none | some chain' ↦ some (n ∷ chain') ])

unfoldable pub insert : Table → Text → ℕ → Table
unfolding create_node bump
insert t key value =
    let index = hash key t.size in
    let chain = get_or t.buckets index [] in
    elim (bump key chain) [
      | some chain' ↦ record t { buckets = set t.buckets index chain' }
      | none ↦ record {
        size = t.size;
        count = add32 t.count 1;
        buckets = set t.buckets index (create_node key value ∷ chain);
      }
    ]

-- The loop of `get`.
unfoldable pub find : Text → List Node → Option ℕ
find key [] = none
find key (n ∷ chain) = if str_eq n.key key then some n.value else find key chain

unfoldable pub get : Table → Text → ℕ
get t key = elim (find key (get_or t.buckets (hash key t.size) [])) [ none ↦ 0 | some v ↦ v ]

-- What `traverse_directory` does with the type of each file that it hands over.
unfoldable pub register : Table → Text → Table
register t key = insert t key (add32 (get t key) 1)

unfoldable pub register_all : Table → List Text → Table
register_all t [] = t
register_all t (key ∷ keys) = register_all (register t key) keys

-- The loop over the buckets at the end of `main`: the nodes whose lines it prints, in order.
unfoldable pub report_from : ℕ → ℕ → List (List Node) → List Node
report_from zero i buckets = []
report_from (suc rounds) i buckets = get_or buckets i [] ++ report_from rounds (i + 1) buckets

unfoldable pub report : Table → List Node
unfolding report_from
report t = report_from t.size 0 t.buckets
