-- ===== src/Copier/HashTable/Destroy/Tests.antt =====
-- HW5/program.c: `destroyHashtable` on a small table.
use advanced_c_language_proj.Base.{◌≡◌, refl, List, [], ◌∷◌, none, some, ◌==◌, if◌then◌else◌, arith}
use advanced_c_language_proj.Base.Text.{codes}
use advanced_c_language_proj.Copier.HashTable.{Table}
use advanced_c_language_proj.Copier.HashTable.Destroy.{
  string, node, array, table, Memory, destroy_hashtable,
}
use advanced_c_language_proj.Copier.HashTable.Destroy.Freed.{
  is_in, AreApart, blocks, IsChain, IsFreed,
}
use advanced_c_language_proj.Copier.HashTable.Destroy.Whole.{
  Bucket, all_blocks, IsTable, destroy_hashtable-IsFreed,
}

-- A table of two buckets in memory: the table at 1, its array at 2, and a node at 3 with its key at 4.
abbrev small_table : Table
small_table = record {
  size = 2;
  count = 1;
  buckets = (record { key = codes "c"; value = 5 } ∷ []) ∷ [] ∷ [];
}

abbrev small_buckets : List Bucket
small_buckets =
    (3, record { at = 3; key_at = 4; content = record { key = codes "c"; value = 5 } } ∷ [])
    ∷ (0, [])
    ∷ []

abbrev small_memory : Memory
small_memory p =
    if p == 1
    then some (table 2 1 2)
    else (if p == 2
        then some (array (3 ∷ 0 ∷ []))
        else (if p == 3
            then some (node 4 5 0)
            else (if p == 4 then some (string (codes "c")) else none)))

small_table-IsTable : IsTable small_memory 1 2 small_buckets small_table
unfolding all_blocks blocks AreApart is_in IsChain
small_table-IsTable = record {
  size = refl;
  contents = refl;
  head = refl;
  pointers = refl;
  chains = ((refl, λ e. absurd (omega (arith, e)), refl, 0, refl, refl), (refl, tt));
  apart = (refl, (refl, (refl, (refl, tt))));
}

destroy_hashtable-IsFreed_example :
    (m' : Memory) × (destroy_hashtable 2 1 small_memory ≡ some m')
    × IsFreed (4 ∷ 3 ∷ 2 ∷ 1 ∷ []) small_memory m'
unfolding all_blocks blocks
destroy_hashtable-IsFreed_example =
    destroy_hashtable-IsFreed 2 1 2 small_memory small_buckets small_table small_table-IsTable
      (omega arith, (omega arith, tt))
