-- ===== src/Copier/HashTable/Counts.antt =====
-- The table counts how often each file type was registered.
use advanced_c_language_proj.Base.{
  ℕ, ◌+◌, ◌^◌, ◌<◌, ◌≤◌, ◌≡◌, List, [], ◌∷◌, arith, length, if◌then◌else◌, get_or-replicate,
}
use advanced_c_language_proj.Base.Int.{add32}
use advanced_c_language_proj.Base.Text.{Text, str_eq, str_eq_iff}
use advanced_c_language_proj.Copier.HashTable.{
  Node, Table, hash, find, get, create_hashtable, register, register_all,
}
use advanced_c_language_proj.Copier.HashTable.Lookup.{IsSized, view-insert, insert-IsSized}

-- How often a text stands in a list.
unfoldable pub occurrences : Text → List Text → ℕ
occurrences q [] = 0
occurrences q (key ∷ keys) = (if str_eq key q then 1 else 0) + occurrences q keys

pub create_hashtable-IsSized : IsSized create_hashtable
unfolding create_hashtable
create_hashtable-IsSized = omega arith

pub get-create_hashtable : (q : Text) → get create_hashtable q ≡ 0
unfolding create_hashtable get find
get-create_hashtable q = ground (arith, get_or-replicate {A = List Node} 10 (hash q 10) [])

-- A registration adds one to its own key, and to no other.
pub get-register :
    (t : Table) (k q : Text)
    → IsSized t
    → get (register t k) q ≡ (if str_eq k q then add32 (get t q) 1 else get t q)
unfolding register get
get-register t k q sized = ground (
  arith,
  view-insert t k q (add32 (get t k) 1) sized,
  str_eq_iff k q,
  insert-IsSized t k (add32 (get t k) 1) sized,
)

pub register-IsSized : (t : Table) (k : Text) → IsSized t → IsSized (register t k)
unfolding register
register-IsSized t k sized = insert-IsSized t k _ sized

get-register_all_from :
    (t : Table) (keys : List Text) (q : Text)
    → IsSized t
    → get t q + occurrences q keys < 2 ^ 32
    → get (register_all t keys) q ≡ get t q + occurrences q keys
unfolding register_all occurrences
get-register_all_from t [] q sized small = omega arith
get-register_all_from t (key ∷ keys) q sized small = ground (
  arith,
  get-register t key q sized,
  get-register_all_from (register t key) keys q (register-IsSized t key sized),
)

pub occurrences-le : (q : Text) (keys : List Text) → occurrences q keys ≤ length keys
unfolding occurrences
occurrences-le q [] = omega arith
occurrences-le q (key ∷ keys) = ground (arith, occurrences-le q keys)

-- When fewer than 2 ^ 31 files have been registered in a new table, `get` returns for every type
-- the number of the files of that type, and 0 for a type that no file has.
pub get-register_all :
    (keys : List Text) (q : Text)
    → length keys < 2 ^ 31
    → get (register_all create_hashtable keys) q ≡ occurrences q keys
get-register_all keys q small = ground (
  arith,
  get-create_hashtable q,
  occurrences-le q keys,
  get-register_all_from create_hashtable keys q create_hashtable-IsSized,
)
