-- ===== src/Copier/HashTable/Destroy/Freed.antt =====
-- HW5/program.c: `destroyHashtable` gives back every block of the table, once.
use advanced_c_language_proj.Base.{
  ℕ, zero, suc, ◌<◌, ◌≡◌, ◌≢◌, ◌∙◌, refl, ap, Bool, true, false, ◌||◌, List, [], ◌∷◌, Option, none,
  some, ◌==◌, if◌then◌else◌, length, arith, Bool-cases, inl, inr,
}
use advanced_c_language_proj.Copier.HashTable.{Node}
use advanced_c_language_proj.Copier.HashTable.Destroy.{
  Block, string, node, Memory, free, node_at, destroy_chain,
}

-- A node of the table in memory: the addresses of the node and of its key.
pub record Place : Type 0 where
  pub at : ℕ
  pub key_at : ℕ
  pub content : Node

unfoldable pub is_in : ℕ → List ℕ → Bool
is_in a [] = false
is_in a (b ∷ l) = a == b || is_in a l

unfoldable pub AreApart : List ℕ → Type 0
AreApart [] = Unit {0}
AreApart (a ∷ l) = (is_in a l ≡ false) × AreApart l

-- The blocks of a chain.
unfoldable pub blocks : List Place → List ℕ
blocks [] = []
blocks (place ∷ chain) = place.key_at ∷ place.at ∷ blocks chain

-- The nodes lie in memory one behind the other, from the pointer on.
unfoldable pub IsChain : Memory → ℕ → List Place → Type 0
IsChain m p [] = p ≡ 0
IsChain m p (place ∷ chain) =
    (p ≡ place.at)
    × (place.at ≢ 0)
    × (m place.key_at ≡ some (string place.content.key))
    × (next : ℕ) × (m place.at ≡ some (node place.key_at place.content.value next))
    × IsChain m next chain

-- A memory from which some blocks of another are gone, and nothing else.
abbrev pub IsFreed : List ℕ → Memory → Memory → Type 0
IsFreed l m m' = (a : ℕ) → m' a ≡ (if is_in a l then none else m a)

pub IsChain-frame :
    (m m' : Memory) (p : ℕ) (chain : List Place)
    → ((a : ℕ) → is_in a (blocks chain) ≡ true → m' a ≡ m a)
    → IsChain m p chain
    → IsChain m' p chain
unfolding IsChain blocks is_in
IsChain-frame m m' p [] same h = h
IsChain-frame m m' p (place ∷ chain) same (here, not_null, key, next, content, rest) = (
  here,
  not_null,
  same place.key_at (ground arith) ∙ key,
  next,
  same place.at (ground arith) ∙ content,
  IsChain-frame m m' next chain (λ a inside. same a (ground (arith, inside))) rest,
)

-- What is apart from two blocks does not notice that they go.
is_in-apart :
    (a k p : ℕ) (l : List ℕ) (old : Option Block)
    → is_in a l ≡ true
    → is_in k (p ∷ l) ≡ false
    → is_in p l ≡ false
    → (if a == p then none else (if a == k then none else old)) ≡ old
unfolding is_in
is_in-apart a k p l old inside apart apart' =
    let at_p : (a == p) ≡ false = elim (Bool-cases (a == p)) [
      | inl e ↦
          let same : a ≡ p = ground (arith, e) in
          let there : is_in p l ≡ true = rw same at inside in absurd (ground (arith, there, apart'))
      | inr e ↦ e
    ] in
    let at_k : (a == k) ≡ false = elim (Bool-cases (a == k)) [
      | inl e ↦
          let same : a ≡ k = ground (arith, e) in
          let there : is_in k l ≡ true = rw same at inside in absurd (ground (arith, there, apart))
      | inr e ↦ e
    ] in
    rw (at_p, at_k) refl

pub free_lem :
    (p : ℕ) (m : Memory) (b : Block)
    → m p ≡ some b
    → free p m ≡ some (λ q. if q == p then none else m q)
unfolding free
free_lem p m b e = rw (free, e) refl

node_at_lem :
    (m : Memory) (p key value next : ℕ)
    → m p ≡ some (node key value next)
    → node_at m p ≡ some (key, next)
unfolding node_at
node_at_lem m p key value next e = rw (node_at, e) refl

-- One round of the inner loop.
destroy_chain-node :
    (fuel p key value next : ℕ) (m : Memory) (b : Block)
    → p ≢ 0
    → m p ≡ some (node key value next)
    → m key ≡ some b
    → (p == key) ≡ false
    → destroy_chain (suc fuel) p m
      ≡ destroy_chain fuel next (λ q. if q == p then none else (if q == key then none else m q))
unfolding destroy_chain
destroy_chain-node fuel p key value next m b not_null here key_here differ =
    let not_zero : (p == 0) ≡ false = ground (arith, not_null) in
    let m1 : Memory = λ q. if q == key then none else m q in
    let still : m1 p ≡ some (node key value next) = rw differ here in
    rw
      (
        not_zero,
        node_at_lem m p key value next here,
        free_lem key m b key_here,
        free_lem p m1 (node key value next) still,
      )
      refl

pub destroy_chain-IsFreed :
    (fuel p : ℕ) (m : Memory) (chain : List Place)
    → length chain < fuel
    → IsChain m p chain
    → AreApart (blocks chain)
    → (m' : Memory) × (destroy_chain fuel p m ≡ some m') × IsFreed (blocks chain) m m'
unfolding destroy_chain IsChain blocks is_in AreApart
destroy_chain-IsFreed zero p m chain enough h apart = absurd (omega arith)
destroy_chain-IsFreed (suc fuel) p m [] enough h apart = (m, ground (arith, h), λ a. refl)
destroy_chain-IsFreed (suc fuel) p m (place ∷ chain) enough
      (here, not_null, key, next, content, rest) apart =
    let key_apart : is_in place.key_at (place.at ∷ blocks chain) ≡ false = apart.0 in
    let at_apart : is_in place.at (blocks chain) ≡ false = apart.1.0 in
    let m1 : Memory = λ q. if q == place.key_at then none else m q in
    let m2 : Memory = λ q. if q == place.at then none else m1 q in
    let framed : IsChain m2 next chain =
      IsChain-frame m m2 next chain
        (λ a inside.
          is_in-apart a place.key_at place.at (blocks chain) (m a) inside key_apart at_apart)
        rest in
    let (m', done, freed) =
      destroy_chain-IsFreed fuel next m2 chain (omega arith) framed apart.1.1 in
    let differ : (place.at == place.key_at) ≡ false = ground (arith, key_apart) in
    let round =
      destroy_chain-node fuel place.at place.key_at place.content.value next m
        (string place.content.key) not_null content key differ in
    (m', ap (λ q. destroy_chain (suc fuel) q m) here ∙ (round ∙ done), λ a. ground (arith, freed a))
