-- ===== src/Bibo/Queue/Fifo.antt =====
-- The waiting queue keeps the order of arrival, and loses room.
use advanced_c_language_proj.Base.{
  ℕ, zero, suc, ◌+◌, ◌-◌, ◌≤◌, ◌<◌, ◌≡◌, inl, inr, refl, ap, ◌∙◌, true, List, [], ◌∷◌, ◌++◌, arith,
  length, get_or, set, get_or-set_self, get_or-set_ne, length-set, if◌then◌else◌, Bool-cases, ◌==◌,
}
use advanced_c_language_proj.Base.Int.{ℤ, pos, negsuc}
use advanced_c_language_proj.Bibo.Queue.{
  Queue, max_size, minus_one, initialize_queue, is_full, is_empty, store, load, enqueue, dequeue,
}

-- Both indices are -1, or they delimit a part of the array.
abbrev pub Spans : ℤ → ℤ → Type 0
Spans (pos f) (pos r) = (f ≤ r) × (r < max_size)
Spans (pos f) (negsuc r) = ⊥
Spans (negsuc f) (pos r) = ⊥
Spans (negsuc f) (negsuc r) = (f ≡ 0) × (r ≡ 0)

pub record IsValid (q : Queue) : Type 0 where
  pub storage : length q.items ≡ max_size
  pub spans : Spans q.front q.rear

-- The `n` items from index `f` on.
unfoldable pub slice : List ℕ → ℕ → ℕ → List ℕ
slice items f zero = []
slice items f (suc n) = get_or items f 0 ∷ slice items (suc f) n

unfoldable pub span : List ℕ → ℤ → ℤ → List ℕ
span items (pos f) (pos r) = slice items f (suc r - f)
span items (pos f) (negsuc r) = []
span items (negsuc f) r = []

-- The waiting clients, first come first.
unfoldable pub contents : Queue → List ℕ
contents q = span q.items q.front q.rear

slice-snoc :
    (items : List ℕ) (f n k : ℕ)
    → k ≡ f + n
    → slice items f (suc n) ≡ slice items f n ++ get_or items k 0 ∷ []
unfolding slice
slice-snoc items f zero k h = ground (arith, h)
slice-snoc items f (suc n) k h = ground (arith, slice-snoc items (suc f) n k)

slice-set : (items : List ℕ) (f n k x : ℕ) → k ≡ f + n → slice (set items k x) f n ≡ slice items f n
unfolding slice
slice-set items f zero k x h = refl
slice-set items f (suc n) k x h =
    ground (arith, get_or-set_ne items k f x 0, slice-set items (suc f) n k x)

length-slice : (items : List ℕ) (f n : ℕ) → length (slice items f n) ≡ n
unfolding slice
length-slice items f zero = refl
length-slice items f (suc n) = ap suc (length-slice items (suc f) n)

-- One item more at the end of a part of the array.
slice-set-snoc :
    (items : List ℕ) (f r x : ℕ)
    → f ≤ r
    → suc r < length items
    → slice (set items (suc r) x) f (suc (suc r) - f) ≡ slice items f (suc r - f) ++ x ∷ []
slice-set-snoc items f r x h k =
    let n = suc r - f in
    let e : suc (suc r) - f ≡ suc n = omega arith in
    rw (
      e,
      slice-snoc (set items (suc r) x) f n (suc r) (omega arith),
      slice-set items f n (suc r) x (omega arith),
      get_or-set_self items (suc r) x 0 k,
    )

enqueue_parts :
    (items : List ℕ) (f r : ℤ) (x : ℕ)
    → length items ≡ max_size
    → Spans f r
    → let q : Queue = record { items = items; front = f; rear = r } in
      contents (enqueue q x) ≡ (if is_full q then contents q else contents q ++ x ∷ [])
unfolding contents enqueue is_full is_empty store span slice
enqueue_parts items (pos f) (pos r) x size h = elim (Bool-cases (r == 1023)) [
  | inl e ↦ rw e
  | inr e ↦ rw e (slice-set-snoc items f r x h.0 (ground arith))
]
enqueue_parts items (pos f) (negsuc r) x size h = absurd h
enqueue_parts items (negsuc f) (pos r) x size h = absurd h
enqueue_parts items (negsuc f) (negsuc r) x size h =
    ground (arith, get_or-set_self items 0 x 0 (omega arith))

-- An enqueued client stands behind all others; a full queue is left as it is.
pub contents-enqueue :
    (q : Queue) (x : ℕ)
    → IsValid q
    → contents (enqueue q x) ≡ (if is_full q then contents q else contents q ++ x ∷ [])
contents-enqueue q x v = enqueue_parts q.items q.front q.rear x v.storage v.spans

enqueue-IsValid_parts :
    (items : List ℕ) (f r : ℤ) (x : ℕ)
    → length items ≡ max_size
    → Spans f r
    → IsValid (enqueue (record { items = items; front = f; rear = r }) x)
unfolding enqueue is_full is_empty store
enqueue-IsValid_parts items (pos f) (pos r) x size h = ground (arith, length-set items (suc r) x)
enqueue-IsValid_parts items (pos f) (negsuc r) x size h = absurd h
enqueue-IsValid_parts items (negsuc f) (pos r) x size h = absurd h
enqueue-IsValid_parts items (negsuc f) (negsuc r) x size h = ground (arith, length-set items 0 x)

pub enqueue-IsValid : (q : Queue) (x : ℕ) → IsValid q → IsValid (enqueue q x)
enqueue-IsValid q x v = enqueue-IsValid_parts q.items q.front q.rear x v.storage v.spans

-- What a queue gives: the client that came first, or -1.
abbrev pub first : List ℕ → ℤ
first [] = minus_one
first (x ∷ xs) = pos x

abbrev pub rest : List ℕ → List ℕ
rest [] = []
rest (x ∷ xs) = xs

dequeue_parts :
    (items : List ℕ) (f r : ℤ)
    → length items ≡ max_size
    → Spans f r
    → let q : Queue = record { items = items; front = f; rear = r } in
      ((dequeue q).0 ≡ first (contents q))
      × (contents (dequeue q).1 ≡ rest (contents q))
      × IsValid (dequeue q).1
unfolding contents dequeue is_empty load span slice
dequeue_parts items (pos f) (pos r) size h =
    let e : suc r - f ≡ suc (r - f) = omega arith in rw e (ground arith)
dequeue_parts items (pos f) (negsuc r) size h = absurd h
dequeue_parts items (negsuc f) (pos r) size h = absurd h
dequeue_parts items (negsuc f) (negsuc r) size h = ground arith

-- A valid queue gives its first client and keeps the others in order, or gives -1 and stays empty;
-- either way it stays valid.
pub dequeue_lem :
    (q : Queue)
    → IsValid q
    → ((dequeue q).0 ≡ first (contents q))
      × (contents (dequeue q).1 ≡ rest (contents q))
      × IsValid (dequeue q).1
dequeue_lem q v = dequeue_parts q.items q.front q.rear v.storage v.spans

pub initialize_queue_lem :
    (items : List ℕ)
    → length items ≡ max_size
    → IsValid (initialize_queue items) × (contents (initialize_queue items) ≡ [])
unfolding initialize_queue contents span
initialize_queue_lem items h = (record { storage = h; spans = (refl, refl) }, refl)

full_parts :
    (items : List ℕ) (f r : ℤ)
    → Spans f r
    → let q : Queue = record { items = items; front = f; rear = r } in
      is_full q ≡ true → 2 ≤ length (contents q) → is_full (dequeue q).1 ≡ true
unfolding is_full contents dequeue is_empty span
full_parts items (pos f) (pos r) h full two = ground (arith, length-slice items f (suc r - f))
full_parts items (pos f) (negsuc r) h full two = absurd h
full_parts items (negsuc f) (pos r) h full two = absurd h
full_parts items (negsuc f) (negsuc r) h full two = ground arith

-- Once the array has been filled, the queue refuses every client until it has become empty: taking
-- one of several clients out leaves it full, although it then holds one fewer.
pub full_until_empty :
    (q : Queue) (x : ℕ)
    → IsValid q
    → is_full q ≡ true
    → 2 ≤ length (contents q)
    → (is_full (dequeue q).1 ≡ true) × (contents (enqueue (dequeue q).1 x) ≡ rest (contents q))
full_until_empty q x v full two =
    let (given, left, valid) = dequeue_lem q v in
    let still = full_parts q.items q.front q.rear v.spans full two in
    (still, contents-enqueue (dequeue q).1 x valid ∙ rw still left)

empty_parts :
    (items : List ℕ) (f r : ℤ)
    → Spans f r
    → let q : Queue = record { items = items; front = f; rear = r } in
      is_empty q ≡ true → contents q ≡ []
unfolding is_empty contents span
empty_parts items (pos f) (pos r) h e = cc
empty_parts items (pos f) (negsuc r) h e = absurd h
empty_parts items (negsuc f) r h e = refl

-- What the test `isEmpty` takes for empty holds nobody.
pub contents-is_empty : (q : Queue) → IsValid q → is_empty q ≡ true → contents q ≡ []
contents-is_empty q v = empty_parts q.items q.front q.rear v.spans

pub is_empty-initialize_queue : (items : List ℕ) → is_empty (initialize_queue items) ≡ true
unfolding is_empty initialize_queue
is_empty-initialize_queue items = refl
