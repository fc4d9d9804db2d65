-- ===== src/Bibo/Arrivals/Holders.antt =====
-- Midterm_HW3: which clients hold the semaphore, and what they have still to write.
use advanced_c_language_proj.Base.{
  ℕ, suc, ◌+◌, ◌≤◌, ◌≡◌, refl, ap, List, [], ◌∷◌, ◌++◌, append-nil, arith,
}
use advanced_c_language_proj.Bibo.Arrivals.{Client, waits, writes_pid, writes_mode, posts, leaves}

-- The numbers of some requests.
unfoldable pub words : List (ℕ × ℕ) → List ℕ
words [] = []
words ((pid, mode) ∷ requests) = pid ∷ mode ∷ words requests

-- What clients that hold the semaphore have still to write, and how many hold it.
unfoldable pub pending : List Client → List ℕ
pending [] = []
pending (waits pid mode ∷ clients) = pending clients
pending (writes_pid pid mode ∷ clients) = pid ∷ mode ∷ pending clients
pending (writes_mode mode ∷ clients) = mode ∷ pending clients
pending (posts ∷ clients) = pending clients
pending (leaves ∷ clients) = pending clients

unfoldable pub holders : List Client → ℕ
holders [] = 0
holders (waits pid mode ∷ clients) = holders clients
holders (writes_pid pid mode ∷ clients) = suc (holders clients)
holders (writes_mode mode ∷ clients) = suc (holders clients)
holders (posts ∷ clients) = suc (holders clients)
holders (leaves ∷ clients) = holders clients

pub holders-append : (a b : List Client) → holders (a ++ b) ≡ holders a + holders b
unfolding holders
holders-append [] b = omega arith
holders-append (waits pid mode ∷ a) b = holders-append a b
holders-append (writes_pid pid mode ∷ a) b = omega (arith, holders-append a b)
holders-append (writes_mode mode ∷ a) b = omega (arith, holders-append a b)
holders-append (posts ∷ a) b = omega (arith, holders-append a b)
holders-append (leaves ∷ a) b = holders-append a b

pub pending-append : (a b : List Client) → pending (a ++ b) ≡ pending a ++ pending b
unfolding pending
pending-append [] b = refl
pending-append (waits pid mode ∷ a) b = pending-append a b
pending-append (writes_pid pid mode ∷ a) b = ap (λ l. pid ∷ mode ∷ l) (pending-append a b)
pending-append (writes_mode mode ∷ a) b = ap (λ l. mode ∷ l) (pending-append a b)
pending-append (posts ∷ a) b = pending-append a b
pending-append (leaves ∷ a) b = pending-append a b

pub pending_free : (a : List Client) → holders a ≡ 0 → pending a ≡ []
unfolding pending holders
pending_free [] h = refl
pending_free (waits pid mode ∷ a) h = pending_free a h
pending_free (writes_pid pid mode ∷ a) h = absurd (omega arith)
pending_free (writes_mode mode ∷ a) h = absurd (omega arith)
pending_free (posts ∷ a) h = absurd (omega arith)
pending_free (leaves ∷ a) h = pending_free a h

-- When there is at most one holder, a client in the list is the only one with something to write.
pub pending_one :
    (a b : List Client) (c : Client)
    → holders (c ∷ []) ≡ 1
    → holders (a ++ c ∷ b) ≤ 1
    → pending (a ++ c ∷ b) ≡ pending (c ∷ [])
unfolding holders pending
pending_one a b c one most =
    let count = holders-append (c ∷ []) b in
    let none_a = pending_free a (omega (arith, holders-append a (c ∷ b), count)) in
    let none_b = pending_free b (omega (arith, holders-append a (c ∷ b), count)) in
    rw (pending-append a (c ∷ b), none_a, pending-append (c ∷ []) b, none_b)
      (append-nil (pending (c ∷ [])))

-- One holder, or none, in the place of another.
pub holders-replace :
    (a b : List Client) (c d : Client)
    → holders (a ++ d ∷ b) + holders (c ∷ []) ≡ holders (a ++ c ∷ b) + holders (d ∷ [])
unfolding holders
holders-replace a b c d = omega (
  arith,
  holders-append a (c ∷ b),
  holders-append a (d ∷ b),
  holders-append (c ∷ []) b,
  holders-append (d ∷ []) b,
)
