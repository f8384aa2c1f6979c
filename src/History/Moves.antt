-- ===== src/History/Moves.antt =====
-- What a step does to a queue of the heap: taken from its front, added at its back.
use decent_ethereum.Base.{
  ℕ, ◌<◌, ◌≡◌, sym, List, [], ◌∷◌, ◌++◌, arith, Heap, alloc, push_back, clear, ◌==◌, if◌then◌else◌,
  append-nil,
}

-- The queue number `p` from `g` to `h`: what is `out` was at its front, and what is `added` is at
-- its back. A queue that was made stays made.
pub record Moves {A : Type 0} (p : ℕ) (g h : Heap A) (out added : List A) : Type 0 where
  pub balance : out ++ h.cell p ≡ g.cell p ++ added
  pub made : p < h.next

pub Moves-same : {A : Type 0} (p : ℕ) (g : Heap A) → p < g.next → Moves p g g [] []
Moves-same p g h = record { balance = sym (append-nil (g.cell p)); made = h }

pub Moves-alloc : {A : Type 0} (p : ℕ) (g : Heap A) → p < g.next → Moves p g (alloc g) [] []
unfolding alloc
Moves-alloc p g h = record { balance = ground (arith, append-nil (g.cell p)); made = omega arith }

pub Moves-push_back :
    {A : Type 0} (p q : ℕ) (g : Heap A) (e : A)
    → p < g.next
    → Moves p g (push_back q e g) [] (if q == p then e ∷ [] else [])
unfolding push_back
Moves-push_back p q g e h = record { balance = ground (arith, append-nil (g.cell p)); made = h }

pub Moves-clear :
    {A : Type 0} (p q : ℕ) (g : Heap A)
    → p < g.next
    → Moves p g (clear q g) (if q == p then g.cell p else []) []
unfolding clear
Moves-clear p q g h = record { balance = ground (arith, append-nil (g.cell p)); made = h }
