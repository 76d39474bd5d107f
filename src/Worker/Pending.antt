-- ===== src/Worker/Pending.antt =====
-- The tasks of a list of deliveries, without the repetitions.
use mathlib.Core.Path.{subst}
use markitdown_server.Prelude.{
  Bool, true, false, ◌||◌, ◌==◌, if◌then◌else◌, Bool-cases, true, ◌==◌, ℕ, ◌≡◌, refl, inl, inr,
  List, [], ◌∷◌, All, false, arith, Bool,
}
use markitdown_server.Taskqueue.{ChunkTask}

abbrev pub has : List ℕ → ℕ → Bool
has [] i = false
has (n ∷ seen) i = i == n || has seen i

-- The tasks of the list whose chunk is none of these and that come up for the first time.
unfoldable pub pending : List ℕ → List ChunkTask → List ChunkTask
pending seen [] = []
pending seen (t ∷ ts) =
    let again = pending seen ts in
    let first = pending (t.chunk_index ∷ seen) ts in
    if has seen t.chunk_index then again else t ∷ first

pub has-all : (P : ℕ → Type 0) (seen : List ℕ) (i : ℕ) → All P seen → has seen i ≡ true → P i
has-all P [] i h e = absurd (ground arith)
has-all P (n ∷ seen) i (h, rest) e = elim (Bool-cases (i == n)) [
  | inl here ↦ let same : n ≡ i = ground arith in subst P same h
  | inr other ↦ has-all P seen i rest (ground (arith, e, other))
]

pub pending-again :
    (seen : List ℕ) (t : ChunkTask) (ts : List ChunkTask)
    → has seen t.chunk_index ≡ true
    → pending seen (t ∷ ts) ≡ pending seen ts
unfolding pending
pending-again seen t ts e = rw e refl

pub pending-first :
    (seen : List ℕ) (t : ChunkTask) (ts : List ChunkTask)
    → has seen t.chunk_index ≡ false
    → pending seen (t ∷ ts) ≡ t ∷ pending (t.chunk_index ∷ seen) ts
unfolding pending
pending-first seen t ts e = rw e refl
