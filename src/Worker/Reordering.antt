-- ===== src/Worker/Reordering.antt =====
-- A job that is under way with some tasks is under way with the pending tasks of any deliveries of these tasks.
use mathlib.Core.Path.{subst}
use markitdown_server.Prelude.{
  All-zip, ℕ, suc, ◌≤◌, ◌≡◌, ◌≢◌, refl, ap, sym, inl, inr, false, ◌==◌, if◌then◌else◌, List, [],
  ◌∷◌, Text, All, All-map, Occurs, length, arith, Bool-cases,
}
use markitdown_server.Storage.{Bytes, Codec}
use markitdown_server.Taskqueue.{ChunkTask}
use markitdown_server.Jobstore.{chunk_indices}
use markitdown_server.Action.{World}
use markitdown_server.Worker.{Config, Tools}
use markitdown_server.Worker.Pipeline.{Awaits, AreDistinct, Underway}
use markitdown_server.Worker.Pending.{has, pending, pending-again, pending-first}

-- Every task of the first list occurs in the second.
abbrev pub AreAmong : List ChunkTask → List ChunkTask → Type 0
AreAmong ts us = All (λ t. Occurs t us) ts

pub Occurs-all :
    (P : ChunkTask → Type 0) (t : ChunkTask) (us : List ChunkTask) → Occurs t us → All P us → P t
Occurs-all P t [] here h = absurd here
Occurs-all P t (u ∷ us) (inl same) (p, h) = subst P (sym same) p
Occurs-all P t (u ∷ us) (inr here) (p, h) = Occurs-all P t us here h

Occurs-Awaits : (t : ChunkTask) (us : List ChunkTask) → Occurs t us → Awaits t.chunk_index us
Occurs-Awaits t [] here = absurd here
Occurs-Awaits t (u ∷ us) (inl same) = inl (ap (λ x. x.chunk_index) same)
Occurs-Awaits t (u ∷ us) (inr here) = inr (Occurs-Awaits t us here)

-- What holds for all deliveries holds for the pending ones.
All-pending :
    (P : ChunkTask → Type 0) (seen : List ℕ) (ds : List ChunkTask)
    → All P ds
    → All P (pending seen ds)
All-pending P seen [] h = unfold pending in tt
All-pending P seen (t ∷ ds) (p, h) = elim (Bool-cases (has seen t.chunk_index)) [
  | inl again ↦ rw (pending-again seen t ds again) (All-pending P seen ds h)
  | inr first ↦ rw (pending-first seen t ds first) (p, All-pending P (t.chunk_index ∷ seen) ds h)
]

unseen-pending :
    (seen : List ℕ) (ds : List ChunkTask)
    → All (λ t. has seen t.chunk_index ≡ false) (pending seen ds)
unseen-pending seen [] = unfold pending in tt
unseen-pending seen (t ∷ ds) = elim (Bool-cases (has seen t.chunk_index)) [
  | inl again ↦ rw (pending-again seen t ds again) (unseen-pending seen ds)
  | inr first ↦ rw (pending-first seen t ds first) (
    first,
    All-map (pending (t.chunk_index ∷ seen) ds) (λ u h. ground (arith, h))
        (unseen-pending (t.chunk_index ∷ seen) ds),
  )
]

pending-AreDistinct : (seen : List ℕ) (ds : List ChunkTask) → AreDistinct (pending seen ds)
pending-AreDistinct seen [] = unfold pending in tt
pending-AreDistinct seen (t ∷ ds) = elim (Bool-cases (has seen t.chunk_index)) [
  | inl again ↦ rw (pending-again seen t ds again) (pending-AreDistinct seen ds)
  | inr first ↦ rw (pending-first seen t ds first) (
    All-map (pending (t.chunk_index ∷ seen) ds) (λ u h. ground (arith, h))
        (unseen-pending (t.chunk_index ∷ seen) ds),
    pending-AreDistinct (t.chunk_index ∷ seen) ds,
  )
]

pending-Awaits :
    (seen : List ℕ) (ds : List ChunkTask) (i : ℕ)
    → Awaits i ds
    → has seen i ≡ false
    → Awaits i (pending seen ds)
pending-Awaits seen [] i h new = absurd h
pending-Awaits seen (t ∷ ds) i h new = elim (Bool-cases (has seen t.chunk_index)) [
  | inl again ↦ rw (pending-again seen t ds again) (elim h [
    | inl same ↦ absurd (ground (arith, ap (λ n. has seen n) same))
    | inr later ↦ pending-Awaits seen ds i later new
  ])
  | inr first ↦ rw (pending-first seen t ds first) (elim (Bool-cases (i == t.chunk_index)) [
    | inl same ↦ inl (ground arith)
    | inr other ↦ elim h [
      | inl same ↦ absurd (ground arith)
      | inr later ↦
          inr (pending-Awaits (t.chunk_index ∷ seen) ds i later (ground (arith, other, new)))
    ]
  ])
]

-- The list without the first task of a chunk.
unfoldable without : ℕ → List ChunkTask → List ChunkTask
without i [] = []
without i (u ∷ us) = let rest = without i us in if i == u.chunk_index then us else u ∷ rest

length-without :
    (i : ℕ) (us : List ChunkTask) → Awaits i us → length us ≡ suc (length (without i us))
unfolding without
length-without i [] h = absurd h
length-without i (u ∷ us) (inl same) = ground arith
length-without i (u ∷ us) (inr later) = ground (arith, length-without i us later)

without-Awaits : (i n : ℕ) (us : List ChunkTask) → Awaits n us → n ≢ i → Awaits n (without i us)
unfolding without
without-Awaits i n [] h other = absurd h
without-Awaits i n (u ∷ us) h other = elim (Bool-cases (i == u.chunk_index)) [
  | inl here ↦ rw here (elim h [ inl same ↦ absurd (ground arith) | inr later ↦ later ])
  | inr there ↦
      rw there
        (elim h [ inl same ↦ inl same | inr later ↦ inr (without-Awaits i n us later other) ])
]

-- Distinct tasks whose chunks all come up in another list are no more than that list has.
length-le :
    (ts us : List ChunkTask)
    → AreDistinct ts
    → All (λ t. Awaits t.chunk_index us) ts
    → length ts ≤ length us
length-le [] us distinct h = omega arith
length-le (t ∷ ts) us (others, distinct) (here, h) = omega (
  arith,
  length-without t.chunk_index us here,
  length-le ts (without t.chunk_index us) distinct
      (All-zip ts (λ u ne later. without-Awaits t.chunk_index u.chunk_index us later ne) others h),
)

-- The deliveries are of tasks of the job only, and every task of the job is among them.
pub pending-Underway :
    (config : Config) (codec : Codec) (tools : Tools) (content : Bytes) (texts : ℕ → Text)
    (id doc_key file_hash : Text) (ts ds : List ChunkTask) (w : World)
    → Underway config codec tools content texts id doc_key file_hash ts w
    → AreAmong ds ts
    → AreAmong ts ds
    → Underway config codec tools content texts id doc_key file_hash (pending [] ds) w
pending-Underway config codec tools content texts id doc_key file_hash ts ds w u only all = record {
  fine = u.fine;
  well = u.well;
  job = u.job;
  has_job = u.has_job;
  active = u.active;
  same_id = u.same_id;
  same_key = u.same_key;
  left = omega (
    arith,
    u.left,
    length-le ts (pending [] ds) u.distinct
        (All-map ts (λ t here. awaited t.chunk_index (Occurs-Awaits t ds here)) all),
    length-le (pending [] ds) ts (pending-AreDistinct [] ds) (
        All-pending (λ d. Awaits d.chunk_index ts) [] ds
          (All-map ds (λ d here. Occurs-Awaits d ts here) only)),
  );
  each_open = of_ts _ u.each_open;
  distinct = pending-AreDistinct [] ds;
  own = of_ts _ u.own;
  converts = of_ts _ u.converts;
  parts =
      All-map (chunk_indices id w.db)
        (λ i h. elim h [
          | inl there ↦ inl there
          | inr later ↦ inr (awaited i (of_awaited ts all i later))
        ])
        u.parts;
  source = u.source;
}
  where
    of_ts : (P : ChunkTask → Type 0) → All P ts → All P (pending [] ds)
    of_ts P h = All-pending P [] ds (All-map ds (λ d here. Occurs-all P d ts here h) only)

    awaited : (i : ℕ) → Awaits i ds → Awaits i (pending [] ds)
    awaited i h = pending-Awaits [] ds i h refl

    of_awaited : (us : List ChunkTask) → AreAmong us ds → (i : ℕ) → Awaits i us → Awaits i ds
    of_awaited [] among i h = absurd h
    of_awaited (x ∷ us) (here, among) i (inl same) =
        subst (λ n. Awaits n ds) (sym same) (Occurs-Awaits x ds here)
    of_awaited (x ∷ us) (here, among) i (inr later) = of_awaited us among i later
