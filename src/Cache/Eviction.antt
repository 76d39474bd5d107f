-- ===== src/Cache/Eviction.antt =====
-- What worker.py's `prune_source_cache` keeps and evicts.
use mathlib.Core.Path.{subst}
use markitdown_server.Prelude.{
  All, All-map, ◌++◌, ◌<◌, ap, ◌∙◌, Bool, ℕ, ◌+◌, ◌-◌, ◌≤◌, ◌⊎◌, ◌≡◌, refl, inl, inr, true, false,
  [], ◌∷◌, arith, leb, Occurs, Bool-cases,
}
use markitdown_server.Cache.{
  CacheFile, Cache, Directory, size, entry_leb, insert_entry, sort_entries, total_size, evict,
  prune_source_cache,
}

total_size-insert_entry :
    (f : CacheFile) (fs : Cache) → total_size (insert_entry f fs) ≡ size f + total_size fs
unfolding total_size insert_entry
total_size-insert_entry f [] = omega arith
total_size-insert_entry f (g ∷ fs) = ground (arith, total_size-insert_entry f fs)

pub total_size-sort_entries : (fs : Cache) → total_size (sort_entries fs) ≡ total_size fs
unfolding total_size sort_entries
total_size-sort_entries [] = refl
total_size-sort_entries (f ∷ fs) =
    omega (arith, total_size-insert_entry f (sort_entries fs), total_size-sort_entries fs)

-- Entries in the order of their last access.
abbrev pub InOrder : Cache → Type 0
InOrder [] = Unit
InOrder (f ∷ fs) = All (λ g. f.accessed ≤ g.accessed) fs × InOrder fs

entry_leb-accessed : (f g : CacheFile) → entry_leb f g ≡ true → f.accessed ≤ g.accessed
unfolding entry_leb
entry_leb-accessed f g h = ground arith

accessed-entry_leb : (f g : CacheFile) → entry_leb f g ≡ false → g.accessed ≤ f.accessed
unfolding entry_leb
accessed-entry_leb f g h = ground arith

insert_entry-first :
    (f g : CacheFile) (fs : Cache) → entry_leb f g ≡ true → insert_entry f (g ∷ fs) ≡ f ∷ g ∷ fs
insert_entry-first f g fs e = unfold insert_entry in rw e

insert_entry-later :
    (f g : CacheFile) (fs : Cache)
    → entry_leb f g ≡ false
    → insert_entry f (g ∷ fs) ≡ g ∷ insert_entry f fs
insert_entry-later f g fs e = unfold insert_entry in rw e

insert_entry-All :
    (P : CacheFile → Type 0) (f : CacheFile) (fs : Cache)
    → P f
    → All P fs
    → All P (insert_entry f fs)
insert_entry-All P f [] p h = unfold insert_entry in (p, tt)
insert_entry-All P f (g ∷ fs) p (q, h) = elim (Bool-cases (entry_leb f g)) [
  | inl e ↦ rw (insert_entry-first f g fs e) (p, (q, h))
  | inr e ↦ rw (insert_entry-later f g fs e) (q, insert_entry-All P f fs p h)
]

sort_entries-All : (P : CacheFile → Type 0) (fs : Cache) → All P fs → All P (sort_entries fs)
unfolding sort_entries
sort_entries-All P [] h = tt
sort_entries-All P (f ∷ fs) (p, h) =
    insert_entry-All P f (sort_entries fs) p (sort_entries-All P fs h)

insert_entry-InOrder : (f : CacheFile) (fs : Cache) → InOrder fs → InOrder (insert_entry f fs)
insert_entry-InOrder f [] h = unfold insert_entry in (tt, tt)
insert_entry-InOrder f (g ∷ fs) (low, h) = elim (Bool-cases (entry_leb f g)) [
  | inl e ↦ rw (insert_entry-first f g fs e) (
    (entry_leb-accessed f g e, All-map fs (λ x k. omega (arith, k, entry_leb-accessed f g e)) low),
    (low, h),
  )
  | inr e ↦ rw (insert_entry-later f g fs e) (
    insert_entry-All (λ x. g.accessed ≤ x.accessed) f fs (accessed-entry_leb f g e) low,
    insert_entry-InOrder f fs h,
  )
]

sort_entries-InOrder : (fs : Cache) → InOrder (sort_entries fs)
unfolding sort_entries
sort_entries-InOrder [] = tt
sort_entries-InOrder (f ∷ fs) = insert_entry-InOrder f (sort_entries fs) (sort_entries-InOrder fs)

Occurs-insert :
    (h f : CacheFile) (fs : Cache) → (h ≡ f) ⊎ Occurs h fs → Occurs h (insert_entry f fs)
Occurs-insert h f [] o = unfold insert_entry in o
Occurs-insert h f (g ∷ fs) o = elim (Bool-cases (entry_leb f g)) [
  | inl e ↦ rw (insert_entry-first f g fs e) o
  | inr e ↦ rw (insert_entry-later f g fs e) (later (λ o. Occurs-insert h f fs o) o)
]
  where
    later :
        ((h ≡ f) ⊎ Occurs h fs → Occurs h (insert_entry f fs))
        → (h ≡ f) ⊎ Occurs h (g ∷ fs)
        → Occurs h (g ∷ insert_entry f fs)
    later in_rest (inl same) = inr (in_rest (inl same))
    later in_rest (inr (inl same)) = inl same
    later in_rest (inr (inr there)) = inr (in_rest (inr there))

Occurs-sort_entries : (f : CacheFile) (fs : Cache) → Occurs f fs → Occurs f (sort_entries fs)
unfolding sort_entries
Occurs-sort_entries f [] o = absurd o
Occurs-sort_entries f (g ∷ fs) (inl same) = Occurs-insert f g (sort_entries fs) (inl same)
Occurs-sort_entries f (g ∷ fs) (inr there) =
    Occurs-insert f g (sort_entries fs) (inr (Occurs-sort_entries f fs there))

occurring : (fs : Cache) → All (λ f. Occurs f fs) fs
occurring [] = tt
occurring (f ∷ fs) = (inl refl, All-map fs (λ g there. inr there) (occurring fs))

-- Why a prune stops: within the budget, or at a file that cannot be removed.
abbrev pub Stops : (CacheFile → Bool) → ℕ → Cache → Type 0
Stops removes max_bytes kept =
    (total_size kept ≤ max_bytes)
    ⊎ ((f : CacheFile) × (rest : Cache) × (kept ≡ f ∷ rest) × (removes f ≡ false))

-- Every evicted file had to go: the cache was over its budget with it, what was evicted behind it and what was kept.
abbrev pub AreNeeded : ℕ → Cache → Cache → Type 0
AreNeeded max_bytes [] kept = Unit
AreNeeded max_bytes (f ∷ evicted) kept =
    (max_bytes < total_size (f ∷ evicted ++ kept)) × AreNeeded max_bytes evicted kept

evict-split :
    (removes : CacheFile → Bool) (max_bytes : ℕ) (fs : Cache)
    → let kept = evict removes max_bytes (total_size fs) fs in
      (evicted : Cache) × (evicted ++ kept ≡ fs)
      × AreNeeded max_bytes evicted kept
      × Stops removes max_bytes kept
unfolding total_size evict
evict-split removes max_bytes [] = ([], refl, tt, inl (omega arith))
evict-split removes max_bytes (f ∷ fs) = elim (Bool-cases (leb (total_size (f ∷ fs)) max_bytes)) [
  | inl fits ↦ rw fits ([], refl, tt, inl (ground arith))
  | inr over ↦ elim (Bool-cases (removes f)) [
    | inl removed ↦
        let (evicted, same, needed, stops) = evict-split removes max_bytes fs in
        let left : size f + total_size fs - size f ≡ total_size fs = omega arith in
        rw (over, removed, left)
          (f ∷ evicted, ap (λ x. f ∷ x) same, (rw same (ground arith), needed), stops)
    | inr refused ↦ rw (over, refused) ([], refl, tt, inr (f, fs, refl, refused))
  ]
]

-- A prune of a directory that can be listed evicts the files that were used least recently, each only while the cache is over its
-- budget, and stops within the budget, or at a file that cannot be removed; it loses and invents no file.
pub prune_source_cache-evicts :
    (directory : Directory) (max_bytes : ℕ) (files : Cache)
    → directory.lists ≡ true
    → let kept = prune_source_cache directory max_bytes files in
      (evicted : Cache) × InOrder (evicted ++ kept)
      × AreNeeded max_bytes evicted kept
      × Stops directory.removes max_bytes kept
      × (total_size (evicted ++ kept) ≡ total_size files)
      × All (λ f. Occurs f files) (evicted ++ kept)
      × All (λ f. Occurs f (evicted ++ kept)) files
unfolding prune_source_cache
prune_source_cache-evicts directory max_bytes files listed =
    let sorted = sort_entries files in
    let (evicted, same, needed, stops) =
      subst
        (λ n.
          (evicted : Cache) × (evicted ++ evict directory.removes max_bytes n sorted ≡ sorted)
          × AreNeeded max_bytes evicted (evict directory.removes max_bytes n sorted)
          × Stops directory.removes max_bytes (evict directory.removes max_bytes n sorted))
        (total_size-sort_entries files) (evict-split directory.removes max_bytes sorted) in
    rw listed (
      evicted,
      rw same (sort_entries-InOrder files),
      needed,
      stops,
      ap total_size same ∙ total_size-sort_entries files,
      rw same (sort_entries-All (λ f. Occurs f files) files (occurring files)),
      rw same (All-map files (λ f there. Occurs-sort_entries f files there) (occurring files)),
    )
