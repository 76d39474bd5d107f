-- ===== src/Cache/Fetching.antt =====
-- worker.py's `fetch_source`: a source that fits beside what is cached is in the cache afterwards.
use markitdown_server.Prelude.{
  Bool-cases, inl, inr, ℕ, ◌+◌, ◌≤◌, ◌≡◌, refl, ap, ◌∙◌, Bool, true, none, some, [], ◌∷◌, Text,
  arith, text_eq, text_eq_refl, length, false,
}
use markitdown_server.Sql.{select_first}
use markitdown_server.Storage.{Bytes}
use markitdown_server.Cache.{
  Cache, CacheFile, Directory, cached, touch, store_source, prune_source_cache, evict, sort_entries,
  insert_entry, total_size,
}

evict-none :
    (removes : CacheFile → Bool) (max_bytes total : ℕ) (files : Cache)
    → total ≤ max_bytes
    → evict removes max_bytes total files ≡ files
unfolding evict
evict-none removes max_bytes total [] h = refl
evict-none removes max_bytes total (f ∷ files) h = ground arith

module _ (p : CacheFile → Bool) where
  select_first-insert_entry_none :
      (f : CacheFile) (files : Cache)
      → p f ≡ false
      → select_first p (insert_entry f files) ≡ select_first p files
  unfolding insert_entry
  select_first-insert_entry_none f [] h = rw h refl
  select_first-insert_entry_none f (g ∷ files) h =
      ground (arith, select_first-insert_entry_none f files)

  select_first-sort_entries :
      (files : Cache) → select_first p files ≡ none → select_first p (sort_entries files) ≡ none
  unfolding sort_entries
  select_first-sort_entries [] h = refl
  select_first-sort_entries (f ∷ files) h = ground (
    arith,
    select_first-insert_entry_none f (sort_entries files),
    select_first-sort_entries files,
  )

  select_first-insert_entry :
      (f : CacheFile) (files : Cache)
      → p f ≡ true
      → select_first p files ≡ none
      → select_first p (insert_entry f files) ≡ some f
  unfolding insert_entry
  select_first-insert_entry f [] h free = rw h refl
  select_first-insert_entry f (g ∷ files) h free = ground (arith, select_first-insert_entry f files)

-- A source that is not cached, and fits beside the files that are, is found with its content once it is stored.
pub cached-store_source :
    (directory : Directory) (max_bytes : ℕ) (file_hash : Text) (now : ℕ) (content : Bytes)
    (files : Cache)
    → cached file_hash files ≡ none
    → total_size files + length content ≤ max_bytes
    → cached file_hash (store_source directory max_bytes file_hash now content files)
      ≡ some (record { accessed = now; name = file_hash; content = content })
unfolding store_source prune_source_cache cached sort_entries total_size
cached-store_source directory max_bytes file_hash now content files absent fits =
    elim (Bool-cases directory.lists) [
      | inl listed ↦ rw listed (
          ap (λ fs. select_first (λ f. text_eq f.name file_hash) fs)
            (evict-none directory.removes max_bytes (length content + total_size files)
              (insert_entry new (sort_entries files)) (omega arith))
          ∙ select_first-insert_entry (λ f. text_eq f.name file_hash) new (sort_entries files)
              (text_eq_refl file_hash)
              (select_first-sort_entries (λ f. text_eq f.name file_hash) files absent))
      | inr unlisted ↦ rw (unlisted, text_eq_refl file_hash) refl
    ]
  where
    new : CacheFile
    new = record { accessed = now; name = file_hash; content = content }

-- Marking a file as used keeps its content.
pub cached-touch :
    (file_hash : Text) (now : ℕ) (files : Cache) (f : CacheFile)
    → cached file_hash files ≡ some f
    → cached file_hash (touch file_hash now files) ≡ some (record f { accessed = now })
unfolding cached
cached-touch file_hash now [] f h = cc
cached-touch file_hash now (g ∷ files) f h = ground (arith, cached-touch file_hash now files f)
