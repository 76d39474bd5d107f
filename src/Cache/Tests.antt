-- ===== src/Cache/Tests.antt =====
-- Tests of the cache of sources, and the theorems at concrete inputs.
use markitdown_server.Prelude.{◌++◌, All, Occurs, true, ◌≡◌, refl, [], ◌∷◌, codes}
use markitdown_server.Cache.{
  Cache, Directory, CacheFile, total_size, sort_entries, insert_entry, entry_leb, evict,
  prune_source_cache,
}
use markitdown_server.Cache.Eviction.{InOrder, AreNeeded, Stops, prune_source_cache-evicts}

abbrev directory : Directory
directory = record { lists = true; removes = λ f. true }

abbrev older : CacheFile
older = record { accessed = 1; name = codes "a"; content = 1 ∷ 2 ∷ 3 ∷ [] }

abbrev newer : CacheFile
newer = record { accessed = 2; name = codes "b"; content = 4 ∷ 5 ∷ [] }

prune_evicts_older : prune_source_cache directory 4 (newer ∷ older ∷ []) ≡ newer ∷ []
unfolding prune_source_cache sort_entries insert_entry entry_leb evict total_size
prune_evicts_older = refl

prune_keeps_both : prune_source_cache directory 5 (newer ∷ older ∷ []) ≡ older ∷ newer ∷ []
unfolding prune_source_cache sort_entries insert_entry entry_leb evict total_size
prune_keeps_both = refl

prune_source_cache-evicts_example :
    let kept = prune_source_cache directory 4 (newer ∷ older ∷ []) in
    (evicted : Cache) × InOrder (evicted ++ kept)
    × AreNeeded 4 evicted kept
    × Stops directory.removes 4 kept
    × (total_size (evicted ++ kept) ≡ total_size (newer ∷ older ∷ []))
    × All (λ f. Occurs f (newer ∷ older ∷ [])) (evicted ++ kept)
    × All (λ f. Occurs f (evicted ++ kept)) (newer ∷ older ∷ [])
prune_source_cache-evicts_example = prune_source_cache-evicts directory 4 (newer ∷ older ∷ []) refl
