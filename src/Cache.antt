-- ===== src/Cache.antt =====
-- worker.py: the cache of source files under SOURCE_CACHE_DIR, `fetch_source` and `prune_source_cache`.
-- The directory is the list of its files, in no particular order; `sorted(entries)` compares access time, size and
-- path, and all paths share the directory. An OSError of the file system ends a prune; a Directory says where one is raised.
pub mod Eviction
pub mod Fetching
mod Tests
use markitdown_server.Prelude.{
  ℕ, ◌+◌, ◌-◌, Bool, true, false, ◌&&◌, ◌||◌, Option, List, [], ◌∷◌, ltb, leb, ◌==◌, if◌then◌else◌,
  Text, text_eq, length,
}
use markitdown_server.Sql.{select_first, update_where}
use markitdown_server.Storage.{Bytes}

pub record CacheFile : Type 0 where
  pub accessed : ℕ
  pub name : Text
  pub content : Bytes

abbrev pub Cache : Type 0
Cache = List CacheFile

-- Whether the calls that list the directory pass, and `os.remove` for each file.
pub record Directory : Type 0 where
  pub lists : Bool
  pub removes : CacheFile → Bool

abbrev pub size : CacheFile → ℕ
size f = length f.content

-- `s <= t` on texts
unfoldable pub text_leb : Text → Text → Bool
text_leb [] t = true
text_leb (x ∷ s) [] = false
text_leb (x ∷ s) (y ∷ t) = ltb x y || x == y && text_leb s t

-- `<=` on the tuples of an entry
unfoldable pub entry_leb : CacheFile → CacheFile → Bool
entry_leb f g =
    ltb f.accessed g.accessed
    || f.accessed == g.accessed
      && (ltb (size f) (size g) || size f == size g && text_leb f.name g.name)

unfoldable pub insert_entry : CacheFile → Cache → Cache
insert_entry f [] = f ∷ []
insert_entry f (g ∷ gs) = if entry_leb f g then f ∷ g ∷ gs else g ∷ insert_entry f gs

-- `sorted(entries)`
unfoldable pub sort_entries : Cache → Cache
sort_entries [] = []
sort_entries (f ∷ fs) = insert_entry f (sort_entries fs)

unfoldable pub total_size : Cache → ℕ
total_size [] = 0
total_size (f ∷ fs) = size f + total_size fs

-- The second `for` loop, up to the first file that cannot be removed: what is left of the sorted entries.
unfoldable pub evict : (CacheFile → Bool) → ℕ → ℕ → Cache → Cache
evict removes max_bytes total [] = []
evict removes max_bytes total (f ∷ fs) =
    let rest = evict removes max_bytes (total - size f) fs in
    if leb total max_bytes then f ∷ fs else if removes f then rest else f ∷ fs

unfoldable pub prune_source_cache : Directory → ℕ → Cache → Cache
prune_source_cache directory max_bytes files =
    if directory.lists
    then evict directory.removes max_bytes (total_size files) (sort_entries files)
    else files

-- The file at a path, and `os.utime(path, None)`.
unfoldable pub cached : Text → Cache → Option CacheFile
cached file_hash files = select_first (λ f. text_eq f.name file_hash) files

abbrev pub touch : Text → ℕ → Cache → Cache
touch file_hash now files =
    update_where (λ f. text_eq f.name file_hash) (λ f. record f { accessed = now }) files

-- The rest of `fetch_source`, once the source is downloaded: the file is moved into its place and the cache pruned.
unfoldable pub store_source : Directory → ℕ → Text → ℕ → Bytes → Cache → Cache
store_source directory max_bytes file_hash now content files =
    prune_source_cache directory max_bytes
      (record { accessed = now; name = file_hash; content = content } ∷ files)
