-- ===== src/Worker/Converting.antt =====
-- worker.py's `convert_range` when all calls pass.
use markitdown_server.Prelude.{
  ℕ, ◌+◌, ◌≤◌, ◌≡◌, ◌⊎◌, refl, ap, ◌∙◌, inl, inr, none, some, List, Text, length, if◌then◌else◌,
  Bool-cases,
}
use markitdown_server.Prelude.Int.{negsuc, eq_ℤ}
use markitdown_server.Chunker.{extract_pages}
use markitdown_server.Storage.{Bytes, Codec, get_bytes, source_key}
use markitdown_server.Taskqueue.{TaskCodec, ChunkTask}
use markitdown_server.Converter.{convert_file}
use markitdown_server.Cache.{Cache, CacheFile, cached, touch, store_source, total_size}
use markitdown_server.Cache.Fetching.{cached-store_source, cached-touch}
use markitdown_server.Action.{World, Error, returned, or_raise, ◌>>=◌}
use markitdown_server.Worker.{Config, Tools, fetch_source, open_source, convert_range}
use markitdown_server.Worker.Passing.{Passing, call-returned, bind-returned}

-- The file at the path of the source has this content.
abbrev pub HasFile : Text → Bytes → Cache → Type 0
HasFile file_hash content files =
    (f : CacheFile) × (cached file_hash files ≡ some f) × (f.content ≡ content)

-- The source is cached, or it is stored and fits beside what is cached.
abbrev pub HasSource : Config → Text → Bytes → World → Type 0
HasSource config file_hash content w =
    HasFile file_hash content w.cache
    ⊎ (cached file_hash w.cache ≡ none)
      × (get_bytes (source_key file_hash) w.bucket ≡ some content)
      × (total_size w.cache + length content ≤ config.source_cache_max_bytes)

-- The text of a page range of a source, or what its conversion raises: markitdown's conversion of the whole file or of the
-- pages of the range.
abbrev pub conversion : Tools → Bytes → ChunkTask → Text ⊎ Error
conversion tools content task =
    if eq_ℤ task.end_page (negsuc 0)
    then convert_file tools.openai_api_key tools.markitdown content task.use_llm
    else elim (tools.read_pages content) [
      | inl pages ↦
          convert_file tools.openai_api_key tools.markitdown
            (tools.write_pages (extract_pages pages (task.start_page, task.end_page))) task.use_llm
      | inr e ↦ inr e
    ]

module _ (config : Config) (codec : Codec) (tasks : TaskCodec) (tools : Tools)
    (content : Bytes) where
  fetch_source-HasFile :
      (file_hash : Text) (w : World)
      → Passing w
      → HasSource config file_hash content w
      → (c : Cache) × (n : ℕ) × (fetch_source config codec tasks tools file_hash w
          ≡ (returned tt, record w { cache = c; calls = n }))
        × HasFile file_hash content c
  unfolding fetch_source
  fetch_source-HasFile file_hash w fine (inl (f, here, same)) = (
    touch file_hash (w.schedule w.calls).now w.cache,
    w.calls + 1,
    rw (here, fetch_source) (call-returned _ w fine),
    (_, cached-touch file_hash (w.schedule w.calls).now w.cache f here, same),
  )
  fetch_source-HasFile file_hash w fine (inr (absent, there, fits)) = (
    store_source tools.directory config.source_cache_max_bytes file_hash
        (w.schedule (w.calls + 1)).now content w.cache,
    w.calls + 1 + 1,
    rw (absent, fetch_source)
        (bind-returned _ _ (bind-returned _ _ (call-returned _ w fine) ∙ (rw there refl))
          ∙ call-returned _ _ fine),
    (
      _,
      cached-store_source tools.directory config.source_cache_max_bytes file_hash _ content w.cache
          absent fits,
      refl,
    ),
  )

  opened :
      (file_hash : Text) (f : CacheFile) (w : World)
      → cached file_hash w.cache ≡ some f
      → f.content ≡ content
      → open_source file_hash w ≡ (returned content, w)
  opened file_hash f w here same = rw (here, open_source) (ap (λ b. (returned b, w)) same)

  on_pages :
      (task : ChunkTask) (w : World) (r : List tools.Page ⊎ Error)
      → (or_raise r >>= λ pages. or_raise (
            convert_file tools.openai_api_key tools.markitdown
              (tools.write_pages (extract_pages pages (task.start_page, task.end_page)))
              task.use_llm))
          w
        ≡ or_raise {A = Text}
            (elim r [
              | inl pages ↦
                  convert_file tools.openai_api_key tools.markitdown
                    (tools.write_pages (extract_pages pages (task.start_page, task.end_page)))
                    task.use_llm
              | inr e ↦ inr e
            ])
            w
  unfolding ◌>>=◌
  on_pages task w (inl pages) = refl
  on_pages task w (inr e) = refl

  range_text :
      (task : ChunkTask) (w : World)
      → (if eq_ℤ task.end_page (negsuc 0)
            then or_raise (convert_file tools.openai_api_key tools.markitdown content task.use_llm)
            else (or_raise (tools.read_pages content) >>= λ pages. or_raise (
                convert_file tools.openai_api_key tools.markitdown
                  (tools.write_pages (extract_pages pages (task.start_page, task.end_page)))
                  task.use_llm)))
          w
        ≡ or_raise (conversion tools content task) w
  range_text task w = elim (Bool-cases (eq_ℤ task.end_page (negsuc 0))) [
    | inl e ↦ rw e refl
    | inr e ↦ rw e (on_pages task w (tools.read_pages content))
  ]

  -- `convert_range` gives what its conversion is, and changes the cache only, where the source stays.
  pub convert_range-conversion :
      (task : ChunkTask) (w : World)
      → Passing w
      → HasSource config task.file_hash content w
      → (c : Cache) × (n : ℕ) × (convert_range config codec tasks tools task.file_hash
            task.start_page task.end_page task.use_llm w
          ≡ or_raise (conversion tools content task) (record w { cache = c; calls = n }))
        × HasFile task.file_hash content c
  unfolding convert_range
  convert_range-conversion task w fine source =
      let (c, n, fetched, (f, here, same)) = fetch_source-HasFile task.file_hash w fine source in
      (
        c,
        n,
        bind-returned _ _ fetched
            ∙ bind-returned _ _
                (opened task.file_hash f (record w { cache = c; calls = n }) here same)
            ∙ range_text task (record w { cache = c; calls = n }),
        (f, here, same),
      )
