-- ===== src/Worker/Delivery.antt =====
-- worker.py: one delivery of a task of a job, with calls that pass.
use mathlib.Core.Path.{subst}
use markitdown_server.Prelude.{ℕ, ◌≡◌, ◌⊎◌, inl, List, ◌∷◌, Text, length}
use markitdown_server.Prelude.Int.{pos}
use markitdown_server.Storage.{Bytes, Codec}
use markitdown_server.Taskqueue.{TaskCodec, ChunkTask}
use markitdown_server.Jobstore.{chunk_indices}
use markitdown_server.Action.{World, returned}
use markitdown_server.Worker.{Config, Tools, handle, finish}
use markitdown_server.Worker.Pipeline.{Underway, Stored, recorded}
use markitdown_server.Worker.Repeating.{repeated}
use markitdown_server.Worker.Converting.{conversion}

module _ (config : Config) (codec : Codec) (tasks : TaskCodec) (tools : Tools) (content : Bytes)
    (texts : ℕ → Text) where
  -- A delivery of a task of the job, whose range converts to its text.
  abbrev pub Delivers : Text → Text → Text → ChunkTask → Type 0
  Delivers id doc_key file_hash t =
      (t.job_id ≡ id)
      × (t.doc_key ≡ doc_key)
      × (t.file_hash ≡ file_hash)
      × (conversion tools content t ≡ inl (texts t.chunk_index))

  -- What holds for a task's own keys holds for the job's.
  of_keys :
      (P : Text → Text → Text → Type 0) (id doc_key file_hash : Text) (t : ChunkTask)
      → Delivers id doc_key file_hash t
      → P t.job_id t.doc_key t.file_hash
      → P id doc_key file_hash
  of_keys P id doc_key file_hash t (same_id, same_key, same_hash, converts) p =
      subst (λ i. P i doc_key file_hash) same_id
        (subst (λ k. P t.job_id k file_hash) same_key
          (subst (λ h. P t.job_id t.doc_key h) same_hash p))

  -- The delivery of the first pending task.
  pub recorded_of :
      (id doc_key file_hash : Text) (t : ChunkTask) (ts : List ChunkTask) (w : World)
      → Delivers id doc_key file_hash t
      → Underway config codec tools content texts id doc_key file_hash (t ∷ ts) w
      → (v : World) × (handle config codec tasks tools t w
          ≡ finish config codec tasks tools t (pos (length ts)) v)
        × Underway config codec tools content texts id doc_key file_hash ts v
        × (chunk_indices id v.db ≡ chunk_indices id w.db)
        × ((i : ℕ)
            → (i ≡ t.chunk_index) ⊎ Stored codec texts id doc_key w i
            → Stored codec texts id doc_key v i)
  recorded_of id doc_key file_hash t ts w own =
      of_keys
        (λ i k h.
          Underway config codec tools content texts i k h (t ∷ ts) w
          → (v : World) × (handle config codec tasks tools t w
              ≡ finish config codec tasks tools t (pos (length ts)) v)
            × Underway config codec tools content texts i k h ts v
            × (chunk_indices i v.db ≡ chunk_indices i w.db)
            × ((n : ℕ)
                → (n ≡ t.chunk_index) ⊎ Stored codec texts i k w n
                → Stored codec texts i k v n))
        id doc_key file_hash t own (recorded config codec tasks tools content texts t ts w)

  -- The delivery of a task whose chunk is done.
  pub repeated_of :
      (id doc_key file_hash : Text) (t : ChunkTask) (ts : List ChunkTask) (w : World)
      → Delivers id doc_key file_hash t
      → Stored codec texts id doc_key w t.chunk_index
      → Underway config codec tools content texts id doc_key file_hash ts w
      → (v : World) × (handle config codec tasks tools t w ≡ (returned tt, v))
        × Underway config codec tools content texts id doc_key file_hash ts v
        × (chunk_indices id v.db ≡ chunk_indices id w.db)
        × ((i : ℕ) → Stored codec texts id doc_key w i → Stored codec texts id doc_key v i)
  repeated_of id doc_key file_hash t ts w own =
      of_keys
        (λ i k h.
          Stored codec texts i k w t.chunk_index
          → Underway config codec tools content texts i k h ts w
          → (v : World) × (handle config codec tasks tools t w ≡ (returned tt, v))
            × Underway config codec tools content texts i k h ts v
            × (chunk_indices i v.db ≡ chunk_indices i w.db)
            × ((n : ℕ) → Stored codec texts i k w n → Stored codec texts i k v n))
        id doc_key file_hash t own (repeated config codec tasks tools content texts t ts w own.3)
