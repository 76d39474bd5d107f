-- ===== src/Worker/Delivered.antt =====
-- worker.py: what the deliveries of all tasks of a job leave behind, with calls that pass.
use mathlib.Core.Path.{subst}
use markitdown_server.Prelude.{
  All-zip, All-map, arith, ℕ, ◌+◌, ◌≡◌, ◌⊎◌, refl, ap, sym, ◌∙◌, inl, inr, some, List, [], ◌∷◌, map,
  Text, All, length, get_elem?,
}
use markitdown_server.Pagination.{paginate}
use markitdown_server.Storage.{
  Bytes, Bucket, Codec, put_document, found, get_part, manifest_of, get_manifest, get_page,
}
use markitdown_server.Taskqueue.{TaskCodec, ChunkTask}
use markitdown_server.Tables.{Job, JobStatus, is_terminal}
use markitdown_server.Jobstore.{get_job, chunk_indices}
use markitdown_server.Action.{World, returned}
use markitdown_server.Worker.{Config, Tools, markdown_of}
use markitdown_server.Worker.Passing.{PartsAre}
use markitdown_server.Worker.Assembly.{assemble-stores, assembled, stored}
use markitdown_server.Worker.Pipeline.{handle_all, Awaits, Underway}
use markitdown_server.Worker.Pending.{pending}
use markitdown_server.Worker.Reordering.{AreAmong, Occurs-all, pending-Underway}
use markitdown_server.Worker.Delivery.{Delivers}
use markitdown_server.Worker.Delivering.{List-cases, deliveries-Assembles}

parts_stored :
    (codec : Codec) (texts : ℕ → Text) (doc_key : Text) (b : Bucket) (indices : List ℕ)
    → All (λ i. (get_part codec doc_key i b ≡ found (texts i)) ⊎ Awaits i []) indices
    → PartsAre codec doc_key b indices (map texts indices)
parts_stored codec texts doc_key b [] h = tt
parts_stored codec texts doc_key b (i ∷ indices) (inl e, rest) =
    (e, parts_stored codec texts doc_key b indices rest)
parts_stored codec texts doc_key b (i ∷ indices) (inr h, rest) = absurd h

module _ (config : Config) (codec : Codec) (tasks : TaskCodec) (tools : Tools) (content : Bytes)
    (texts : ℕ → Text) (id doc_key file_hash : Text) where
  -- The same, in terms of the pending tasks of the deliveries.
  handle_all-pending :
      (ds : List ChunkTask) (p : ChunkTask) (ps : List ChunkTask) (w : World) (pages : List Text)
      (i : ℕ) (page : Text)
      → All (Delivers config codec tasks tools content texts id doc_key file_hash) ds
      → pending [] ds ≡ p ∷ ps
      → Underway config codec tools content texts id doc_key file_hash (pending [] ds) w
      → paginate (markdown_of (map texts (chunk_indices id w.db))) config.page_size ≡ some pages
      → get_elem? pages i ≡ some page
      → let after = handle_all config codec tasks tools ds w in
        (after.0 ≡ returned tt)
        × (get_manifest codec doc_key after.1.bucket
            ≡ found (
                manifest_of codec doc_key pages
                  (length (markdown_of (map texts (chunk_indices id w.db))))
                  config.page_size))
        × (get_page codec doc_key (i + 1) after.1.bucket ≡ found page)
        × (j : Job) × (get_job id after.1.db ≡ some j)
        × (j.status ≡ JobStatus.done)
  handle_all-pending ds p ps w pages i page own some_pending u paginated on_page =
      let (v, last, indices, go) =
        deliveries-Assembles config codec tasks tools content texts id doc_key file_hash ds [] w p
          ps own some_pending u tt in
      let whole = map texts (chunk_indices id w.db) in
      let fetched = record v { calls = v.calls + 1 } in
      let parts : PartsAre codec last.job.doc_key v.bucket (chunk_indices last.job.job_id v.db)
          whole =
        subst (λ k. PartsAre codec k v.bucket (chunk_indices last.job.job_id v.db) whole)
          (sym last.same_key)
          (subst (λ n. PartsAre codec doc_key v.bucket (chunk_indices n v.db) whole)
            (sym last.same_id)
            (subst (λ ns. PartsAre codec doc_key v.bucket (chunk_indices id v.db) (map texts ns))
              indices
              (parts_stored codec texts doc_key v.bucket (chunk_indices id v.db) last.parts))) in
      let (t, t', m, same) =
        assembled config codec tasks tools last.job whole pages fetched last.fine parts paginated in
      let final = record fetched {
        db =
            stored config codec tasks tools last.job whole pages fetched last.fine parts paginated t
              t';
        bucket =
            put_document codec last.job.doc_key pages (length (markdown_of whole)) config.page_size
              v.bucket;
        calls = m;
      } in
      let out = rw same at (
        assemble-stores config codec tasks tools last.job whole pages fetched last.fine parts
          paginated last.job i page (ap (λ n. get_job n v.db) last.same_id ∙ last.has_job)
          on_page) in
      let has_job : get_job id final.db ≡ some out.4 =
        ap (λ n. get_job n final.db) (sym last.same_id) ∙ out.5 in
      let (n, done) = go final out.4 same last.fine has_job (ap (λ s. is_terminal s) out.6) in
      rw done (
        refl,
        subst
            (λ k.
              get_manifest codec k final.bucket
              ≡ found (manifest_of codec k pages (length (markdown_of whole)) config.page_size))
            last.same_key out.1,
        subst (λ k. get_page codec k (i + 1) final.bucket ≡ found page) last.same_key out.2,
        out.4,
        has_job,
        out.6,
      )

  -- Deliveries, in any order and with any repetitions, of the tasks of a job that are still to be handled, with calls that pass and
  -- ranges that convert: all return, every page of what `paginate` makes of the chunks' texts, joined in the order of the
  -- chunks, is read back, the manifest says how many there are, and the job is done.
  pub handle_all-delivers :
      (t : ChunkTask) (ts ds : List ChunkTask) (w : World) (pages : List Text) (i : ℕ) (page : Text)
      → Underway config codec tools content texts id doc_key file_hash (t ∷ ts) w
      → AreAmong ds (t ∷ ts)
      → AreAmong (t ∷ ts) ds
      → paginate (markdown_of (map texts (chunk_indices id w.db))) config.page_size ≡ some pages
      → get_elem? pages i ≡ some page
      → let after = handle_all config codec tasks tools ds w in
        (after.0 ≡ returned tt)
        × (get_manifest codec doc_key after.1.bucket
            ≡ found (
                manifest_of codec doc_key pages
                  (length (markdown_of (map texts (chunk_indices id w.db))))
                  config.page_size))
        × (get_page codec doc_key (i + 1) after.1.bucket ≡ found page)
        × (j : Job) × (get_job id after.1.db ≡ some j)
        × (j.status ≡ JobStatus.done)
  handle_all-delivers t ts ds w pages i page u only all paginated on_page =
      let delivers : All (Delivers config codec tasks tools content texts id doc_key file_hash)
          (t ∷ ts) =
        All-zip (t ∷ ts) (λ x o c. (o.0, o.1, o.2, c)) u.own u.converts in
      let now =
        pending-Underway config codec tools content texts id doc_key file_hash (t ∷ ts) ds w u only
          all in
      elim (List-cases (pending [] ds)) [
        | inl nothing ↦ absurd (omega (arith, u.left, now.left, ap (λ xs. length xs) nothing))
        | inr (p, ps, some_pending) ↦
            handle_all-pending ds p ps w pages i page
              (All-map ds
                (λ d here.
                  Occurs-all (Delivers config codec tasks tools content texts id doc_key file_hash)
                    d (t ∷ ts) here delivers)
                only)
              some_pending now paginated on_page
      ]
