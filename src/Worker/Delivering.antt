-- ===== src/Worker/Delivering.antt =====
-- worker.py: the deliveries of the tasks of a job, up to its assembly, with calls that pass.
use mathlib.Core.Path.{subst}
use markitdown_server.Prelude.{
  All-map, Bool-cases, true, ◌++◌, codes, ℕ, suc, ◌+◌, ◌≡◌, ◌⊎◌, refl, ap, sym, ◌∙◌, inl, inr, none,
  some, List, [], ◌∷◌, Text, All, length, codes, false, arith,
}
use markitdown_server.Prelude.Int.{pos, eq_ℤ}
use markitdown_server.Storage.{Bytes, Codec}
use markitdown_server.Taskqueue.{TaskCodec, ChunkTask}
use markitdown_server.Tables.{Job, is_terminal}
use markitdown_server.Jobstore.{fail_job, get_job, chunk_indices}
use markitdown_server.Action.{statement, ret, World, returned, on_raise, try_except, ret}
use markitdown_server.Worker.{Config, Tools, handle, finish, on_task, assemble}
use markitdown_server.Worker.Passing.{Passing, call-returned, bind-returned}
use markitdown_server.Worker.Assembly.{stored}
use markitdown_server.Worker.Pipeline.{handle_all, Underway, Stored}
use markitdown_server.Worker.Repeating.{handle-ended}
use markitdown_server.Worker.Pending.{has, pending, has-all, pending-again, pending-first}
use markitdown_server.Worker.Delivery.{Delivers, recorded_of, repeated_of}

pub List-cases : {A : Type 0} (xs : List A) → (xs ≡ []) ⊎ ((y : A) × (ys : List A) × (xs ≡ y ∷ ys))
List-cases [] = inl refl
List-cases (x ∷ xs) = inr (x, xs, refl)

module _ (config : Config) (codec : Codec) (tasks : TaskCodec) (tools : Tools) (content : Bytes)
    (texts : ℕ → Text) (id doc_key file_hash : Text) where
  absorbs :
      (t : ChunkTask) (w v : World)
      → handle config codec tasks tools t w ≡ (returned tt, v)
      → on_task config codec tasks tools t w ≡ (returned tt, v)
  unfolding on_task try_except
  absorbs t w v e = ap (λ r. on_raise (λ e. ret tt) r) e

  finish-assembles :
      (t : ChunkTask) (v w' : World)
      (u : Underway config codec tools content texts id doc_key file_hash [] v)
      → t.job_id ≡ id
      → assemble config codec tasks tools u.job (record v { calls = v.calls + 1 })
        ≡ (returned tt, w')
      → finish config codec tasks tools t (pos 0) v ≡ (returned tt, w')
  unfolding finish try_except
  finish-assembles t v w' u same e =
      ap
        (λ r.
          on_raise
            (λ e. statement (fail_job t.job_id (codes "assembly failed: " ++ e.message) none)) r)
        (bind-returned _ _ (
            call-returned _ v u.fine
            ∙ ap (λ o. (returned o, record v { calls = v.calls + 1 }))
                (ap (λ i. get_job i v.db) same ∙ u.has_job))
          ∙ e)

  -- Deliveries of tasks of a job that has ended.
  handle-each_ended :
      (ds : List ChunkTask) (w : World) (j : Job)
      → All (Delivers config codec tasks tools content texts id doc_key file_hash) ds
      → Passing w
      → get_job id w.db ≡ some j
      → is_terminal j.status ≡ true
      → (n : ℕ) × (handle_all config codec tasks tools ds w ≡ (returned tt, record w { calls = n }))
  handle-each_ended [] w j own fine has_job ended = (w.calls, refl)
  handle-each_ended (t ∷ ds) w j (o, own) fine has_job ended =
      let v = record w { calls = w.calls + 1 } in
      let (n, same) = handle-each_ended ds v j own fine has_job ended in
      (
        n,
        bind-returned _ _ (
              absorbs t w v (
                handle-ended config codec tasks tools content texts t w j fine
                  (ap (λ i. get_job i w.db) o.0 ∙ has_job) ended))
            ∙ same,
      )

  -- What the deliveries come to, when the job is assembled behind the last pending task.
  abbrev pub Assembles : List ChunkTask → World → Type 0
  Assembles ds w =
      (v : World) × (u : Underway config codec tools content texts id doc_key file_hash [] v)
      × (chunk_indices id v.db ≡ chunk_indices id w.db)
      × ((w' : World) (j : Job)
          → assemble config codec tasks tools u.job (record v { calls = v.calls + 1 })
            ≡ (returned tt, w')
          → Passing w'
          → get_job id w'.db ≡ some j
          → is_terminal j.status ≡ true
          → (n : ℕ) × (handle_all config codec tasks tools ds w
              ≡ (returned tt, record w' { calls = n })))

  -- A delivery that returns in front of such deliveries.
  then-Assembles :
      (t : ChunkTask) (ds : List ChunkTask) (w v : World)
      → handle config codec tasks tools t w ≡ (returned tt, v)
      → chunk_indices id v.db ≡ chunk_indices id w.db
      → Assembles ds v
      → Assembles (t ∷ ds) w
  then-Assembles t ds w v same indices (v', u', indices', go) = (
    v',
    u',
    indices' ∙ indices,
    λ w' j e fine has_job ended.
        let (n, rest) = go w' j e fine has_job ended in
        (n, bind-returned _ _ (absorbs t w v same) ∙ rest),
  )

  not_last :
      (t : ChunkTask) (ts : List ChunkTask) (v : World)
      → finish config codec tasks tools t (pos (suc (length ts))) v ≡ (returned tt, v)
  not_last t ts v =
      let more : eq_ℤ (pos (suc (length ts))) (pos 0) ≡ false = ground arith in
      unfold finish in rw more refl

  -- The deliveries of the last pending task and behind it.
  last-Assembles :
      (t : ChunkTask) (ds : List ChunkTask) (w : World)
      → All (Delivers config codec tasks tools content texts id doc_key file_hash) (t ∷ ds)
      → Underway config codec tools content texts id doc_key file_hash (t ∷ []) w
      → Assembles (t ∷ ds) w
  last-Assembles t ds w (o, own) u =
      let (v, same, after, indices, kept) =
        recorded_of config codec tasks tools content texts id doc_key file_hash t [] w o u in
      (
        v,
        after,
        indices,
        λ w' j e fine has_job ended.
            let (n, rest) = handle-each_ended ds w' j own fine has_job ended in
            (
              n,
              bind-returned _ _ (absorbs t w w' (same ∙ finish-assembles t v w' after o.0 e))
                  ∙ rest,
            ),
      )

  pub deliveries-Assembles :
      (ds : List ChunkTask) (seen : List ℕ) (w : World) (p : ChunkTask) (ps : List ChunkTask)
      → All (Delivers config codec tasks tools content texts id doc_key file_hash) ds
      → pending seen ds ≡ p ∷ ps
      → Underway config codec tools content texts id doc_key file_hash (pending seen ds) w
      → All (Stored codec texts id doc_key w) seen
      → Assembles ds w
  deliveries-Assembles [] seen w p ps own e u stored = absurd (nothing (unfold pending in e))
    where
      nothing : ◌≡◌ {A = List ChunkTask} [] (p ∷ ps) → ⊥
      nothing h = cc
  deliveries-Assembles (t ∷ ds) seen w p ps (o, own) e u stored =
      elim (Bool-cases (has seen t.chunk_index)) [
        | inl again ↦
            let (v, same, after, indices, kept) =
              repeated_of config codec tasks tools content texts id doc_key file_hash t
                (pending seen ds) w o
                (has-all (Stored codec texts id doc_key w) seen t.chunk_index stored again)
                (subst (λ ts. Underway config codec tools content texts id doc_key file_hash ts w)
                  (pending-again seen t ds again) u) in
            then-Assembles t ds w v same indices (
              deliveries-Assembles ds seen v p ps own (sym (pending-again seen t ds again) ∙ e)
                after (All-map seen kept stored))
        | inr first ↦
            let rest = pending (t.chunk_index ∷ seen) ds in
            let now =
              subst (λ ts. Underway config codec tools content texts id doc_key file_hash ts w)
                (pending-first seen t ds first) u in
            elim (List-cases rest) [
              | inl last ↦
                  last-Assembles t ds w (o, own)
                    (subst
                      (λ ts.
                        Underway config codec tools content texts id doc_key file_hash (t ∷ ts) w)
                      last now)
              | inr (q, qs, more) ↦
                  let (v, same, after, indices, kept) =
                    recorded_of config codec tasks tools content texts id doc_key file_hash t rest w
                      o now in
                  then-Assembles t ds w v
                    (same
                      ∙ ap (λ ts. finish config codec tasks tools t (pos (length ts)) v) more
                      ∙ not_last t qs v)
                    indices
                    (deliveries-Assembles ds (t.chunk_index ∷ seen) v q qs own more after
                      (kept t.chunk_index (inl refl), All-map seen (λ i h. kept i (inr h)) stored))
            ]
      ]
