-- ===== src/Job/Ids.antt =====
-- The id that a client is given of a job, and the id of the job.
use goscratch.Base.{
  str_eq_instance, ℕ, ◌≡◌, ap, arith, inl, inr, Option, none, some, Option-cases, Str, lit,
}
use goscratch.Base.Dict
use goscratch.Apperr.{GoError, Result, ok, Result-cases}
use goscratch.Worker.{
  Job, Publisher, publish_with_retry, publish_made, publish_job, new_job, new_job_with_retry,
}
use goscratch.Job.{JobResponse, dispatch, valid_job_types}

module _ (encode : Job → Result Str) {Q : Type 0}
    (send : Str → Str → Str → Q → Option GoError × Q) where
  -- the job that is published
  abbrev pub published : Str → Str → Str → ℕ → ℕ → Job
  published job_type data' id now max_retry = record {
    id = id;
    job_type = job_type;
    payload = data';
    attempts = 0;
    max_retry = max_retry;
    created_at = now;
  }

  sent_reply :
      (p : Publisher) (job_type data' : Str) (max_retry : ℕ) (id : Str) (now : ℕ)
      (reply_id reply_time : Str) (q : Q) (description msg : Str)
      → Dict.get job_type valid_job_types ≡ some description
      → encode (published job_type data' id now max_retry) ≡ ok msg
      → (send p.exchange p.queue_name msg q).0 ≡ none
      → dispatch encode send p job_type (ok data') max_retry id now reply_id reply_time q ≡ (
        ok (record {
          id = reply_id;
          job_type = job_type;
          status = lit "queued";
          created_at = reply_time;
        }),
        (send p.exchange p.queue_name msg q).1,
      )
  unfolding dispatch publish_with_retry publish_made publish_job new_job new_job_with_retry
  sent_reply p job_type data' max_retry id now reply_id reply_time q description msg known made
        sent =
      let out : publish_with_retry encode send p job_type (ok data') id now max_retry q
          ≡ (none, (send p.exchange p.queue_name msg q).1) =
        ground arith in
      let resp : JobResponse = record {
        id = reply_id;
        job_type = job_type;
        status = lit "queued";
        created_at = reply_time;
      } in
      rw (known, out, dispatch) (ap (λ (t : Option GoError × Q). (ok resp, t.1)) out)

  -- When a dispatch succeeds: the job type is one of the three, the job that was sent to the queue
  -- has the first id, and the id in the reply is the second one, which the job does not carry.
  pub dispatch-ids :
      (p : Publisher) (job_type data' : Str) (max_retry : ℕ) (id : Str) (now : ℕ)
      (reply_id reply_time : Str) (q q' : Q) (resp : JobResponse)
      → dispatch encode send p job_type (ok data') max_retry id now reply_id reply_time q
        ≡ (ok resp, q')
      → (description msg : Str) × (Dict.get job_type valid_job_types ≡ some description)
        × (encode (published job_type data' id now max_retry) ≡ ok msg)
        × (send p.exchange p.queue_name msg q ≡ (none, q'))
        × (resp.id ≡ reply_id)
  unfolding dispatch publish_with_retry publish_made publish_job new_job new_job_with_retry
  dispatch-ids p job_type data' max_retry id now reply_id reply_time q q' resp h =
      elim (Option-cases (Dict.get job_type valid_job_types)) [
        | inl unknown ↦ absurd (ground arith)
        | inr (description, known) ↦
            elim (Result-cases (encode (published job_type data' id now max_retry))) [
              | inr (e, bad) ↦ absurd (ground arith)
              | inl (msg, made) ↦ elim (Option-cases (send p.exchange p.queue_name msg q).0) [
                | inr (e, failed) ↦ absurd (ground arith)
                | inl sent ↦
                    let done =
                      sent_reply p job_type data' max_retry id now reply_id reply_time q description
                        msg known made sent in
                    (description, msg, known, made, ground (arith, done), ground (arith, done))
              ]
            ]
      ]
