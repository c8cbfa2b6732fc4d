-- ===== src/Job.antt =====
-- internal/module/job/usecase/job_usecase.go: jobs that a client asks for. The publisher is that of
-- Worker; `id` and `now` are what uuid.New and time.Now give the job that is published, `reply_id`
-- and `reply_time` what they give the reply (the time as RFC 3339).
pub mod Ids
use goscratch.Base.{str_eq_instance, ℕ, Option, none, some, List, [], ◌∷◌, ◌++◌, map, Str, lit}
use goscratch.Base.Dict
use goscratch.Base.Dict.{Dict}
use goscratch.Apperr.{GoError, app, error_text, Result, ok, err, bad_requestf, internalf}
use goscratch.Worker.{Job, Publisher, publish_with_retry}

pub record JobResponse : Type 0 where
  pub id : Str
  pub job_type : Str
  pub status : Str
  pub created_at : Str

-- validJobTypes
unfoldable pub valid_job_types : Dict Str Str
valid_job_types =
    (lit "email.send", lit "Send an email to a recipient")
    ∷ (lit "audit.cleanup", lit "Clean up old audit log entries")
    ∷ (lit "notification.send", lit "Send a notification to a user")
    ∷ []

module _ (encode : Job → Result Str) {Q : Type 0}
    (send : Str → Str → Str → Q → Option GoError × Q) where
  -- Dispatch; `payload` is what json.Marshal makes of the payload
  unfoldable pub dispatch :
      Publisher → Str → Result Str → ℕ → Str → ℕ → Str → Str → Q → Result JobResponse × Q
  unfolding Dict.get valid_job_types publish_with_retry
  dispatch p job_type payload max_retry id now reply_id reply_time q =
      elim (Dict.get job_type valid_job_types) [
        | none ↦ (err (app (bad_requestf (lit "invalid job type: " ++ job_type))), q)
        | some _ ↦
            let (failure, q') =
              publish_with_retry encode send p job_type payload id now max_retry q in
            elim failure [
              | some e ↦
                  (err (app (internalf (lit "failed to dispatch job: " ++ error_text e))), q')
              | none ↦ (
                ok (record {
                  id = reply_id;
                  job_type = job_type;
                  status = lit "queued";
                  created_at = reply_time;
                }),
                q',
              )
            ]
      ]

-- ListJobTypes; Go's map gives them in any order
unfoldable pub list_job_types : List (Str × Str)
unfolding valid_job_types
list_job_types = valid_job_types
