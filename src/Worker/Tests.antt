-- ===== src/Worker/Tests.antt =====
-- A worker with one handler that always fails. A job is coded by its two counters alone, after an
-- example job.
use goscratch.Base.{
  str_eq_instance, ℕ, ◌≤◌, ◌-◌, ◌≡◌, refl, ap, subst, some, List, [], ◌∷◌, ◌++◌, arith, length,
  take, drop, Str, lit,
}
use goscratch.Base.Int.{pos}
use goscratch.Base.Dict
use goscratch.Base.Dict.{Dict}
use goscratch.Apperr.{plain, Result, ok, err}
use goscratch.Worker.{
  Job, Worker, Handler, new_worker, register_handler, retries, Publisher, new_publisher,
}
use goscratch.Worker.Retries.{RoundTrips, KeepsCounters, squares_from, retries_end}

abbrev job_of : ℕ → ℕ → ℕ → Job
job_of a m t = record {
  id = lit "1";
  job_type = lit "mail";
  payload = [];
  attempts = a;
  max_retry = m;
  created_at = t;
}

-- the text of a job of any id, type and payload, with the lengths of these before each
abbrev text_of : Job → Str
text_of job =
    job.attempts ∷ job.max_retry ∷ job.created_at ∷ length job.id ∷ length job.job_type ∷ job.id
    ++ (job.job_type ++ job.payload)

abbrev encode : Job → Result Str
encode job = ok (text_of job)

abbrev decode : Str → Result Job
decode (a ∷ m ∷ t ∷ n ∷ k ∷ rest) = ok (record {
  id = take n rest;
  job_type = take k (drop n rest);
  payload = drop k (drop n rest);
  attempts = a;
  max_retry = m;
  created_at = t;
})
decode _ = err (plain (lit "unexpected end of JSON input"))

take-append : (xs ys : Str) → take (length xs) (xs ++ ys) ≡ xs
take-append [] ys = refl
take-append (x ∷ xs) ys = ap (λ zs. x ∷ zs) (take-append xs ys)

drop-append : (xs ys : Str) → drop (length xs) (xs ++ ys) ≡ ys
drop-append [] ys = refl
drop-append (x ∷ xs) ys = drop-append xs ys

abbrev with_texts : Job → Str → Str → Str → Result Job
with_texts job i t p = ok (record job { id = i; job_type = t; payload = p })

cut :
    (job : Job) {i r : Str}
    → i ≡ job.id
    → r ≡ job.job_type ++ job.payload
    → with_texts job i (take (length job.job_type) r) (drop (length job.job_type) r) ≡ ok job
cut job head rest = cc (
  head,
  take-append job.job_type job.payload,
  drop-append job.job_type job.payload,
  ap (take (length job.job_type)) rest,
  ap (drop (length job.job_type)) rest,
)

round_trips : RoundTrips Unit decode encode
round_trips job msg h =
    let text : text_of job ≡ msg = ground arith in
    subst (λ m. decode m ≡ ok job) text
      (cut job (take-append job.id (job.job_type ++ job.payload))
        (drop-append job.id (job.job_type ++ job.payload)))

abbrev fails : Handler Unit
fails job s = ((some (plain (lit "no connection")), job), s)

abbrev worker : Worker Unit
worker = register_handler Unit (lit "mail") fails (new_worker Unit (lit "") (lit "") (pos 0))

keeps : KeepsCounters Unit decode encode worker
unfolding register_handler new_worker Dict.put Dict.get
keeps t h job s found = ground arith

retries_end_example :
    (delays : List ℕ) × (s' : Unit) × (retries Unit decode encode 4 worker
        (0 ∷ 3 ∷ 0 ∷ 1 ∷ 4 ∷ lit "1mail")
        tt
      ≡ some (delays, s'))
    × (length delays ≤ 3 - 1)
    × (delays ≡ squares_from 1 (length delays))
unfolding lit
retries_end_example =
    retries_end Unit decode encode round_trips worker keeps (0 ∷ 3 ∷ 0 ∷ 1 ∷ 4 ∷ lit "1mail") tt
      (job_of 0 3 0) refl (omega arith) (omega arith)

abbrev publisher : Publisher
publisher = new_publisher (lit "") (lit "")

abbrev msg_of : Str
msg_of = 0 ∷ 3 ∷ 0 ∷ 1 ∷ 4 ∷ lit "1mail"
