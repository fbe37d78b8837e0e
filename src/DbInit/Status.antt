-- ===== src/DbInit/Status.antt =====
-- What a look at the initialization job gives, by what the server answers.
use odoo_operator.Base.{
  ℕ, String, ◌≡◌, ◌↔◌, ◌≤◌, ◌<◌, refl, ap, true, Option, none, some, get_or, [], ◌∷◌, arith,
}
use odoo_operator.Value.{Value, num, new}
use odoo_operator.Prog.{Exn, api_exception, read, ret, ok, err, request, ◌>>=◌}
use odoo_operator.Dynamic.{get_attr, get_in}
use odoo_operator.Server.{Server}
use odoo_operator.Server.Run.{run}
use odoo_operator.Server.Rules.{catch_ok, catch_err}
use odoo_operator.DbInit.{
  job_key, count, count_of, read_status, status_of, missing_status, check_db_init_job_status,
}

-- The object of a job whose status has these counts, of which either may be missing.
pub record IsJob (v : Value) (succeeded failed : Option ℕ) : Type 0 where
  pub status : Value
  pub status_at : get_attr v "status" ≡ ret status
  pub succeeded_at : count_of status "succeeded" ≡ ret succeeded
  pub failed_at : count_of status "failed" ≡ ret failed

-- A job's object with both counts.
abbrev pub job_with : ℕ → ℕ → Value
job_with succeeded failed = new "V1Job" (
    ("status", new "V1JobStatus" (("succeeded", num succeeded) ∷ ("failed", num failed) ∷ [])) ∷ [])

pub job_with-IsJob :
    (succeeded failed : ℕ) → IsJob (job_with succeeded failed) (some succeeded) (some failed)
unfolding get_attr get_in count_of count ◌>>=◌
job_with-IsJob succeeded failed = record {
  status = new "V1JobStatus" (("succeeded", num succeeded) ∷ ("failed", num failed) ∷ []);
  status_at = refl;
  succeeded_at = refl;
  failed_at = refl;
}

module _ (S : Server) (namespace name : String) (s : S.State) where
  read_status-ok :
      {v : Value} (succeeded failed : Option ℕ)
      → (S.respond (read (job_key namespace name)) s).0 ≡ ok v
      → IsJob v succeeded failed
      → (run S (read_status namespace name) s).result ≡ ok (status_of succeeded failed)
  unfolding read_status request ◌>>=◌ run
  read_status-ok succeeded failed e j = rw (run, e, j.status_at, j.succeeded_at, j.failed_at) refl

  read_status-err :
      {x : Exn}
      → (S.respond (read (job_key namespace name)) s).0 ≡ err x
      → (run S (read_status namespace name) s).result ≡ err x
  unfolding read_status request ◌>>=◌ run
  read_status-err e = rw (run, e) refl

  pub check_db_init_job_status-found :
      {v : Value} (succeeded failed : Option ℕ)
      → (S.respond (read (job_key namespace name)) s).0 ≡ ok v
      → IsJob v succeeded failed
      → (run S (check_db_init_job_status namespace name) s).result ≡ ok (status_of succeeded failed)
  unfolding check_db_init_job_status
  check_db_init_job_status-found succeeded failed e j =
      ap (λ o. o.result)
        (catch_ok S (read_status namespace name) _ s (read_status-ok succeeded failed e j))

  pub check_db_init_job_status-missing :
      (text : String)
      → (S.respond (read (job_key namespace name)) s).0 ≡ err (api_exception 404 text)
      → (run S (check_db_init_job_status namespace name) s).result ≡ ok missing_status
  unfolding check_db_init_job_status run
  check_db_init_job_status-missing text e =
      ap (λ o. o.result) (catch_err S (read_status namespace name) _ s (read_status-err e))

-- A job counts as completed exactly where at least one of its pods has succeeded, and as failed
-- exactly where none has and at least three have failed; a count that is missing is none.
pub status_of-thresholds :
    (succeeded failed : Option ℕ)
    → (((status_of succeeded failed).completed ≡ true) ↔ (1 ≤ get_or succeeded 0))
      × (((status_of succeeded failed).failed ≡ true)
          ↔ ((get_or succeeded 0 < 1) × (3 ≤ get_or failed 0)))
unfolding status_of
status_of-thresholds none none = ground arith
status_of-thresholds none (some m) = ground arith
status_of-thresholds (some n) none = ground arith
status_of-thresholds (some n) (some m) = ground arith
