-- ===== src/DbInit/Rules.antt =====
-- What the creation of the initialization job requests, and the objects that it leaves stored.
use odoo_operator.Base.{String, refl, List, [], ◌∷◌, ◌<>◌, ◌++◌, ◌≡◌, if◌then◌else◌, nonempty}
use odoo_operator.Value.{Value}
use odoo_operator.Base.{All}
use odoo_operator.Prog.{ok, Key}
use odoo_operator.Prog.Only.{Only, Only-bind, Only-ret, Only-when, Yields-ret}
use odoo_operator.Prog.Reader.{
  Reader, Reader-bind, Reader-catch, Reader-ret, Reader-raise, Reader-if, Reader-request,
}
use odoo_operator.Dynamic.Rules.{Reader-get_attr}
use odoo_operator.Value.{num, null}
use odoo_operator.DbInit.{count, count_of, read_status, missing_status, check_db_init_job_status}
use odoo_operator.Server.Accepted.{Accepts}
use odoo_operator.Server.{Server, IsLawful, IsHealthy, IsStored}
use odoo_operator.Server.Run.{run}
use odoo_operator.Server.Rules.{Succeeds, Succeeds-bind, Succeeds-when, Succeeds-ret}
use odoo_operator.Kube.Requests.{
  Only-delete_if_present, Only-create_or_skip, Only-create_if_missing,
}
use odoo_operator.Kube.Effects.{
  Builds-bind, Builds-when, Builds-Only, Builds, Clears, Builds-create_or_skip,
  Builds-create_if_missing, Clears-delete_if_present,
}
use odoo_operator.Kube.Returns.{
  Succeeds-create_or_skip, Succeeds-create_if_missing, Succeeds-delete_if_present,
}
use odoo_operator.Python.{Python}
use odoo_operator.Dynamic.{get_in}
use odoo_operator.Scope.{Provisions, Removes, metadata_of}
use odoo_operator.Password.Rules.{Only-generate_password, Succeeds-generate_password}
use odoo_operator.DbInit.Pod.{secret_body, addons_body, job_body}
use odoo_operator.DbInit.{
  job_key, addons_key, secret_key, JobArgs, create_db_init_job, delete_db_init_job,
}

-- The objects of an initialization with these arguments.
abbrev pub job_keys : JobArgs → List Key
job_keys a =
    secret_key a
    ∷ ((if nonempty a.addons then addons_key a.namespace a.name ∷ [] else [])
        ++ (job_key a.namespace a.name ∷ []))

module _ (py : Python) where
  pub Only-create_db_init_job :
      (a : JobArgs)
      → a.admin_secret_name ≡ a.name <> "-odoo-admin"
      → Only (Provisions a.namespace a.name) (create_db_init_job py a)
  unfolding create_db_init_job secret_body addons_body job_body metadata_of get_in
  Only-create_db_init_job a e = Only-bind (Only-generate_password (λ al. tt) 32) λ password.
      Only-bind
        (Only-create_if_missing _ tt (Only-ret _)
          (Yields-ret _ ((refl, ("odoo-admin", e)), (refl, refl))))
        λ _.
          Only-bind
            (Only-when _ (Only-create_or_skip _ _ ((refl, ("odoo-addons", refl)), (refl, refl))))
            λ _.
              Only-bind (Only-create_or_skip _ _ ((refl, ("db-init", refl)), (refl, refl)))
                λ _. Only-ret _

  module _ (S : Server) (L : IsLawful S) where
    pub Builds-create_db_init_job :
        (a : JobArgs) → Builds S L (job_keys a) (create_db_init_job py a)
    unfolding create_db_init_job
    Builds-create_db_init_job a =
        Builds-bind S L {ks = []} (Builds-Only S L (Only-generate_password (λ al. tt) 32))
          λ password. Builds-bind S L (Builds-create_if_missing S L _ (Only-ret _)) λ _.
            Builds-bind S L (Builds-when S L _ (Builds-create_or_skip S L _ _))
              λ _. Builds-bind S L (Builds-create_or_skip S L _ _) λ _. Builds-Only S L (Only-ret _)

    pub Succeeds-create_db_init_job :
        IsHealthy S → (a : JobArgs) → Succeeds S (create_db_init_job py a)
    unfolding create_db_init_job
    Succeeds-create_db_init_job H a = Succeeds-bind (Succeeds-generate_password S H 32) λ password.
        Succeeds-bind (Succeeds-create_if_missing S L H _ (Only-ret _) (Succeeds-ret _)) λ _.
          Succeeds-bind (Succeeds-when _ (Succeeds-create_or_skip S L H _ _))
            λ _. Succeeds-bind (Succeeds-create_or_skip S L H _ _) λ _. Succeeds-ret _

module _ (namespace name : String) (S : Server) (L : IsLawful S) where
  pub Clears-delete_db_init_job :
      Clears S L (job_key namespace name ∷ []) (delete_db_init_job namespace name)
  unfolding delete_db_init_job
  Clears-delete_db_init_job = Clears-delete_if_present S L _

  pub Succeeds-delete_db_init_job : IsHealthy S → Succeeds S (delete_db_init_job namespace name)
  unfolding delete_db_init_job
  Succeeds-delete_db_init_job H = Succeeds-delete_if_present S L H _

pub Only-delete_db_init_job :
    (namespace name : String) → Only (Removes namespace name) (delete_db_init_job namespace name)
unfolding delete_db_init_job
Only-delete_db_init_job namespace name = Only-delete_if_present _ ((refl, ("db-init", refl)), refl)

Reader-count : (v : Value) → Reader (count v)
unfolding count
Reader-count (num n) = Reader-ret _
Reader-count null = Reader-ret _
Reader-count _ = Reader-raise _

Reader-count_of : (status : Value) (name : String) → Reader (count_of status name)
unfolding count_of
Reader-count_of status name = Reader-bind (Reader-get_attr status name) Reader-count

Reader-read_status : (namespace name : String) → Reader (read_status namespace name)
unfolding read_status
Reader-read_status namespace name = Reader-bind (Reader-request _ tt) λ j.
    Reader-bind (Reader-get_attr j _) λ status.
      Reader-bind (Reader-count_of status _)
        λ succeeded. Reader-bind (Reader-count_of status _) λ failed. Reader-ret _

pub Reader-check_db_init_job_status :
    (namespace name : String) → Reader (check_db_init_job_status namespace name)
unfolding check_db_init_job_status
Reader-check_db_init_job_status namespace name =
    Reader-catch (Reader-read_status namespace name)
      λ e. Reader-if _ (Reader-ret missing_status) (Reader-raise e)

-- On a lawful server with no fault of its own the creation of the initialization job, none of
-- whose creations and patches the server answers with 422, returns a text from every state of the
-- cluster, and then the job, its secret and, with addons, their claim are stored.
pub create_db_init_job-total :
    (S : Server) (py : Python) (a : JobArgs) (s : S.State)
    → IsLawful S
    → IsHealthy S
    → Accepts S (create_db_init_job py a) s
    → (job_name : String) × ((run S (create_db_init_job py a) s).result ≡ ok job_name)
      × All (λ k. IsStored (S.find (run S (create_db_init_job py a) s).state k)) (job_keys a)
create_db_init_job-total S py a s L H w =
    let (n, e) = (Succeeds-create_db_init_job py S L H a).at s w in
    (n, e, (Builds-create_db_init_job py S L a).done s e)
