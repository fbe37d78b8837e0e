-- ===== src/ModuleSync/Exec/Rules.antt =====
-- The commands on a pod write no object and no status, and those on the addons raise nothing.
use odoo_operator.Base.{String, ◌≡◌, ap, inl, inr, Bool, false, List, [], Option, none}
use odoo_operator.Value.{Value, Items, nil, cons, arr, null}
use odoo_operator.Prog.{Key, Prog, ret, ok, catch}
use odoo_operator.Prog.Reader.{
  Reader, Reader-bind, Reader-catch, Reader-ret, Reader-raise, Reader-request, Reader-as_text,
  Reader-Only,
}
use odoo_operator.Prog.Only.{Only-imp}
use odoo_operator.Server.{Server, IsLawful}
use odoo_operator.Server.Run.{run}
use odoo_operator.Server.Rules.{Result-cases, catch_ok, catch_err}
use odoo_operator.Server.Lasting.{IsRead-Misses, Only-frame}
use odoo_operator.Dynamic.Rules.{Reader-get_value}
use odoo_operator.Spec.{Addon}
use odoo_operator.ModuleSync.Exec.{
  Errors, added, discarded, unread, errors_of, as_items, text_or_none, collect, run_in_pod,
  check_installed_modules, install_modules_on_pod, get_addon_git_sha, update_addon_on_pod,
}

pub Reader-as_items : (v : Value) → Reader (as_items v)
unfolding as_items
Reader-as_items (arr vs) = Reader-ret vs
Reader-as_items _ = Reader-raise _

Reader-text_or_none : (v : Value) → Reader (text_or_none v)
unfolding text_or_none
Reader-text_or_none null = Reader-ret ""
Reader-text_or_none v = Reader-as_text v

Reader-errors_of : (errors : Errors) (round : Value) → Reader (errors_of errors round)
unfolding errors_of
Reader-errors_of added round = Reader-bind (Reader-get_value round _ _) λ p. Reader-text_or_none p
Reader-errors_of discarded round =
    Reader-bind (Reader-get_value round _ _)
      λ p. Reader-bind (Reader-text_or_none p) λ problems. Reader-ret ""
Reader-errors_of unread round = Reader-ret ""

Reader-collect : (errors : Errors) (rounds : Items) → Reader (collect errors rounds)
unfolding collect
Reader-collect errors nil = Reader-ret ""
Reader-collect errors (cons round rounds) = Reader-bind (Reader-get_value round _ _) λ o.
    Reader-bind (Reader-text_or_none o) λ out.
      Reader-bind (Reader-errors_of errors round)
        λ problems. Reader-bind (Reader-collect errors rounds) λ rest. Reader-ret _

Reader-run_in_pod :
    (errors : Errors) (namespace pod_name : String) (command : List String)
    → Reader (run_in_pod errors namespace pod_name command)
unfolding run_in_pod
Reader-run_in_pod errors namespace pod_name command =
    Reader-bind (Reader-request _ tt)
      λ resp. Reader-bind (Reader-as_items resp) λ rounds. Reader-collect errors rounds

pub Reader-check_installed_modules :
    (namespace pod_name db_host db_password : String)
    → Reader (check_installed_modules namespace pod_name db_host db_password)
unfolding check_installed_modules
Reader-check_installed_modules namespace pod_name db_host db_password =
    Reader-catch (Reader-bind (Reader-run_in_pod discarded _ _ _) λ output. Reader-ret _)
      λ e. Reader-ret []

pub Reader-install_modules_on_pod :
    (namespace pod_name : String) (modules : List String) (db_host db_password : String)
    → Reader (install_modules_on_pod namespace pod_name modules db_host db_password)
unfolding install_modules_on_pod
Reader-install_modules_on_pod namespace pod_name modules db_host db_password =
    Reader-catch (Reader-bind (Reader-run_in_pod added _ _ _) λ output. Reader-ret _)
      λ e. Reader-ret false

Reader-get_addon_git_sha :
    (namespace pod_name addon_name : String)
    → Reader (get_addon_git_sha namespace pod_name addon_name)
unfolding get_addon_git_sha
Reader-get_addon_git_sha namespace pod_name addon_name =
    Reader-catch (Reader-bind (Reader-run_in_pod unread _ _ _) λ output. Reader-ret _)
      λ e. Reader-ret none

Reader-update_addon_on_pod :
    (namespace pod_name : String) (addon : Addon)
    → Reader (update_addon_on_pod namespace pod_name addon)
unfolding update_addon_on_pod
Reader-update_addon_on_pod namespace pod_name addon =
    Reader-catch (Reader-bind (Reader-run_in_pod unread _ _ _) λ output. Reader-ret _)
      λ e. Reader-ret false

-- A program of which every failure is caught returns.
caught_returns :
    (S : Server) {A : Type 0} (m : Prog A) (a : A) (s : S.State)
    → (b : A) × ((run S (catch m λ e. ret a) s).result ≡ ok b)
unfolding run
caught_returns S m a s = elim (Result-cases (run S m s).result) [
  | inl (b, e) ↦ (b, ap (λ o. o.result) (catch_ok S m (λ e. ret a) s e))
  | inr (x, e) ↦ (a, ap (λ o. o.result) (catch_err S m (λ e. ret a) s e))
]

pub check_installed_modules-returns :
    (S : Server) (namespace pod_name db_host db_password : String) (s : S.State)
    → (installed : List String) × ((run S
          (check_installed_modules namespace pod_name db_host db_password)
          s).result
        ≡ ok installed)
unfolding check_installed_modules
check_installed_modules-returns S namespace pod_name db_host db_password s = caught_returns S _ [] s

pub install_modules_on_pod-returns :
    (S : Server) (namespace pod_name : String) (modules : List String)
    (db_host db_password : String) (s : S.State)
    → (success : Bool) × ((run S
          (install_modules_on_pod namespace pod_name modules db_host db_password)
          s).result
        ≡ ok success)
unfolding install_modules_on_pod
install_modules_on_pod-returns S namespace pod_name modules db_host db_password s =
    caught_returns S _ false s

-- A program that only reads leaves every object.
unchanged :
    (S : Server) (L : IsLawful S) (k : Key) {A : Type 0} {m : Prog A}
    → Reader m
    → (s : S.State) → S.find (run S m s).state k ≡ S.find s k
unchanged S L k {m = m} c s = Only-frame S L k m s (Only-imp (IsRead-Misses k) (Reader-Only c))

-- The commands on an addon, the look for its commit and its update, return whatever the server
-- answers, and every object of a lawful server is the same after them.
pub git_commands-harmless :
    (S : Server) (namespace pod_name : String) (addon : Addon) (s : S.State) (k : Key)
    → IsLawful S
    → ((sha : Option String) × ((run S (get_addon_git_sha namespace pod_name addon.name) s).result
          ≡ ok sha))
      × (S.find (run S (get_addon_git_sha namespace pod_name addon.name) s).state k ≡ S.find s k)
      × ((updated : Bool) × ((run S (update_addon_on_pod namespace pod_name addon) s).result
            ≡ ok updated))
      × (S.find (run S (update_addon_on_pod namespace pod_name addon) s).state k ≡ S.find s k)
unfolding get_addon_git_sha update_addon_on_pod
git_commands-harmless S namespace pod_name addon s k L = (
  caught_returns S _ none s,
  unchanged S L k (Reader-get_addon_git_sha namespace pod_name addon.name) s,
  caught_returns S _ false s,
  unchanged S L k (Reader-update_addon_on_pod namespace pod_name addon) s,
)
