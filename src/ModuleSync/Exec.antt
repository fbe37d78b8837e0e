-- ===== src/ModuleSync/Exec.antt =====
-- The commands that src/handlers/module_sync.py runs on a pod, and what it makes of their output.
pub mod Rules
use Prim.Native.Char.{Char}
use text.Mathlib.Text.{find?}
use odoo_operator.Base.{
  String, ◌<>◌, Bool, true, false, ◌||◌, Option, none, some, List, [], ◌∷◌, join, get_or, str_eq,
  chars, text_of, strip, split_lines, if◌then◌else◌,
}
use odoo_operator.Value.{Value, null, arr, Items, nil, cons}
use odoo_operator.Prog.{exec, other_error, Prog, ret, raise, ◌>>=◌, ◌>>◌, catch, request, as_text}
use odoo_operator.Dynamic.{get_value}
use odoo_operator.Spec.{Addon}

-- A list that a response holds.
unfoldable pub as_items : Value → Prog Items
as_items (arr vs) = ret vs
as_items _ = raise (other_error "TypeError")

-- What `read_stdout` or `read_stderr` gives; nothing where the channel has no data.
text_or_none : Value → Prog String
text_or_none null = ret ""
text_or_none v = as_text v

-- What a loop does with the error channel: it reads it into the output, it reads and discards it, or
-- it never reads it.
pub data Errors : Type 0 where
  added discarded unread : Errors

-- What a round adds from the error channel.
errors_of : Errors → Value → Prog String
unfolding text_or_none
errors_of added round = do problems ← get_value round "stderr" null; text_or_none problems
errors_of discarded round = do
  problems ← get_value round "stderr" null
  text_or_none problems
  ret ""
errors_of unread round = ret ""

-- The rounds of `while resp.is_open()`: each has the data of the two channels.
collect : Errors → Items → Prog String
unfolding text_or_none errors_of
collect errors nil = ret ""
collect errors (cons round rounds) = do
  out ← text_or_none (← get_value round "stdout" null)
  problems ← errors_of errors round
  rest ← collect errors rounds
  ret (out <> (problems <> rest))

-- `stream(core_api.connect_get_namespaced_pod_exec, …)` and its loop.
unfoldable pub run_in_pod : Errors → String → String → List String → Prog String
unfolding collect as_items
run_in_pod errors namespace pod_name command = do
  resp ← request (exec namespace pod_name command)
  rounds ← as_items resp
  collect errors rounds

check_command : String → String → List String
check_command db_host db_password =
    "python3"
    ∷ "-c"
    ∷ join "\n" (
        ""
        ∷ "import psycopg2"
        ∷ ("conn = psycopg2.connect(host='"
            <> (db_host
                <> ("', port=5432, user='odoo', password='"
                    <> (db_password <> "', dbname='odoo')"))))
        ∷ "cur = conn.cursor()"
        ∷ "cur.execute(\"SELECT name FROM ir_module_module WHERE state = 'installed'\")"
        ∷ "for row in cur.fetchall():"
        ∷ "    print(row[0])"
        ∷ "conn.close()"
        ∷ ""
        ∷ [])
    ∷ []

-- `[m.strip() for m in lines if m.strip()]`
stripped : List (List Char) → List String
stripped [] = []
stripped (l ∷ ls) =
    let rest = stripped ls in elim (strip l) [ [] ↦ rest | c ∷ cs ↦ text_of (c ∷ cs) ∷ rest ]

-- The names that the output lists, a line each.
pub parse_modules : String → List String
unfolding stripped
parse_modules output = stripped (split_lines (strip (chars output)))

-- Any failure counts as no module.
unfoldable pub check_installed_modules : String → String → String → String → Prog (List String)
unfolding run_in_pod check_command parse_modules
check_installed_modules namespace pod_name db_host db_password =
    catch
      (do
        output ← run_in_pod discarded namespace pod_name (check_command db_host db_password)
        ret (parse_modules output))
      λ e. ret []

install_command : List String → String → String → List String
install_command modules db_host db_password =
    let modules_str = join "," modules in
    "/bin/bash"
    ∷ "-c"
    ∷ join "\n" (
        ""
        ∷ ("echo \"Installing modules: " <> (modules_str <> "\""))
        ∷ ("odoo --database=odoo --db_host="
            <> (db_host
                <> (" --db_port=5432 --db_user=odoo --db_password='"
                    <> (db_password
                        <> ("' --stop-after-init --update="
                            <> (modules_str <> " --no-http 2>&1"))))))
        ∷ "echo \"Module installation complete\""
        ∷ ""
        ∷ [])
    ∷ []

-- `part in text`
abbrev occurs : String → String → Bool
occurs part s = elim (find? s part) [ none ↦ false | some i ↦ true ]

-- Any failure counts as not installed.
unfoldable pub install_modules_on_pod : String → String → List String → String → String → Prog Bool
unfolding run_in_pod install_command
install_modules_on_pod namespace pod_name modules db_host db_password =
    catch
      (do
        output ← run_in_pod added namespace pod_name (install_command modules db_host db_password)
        ret (occurs "Module installation complete" output || occurs "Modules loaded" output))
      λ e. ret false

sha_command : String → List String
sha_command addon_name =
    "/bin/bash"
    ∷ "-c"
    ∷ ("cd /mnt/addons/"
        <> (addon_name <> " && git rev-parse HEAD 2>/dev/null || echo 'NOT_FOUND'"))
    ∷ []

-- `None if sha == "NOT_FOUND" else sha`
abbrev pub sha_of : String → Option String
sha_of sha = if str_eq sha "NOT_FOUND" then none else some sha

-- The commit of an addon on a pod; any failure counts as none.
pub get_addon_git_sha : String → String → String → Prog (Option String)
unfolding run_in_pod sha_command
get_addon_git_sha namespace pod_name addon_name =
    catch
      (do
        output ← run_in_pod unread namespace pod_name (sha_command addon_name)
        ret (sha_of (text_of (strip (chars output)))))
      λ e. ret none

update_command : String → String → List String
update_command addon_name branch =
    "/bin/bash"
    ∷ "-c"
    ∷ join "\n" (
        ""
        ∷ ("cd /mnt/addons/" <> addon_name)
        ∷ "git fetch origin"
        ∷ ("git checkout " <> branch)
        ∷ ("git pull origin " <> branch)
        ∷ "echo \"Addon updated successfully\""
        ∷ ""
        ∷ [])
    ∷ []

-- Any failure counts as not updated.
pub update_addon_on_pod : String → String → Addon → Prog Bool
unfolding run_in_pod update_command
update_addon_on_pod namespace pod_name addon =
    catch
      (do
        output ←
            run_in_pod unread namespace pod_name
              (update_command addon.name (get_or addon.branch "main"))
        ret (occurs "Addon updated successfully" output))
      λ e. ret false
