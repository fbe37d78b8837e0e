-- ===== src/DbInit/Script.antt =====
-- The scripts of the init job's containers, and the modules that the job installs
-- (src/handlers/db_init.py).
use odoo_operator.Base.{
  String, ◌<>◌, false, Option, List, [], ◌∷◌, ◌++◌, join, truthy_opt, get_or, if◌then◌else◌,
}
use odoo_operator.Spec.{Addon}

header_lines : List String
header_lines =
    "echo '=== Cloning addon repositories ==='" ∷ "mkdir -p /mnt/addons" ∷ ""
    ∷ "# Fix git dubious ownership errors (shared volumes between containers)"
    ∷ "git config --global --add safe.directory '*'" ∷ "" ∷ "# Configure SSH for private repos"
    ∷ "mkdir -p ~/.ssh" ∷ "chmod 700 ~/.ssh"
    ∷ "ssh-keyscan github.com >> ~/.ssh/known_hosts 2>/dev/null || true"
    ∷ "ssh-keyscan gitlab.com >> ~/.ssh/known_hosts 2>/dev/null || true" ∷ "" ∷ []

export_lines : Option String → List String
export_lines secret =
    if truthy_opt secret
    then ("export GIT_SSH_COMMAND='ssh -i /keys/"
        <> (get_or secret "" <> "/ssh-privatekey -o StrictHostKeyChecking=no'"))
      ∷ []
    else []

unset_lines : Option String → List String
unset_lines secret = if truthy_opt secret then "unset GIT_SSH_COMMAND" ∷ [] else []

clone_lines : String → String → String → List String
clone_lines name repo branch =
    ("if [ -d '/mnt/addons/" <> (name <> "/.git' ]; then"))
    ∷ ("  echo '" <> (name <> " already exists, skipping'"))
    ∷ "else"
    ∷ ("  git clone --depth 1 --branch "
        <> (branch <> (" " <> (repo <> (" /mnt/addons/" <> name)))))
    ∷ "fi"
    ∷ []

-- One round of the loop over the addons.
pub addon_lines : Addon → List String
unfolding export_lines unset_lines clone_lines
addon_lines a =
    ("echo 'Cloning " <> (a.name <> "...'"))
    ∷ (export_lines a.deploy_key_secret
        ++ (clone_lines a.name a.repo (get_or a.branch "main")
            ++ (unset_lines a.deploy_key_secret ++ ("" ∷ []))))

pub loop_lines : List Addon → List String
unfolding addon_lines
loop_lines [] = []
loop_lines (a ∷ addons) = addon_lines a ++ loop_lines addons

pub build_clone_script : List Addon → String
unfolding header_lines loop_lines
build_clone_script [] = ""
build_clone_script (a ∷ addons) = join "\n" (
    header_lines
    ++ (loop_lines (a ∷ addons) ++ ("echo 'Addon cloning complete'" ∷ "ls -la /mnt/addons/" ∷ [])))

-- The path of an addon that asks for `install: true`.
pub module_of : Addon → List String
module_of a =
    if get_or a.install false then (if truthy_opt a.path then get_or a.path "" ∷ [] else []) else []

pub get_modules_to_install : List Addon → List String
unfolding module_of
get_modules_to_install [] = []
get_modules_to_install (a ∷ addons) = module_of a ++ get_modules_to_install addons

addons_paths : List Addon → List String
addons_paths [] = []
addons_paths (a ∷ addons) = ("/mnt/addons/" <> a.name) ∷ addons_paths addons

unfoldable pub build_addons_path : List Addon → String
unfolding addons_paths
build_addons_path addons = join "," ("/mnt/extra-addons" ∷ addons_paths addons)
