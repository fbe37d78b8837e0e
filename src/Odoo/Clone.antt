-- ===== src/Odoo/Clone.antt =====
-- The shell script by which a pod's init container clones the addon repositories
-- (`build_git_clone_script` in src/handlers/odoo.py), line by line.
use odoo_operator.Base.{
  String, ◌<>◌, Option, List, [], ◌∷◌, ◌++◌, join, truthy_opt, get_or, if◌then◌else◌,
}
use odoo_operator.Spec.{Addon}

setup_lines : List String
setup_lines =
    "#!/bin/sh" ∷ "set -e" ∷ ""
    ∷ "# Fix git dubious ownership errors (shared volumes between containers)"
    ∷ "git config --global --add safe.directory '*'" ∷ "" ∷ "# Configure SSH for private repos"
    ∷ "mkdir -p ~/.ssh" ∷ "chmod 700 ~/.ssh"
    ∷ "ssh-keyscan github.com >> ~/.ssh/known_hosts 2>/dev/null || true"
    ∷ "ssh-keyscan gitlab.com >> ~/.ssh/known_hosts 2>/dev/null || true"
    ∷ "ssh-keyscan bitbucket.org >> ~/.ssh/known_hosts 2>/dev/null || true" ∷ ""
    ∷ "# Lock file for serializing git operations across pods" ∷ "LOCK_FILE=/mnt/addons/.clone.lock"
    ∷ "" ∷ "# Function to clean up stale git locks" ∷ "cleanup_git_locks() {" ∷ "  local dir=$1"
    ∷ "  if [ -f \"$dir/.git/index.lock\" ]; then"
    ∷ "    echo \"Removing stale git lock: $dir/.git/index.lock\""
    ∷ "    rm -f \"$dir/.git/index.lock\"" ∷ "  fi" ∷ "}" ∷ "" ∷ []

lock_lines : List String
lock_lines =
    "# Wait for any other clone operations to finish (max 45 minutes)"
    ∷ "# The enterprise repo is large and can take 25+ minutes on EFS" ∷ "wait_for_lock() {"
    ∷ "  local count=0" ∷ "  local max_wait=2700"
    ∷ "  while [ -f \"$LOCK_FILE\" ] && [ $count -lt $max_wait ]; do"
    ∷ "    echo \"Waiting for other clone operation to finish... ($count/$max_wait seconds)\""
    ∷ "    sleep 10" ∷ "    count=$((count + 10))" ∷ "  done" ∷ "  if [ -f \"$LOCK_FILE\" ]; then"
    ∷ "    echo \"Lock still held after $max_wait seconds, checking if stale...\""
    ∷ "    # Only remove if lock file is older than 60 minutes (truly stale)"
    ∷ "    find \"$LOCK_FILE\" -mmin +60 -delete 2>/dev/null || true" ∷ "  fi" ∷ "}" ∷ ""
    ∷ "# Acquire lock" ∷ "wait_for_lock" ∷ "echo $$ > \"$LOCK_FILE\""
    ∷ "trap 'rm -f $LOCK_FILE' EXIT" ∷ "" ∷ []

-- The lines between the two that set the key and clear it.
checkout_lines : String → String → String → String → List String
checkout_lines name repo branch target_dir =
    ("CLONE_MARKER='" <> (target_dir <> "/.clone_complete'"))
    ∷ ""
    ∷ "# If marker exists, clone is complete - just verify branch"
    ∷ "if [ -f \"$CLONE_MARKER\" ]; then"
    ∷ ("  echo 'Repo " <> (name <> " already cloned (marker exists), checking branch...'"))
    ∷ ("  cd " <> target_dir)
    ∷ ("  cleanup_git_locks " <> target_dir)
    ∷ "  CURRENT_BRANCH=$(git branch --show-current 2>/dev/null || echo 'unknown')"
    ∷ ("  if [ \"$CURRENT_BRANCH\" = \"" <> (branch <> "\" ]; then"))
    ∷ ("    echo 'Already on branch " <> (branch <> ", skipping update'"))
    ∷ "  else"
    ∷ ("    echo 'Switching to branch " <> (branch <> "'"))
    ∷ ("    git fetch origin " <> (branch <> " --depth 1 || true"))
    ∷ ("    git checkout "
        <> (branch <> (" || git checkout -b " <> (branch <> (" origin/" <> branch)))))
    ∷ "  fi"
    ∷ "else"
    ∷ "  # No marker - we have the lock, so either stale data or needs fresh clone"
    ∷ "  # Since WE hold the lock, no other pod is cloning - this is stale/incomplete"
    ∷ ("  if [ -d '" <> (target_dir <> "' ]; then"))
    ∷ ("    echo 'Directory " <> (name <> " exists but no marker (stale/incomplete), removing...'"))
    ∷ ("    rm -rf " <> target_dir)
    ∷ "  fi"
    ∷ ("  echo 'Fresh clone of " <> (name <> "...'"))
    ∷ ("  git clone --depth 1 --branch " <> (branch <> (" " <> (repo <> (" " <> target_dir)))))
    ∷ ("  touch " <> (target_dir <> "/.clone_complete"))
    ∷ ("  echo '" <> (name <> " clone complete, marker created'"))
    ∷ "fi"
    ∷ []

abbrev key_path : Option String → String
key_path secret = "/keys/" <> (get_or secret "" <> "/ssh-privatekey")

export_lines : Option String → List String
export_lines secret =
    if truthy_opt secret
    then ("export GIT_SSH_COMMAND='ssh -i " <> (key_path secret <> " -o StrictHostKeyChecking=no'"))
      ∷ []
    else []

path_lines : Option String → List String
path_lines path = if truthy_opt path then ("# Module to install: " <> get_or path "") ∷ [] else []

unset_lines : Option String → List String
unset_lines secret = if truthy_opt secret then "unset GIT_SSH_COMMAND" ∷ "" ∷ [] else []

-- One round of the loop over the addons.
pub addon_lines : Addon → List String
unfolding checkout_lines export_lines path_lines unset_lines
addon_lines a =
    ("echo 'Processing addon: " <> (a.name <> "'"))
    ∷ (export_lines a.deploy_key_secret
        ++ (checkout_lines a.name a.repo (get_or a.branch "main") ("/mnt/addons/" <> a.name)
            ++ (path_lines a.path ++ ("" ∷ unset_lines a.deploy_key_secret))))

pub loop_lines : List Addon → List String
unfolding addon_lines
loop_lines [] = []
loop_lines (a ∷ addons) = addon_lines a ++ loop_lines addons

pub script_lines : List Addon → List String
unfolding setup_lines lock_lines loop_lines
script_lines addons =
    setup_lines
    ++ (lock_lines
        ++ (loop_lines addons
            ++ ("echo 'All addons processed successfully!'" ∷ "ls -la /mnt/addons/" ∷ [])))

unfoldable pub build_git_clone_script : List Addon → String
unfolding script_lines
build_git_clone_script addons = join "\n" (script_lines addons)
