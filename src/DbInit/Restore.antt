-- ===== src/DbInit/Restore.antt =====
-- The script of a job that restores from S3 (`build_restore_script` in src/handlers/db_init.py).
use odoo_operator.Base.{
  String, ◌<>◌, ◌||◌, List, [], ◌∷◌, ◌++◌, join, truthy, get_or, if◌then◌else◌, ends_with,
}
use odoo_operator.Spec.{S3}

wait_lines : String → List String
wait_lines db_host =
    ""
    ∷ "set -e  # Exit on error"
    ∷ ""
    ∷ "echo \"=== Odoo Database RESTORE Job ===\""
    ∷ "echo \"Restoring from S3 backup...\""
    ∷ "echo \"Note: Addons already cloned by init container\""
    ∷ ""
    ∷ "# Install AWS CLI for S3 access"
    ∷ "echo \"Installing AWS CLI...\""
    ∷ "pip install awscli --quiet --break-system-packages --user || pip install awscli --quiet --user"
    ∷ ""
    ∷ "# Add pip user bin to PATH"
    ∷ "export PATH=\"$HOME/.local/bin:$PATH\""
    ∷ ""
    ∷ "# Configure AWS credentials from environment"
    ∷ "export AWS_ACCESS_KEY_ID=$S3_ACCESS_KEY_ID"
    ∷ "export AWS_SECRET_ACCESS_KEY=$S3_SECRET_ACCESS_KEY"
    ∷ ""
    ∷ "# Verify aws is available"
    ∷ "which aws || (echo \"ERROR: aws command not found after install\" && exit 1)"
    ∷ ""
    ∷ "echo \"Waiting for database to be ready...\""
    ∷ "for i in $(seq 1 120); do"
    ∷ ("    if python3 -c \"import psycopg2; psycopg2.connect(host='"
        <> (db_host
            <> "', port=5432, user='odoo', password='$DB_PASSWORD', dbname='postgres')\" 2>/dev/null; then"))
    ∷ "        echo \"Database server is ready!\""
    ∷ "        break"
    ∷ "    fi"
    ∷ "    echo \"Waiting for database... attempt $i/120\""
    ∷ "    sleep 5"
    ∷ "done"
    ∷ ""
    ∷ []

database_lines : String → String → String → String → List String
database_lines db_host endpoint bucket database_key =
    "# Check if restore already completed (idempotency)"
    ∷ "if python3 -c \""
    ∷ "import psycopg2"
    ∷ "import os"
    ∷ ("conn = psycopg2.connect(host='"
        <> (db_host
            <> "', port=5432, user='odoo', password=os.environ['DB_PASSWORD'], dbname='odoo')"))
    ∷ "cur = conn.cursor()"
    ∷ "cur.execute('SELECT 1 FROM ir_module_module LIMIT 1')"
    ∷ "print('DB_INITIALIZED')"
    ∷ "conn.close()"
    ∷ "\" 2>/dev/null | grep -q \"DB_INITIALIZED\"; then"
    ∷ "    echo \"Database already has data - restore already completed or manual setup done.\""
    ∷ "    echo \"Skipping restore to prevent data loss.\""
    ∷ "else"
    ∷ "    echo \"=== Downloading database backup from S3 ===\""
    ∷ ("    aws s3 cp s3://"
        <> (bucket
            <> ("/" <> (database_key <> (" /tmp/database_backup --endpoint-url=" <> endpoint)))))
    ∷ ""
    ∷ "    echo \"=== Restoring PostgreSQL database ===\""
    ∷ "    # The odoo database already exists (created by CNPG bootstrap)"
    ∷ "    # Just restore the data into it"
    ∷ ""
    ∷ "    # Detect backup format and restore"
    ∷ "    if head -c 5 /tmp/database_backup | grep -q \"PGDMP\"; then"
    ∷ "        echo \"Detected PostgreSQL custom dump format...\""
    ∷ ("        PGPASSWORD=$DB_PASSWORD pg_restore -h "
        <> (db_host
            <> " -U odoo -d odoo --no-owner --no-acl --clean --if-exists /tmp/database_backup 2>&1 || echo \"Some pg_restore errors are normal (pre-existing objects)\""))
    ∷ "    else"
    ∷ "        echo \"Detected SQL dump format...\""
    ∷ "        # For SQL dumps, we may need to clean first"
    ∷ ("        PGPASSWORD=$DB_PASSWORD psql -h "
        <> (db_host
            <> " -U odoo -d odoo -c \"DROP SCHEMA public CASCADE; CREATE SCHEMA public;\" || true"))
    ∷ ("        PGPASSWORD=$DB_PASSWORD psql -h "
        <> (db_host <> " -U odoo -d odoo < /tmp/database_backup"))
    ∷ "    fi"
    ∷ ""
    ∷ "    echo \"Database restore complete!\""
    ∷ "    rm /tmp/database_backup"
    ∷ "fi"
    ∷ []

-- The filestore as an archive, and as a directory.
archive_lines : String → String → String → List String
archive_lines endpoint bucket filestore_key =
    ""
    ∷ "# Check if filestore already has data"
    ∷ "if [ -d \"/var/lib/odoo/filestore/odoo\" ] && [ \"$(ls -A /var/lib/odoo/filestore/odoo 2>/dev/null)\" ]; then"
    ∷ "    echo \"Filestore already has data, skipping filestore restore.\""
    ∷ "else"
    ∷ "    echo \"=== Downloading filestore archive from S3 ===\""
    ∷ ("    aws s3 cp s3://"
        <> (bucket
            <> ("/"
                <> (filestore_key
                    <> (" /tmp/filestore_backup.tar.gz --endpoint-url=" <> endpoint)))))
    ∷ ""
    ∷ "    echo \"=== Extracting filestore ===\""
    ∷ "    mkdir -p /var/lib/odoo/filestore/odoo"
    ∷ "    tar -xzf /tmp/filestore_backup.tar.gz -C /var/lib/odoo/filestore/odoo --strip-components=1 || \\"
    ∷ "    tar -xzf /tmp/filestore_backup.tar.gz -C /var/lib/odoo/filestore/ || \\"
    ∷ "    echo \"Warning: Could not extract filestore, may need manual intervention\""
    ∷ ""
    ∷ "    rm /tmp/filestore_backup.tar.gz"
    ∷ "    echo \"Filestore restore complete!\""
    ∷ "fi"
    ∷ []

sync_lines : String → String → String → List String
sync_lines endpoint bucket filestore_key =
    ""
    ∷ "# Check if filestore already has data"
    ∷ "if [ -d \"/var/lib/odoo/filestore/odoo\" ] && [ \"$(ls -A /var/lib/odoo/filestore/odoo 2>/dev/null)\" ]; then"
    ∷ "    echo \"Filestore already has data, skipping filestore restore.\""
    ∷ "else"
    ∷ "    echo \"=== Syncing filestore directory from S3 ===\""
    ∷ "    mkdir -p /var/lib/odoo/filestore/odoo"
    ∷ ("    aws s3 sync s3://"
        <> (bucket
            <> ("/"
                <> (filestore_key
                    <> (" /var/lib/odoo/filestore/odoo --endpoint-url=" <> endpoint)))))
    ∷ "    echo \"Filestore sync complete!\""
    ∷ "    ls -la /var/lib/odoo/filestore/odoo | head -20"
    ∷ "fi"
    ∷ []

pub filestore_lines : String → String → String → List String
unfolding archive_lines sync_lines
filestore_lines endpoint bucket filestore_key =
    if truthy filestore_key
    then (if ends_with filestore_key ".tar.gz" || ends_with filestore_key ".tgz"
        then archive_lines endpoint bucket filestore_key
        else sync_lines endpoint bucket filestore_key)
    else []

end_lines : List String
end_lines =
    "" ∷ "echo \"=== Restore job complete ===\""
    ∷ "echo \"Note: Addon modules are already installed in the restored database.\""
    ∷ "echo \"If you added new addons, run: odoo -u <module_name> to update\"" ∷ "" ∷ []

-- `{}` stands for a missing `s3`, as in `restore_config.get('s3', {})`.
pub build_restore_script : String → S3 → String
unfolding wait_lines database_lines filestore_lines end_lines
build_restore_script db_host s3 =
    let endpoint = get_or s3.endpoint "https://s3.amazonaws.com" in
    let bucket = get_or s3.bucket "" in
    join "\n" (
      wait_lines db_host
      ++ (database_lines db_host endpoint bucket (get_or s3.database_key "")
          ++ (filestore_lines endpoint bucket (get_or s3.filestore_key "") ++ end_lines)))
