-- ===== src/DbInit/Init.antt =====
-- The script of a job that initializes the database (`init_script` of `create_db_init_job` in
-- src/handlers/db_init.py).
use odoo_operator.Base.{String, ◌<>◌, List, [], ◌∷◌, ◌++◌, join}

database_lines : String → String → String → List String
database_lines db_host modules_str addons_path =
    ""
    ∷ "echo \"=== Odoo Database Initialization Job ===\""
    ∷ "echo \"Note: Addons already cloned by init container\""
    ∷ ""
    ∷ "echo \"Waiting for database to be ready...\""
    ∷ ""
    ∷ "for i in $(seq 1 120); do"
    ∷ ("    if python3 -c \"import psycopg2; psycopg2.connect(host='"
        <> (db_host
            <> "', port=5432, user='odoo', password='$DB_PASSWORD', dbname='odoo')\" 2>/dev/null; then"))
    ∷ "        echo \"Database is ready!\""
    ∷ "        break"
    ∷ "    fi"
    ∷ "    echo \"Waiting for database... attempt $i/120\""
    ∷ "    sleep 5"
    ∷ "done"
    ∷ ""
    ∷ "echo \"Checking if Odoo database needs initialization...\""
    ∷ ""
    ∷ "# Check if ir_module_module table exists (indicates initialized DB)"
    ∷ "if python3 -c \""
    ∷ "import psycopg2"
    ∷ "import os"
    ∷ ("conn = psycopg2.connect(host='"
        <> (db_host
            <> "', port=5432, user='odoo', password=os.environ['DB_PASSWORD'], dbname='odoo')"))
    ∷ "cur = conn.cursor()"
    ∷ "cur.execute('SELECT 1 FROM ir_module_module LIMIT 1')"
    ∷ "print('DB_INITIALIZED')"
    ∷ "conn.close()"
    ∷ "\" 2>/dev/null | grep -q \"DB_INITIALIZED\"; then"
    ∷ "    echo \"Database already initialized, checking for modules to install...\""
    ∷ ""
    ∷ "    # Install additional modules if needed (modules not yet installed)"
    ∷ ("    echo \"Installing modules: " <> (modules_str <> "\""))
    ∷ ("    odoo --database=odoo --db_host="
        <> (db_host <> " --db_port=5432 --db_user=odoo --db_password=\"$DB_PASSWORD\" \\"))
    ∷ ("         --addons-path=" <> (addons_path <> " \\"))
    ∷ ("         --stop-after-init --init="
        <> (modules_str <> " --without-demo=True --no-http || true"))
    ∷ "else"
    ∷ ("    echo \"Database not initialized, running odoo -i " <> (modules_str <> "...\""))
    ∷ ("    odoo --database=odoo --db_host="
        <> (db_host <> " --db_port=5432 --db_user=odoo --db_password=\"$DB_PASSWORD\" \\"))
    ∷ ("         --addons-path=" <> (addons_path <> " \\"))
    ∷ ("         --stop-after-init --init=" <> (modules_str <> " --without-demo=True --no-http"))
    ∷ "    echo \"Database initialization complete\""
    ∷ "fi"
    ∷ ""
    ∷ []

password_lines : String → String → List String
password_lines db_host modules_str =
    "# Set admin user password"
    ∷ "echo \"Setting admin user password...\""
    ∷ "python3 << 'PYTHON_SCRIPT'"
    ∷ "import psycopg2"
    ∷ "import os"
    ∷ "from passlib.context import CryptContext"
    ∷ ""
    ∷ "try:"
    ∷ "    conn = psycopg2.connect("
    ∷ ("        host='" <> (db_host <> "',"))
    ∷ "        port=5432,"
    ∷ "        user='odoo',"
    ∷ "        password=os.environ.get('DB_PASSWORD'),"
    ∷ "        dbname='odoo'"
    ∷ "    )"
    ∷ "    cur = conn.cursor()"
    ∷ ""
    ∷ "    admin_password = os.environ.get('ADMIN_PASSWORD', 'admin')"
    ∷ "    ctx = CryptContext(schemes=['pbkdf2_sha512'])"
    ∷ "    hashed = ctx.hash(admin_password)"
    ∷ ""
    ∷ "    cur.execute(\"UPDATE res_users SET password=%s WHERE login='admin'\", (hashed,))"
    ∷ "    conn.commit()"
    ∷ "    print(\"Admin user password set successfully\")"
    ∷ "    conn.close()"
    ∷ "except Exception as e:"
    ∷ "    print(f\"Warning: Could not set admin password: {e}\")"
    ∷ "PYTHON_SCRIPT"
    ∷ ""
    ∷ "echo \"=== Database initialization job complete ===\""
    ∷ ("echo \"Installed modules: " <> (modules_str <> "\""))
    ∷ ""
    ∷ []

pub init_script : String → String → String → String
unfolding database_lines password_lines
init_script db_host modules_str addons_path =
    join "\n" (database_lines db_host modules_str addons_path ++ password_lines db_host modules_str)
