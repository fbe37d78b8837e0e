-- ===== src/Password.antt =====
-- `generate_password` (src/handlers/odoo.py, db_init.py and metabase.py, the same text).
pub mod Rules
use odoo_operator.Base.{ℕ, zero, suc, String, ◌<>◌}
use odoo_operator.Prog.{choice, Prog, ret, ◌>>=◌, request, as_text}

-- `string.ascii_letters + string.digits`
abbrev pub alphabet : String
alphabet = "abcdefghijklmnopqrstuvwxyzABCDEFGHIJKLMNOPQRSTUVWXYZ0123456789"

-- `secrets.choice(alphabet)`
unfoldable pub choose_char : Prog String
choose_char = do v ← request (choice alphabet); as_text v

-- The characters, one after the other.
unfoldable pub generate_password : ℕ → Prog String
unfolding choose_char
generate_password zero = ret ""
generate_password (suc n) = do c ← choose_char; rest ← generate_password n; ret (c <> rest)
