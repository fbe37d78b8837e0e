-- ===== src/Server/Memory.antt =====
-- A server in memory: a presence for every key.
use Prim.Native.Char.{Char}
use odoo_operator.Base.{String, List, [], ◌∷◌, chars, text_of}
use odoo_operator.Value.{Value, nil, null, str, arr, model, end, field}
use odoo_operator.Prog.{
  Key, Request, create, patch, read, delete, list_pods, exec, choice, now, api_exception,
  value_error, Result, ok, err,
}
use odoo_operator.Server.{Presence, absent, leaving, present, Server}
use odoo_operator.Server.Lasting.{Key_discrete}
pub mod Laws

abbrev pub Memory : Type 0
Memory = Key → Presence

abbrev pub store : Memory → Key → Presence → Memory
store s j p k = elim (Key_discrete k j) [ yes e ↦ p | no n ↦ s k ]

abbrev refuse : Memory → Result Value × Memory
refuse s = (err (api_exception 404 "not found"), s)

abbrev create_at : Presence → Key → Value → Memory → Result Value × Memory
create_at absent k v s = (ok v, store s k (present v))
create_at (leaving w) k v s = (err (api_exception 409 "already exists"), s)
create_at (present w) k v s = (err (api_exception 409 "already exists"), s)

abbrev patch_at : Presence → Key → Value → Memory → Result Value × Memory
patch_at absent k v s = refuse s
patch_at (leaving w) k v s = (ok v, store s k (leaving v))
patch_at (present w) k v s = (ok v, store s k (present v))

abbrev read_at : Presence → Memory → Result Value × Memory
read_at absent s = refuse s
read_at (leaving w) s = (ok w, s)
read_at (present w) s = (ok w, s)

abbrev delete_at : Presence → Key → Memory → Result Value × Memory
delete_at absent k s = refuse s
delete_at (leaving w) k s = (ok null, store s k (leaving w))
delete_at (present w) k s = (ok null, store s k absent)

abbrev choose_of : List Char → Memory → Result Value × Memory
choose_of [] s = (err (value_error "Cannot choose from an empty sequence"), s)
choose_of (c ∷ cs) s = (ok (str (text_of (c ∷ []))), s)

abbrev pub respond : Request → Memory → Result Value × Memory
respond (create k v) s = create_at (s k) k v s
respond (patch k v) s = patch_at (s k) k v s
respond (read k) s = read_at (s k) s
respond (delete k) s = delete_at (s k) k s
respond (list_pods space selector) s = (ok (model "V1PodList" (field "items" (arr nil) end)), s)
respond (exec space pod command) s = (ok (arr nil), s)
respond (choice alphabet) s = choose_of (chars alphabet) s
respond now s = (ok (str "2026-01-01T00:00:00+00:00"), s)

abbrev pub memory : Server
memory = record { State = Memory; respond = respond; find = λ s k. s k }

abbrev pub empty : Memory
empty k = absent
