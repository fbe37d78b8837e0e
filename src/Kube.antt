-- ===== src/Kube.antt =====
-- The ways in which the handlers call the API: `try: create… except ApiException as e: if e.status
-- == 409 …`, and the like. Each is written out in the source at every object; here once.
pub mod Requests
pub mod Effects
pub mod Returns
use odoo_operator.Base.{String, ◌<>◌, true, false, if◌then◌else◌}
use odoo_operator.Value.{Value}
use odoo_operator.Prog.{
  Key, create, patch, read, delete, Exn, api_exception, permanent_error, Prog, ret, raise, ◌>>=◌,
  ◌>>◌, catch, request, has_status,
}

-- `create`, and a 409 is ignored.
pub create_or_skip : Key → Value → Prog Unit
unfolding request catch ◌>>=◌
create_or_skip k v =
    catch (request (create k v) >> ret tt) λ e. if has_status 409 e then ret tt else raise e

-- `create`, and a 409 leads to `patch`.
pub create_or_patch : Key → Value → Prog Unit
unfolding request catch ◌>>=◌
create_or_patch k v =
    catch (request (create k v) >> ret tt)
      λ e. if has_status 409 e then (request (patch k v) >> ret tt) else raise e

-- An `ApiException` becomes a `kopf.PermanentError`; any other exception goes on.
abbrev pub permanent : String → Exn → Exn
permanent prefix (api_exception code text) = permanent_error (prefix <> text)
permanent prefix e = e

-- The same with `raise kopf.PermanentError(f"…: {e}")` in the other case.
pub create_or_patch_wrapped : String → Key → Value → Prog Unit
unfolding request catch ◌>>=◌
create_or_patch_wrapped prefix k v =
    catch (request (create k v) >> ret tt)
      λ e. if has_status 409 e then (request (patch k v) >> ret tt) else raise (permanent prefix e)

-- `create`, a 409 is ignored, and any other `ApiException` is permanent.
pub create_or_skip_wrapped : String → Key → Value → Prog Unit
unfolding request catch ◌>>=◌
create_or_skip_wrapped prefix k v =
    catch (request (create k v) >> ret tt)
      λ e. if has_status 409 e then ret tt else raise (permanent prefix e)

create_made : Key → Prog Value → Prog Unit
create_made k make = make >>= λ v. request (create k v) >> ret tt

-- `read`; a 404 leads to `create` with a body made then, and an object that is there is left alone.
pub create_if_missing : Key → Prog Value → Prog Unit
unfolding request catch ◌>>=◌
create_if_missing k make =
    catch (request (read k) >> ret tt) λ e. if has_status 404 e then create_made k make else raise e

-- `delete`, and a 404 is ignored.
pub delete_if_present : Key → Prog Unit
unfolding request catch ◌>>=◌
delete_if_present k =
    catch (request (delete k) >> ret tt) λ e. if has_status 404 e then ret tt else raise e
