-- ===== src/Cloudflare.antt =====
-- src/handlers/cloudflare.py: the tunnel's configuration, its deployment, and whether it is ready.
pub mod Bodies
pub mod Rules
use odoo_operator.Base.{
  ℕ, String, ◌<>◌, Bool, true, false, ◌&&◌, Option, none, some, List, [], ◌∷◌, ◌++◌, leb, join,
  truthy, chars, text_of, strip, truthy_opt, get_or, if◌then◌else◌,
}
use odoo_operator.Value.{Value, null, bool, num, str, dict, list, new, str_opt}
use odoo_operator.Prog.{
  Key, config_map, deployment, secret, read, value_error, Prog, ret, raise, ◌>>=◌, ◌>>◌, catch,
  request, has_status, as_text,
}
use odoo_operator.Cloudflare.Bodies.{config_body, deployment_body}
use odoo_operator.Kube.{create_or_patch, delete_if_present}
use odoo_operator.Python.{Python}
use odoo_operator.Dynamic.{get_attr, get_value, count_or, lift}
use odoo_operator.Owner.{OwnerRef, controller_references, owner_entry, labels, selector, key}

abbrev pub config_key : String → String → Key
config_key namespace name = key config_map namespace (name <> "-cloudflare-tunnel-config")

abbrev pub deployment_key : String → String → Key
deployment_key namespace name = key deployment namespace (name <> "-cloudflare-tunnel")

-- The rule of a host, where both its name and its service are there.
pub ingress_rule : Option String → Option String → String → List String
ingress_rule hostname service port =
    if truthy_opt hostname && truthy_opt service
    then ("  - hostname: " <> get_or hostname "")
      ∷ ("    service: http://" <> (get_or service "" <> (":" <> port)))
      ∷ []
    else []

-- The test of Odoo's rule is on its host name alone; its service is always there.
pub odoo_rule : Option String → String → List String
odoo_rule hostname service =
    if truthy_opt hostname
    then ("  - hostname: " <> get_or hostname "")
      ∷ ("    service: http://" <> (service <> ":8069"))
      ∷ []
    else []

pub tunnel_lines : String → String → Option String → Option String → Option String → List String
unfolding ingress_rule odoo_rule
tunnel_lines tunnel_id odoo_service odoo_hostname metabase_service metabase_hostname =
    (("tunnel: " <> tunnel_id)
      ∷ "credentials-file: /etc/cloudflared/credentials.json"
      ∷ "ingress:"
      ∷ [])
    ++ (odoo_rule odoo_hostname odoo_service
        ++ (ingress_rule metabase_hostname metabase_service "3000"
            ++ ("  - service: http_status:404" ∷ [])))

pub build_tunnel_config : String → String → Option String → Option String → Option String → String
unfolding tunnel_lines
build_tunnel_config tunnel_id odoo_service odoo_hostname metabase_service metabase_hostname =
    join "\n" (tunnel_lines tunnel_id odoo_service odoo_hostname metabase_service metabase_hostname)

-- The arguments of `create_cloudflare_tunnel`.
pub record TunnelArgs : Type 0 where
  pub namespace : String
  pub name : String
  pub tunnel_secret_name : String
  pub odoo_hostname : Option String
  pub metabase_hostname : Option String
  pub metabase_enabled : Bool
  pub replicas : ℕ
  pub owner_ref : Option OwnerRef

module _ (py : Python) where
  -- The tunnel's id, from its secret; a `ValueError` where it is empty.
  unfoldable pub read_tunnel_id : String → String → Prog String
  read_tunnel_id namespace tunnel_secret_name = do
    s ← request (read (key secret namespace tunnel_secret_name))
    held ← get_attr s "data"
    encoded ← get_value held "TUNNEL_ID" (str "")
    t ← as_text encoded
    decoded ← lift (py.decode t)
    let tunnel_id = text_of (strip (chars decoded))
    elim (truthy tunnel_id) [
      | true ↦ ret tunnel_id
      | false ↦ raise (value_error ("TUNNEL_ID not found in secret " <> tunnel_secret_name))
    ]

  pub tunnel_config : TunnelArgs → String → String
  tunnel_config a tunnel_id =
      build_tunnel_config tunnel_id (a.name <> "-odoo") a.odoo_hostname
        (if a.metabase_enabled then some (a.name <> "-metabase") else none)
        (if a.metabase_enabled then a.metabase_hostname else none)

  pub create_cloudflare_tunnel : TunnelArgs → Prog Unit
  unfolding read_tunnel_id tunnel_config config_body deployment_body
  create_cloudflare_tunnel a = do
    tunnel_id ← read_tunnel_id a.namespace a.tunnel_secret_name
    create_or_patch (config_key a.namespace a.name)
        (config_body a.namespace a.name (tunnel_config a tunnel_id) a.owner_ref)
    create_or_patch (deployment_key a.namespace a.name)
        (deployment_body a.namespace a.name a.tunnel_secret_name a.replicas a.owner_ref)

pub delete_cloudflare_tunnel : String → String → Prog Unit
delete_cloudflare_tunnel namespace name = do
  delete_if_present (deployment_key namespace name)
  delete_if_present (config_key namespace name)

-- `deployment.status.ready_replicas or 0` against `deployment.spec.replicas or 1`.
read_ready : String → String → Prog Bool
read_ready namespace name = do
  d ← request (read (deployment_key namespace name))
  status ← get_attr d "status"
  ready ← count_or 0 (← get_attr status "ready_replicas")
  spec ← get_attr d "spec"
  desired ← count_or 1 (← get_attr spec "replicas")
  ret (leb desired ready)

pub check_cloudflare_tunnel_ready : String → String → Prog Bool
unfolding read_ready
check_cloudflare_tunnel_ready namespace name =
    catch (read_ready namespace name) λ e. if has_status 404 e then ret false else raise e
