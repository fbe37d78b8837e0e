-- ===== src/Cloudflare/Rules.antt =====
-- What the tunnel's handlers request, and the objects that they leave stored or gone.
use odoo_operator.Base.{ap, ◌∙◌, String, refl, List, [], ◌∷◌, ◌≡◌}
use odoo_operator.Base.{All}
use odoo_operator.Prog.{ok, Key, Request, read, secret}
use odoo_operator.Prog.Only.{
  Only, Only-bind, Only-ret, Only-request, Only-as_text, Only-branch, Only-raise,
}
use odoo_operator.Prog.Reader.{
  Reader, Reader-bind, Reader-catch, Reader-ret, Reader-raise, Reader-if, Reader-request,
}
use odoo_operator.Dynamic.Rules.{Reader-get_attr, Reader-count_or}
use odoo_operator.Base.{false}
use odoo_operator.Cloudflare.{read_ready, check_cloudflare_tunnel_ready}
use odoo_operator.Cloudflare.Bodies.{config_body, deployment_body}
use odoo_operator.Server.Accepted.{Accepts, Accepts-second}
use odoo_operator.Server.{Server, IsLawful, IsHealthy, IsStored}
use odoo_operator.Server.Run.{run}
use odoo_operator.Server.Rules.{bind_ok, Succeeds, Succeeds-bind}
use odoo_operator.Kube.Requests.{Only-delete_if_present, Only-create_or_patch}
use odoo_operator.Kube.Effects.{
  Builds-bind, Clears-bind, Builds-Only, Builds, Clears, Builds-create_or_patch,
  Clears-delete_if_present,
}
use odoo_operator.Kube.Returns.{Succeeds-create_or_patch, Succeeds-delete_if_present}
use odoo_operator.Python.{Python}
use odoo_operator.Dynamic.{get_in}
use odoo_operator.Scope.{Provisions, Removes, metadata_of, suffix}
use odoo_operator.Owner.{key}
use odoo_operator.Dynamic.Rules.{Only-get_attr, Only-get_value, Only-lift}
use odoo_operator.Cloudflare.{
  config_key, deployment_key, TunnelArgs, config_body, deployment_body, read_tunnel_id,
  tunnel_config, create_cloudflare_tunnel, delete_cloudflare_tunnel,
}

abbrev pub tunnel_keys : String → String → List Key
tunnel_keys namespace name = config_key namespace name ∷ deployment_key namespace name ∷ []

module _ (py : Python) where
  Only-read_tunnel_id :
      {P : Request → Type 0} (namespace tunnel_secret_name : String)
      → P (read (key secret namespace tunnel_secret_name))
      → Only P (read_tunnel_id py namespace tunnel_secret_name)
  unfolding read_tunnel_id
  Only-read_tunnel_id namespace tunnel_secret_name p = Only-bind (Only-request _ p) λ s.
      Only-bind (Only-get_attr s _) λ held. Only-bind (Only-get_value held _ _) λ encoded.
        Only-bind (Only-as_text encoded)
          λ t. Only-bind (Only-lift _) λ tunnel_id. Only-branch _ (Only-ret _) (Only-raise _)

  pub Only-create_cloudflare_tunnel :
      (a : TunnelArgs) → Only (Provisions a.namespace a.name) (create_cloudflare_tunnel py a)
  unfolding create_cloudflare_tunnel config_body deployment_body metadata_of get_in
  Only-create_cloudflare_tunnel a =
      let named = suffix a.name "-cloudflare-tunnel" "-config" in
      Only-bind (Only-read_tunnel_id _ _ tt) λ tunnel_id.
        Only-bind
          (Only-create_or_patch _ _ ((refl, ("cloudflare-tunnel-config", refl)), (named, refl))
            ((refl, ("cloudflare-tunnel-config", refl)), refl, (named, refl)))
          λ _.
            Only-create_or_patch _ _ ((refl, ("cloudflare-tunnel", refl)), (refl, refl))
              ((refl, ("cloudflare-tunnel", refl)), refl, (refl, refl))

  module _ (S : Server) (L : IsLawful S) where
    pub Builds-create_cloudflare_tunnel :
        (a : TunnelArgs)
        → Builds S L (tunnel_keys a.namespace a.name) (create_cloudflare_tunnel py a)
    unfolding create_cloudflare_tunnel
    Builds-create_cloudflare_tunnel a =
        Builds-bind S L {ks = []} (Builds-Only S L (Only-read_tunnel_id _ _ tt)) λ tunnel_id.
          Builds-bind S L (Builds-create_or_patch S L _ _) λ _. Builds-create_or_patch S L _ _

module _ (namespace name : String) (S : Server) (L : IsLawful S) where
  pub Clears-delete_cloudflare_tunnel :
      Clears S L
        (deployment_key namespace name ∷ config_key namespace name ∷ [])
        (delete_cloudflare_tunnel namespace name)
  unfolding delete_cloudflare_tunnel
  Clears-delete_cloudflare_tunnel =
      Clears-bind S L (Clears-delete_if_present S L _) λ _. Clears-delete_if_present S L _

  pub Succeeds-delete_cloudflare_tunnel :
      IsHealthy S → Succeeds S (delete_cloudflare_tunnel namespace name)
  unfolding delete_cloudflare_tunnel
  Succeeds-delete_cloudflare_tunnel H =
      Succeeds-bind (Succeeds-delete_if_present S L H _) λ _. Succeeds-delete_if_present S L H _

pub Only-delete_cloudflare_tunnel :
    (namespace name : String)
    → Only (Removes namespace name) (delete_cloudflare_tunnel namespace name)
unfolding delete_cloudflare_tunnel
Only-delete_cloudflare_tunnel namespace name =
    Only-bind (Only-delete_if_present _ ((refl, ("cloudflare-tunnel", refl)), refl))
      λ _. Only-delete_if_present _ ((refl, ("cloudflare-tunnel-config", refl)), refl)

Reader-read_ready : (namespace name : String) → Reader (read_ready namespace name)
unfolding read_ready
Reader-read_ready namespace name = Reader-bind (Reader-request _ tt) λ d.
    Reader-bind (Reader-get_attr d _) λ status. Reader-bind (Reader-get_attr status _) λ v.
      Reader-bind (Reader-count_or 0 v) λ ready. Reader-bind (Reader-get_attr d _) λ spec.
        Reader-bind (Reader-get_attr spec _)
          λ w. Reader-bind (Reader-count_or 1 w) λ desired. Reader-ret _

pub Reader-check_cloudflare_tunnel_ready :
    (namespace name : String) → Reader (check_cloudflare_tunnel_ready namespace name)
unfolding check_cloudflare_tunnel_ready
Reader-check_cloudflare_tunnel_ready namespace name =
    Reader-catch (Reader-read_ready namespace name)
      λ e. Reader-if _ (Reader-ret false) (Reader-raise e)

module _ (S : Server) (L : IsLawful S) (H : IsHealthy S) (py : Python) (a : TunnelArgs) where
  create_cloudflare_tunnel-returns :
      (s : S.State) {tunnel_id : String}
      → Accepts S (create_cloudflare_tunnel py a) s
      → (run S (read_tunnel_id py a.namespace a.tunnel_secret_name) s).result ≡ ok tunnel_id
      → (run S (create_cloudflare_tunnel py a) s).result ≡ ok tt
  unfolding create_cloudflare_tunnel
  create_cloudflare_tunnel-returns s {tunnel_id} w e =
      let t = (run S (read_tunnel_id py a.namespace a.tunnel_secret_name) s).state in
      let rest =
        Succeeds-bind
          (Succeeds-create_or_patch S L H (config_key a.namespace a.name)
            (config_body a.namespace a.name (tunnel_config py a tunnel_id) a.owner_ref))
          λ _.
            Succeeds-create_or_patch S L H (deployment_key a.namespace a.name)
              (deployment_body a.namespace a.name a.tunnel_secret_name a.replicas a.owner_ref) in
      ap (λ o. o.result) (bind_ok S (read_tunnel_id py a.namespace a.tunnel_secret_name) _ s e)
      ∙ (rest.at t (Accepts-second (read_tunnel_id py a.namespace a.tunnel_secret_name) _ w e)).1

-- On a lawful server with no fault of its own, where the tunnel's id can be read from its secret,
-- the creation of the tunnel, none of whose creations and patches the server answers with 422,
-- returns, and its configuration and its deployment are stored.
pub create_cloudflare_tunnel-total :
    (S : Server) (py : Python) (a : TunnelArgs) (s : S.State) (tunnel_id : String)
    → IsLawful S
    → IsHealthy S
    → Accepts S (create_cloudflare_tunnel py a) s
    → (run S (read_tunnel_id py a.namespace a.tunnel_secret_name) s).result ≡ ok tunnel_id
    → ((run S (create_cloudflare_tunnel py a) s).result ≡ ok tt)
      × All
          (λ k. IsStored (S.find (run S (create_cloudflare_tunnel py a) s).state k))
          (tunnel_keys a.namespace a.name)
create_cloudflare_tunnel-total S py a s tunnel_id L H w e =
    let h = create_cloudflare_tunnel-returns S L H py a s w e in
    (h, (Builds-create_cloudflare_tunnel py S L a).done s h)
