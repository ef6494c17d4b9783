-- ===== src/Manifest/Writer/Closed.antt =====
-- What the services of a document refer to is declared in it.
use poor_man_stack.Base.{
  Text, codes, text_eq, text_beq_iff, Bool, true, false, ◌||◌, ◌≡◌, ◌⊎◌, inl, inr, ◌∙◌, List, [],
  ◌∷◌, ◌++◌, is_some, Option, ok, any, any-each, Has, All, All-zip, arith, Bool-cases, Map, lookup,
  insert, lookup-insert, insert_all-lookup, insert-All,
}
use poor_man_stack.Manifest.Dsl.{App}
use poor_man_stack.Manifest.Ir.{Ir, IrService}
use poor_man_stack.Manifest.Compose.{ComposeFile, ComposeService, ComposeNetwork}
use poor_man_stack.Manifest.Labels.{IrApp}
use poor_man_stack.Manifest.Translate.{Resolver, named_volumes, build_ir}
use poor_man_stack.Manifest.Translate.Complete.{IsListed, build_ir-IsListed}
use poor_man_stack.Manifest.Writer.{
  Progress, traefik_net, monitoring_net, compose_service, write_services, with_network,
  external_secret, volume_under, root_or_default, compose_file,
}
use poor_man_stack.Manifest.Writer.Mounts.{
  IsAbsolute, relocate_volumes-Has, root_or_default-IsAbsolute,
}

abbrev pub IsDeclared {ℓ} : {V : Type ℓ} → Text → Map V → Type 0
IsDeclared x m = is_some (lookup x m) ≡ true

-- A service whose networks, secrets and named volumes the document declares.
pub record IsClosed (file : ComposeFile) (s : ComposeService) : Type 0 where
  pub networks : All (λ n. IsDeclared n file.networks) s.networks
  pub secrets : (x : Text) → Has x s.secrets → IsDeclared x file.secrets
  pub volumes : (x : Text) → Has x (named_volumes s.volumes) → IsDeclared x file.volumes

with_network-kept :
    (used : Bool) (name n : Text) (m : Map ComposeNetwork)
    → IsDeclared n m
    → IsDeclared n (with_network used name m)
with_network-kept false name n m e = e
with_network-kept true name n m e =
    ground (arith, lookup-insert name n (record { driver = []; external = true }) m)

with_network-used :
    (used : Bool) (name : Text) (m : Map ComposeNetwork)
    → used ≡ true
    → IsDeclared name (with_network used name m)
with_network-used false name m e = absurd (ground arith)
with_network-used true name m e = ground (
  arith,
  lookup-insert name name (record { driver = []; external = true }) m,
  text_beq_iff name name,
)

write_services-uses :
    (app : IrApp) (private_net root : Text) (ss : List IrService) (p : Progress)
    → ((write_services app private_net root ss p).uses_traefik_net
        ≡ (p.uses_traefik_net || any (λ (s : IrService). is_some s.expose) ss))
      × ((write_services app private_net root ss p).uses_monitoring_net
          ≡ (p.uses_monitoring_net || any (λ (s : IrService). is_some s.expose) ss))
unfolding write_services
write_services-uses app private_net root [] p = ground arith
write_services-uses app private_net root (s ∷ ss) p =
    let rest = write_services-uses app private_net root ss (record {
      written = insert s.name (compose_service app private_net root s) p.written;
      uses_traefik_net = p.uses_traefik_net || is_some s.expose;
      uses_monitoring_net = p.uses_monitoring_net || is_some s.expose;
    }) in
    ground (arith, rest)

write_services-All :
    (P : ComposeService → Type 0) (app : IrApp) (private_net root : Text) (ss : List IrService)
    (p : Progress)
    → All (λ s. P (compose_service app private_net root s)) ss
    → All (λ (e : Text × ComposeService). P e.1) p.written
    → All (λ (e : Text × ComposeService). P e.1) (write_services app private_net root ss p).written
unfolding write_services
write_services-All P app private_net root [] p h done = done
write_services-All P app private_net root (s ∷ ss) p (q, h) done =
    write_services-All P app private_net root ss _ h
      (insert-All P s.name (compose_service app private_net root s) p.written q done)

compose_service-networks :
    (P : Text → Type 0) (app : IrApp) (private_net root : Text) (s : IrService)
    → P private_net
    → (is_some s.expose ≡ true → P traefik_net × P monitoring_net)
    → All P (compose_service app private_net root s).networks
compose_service-networks P app private_net root s own shared =
    elim (Bool-cases (is_some s.expose)) [
      | inr hidden ↦ unfold compose_service in rw hidden (own, tt)
      | inl shown ↦
          let (t, m) = shared shown in unfold compose_service in rw shown (own, (t, (m, tt)))
    ]

private_net-IsDeclared : (net : Text) (v : ComposeNetwork) → IsDeclared net ((net, v) ∷ [])
unfolding lookup
private_net-IsDeclared net v = ground (arith, text_beq_iff net net)

abbrev app_of : Ir → IrApp
app_of ir = record { name = ir.name; env = ir.env; version = ir.version }

compose_service-IsClosed :
    (volume_root : Text) (ir : Ir) (s : IrService)
    → ((volume_root ≡ []) ⊎ IsAbsolute volume_root)
    → IsListed ir s
    → (is_some s.expose ≡ true → any (λ (t : IrService). is_some t.expose) ir.services ≡ true)
    → IsClosed
        (compose_file volume_root ir)
        (compose_service (app_of ir) (ir.name ++ codes "-net") (root_or_default volume_root) s)
compose_service-IsClosed volume_root ir s abs (secrets, volumes) counted =
    let root = root_or_default volume_root in
    let net = ir.name ++ codes "-net" in
    let start : Progress = record {
      written = [];
      uses_traefik_net = false;
      uses_monitoring_net = false;
    } in
    let (traefik, monitoring) = write_services-uses (app_of ir) net root ir.services start in
    record {
      networks =
          unfold compose_file in
          compose_service-networks _ (app_of ir) net root s
            (with_network-kept _ monitoring_net net _
              (with_network-kept _ traefik_net net _ (private_net-IsDeclared net _)))
            (λ shown. (
              with_network-kept _ monitoring_net traefik_net _
                  (with_network-used _ traefik_net _ (traefik ∙ counted shown)),
              with_network-used _ monitoring_net _ (monitoring ∙ counted shown),
            ));
      secrets = λ x i.
          unfold compose_file in
          insert_all-lookup external_secret ir.secrets [] x
            (inl (secrets x (unfold compose_service in i)));
      volumes = λ x i.
          unfold compose_file in
          insert_all-lookup (volume_under root ir.name) ir.volumes [] x (
            inl (
              volumes x (
                relocate_volumes-Has root ir.name s.volumes x
                  (root_or_default-IsAbsolute volume_root abs) (unfold compose_service in i))));
    }

-- The document of a translated manifest declares each network, secret and named volume of each of
-- its services, if the volume root is not set or is an absolute path.
pub compose_file-IsClosed :
    (resolver : Option Resolver) (app : App) (ir : Ir) (volume_root : Text)
    → build_ir resolver app ≡ ok ir
    → ((volume_root ≡ []) ⊎ IsAbsolute volume_root)
    → All
        (λ (e : Text × ComposeService). IsClosed (compose_file volume_root ir) e.1)
        (compose_file volume_root ir).services
compose_file-IsClosed resolver app ir volume_root e abs =
    let file = compose_file volume_root ir in
    let each =
      All-zip (IsListed ir) _ _ ir.services
        (λ s listed counted. compose_service-IsClosed volume_root ir s abs listed counted)
        (build_ir-IsListed resolver app ir e)
        (any-each (λ (t : IrService). is_some t.expose) ir.services) in
    unfold compose_file in
    write_services-All (IsClosed file) (app_of ir) (ir.name ++ codes "-net")
      (root_or_default volume_root) ir.services _ each tt
