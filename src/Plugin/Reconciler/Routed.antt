-- ===== src/Plugin/Reconciler/Routed.antt =====
-- Where the Service that the hook of internal/reconciler/reconciler.go leaves behind sends clients.
use cnpg_pg_doorman.Base.{
  ◌≡◌, refl, sym, ◌∙◌, ap, String, ◌<>◌, true, Option, none, some, List, [], ◌∷◌, ℤ, int_eq_iff,
  arith, eq_iff, Option-cases, inl, inr,
}
use cnpg_pg_doorman.Base.Maps.{Map, lookup}
use cnpg_pg_doorman.Plugin.Config.{Cluster, Parsers, new_from_cluster}
use cnpg_pg_doorman.Plugin.Config.Checked.{IsFreePort, validate_iff}
use cnpg_pg_doorman.Plugin.Api.{
  Api, ok, PgDoorman, Service, ServicePort, IntOrString, from_int, from_string,
}
use cnpg_pg_doorman.Plugin.Lifecycle.Ports.{to_int32-IsFreePort}
use cnpg_pg_doorman.Plugin.Reconciler.Defs.{
  proceed, included, has_value, same_target, same_port, same_ports, is_current_service,
  build_doorman_service, pre,
}
use cnpg_pg_doorman.Plugin.Reconciler.Cleanup.{NoRole, NoRoleBinding}
use cnpg_pg_doorman.Plugin.Reconciler.Served.{Serves, pre-IsServed}
use cnpg_pg_doorman.Plugin.Reconciler.Settled.{pre-valid}

has_value-some : (o : Option String) (v : String) → has_value o v ≡ true → o ≡ some v
has_value-some none v h = cc h
has_value-some (some w) v h = ap some ((eq_iff w v).0 h)

-- Every value of an included map is a value of the other.
lookup-included :
    (m n : Map String) (key : String) {v : String}
    → included m n ≡ true
    → lookup key m ≡ some v
    → lookup key n ≡ some v
unfolding included lookup
lookup-included [] n key h k = cc k
lookup-included ((j, w) ∷ m) n key {v} h k =
    ground (arith, eq_iff j key, has_value-some (lookup j n) w, lookup-included m n key {v = v})

lookup-same :
    (m n : Map String)
    → included m n ≡ true
    → included n m ≡ true
    → (key : String) → lookup key m ≡ lookup key n
lookup-same m n h k key = elim (Option-cases (lookup key m)) [
  | inr (v, e) ↦ e ∙ sym (lookup-included m n key h e)
  | inl e ↦ elim (Option-cases (lookup key n)) [
    | inl f ↦ e ∙ sym f
    | inr (v, f) ↦ cc (e, lookup-included n m key k f)
  ]
]

same_target-eq : (s t : IntOrString) → same_target s t ≡ true → s ≡ t
same_target-eq (from_int n) (from_int m) h = ap from_int ((int_eq_iff n m).0 h)
same_target-eq (from_int n) (from_string t) h = cc h
same_target-eq (from_string s) (from_int m) h = cc h
same_target-eq (from_string s) (from_string t) h = ap from_string ((eq_iff s t).0 h)

same_port-eq : (p q : ServicePort) → same_port p q ≡ true → p ≡ q
same_port-eq p q h = ground (
  arith,
  eq_iff p.name q.name,
  same_target-eq p.target_port q.target_port,
  eq_iff p.protocol q.protocol,
  eq_iff p.rest q.rest,
)

same_ports-eq : (ps qs : List ServicePort) → same_ports ps qs ≡ true → ps ≡ qs
unfolding same_ports
same_ports-eq [] [] h = refl
same_ports-eq [] (q ∷ qs) h = cc h
same_ports-eq (p ∷ ps) [] h = cc h
same_ports-eq (p ∷ ps) (q ∷ qs) h = ground (arith, same_port-eq p q, same_ports-eq ps qs)

is_current_service-same :
    (s t : Service)
    → is_current_service s t ≡ true
    → (included s.selector t.selector ≡ true)
      × (included t.selector s.selector ≡ true)
      × (s.ports ≡ t.ports)
unfolding is_current_service
is_current_service-same s t h =
    (ground arith, ground arith, ground (arith, same_ports-eq s.ports t.ports))

module _ (c : Cluster) where
  -- The Service `<cluster>-doorman-rw` selects the Pods of the cluster's primary and nothing more
  -- narrow, and its one port sends what comes to 5432 to the port.
  pub record IsRouted (port : ℤ) (a : Api) : Type 0 where
    pub service : Service
    pub there : a.services c.namespace (c.name <> "-doorman-rw") ≡ some service
    pub selector :
        (key : String)
        → lookup key service.selector
          ≡ lookup key (("cnpg.io/cluster", c.name) ∷ ("cnpg.io/instanceRole", "primary") ∷ [])
    pub ports :
        service.ports
        ≡ record {
          name = "pooler";
          port = 5432;
          target_port = from_int port;
          protocol = "TCP";
          rest = "";
        }
          ∷ []

  Serves-IsRouted : (port : ℤ) (a : Api) → IsFreePort port → Serves c port a → IsRouted port a
  unfolding build_doorman_service
  Serves-IsRouted port a free (s, there, current) =
      let built = build_doorman_service c port in
      let (h, k, ports) = is_current_service-same s built current in
      record {
        service = s;
        there = there;
        selector = lookup-same s.selector built.selector h k;
        ports = rw (← to_int32-IsFreePort port free) ports;
      }

  -- Where the plugin is enabled, the PgDoorman of its configName is there and the hook tells the
  -- operator to go on, the PgDoorman belongs to the cluster, the legacy Role and RoleBinding are
  -- gone, and the Service `<cluster>-doorman-rw` is there: its selector has the cluster's name and
  -- the role of the primary and no other key, and its only port is 5432 over TCP and leads to the
  -- configured port of the pooler.
  pub pre-IsRouted :
      {Q : Type 0} (p : Parsers Q) (sidecar_image : String) (a : Api) (d : PgDoorman)
      → (new_from_cluster p sidecar_image c).enabled ≡ true
      → a.doormans c.namespace (new_from_cluster p sidecar_image c).config_name ≡ some d
      → (pre p sidecar_image (some "Cluster") (some c) a).0 ≡ ok proceed
      → let a' = (pre p sidecar_image (some "Cluster") (some c) a).1 in
        (d.spec.cluster_ref ≡ c.name)
        × NoRole c a'
        × NoRoleBinding c a'
        × IsRouted (new_from_cluster p sidecar_image c).pooler_port a'
  pre-IsRouted p sidecar_image a d on there h =
      let cfg = new_from_cluster p sidecar_image c in
      let a' = (pre p sidecar_image (some "Cluster") (some c) a).1 in
      let (own, served) = pre-IsServed c p sidecar_image a d on there h in
      let free = ((validate_iff p cfg).0 (pre-valid c p sidecar_image a on h)).pooler in
      (own, served.0.0, served.0.1, Serves-IsRouted cfg.pooler_port a' free served.1)
