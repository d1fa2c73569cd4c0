-- ===== src/Config/Validate.antt =====
-- weather-core/conf/src/validate.rs: which changes of the configuration need a restart.
use weather_app.Common.{
  Bool, not, List, [], ◌∷◌, ◌++◌, Option, ℕ, ◌≡◌, ◌≢◌, ◌↔◌, refl, ap, sym, ◌∙◌, Bool-cases, inl,
  inr, false≢true, if◌then◌else◌, ◌==◌, ==_iff, Key, nat_eq, list_eq, pair_eq, bool_eq, option_eq,
  key_by,
}
use weather_app.Common.Text.{Text, text}
use weather_app.Config.{
  EngineConfig, IpcConfig, DbConfig, NetworkConfig, ProviderNetworkConfig, ProviderConfig,
  AppConfig,
}

-- The derived `PartialEq` of each record: its fields one by one.
abbrev pub EngineConfigFields : Type 0
EngineConfigFields = ℕ × (ℕ × (Text × Text))

abbrev engine_fields : EngineConfig → EngineConfigFields
engine_fields c = (c.request_timeout_ms, (c.startup_timeout_ms, (c.lock_path, c.log_level)))

abbrev engine_of : EngineConfigFields → EngineConfig
engine_of f = record {
  request_timeout_ms = f.0;
  startup_timeout_ms = f.1.0;
  lock_path = f.1.1.0;
  log_level = f.1.1.1;
}

instance abbrev pub engine_eq : Key EngineConfig
engine_eq = key_by engine_fields engine_of (λ c. refl)

abbrev pub IpcConfigFields : Type 0
IpcConfigFields = Text × (Text × (Text × (Text × Text)))

abbrev ipc_fields : IpcConfig → IpcConfigFields
ipc_fields c = (c.rpc_endpoint, (c.pub_endpoint, (c.hmac, (c.hmac_key, c.hmac_env_key_name))))

abbrev ipc_of : IpcConfigFields → IpcConfig
ipc_of f = record {
  rpc_endpoint = f.0;
  pub_endpoint = f.1.0;
  hmac = f.1.1.0;
  hmac_key = f.1.1.1.0;
  hmac_env_key_name = f.1.1.1.1;
}

instance abbrev pub ipc_eq : Key IpcConfig
ipc_eq = key_by ipc_fields ipc_of (λ c. refl)

abbrev pub DbConfigFields : Type 0
DbConfigFields = Text × Text

abbrev db_fields : DbConfig → DbConfigFields
db_fields c = (c.path, c.timezone)

abbrev db_of : DbConfigFields → DbConfig
db_of f = record { path = f.0; timezone = f.1 }

instance abbrev pub db_eq : Key DbConfig
db_eq = key_by db_fields db_of (λ c. refl)

abbrev pub NetworkConfigFields : Type 0
NetworkConfigFields = Option Text × (Option Text × (Option Text × (Option Text × Bool)))

abbrev network_fields : NetworkConfig → NetworkConfigFields
network_fields c = (c.http_proxy, (c.https_proxy, (c.no_proxy, (c.all_proxy, c.allow_insecure))))

abbrev network_of : NetworkConfigFields → NetworkConfig
network_of f = record {
  http_proxy = f.0;
  https_proxy = f.1.0;
  no_proxy = f.1.1.0;
  all_proxy = f.1.1.1.0;
  allow_insecure = f.1.1.1.1;
}

instance abbrev pub network_eq : Key NetworkConfig
network_eq = key_by network_fields network_of (λ c. refl)

abbrev pub ProviderNetworkConfigFields : Type 0
ProviderNetworkConfigFields =
    Option Text × (Option Text × (Option Text × (Option Text × Option Bool)))

abbrev provider_network_fields : ProviderNetworkConfig → ProviderNetworkConfigFields
provider_network_fields c =
    (c.http_proxy, (c.https_proxy, (c.no_proxy, (c.all_proxy, c.allow_insecure))))

abbrev provider_network_of : ProviderNetworkConfigFields → ProviderNetworkConfig
provider_network_of f = record {
  http_proxy = f.0;
  https_proxy = f.1.0;
  no_proxy = f.1.1.0;
  all_proxy = f.1.1.1.0;
  allow_insecure = f.1.1.1.1;
}

instance abbrev pub provider_network_eq : Key ProviderNetworkConfig
provider_network_eq = key_by provider_network_fields provider_network_of (λ c. refl)

abbrev pub ProviderConfigFields : Type 0
ProviderConfigFields = Text × (Text × (ℕ × ProviderNetworkConfig))

abbrev provider_fields : ProviderConfig → ProviderConfigFields
provider_fields c = (c.name, (c.base_url, (c.request_timeout_seconds, c.network)))

abbrev provider_of : ProviderConfigFields → ProviderConfig
provider_of f = record {
  name = f.0;
  base_url = f.1.0;
  request_timeout_seconds = f.1.1.0;
  network = f.1.1.1;
}

instance abbrev pub provider_eq : Key ProviderConfig
provider_eq = key_by provider_fields provider_of (λ c. refl)

abbrev pub field_if : Bool → Text → List Text
field_if changed name = if changed then name ∷ [] else []

unfoldable pub restart_required_fields : AppConfig → AppConfig → List Text
restart_required_fields current new =
    field_if (not (current.engine == new.engine)) (text "engine")
    ++ (field_if (not (current.ipc == new.ipc)) (text "ipc")
        ++ (field_if (not (current.db == new.db)) (text "db")
            ++ (field_if (not (current.updater.default_provider == new.updater.default_provider))
                  (text "updater.default_provider")
                ++ (field_if (not (current.updater.network == new.updater.network))
                      (text "updater.network")
                    ++ field_if (not (current.updater.provider == new.updater.provider))
                        (text "updater.provider")))))

cons≢nil : {x : Text} {xs : List Text} → x ∷ xs ≢ []
cons≢nil h = cc

append_nil : (xs : List Text) → xs ++ [] ≡ xs
append_nil [] = refl
append_nil (x ∷ xs) = ap (λ r. x ∷ r) (append_nil xs)

-- One more field in front of the fields that follow.
field_if_iff {ℓ} :
    {A : Type ℓ} ⦃e : Key A⦄ (a b : A) (name : Text) (rest : List Text)
    → (field_if (not (a == b)) name ++ rest ≡ []) ↔ ((a ≡ b) × (rest ≡ []))
field_if_iff a b name rest = elim (Bool-cases (a == b)) [
  | inl same ↦ rw same (λ h. ((==_iff a b).0 same, h), λ h. h.1)
  | inr changed ↦
      rw changed
        (λ h. absurd (cons≢nil h), λ h. absurd (false≢true (sym changed ∙ (==_iff a b).1 h.0)))
]

-- No field needs a restart exactly if the two configurations differ at most in the version, the two
-- TTLs and the stations.
pub restart_required_fields_iff :
    (current new : AppConfig)
    → (restart_required_fields current new ≡ []) ↔ (
        (current.engine ≡ new.engine)
        × (current.ipc ≡ new.ipc)
        × (current.db ≡ new.db)
        × (current.updater.default_provider ≡ new.updater.default_provider)
        × (current.updater.network ≡ new.updater.network)
        × (current.updater.provider ≡ new.updater.provider))
unfolding restart_required_fields
restart_required_fields_iff current new =
    let engine = field_if_iff current.engine new.engine (text "engine") _ in
    let ipc = field_if_iff current.ipc new.ipc (text "ipc") _ in
    let db = field_if_iff current.db new.db (text "db") _ in
    let default_provider =
      field_if_iff current.updater.default_provider new.updater.default_provider
        (text "updater.default_provider") _ in
    let network =
      field_if_iff current.updater.network new.updater.network (text "updater.network") _ in
    let provider =
      field_if_iff current.updater.provider new.updater.provider (text "updater.provider") [] in
    (
      λ h.
          let (e, h1) = engine.0 h in
          let (i, h2) = ipc.0 h1 in
          let (d, h3) = db.0 h2 in
          let (p, h4) = default_provider.0 h3 in
          let (n, h5) = network.0 h4 in (e, i, d, p, n, (provider.0 (append_nil _ ∙ h5)).0),
      λ (e, i, d, p, n, v). engine.1 (
        e,
        ipc.1 (
          i,
          db.1
              (d, default_provider.1 (p, network.1 (n, sym (append_nil _) ∙ provider.1 (v, refl)))),
        ),
      ),
    )
