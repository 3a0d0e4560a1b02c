-- ===== src/Config/Node/Forgets.antt =====
-- A node whose key file is not there yet (config/src/configs/node.rs).
use seda_rust.Base.{
  ℕ, ◌≡◌, ◌≢◌, refl, sym, ap, subst, ◌∙◌, Bool, true, false, none, List, String, is_some, string_eq,
  if◌then◌else◌, put, Bool-cases, inl, inr, ne-==,
}
use seda_rust.Config.System.{
  System, Files, Result, ok, err, panic, ConfigError, and_then, merge_config_cli,
  must_provide_field,
}
use seda_rust.Config.Keys.{Libraries, MasterKey, write_to_path, derive_ed25519, derive_bn254}
use seda_rust.Config.Node.{
  PartialNodeConfig, NodeConfig, default_job_manager_interval_ms, default_runtime_worker_threads,
  seda_secret_key_path, load_master_key, with_keys, to_config,
}
use seda_rust.Config.Node.Restart.{later, given_key, key_path, to_config-returned}

and_then-ok :
    {A B : Type 0} (r : Result A) (f : A → Result B) (b : B)
    → and_then r f ≡ ok b
    → (a : A) × (r ≡ ok a) × (f a ≡ ok b)
and_then-ok (ok a) f b h = (a, refl, h)
and_then-ok (err e) f b h = cc
and_then-ok panic f b h = cc

unless-ok :
    {A : Type 0} (t : Bool) (e : ConfigError) (a b : A) → (if t then err e else ok a) ≡ ok b → a ≡ b
unless-ok true e a b h = cc
unless-ok false e a b h = ap (λ r. elim r [ ok x ↦ x | err _ ↦ a | panic ↦ a ]) h

-- Both pairs of keys of a configuration are derived from a master key.
abbrev pub MadeFrom : Libraries → MasterKey → NodeConfig → Type 0
MadeFrom l key config =
    (derive_ed25519 l key 0 ≡ ok config.keypair_ed25519)
    × (derive_bn254 l key 0 ≡ ok config.keypair_bn254)

module _ (l : Libraries) (sys : System) where
  with_keys-pairs :
      (self cli_options : PartialNodeConfig) (deposit gas : ℕ) (key : MasterKey)
      (config : NodeConfig)
      → with_keys l sys self cli_options deposit gas key ≡ ok config
      → MadeFrom l key config
  unfolding with_keys
  with_keys-pairs self cli_options deposit gas key config h =
      let (ed25519, a, h1) = and_then-ok (derive_ed25519 l key 0) _ config h in
      let (bn254, b, h2) = and_then-ok (derive_bn254 l key 0) _ config h1 in
      let (account, c, h3) =
        and_then-ok
          (merge_config_cli self.contract_account_id cli_options.contract_account_id
            (err (must_provide_field "node.contract_account_id")) ok)
          _ config h2 in
      let (interval, d, h4) =
        and_then-ok
          (merge_config_cli self.job_manager_interval_ms cli_options.job_manager_interval_ms
            (ok default_job_manager_interval_ms) ok)
          _ config h3 in
      let (threads, e, h5) =
        and_then-ok
          (merge_config_cli self.runtime_worker_threads cli_options.runtime_worker_threads
            (ok default_runtime_worker_threads) ok)
          _ config h4 in
      let (path, f, h6) =
        and_then-ok
          (merge_config_cli self.consensus_wasm_path cli_options.consensus_wasm_path
            (ok sys.consensus_wasm_path) ok)
          _ config h5 in
      let same = unless-ok _ _ _ config h6 in
      (
        a ∙ ap (λ (x : NodeConfig). ok x.keypair_ed25519) same,
        b ∙ ap (λ (x : NodeConfig). ok x.keypair_bn254) same,
      )

  load_new :
      (path : String) (files : Files) (key : MasterKey) (files' : Files)
      → is_some (files path) ≡ false
      → load_master_key l sys none path files ≡ (ok key, files')
      → (record { seed = sys.random } ≡ key)
        × (put files seda_secret_key_path (l.hex_encode sys.random) ≡ files')
  unfolding load_master_key write_to_path
  load_new path files key files' missing h = elim (Bool-cases (sys.writable seda_secret_key_path)) [
    | inr fixed ↦ absurd (cc (rw (missing, fixed) at h))
    | inl writable ↦
        let done = rw (missing, writable) at h in
        (
          ap (λ (x : Result MasterKey × Files). elim x.0 [ ok k ↦ k | err _ ↦ key | panic ↦ key ])
              done,
          ap (λ (x : Result MasterKey × Files). x.1) done,
        )
  ]

  other_path :
      (path text : String) (files : Files)
      → path ≢ seda_secret_key_path
      → is_some (files path) ≡ false
      → is_some (put files seda_secret_key_path text path) ≡ false
  other_path path text files other missing =
      rw (ne-== seda_secret_key_path path (λ e. other (sym e)), missing) refl

  -- The keys of a start that found no key and no file.
  to_config-new :
      (self cli_options : PartialNodeConfig) (path : String) (files : Files) (config : NodeConfig)
      (files' : Files)
      → key_path l sys self cli_options ≡ ok path
      → given_key l sys self cli_options ≡ none
      → is_some (files path) ≡ false
      → to_config l sys self cli_options files ≡ (ok config, files')
      → MadeFrom l (record { seed = sys.random }) config
        × (put files seda_secret_key_path (l.hex_encode sys.random) ≡ files')
  to_config-new self cli_options path files config files' chosen free missing h =
      let (deposit, gas, key, a, b, d, e) =
        to_config-returned l sys self cli_options path files config files' chosen h in
      let (is_new, written) = load_new path files key files' missing (rw free at d) in
      (
        subst (λ k. MadeFrom l k config) (sym is_new)
            (with_keys-pairs self cli_options deposit gas key config e),
        written,
      )

module _ (l : Libraries) (sys : System) where
  -- With a path for the key at which there is no file, and which does not name the file of the default
  -- path, and no key among the options, a start writes its new key to the default path and nothing else:
  -- a start with the same options finds no file at its path again, derives both pairs of keys from
  -- whatever the generator gives then, and writes that over the first key. Paths are told apart by their
  -- texts, so that different texts are assumed to name different files.
  pub to_config-forgets :
      (self cli_options : PartialNodeConfig) (path : String) (bytes : List ℕ) (files : Files)
      (config config₂ : NodeConfig) (files' files₂ : Files)
      → key_path l sys self cli_options ≡ ok path
      → given_key l sys self cli_options ≡ none
      → is_some (files path) ≡ false
      → path ≢ seda_secret_key_path
      → to_config l sys self cli_options files ≡ (ok config, files')
      → to_config l (later sys bytes) self cli_options files' ≡ (ok config₂, files₂)
      → MadeFrom l (record { seed = sys.random }) config
        × MadeFrom l (record { seed = bytes }) config₂
        × (files' ≡ put files seda_secret_key_path (l.hex_encode sys.random))
        × (files₂ ≡ put files' seda_secret_key_path (l.hex_encode bytes))
        × (is_some (files' path) ≡ false)
  to_config-forgets self cli_options path bytes files config config₂ files' files₂ chosen free
        missing other h h₂ =
      let (first, written) =
        to_config-new l sys self cli_options path files config files' chosen free missing h in
      let missing' =
        subst (λ (x : Files). is_some (x path) ≡ false) written
          (other_path l sys path (l.hex_encode sys.random) files other missing) in
      let (second, rewritten) =
        to_config-new l (later sys bytes) self cli_options path files' config₂ files₂ chosen free
          missing' h₂ in
      (first, second, sym written, sym rewritten, missing')
