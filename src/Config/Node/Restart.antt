-- ===== src/Config/Node/Restart.antt =====
-- A node that is started again with the same options (config/src/configs/node.rs, crypto/src).
use seda_rust.Base.{
  ℕ, ◌^◌, ◌≡◌, ◌≢◌, refl, sym, ap, subst, ◌∙◌, true, false, Option, none, some, List, String,
  length, is_some, string_eq, put, ◌⊎◌, inl, inr, Bool-cases, Option-cases,
}
use seda_rust.Config.System.{
  System, Files, Result, ok, err, panic, Run, bind, lift, unwrap, merge_config_cli, merge_option,
  parse_unsigned,
}
use seda_rust.Config.Keys.{Libraries, MasterKey, try_from, read_from_path, write_to_path}
use seda_rust.Config.Node.{
  PartialNodeConfig, NodeConfig, default_deposit, default_gas, seda_secret_key_path,
  load_master_key, with_keys, to_config,
}

-- The same system, whose generator gives other bytes.
abbrev pub later : System → List ℕ → System
later sys bytes = record sys { random = bytes }

module _ {A B : Type 0} where
  lift-returned :
      (r : Result A) (f : A → Run B) (files : Files) (b : B) (files' : Files)
      → bind (lift r files) f ≡ (ok b, files')
      → (a : A) × (r ≡ ok a) × (f a files ≡ (ok b, files'))
  lift-returned (ok a) f files b files' h = (a, refl, h)
  lift-returned (err e) f files b files' h = cc
  lift-returned panic f files b files' h = cc

  bind-returned :
      (o : Result A × Files) (f : A → Run B) (b : B) (files' : Files)
      → bind o f ≡ (ok b, files')
      → (a : A) × (files₁ : Files) × (o ≡ (ok a, files₁)) × (f a files₁ ≡ (ok b, files'))
  bind-returned (ok a, files₁) f b files' h = (a, files₁, refl, h)
  bind-returned (err e, files₁) f b files' h = cc
  bind-returned (panic, files₁) f b files' h = cc

module _ (l : Libraries) (sys : System) where
  with_keys-later :
      (self cli_options : PartialNodeConfig) (deposit gas : ℕ) (key : MasterKey) (bytes : List ℕ)
      → with_keys l (later sys bytes) self cli_options deposit gas key
        ≡ with_keys l sys self cli_options deposit gas key
  unfolding with_keys
  with_keys-later self cli_options deposit gas key bytes = refl

  -- A key is kept if it is given, or was in the file, or if the file is the default one.
  abbrev pub Keeps : Option String → String → Files → Type 0
  Keeps given path files =
      (given ≢ none) ⊎ ((is_some (files path) ≡ true) ⊎ (path ≡ seda_secret_key_path))

  -- What bytes and digits document.
  pub record IsHex : Type 0 where
    pub decode-encode : (bytes : List ℕ) → l.hex_decode (l.hex_encode bytes) ≡ some bytes

  read_from_path-files :
      (path : String) (files : Files) (key : MasterKey) (files' : Files)
      → read_from_path l sys path files ≡ (ok key, files')
      → files' ≡ files
  unfolding read_from_path
  read_from_path-files path files key files' h = elim (Option-cases (files path)) [
    | inl missing ↦ absurd (cc (rw (read_from_path, missing) at h))
    | inr (hex, found) ↦ elim (Bool-cases (sys.readable path)) [
      | inr hidden ↦ absurd (cc (rw (read_from_path, found, hidden) at h))
      | inl shown ↦
          sym (ap (λ (x : Result MasterKey × Files). x.1) (rw (read_from_path, found, shown) at h))
    ]
  ]

  -- The options for the key, as they are merged.
  abbrev pub given_key : PartialNodeConfig → PartialNodeConfig → Option String
  given_key self cli_options = merge_option self.master_key cli_options.master_key

  abbrev pub key_path : PartialNodeConfig → PartialNodeConfig → Result String
  key_path self cli_options =
      merge_config_cli self.seda_sk_file_path cli_options.seda_sk_file_path
        (ok seda_secret_key_path) ok

  -- A start that succeeded merged a deposit, a gas and a path, and loaded a key, which it derived from.
  pub to_config-returned :
      (self cli_options : PartialNodeConfig) (path : String) (files : Files) (config : NodeConfig)
      (files' : Files)
      → key_path self cli_options ≡ ok path
      → to_config l sys self cli_options files ≡ (ok config, files')
      → (deposit gas : ℕ) × (key : MasterKey) × (merge_config_cli self.deposit cli_options.deposit
            (ok default_deposit)
            (λ f. unwrap (parse_unsigned (2 ^ 128) f))
          ≡ ok deposit)
        × (merge_config_cli self.gas cli_options.gas (ok default_gas) ok ≡ ok gas)
        × (load_master_key l sys (given_key self cli_options) path files ≡ (ok key, files'))
        × (with_keys l sys self cli_options deposit gas key ≡ ok config)
  unfolding to_config
  to_config-returned self cli_options path files config files' chosen h =
      let (deposit, a, h1) =
        lift-returned
          (merge_config_cli self.deposit cli_options.deposit (ok default_deposit)
            (λ f. unwrap (parse_unsigned (2 ^ 128) f)))
          _ files config files' h in
      let (gas, b, h2) =
        lift-returned (merge_config_cli self.gas cli_options.gas (ok default_gas) ok) _ files config
          files' h1 in
      let (key, files₁, d, h4) =
        bind-returned (load_master_key l sys (given_key self cli_options) path files) _ config
          files' (rw chosen at h2) in
      let same = ap (λ (x : Result NodeConfig × Files). x.1) h4 in
      (
        deposit,
        gas,
        key,
        a,
        b,
        subst (λ x. load_master_key l sys (given_key self cli_options) path files ≡ (ok key, x))
            same d,
        ap (λ (x : Result NodeConfig × Files). x.0) h4,
      )

  module _ (hex : IsHex) (readable : sys.readable seda_secret_key_path ≡ true)
      (length_of : length sys.random ≡ 32) where
    is_default :
        (path : String) (files : Files)
        → Keeps none path files
        → is_some (files path) ≡ false
        → path ≡ seda_secret_key_path
    is_default path files (inl given) missing = absurd (given refl)
    is_default path files (inr (inl found)) missing = absurd (cc (sym found ∙ missing))
    is_default path files (inr (inr default)) missing = default

    load_again :
        (given : Option String) (path : String) (bytes : List ℕ) (files : Files) (key : MasterKey)
        (files' : Files)
        → load_master_key l sys given path files ≡ (ok key, files')
        → Keeps given path files
        → load_master_key l (later sys bytes) given path files' ≡ (ok key, files')
    unfolding load_master_key read_from_path write_to_path try_from
    load_again (some hex_string) path bytes files key files' h k =
        let same : files' ≡ files = sym (ap (λ (x : Result MasterKey × Files). x.1) h) in
        ap (λ r. (r, files')) (ap (λ (x : Result MasterKey × Files). x.0) h)
    load_again none path bytes files key files' h k = elim (Bool-cases (is_some (files path))) [
      | inl found ↦
          let read = rw found at h in
          let same = read_from_path-files path files key files' read in
          subst (λ x. load_master_key l (later sys bytes) none path x ≡ (ok key, x)) (sym same)
            (rw found (subst (λ x. read_from_path l sys path files ≡ (ok key, x)) same read))
      | inr missing ↦ elim (Bool-cases (sys.writable seda_secret_key_path)) [
        | inr fixed ↦ absurd (cc (rw (missing, fixed) at h))
        | inl writable ↦
            let fresh : MasterKey = record { seed = sys.random } in
            let written = put files seda_secret_key_path (l.hex_encode sys.random) in
            subst
              (λ (x : Result MasterKey × Files).
                load_master_key l (later sys bytes) none path x.1 ≡ x)
              (rw (missing, writable) at h)
              (subst (λ p. load_master_key l (later sys bytes) none p written ≡ (ok fresh, written))
                (sym (is_default path files k missing))
                (rw (readable, try_from, hex.decode-encode sys.random, length_of) refl))
      ]
    ]

    -- A start with the same options finds the same keys, whatever the generator gives next, and changes no
    -- file, if the first start was given the key, found a file for it, or uses the default file. Digits
    -- are assumed to be read back as bytes.
    pub to_config-again :
        (self cli_options : PartialNodeConfig) (path : String) (bytes : List ℕ) (files : Files)
        (config : NodeConfig) (files' : Files)
        → key_path self cli_options ≡ ok path
        → Keeps (given_key self cli_options) path files
        → to_config l sys self cli_options files ≡ (ok config, files')
        → to_config l (later sys bytes) self cli_options files' ≡ (ok config, files')
    unfolding to_config
    to_config-again self cli_options path bytes files config files' chosen k h =
        let (deposit, gas, key, a, b, d, e) =
          to_config-returned self cli_options path files config files' chosen h in
        rw
          (
            a,
            b,
            chosen,
            load_again (given_key self cli_options) path bytes files key files' d k,
            with_keys-later self cli_options deposit gas key bytes,
            e,
          )
          refl
