-- ===== src/Config/App/Fresh.antt =====
-- A configuration file that was made from the template (config/src/config.rs).
use seda_rust.Base.{
  ◌^◌, ◌≡◌, refl, sym, ap, ◌∙◌, true, none, some, String, string_eq, put, put_self, Bool-cases,
  Option-cases, inl, inr,
}
use seda_rust.Config.System.{
  System, Files, Result, ok, err, panic, bind, lift, and_then, env_overwrite, parse_unsigned,
}
use seda_rust.Config.App.{
  Toml, template, overwrite_from_env, from_read, read_from_path, write_template,
  create_template_from_path, write_over,
}
use seda_rust.Config.P2P
use seda_rust.Config.P2P.{PartialP2PConfig, P2PConfigInner, to_config-template}

bind-and_then :
    {A B : Type 0} (r : Result A) (f : A → Result B) (files : Files)
    → bind (r, files) (λ a. lift (f a)) ≡ (and_then r f, files)
bind-and_then (ok a) f files = refl
bind-and_then (err e) f files = refl
bind-and_then panic f files = refl

module _ (toml : Toml) (sys : System) where
  -- What toml documents: the template is read back as it was written.
  abbrev pub ReadsBack : Type 0
  ReadsBack =
      (content : String)
      → toml.to_string_pretty (template sys) ≡ some content
      → toml.from_str content ≡ some (template sys)

  overwrite-p2p :
      (cli_options : PartialP2PConfig)
      → and_then (overwrite_from_env sys (template sys)) (λ c. P2P.to_config c.p2p cli_options)
        ≡ and_then
            (overwrite_from_env sys (template sys))
            (λ c. P2P.to_config P2P.default cli_options)
  unfolding overwrite_from_env template P2P.template env_overwrite
  overwrite-p2p cli_options = elim (Option-cases (sys.env_var "SEDA_SERVER_PORT")) [
    | inl absent ↦
        rw (and_then, overwrite_from_env, env_overwrite, absent) (to_config-template cli_options)
    | inr (var, given) ↦ elim (Option-cases (parse_unsigned (2 ^ 64) var)) [
      | inl malformed ↦ rw (and_then, overwrite_from_env, env_overwrite, given, malformed) refl
      | inr (port, parsed) ↦
          rw (and_then, overwrite_from_env, env_overwrite, given, parsed)
            (to_config-template cli_options)
    ]
  ]

  write_over-empty : (content : String) → write_over content "" ≡ content
  unfolding write_over
  write_over-empty String.[] = refl
  write_over-empty (String.◌∷◌ c content) = refl

  written-template :
      (path : String) (files files' : Files)
      → files path ≡ none
      → create_template_from_path toml sys path files ≡ (ok tt, files')
      → (content : String) × (toml.to_string_pretty (template sys) ≡ some content)
        × (files' path ≡ some content)
  unfolding create_template_from_path write_template write_over
  written-template path files files' new h = elim (Bool-cases (sys.writable path)) [
    | inr fixed ↦ absurd (cc (rw (new, fixed) at h))
    | inl writable ↦ elim (Option-cases (toml.to_string_pretty (template sys))) [
      | inl none' ↦ absurd (cc (rw (new, writable, none') at h))
      | inr (content, shown) ↦
          let after =
            ap (λ (x : Result (Unit {0}) × Files). x.1) (rw (new, writable, shown) at h) in
          (
            content,
            shown,
            sym (ap (λ f. f path) after)
                ∙ put_self (put files path "") path (write_over content "")
                ∙ ap some (write_over-empty content),
          )
    ]
  ]

  read-template :
      (path : String) (files files' : Files)
      → ReadsBack
      → sys.readable path ≡ true
      → files path ≡ none
      → create_template_from_path toml sys path files ≡ (ok tt, files')
      → read_from_path toml sys path files' ≡ (overwrite_from_env sys (template sys), files')
  unfolding read_from_path from_read
  read-template path files files' sound readable new h =
      let (content, shown, found) = written-template path files files' new h in
      rw (read_from_path, found, readable, from_read, sound content shown) refl

  -- A file that was made from the template where there was none, and that may be read, is read back, and
  -- leaves the peer-to-peer server the options that it has without a file, whatever the command line
  -- gives. Reading fails only if the environment gives a port that is no number. toml is assumed to read the template back as it wrote it.
  pub create-read_from_path :
      (path : String) (cli_options : PartialP2PConfig) (files files' : Files)
      → ReadsBack
      → sys.readable path ≡ true
      → files path ≡ none
      → create_template_from_path toml sys path files ≡ (ok tt, files')
      → bind (read_from_path toml sys path files') (λ c. lift (P2P.to_config c.p2p cli_options)) ≡ (
        and_then
            (overwrite_from_env sys (template sys))
            (λ c. P2P.to_config P2P.default cli_options),
        files',
      )
  create-read_from_path path cli_options files files' sound readable new h =
      ap (λ o. bind o (λ c. lift (P2P.to_config c.p2p cli_options)))
        (read-template path files files' sound readable new h)
      ∙ bind-and_then (overwrite_from_env sys (template sys)) (λ c. P2P.to_config c.p2p cli_options)
          files'
      ∙ ap (λ r. (r, files')) (overwrite-p2p cli_options)
