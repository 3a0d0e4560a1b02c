-- ===== src/Contract/Verify.antt =====
-- contracts/src/verify.rs: the pairing check of a BN254 signature, by the host.
use seda_rust.Base.{Bool, eqb}
use seda_rust.Contract.State.{Env, Bytes}
use seda_rust.Contract.Results.{Result, ok, unwrap_none, expect, ◌>>=◌}

unfoldable pub bn254_verify : Env → Bytes → Bytes → Bytes → Result Bool
bn254_verify env message signature public_key = do
  vals ← expect (env.format_pairing message signature public_key) unwrap_none
  ok (eqb (env.alt_bn128_pairing_check vals) 1)
