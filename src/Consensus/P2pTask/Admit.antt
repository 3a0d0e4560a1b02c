-- ===== src/Consensus/P2pTask/Admit.antt =====
-- One message of a peer (wasm/consensus/src/tasks/p2p.rs).
use seda_rust.Base.{
  ℕ, ◌≡◌, refl, ap, subst, ◌∙◌, arith, Bool, true, false, not, ◌&&◌, none, some, List, [], ◌∷◌,
  ◌++◌, String, ◌==◌, bytes_eq, string_eq, if◌then◌else◌, map, All-append, Bool-cases, Option-cases,
  inl, inr, is_some, ==-eq, contains, NoDup, NoDup-append,
}
use seda_rust.Base.HashMap
use seda_rust.Consensus.Program.{
  Program, Outcome, returned, panicked, BatchSignatureStore, BatchMessage, Libraries,
  shared_memory_set,
}
use seda_rust.Consensus.Signatures.{batch_signature_store_key, get_or_create_batch_signature_store}
use seda_rust.Consensus.P2pTask.{collect, handle_batch}
use seda_rust.Consensus.P2pTask.Collect.{
  key_of, Represents, IsValid, Kept, AreSound, contains-entries, map-append,
}
use seda_rust.Consensus.P2pTask.Include.{included, stops, adds, addition, Represents-included}

module _ (l : Libraries) (sound : AreSound l) where
  -- A message whose points can be read and whose signature holds.
  abbrev pub verified : BatchMessage → Bool
  verified m = elim (l.signature_from_uncompressed m.signature) [
    | none ↦ false
    | some s ↦ elim (l.public_key_from_uncompressed m.bn254_public_key) [
      | none ↦ false
      | some k ↦ l.verify m.batch_header s k
    ]
  ]

  abbrev pub admit : List ℕ → List BatchMessage → BatchMessage → List BatchMessage
  admit header cs m =
      if m.batch_header == header && not (contains (map (key_of l) cs) (key_of l m)) && verified m
      then cs ++ m ∷ []
      else cs

  -- How the task ends: with the contributions given, or with a panic that changed nothing.
  abbrev pub Leaves : Program → List ℕ → List BatchMessage → Outcome (Unit {0}) → Type 0
  Leaves p header cs (returned u p') = Kept l p' header cs
  Leaves p header cs (panicked p') = p' ≡ p

  store_lem :
      (p : Program) (header : List ℕ) (cs : List BatchMessage) (v : Kept l p header cs)
      → get_or_create_batch_signature_store l batch_signature_store_key p ≡ returned v.store p
  unfolding get_or_create_batch_signature_store
  store_lem p header cs v = rw (v.written, v.decoded) refl

  NoDup-key_of :
      (cs : List BatchMessage) (m : BatchMessage)
      → NoDup (map (key_of l) cs)
      → contains (map (key_of l) cs) (key_of l m) ≡ false
      → NoDup (map (key_of l) (cs ++ m ∷ []))
  NoDup-key_of cs m n fresh =
      rw (map-append (key_of l) cs m) (NoDup-append (map (key_of l) cs) (key_of l m) n fresh)

  has_key :
      (header : List ℕ) (cs : List BatchMessage) (store : BatchSignatureStore) (k : String)
      → Represents l header cs store
      → HashMap.contains_key store.signatures k ≡ contains (map (key_of l) cs) k
  unfolding HashMap.contains_key
  has_key header cs store k r =
      ap (λ x. is_some (HashMap.get x k)) r.signatures_kept ∙ contains-entries l cs k

  collect-Leaves :
      (header : List ℕ) (cs : List BatchMessage) (m : BatchMessage) (s k : ℕ) (p : Program)
      → Kept l p header cs
      → l.signature_from_uncompressed m.signature ≡ some s
      → l.public_key_from_uncompressed m.bn254_public_key ≡ some k
      → l.verify m.batch_header s k ≡ true
      → Leaves p header (admit header cs m) (collect l m s k p)
  unfolding collect shared_memory_set
  collect-Leaves header cs m s k p v es ek valid =
      let r = v.represents in
      let stored = store_lem p header cs v in
      let known = has_key header cs v.store (key_of l m) r in
      let header_test : (m.batch_header == v.store.batch_header) ≡ (m.batch_header == header) =
        ap (λ x. m.batch_header == x) r.header_kept in
      let checked : verified m ≡ true = ground arith in
      elim (Bool-cases (m.batch_header == header)) [
        | inr other ↦ rw (stored, header_test, other) refl
        | inl same ↦ elim (Bool-cases (contains (map (key_of l) cs) (key_of l m))) [
          | inl old ↦ rw (stored, header_test, same, known, old) v
          | inr fresh ↦ elim (addition l v.store m s k p) [
            | stops e ↦ rw (stored, header_test, same, known, fresh, e) refl
            | adds t u signature keys a b c d e ↦
                rw (stored, header_test, same, known, fresh, e, checked)
                  (record {
                    bytes = l.store_to_json (included l v.store m signature keys);
                    store = included l v.store m signature keys;
                    written = refl;
                    decoded = sound.json (included l v.store m signature keys);
                    represents =
                        Represents-included l sound header cs v.store m s k t u signature keys r es
                          ek fresh a b c d;
                    valid = All-append (IsValid l header) cs (m ∷ []) v.valid (
                      (
                        ==-eq m.batch_header header same,
                        s,
                        k,
                        es,
                        ek,
                        subst (λ x. l.verify x s k ≡ true) (==-eq m.batch_header header same) valid,
                      ),
                      tt,
                    );
                    distinct = NoDup-key_of cs m v.distinct fresh;
                  })
          ]
        ]
      ]

  admit_invalid :
      (header : List ℕ) (cs : List BatchMessage) (m : BatchMessage)
      → verified m ≡ false
      → admit header cs m ≡ cs
  admit_invalid header cs m e = elim (Bool-cases (m.batch_header == header)) [
    | inr other ↦ rw other refl
    | inl same ↦ elim (Bool-cases (contains (map (key_of l) cs) (key_of l m))) [
      | inl old ↦ rw (same, old) refl
      | inr fresh ↦ rw (same, fresh, e) refl
    ]
  ]

  -- One message of a peer. If the task returns, the contributions are those before, with the message's
  -- at the end if it is for the batch of the store, from a public key that is not among them, and holds;
  -- otherwise it panics and changes nothing.
  pub handle_batch-Leaves :
      (header : List ℕ) (cs : List BatchMessage) (m : BatchMessage) (p : Program)
      → Kept l p header cs
      → Leaves p header (admit header cs m) (handle_batch l m p)
  unfolding handle_batch
  handle_batch-Leaves header cs m p v =
      elim (Option-cases (l.signature_from_uncompressed m.signature)) [
        | inl a ↦ rw a refl
        | inr (s, a) ↦ elim (Option-cases (l.public_key_from_uncompressed m.bn254_public_key)) [
          | inl b ↦ rw (a, b) refl
          | inr (k, b) ↦ elim (Bool-cases (l.verify m.batch_header s k)) [
            | inr c ↦
                let invalid : verified m ≡ false = ground arith in
                rw (admit_invalid header cs m invalid, a, b, c) v
            | inl c ↦ rw (a, b, c) (collect-Leaves header cs m s k p v a b c)
          ]
        ]
      ]
