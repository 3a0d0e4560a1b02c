-- ===== src/Consensus/P2pTask/History.antt =====
-- Any sequence of messages of peers (wasm/consensus/src/tasks/p2p.rs), each handled in a run of its own
-- over the memory that the runs share.
use seda_rust.Base.{
  ℕ, ◌≡◌, refl, sym, ap, subst, not, ◌&&◌, List, [], ◌∷◌, ◌++◌, ◌==◌, bytes_eq, string_eq, map,
  Bool-cases, ◌⊎◌, inl, inr, contains,
}
use seda_rust.Consensus.Program.{
  Program, Outcome, returned, panicked, BatchMessage, Libraries, left,
}
use seda_rust.Consensus.P2pTask.{handle_batch}
use seda_rust.Consensus.P2pTask.Collect.{key_of, Kept, AreSound}
use seda_rust.Consensus.P2pTask.Admit.{verified, admit, Leaves, handle_batch-Leaves}

unfoldable pub handle_all : Libraries → List BatchMessage → Program → Program
handle_all l [] p = p
handle_all l (m ∷ ms) p = handle_all l ms (left (handle_batch l m p))

-- Some of the messages, in their order.
pub data Picked : List BatchMessage → List BatchMessage → Type 0 where
  done : Picked [] []
  passed : (m : BatchMessage) {cs ms : List BatchMessage} → Picked cs ms → Picked cs (m ∷ ms)
  picked : (m : BatchMessage) {cs ms : List BatchMessage} → Picked cs ms → Picked (m ∷ cs) (m ∷ ms)

append-nil : (cs : List BatchMessage) → cs ++ [] ≡ cs
append-nil [] = refl
append-nil (c ∷ cs) = ap (λ r. c ∷ r) (append-nil cs)

append_one :
    (cs : List BatchMessage) (m : BatchMessage) (more : List BatchMessage)
    → (cs ++ m ∷ []) ++ more ≡ cs ++ m ∷ more
append_one [] m more = refl
append_one (c ∷ cs) m more = ap (λ r. c ∷ r) (append_one cs m more)

module _ (l : Libraries) (sound : AreSound l) where
  admit-cases :
      (header : List ℕ) (cs : List BatchMessage) (m : BatchMessage)
      → (admit l sound header cs m ≡ cs) ⊎ (admit l sound header cs m ≡ cs ++ m ∷ [])
  admit-cases header cs m =
      elim (Bool-cases (
        m.batch_header == header
        && not (contains (map (key_of l) cs) (key_of l m))
        && verified l sound m)) [ inl e ↦ inr (rw e refl) | inr e ↦ inl (rw e refl) ]

  left-Kept :
      (header : List ℕ) (cs cs' : List BatchMessage) (p : Program) (o : Outcome (Unit {0}))
      → Kept l p header cs
      → Leaves l sound p header cs' o
      → Kept l (left o) header cs ⊎ Kept l (left o) header cs'
  left-Kept header cs cs' p (returned u p') v h = inr h
  left-Kept header cs cs' p (panicked p') v h = inl (subst (λ x. Kept l x header cs) (sym h) v)

  -- Over any messages of peers, forged, repeated or malformed ones among them, the contributions that
  -- were kept stay, and those added are some of the messages in their order: every kept signature holds
  -- for the batch under its public key, no key has two, and the stored signers, signatures and aggregates
  -- are those of the contributions. JSON and points are assumed to be read back as they were written.
  pub handle_all-Kept :
      (ms : List BatchMessage) (header : List ℕ) (cs : List BatchMessage) (p : Program)
      → Kept l p header cs
      → (more : List BatchMessage) × Picked more ms × Kept l (handle_all l ms p) header (cs ++ more)
  unfolding handle_all
  handle_all-Kept [] header cs p v = ([], done, rw (append-nil cs) v)
  handle_all-Kept (m ∷ ms) header cs p v =
      let o = handle_batch l m p in
      let rest : Kept l (left o) header cs
          → (more : List BatchMessage) × Picked more (m ∷ ms)
            × Kept l (handle_all l ms (left o)) header (cs ++ more) =
        λ w.
          let (more, some_of, kept) = handle_all-Kept ms header cs (left o) w in
          (more, passed m some_of, kept) in
      elim (left-Kept header cs (admit l sound header cs m) p o v
        (handle_batch-Leaves l sound header cs m p v)) [
          | inl same ↦ rest same
          | inr new ↦ elim (admit-cases header cs m) [
            | inl e ↦ rest (subst (Kept l (left o) header) e new)
            | inr e ↦
                let (more, some_of, kept) =
                  handle_all-Kept ms header (cs ++ m ∷ []) (left o)
                    (subst (Kept l (left o) header) e new) in
                (
                  m ∷ more,
                  picked m some_of,
                  subst (Kept l (handle_all l ms (left o)) header) (append_one cs m more) kept,
                )
          ]
        ]
