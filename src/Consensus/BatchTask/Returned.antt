-- ===== src/Consensus/BatchTask/Returned.antt =====
-- Inversion of runs that returned (wasm/consensus/src/tasks/batch.rs).
use seda_rust.Base.{ℕ, ◌≡◌, refl, ap, Option, none, some, List, bytes_eq, nat_eq, string_eq}
use seda_rust.Runtime.Promises.{PromiseStatus, fulfilled, rejected, unfulfilled, pending}
use seda_rust.Consensus.Program.{Program, Outcome, returned, panicked, Run, bind, expect, left}
use seda_rust.Consensus.BatchTask.{bytes_of}

module _ {A B : Type 0} where
  -- Inversion of a run that returned.
  pub bind-returned :
      (o : Outcome A) (f : A → Run B) (b : B) (p' : Program)
      → bind o f ≡ returned b p'
      → (a : A) × (p₁ : Program) × (o ≡ returned a p₁) × (f a p₁ ≡ returned b p')
  bind-returned (returned a p₁) f b p' h = (a, p₁, refl, h)
  bind-returned (panicked p₁) f b p' h = cc

  pub expect-returned :
      (o : Option A) (f : A → Run B) (p : Program) (b : B) (p' : Program)
      → bind (expect o p) f ≡ returned b p'
      → (a : A) × (o ≡ some a) × (f a p ≡ returned b p')
  expect-returned (some a) f p b p' h = (a, refl, h)
  expect-returned none f p b p' h = cc

pub bytes_of-returned :
    {B : Type 0} (status : PromiseStatus) (f : List ℕ → Run B) (p : Program) (b : B) (p' : Program)
    → bind (bytes_of status p) f ≡ returned b p'
    → (bytes : List ℕ) × (status ≡ fulfilled (some bytes)) × (f bytes p ≡ returned b p')
unfolding bytes_of
bytes_of-returned (fulfilled (some bytes)) f p b p' h = (bytes, refl, h)
bytes_of-returned (fulfilled none) f p b p' h = cc
bytes_of-returned (rejected error) f p b p' h = cc
bytes_of-returned unfulfilled f p b p' h = cc
bytes_of-returned pending f p b p' h = cc

pub returned-injective :
    {A : Type 0} (a b : A) (p p' : Program) → returned a p ≡ returned b p' → p ≡ p'
returned-injective a b p p' h = ap left h
