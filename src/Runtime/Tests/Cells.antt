-- ===== src/Runtime/Tests/Cells.antt =====
-- A linear memory with an allocator for the tests.
use seda_rust.Base.{
  ℕ, zero, suc, ◌+◌, ◌≤◌, ◌<◌, ◌≡◌, refl, sym, ap, ◌∙◌, arith, Bool, true, false, Option, none,
  some, List, [], ◌∷◌, length, ◌==◌, nat_eq, string_eq, if◌then◌else◌, leb, leb→le, le→leb, subst,
}
use seda_rust.Runtime.Promises.{HostResult}
use seda_rust.Runtime.Linear.{Wasmer, IsLinear, read_cells}
use seda_rust.Runtime.Context.{Level}
use seda_rust.Runtime.Sdk.{Alloc}
use seda_rust.Runtime.Sdk.Store.{IsAllocator}
use seda_rust.Runtime.Tests.Codes.{codes, from_codes}

-- Cells are handed out from address 8 upwards; those below `next` are in use.
pub record Cells : Type 0 where
  pub next : ℕ
  pub cell : ℕ → ℕ

abbrev update : (ℕ → ℕ) → ℕ → ℕ → ℕ → ℕ
update f i b j = if i == j then b else f j

abbrev collect : (ℕ → ℕ) → ℕ → ℕ → List ℕ
collect f p zero = []
collect f p (suc n) = f p ∷ collect f (p + 1) n

abbrev inside : Cells → ℕ → ℕ → Bool
inside m p n = leb (p + n) m.next

abbrev pub machine : Wasmer Cells
machine = record {
  deref = inside;
  load = λ m i. m.cell i;
  store = λ m i b. record m { cell = update m.cell i b };
  get_utf8_string = λ m p n. if inside m p n then from_codes (collect m.cell p n) else none;
  from_utf8 = from_codes;
  utf8 = codes;
  promise_from_str = λ s. HostResult.err s;
  status_to_string = λ s. HostResult.ok "Pending";
  level_from_str = λ s. HostResult.ok Level.info;
  signature_from_uncompressed = λ bytes. none;
  public_key_from_uncompressed = λ bytes. none;
  verify = λ message s p. false;
  sign = λ message k. none;
  signature_to_uncompressed = λ s. none;
}

read_cells-collect : (m : Cells) (p n : ℕ) → read_cells machine m p n ≡ collect m.cell p n
unfolding read_cells
read_cells-collect m p zero = refl
read_cells-collect m p (suc n) = ap (λ bs. m.cell p ∷ bs) (read_cells-collect m (p + 1) n)

pub machine-IsLinear : IsLinear machine
machine-IsLinear = record {
  load-store = λ m i j b. refl;
  deref-store = λ m i b p n. refl;
  get_utf8_string-cells = λ m p n. rw (read_cells-collect m p n) refl;
}

abbrev fill : ℕ → List ℕ → (ℕ → ℕ) → ℕ → ℕ
fill p [] f = f
fill p (b ∷ bs) f = update (fill (p + 1) bs f) p b

abbrev grown : List ℕ → Cells → Cells
grown bytes m = record { next = m.next + length bytes; cell = fill m.next bytes m.cell }

abbrev pub alloc : Alloc Cells
alloc bytes m = some (m.next, grown bytes m)

alloc-eq :
    (bytes : List ℕ) (m : Cells) (ptr : ℕ) (m' : Cells)
    → alloc bytes m ≡ some (ptr, m')
    → (m.next ≡ ptr) × (grown bytes m ≡ m')
alloc-eq bytes m ptr m' e = (
  ap (λ (o : Option (ℕ × Cells)). elim o [ none ↦ m.next | some (p, _) ↦ p ]) e,
  ap (λ (o : Option (ℕ × Cells)). elim o [ none ↦ grown bytes m | some (_, c) ↦ c ]) e,
)

collect_same :
    (f g : ℕ → ℕ) (p n : ℕ)
    → ((j : ℕ) → p ≤ j → j < p + n → f j ≡ g j)
    → collect f p n ≡ collect g p n
collect_same f g p zero h = refl
collect_same f g p (suc n) h =
    ground (arith, h p, collect_same f g (p + 1) n (λ j a b. h j (omega arith) (omega arith)))

fill_below : (p j : ℕ) (bs : List ℕ) (f : ℕ → ℕ) → j < p → fill p bs f j ≡ f j
fill_below p j [] f h = refl
fill_below p j (b ∷ bs) f h = ground (arith, fill_below (p + 1) j bs f)

collect-fill : (p : ℕ) (bs : List ℕ) (f : ℕ → ℕ) → collect (fill p bs f) p (length bs) ≡ bs
collect-fill p [] f = refl
collect-fill p (b ∷ bs) f = ground (
  arith,
  collect-fill (p + 1) bs f,
  collect_same (fill p (b ∷ bs) f) (fill (p + 1) bs f) (p + 1) (length bs) (λ j a c. ground arith),
)

fresh_cells :
    (bytes : List ℕ) (m : Cells)
    → (inside (grown bytes m) m.next (length bytes) ≡ true)
      × (read_cells machine (grown bytes m) m.next (length bytes) ≡ bytes)
fresh_cells bytes m = (
  le→leb _ _ (omega arith),
  read_cells-collect (grown bytes m) m.next (length bytes) ∙ collect-fill m.next bytes m.cell,
)

kept_cells :
    (bytes : List ℕ) (m : Cells) (q n : ℕ)
    → inside m q n ≡ true
    → (inside (grown bytes m) q n ≡ true)
      × (read_cells machine (grown bytes m) q n ≡ read_cells machine m q n)
kept_cells bytes m q n h =
    let below = leb→le (q + n) m.next h in
    (
      le→leb _ _ (omega arith),
      read_cells-collect (grown bytes m) q n
          ∙ collect_same (fill m.next bytes m.cell) m.cell q n
              (λ j a b. fill_below m.next j bytes m.cell (omega arith))
          ∙ sym (read_cells-collect m q n),
    )

pub alloc-IsAllocator : IsAllocator machine alloc
alloc-IsAllocator = record {
  live = inside;
  fresh = λ bytes m ptr m' e.
      let (p, c) = alloc-eq bytes m ptr m' e in
      subst
        (λ x.
          (inside x ptr (length bytes) ≡ true) × (read_cells machine x ptr (length bytes) ≡ bytes))
        c
        (subst
          (λ x.
            (inside (grown bytes m) x (length bytes) ≡ true)
            × (read_cells machine (grown bytes m) x (length bytes) ≡ bytes))
          p (fresh_cells bytes m));
  keeps = λ bytes m ptr m' q n e h.
      let (p, c) = alloc-eq bytes m ptr m' e in
      subst (λ x. (inside x q n ≡ true) × (read_cells machine x q n ≡ read_cells machine m q n)) c
        (kept_cells bytes m q n h);
  inside = λ m q n h. h;
}
