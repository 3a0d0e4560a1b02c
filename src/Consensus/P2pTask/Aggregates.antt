-- ===== src/Consensus/P2pTask/Aggregates.antt =====
-- Sums of points that are given as bytes, as wasm/consensus/src keeps its aggregates.
use seda_rust.Base.{
  ℕ, ◌≡◌, ◌≢◌, refl, sym, ap, ◌∙◌, Option, none, some, List, [], ◌∷◌, ◌++◌, Option-cases, inl, inr,
}

-- The sum of points that are given as bytes, from the first one on.
abbrev sum_from : (List ℕ → Option ℕ) → (ℕ → ℕ → ℕ) → ℕ → List (List ℕ) → Option ℕ
sum_from decode add acc [] = some acc
sum_from decode add acc (b ∷ bs) = elim (decode b) [
  | none ↦ none
  | some p ↦ sum_from decode add (add acc p) bs
]

abbrev pub sum : (List ℕ → Option ℕ) → (ℕ → ℕ → ℕ) → List (List ℕ) → Option ℕ
sum decode add [] = none
sum decode add (b ∷ bs) = elim (decode b) [ none ↦ none | some p ↦ sum_from decode add p bs ]

-- An aggregate is no bytes, for no points, or the bytes of their sum.
abbrev pub Aggregates :
    (List ℕ → Option ℕ) → (ℕ → Option (List ℕ)) → (ℕ → ℕ → ℕ) → List (List ℕ) → List ℕ → Type 0
Aggregates decode encode add [] bytes = bytes ≡ []
Aggregates decode encode add (b ∷ bs) bytes =
    (p : ℕ) × (sum decode add (b ∷ bs) ≡ some p) × (encode p ≡ some bytes)

-- What bn254 documents: bytes that encode a point are not empty and decode to it.
pub record IsEncoding (decode : List ℕ → Option ℕ) (encode : ℕ → Option (List ℕ)) : Type 0 where
  pub decode-encode : (p : ℕ) (bytes : List ℕ) → encode p ≡ some bytes → decode bytes ≡ some p
  pub encode-ne-nil : (p : ℕ) → encode p ≢ some []

module _ (decode : List ℕ → Option ℕ) (encode : ℕ → Option (List ℕ)) (add : ℕ → ℕ → ℕ) where
  sum_from-append :
      (acc q s : ℕ) (bs : List (List ℕ)) (b : List ℕ)
      → sum_from decode add acc bs ≡ some q
      → decode b ≡ some s
      → sum_from decode add acc (bs ++ b ∷ []) ≡ some (add q s)
  sum_from-append acc q s [] b h e =
      rw e (ap (λ o. elim o [ none ↦ none | some x ↦ some (add x s) ]) h)
  sum_from-append acc q s (c ∷ bs) b h e = elim (Option-cases (decode c)) [
    | inl missing ↦ absurd (cc (rw (missing, sum_from) at h))
    | inr (p, found) ↦ rw found (sum_from-append (add acc p) q s bs b (rw (found, sum_from) at h) e)
  ]

  sum-append :
      (q s : ℕ) (bs : List (List ℕ)) (b : List ℕ)
      → sum decode add bs ≡ some q
      → decode b ≡ some s
      → sum decode add (bs ++ b ∷ []) ≡ some (add q s)
  sum-append q s [] b h e = cc
  sum-append q s (c ∷ bs) b h e = elim (Option-cases (decode c)) [
    | inl missing ↦ absurd (cc (rw (missing, sum) at h))
    | inr (p, found) ↦ rw found (sum_from-append p q s bs b (rw (found, sum) at h) e)
  ]

  -- What `add_signature` and `add_public_key` come to.
  abbrev pub total_of : List ℕ → ℕ → Option ℕ
  total_of [] s = some s
  total_of (b ∷ bs) s = elim (decode (b ∷ bs)) [ none ↦ none | some q ↦ some (add q s) ]

  total_of-nil : (bytes : List ℕ) (s : ℕ) → bytes ≡ [] → total_of bytes s ≡ some s
  total_of-nil bytes s e = rw e refl

  total_of-decode :
      (bytes : List ℕ) (s q : ℕ)
      → bytes ≢ []
      → decode bytes ≡ some q
      → total_of bytes s ≡ some (add q s)
  total_of-decode [] s q h e = absurd (h refl)
  total_of-decode (b ∷ bs) s q h e = rw (e, total_of) refl

  pub Aggregates-append :
      (coded : IsEncoding decode encode) (bs : List (List ℕ)) (b bytes bytes' : List ℕ) (s t : ℕ)
      → Aggregates decode encode add bs bytes
      → decode b ≡ some s
      → total_of bytes s ≡ some t
      → encode t ≡ some bytes'
      → Aggregates decode encode add (bs ++ b ∷ []) bytes'
  Aggregates-append coded [] b bytes bytes' s t a e h k =
      let same : some s ≡ some t = sym (total_of-nil bytes s a) ∙ h in (t, rw (e, sum) same, k)
  Aggregates-append coded (c ∷ cs) b bytes bytes' s t (q, total, coding) e h k =
      let full : bytes ≢ [] = λ n. coded.encode-ne-nil q (coding ∙ ap (λ x. some x) n) in
      let same : some (add q s) ≡ some t =
        sym (total_of-decode bytes s q full (coded.decode-encode q bytes coding)) ∙ h in
      (t, sum-append q s (c ∷ cs) b total e ∙ same, k)
