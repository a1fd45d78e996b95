-- ===== src/NodeContexts/Keys.antt =====
-- Looking up a key in a map after an address was put under another one.
use open62541pp.Prelude.{
  ℕ, ◌==◌, ◌≡◌, ◌≢◌, refl, sym, ap, ◌∙◌, true, false, if◌then◌else◌, Option, none, some, Bool-cases,
  ==_iff, ◌⊎◌, inl, inr, arith,
}
use open62541pp.Map.{Map, find}
use open62541pp.Map.Order.{Ord, same}
use open62541pp.NodeContexts.{free}

module _ {ℓ} {K : Type ℓ} ⦃o : Ord K⦄ where
  pub same-eq : (k q : K) → same k q ≡ true → k ≡ q
  same-eq k q h = ground (arith, o.tri k q)

  pub same_refl : (k : K) → same k k ≡ true
  same_refl k = ground (arith, o.tri k k)

  pub same_trans : (k q r : K) → same k q ≡ true → same k r ≡ true → same q r ≡ true
  same_trans k q r h h' = rw (sym (same-eq k q h), sym (same-eq k r h')) (same_refl k)

  -- What is found under `q` when `a` stands under `id`.
  abbrev pub with_key : K → ℕ → K → Option ℕ → Option ℕ
  with_key id a q before = if same id q then some a else before

  pub with_key_cases :
      (id : K) (a : ℕ) (q : K) (before : Option ℕ) (b : ℕ)
      → with_key id a q before ≡ some b
      → ((same id q ≡ true) × (a ≡ b)) ⊎ ((same id q ≡ false) × (before ≡ some b))
  with_key_cases id a q before b h = elim (Bool-cases (same id q)) [
    | inl e ↦ let there : some a ≡ some b = rw e at h in inl (e, cc)
    | inr e ↦ inr (e, (rw e at h))
  ]

  -- A pointer and the map are given the same address.
  pub with_key_follows :
      (id : K) (a : ℕ) (q : K) (x y z : Option ℕ) (b : ℕ)
      → z ≡ with_key id a q y
      → (x ≡ some b → y ≡ some b)
      → with_key id a q x ≡ some b
      → z ≡ some b
  with_key_follows id a q x y z b found agree h = elim (Bool-cases (same id q)) [
    | inl e ↦ found ∙ rw e (rw e at h)
    | inr e ↦ found ∙ rw e (agree (rw e at h))
  ]

  pub with_key_same :
      (id : K) (a : ℕ) (q : K) (m : Map K ℕ)
      → find id m ≡ some a
      → find q m ≡ with_key id a q (find q m)
  with_key_same id a q m h = elim (Bool-cases (same id q)) [
    | inl e ↦ ap (λ k. find k m) (sym (same-eq id q e)) ∙ h ∙ rw e refl
    | inr e ↦ rw e refl
  ]

pub free_other {ℓ} :
    {A : Type ℓ} (x : Option ℕ) (heap : ℕ → Option A) (b : ℕ) → x ≢ some b → free x heap b ≡ heap b
unfolding free
free_other none heap b h = refl
free_other (some a) heap b h = elim (Bool-cases (a == b)) [
  | inl e ↦ absurd (h (ap some ((==_iff a b).0 e)))
  | inr e ↦ rw e refl
]

pub none-ne-some {ℓ} : {A : Type ℓ} {a : A} → none ≢ some a
none-ne-some h = cc

pub true-ne-false : true ≢ false
true-ne-false h = cc
