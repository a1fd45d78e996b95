-- ===== src/Map/Order.antt =====
-- `operator<` of a key type: a strict total order. Numbers, and pairs as std::pair orders them.
use open62541pp.Prelude.{ℕ, ◌≡◌, ◌⊎◌, Bool, true, false, not, ◌&&◌, ◌||◌, ltb, arith}

pub record Ord {ℓ} (K : Type ℓ) : Type ℓ where
  pub ltb : K → K → Bool
  pub tri :
      (a b : K)
      → ((ltb a b ≡ true) × (ltb b a ≡ false))
        ⊎ ((ltb a b ≡ false) × (ltb b a ≡ false) × (a ≡ b))
        ⊎ ((ltb a b ≡ false) × (ltb b a ≡ true))
  pub trans : (a b c : K) → ltb a b ≡ true → ltb b c ≡ true → ltb a c ≡ true

-- Keys of which neither is less than the other.
abbrev pub same {ℓ} : {K : Type ℓ} ⦃o : Ord K⦄ → K → K → Bool
same ⦃o⦄ a b = not (o.ltb a b) && not (o.ltb b a)

pub nat_tri :
    (a b : ℕ)
    → ((ltb a b ≡ true) × (ltb b a ≡ false))
      ⊎ ((ltb a b ≡ false) × (ltb b a ≡ false) × (a ≡ b))
      ⊎ ((ltb a b ≡ false) × (ltb b a ≡ true))
nat_tri a b = ground arith

pub nat_trans : (a b c : ℕ) → ltb a b ≡ true → ltb b c ≡ true → ltb a c ≡ true
nat_trans a b c h k = ground arith

instance abbrev pub nat_ord : Ord ℕ
nat_ord = record { ltb = ltb; tri = nat_tri; trans = nat_trans }

module _ {ℓ κ} {A : Type ℓ} {B : Type κ} ⦃o : Ord A⦄ ⦃p : Ord B⦄ where
  -- `a.first < b.first || (!(b.first < a.first) && a.second < b.second)`
  abbrev pub pair_ltb : A × B → A × B → Bool
  pair_ltb a b = o.ltb a.0 b.0 || (not (o.ltb b.0 a.0) && p.ltb a.1 b.1)

  pub pair_tri :
      (a b : A × B)
      → ((pair_ltb a b ≡ true) × (pair_ltb b a ≡ false))
        ⊎ ((pair_ltb a b ≡ false) × (pair_ltb b a ≡ false) × (a ≡ b))
        ⊎ ((pair_ltb a b ≡ false) × (pair_ltb b a ≡ true))
  pair_tri (a, b) (c, d) = ground (arith, o.tri a c, p.tri b d)

  pub pair_trans : (a b c : A × B) → pair_ltb a b ≡ true → pair_ltb b c ≡ true → pair_ltb a c ≡ true
  pair_trans (a, b) (c, d) (e, f) h k =
      ground (arith, o.tri a c, o.tri c e, o.tri a e, o.trans a c e, p.trans b d f)

  instance abbrev pub pair_ord : Ord (A × B)
  pair_ord = record { ltb = pair_ltb; tri = pair_tri; trans = pair_trans }
