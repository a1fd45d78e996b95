-- ===== src/AccessControl/Admission.antt =====
-- Whom AccessControlDefault admits, stated without the order of its tests.
use open62541pp.Prelude.{
  ℕ, zero, suc, ap, ◌≡◌, ◌≢◌, refl, sym, ◌∙◌, ◌↔◌, ◌⊎◌, inl, inr, Bool, true, false, not, ◌&&◌,
  ◌||◌, if◌then◌else◌, le→leb, [], ◌∷◌, ◌++◌, length, length-append, take, drop, Any, Any-of_anyb,
  anyb_of_Any, anyb, arith,
}
use open62541pp.Prelude.Eq.{list_beq_iff, nat_eq}
use open62541pp.Prelude.Text.{Bytes}
use open62541pp.Status.{
  StatusCodes, is_bad, good, bad_identity_token_invalid, bad_user_access_denied, good-ne-bad,
}
use open62541pp.AccessControl.Default.{
  policy_id_anonymous, policy_id_username, starts_with, Login, IdentityToken, empty, encoded,
  anonymous, user_name, other_decoded, AccessControlDefault, is_empty, matches, activate_session,
}

-- What an admitted token is.
pub data Admits (ac : AccessControlDefault) : IdentityToken → Type 0 where
  no_token : ac.allow_anonymous ≡ true → Admits ac empty
  no_policy :
      {policy : Bytes} → ac.allow_anonymous ≡ true → policy ≡ [] → Admits ac (anonymous policy)
  anonymous_policy :
      {policy : Bytes} (rest : Bytes)
      → ac.allow_anonymous ≡ true
      → policy ≡ policy_id_anonymous ++ rest
      → Admits ac (anonymous policy)
  login :
      {policy name password : Bytes} (rest : Bytes)
      → policy ≡ policy_id_username ++ rest
      → (name ≢ []) ⊎ (password ≢ [])
      → Any (λ l. (l.username ≡ name) × (l.password ≡ password)) ac.logins
      → Admits ac (user_name policy name password)

take-length-append : (xs ys : Bytes) → take (length xs) (xs ++ ys) ≡ xs
take-length-append [] ys = refl
take-length-append (x ∷ xs) ys = rw (take-length-append xs ys)

take-append-drop : (n : ℕ) (xs : Bytes) → take n xs ++ drop n xs ≡ xs
take-append-drop zero xs = refl
take-append-drop (suc n) [] = refl
take-append-drop (suc n) (x ∷ xs) = rw (take-append-drop n xs)

starts_with-split :
    (str prefix : Bytes) → starts_with str prefix ≡ true → (rest : Bytes) × (str ≡ prefix ++ rest)
unfolding starts_with
starts_with-split str prefix h =
    let same : take (length prefix) str ≡ prefix = (list_beq_iff _ _).0 (ground arith) in
    (
      drop (length prefix) str,
      sym (take-append-drop (length prefix) str) ∙ ap (λ p. p ++ drop (length prefix) str) same,
    )

starts_with-append : (prefix rest : Bytes) → starts_with (prefix ++ rest) prefix ≡ true
unfolding starts_with
starts_with-append prefix rest =
    rw
      (
        le→leb (length prefix) (length (prefix ++ rest)) (omega (arith, length-append prefix rest)),
        take-length-append prefix rest,
      )
      ((list_beq_iff prefix prefix).1 refl)

is_empty-eq : (xs : Bytes) → is_empty xs ≡ true → xs ≡ []
is_empty-eq [] h = refl
is_empty-eq (x ∷ xs) h = cc

not-is_empty : (xs : Bytes) → xs ≢ [] → is_empty xs ≡ false
not-is_empty [] h = absurd (h refl)
not-is_empty (x ∷ xs) h = refl

ne-nil : (xs : Bytes) → is_empty xs ≡ false → xs ≢ []
ne-nil [] h = cc
ne-nil (x ∷ xs) h = λ e. cc

matches_iff :
    (name password : Bytes) (l : Login)
    → (matches name password l ≡ true) ↔ ((l.username ≡ name) × (l.password ≡ password))
unfolding matches
matches_iff name password l = (
  λ h. (
    (list_beq_iff l.username name).0 (ground arith),
    (list_beq_iff l.password password).0 (ground arith),
  ),
  λ h. rw ((list_beq_iff l.username name).1 h.0, (list_beq_iff l.password password).1 h.1),
)

-- The tests of a user name token, as a ladder.
module _ (invalid denied fine : ℕ) where
  ladder : Bool → Bool → Bool → ℕ
  ladder p q r = if not p then invalid else if q then invalid else if r then fine else denied

  ladder_fine :
      (p q r : Bool)
      → invalid ≢ fine
      → denied ≢ fine
      → ladder p q r ≡ fine
      → (p ≡ true) × (q ≡ false) × (r ≡ true)
  unfolding ladder
  ladder_fine p q r i d h = ground arith

  ladder_values :
      (p q r : Bool) → (ladder p q r ≡ fine) ⊎ (ladder p q r ≡ invalid) ⊎ (ladder p q r ≡ denied)
  unfolding ladder
  ladder_values p q r = ground arith

both_empty : (xs ys : Bytes) → is_empty xs && is_empty ys ≡ false → (xs ≢ []) ⊎ (ys ≢ [])
both_empty [] ys h = inr (ne-nil ys h)
both_empty (x ∷ xs) ys h = inl (ne-nil (x ∷ xs) refl)

not-both_empty : (xs ys : Bytes) → (xs ≢ []) ⊎ (ys ≢ []) → is_empty xs && is_empty ys ≡ false
not-both_empty [] ys (inl h) = absurd (h refl)
not-both_empty [] ys (inr h) = not-is_empty ys h
not-both_empty (x ∷ xs) ys h = refl

module _ ⦃c : StatusCodes⦄ (ac : AccessControlDefault) where
  token_invalid : bad_identity_token_invalid ≢ good
  token_invalid = good-ne-bad _ _ c.good_lem c.bad_identity_token_invalid_lem

  access_denied : bad_user_access_denied ≢ good
  access_denied = good-ne-bad _ _ c.good_lem c.bad_user_access_denied_lem

  verdict :
      (token : IdentityToken)
      → (activate_session ac token ≡ good) ⊎ (is_bad (activate_session ac token) ≡ true)
  unfolding activate_session ladder
  verdict empty = ground (arith, c.bad_identity_token_invalid_lem)
  verdict encoded = inr c.bad_identity_token_invalid_lem
  verdict (anonymous policy) = ground (arith, c.bad_identity_token_invalid_lem)
  verdict (user_name policy name password) =
      elim (ladder_values bad_identity_token_invalid bad_user_access_denied good
        (starts_with policy policy_id_username) (is_empty name && is_empty password)
        (anyb (matches name password) ac.logins)) [
          | inl g ↦ inl g
          | inr (inl i) ↦ inr (rw i c.bad_identity_token_invalid_lem)
          | inr (inr d) ↦ inr (rw d c.bad_user_access_denied_lem)
        ]
  verdict other_decoded = inr c.bad_identity_token_invalid_lem

  -- The tests of an anonymous token.
  anonymous_ladder :
      (allowed blank prefixed : Bool)
      → (if not allowed
          then bad_identity_token_invalid
          else if blank || prefixed
          then good
          else bad_identity_token_invalid)
        ≡ good
      → (allowed ≡ true) × ((blank ≡ true) ⊎ (prefixed ≡ true))
  anonymous_ladder allowed blank prefixed g = ground (arith, token_invalid)

  Admits-anonymous :
      (policy : Bytes)
      → ac.allow_anonymous ≡ true
      → (is_empty policy ≡ true) ⊎ (starts_with policy policy_id_anonymous ≡ true)
      → Admits ac (anonymous policy)
  Admits-anonymous policy allowed (inl blank) = no_policy allowed (is_empty-eq policy blank)
  Admits-anonymous policy allowed (inr prefixed) =
      let (rest, split) = starts_with-split policy policy_id_anonymous prefixed in
      anonymous_policy rest allowed split

  Admits-user_name :
      (policy name password : Bytes)
      → starts_with policy policy_id_username ≡ true
      → is_empty name && is_empty password ≡ false
      → anyb (matches name password) ac.logins ≡ true
      → Admits ac (user_name policy name password)
  Admits-user_name policy name password prefixed filled known =
      let (rest, split) = starts_with-split policy policy_id_username prefixed in
      login rest split (both_empty name password filled)
        (Any-of_anyb (matches name password) (λ l. (matches_iff name password l).0) ac.logins known)

  Admits-of_good_anonymous :
      (policy : Bytes)
      → activate_session ac (anonymous policy) ≡ good
      → Admits ac (anonymous policy)
  unfolding activate_session
  Admits-of_good_anonymous policy g =
      let facts =
        anonymous_ladder ac.allow_anonymous (is_empty policy)
          (starts_with policy policy_id_anonymous) g in
      Admits-anonymous policy facts.0 facts.1

  Admits-of_good_user_name :
      (policy name password : Bytes)
      → activate_session ac (user_name policy name password) ≡ good
      → Admits ac (user_name policy name password)
  unfolding activate_session ladder
  Admits-of_good_user_name policy name password g =
      let facts =
        ladder_fine bad_identity_token_invalid bad_user_access_denied good
          (starts_with policy policy_id_username) (is_empty name && is_empty password)
          (anyb (matches name password) ac.logins) token_invalid access_denied g in
      Admits-user_name policy name password facts.0 facts.1 facts.2

  Admits-of_good_empty : activate_session ac empty ≡ good → Admits ac empty
  unfolding activate_session
  Admits-of_good_empty g = no_token (ground (arith, token_invalid))

  not-good :
      (token : IdentityToken)
      → activate_session ac token ≡ bad_identity_token_invalid
      → activate_session ac token ≡ good
      → Admits ac token
  not-good token e g = absurd (token_invalid (sym e ∙ g))

  Admits-of_good : (token : IdentityToken) → activate_session ac token ≡ good → Admits ac token
  Admits-of_good empty g = Admits-of_good_empty g
  Admits-of_good encoded g = not-good encoded (unfold activate_session in refl) g
  Admits-of_good (anonymous policy) g = Admits-of_good_anonymous policy g
  Admits-of_good (user_name policy name password) g =
      Admits-of_good_user_name policy name password g
  Admits-of_good other_decoded g = not-good other_decoded (unfold activate_session in refl) g

  good_of_Admits : {token : IdentityToken} → Admits ac token → activate_session ac token ≡ good
  unfolding activate_session
  good_of_Admits (no_token allowed) = rw allowed
  good_of_Admits (no_policy allowed blank) = rw (allowed, blank)
  good_of_Admits (anonymous_policy rest allowed split) =
      ground (arith, starts_with-append policy_id_anonymous rest)
  good_of_Admits (login {policy} {name} {password} rest split filled known) =
      let found =
        anyb_of_Any (matches name password) (λ l. (matches_iff name password l).1) known in
      let prefixed : starts_with policy policy_id_username ≡ true =
        rw split (starts_with-append policy_id_username rest) in
      rw (prefixed, not-both_empty name password filled, found)

  -- A session is opened exactly for the tokens that `Admits` describes; for every other token the
  -- result is a bad status code.
  pub activate_session-Admits :
      (token : IdentityToken)
      → (Admits ac token × (activate_session ac token ≡ good))
        ⊎ ((¬ Admits ac token) × (is_bad (activate_session ac token) ≡ true))
  activate_session-Admits token = elim (verdict token) [
    | inl g ↦ inl (Admits-of_good token g, g)
    | inr b ↦ inr ((λ a. good-ne-bad _ _ c.good_lem b (good_of_Admits a)), b)
  ]
