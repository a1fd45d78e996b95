-- ===== src/AccessControl/Policies.antt =====
-- What setAccessControl of src/server.cpp does to the user token policies of an object.
use open62541pp.Prelude.{ℕ, ◌≡◌, ◌≢◌, refl, ◌⊎◌, inl, inr, none, some, List, [], ◌∷◌, map, All}
use open62541pp.Prelude.Text.{Bytes}
use open62541pp.Map.Order.{nat_ord, same}
use open62541pp.AccessControl.Default.{
  UserTokenType, anonymous_token, username_token, certificate_token, issued_token, UserTokenPolicy,
}
use open62541pp.AccessControl.Install.{highest_uri, transfer, set_highest_security_policy}

-- A policy under which no secret is sent by a security policy that is left open.
pub IsProtected : UserTokenPolicy → Type 0
IsProtected policy = (policy.token_type ≡ anonymous_token) ⊎ (policy.security_policy_uri ≢ [])

-- A policy and what becomes of it: it was protected and is the same, or its URI was empty and is
-- the given one, with nothing else changed.
pub IsTransferred : Bytes → UserTokenPolicy → UserTokenPolicy → Type 0
IsTransferred uri before after =
    (IsProtected before × (after ≡ before))
    ⊎ ((¬ IsProtected before) × (after ≡ record before { security_policy_uri = uri }))

pub data Zip {ℓ κ} {A : Type ℓ} (R : A → A → Type κ) : List A → List A → Type (ℓ ⊔ κ) where
  done : Zip R [] []
  step : {x y : A} {xs ys : List A} → R x y → Zip R xs ys → Zip R (x ∷ xs) (y ∷ ys)

cons-ne-nil : {x : ℕ} {xs : Bytes} → (x ∷ xs) ≢ []
cons-ne-nil h = cc

username-secret : username_token ≢ anonymous_token
username-secret h = cc

certificate-secret : certificate_token ≢ anonymous_token
certificate-secret h = cc

issued-secret : issued_token ≢ anonymous_token
issued-secret h = cc

open_policy :
    (p : UserTokenPolicy)
    → p.token_type ≢ anonymous_token
    → p.security_policy_uri ≡ []
    → ¬ IsProtected p
unfolding IsProtected
open_policy p secret bare (inl a) = secret a
open_policy p secret bare (inr b) = b bare

abbrev policy_with : UserTokenPolicy → UserTokenType → Bytes → UserTokenPolicy
policy_with p t uri = record p { token_type = t; security_policy_uri = uri }

transfer_cases :
    (uri : Bytes) (p : UserTokenPolicy) (t : UserTokenType) (u : Bytes)
    → IsTransferred uri (policy_with p t u) (transfer uri (policy_with p t u))
unfolding transfer IsTransferred IsProtected
transfer_cases uri p anonymous_token u = inl (inl refl, refl)
transfer_cases uri p username_token [] =
    inr (open_policy (policy_with p username_token []) username-secret refl, refl)
transfer_cases uri p certificate_token [] =
    inr (open_policy (policy_with p certificate_token []) certificate-secret refl, refl)
transfer_cases uri p issued_token [] =
    inr (open_policy (policy_with p issued_token []) issued-secret refl, refl)
transfer_cases uri p username_token (x ∷ u) = inl (inr cons-ne-nil, refl)
transfer_cases uri p certificate_token (x ∷ u) = inl (inr cons-ne-nil, refl)
transfer_cases uri p issued_token (x ∷ u) = inl (inr cons-ne-nil, refl)

transfer-IsTransferred : (uri : Bytes) (p : UserTokenPolicy) → IsTransferred uri p (transfer uri p)
transfer-IsTransferred uri p = transfer_cases uri p p.token_type p.security_policy_uri

-- A policy stays as it is when it is protected, and is protected afterwards when the URI is one.
transferred-IsProtected :
    (uri : Bytes) (p q : UserTokenPolicy) → uri ≢ [] → IsTransferred uri p q → IsProtected q
unfolding IsTransferred IsProtected
transferred-IsProtected uri p q given (inl (protected, same)) = rw same protected
transferred-IsProtected uri p q given (inr (bare, changed)) = rw changed (inr given)

transferred_same :
    (uri : Bytes) (p q : UserTokenPolicy) → IsProtected p → IsTransferred uri p q → q ≡ p
unfolding IsTransferred
transferred_same uri p q protected (inl (_, same)) = same
transferred_same uri p q protected (inr (bare, _)) = absurd (bare protected)

transfer_all :
    (uri : Bytes) (ps : List UserTokenPolicy) → Zip (IsTransferred uri) ps (map (transfer uri) ps)
transfer_all uri [] = done
transfer_all uri (p ∷ ps) = step (transfer-IsTransferred uri p) (transfer_all uri ps)

pub Zip-IsProtected :
    {uri : Bytes} {ps qs : List UserTokenPolicy}
    → uri ≢ []
    → Zip (IsTransferred uri) ps qs
    → All IsProtected qs
Zip-IsProtected given done = tt
Zip-IsProtected given (step r rs) =
    (transferred-IsProtected _ _ _ given r, Zip-IsProtected given rs)

Zip-same :
    (uri : Bytes) {ps qs : List UserTokenPolicy}
    → Zip (IsTransferred uri) ps qs
    → All IsProtected ps
    → qs ≡ ps
Zip-same uri done protected = refl
Zip-same uri (step r rs) (h, hs) = rw (transferred_same uri _ _ h r, Zip-same uri rs hs) refl

pub highest_some :
    (uris : List Bytes) (uri : Bytes) (ps : List UserTokenPolicy)
    → highest_uri uris ≡ some uri
    → Zip (IsTransferred uri) ps (set_highest_security_policy uris ps)
unfolding set_highest_security_policy
highest_some uris uri ps h = rw (h, set_highest_security_policy) (transfer_all uri ps)

pub highest_same :
    (uris : List Bytes) (ps : List UserTokenPolicy)
    → All IsProtected ps
    → set_highest_security_policy uris ps ≡ ps
unfolding set_highest_security_policy
highest_same uris ps protected =
    elim (highest_uri uris) as (λ b. elim b [ none ↦ ps | some uri ↦ map (transfer uri) ps ] ≡ ps) [
      | none ↦ refl
      | some uri ↦ Zip-same uri (transfer_all uri ps) protected
    ]
