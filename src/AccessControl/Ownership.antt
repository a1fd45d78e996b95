-- ===== src/AccessControl/Ownership.antt =====
-- Whose objects setAccessControl of src/server.cpp deletes, and when a call of it is defined.
use open62541pp.Prelude.{
  ℕ, ◌≡◌, ◌≢◌, refl, ◌∙◌, ap, ◌⊎◌, inl, inr, Bool, true, false, ◌&&◌, if◌then◌else◌, Option, none,
  some, List, Bool-cases, arith,
}
use open62541pp.Prelude.Text.{Bytes}
use open62541pp.Map.{Map, find, insert}
use open62541pp.Map.Order.{nat_ord, nat_tri, same}
use open62541pp.Map.Laws.{IsSorted, find-insert, find-erase, insert-IsSorted, erase-IsSorted}
use open62541pp.Outcome.{ok, undefined}
use open62541pp.AccessControl.Default.{UserTokenPolicy}
use open62541pp.AccessControl.Install.{
  Plugin, zeros, library, adapter, ServerConfig, Argument, reference, unique, null_unique,
  set_highest_security_policy, clear, create_for, install, set_access_control, target,
}

if_true {ℓ} : {A : Type ℓ} (b : Bool) (x y : A) → b ≡ true → (if b then x else y) ≡ x
if_true b x y h = rw h refl

if_false {ℓ} : {A : Type ℓ} (b : Bool) (x y : A) → b ≡ false → (if b then x else y) ≡ y
if_false b x y h = rw h refl

-- Which objects are left once the old adapter is cleared.
unfoldable pub left : Plugin → ℕ → Option (List UserTokenPolicy) → Option (List UserTokenPolicy)
left zeros q found = found
left library q found = found
left (adapter id owns) q found = if owns && same id q then none else found

pub find-clear :
    (q : ℕ) (uris : List Bytes) (plugin : Plugin) (objects : Map ℕ (List UserTokenPolicy))
    → IsSorted objects
    → find q
        (clear
          (record { security_policies = uris; access_control = plugin; objects = objects })).objects
      ≡ left plugin q (find q objects)
unfolding clear left
find-clear q uris zeros objects sorted = refl
find-clear q uris library objects sorted = refl
find-clear q uris (adapter id false) objects sorted = refl
find-clear q uris (adapter id true) objects sorted = find-erase id q objects sorted

-- An object that is alive and not the one that the configuration deletes is alive behind `clear`.
same_refl : (id : ℕ) → same id id ≡ true
same_refl id = ground arith

same_eq : (a b : ℕ) → same a b ≡ true → a ≡ b
same_eq a b h = ground (arith, nat_tri a b)

left-found :
    (plugin : Plugin) (id : ℕ) (ps : List UserTokenPolicy)
    → plugin ≢ adapter id true
    → left plugin id (some ps) ≡ some ps
unfolding left
left-found zeros id ps other = refl
left-found library id ps other = refl
left-found (adapter k false) id ps other = refl
left-found (adapter k true) id ps other = elim (Bool-cases (same k id)) [
  | inl h ↦ absurd (other (ap (λ i. adapter i true) (same_eq k id h)))
  | inr h ↦ rw h refl
]

-- An object that is not alive is not alive behind `clear`, nor is the one that `clear` deletes.
pub left-none : (plugin : Plugin) (id : ℕ) → left plugin id none ≡ none
unfolding left
left-none zeros id = refl
left-none library id = refl
left-none (adapter k false) id = refl
left-none (adapter k true) id = elim (Bool-cases (same k id)) [
  | inl h ↦ rw h refl
  | inr h ↦ rw h refl
]

pub left-owned :
    (plugin : Plugin) (id : ℕ) (found : Option (List UserTokenPolicy))
    → plugin ≡ adapter id true
    → left plugin id found ≡ none
unfolding left
left-owned plugin id found h = ap (λ p. left p id found) h ∙ if_true _ _ _ (same_refl id)

pub owned_or_not :
    (plugin : Plugin) (id : ℕ) → (plugin ≡ adapter id true) ⊎ (plugin ≢ adapter id true)
owned_or_not zeros id = inr (λ h. cc)
owned_or_not library id = inr (λ h. cc)
owned_or_not (adapter k false) id = inr (λ h. cc)
owned_or_not (adapter k true) id = elim (Bool-cases (same k id)) [
  | inl h ↦ inl (ap (λ i. adapter i true) (same_eq k id h))
  | inr h ↦ inr (λ e. let key : k ≡ id = cc in ground arith)
]

clear-security_policies :
    (uris : List Bytes) (plugin : Plugin) (objects : Map ℕ (List UserTokenPolicy))
    → (clear (record {
      security_policies = uris;
      access_control = plugin;
      objects = objects;
    })).security_policies
      ≡ uris
unfolding clear
clear-security_policies uris zeros objects = refl
clear-security_policies uris library objects = refl
clear-security_policies uris (adapter id owns) objects = refl

clear-IsSorted :
    (uris : List Bytes) (plugin : Plugin) (objects : Map ℕ (List UserTokenPolicy))
    → IsSorted objects
    → IsSorted
        (clear
          (record { security_policies = uris; access_control = plugin; objects = objects })).objects
unfolding clear
clear-IsSorted uris zeros objects sorted = sorted
clear-IsSorted uris library objects sorted = sorted
clear-IsSorted uris (adapter id false) objects sorted = sorted
clear-IsSorted uris (adapter id true) objects sorted = erase-IsSorted id objects sorted

install-found :
    (id : ℕ) (owns : Bool) (config : ServerConfig) (ps : List UserTokenPolicy)
    → find id (clear config).objects ≡ some ps
    → install id owns config ≡ create_for id owns (clear config) (some ps)
unfolding install
install-found id owns config ps h = ap (create_for id owns (clear config)) h

pub found_behind_clear :
    (id : ℕ) (config : ServerConfig) (ps : List UserTokenPolicy)
    → IsSorted config.objects
    → config.access_control ≢ adapter id true
    → find id config.objects ≡ some ps
    → find id (clear config).objects ≡ some ps
found_behind_clear id config ps sorted other h =
    find-clear id config.security_policies config.access_control config.objects sorted
    ∙ ap (left config.access_control id) h
    ∙ left-found config.access_control id ps other

-- An object that is alive, and that the configuration does not own, is installed.
pub install-ok :
    (id : ℕ) (owns : Bool) (config : ServerConfig) (ps : List UserTokenPolicy)
    → IsSorted config.objects
    → config.access_control ≢ adapter id true
    → find id config.objects ≡ some ps
    → (config' : ServerConfig) × (install id owns config ≡ ok config')
      × (config'.access_control ≡ adapter id owns)
      × (find id config'.objects ≡ some (set_highest_security_policy config.security_policies ps))
      × ((q : ℕ)
          → same id q ≡ false
          → find q config'.objects ≡ left config.access_control q (find q config.objects))
      × IsSorted config'.objects
unfolding create_for
install-ok id owns config ps sorted other h =
    let cleared = found_behind_clear id config ps sorted other h in
    let ps' = set_highest_security_policy (clear config).security_policies ps in
    (
      record (clear config) {
        access_control = adapter id owns;
        objects = insert id ps' (clear config).objects;
      },
      install-found id owns config ps cleared,
      refl,
      find-insert id id ps' (clear config).objects
          ∙ if_true _ _ _ (same_refl id)
          ∙ ap (λ uris. some (set_highest_security_policy uris ps))
              (clear-security_policies config.security_policies config.access_control
                config.objects),
      λ q distinct.
          find-insert id q ps' (clear config).objects
          ∙ if_false _ _ _ distinct
          ∙ find-clear q config.security_policies config.access_control config.objects sorted,
      insert-IsSorted id ps' (clear config).objects
          (clear-IsSorted config.security_policies config.access_control config.objects sorted),
    )

pub install-undefined :
    (id : ℕ) (owns : Bool) (config : ServerConfig)
    → find id (clear config).objects ≡ none
    → install id owns config ≡ undefined
unfolding install create_for
install-undefined id owns config h = ap (create_for id owns (clear config)) h

pub set-install :
    (argument : Argument) (id : ℕ) (owns : Bool) (config : ServerConfig)
    → target argument ≡ some (id, owns)
    → set_access_control argument config ≡ install id owns config
unfolding set_access_control
set-install (reference k) id owns config h = cc
set-install (unique k) id owns config h = cc
set-install null_unique id owns config h = cc
