-- ===== src/AccessControl/Configuration.antt =====
-- ServerConfig::setAccessControl of src/server.cpp: what it installs, and when it is defined.
use open62541pp.Prelude.{
  ℕ, ◌≡◌, ◌≢◌, refl, sym, ◌∙◌, ap, ◌↔◌, ◌⊎◌, inl, inr, Bool, true, false, Option, none, some, List,
  [], All,
}
use open62541pp.Prelude.Text.{Bytes}
use open62541pp.Map.{find}
use open62541pp.Map.Order.{nat_ord, same}
use open62541pp.Map.Laws.{IsSorted}
use open62541pp.Outcome.{ok, undefined}
use open62541pp.AccessControl.Default.{UserTokenPolicy}
use open62541pp.AccessControl.Policies.{
  IsProtected, IsTransferred, Zip, highest_some, highest_same, Zip-IsProtected,
}
use open62541pp.AccessControl.Install.{
  Plugin, adapter, ServerConfig, Argument, highest_uri, set_highest_security_policy, install,
  set_access_control, target,
}
use open62541pp.AccessControl.Ownership.{
  left, find-clear, install-ok, install-undefined, set-install, left-none, left-owned, owned_or_not,
}

-- An argument stands for the object `id`, which is alive and which the configuration does not own,
-- and the last security policy has the URI `uri`, which is not empty. Then the object is installed,
-- owned if the argument is a unique pointer; each of its policies that is anonymous or has a URI is
-- as before, each other one has the URI `uri` and is as before otherwise, so that all are
-- protected; and of the other objects none is changed, and only the one that the configuration
-- owned is deleted.
pub set_access_control-IsTransferred :
    (argument : Argument) (id : ℕ) (owns : Bool) (config : ServerConfig) (uri : Bytes)
    (ps : List UserTokenPolicy)
    → target argument ≡ some (id, owns)
    → IsSorted config.objects
    → config.access_control ≢ adapter id true
    → find id config.objects ≡ some ps
    → highest_uri config.security_policies ≡ some uri
    → uri ≢ []
    → (config' : ServerConfig) × (ps' : List UserTokenPolicy) × (set_access_control argument config
        ≡ ok config')
      × (config'.access_control ≡ adapter id owns)
      × (find id config'.objects ≡ some ps')
      × Zip (IsTransferred uri) ps ps'
      × All IsProtected ps'
      × ((q : ℕ)
          → same id q ≡ false
          → find q config'.objects ≡ left config.access_control q (find q config.objects))
set_access_control-IsTransferred argument id owns config uri ps named sorted other alive last
      given =
    let (config', done, holds, found, frame, _) = install-ok id owns config ps sorted other alive in
    let zip = highest_some config.security_policies uri ps last in
    (
      config',
      set_highest_security_policy config.security_policies ps,
      set-install argument id owns config named ∙ done,
      holds,
      found,
      zip,
      Zip-IsProtected given zip,
      frame,
    )

ok-ne-undefined : {config : ServerConfig} → ok config ≢ undefined
ok-ne-undefined h = cc

none_or_some {ℓ} : {A : Type ℓ} (o : Option A) → (o ≡ none) ⊎ ((a : A) × (o ≡ some a))
none_or_some none = inl refl
none_or_some (some a) = inr (a, refl)

not_found :
    (id : ℕ) (owns : Bool) (config : ServerConfig)
    → IsSorted config.objects
    → config.access_control ≢ adapter id true
    → install id owns config ≡ undefined
    → find id config.objects ≡ none
not_found id owns config sorted other h = elim (none_or_some (find id config.objects)) [
  | inl lost ↦ lost
  | inr (ps, alive) ↦
      let (_, done, _, _, _, _) = install-ok id owns config ps sorted other alive in
      absurd (ok-ne-undefined (sym done ∙ h))
]

-- A call with an argument for the object `id` is undefined if and only if the object is not alive
-- or the configuration owns it already, so that the call deletes it first.
pub set_access_control-undefined :
    (argument : Argument) (id : ℕ) (owns : Bool) (config : ServerConfig)
    → target argument ≡ some (id, owns)
    → IsSorted config.objects
    → (set_access_control argument config ≡ undefined)
      ↔ ((find id config.objects ≡ none) ⊎ (config.access_control ≡ adapter id true))
set_access_control-undefined argument id owns config named sorted =
    let called = set-install argument id owns config named in
    let cleared =
      find-clear id config.security_policies config.access_control config.objects sorted in
    (
      λ h. elim (owned_or_not config.access_control id) [
        | inl owned ↦ inr owned
        | inr other ↦ inl (not_found id owns config sorted other (sym called ∙ h))
      ],
      λ h.
          called
          ∙ install-undefined id owns config (
              cleared ∙ elim h [
                | inl lost ↦
                    ap (left config.access_control id) lost ∙ left-none config.access_control id
                | inr owned ↦ left-owned config.access_control id (find id config.objects) owned
              ]),
    )

-- Objects are shared: a second configuration is given the object that a first call installed, with
-- any security policies of its own. Then the policies of the object stay those of the first call.
pub set_access_control-shared :
    (argument argument' : Argument) (id : ℕ) (owns owns' : Bool) (config : ServerConfig)
    (uri : Bytes) (ps : List UserTokenPolicy) (uris' : List Bytes) (plugin' : Plugin)
    → target argument ≡ some (id, owns)
    → target argument' ≡ some (id, owns')
    → IsSorted config.objects
    → config.access_control ≢ adapter id true
    → plugin' ≢ adapter id true
    → find id config.objects ≡ some ps
    → highest_uri config.security_policies ≡ some uri
    → uri ≢ []
    → (config' config'' : ServerConfig) × (set_access_control argument config ≡ ok config')
      × (set_access_control argument' (record {
        security_policies = uris';
        access_control = plugin';
        objects = config'.objects;
      })
          ≡ ok config'')
      × (find id config''.objects ≡ find id config'.objects)
set_access_control-shared argument argument' id owns owns' config uri ps uris' plugin' named named'
      sorted other other' alive last given =
    let (config', done, _, found, _, sorted') = install-ok id owns config ps sorted other alive in
    let ps' = set_highest_security_policy config.security_policies ps in
    let second : ServerConfig = record {
      security_policies = uris';
      access_control = plugin';
      objects = config'.objects;
    } in
    let (config'', done', _, found', _, _) = install-ok id owns' second ps' sorted' other' found in
    let safe = Zip-IsProtected given (highest_some config.security_policies uri ps last) in
    (
      config',
      config'',
      set-install argument id owns config named ∙ done,
      set-install argument' id owns' second named' ∙ done',
      found' ∙ ap some (highest_same uris' ps' safe) ∙ sym found,
    )
