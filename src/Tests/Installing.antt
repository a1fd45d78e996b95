-- ===== src/Tests/Installing.antt =====
-- Examples of setAccessControl.
use open62541pp.Prelude.{
  ℕ, ◌≡◌, ◌≢◌, refl, ◌↔◌, ◌⊎◌, true, false, arith, none, some, List, [], ◌∷◌, All,
}
use open62541pp.Prelude.Text.{Bytes, codes as text}
use open62541pp.Map.{find}
use open62541pp.Map.Order.{nat_ord, same}
use open62541pp.Outcome.{ok, undefined}
use open62541pp.AccessControl.Default.{UserTokenPolicy, init}
use open62541pp.AccessControl.Policies.{IsProtected, IsTransferred, Zip}
use open62541pp.AccessControl.Install.{
  library, adapter, ServerConfig, reference, unique, highest_uri, set_access_control,
}
use open62541pp.AccessControl.Ownership.{left}
use open62541pp.AccessControl.Configuration.{
  set_access_control-IsTransferred, set_access_control-undefined,
}

abbrev policies : List UserTokenPolicy
policies =
    (init true
      (record { username = text "user"; password = text "secret" } ∷ [])).user_token_policies

abbrev uri : Bytes
uri = text "Basic256Sha256"

abbrev config : ServerConfig
config = record {
  security_policies = text "None" ∷ uri ∷ [];
  access_control = adapter 3 true;
  objects = (3, []) ∷ (5, policies) ∷ [];
}

config-highest_uri : highest_uri config.security_policies ≡ some uri
unfolding highest_uri
config-highest_uri = refl

config-find : find 5 config.objects ≡ some policies
unfolding find
config-find = refl

uri-ne-nil : uri ≢ []
uri-ne-nil h = cc

address : (k id : ℕ) → adapter k true ≡ adapter id true → k ≡ id
address k id h = cc

not_owned : config.access_control ≢ adapter 5 true
not_owned h = let key = address 3 5 h in omega arith

not_library : library ≢ adapter 5 true
not_library h = cc

set_access_control-IsTransferred_example :
    (config' : ServerConfig) × (ps' : List UserTokenPolicy) × (set_access_control (unique 5) config
      ≡ ok config')
    × (config'.access_control ≡ adapter 5 true)
    × (find 5 config'.objects ≡ some ps')
    × Zip (IsTransferred uri) policies ps'
    × All IsProtected ps'
    × ((q : ℕ)
        → same 5 q ≡ false
        → find q config'.objects ≡ left config.access_control q (find q config.objects))
set_access_control-IsTransferred_example =
    set_access_control-IsTransferred (unique 5) 5 true config uri policies refl
      ((refl, tt), (tt, tt)) not_owned config-find config-highest_uri uri-ne-nil

set_access_control-undefined_example :
    (set_access_control (reference 3) config ≡ undefined)
    ↔ ((find 3 config.objects ≡ none) ⊎ (config.access_control ≡ adapter 3 true))
set_access_control-undefined_example =
    set_access_control-undefined (reference 3) 3 false config refl ((refl, tt), (tt, tt))
