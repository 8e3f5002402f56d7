-- ===== src/Tests/Plugins.antt =====
-- The theorems about the plugins, at concrete values.
use ferrumgw.Common.{
  ℕ, ◌≡◌, ◌≢◌, ◌⊎◌, ◌↔◌, String, true, false, [], ◌∷◌, none, some, Result, ok, leb,
}
use ferrumgw.Plugins.Pipeline.{Plugin, Hook, run_pre_proxy_plugins}
use ferrumgw.Plugins.Pipeline.Order.{
  pre_proxy_hooks, Passes, StoppedBy, run_pre_proxy_plugins_cases,
}
use ferrumgw.Config.{multi}
use ferrumgw.Plugins.AccessControl.{AccessControlConfig, new_plugin, authorize}
use ferrumgw.Plugins.AccessControl.Laws.{Lists, authorize_iff}
use ferrumgw.Plugins.Authentication.Laws.{Method}

-- Requests, responses and contexts are numbers; an error is a text.
abbrev goes_on : Hook ℕ ℕ String
goes_on req ctx = (req, ctx, ok true)

-- A plugin that counts requests, and stops those above 9.
abbrev counting : Plugin ℕ ℕ ℕ String
counting = record {
  name = "counting";
  on_request_received = λ req ctx. (req, ctx, ok true);
  authenticate = λ req ctx. (req, ctx, ok (leb req 9));
  authorize = λ req ctx. (req, ctx, ok true);
  before_proxy = λ req ctx. (req, ctx, ok true);
  after_proxy = λ resp ctx. (resp, ctx, ok tt);
}

run_pre_proxy_plugins_cases_example :
    ((req' : ℕ) × (ctx' : ℕ) × (run_pre_proxy_plugins (counting ∷ []) 12 0 ≡ (req', ctx', ok true))
      × Passes (pre_proxy_hooks (counting ∷ [])) 12 0 req' ctx')
    ⊎ ((run_pre_proxy_plugins (counting ∷ []) 12 0).2 ≢ ok true
        × StoppedBy
            (pre_proxy_hooks (counting ∷ []))
            12
            0
            (run_pre_proxy_plugins (counting ∷ []) 12 0))
run_pre_proxy_plugins_cases_example = run_pre_proxy_plugins_cases (counting ∷ []) 12 0

abbrev create : String → String → Result String (Plugin ℕ ℕ ℕ String)
create name config = ok counting

abbrev no_bob : AccessControlConfig
no_bob = record {
  allowed_consumers = [];
  disallowed_consumers = "bob" ∷ [];
  allow_anonymous = true;
}

authorize_iff_example :
    ((authorize (new_plugin (some no_bob)) multi (some "bob") ≡ true) ↔ (
      (¬ Lists no_bob.disallowed_consumers "bob")
      × ((no_bob.allowed_consumers ≡ []) ⊎ Lists no_bob.allowed_consumers "bob")))
    × ((authorize (new_plugin (some no_bob)) multi none ≡ true) ↔ (true ≡ true))
    × (authorize (new_plugin none) multi (some "bob") ≡ true)
    × (authorize (new_plugin none) multi none ≡ false)
authorize_iff_example = authorize_iff no_bob multi "bob"

-- A method that knows the requests above a number.
abbrev above : ℕ → Method ℕ String
above n = record {
  K = ℕ;
  V = ℕ;
  extract = λ req. some req;
  validate = λ req. elim (leb n req) [ true ↦ some req | false ↦ none ];
  find_consumer = λ v. some "alice";
}
