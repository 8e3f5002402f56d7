-- ===== src/Plugins/Pipeline/Order.antt =====
-- src/plugins/mod.rs, `run_pre_proxy_plugins`: the order of the hooks, and where it stops.
use ferrumgw.Common.{
  ◌≡◌, ◌≢◌, refl, sym, ap, ◌⊎◌, inl, inr, Bool, true, false, List, [], ◌∷◌, ◌++◌, map, Result, ok,
  err,
}
use ferrumgw.Plugins.Pipeline.{
  Hook, Plugin, continue_with, and_then, run_phase, run_pre_proxy_plugins,
}

module _ {Req Ctx Error : Type 0} where
  -- Hooks one after the other, as long as each of them says to go on.
  pub run_hooks : List (Hook Req Ctx Error) → Hook Req Ctx Error
  run_hooks [] req ctx = (req, ctx, ok true)
  run_hooks (h ∷ hs) req ctx = let rest = run_hooks hs in continue_with rest (h req ctx)

  -- The hooks of the list all say to go on, and lead from one state to the other.
  pub data Passes : List (Hook Req Ctx Error) → Req → Ctx → Req → Ctx → Type 0 where
    done : {req : Req} {ctx : Ctx} → Passes [] req ctx req ctx
    step :
        {h : Hook Req Ctx Error} {hs : List (Hook Req Ctx Error)} {req req' req'' : Req}
        {ctx ctx' ctx'' : Ctx}
        → h req ctx ≡ (req', ctx', ok true)
        → Passes hs req' ctx' req'' ctx''
        → Passes (h ∷ hs) req ctx req'' ctx''

  continue-append :
      (hs ks both : Hook Req Ctx Error) (r : Req × Ctx × Result Error Bool)
      → ((req : Req) (ctx : Ctx) → both req ctx ≡ and_then hs ks req ctx)
      → continue_with both r ≡ continue_with ks (continue_with hs r)
  unfolding and_then
  continue-append hs ks both (req, ctx, ok true) ih = ih req ctx
  continue-append hs ks both (req, ctx, ok false) ih = refl
  continue-append hs ks both (req, ctx, err e) ih = refl

  run_hooks-append :
      (hs ks : List (Hook Req Ctx Error)) (req : Req) (ctx : Ctx)
      → run_hooks (hs ++ ks) req ctx ≡ and_then (run_hooks hs) (run_hooks ks) req ctx
  unfolding run_hooks and_then
  run_hooks-append [] ks req ctx = refl
  run_hooks-append (h ∷ hs) ks req ctx =
      continue-append (run_hooks hs) (run_hooks ks) (run_hooks (hs ++ ks)) (h req ctx)
        (run_hooks-append hs ks)

  and_then-run_hooks :
      (hs ks : List (Hook Req Ctx Error))
      → run_hooks (hs ++ ks) ≡ and_then (run_hooks hs) (run_hooks ks)
  and_then-run_hooks hs ks = λ i req ctx. run_hooks-append hs ks req ctx i

  run_hooks-append_phases :
      (hs bs cs ds : List (Hook Req Ctx Error))
      → run_hooks (hs ++ (bs ++ (cs ++ ds)))
        ≡ and_then (run_hooks hs) (and_then (run_hooks bs) (and_then (run_hooks cs) (run_hooks ds)))
  run_hooks-append_phases hs bs cs ds = simp and_then-run_hooks

  -- The hook that stopped the run, behind hooks that all said to go on.
  pub record StoppedBy (hooks : List (Hook Req Ctx Error)) (req : Req) (ctx : Ctx)
      (result : Req × Ctx × Result Error Bool) : Type 0 where
    pub earlier : List (Hook Req Ctx Error)
    pub hook : Hook Req Ctx Error
    pub later : List (Hook Req Ctx Error)
    pub req_there : Req
    pub ctx_there : Ctx
    pub split : hooks ≡ earlier ++ (hook ∷ later)
    pub passes : Passes earlier req ctx req_there ctx_there
    pub stops : hook req_there ctx_there ≡ result

  StoppedBy-cons :
      {h : Hook Req Ctx Error} {hs : List (Hook Req Ctx Error)} {req req' : Req} {ctx ctx' : Ctx}
      {result : Req × Ctx × Result Error Bool}
      → h req ctx ≡ (req', ctx', ok true)
      → StoppedBy hs req' ctx' result
      → StoppedBy (h ∷ hs) req ctx result
  StoppedBy-cons {h} e s = record {
    earlier = h ∷ s.earlier;
    hook = s.hook;
    later = s.later;
    req_there = s.req_there;
    ctx_there = s.ctx_there;
    split = ap (λ l. h ∷ l) s.split;
    passes = step e s.passes;
    stops = s.stops;
  }

  stopped_here :
      (h : Hook Req Ctx Error) (hs : List (Hook Req Ctx Error)) (req : Req) (ctx : Ctx)
      → StoppedBy (h ∷ hs) req ctx (h req ctx)
  stopped_here h hs req ctx = record {
    earlier = [];
    hook = h;
    later = hs;
    req_there = req;
    ctx_there = ctx;
    split = refl;
    passes = done;
    stops = refl;
  }

  -- Either every hook of the list passes, or one stops the run with its own result.
  pub run_hooks_cases :
      (hs : List (Hook Req Ctx Error)) (req : Req) (ctx : Ctx)
      → ((req' : Req) × (ctx' : Ctx) × (run_hooks hs req ctx ≡ (req', ctx', ok true))
          × Passes hs req ctx req' ctx')
        ⊎ ((run_hooks hs req ctx).2 ≢ ok true × StoppedBy hs req ctx (run_hooks hs req ctx))
  unfolding run_hooks
  run_hooks_cases [] req ctx = inl (req, ctx, refl, done)
  run_hooks_cases (h ∷ hs) req ctx = go (h req ctx) refl (run_hooks_cases hs)
    where
      go :
          (r : Req × Ctx × Result Error Bool)
          → h req ctx ≡ r
          → ((q : Req) (c : Ctx)
              → ((req' : Req) × (ctx' : Ctx) × (run_hooks hs q c ≡ (req', ctx', ok true))
                  × Passes hs q c req' ctx')
                ⊎ ((run_hooks hs q c).2 ≢ ok true × StoppedBy hs q c (run_hooks hs q c)))
          → ((req' : Req) × (ctx' : Ctx) × (continue_with (run_hooks hs) r ≡ (req', ctx', ok true))
              × Passes (h ∷ hs) req ctx req' ctx')
            ⊎ ((continue_with (run_hooks hs) r).2 ≢ ok true
                × StoppedBy (h ∷ hs) req ctx (continue_with (run_hooks hs) r))
      go (q, c, ok true) e ih = elim (ih q c) [
        | inl (q', c', same, passes) ↦ inl (q', c', same, step e passes)
        | inr (differs, stopped) ↦ inr (differs, StoppedBy-cons e stopped)
      ]
      go (q, c, ok false) e ih = inr (λ same. cc, rw (← e) (stopped_here h hs req ctx))
      go (q, c, err x) e ih = inr (λ same. cc, rw (← e) (stopped_here h hs req ctx))

module _ {Req Resp Ctx Error : Type 0} where
  -- The hooks of a request in the order in which they are meant to run: all plugins for one phase,
  -- then all plugins for the next.
  abbrev pub pre_proxy_hooks : List (Plugin Req Resp Ctx Error) → List (Hook Req Ctx Error)
  pre_proxy_hooks active =
      map (λ p. p.on_request_received) active
      ++ (map (λ p. p.authenticate) active
          ++ (map (λ p. p.authorize) active ++ map (λ p. p.before_proxy) active))

  run_phase-eq-run_hooks :
      (hook : Plugin Req Resp Ctx Error → Hook Req Ctx Error)
      (ps : List (Plugin Req Resp Ctx Error))
      → run_phase hook ps ≡ run_hooks (map hook ps)
  unfolding run_phase run_hooks
  run_phase-eq-run_hooks hook [] = refl
  run_phase-eq-run_hooks hook (p ∷ ps) =
      λ i req ctx. continue_with (run_phase-eq-run_hooks hook ps i) (hook p req ctx)

  -- `run_pre_proxy_plugins` runs the hooks phase by phase, and within a phase in the order of the
  -- plugins, up to the first that does not return `Ok(true)`.
  pub run_pre_proxy_plugins-eq-run_hooks :
      (active : List (Plugin Req Resp Ctx Error)) (req : Req) (ctx : Ctx)
      → run_pre_proxy_plugins active req ctx ≡ run_hooks (pre_proxy_hooks active) req ctx
  unfolding run_pre_proxy_plugins
  run_pre_proxy_plugins-eq-run_hooks active req ctx =
      let in_order =
        run_hooks-append_phases (map (λ p. p.on_request_received) active)
          (map (λ p. p.authenticate) active) (map (λ p. p.authorize) active)
          (map (λ p. p.before_proxy) active) in
      simp run_phase-eq-run_hooks (ap (λ run. run req ctx) (sym in_order))

  -- If `run_pre_proxy_plugins` returns `Ok(true)`, then every hook of every active plugin was called and
  -- returned `Ok(true)`; otherwise one hook stopped the request with the result that is returned,
  -- all hooks before it returned `Ok(true)`, and the hooks behind it were not called.
  pub run_pre_proxy_plugins_cases :
      (active : List (Plugin Req Resp Ctx Error)) (req : Req) (ctx : Ctx)
      → ((req' : Req) × (ctx' : Ctx) × (run_pre_proxy_plugins active req ctx
            ≡ (req', ctx', ok true))
          × Passes (pre_proxy_hooks active) req ctx req' ctx')
        ⊎ ((run_pre_proxy_plugins active req ctx).2 ≢ ok true
            × StoppedBy (pre_proxy_hooks active) req ctx (run_pre_proxy_plugins active req ctx))
  run_pre_proxy_plugins_cases active req ctx =
      rw run_pre_proxy_plugins-eq-run_hooks (run_hooks_cases (pre_proxy_hooks active) req ctx)
