-- ===== src/Plugins/Authentication/Laws.antt =====
-- One authentication plugin, and a chain of them.
use ferrumgw.Common.{◌≡◌, refl, Bool, true, false, ◌||◌, List, [], ◌∷◌, Option, none, some, arith}
use ferrumgw.Config.{AuthMode, single, multi}
use ferrumgw.Plugins.Authentication.{authenticate, on_failure}

abbrev pub bind {ℓ} : {A B : Type ℓ} → Option A → (A → Option B) → Option B
bind none f = none
bind (some a) f = f a

abbrev pub or_else {ℓ} : {A : Type ℓ} → Option A → Option A → Option A
or_else (some a) o = some a
or_else none o = o

abbrev pub is_some {ℓ} : {A : Type ℓ} → Option A → Bool
is_some none = false
is_some (some a) = true

module _ {Req K V C : Type 0} (extract : Req → Option K) (validate : K → Option V)
    (find_consumer : V → Option C) where
  -- The consumer that the credentials of the request identify.
  abbrev pub identified : Req → Option C
  identified req = bind (bind (extract req) validate) find_consumer

  -- A consumer that is known stays; otherwise it is the one that the credentials identify. The request
  -- goes on in multi-auth mode always, and in single mode exactly when there is a consumer.
  pub authenticate_by_mode :
      (mode : AuthMode) (req : Req) (before : Option C)
      → authenticate extract validate find_consumer mode req before ≡ (
        or_else before (identified req),
        on_failure mode || is_some (or_else before (identified req)),
      )
  unfolding authenticate
  authenticate_by_mode mode req before = ground arith

-- One of the authentication plugins of a proxy.
pub record Method (Req C : Type 0) : Type 1 where
  pub K : Type 0
  pub V : Type 0
  pub extract : Req → Option K
  pub validate : K → Option V
  pub find_consumer : V → Option C

abbrev next_method : {C : Type 0} → (Option C → Option C × Bool) → Option C × Bool → Option C × Bool
next_method rest (consumer, true) = rest consumer
next_method rest (consumer, false) = (consumer, false)

module _ {Req C : Type 0} where
  abbrev pub method_identifies : Method Req C → Req → Option C
  method_identifies m req = identified m.extract m.validate m.find_consumer req

  -- The `authenticate` phase over these plugins.
  pub run_methods : AuthMode → Req → List (Method Req C) → Option C → Option C × Bool
  run_methods mode req [] consumer = (consumer, true)
  run_methods mode req (m ∷ ms) consumer =
      let rest = run_methods mode req ms in
      next_method rest (authenticate m.extract m.validate m.find_consumer mode req consumer)

  -- The consumer of the first method that identifies one.
  abbrev pub first_identified : Req → List (Method Req C) → Option C
  first_identified req [] = none
  first_identified req (m ∷ ms) = or_else (method_identifies m req) (first_identified req ms)

  -- In multi-auth mode the authentication phase always goes on, with the consumer that was known, or
  -- else that of the first method that identifies one, or none if no method does.
  pub run_methods_multi :
      (req : Req) (ms : List (Method Req C)) (before : Option C)
      → run_methods multi req ms before ≡ (or_else before (first_identified req ms), true)
  unfolding run_methods
  run_methods_multi req [] none = refl
  run_methods_multi req [] (some c) = refl
  run_methods_multi req (m ∷ ms) before = ground (
    arith,
    authenticate_by_mode m.extract m.validate m.find_consumer multi req before,
    run_methods_multi req ms (or_else before (method_identifies m req)),
  )

  known_stays :
      (mode : AuthMode) (req : Req) (ms : List (Method Req C)) (c : C)
      → run_methods mode req ms (some c) ≡ (some c, true)
  unfolding run_methods authenticate
  known_stays mode req [] c = refl
  known_stays mode req (m ∷ ms) c = known_stays mode req ms c

  -- In single mode the first method decides: the phase goes on exactly when that method identifies a
  -- consumer, and no later method changes this.
  pub run_methods_single :
      (req : Req) (m : Method Req C) (ms : List (Method Req C))
      → run_methods single req (m ∷ ms) none
        ≡ (method_identifies m req, is_some (method_identifies m req))
  unfolding run_methods
  run_methods_single req m ms =
      rw (authenticate_by_mode m.extract m.validate m.find_consumer single req none)
        (go (method_identifies m req))
    where
      go :
          (found : Option C)
          → next_method (run_methods single req ms) (found, is_some found) ≡ (found, is_some found)
      go none = refl
      go (some c) = known_stays single req ms c
