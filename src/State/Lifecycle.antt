-- ===== src/State/Lifecycle.antt =====
-- The life of a request as its reviewer sees it: what may happen to its status and its claim, told
-- without the transitions of src/access/provider_store.rs.
use vaultwarden_cli.Base.{◌≡◌, Bool, true, false, ◌||◌, ◌&&◌, ℤ, arith}
use vaultwarden_cli.Request.Types.{DirectStatus, DirectFailure}
use vaultwarden_cli.State.Transition.{step_legal, is_approved, is_failed}

-- One step, from a status and whether the request is claimed.
pub data Lifecycle : DirectStatus → Bool → DirectStatus → Bool → Type 0 where
  approve : (c : Bool) → Lifecycle DirectStatus.pending c DirectStatus.approved c
  deny : (c : Bool) → Lifecycle DirectStatus.pending c DirectStatus.denied c
  lapse : (c : Bool) → Lifecycle DirectStatus.pending c DirectStatus.expired c
  withdraw : (c : Bool) → Lifecycle DirectStatus.approved c DirectStatus.expired c
  claim : Lifecycle DirectStatus.approved false DirectStatus.approved true
  begin : (c : Bool) → Lifecycle DirectStatus.approved c DirectStatus.running c
  abandon : (f : DirectFailure) → Lifecycle DirectStatus.approved true (DirectStatus.failed f) true
  complete : (c : Bool) (n : ℤ) → Lifecycle DirectStatus.running c (DirectStatus.completed n) c
  fail : (c : Bool) (f : DirectFailure) → Lifecycle DirectStatus.running c (DirectStatus.failed f) c

-- Any number of steps.
pub data Reaches : DirectStatus → Bool → DirectStatus → Bool → Type 0 where
  stay : (s : DirectStatus) (c : Bool) → Reaches s c s c
  step :
      (s t u : DirectStatus) (b c d : Bool) → Lifecycle s b t c → Reaches t c u d → Reaches s b u d

pub Reaches-trans :
    (s t u : DirectStatus) (b c d : Bool) → Reaches s b t c → Reaches t c u d → Reaches s b u d
Reaches-trans s t u b c d (Reaches.stay _ _) q = q
Reaches-trans s t u b c d (Reaches.step _ v _ _ e _ l p) q =
    Reaches.step s v u b e d l (Reaches-trans v t u e c d p q)

-- What the store lets through is a step of the lifecycle.
pub legal_step :
    (s next : DirectStatus) (c : Bool)
    → (step_legal s next || (c && is_approved s && is_failed next)) ≡ true
    → Lifecycle s c next c
legal_step DirectStatus.pending DirectStatus.pending c e = ground arith
legal_step DirectStatus.pending DirectStatus.approved c e = Lifecycle.approve c
legal_step DirectStatus.pending DirectStatus.denied c e = Lifecycle.deny c
legal_step DirectStatus.pending DirectStatus.expired c e = Lifecycle.lapse c
legal_step DirectStatus.pending DirectStatus.running c e = ground arith
legal_step DirectStatus.pending (DirectStatus.completed m) c e = ground arith
legal_step DirectStatus.pending (DirectStatus.failed g) c e = ground arith
legal_step DirectStatus.approved DirectStatus.pending c e = ground arith
legal_step DirectStatus.approved DirectStatus.approved c e = ground arith
legal_step DirectStatus.approved DirectStatus.denied c e = ground arith
legal_step DirectStatus.approved DirectStatus.expired c e = Lifecycle.withdraw c
legal_step DirectStatus.approved DirectStatus.running c e = Lifecycle.begin c
legal_step DirectStatus.approved (DirectStatus.completed m) c e = ground arith
legal_step DirectStatus.approved (DirectStatus.failed g) true e = Lifecycle.abandon g
legal_step DirectStatus.approved (DirectStatus.failed g) false e = cc
legal_step DirectStatus.denied DirectStatus.pending c e = ground arith
legal_step DirectStatus.denied DirectStatus.approved c e = ground arith
legal_step DirectStatus.denied DirectStatus.denied c e = ground arith
legal_step DirectStatus.denied DirectStatus.expired c e = ground arith
legal_step DirectStatus.denied DirectStatus.running c e = ground arith
legal_step DirectStatus.denied (DirectStatus.completed m) c e = ground arith
legal_step DirectStatus.denied (DirectStatus.failed g) c e = ground arith
legal_step DirectStatus.expired DirectStatus.pending c e = ground arith
legal_step DirectStatus.expired DirectStatus.approved c e = ground arith
legal_step DirectStatus.expired DirectStatus.denied c e = ground arith
legal_step DirectStatus.expired DirectStatus.expired c e = ground arith
legal_step DirectStatus.expired DirectStatus.running c e = ground arith
legal_step DirectStatus.expired (DirectStatus.completed m) c e = ground arith
legal_step DirectStatus.expired (DirectStatus.failed g) c e = ground arith
legal_step DirectStatus.running DirectStatus.pending c e = ground arith
legal_step DirectStatus.running DirectStatus.approved c e = ground arith
legal_step DirectStatus.running DirectStatus.denied c e = ground arith
legal_step DirectStatus.running DirectStatus.expired c e = ground arith
legal_step DirectStatus.running DirectStatus.running c e = ground arith
legal_step DirectStatus.running (DirectStatus.completed m) c e = Lifecycle.complete c m
legal_step DirectStatus.running (DirectStatus.failed g) c e = Lifecycle.fail c g
legal_step (DirectStatus.completed n) DirectStatus.pending c e = ground arith
legal_step (DirectStatus.completed n) DirectStatus.approved c e = ground arith
legal_step (DirectStatus.completed n) DirectStatus.denied c e = ground arith
legal_step (DirectStatus.completed n) DirectStatus.expired c e = ground arith
legal_step (DirectStatus.completed n) DirectStatus.running c e = ground arith
legal_step (DirectStatus.completed n) (DirectStatus.completed m) c e = ground arith
legal_step (DirectStatus.completed n) (DirectStatus.failed g) c e = ground arith
legal_step (DirectStatus.failed f) DirectStatus.pending c e = ground arith
legal_step (DirectStatus.failed f) DirectStatus.approved c e = ground arith
legal_step (DirectStatus.failed f) DirectStatus.denied c e = ground arith
legal_step (DirectStatus.failed f) DirectStatus.expired c e = ground arith
legal_step (DirectStatus.failed f) DirectStatus.running c e = ground arith
legal_step (DirectStatus.failed f) (DirectStatus.completed m) c e = ground arith
legal_step (DirectStatus.failed f) (DirectStatus.failed g) c e = ground arith
