-- ===== src/Application/Closed.antt =====
-- What a session that is not open, or whose admission is closed, lets through: nothing.
use vaultwarden_cli.Base.{
  ℕ, ◌≡◌, refl, Bool, true, false, Option, Result, ok, err, is_ok, arith, ◌⊎◌, inl, inr, none, some,
  sym, ◌∙◌, any, List, Text,
}
use vaultwarden_cli.Host.{Host}
use vaultwarden_cli.Request.Types.{ApprovalMethod, ApprovalBinding}
use vaultwarden_cli.Provider.Requests.{DirectSubmission}
use vaultwarden_cli.Application.Types.{Session, Outside, SessionError, Settings}
use vaultwarden_cli.Application.Action.{Action, resume, ◌>>=◌, map_error, observe}
use vaultwarden_cli.Application.Authority.{admit, authenticate}
use vaultwarden_cli.Application.Decision.{
  PreparedApproval, refreshed, prepare_approval, commit_decision, deny_direct,
}
use vaultwarden_cli.Application.Submission.{submit_direct}
use vaultwarden_cli.Application.Execution.{execution_authority, execution_live}
use vaultwarden_cli.Application.Reconcile.{reconcile_write}
use vaultwarden_cli.Application.Follows.{Hold, Follows, Keeps, ask-Keeps, Keeps-check}
use vaultwarden_cli.Application.Run.{
  Method, perform_all, perform_all-Follows, perform_all-closes, opens,
}
use vaultwarden_cli.Application.Safety.{admit-Admits}

-- Admission is closed, or no session is open.
abbrev Shut : Session → Type 0
Shut s = (s.closing ≡ true) ⊎ (s.deadline ≡ none)

-- An action that succeeds only while a session is open and admission is.
record Guarded {E A : Type 0} (m : Action E A) : Type 0 where
  guarded : (o : Outside) (s : Session) → Shut s → is_ok (m o s).0 ≡ false

none-some : {n : ℕ} → ◌≡◌ {A = Option ℕ} none (some n) → ⊥
none-some e = cc

module _ ⦃h : Host⦄ where
  Follows-Shut : (s t : Session) → Follows Hold.kept s t → Shut s → Shut t
  Follows-Shut s t f (inl e) = inl (f.closed e)
  Follows-Shut s t f (inr e) = inr (f.closes refl e)

  Guarded-admit : Guarded admit
  Guarded-admit = record { guarded = λ o s e. shut o s e (admit o s) refl }
    where
      shut :
          (o : Outside) (s : Session)
          → Shut s
          → (x : Result SessionError (Unit {0}) × Session) → admit o s ≡ x
          → is_ok x.0 ≡ false
      shut o s e (err _, t) q = refl
      shut o s (inl e) (ok u, t) q = absurd (ground (arith, e, (admit-Admits o s t q).admitting))
      shut o s (inr e) (ok u, t) q = absurd (none-some (sym e ∙ (admit-Admits o s t q).ends))

  mapped :
      {E F A : Type 0} (g : E → F) (x : Result E A × Session)
      → is_ok x.0 ≡ false
      → is_ok {E = F} {A = A} (elim x.0 [ ok a ↦ ok a | err e ↦ err (g e) ]) ≡ false
  mapped g (ok a, t) q = q
  mapped g (err e, t) q = refl

  Guarded-map_error :
      {E F A : Type 0} (g : E → F) (m : Action E A) → Guarded m → Guarded (map_error g m)
  Guarded-map_error g m k = record { guarded = λ o s e. mapped g (m o s) (k.guarded o s e) }

  stopped :
      {E A B : Type 0} (f : A → Action E B) (o : Outside) (x : Result E A × Session)
      → is_ok x.0 ≡ false
      → is_ok (resume f o x).0 ≡ false
  stopped f o (ok a, t) q = cc
  stopped f o (err e, t) q = refl

  -- It is enough that the first part is guarded,
  Guarded-first :
      {E A B : Type 0} (m : Action E A) (f : A → Action E B) → Guarded m → Guarded (m >>= f)
  Guarded-first m f k = record { guarded = λ o s e. stopped f o (m o s) (k.guarded o s e) }

  onward :
      {E A B : Type 0} (f : A → Action E B) (o : Outside) (x : Result E A × Session)
      → Shut x.1
      → ((a : A) → Guarded (f a))
      → is_ok (resume f o x).0 ≡ false
  onward f o (ok a, t) q k = (k a).guarded o t q
  onward f o (err e, t) q k = refl

  -- or that the first part keeps it shut, and the rest is guarded.
  Guarded-then :
      {E A B : Type 0} (m : Action E A) (f : A → Action E B)
      → Keeps Hold.kept m
      → ((a : A) → Guarded (f a))
      → Guarded (m >>= f)
  Guarded-then m f p k = record {
    guarded = λ o s e. onward f o (m o s) (Follows-Shut s (m o s).1 (p.follows o s) e) k;
  }

  authenticate-closed :
      (o : Outside) (s : Session) → s.closing ≡ true → is_ok (authenticate o s).0 ≡ false
  unfolding authenticate observe
  authenticate-closed o s e = rw e refl

  Guarded-refreshed : Guarded refreshed
  unfolding refreshed
  Guarded-refreshed = search (Guarded-first, Guarded-map_error, Guarded-admit) depth 6

  Guarded-commit :
      (c : Settings) (p : PreparedApproval) (approve : Bool) (m : Option ApprovalMethod)
      → Guarded (commit_decision c p approve m)
  unfolding commit_decision
  Guarded-commit c p approve m = Guarded-first refreshed _ Guarded-refreshed

  Guarded-prepare : (c : Settings) (owner : ℕ) (id : Text) → Guarded (prepare_approval c owner id)
  unfolding prepare_approval
  Guarded-prepare c owner id =
      search (Guarded-then, Guarded-first, Guarded-refreshed, Keeps-check) depth 6

  Guarded-submit :
      (c : Settings) (owner : ℕ) (input : DirectSubmission) → Guarded (submit_direct c owner input)
  unfolding submit_direct
  Guarded-submit c owner input =
      search (Guarded-then, Guarded-first, Guarded-map_error, Guarded-admit, Keeps-check, ask-Keeps)
        depth 10

  Guarded-deny : (c : Settings) (owner : ℕ) (id : Text) → Guarded (deny_direct c owner id)
  unfolding deny_direct
  Guarded-deny c owner id = search (Guarded-then, Guarded-first, Guarded-prepare) depth 6

  Guarded-deliver :
      (owner : ℕ) (id : Text) (b : Option ApprovalBinding) (claimed : Bool)
      → Guarded (execution_authority owner id b claimed)
  unfolding execution_authority execution_live
  Guarded-deliver owner id b claimed =
      search (Guarded-first, Guarded-map_error, Guarded-admit) depth 8

  Guarded-reconcile :
      (c : Settings) (owner : ℕ) (id item : Text) → Guarded (reconcile_write c owner id item)
  unfolding reconcile_write
  Guarded-reconcile c owner id item =
      search (Guarded-then, Guarded-first, Guarded-map_error, Guarded-admit, Keeps-check) depth 10

  -- Once admission is closed, and whatever methods are called then, nobody is admitted or
  -- authenticated, and no request is submitted, prepared for a decision, approved or denied.
  pub closed-refuses :
      (c : Settings) (o : Outside) (s : Session) (ms : List Method)
      → s.closing ≡ true
      → let t = perform_all c ms o s in
        (is_ok (admit o t).0 ≡ false)
        × (is_ok (authenticate o t).0 ≡ false)
        × ((owner : ℕ) (input : DirectSubmission)
            → is_ok (submit_direct c owner input o t).0 ≡ false)
        × ((owner : ℕ) (id : Text) → is_ok (prepare_approval c owner id o t).0 ≡ false)
        × ((p : PreparedApproval) (approve : Bool) (m : Option ApprovalMethod)
            → is_ok (commit_decision c p approve m o t).0 ≡ false)
  closed-refuses c o s ms e =
      let shut = (perform_all-Follows c ms o s).closed e in
      let t = perform_all c ms o s in
      (
        Guarded-admit.guarded o t (inl shut),
        authenticate-closed o t shut,
        λ owner input. (Guarded-submit c owner input).guarded o t (inl shut),
        λ owner id. (Guarded-prepare c owner id).guarded o t (inl shut),
        λ p approve m. (Guarded-commit c p approve m).guarded o t (inl shut),
      )

  -- While no session is open, and whatever modelled methods but an authentication are called,
  -- none opens: nobody is admitted, no request is submitted, prepared for a decision, approved or
  -- denied, nothing is delivered for execution, and no write is reconciled.
  pub locked-refuses :
      (c : Settings) (o : Outside) (s : Session) (ms : List Method)
      → s.deadline ≡ none
      → any opens ms ≡ false
      → let t = perform_all c ms o s in
        (t.deadline ≡ none)
        × (is_ok (admit o t).0 ≡ false)
        × ((owner : ℕ) (input : DirectSubmission)
            → is_ok (submit_direct c owner input o t).0 ≡ false)
        × ((owner : ℕ) (id : Text) → is_ok (prepare_approval c owner id o t).0 ≡ false)
        × ((p : PreparedApproval) (approve : Bool) (m : Option ApprovalMethod)
            → is_ok (commit_decision c p approve m o t).0 ≡ false)
        × ((owner : ℕ) (id : Text) → is_ok (deny_direct c owner id o t).0 ≡ false)
        × ((owner : ℕ) (id : Text) (b : Option ApprovalBinding) (claimed : Bool)
            → is_ok (execution_authority owner id b claimed o t).0 ≡ false)
        × ((owner : ℕ) (id item : Text) → is_ok (reconcile_write c owner id item o t).0 ≡ false)
  locked-refuses c o s ms e quiet =
      let t = perform_all c ms o s in
      let still = perform_all-closes c ms o s quiet e in
      (
        still,
        Guarded-admit.guarded o t (inr still),
        λ owner input. (Guarded-submit c owner input).guarded o t (inr still),
        λ owner id. (Guarded-prepare c owner id).guarded o t (inr still),
        λ p approve m. (Guarded-commit c p approve m).guarded o t (inr still),
        λ owner id. (Guarded-deny c owner id).guarded o t (inr still),
        λ owner id b claimed. (Guarded-deliver owner id b claimed).guarded o t (inr still),
        λ owner id item. (Guarded-reconcile c owner id item).guarded o t (inr still),
      )
