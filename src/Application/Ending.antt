-- ===== src/Application/Ending.antt =====
-- What a refresh of the session keeps: deadlines go away or stay, and revocations are counted.
use vaultwarden_cli.Base.{
  ℕ, suc, ◌+◌, ◌%◌, ◌^◌, ◌≤◌, ◌≡◌, refl, ap, ◌∙◌, Bool, true, false, Option, none, some, Result, ok,
  err, arith, Text, ◌⊎◌, inl, inr, if◌then◌else◌,
}
use vaultwarden_cli.Host.{Host}
use vaultwarden_cli.Request.Types.{DirectStatus}
use vaultwarden_cli.Store.{Io}
use vaultwarden_cli.Provider.Defs.{Provider}
use vaultwarden_cli.Application.Types.{Session, Outside, SessionError}
use vaultwarden_cli.Application.Action.{
  Action, resume, pure, fail, lift, ◌>>=◌, attempt, map_error, check, gets, observe, ask, call,
  read,
}
use vaultwarden_cli.Application.Authority.{
  withdraw_authority, cleaned, clean_up, withdrawn, revoke, revoke_locked, admit_until, admit,
  locked_is_fine, admit_or_locked, retain_deadlines, expire_requests,
}
use vaultwarden_cli.Application.Queries.{refresh_session, refresh, is_settled_for}

-- A value of `b` that went away or stayed.
abbrev pub Left : {A : Type 0} → Option A → Option A → Type 0
Left a b = (b ≡ none) ⊎ (b ≡ a)

Left-trans : {A : Type 0} (a b c : Option A) → Left a b → Left b c → Left a c
Left-trans a b c p (inl e) = inl e
Left-trans a b c (inl f) (inr e) = inl (e ∙ f)
Left-trans a b c (inr f) (inr e) = inr (e ∙ f)

module _ ⦃h : Host⦄ (o : Outside) (published : ℕ → ℕ)
    (step : (n : ℕ) → (published n + o.revokes n) % 2 ^ 64 ≡ published (suc n)) where
  -- `published` counts what was published before each observation.
  pub record Ends (s t : Session) : Type 0 where
    pub later : s.tick ≤ t.tick
    pub session : Left s.deadline t.deadline
    pub requests : (id : Text) → Left (s.request_deadlines id) (t.request_deadlines id)
    pub epoch : t.session_epoch ≡ s.session_epoch
    pub counted : s.revocation_epoch ≡ published s.tick → t.revocation_epoch ≡ published t.tick

  pub Ends-refl : (s : Session) → Ends s s
  Ends-refl s = record {
    later = omega arith;
    session = inr refl;
    requests = λ id. inr refl;
    epoch = refl;
    counted = λ e. e;
  }

  pub Ends-trans : (s t u : Session) → Ends s t → Ends t u → Ends s u
  Ends-trans s t u p q = record {
    later = omega (arith, p.later, q.later);
    session = Left-trans _ _ _ p.session q.session;
    requests = λ id. Left-trans _ _ _ (p.requests id) (q.requests id);
    epoch = q.epoch ∙ p.epoch;
    counted = λ e. q.counted (p.counted e);
  }

  pub record Ending {E A : Type 0} (m : Action E A) : Type 0 where
    pub ending : (s : Session) → Ends s (m o s).1

  pub Ending-pure : {E A : Type 0} (a : A) → Ending {E = E} (pure a)
  Ending-pure a = record { ending = λ s. Ends-refl s }

  pub Ending-fail : {E A : Type 0} (e : E) → Ending {A = A} (fail e)
  Ending-fail e = record { ending = λ s. Ends-refl s }

  pub Ending-lift : {E A : Type 0} (r : Result E A) → Ending (lift r)
  Ending-lift r = record { ending = λ s. Ends-refl s }

  pub Ending-gets : {E A : Type 0} (f : Session → A) → Ending {E = E} (gets f)
  Ending-gets f = record { ending = λ s. Ends-refl s }

  pub Ending-check : {E : Type 0} (c : Bool) (e : E) → Ending (check c e)
  Ending-check true e = Ending-pure tt
  Ending-check false e = Ending-fail e

  pub Ending-if :
      {E A : Type 0} (c : Bool) (m n : Action E A)
      → Ending m
      → Ending n
      → Ending (if c then m else n)
  Ending-if true m n p q = p
  Ending-if false m n p q = q

  continued :
      {E A B : Type 0} (f : A → Action E B) (s : Session) (x : Result E A × Session)
      → Ends s x.1
      → ((a : A) → Ending (f a))
      → Ends s (resume f o x).1
  continued f s (ok a, t) p k = Ends-trans s t _ p ((k a).ending t)
  continued f s (err e, t) p k = p

  pub Ending-bind :
      {E A B : Type 0} (m : Action E A) (f : A → Action E B)
      → Ending m
      → ((a : A) → Ending (f a))
      → Ending (m >>= f)
  Ending-bind m f p k = record { ending = λ s. continued f s (m o s) (p.ending s) k }

  pub Ending-attempt : {E F A : Type 0} (m : Action E A) → Ending m → Ending {E = F} (attempt m)
  Ending-attempt m p = record { ending = λ s. p.ending s }

  pub Ending-map_error :
      {E F A : Type 0} (g : E → F) (m : Action E A) → Ending m → Ending (map_error g m)
  Ending-map_error g m p = record { ending = λ s. p.ending s }

  pub observe-Ending : {E : Type 0} → Ending {E = E} observe
  unfolding observe
  observe-Ending = record {
    ending = λ s. record {
      later = omega arith;
      session = inr refl;
      requests = λ id. inr refl;
      epoch = refl;
      counted = λ e. ap (λ n. (n + o.revokes s.tick) % 2 ^ 64) e ∙ step s.tick;
    };
  }

  pub ask-Ending : {E A : Type 0} (f : Outside → ℕ → A) → Ending {E = E} (ask f)
  ask-Ending f = Ending-bind observe _ observe-Ending λ u. record { ending = λ s. Ends-refl s }

  pub read-Ending : {E A : Type 0} (f : Provider → Io → Result E A) → Ending (read f)
  read-Ending f = Ending-bind observe _ observe-Ending λ u. record { ending = λ s. Ends-refl s }

  pub call-Ending : {E A : Type 0} (f : Provider → Io → Result E A × Provider) → Ending (call f)
  call-Ending f = Ending-bind observe _ observe-Ending λ u. record {
    ending = λ s. record {
      later = omega arith;
      session = inr refl;
      requests = λ id. inr refl;
      epoch = refl;
      counted = λ e. e;
    };
  }

  pub ruleset ending = (
    Ending-pure, Ending-lift, Ending-fail, Ending-gets, Ending-check, Ending-if, Ending-bind,
    Ending-attempt, Ending-map_error, observe-Ending, ask-Ending, read-Ending, call-Ending,
  )

  withdraw_authority-Ending : {E : Type 0} → Ending {E = E} withdraw_authority
  unfolding withdraw_authority
  withdraw_authority-Ending = record {
    ending = λ s. record {
      later = omega arith;
      session = inl refl;
      requests = λ id. inl refl;
      epoch = refl;
      counted = λ e. e;
    };
  }

  cleaned-Ending : {E : Type 0} → Ending {E = E} cleaned
  unfolding cleaned
  cleaned-Ending = record {
    ending = λ s. record {
      later = omega arith;
      session = inr refl;
      requests = λ id. inr refl;
      epoch = refl;
      counted = λ e. e;
    };
  }

  kept_or_not : {A : Type 0} (b : Bool) (x : Option A) → Left x (if b then x else none)
  kept_or_not true x = inr refl
  kept_or_not false x = inl refl

  retain_deadlines-Ending : {E : Type 0} (n : ℕ) → Ending {E = E} (retain_deadlines n)
  unfolding retain_deadlines
  retain_deadlines-Ending n = record {
    ending = λ s. record {
      later = omega arith;
      session = inr refl;
      requests = λ id. kept_or_not _ (s.request_deadlines id);
      epoch = refl;
      counted = λ e. e;
    };
  }

  pub revoke-Ending : Ending revoke
  unfolding revoke withdrawn clean_up
  revoke-Ending = search (ending, withdraw_authority-Ending, cleaned-Ending) depth 14

  admit_until-Ending : (d : Option ℕ) → Ending (admit_until d)
  unfolding admit_until revoke_locked
  admit_until-Ending none = search ending depth 4
  admit_until-Ending (some d) = search (ending, revoke-Ending) depth 12

  locked_is_fine-Ending : (r : Result SessionError (Unit {0})) → Ending (locked_is_fine r)
  unfolding locked_is_fine
  locked_is_fine-Ending (ok u) = Ending-pure tt
  locked_is_fine-Ending (err SessionError.locked) = Ending-pure tt
  locked_is_fine-Ending (err SessionError.incompatible) = Ending-fail SessionError.incompatible
  locked_is_fine-Ending (err SessionError.authentication_failed) =
      Ending-fail SessionError.authentication_failed
  locked_is_fine-Ending (err SessionError.backend_unavailable) =
      Ending-fail SessionError.backend_unavailable
  locked_is_fine-Ending (err SessionError.cleanup_failed) = Ending-fail SessionError.cleanup_failed
  locked_is_fine-Ending (err SessionError.invalid_request) =
      Ending-fail SessionError.invalid_request

  pub admit_or_locked-Ending : Ending admit_or_locked
  unfolding admit_or_locked admit revoke_locked
  admit_or_locked-Ending =
      search (ending, revoke-Ending, admit_until-Ending, locked_is_fine-Ending) depth 14

  pub expire_requests-Ending : Ending expire_requests
  unfolding expire_requests
  expire_requests-Ending = search (ending, retain_deadlines-Ending) depth 12

  pub refresh_session-Ending : Ending refresh_session
  unfolding refresh_session
  refresh_session-Ending =
      search (ending, revoke-Ending, admit_or_locked-Ending, expire_requests-Ending) depth 14

  pub refresh-Ending : Ending refresh
  unfolding refresh
  refresh-Ending = Ending-map_error _ refresh_session refresh_session-Ending

  pub is_settled_for-Ending :
      (id : Text) (status : DirectStatus) → Ending (is_settled_for id status)
  unfolding is_settled_for
  is_settled_for-Ending id status = search ending depth 14
