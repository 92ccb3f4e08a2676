-- ===== src/Provider/Listing.antt =====
-- `Provider::history`: the latest events, kept in order while the records are read.
use vaultwarden_cli.Base.{
  ℕ, zero, suc, ◌-◌, ◌≤◌, ◌≡◌, refl, sym, ap, ◌∙◌, subst, true, false, not, inl, inr, Bool-cases,
  Option, List, [], ◌∷◌, ◌++◌, ltb, ◌==◌, nat_eq, if◌then◌else◌, take, drop, length, filter,
  filter_map, arith, ltb→lt, ◌<◌, beq_refl, Result, ok, err, ◌>>=◌,
}
use vaultwarden_cli.Host.{Host}
use vaultwarden_cli.Policy.Checks.{insert_sorted, sort}
use vaultwarden_cli.Request.Types.{HistoryEvent, DirectRecord, RequestError}
use vaultwarden_cli.Request.History.{limit}
use vaultwarden_cli.Request.Record.{human_visible}
use vaultwarden_cli.Request.Newest.{
  newer, newest, is_ordered, sort-ordered, sort-same, take-ordered, take-insert,
}
use vaultwarden_cli.State.Types.{ProviderState}
use vaultwarden_cli.Store.{Io, read_state}
use vaultwarden_cli.Provider.Defs.{Provider, query, unavailable}

-- `partition_point` of an ordered list: the events that are newer than this one.
abbrev position : HistoryEvent → List HistoryEvent → ℕ
position e [] = 0
position e (b ∷ es) = let rest = position e es in if newer e b then 0 else suc rest

-- `insert` at a position.
abbrev insert_at : ℕ → HistoryEvent → List HistoryEvent → List HistoryEvent
insert_at n e es = take n es ++ e ∷ drop n es

-- One event of the loop, of which at most `n` are retained.
unfoldable pub retain : ℕ → HistoryEvent → List HistoryEvent → List HistoryEvent
retain n e recent =
    let at = position e recent in
    if ltb at n
    then insert_at at e (if length recent == n then take (n - 1) recent else recent)
    else recent

unfoldable pub retain_all : ℕ → List HistoryEvent → List HistoryEvent → List HistoryEvent
unfolding retain
retain_all n [] recent = recent
retain_all n (e ∷ es) recent = retain_all n es (retain n e recent)

abbrev audits : List DirectRecord → List HistoryEvent
audits [] = []
audits (d ∷ ds) = d.audit ++ audits ds

-- The events that a human may see, in the order of the records.
unfoldable pub visible_events : ℕ → ℕ → ProviderState → List HistoryEvent
visible_events human provider_uid s =
    audits (filter (human_visible human provider_uid) (filter_map (λ r. r.direct) s.requests))

module _ ⦃h : Host⦄ where
  unfoldable pub history : Provider → ℕ → Option ℕ → Io → Result RequestError (List HistoryEvent)
  unfolding retain_all visible_events
  history p human count io =
      if not (human == p.store.owner_uid)
      then err RequestError.unauthorized
      else (limit count >>= λ n.
          query unavailable p io
            (λ s. ok (newest (retain_all n (visible_events human p.store.owner_uid s) []) n)))

position-le : (e : HistoryEvent) (es : List HistoryEvent) → position e es ≤ length es
position-le e [] = omega arith
position-le e (b ∷ es) = ground (arith, position-le e es)

-- The equations of a step at the head of the list.
insert_at-front :
    (e b : HistoryEvent) (es : List HistoryEvent)
    → newer e b ≡ true
    → insert_at (position e (b ∷ es)) e (b ∷ es) ≡ insert_sorted newer e (b ∷ es)
unfolding insert_sorted
insert_at-front e b es h = rw h refl

insert_at-later :
    (e b : HistoryEvent) (es : List HistoryEvent)
    → newer e b ≡ false
    → insert_at (position e es) e es ≡ insert_sorted newer e es
    → insert_at (position e (b ∷ es)) e (b ∷ es) ≡ insert_sorted newer e (b ∷ es)
unfolding insert_sorted
insert_at-later e b es h r = rw h (ap (λ fs. b ∷ fs) r)

insert_at-position :
    (e : HistoryEvent) (es : List HistoryEvent)
    → insert_at (position e es) e es ≡ insert_sorted newer e es
insert_at-position e [] = unfold insert_sorted in refl
insert_at-position e (b ∷ es) = elim (Bool-cases (newer e b)) [
  | inl first ↦ insert_at-front e b es first
  | inr later ↦ insert_at-later e b es later (insert_at-position e es)
]

insert_at-take :
    (k m : ℕ) (e : HistoryEvent) (es : List HistoryEvent)
    → k ≤ m
    → insert_at k e (take m es) ≡ take (suc m) (insert_at k e es)
insert_at-take zero m e es h = refl
insert_at-take (suc k) zero e es h = absurd (omega arith)
insert_at-take (suc k) (suc m) e [] h = refl
insert_at-take (suc k) (suc m) e (b ∷ es) h =
    ap (λ fs. b ∷ fs) (insert_at-take k m e es (omega arith))

take-insert_at :
    (k : ℕ) (e : HistoryEvent) (es : List HistoryEvent)
    → k ≤ length es
    → take k (insert_at k e es) ≡ take k es
take-insert_at zero e es h = refl
take-insert_at (suc k) e [] h = absurd (omega arith)
take-insert_at (suc k) e (b ∷ es) h = ap (λ fs. b ∷ fs) (take-insert_at k e es (omega arith))

take-all : (n : ℕ) (es : List HistoryEvent) → length es ≤ n → take n es ≡ es
take-all zero [] h = refl
take-all zero (e ∷ es) h = absurd (omega arith)
take-all (suc n) [] h = refl
take-all (suc n) (e ∷ es) h = ap (λ fs. e ∷ fs) (take-all n es (omega arith))

length-insert_at :
    (k : ℕ) (e : HistoryEvent) (es : List HistoryEvent)
    → length (insert_at k e es) ≡ suc (length es)
length-insert_at zero e es = refl
length-insert_at (suc k) e [] = refl
length-insert_at (suc k) e (b ∷ es) = omega (arith, length-insert_at k e es)

length-take : (n : ℕ) (es : List HistoryEvent) → length (take n es) ≤ n
length-take zero es = omega arith
length-take (suc n) [] = omega arith
length-take (suc n) (e ∷ es) = omega (arith, length-take n es)

-- The three cases of one event: it is too old, it takes the place of the oldest, or there is room.
retain-at :
    (n k : ℕ) (e : HistoryEvent) (recent : List HistoryEvent)
    → length recent ≤ n
    → k ≤ length recent
    → (if ltb k n
        then insert_at k e (if length recent == n then take (n - 1) recent else recent)
        else recent)
      ≡ take n (insert_at k e recent)
retain-at n k e recent h hk = elim (Bool-cases (ltb k n)) [
  | inl inside ↦ elim (Bool-cases (length recent == n)) [
    | inl full ↦ rw (inside, full) (evict n (ltb→lt k n inside))
    | inr room ↦
        rw (inside, room)
          (sym (
            take-all n (insert_at k e recent)
              (omega (arith, length-insert_at k e recent, fits room))))
  ]
  | inr outside ↦ rw outside (too_old (ground arith))
]
  where
    evict : (n : ℕ) → k < n → insert_at k e (take (n - 1) recent) ≡ take n (insert_at k e recent)
    evict zero lt = absurd (omega arith)
    evict (suc m) lt =
        subst (λ j. insert_at k e (take j recent) ≡ take (suc m) (insert_at k e recent))
          (omega arith) (insert_at-take k m e recent (omega arith))

    fits : (length recent == n) ≡ false → length recent < n
    fits room = ground arith

    too_old : n ≤ k → recent ≡ take n (insert_at k e recent)
    too_old le =
        let same : n ≡ k = omega arith in
        sym (
          ap (λ j. take j (insert_at k e recent)) same
          ∙ take-insert_at k e recent hk
          ∙ take-all k recent (omega arith))

-- One event keeps the first of what an insertion makes.
retain-take :
    (n : ℕ) (e : HistoryEvent) (recent : List HistoryEvent)
    → length recent ≤ n
    → retain n e recent ≡ take n (insert_sorted newer e recent)
unfolding retain
retain-take n e recent h =
    retain-at n (position e recent) e recent h (position-le e recent)
    ∙ ap (take n) (insert_at-position e recent)

-- The events in the other order, before others.
abbrev pub reversed : List HistoryEvent → List HistoryEvent → List HistoryEvent
reversed [] acc = acc
reversed (e ∷ es) acc = reversed es (e ∷ acc)

retain_all-take :
    (n : ℕ) (es acc recent : List HistoryEvent)
    → recent ≡ take n (sort newer acc)
    → retain_all n es recent ≡ take n (sort newer (reversed es acc))
unfolding retain_all sort
retain_all-take n [] acc recent h = h
retain_all-take n (e ∷ es) acc recent h = retain_all-take n es (e ∷ acc) (retain n e recent) (
    retain-take n e recent (subst (λ r. length r ≤ n) (sym h) (length-take n (sort newer acc)))
    ∙ ap (λ r. take n (insert_sorted newer e r)) h
    ∙ take-insert n e (sort newer acc))

take-none : (n : ℕ) → [] ≡ take n (sort newer [])
unfolding sort
take-none zero = refl
take-none (suc n) = refl

-- Of an ordered list `newest` takes the first.
retained-newest :
    (n : ℕ) (es : List HistoryEvent) → newest (retain_all n es []) n ≡ newest (reversed es []) n
unfolding newest
retained-newest n es =
    let kept = retain_all-take n es [] [] (take-none n) in
    let ordered = take-ordered n _ (sort-ordered (reversed es [])) in
    ap (λ r. take n (sort newer r)) kept
    ∙ ap (take n) (sort-same _ ordered)
    ∙ take-all n _ (length-take n _)

module _ ⦃h : Host⦄ where
  -- What an administrator lists, if the state is read, is the newest of the events that it may see,
  -- read from the last to the first: in order, and no more than were asked for.
  pub history-newest :
      (p : Provider) (count : Option ℕ) (io : Io) (n : ℕ) (s : ProviderState)
      → limit count ≡ ok n
      → read_state p.store (io.reads 0) ≡ ok s
      → (es : List HistoryEvent) × (history p p.store.owner_uid count io ≡ ok es)
        × (es ≡ newest (reversed (visible_events p.store.owner_uid p.store.owner_uid s) []) n)
        × (is_ordered es ≡ true)
        × (length es ≤ n)
  unfolding history query newest
  history-newest p count io n s el er =
      let seen = visible_events p.store.owner_uid p.store.owner_uid s in
      let same = retained-newest n seen in
      (
        newest (retain_all n seen []) n,
        rw (beq_refl p.store.owner_uid, el, er) refl,
        same,
        take-ordered n _ (sort-ordered (retain_all n seen [])),
        length-take n (sort newer (retain_all n seen [])),
      )
