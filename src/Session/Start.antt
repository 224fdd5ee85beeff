-- ===== src/Session/Start.antt =====
-- The start of a session, and what holds of it from then on: web/src/hooks/useAuth.tsx.
use mc_gantry.Base.{
  present, ℕ, zero, suc, ◌≡◌, refl, sym, ap, subst, ◌⊎◌, inl, inr, Bool, true, false, List, [], ◌∷◌,
  Option, if◌then◌else◌, Text, Bool-cases,
}
use mc_gantry.Session.{
  first_me, second_me, Call, Reply, logged_in, me, unauthorized, failed, Session, Client, is_some,
  set_token, on_unauthorized, first_me_failed, on_reply, answer_at, Event, login_clicked,
  logout_clicked, other_sent, token_given, answered, act, is_answer, step, run, start,
}
use mc_gantry.Session.Consistent.{IsConsistent, IsSettled, act-IsSettled}

-- At most one call is open while the client is loading, one of the start.
abbrev IsLone : {User : Type 0} → Session User → List Call → Type 0
IsLone s [] = Unit
IsLone s (call ∷ []) = (call.waiting ≡ first_me s.auth_token) ⊎ (call.waiting ≡ second_me)
IsLone s (call ∷ next ∷ calls) = ⊥

record IsStarting {User : Type 0} (c : Client User) : Type 0 where
  loading : c.session.loading ≡ true
  consistent : IsConsistent c.session
  lone : IsLone c.session c.pending

abbrev IsKnown : {User : Type 0} → Client User → Type 0
IsKnown c = IsStarting c ⊎ IsSettled c

module _ {User : Type 0} (is_complete : User → Bool) where
  -- An answer to the first `getMe`, with no other call open.
  first_me-IsKnown :
      (reply : Reply User) (s : Session User)
      → s.loading ≡ true
      → IsConsistent s
      → IsKnown (
          on_reply is_complete (first_me s.auth_token) reply (record { session = s; pending = [] }))
  unfolding set_token
  first_me-IsKnown (logged_in token user) s l h =
      inl (record { loading = l; consistent = h; lone = tt })
  first_me-IsKnown (me user) s l h =
      inr (record { loaded = refl; consistent = record { shown = refl; kept = h.kept }; late = tt })
  first_me-IsKnown failed s l h = elim (Bool-cases (is_some (present s.auth_token))) [
    | inl e ↦
        rw (e, first_me_failed)
          (inl (record {
            loading = l;
            consistent = record { shown = refl; kept = refl };
            lone = inr refl;
          }))
    | inr e ↦
        rw (e, first_me_failed)
          (inr (record {
            loaded = refl;
            consistent = record { shown = h.shown; kept = h.kept };
            late = tt;
          }))
  ]
  first_me-IsKnown unauthorized s l h = elim (Bool-cases (is_some (present s.auth_token))) [
    | inl e ↦
        rw (e, first_me_failed, on_unauthorized)
          (inl (record {
            loading = l;
            consistent = record { shown = refl; kept = refl };
            lone = inr refl;
          }))
    | inr e ↦
        rw (e, first_me_failed, on_unauthorized)
          (inr (record {
            loaded = refl;
            consistent = record { shown = h.shown; kept = h.kept };
            late = tt;
          }))
  ]

  second_me-IsKnown :
      (reply : Reply User) (s : Session User)
      → s.loading ≡ true
      → IsConsistent s
      → IsKnown (on_reply is_complete second_me reply (record { session = s; pending = [] }))
  unfolding set_token
  second_me-IsKnown (logged_in token user) s l h =
      inl (record { loading = l; consistent = h; lone = tt })
  second_me-IsKnown (me user) s l h =
      inr (record {
        loaded = refl;
        consistent = record { shown = h.shown; kept = h.kept };
        late = tt;
      })
  second_me-IsKnown failed s l h =
      inr (record {
        loaded = refl;
        consistent = record { shown = h.shown; kept = h.kept };
        late = tt;
      })
  second_me-IsKnown unauthorized s l h = elim (Bool-cases (is_some (present s.auth_token))) [
    | inl e ↦
        rw (e, on_unauthorized)
          (inr (record {
            loaded = refl;
            consistent = record { shown = refl; kept = refl };
            late = tt;
          }))
    | inr e ↦
        rw (e, on_unauthorized)
          (inr (record {
            loaded = refl;
            consistent = record { shown = h.shown; kept = h.kept };
            late = tt;
          }))
  ]

  answer_at-IsKnown :
      (i : ℕ) (reply : Reply User) (calls : List Call) (s : Session User)
      → s.loading ≡ true
      → IsConsistent s
      → IsLone s calls
      → IsKnown (answer_at is_complete i reply [] calls s)
  unfolding answer_at
  answer_at-IsKnown i reply [] s l h lone = inl (record { loading = l; consistent = h; lone = tt })
  answer_at-IsKnown zero reply (call ∷ []) s l h (inl first) =
      rw first (first_me-IsKnown reply s l h)
  answer_at-IsKnown zero reply (call ∷ []) s l h (inr second) =
      rw second (second_me-IsKnown reply s l h)
  answer_at-IsKnown (suc i) reply (call ∷ []) s l h lone =
      inl (record { loading = l; consistent = h; lone = lone })
  answer_at-IsKnown i reply (call ∷ next ∷ calls) s l h lone = absurd lone

  step_while_loading :
      (e : Event is_complete) (c : Client User)
      → c.session.loading ≡ true
      → step is_complete e c ≡ (if is_answer is_complete e then act is_complete e c else c)
  step_while_loading e c h =
      ap
        (λ b.
          if b
          then (if is_answer is_complete e then act is_complete e c else c)
          else act is_complete e c)
        h

  step_when_loaded :
      (e : Event is_complete) (c : Client User)
      → c.session.loading ≡ false
      → step is_complete e c ≡ act is_complete e c
  step_when_loaded e c h =
      ap
        (λ b.
          if b
          then (if is_answer is_complete e then act is_complete e c else c)
          else act is_complete e c)
        h

  allowed-IsKnown :
      (e : Event is_complete) (c : Client User)
      → IsStarting c
      → IsKnown (if is_answer is_complete e then act is_complete e c else c)
  allowed-IsKnown (answered i reply) c h =
      answer_at-IsKnown i reply c.pending c.session h.loading h.consistent h.lone
  allowed-IsKnown login_clicked c h = inl h
  allowed-IsKnown logout_clicked c h = inl h
  allowed-IsKnown other_sent c h = inl h
  allowed-IsKnown (token_given token) c h = inl h

  step-IsKnown :
      (e : Event is_complete) (c : Client User) → IsKnown c → IsKnown (step is_complete e c)
  step-IsKnown e c (inl h) =
      subst IsKnown (sym (step_while_loading e c h.loading)) (allowed-IsKnown e c h)
  step-IsKnown e c (inr h) =
      subst IsKnown (sym (step_when_loaded e c h.loaded)) (inr (act-IsSettled is_complete e c h))

  run-IsKnown :
      (events : List (Event is_complete)) (c : Client User)
      → IsKnown c
      → IsKnown (run is_complete events c)
  unfolding run
  run-IsKnown [] c h = h
  run-IsKnown (e ∷ events) c h = run-IsKnown events (step is_complete e c) (step-IsKnown e c h)

IsConsistent-of_IsKnown : {User : Type 0} (c : Client User) → IsKnown c → IsConsistent c.session
IsConsistent-of_IsKnown c (inl h) = h.consistent
IsConsistent-of_IsKnown c (inr h) = h.consistent

-- Whatever is clicked after the start and in whatever order answers of any kind come, the token
-- that the provider shows is the one that `request` sends, and is the one that is stored.
pub run-IsConsistent :
    {User : Type 0} (is_complete : User → Bool) (stored : Option Text)
    (events : List (Event is_complete))
    → IsConsistent (run is_complete events (start is_complete stored)).session
run-IsConsistent is_complete stored events =
    IsConsistent-of_IsKnown (run is_complete events (start is_complete stored)) (
      run-IsKnown is_complete events (start is_complete stored) (
        inl (record {
          loading = refl;
          consistent = record { shown = refl; kept = refl };
          lone = inl refl;
        })))
