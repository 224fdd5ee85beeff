-- ===== src/Session/Consistent.antt =====
-- After the start the tokens of a session agree, in whatever order answers come:
-- web/src/lib/api.ts and web/src/hooks/useAuth.tsx.
use mc_gantry.Base.{
  present, ℕ, zero, suc, ◌≡◌, refl, sym, inl, inr, Bool, false, List, [], ◌∷◌, ◌++◌, Option, none,
  some, Text, All, All-append, Bool-cases,
}
use mc_gantry.Session.{
  Waiting, first_me, second_me, login_answer, login_me, token_me, other, Call, Reply, logged_in, me,
  unauthorized, failed, Session, Client, is_some, set_token, set_token_state, set_user, sign_out,
  on_unauthorized, bearer_of, send, change, on_error, on_me, after_login, on_reply, answer_at,
  Event, login_clicked, logout_clicked, other_sent, token_given, answered, act,
}

-- The token that is shown is the one that requests are sent with, and the one that is stored.
pub record IsConsistent {User : Type 0} (s : Session User) : Type 0 where
  pub shown : s.token ≡ s.auth_token
  pub kept : bearer_of s ≡ present s.stored

-- A call that does not come from the start.
abbrev pub IsLate : Call → Type 0
IsLate call = elim call.waiting [
  | first_me existing_token ↦ ⊥
  | second_me ↦ ⊥
  | login_answer ↦ Unit
  | login_me ↦ Unit
  | token_me ↦ Unit
  | other ↦ Unit
]

abbrev IsLateWaiting : Waiting → Type 0
IsLateWaiting w = IsLate (record { waiting = w; bearer = none })

-- After the start: no call of it is left.
pub record IsSettled {User : Type 0} (c : Client User) : Type 0 where
  pub loaded : c.session.loading ≡ false
  pub consistent : IsConsistent c.session
  pub late : All IsLate c.pending

present-present : (token : Option Text) → present (present token) ≡ present token
present-present none = refl
present-present (some []) = refl
present-present (some (x ∷ s)) = refl

module _ {User : Type 0} where
  sign_out-IsSettled : (c : Client User) → IsSettled c → IsSettled (change sign_out c)
  unfolding set_token
  sign_out-IsSettled c h = record {
    loaded = h.loaded;
    consistent = record { shown = refl; kept = refl };
    late = h.late;
  }

  set_user-IsSettled :
      (user : Option User) (c : Client User) → IsSettled c → IsSettled (change (set_user user) c)
  set_user-IsSettled user c h = record {
    loaded = h.loaded;
    consistent = record { shown = h.consistent.shown; kept = h.consistent.kept };
    late = h.late;
  }

  hold-IsSettled :
      (token : Text) (c : Client User)
      → IsSettled c
      → IsSettled (change (λ s. set_token_state (some token) (set_token (some token) s)) c)
  unfolding set_token
  hold-IsSettled token c h = record {
    loaded = h.loaded;
    consistent = record { shown = refl; kept = sym (present-present (some token)) };
    late = h.late;
  }

  send-IsSettled :
      (w : Waiting) (c : Client User) → IsLateWaiting w → IsSettled c → IsSettled (send w c)
  send-IsSettled w c l h = record {
    loaded = h.loaded;
    consistent = h.consistent;
    late = All-append IsLate c.pending _ h.late (l, tt);
  }

  on_unauthorized-IsSettled : (c : Client User) → IsSettled c → IsSettled (change on_unauthorized c)
  unfolding set_token
  on_unauthorized-IsSettled c h = elim (Bool-cases (is_some (present c.session.auth_token))) [
    | inl e ↦
        rw (e, on_unauthorized)
          (record {
            loaded = h.loaded;
            consistent = record { shown = refl; kept = refl };
            late = h.late;
          })
    | inr e ↦ rw (e, on_unauthorized) h
  ]

  on_error-IsSettled :
      (w : Waiting) (c : Client User) → IsLateWaiting w → IsSettled c → IsSettled (on_error w c)
  on_error-IsSettled (first_me existing_token) c l h = absurd l
  on_error-IsSettled second_me c l h = absurd l
  on_error-IsSettled login_answer c l h = h
  on_error-IsSettled login_me c l h = h
  on_error-IsSettled token_me c l h = sign_out-IsSettled c h
  on_error-IsSettled other c l h = h

  on_me-IsSettled :
      (w : Waiting) (user : User) (c : Client User)
      → IsLateWaiting w
      → IsSettled c
      → IsSettled (on_me w user c)
  on_me-IsSettled (first_me existing_token) user c l h = absurd l
  on_me-IsSettled second_me user c l h = absurd l
  on_me-IsSettled login_answer user c l h = h
  on_me-IsSettled login_me user c l h = set_user-IsSettled (some user) c h
  on_me-IsSettled token_me user c l h = set_user-IsSettled (some user) c h
  on_me-IsSettled other user c l h = h

module _ {User : Type 0} (is_complete : User → Bool) where
  after_login-IsSettled :
      (token : Text) (user : User) (c : Client User)
      → IsSettled c
      → IsSettled (after_login is_complete token user c)
  after_login-IsSettled token user c h =
      let held = change (λ s. set_token_state (some token) (set_token (some token) s)) c in
      elim (Bool-cases (is_complete user)) [
        | inl e ↦
            rw (e, after_login) (set_user-IsSettled (some user) held (hold-IsSettled token c h))
        | inr e ↦ rw (e, after_login) (send-IsSettled login_me held tt (hold-IsSettled token c h))
      ]

  on_reply-IsSettled :
      (w : Waiting) (reply : Reply User) (c : Client User)
      → IsLateWaiting w
      → IsSettled c
      → IsSettled (on_reply is_complete w reply c)
  on_reply-IsSettled w (me user) c l h = on_me-IsSettled w user c l h
  on_reply-IsSettled w unauthorized c l h =
      on_error-IsSettled w (change on_unauthorized c) l (on_unauthorized-IsSettled c h)
  on_reply-IsSettled w failed c l h = on_error-IsSettled w c l h
  on_reply-IsSettled (first_me existing_token) (logged_in token user) c l h = absurd l
  on_reply-IsSettled second_me (logged_in token user) c l h = absurd l
  on_reply-IsSettled login_answer (logged_in token user) c l h =
      after_login-IsSettled token user c h
  on_reply-IsSettled login_me (logged_in token user) c l h = h
  on_reply-IsSettled token_me (logged_in token user) c l h = h
  on_reply-IsSettled other (logged_in token user) c l h = h

  answer_at-IsSettled :
      (i : ℕ) (reply : Reply User) (front calls : List Call) (s : Session User)
      → s.loading ≡ false
      → IsConsistent s
      → All IsLate front
      → All IsLate calls
      → IsSettled (answer_at is_complete i reply front calls s)
  unfolding answer_at
  answer_at-IsSettled i reply front [] s e h f l = record { loaded = e; consistent = h; late = f }
  answer_at-IsSettled zero reply front (call ∷ calls) s e h f (l, ls) =
      on_reply-IsSettled call.waiting reply (record { session = s; pending = front ++ calls }) l
        (record { loaded = e; consistent = h; late = All-append IsLate front calls f ls })
  answer_at-IsSettled (suc i) reply front (call ∷ calls) s e h f (l, ls) =
      answer_at-IsSettled i reply (front ++ call ∷ []) calls s e h
        (All-append IsLate front (call ∷ []) f (l, tt)) ls

  pub act-IsSettled :
      (e : Event is_complete) (c : Client User) → IsSettled c → IsSettled (act is_complete e c)
  act-IsSettled login_clicked c h = send-IsSettled login_answer c tt h
  act-IsSettled logout_clicked c h = sign_out-IsSettled (send other c) (send-IsSettled other c tt h)
  act-IsSettled other_sent c h = send-IsSettled other c tt h
  act-IsSettled (token_given token) c h = send-IsSettled token_me _ tt (hold-IsSettled token c h)
  act-IsSettled (answered i reply) c h =
      answer_at-IsSettled i reply [] c.pending c.session h.loaded h.consistent tt h.late
