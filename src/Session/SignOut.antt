-- ===== src/Session/SignOut.antt =====
-- An answer of 401: web/src/lib/api.ts and
-- web/src/hooks/useAuth.tsx.
use mc_gantry.Base.{
  present, ℕ, zero, suc, ◌≡◌, refl, Bool, true, List, [], ◌∷◌, ◌++◌, none, Bool-cases, ◌<◌, length,
  arith, inl, inr,
}
use mc_gantry.Session.{
  Waiting, first_me, second_me, login_answer, login_me, token_me, other, Call, unauthorized,
  Session, Client, is_some, set_token, on_unauthorized, first_me_failed, on_error, answer_at,
}

-- No token is held, stored or shown, and no user.
pub record IsSignedOut {User : Type 0} (s : Session User) : Type 0 where
  pub no_auth_token : s.auth_token ≡ none
  pub no_stored : s.stored ≡ none
  pub no_token : s.token ≡ none
  pub no_user : s.user ≡ none

on_error-IsSignedOut :
    {User : Type 0} (w : Waiting) (c : Client User)
    → IsSignedOut c.session
    → IsSignedOut (on_error w c).session
unfolding set_token
on_error-IsSignedOut (first_me existing) c h = elim (Bool-cases (is_some (present existing))) [
  | inl e ↦
      rw (e, on_error, first_me_failed)
        (record { no_auth_token = refl; no_stored = refl; no_token = refl; no_user = h.no_user })
  | inr e ↦
      rw (e, on_error, first_me_failed)
        (record {
          no_auth_token = h.no_auth_token;
          no_stored = h.no_stored;
          no_token = h.no_token;
          no_user = refl;
        })
]
on_error-IsSignedOut second_me c h = record {
  no_auth_token = h.no_auth_token;
  no_stored = h.no_stored;
  no_token = h.no_token;
  no_user = refl;
}
on_error-IsSignedOut login_answer c h = h
on_error-IsSignedOut login_me c h = h
on_error-IsSignedOut token_me c h = record {
  no_auth_token = refl;
  no_stored = refl;
  no_token = refl;
  no_user = refl;
}
on_error-IsSignedOut other c h = h

on_unauthorized-IsSignedOut :
    {User : Type 0} (s : Session User)
    → is_some (present s.auth_token) ≡ true
    → IsSignedOut (on_unauthorized s)
unfolding set_token
on_unauthorized-IsSignedOut s e =
    rw (e, on_unauthorized)
      (record { no_auth_token = refl; no_stored = refl; no_token = refl; no_user = refl })

-- While a token is held, an answer of 401 to any open call signs the user out: no token is held,
-- stored or shown, and no user.
pub answer_at-IsSignedOut :
    {User : Type 0} (is_complete : User → Bool) (i : ℕ) (front calls : List Call) (s : Session User)
    → is_some (present s.auth_token) ≡ true
    → i < length calls
    → IsSignedOut (answer_at is_complete i unauthorized front calls s).session
unfolding answer_at
answer_at-IsSignedOut is_complete i front [] s e h = absurd (not_below i h)
  where
    not_below : (n : ℕ) → ¬ (n < 0)
    not_below n = omega arith
answer_at-IsSignedOut is_complete zero front (call ∷ calls) s e h =
    on_error-IsSignedOut call.waiting
      (record { session = on_unauthorized s; pending = front ++ calls })
      (on_unauthorized-IsSignedOut s e)
answer_at-IsSignedOut is_complete (suc i) front (call ∷ calls) s e h =
    answer_at-IsSignedOut is_complete i (front ++ call ∷ []) calls s e (below i (length calls) h)
  where
    below : (m n : ℕ) → suc m < suc n → m < n
    below m n l = omega (arith, l)
