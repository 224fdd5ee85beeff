-- ===== src/Session/Loading.antt =====
-- The end of the loading: web/src/lib/api.ts and
-- web/src/hooks/useAuth.tsx.
use mc_gantry.Base.{◌≡◌, refl, Bool, false, [], ◌∷◌, Option, none, some, Text}
use mc_gantry.Session.{
  second_me, Reply, me, unauthorized, failed, Client, set_token, on_reply, answer_at, answered, run,
  start,
}

-- What the first `getMe` and the second can be answered with.
pub data IsForMe {User : Type 0} : Reply User → Type 0 where
  for_me : (user : User) → IsForMe (me user)
  for_unauthorized : IsForMe unauthorized
  for_failed : IsForMe failed

second_me-loading :
    {User : Type 0} (is_complete : User → Bool) (reply : Reply User) (c : Client User)
    → IsForMe reply
    → (on_reply is_complete second_me reply c).session.loading ≡ false
second_me-loading is_complete _ c (for_me user) = refl
second_me-loading is_complete _ c for_unauthorized = refl
second_me-loading is_complete _ c for_failed = refl

-- The loading ends with the second answer at the latest, whatever token was stored and whatever
-- the two answers to `getMe` are.
pub run-loading :
    {User : Type 0} (is_complete : User → Bool) (stored : Option Text) (first second : Reply User)
    → IsForMe first
    → IsForMe second
    → (run is_complete
        (answered 0 first ∷ answered 0 second ∷ [])
        (start is_complete stored)).session.loading
      ≡ false
unfolding run answer_at set_token
run-loading is_complete stored _ second (for_me user) h = refl
run-loading is_complete none _ second for_unauthorized h = refl
run-loading is_complete none _ second for_failed h = refl
run-loading is_complete (some []) _ second for_unauthorized h = refl
run-loading is_complete (some []) _ second for_failed h = refl
run-loading is_complete (some (c ∷ token)) _ second for_unauthorized h =
    second_me-loading is_complete second _ h
run-loading is_complete (some (c ∷ token)) _ second for_failed h =
    second_me-loading is_complete second _ h
