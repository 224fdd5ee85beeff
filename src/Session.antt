-- ===== src/Session.antt =====
-- The session of a user: the token and `request` of web/src/lib/api.ts, and `AuthProvider` of
-- web/src/hooks/useAuth.tsx. What waits for an answer is a list of calls, and an answer may come
-- to any of them. `User` is the type of users, and `is_complete` says that a user has permissions and
-- an effective role. A state that React is told to set is set at once.
pub mod Consistent
pub mod Start
pub mod SignOut
pub mod Loading
mod Tests
use mc_gantry.Base.{
  present, ℕ, zero, suc, Bool, true, false, not, List, [], ◌∷◌, ◌++◌, Option, none, some, is_empty,
  if◌then◌else◌, Text,
}

-- What goes on after an answer: the two calls of `getMe` when the client starts, those of `login`, that
-- of `loginWithToken`, and any other request, of which an answer only matters if it is a 401.
pub data Waiting : Type 0 where
  first_me : (existing_token : Option Text) → Waiting
  second_me login_answer login_me token_me other : Waiting

-- `bearer` is the token that the request was sent with.
pub record Call : Type 0 where
  pub waiting : Waiting
  pub bearer : Option Text

-- `failed` is any error but a 401: no connection, another status, or a body that is no JSON.
pub data Reply (User : Type 0) : Type 0 where
  logged_in : Text → User → Reply User
  me : User → Reply User
  unauthorized failed : Reply User

-- `authToken` of the module, the entry in `localStorage`, and the states of the provider.
pub record Session (User : Type 0) : Type 0 where
  pub auth_token : Option Text
  pub stored : Option Text
  pub user : Option User
  pub token : Option Text
  pub loading : Bool

pub record Client (User : Type 0) : Type 0 where
  pub session : Session User
  pub pending : List Call

abbrev pub is_some {ℓ} : {A : Type ℓ} → Option A → Bool
is_some none = false
is_some (some a) = true

module _ {User : Type 0} where
  unfoldable pub set_token : Option Text → Session User → Session User
  set_token token s = record {
    auth_token = token;
    stored = present token;
    user = s.user;
    token = s.token;
    loading = s.loading;
  }

  abbrev pub set_token_state : Option Text → Session User → Session User
  set_token_state token s = record {
    auth_token = s.auth_token;
    stored = s.stored;
    user = s.user;
    token = token;
    loading = s.loading;
  }

  abbrev pub set_user : Option User → Session User → Session User
  set_user user s = record {
    auth_token = s.auth_token;
    stored = s.stored;
    user = user;
    token = s.token;
    loading = s.loading;
  }

  abbrev pub set_loading : Bool → Session User → Session User
  set_loading loading s = record {
    auth_token = s.auth_token;
    stored = s.stored;
    user = s.user;
    token = s.token;
    loading = loading;
  }

  -- `handleUnauthorized`, and the same three lines of `loginWithToken` and `logout`.
  abbrev pub sign_out : Session User → Session User
  sign_out s = set_user none (set_token_state none (set_token none s))

  -- The branch of `request` for a 401, with the listener that the event reaches.
  abbrev pub on_unauthorized : Session User → Session User
  on_unauthorized s = if is_some (present s.auth_token) then sign_out (set_token none s) else s

  -- The token in the `Authorization` of `headers`.
  abbrev pub bearer_of : Session User → Option Text
  bearer_of s = present s.auth_token

  abbrev pub send : Waiting → Client User → Client User
  send waiting c = record {
    session = c.session;
    pending = c.pending ++ record { waiting = waiting; bearer = bearer_of c.session } ∷ [];
  }

  abbrev pub change : (Session User → Session User) → Client User → Client User
  change f c = record { session = f c.session; pending = c.pending }

  -- The `catch` of the first `getMe`, with the `finally` where it comes to it.
  abbrev pub first_me_failed : Option Text → Client User → Client User
  first_me_failed existing_token c =
      if is_some (present existing_token)
      then send second_me (change (λ s. set_token_state none (set_token none s)) c)
      else change (λ s. set_loading false (set_user none s)) c

  -- What follows a request that throws.
  abbrev pub on_error : Waiting → Client User → Client User
  on_error (first_me existing_token) c = first_me_failed existing_token c
  on_error second_me c = change (λ s. set_loading false (set_user none s)) c
  on_error login_answer c = c
  on_error login_me c = c
  on_error token_me c = change sign_out c
  on_error other c = c

  -- What follows an answer with a user. Only requests for the user get one.
  abbrev pub on_me : Waiting → User → Client User → Client User
  on_me (first_me existing_token) user c =
      change (λ s. set_loading false (set_token_state existing_token (set_user (some user) s))) c
  on_me second_me user c = change (λ s. set_loading false (set_user (some user) s)) c
  on_me login_me user c = change (set_user (some user)) c
  on_me token_me user c = change (set_user (some user)) c
  on_me login_answer user c = c
  on_me other user c = c

module _ {User : Type 0} (is_complete : User → Bool) where
  -- The rest of `login` after its first answer.
  abbrev pub after_login : Text → User → Client User → Client User
  after_login token user c =
      let held = change (λ s. set_token_state (some token) (set_token (some token) s)) c in
      if is_complete user then change (set_user (some user)) held else send login_me held

  abbrev pub on_logged_in : Waiting → Text → User → Client User → Client User
  on_logged_in login_answer token user c = after_login token user c
  on_logged_in _ token user c = c

  abbrev pub on_reply : Waiting → Reply User → Client User → Client User
  on_reply waiting (logged_in token user) c = on_logged_in waiting token user c
  on_reply waiting (me user) c = on_me waiting user c
  on_reply waiting unauthorized c = on_error waiting (change on_unauthorized c)
  on_reply waiting failed c = on_error waiting c

  -- An answer to the call at a place; without such a call nothing happens.
  unfoldable pub answer_at : ℕ → Reply User → List Call → List Call → Session User → Client User
  unfolding set_token
  answer_at i reply front [] s = record { session = s; pending = front }
  answer_at zero reply front (call ∷ calls) s =
      on_reply call.waiting reply (record { session = s; pending = front ++ calls })
  answer_at (suc i) reply front (call ∷ calls) s = answer_at i reply (front ++ call ∷ []) calls s

  -- What can happen to a client.
  pub data Event : Type 0 where
    login_clicked logout_clicked other_sent : Event
    token_given : Text → Event
    answered : ℕ → Reply User → Event

  abbrev pub act : Event → Client User → Client User
  act login_clicked c = send login_answer c
  act logout_clicked c = change sign_out (send other c)
  act other_sent c = send other c
  act (token_given token) c =
      send token_me (change (λ s. set_token_state (some token) (set_token (some token) s)) c)
  act (answered i reply) c = answer_at i reply [] c.pending c.session

  -- While the client is loading it shows only the loading screen, so that nothing but an answer
  -- can happen.
  abbrev pub is_answer : Event → Bool
  is_answer (answered i reply) = true
  is_answer _ = false

  abbrev pub step : Event → Client User → Client User
  step e c = if c.session.loading then (if is_answer e then act e c else c) else act e c

  unfoldable pub run : List Event → Client User → Client User
  unfolding answer_at
  run [] c = c
  run (e ∷ events) c = run events (step e c)

  -- The client when it starts, from what `localStorage` has.
  abbrev pub start : Option Text → Client User
  start stored = send (first_me stored) (record {
    session = record {
      auth_token = stored;
      stored = stored;
      user = none;
      token = stored;
      loading = true;
    };
    pending = [];
  })
