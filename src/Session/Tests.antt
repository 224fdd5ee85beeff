-- ===== src/Session/Tests.antt =====
-- Sessions with concrete orders of events. A user is a number.
use mc_gantry.Base.{ℕ, ◌≡◌, refl, Bool, false, List, [], ◌∷◌, none, some, codes, arith}
use mc_gantry.Session.{
  Call, Session, Event, login_clicked, logout_clicked, token_given, answered, logged_in, me,
  unauthorized, failed, other, set_token, answer_at, run, start,
}
use mc_gantry.Session.Start.{run-IsConsistent}
use mc_gantry.Session.SignOut.{IsSignedOut, answer_at-IsSignedOut}
use mc_gantry.Session.Loading.{run-loading, for_me, for_failed}
use mc_gantry.Session.Consistent.{IsConsistent}

abbrev is_complete : ℕ → Bool
is_complete user = false

-- The stored token is refused; then there is a login with a second request for the user.
abbrev login : List (Event is_complete)
login =
    answered 0 unauthorized
    ∷ answered 0 failed
    ∷ login_clicked
    ∷ answered 0 (logged_in (codes "new") 7)
    ∷ answered 0 (me 7)
    ∷ []

-- The user logs out before the user of a token arrives.
abbrev late_answer : List (Event is_complete)
late_answer = answered 0 failed ∷ token_given (codes "t") ∷ logout_clicked ∷ answered 0 (me 7) ∷ []

-- The token of a new session is cleared by a late 401 to a request of the old one.
abbrev late_unauthorized : List (Event is_complete)
late_unauthorized =
    answered 0 (me 7)
    ∷ logout_clicked
    ∷ login_clicked
    ∷ answered 1 (logged_in (codes "new") 8)
    ∷ answered 0 unauthorized
    ∷ []

login_test : (run is_complete login (start is_complete (some (codes "old")))).session ≡ record {
  auth_token = some (codes "new");
  stored = some (codes "new");
  user = some 7;
  token = some (codes "new");
  loading = false;
}
unfolding run answer_at set_token
login_test = refl

late_answer_test :
    (run is_complete late_answer (start is_complete none)).session
    ≡ record { auth_token = none; stored = none; user = some 7; token = none; loading = false }
unfolding run answer_at set_token
late_answer_test = refl

late_unauthorized_test :
    (run is_complete late_unauthorized (start is_complete (some (codes "old")))).session
    ≡ record { auth_token = none; stored = none; user = none; token = none; loading = false }
unfolding run answer_at set_token
late_unauthorized_test = refl

run-IsConsistent_example :
    IsConsistent (run is_complete login (start is_complete (some (codes "old")))).session
run-IsConsistent_example = run-IsConsistent is_complete (some (codes "old")) login

abbrev signed_in : Session ℕ
signed_in = record {
  auth_token = some (codes "t");
  stored = some (codes "t");
  user = some 7;
  token = some (codes "t");
  loading = false;
}

abbrev open_call : Call
open_call = record { waiting = other; bearer = some (codes "t") }

answer_at-IsSignedOut_example :
    IsSignedOut (answer_at is_complete 0 unauthorized [] (open_call ∷ []) signed_in).session
answer_at-IsSignedOut_example =
    answer_at-IsSignedOut is_complete 0 [] (open_call ∷ []) signed_in refl (omega arith)

run-loading_example :
    (run is_complete
      (answered 0 failed ∷ answered 0 (me 7) ∷ [])
      (start is_complete (some (codes "old")))).session.loading
    ≡ false
run-loading_example =
    run-loading is_complete (some (codes "old")) failed (me 7) for_failed (for_me 7)
