-- ===== src/Sessions/Tests.antt =====
-- Runs of the session caches.
use lan_video.Prelude.{
  ℕ, zero, suc, ◌≤◌, ◌≡◌, refl, true, false, ltb, ltb-false, none, List, [], ◌∷◌, ◌==◌, arith,
  if◌then◌else◌,
}
use lan_video.Prelude.Assoc.{lookup}
use lan_video.Prelude.Texts.{Text, text_eq, text_Eq}
use lan_video.Sessions.{
  User, Tables, Call, cached_user, query_user, resolve_media_user, is_valid_auth_token,
}
use lan_video.Sessions.Staleness.{Backed}
use lan_video.Sessions.SignOut.{Absent}
use lan_video.Sessions.Runs.{World, start, media, bearer, sign_out, Event, run, Ordered, Admitted}
use lan_video.Sessions.Bounded.{media-Backed, revoked-Refused}
use lan_video.Sessions.Lasting.{sign_out-Lasting}

-- The digest plays no part in these runs.
abbrev digest : Text → Text
digest t = t

abbrev letters : ℕ → Text
letters zero = []
letters (suc n) = b'a' ∷ letters n

abbrev token : Text
token = letters 64

abbrev viewer : User
viewer = record { id = 7; username = letters 3; role = 1; approved = true; is_guest = false }

-- The session of the viewer ends after one second.
abbrev history : ℕ → Tables
history s = record {
  tokens =
      if ltb s 1000000000
      then record { user_id = 7; token_hash = token; expires_at = 900000000000; revoked = false }
        ∷ []
      else [];
  users = (7, viewer) ∷ [];
}

abbrev at_instant : ℕ → Call
at_instant s = record { now = s; db_ok = true; get_ok = true; put_ok = true }

-- A bearer request fills TOKEN_CACHE; from there a media request fills Redis, and from Redis another
-- process fills its own cache.
abbrev three_caches : List Event
three_caches =
    record { process = 0; call = at_instant 500000000; act = bearer token }
    ∷ record { process = 0; call = at_instant 10000000000; act = media token }
    ∷ record { process = 1; call = at_instant 19000000000; act = media token }
    ∷ []

ended : (s : ℕ) → 1000000000 ≤ s → query_user digest s token (history s) ≡ none
unfolding query_user
ended s h = rw (ltb-false s 1000000000 h) refl

three_caches-Ordered : (t : ℕ) → 19000000000 ≤ t → Ordered 0 three_caches t
three_caches-Ordered t h = (omega arith, (omega arith, (omega arith, h)))

media-Backed_example : Backed digest history 30000000000 28000000000 token (cached_user viewer)
unfolding run resolve_media_user text_eq
media-Backed_example =
    media-Backed digest history three_caches (at_instant 28000000000) 1 token (cached_user viewer)
      (three_caches-Ordered 28000000000 (omega arith)) refl

revoked-Refused_example :
    ¬ Admitted digest history
      (at_instant 31000000000)
      1
      token
      (run digest history three_caches start)
revoked-Refused_example =
    revoked-Refused digest history three_caches (at_instant 31000000000) 1 token 1000000000
      (three_caches-Ordered 31000000000 (omega arith)) ended (omega arith)

abbrev signed_in : World
unfolding run
signed_in =
    run digest history
      (record { process = 0; call = at_instant 500000000; act = bearer token }
        ∷ record { process = 0; call = at_instant 600000000; act = media token }
        ∷ [])
      start

elsewhere : (q : ℕ) → (q == 0) ≡ false → Absent token (signed_in.processes q)
unfolding run lookup
elsewhere q n = record { tokens = rw n refl; medias = rw n refl }

sign_out-Lasting_example : ¬ Admitted digest history (at_instant 1000000002) 0 token (
    run digest history
      (record { process = 0; call = at_instant 1000000000; act = sign_out token }
        ∷ record { process = 0; call = at_instant 1000000001; act = media token }
        ∷ [])
      signed_in)
unfolding is_valid_auth_token
sign_out-Lasting_example =
    sign_out-Lasting digest history token signed_in 0 (at_instant 1000000000) refl refl ended
      elsewhere (record { process = 0; call = at_instant 1000000001; act = media token } ∷ [])
      (at_instant 1000000002) 0 (omega arith, omega arith)
