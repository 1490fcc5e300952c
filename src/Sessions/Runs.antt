-- ===== src/Sessions/Runs.antt =====
-- Several processes at work: each with its own TOKEN_CACHE and MEDIA_AUTH_CACHE, one Redis, one
-- database whose tables change as they like, and the calls in the order of their instants.
use lan_video.Prelude.{ℕ, ◌≤◌, ◌≡◌, ◌⊎◌, ◌==◌, List, [], ◌∷◌, if◌then◌else◌}
use lan_video.Prelude.Assoc.{remove}
use lan_video.Prelude.Texts.{Text, text_Eq}
use lan_video.Sessions.{
  User, Tables, CachedAuthUser, Entry, View, Call, authorized, known, find_user_by_token,
  resolve_media_user, forget_token, invalidate_media_auth_token, invalidate_cached_tokens_for_user,
  invalidate_media_auth_user,
}

pub record Process : Type 0 where
  pub token_cache : List (Text × Entry User)
  pub media_cache : List (Text × Entry CachedAuthUser)

pub record World : Type 0 where
  pub processes : ℕ → Process
  pub redis : List (Text × Entry CachedAuthUser)
  pub user_tokens : List (ℕ × Entry (List Text))

abbrev pub start : World
start = record {
  processes = λ p. record { token_cache = []; media_cache = [] };
  redis = [];
  user_tokens = [];
}

-- What the process `p` has before it.
abbrev pub view : ℕ → World → View
view p w = record {
  token_cache = (w.processes p).token_cache;
  media_cache = (w.processes p).media_cache;
  redis = w.redis;
  user_tokens = w.user_tokens;
}

unfoldable pub update : ℕ → View → World → World
update p v w = record {
  processes = λ q.
      if q == p
      then record { token_cache = v.token_cache; media_cache = v.media_cache }
      else w.processes q;
  redis = v.redis;
  user_tokens = v.user_tokens;
}

-- What a process does at an instant: a request for media, a request with a bearer token, the caches'
-- part of a sign-out and of the end of a user's sessions, and the loss of a key where a cache is full
-- or is dropped.
pub data Act : Type 0 where
  media bearer sign_out : Text → Act
  end_sessions : ℕ → Act
  evict : Text → Act

pub record Event : Type 0 where
  pub process : ℕ
  pub call : Call
  pub act : Act

unfoldable pub sign_out_caches : Call → Text → View → View
unfolding forget_token invalidate_media_auth_token
sign_out_caches c token v = invalidate_media_auth_token c token (forget_token token v)

unfoldable pub end_sessions_caches : Call → ℕ → View → View
unfolding invalidate_cached_tokens_for_user invalidate_media_auth_user
end_sessions_caches c uid v =
    invalidate_media_auth_user c uid (invalidate_cached_tokens_for_user uid v)

unfoldable pub evict_token : Text → View → View
unfolding remove
evict_token token v = record v {
  token_cache = remove token v.token_cache;
  media_cache = remove token v.media_cache;
  redis = remove token v.redis;
}

module _ (sha256 : Text → Text) (history : ℕ → Tables) where
  unfoldable pub act_on : Call → Act → View → View
  unfolding resolve_media_user find_user_by_token sign_out_caches end_sessions_caches evict_token
  act_on c (media token) v = (resolve_media_user sha256 c (history c.now) token v).0
  act_on c (bearer token) v = (find_user_by_token sha256 c (history c.now) token v).0
  act_on c (sign_out token) v = sign_out_caches c token v
  act_on c (end_sessions uid) v = end_sessions_caches c uid v
  act_on c (evict token) v = evict_token token v

  unfoldable pub step : Event → World → World
  unfolding act_on update
  step e w = update e.process (act_on e.call e.act (view e.process w)) w

  unfoldable pub run : List Event → World → World
  unfolding step
  run [] w = w
  run (e ∷ es) w = run es (step e w)

  -- A media request or a bearer request of the process goes through.
  abbrev pub Admitted : Call → ℕ → Text → World → Type 0
  Admitted c p token w =
      ((u : CachedAuthUser) × ((resolve_media_user sha256 c (history c.now) token (view p w)).1
          ≡ authorized u))
      ⊎ ((u : User) × ((find_user_by_token sha256 c (history c.now) token (view p w)).1 ≡ known u))

-- The instants of the events do not go down, from the one instant to the other.
abbrev pub Ordered : ℕ → List Event → ℕ → Type 0
Ordered from [] upto = from ≤ upto
Ordered from (e ∷ es) upto = (from ≤ e.call.now) × Ordered e.call.now es upto
