-- ===== src/Shares/Tests.antt =====
-- Share links.
use lan_video.Prelude.{
  ℕ, zero, suc, ◌≡◌, refl, true, none, some, List, [], ◌∷◌, any, retain, ◌*◌, ◌+◌, arith, inl, inr,
}
use lan_video.Prelude.Texts.{Text, text_eq}
use lan_video.Prelude.Cuts.{pos, negsuc}
use lan_video.ServiceError.{ServiceError}
use lan_video.MediaAuth.{is_valid_share_token}
use lan_video.Shares.{
  Shares, hour, lifetime, new_link, create_share_link, get_share_video, revoke_my_share,
}
use lan_video.Shares.Life.{Act, acts, create_share_link-opens}

abbrev digest : Text → Text
digest t = t

abbrev letters : ℕ → ℕ → Text
letters c zero = []
letters c (suc n) = c ∷ letters c n

-- A link of another account, which ends after three hours, in a library of one video.
abbrev begun : Shares
begun = record {
  links =
      record {
        id = 1;
        video_id = pos 12;
        user_id = 7;
        token_hash = letters 98 32;
        expires_at = some (3 * hour);
      }
      ∷ [];
  next_id = 2;
  videos = pos 12 ∷ [];
}

-- A day later.
abbrev next_day : ℕ
next_day = 24 * hour

-- The other account makes a link and ends its first one, an administrator tries the number of a row
-- that is not there, and the expired links go.
abbrev others : List Act
others =
    Act.create 5 (pos 12) 7 none (letters 99 32)
    ∷ Act.revoke 1 7
    ∷ Act.delete (pos 12) 4 1 true
    ∷ Act.clean next_day
    ∷ []

create_share_link-opens_example :
    get_share_video digest next_day (letters 97 32) (
      acts digest others
        (create_share_link digest 5 (pos 12) 9 (some (pos 2)) (letters 97 32) begun).0)
    ≡ inr (new_link digest 5 (pos 12) 9 (some (pos 2)) (letters 97 32) 2)
unfolding is_valid_share_token lifetime any retain text_eq
create_share_link-opens_example =
    create_share_link-opens digest 5 next_day (pos 12) 9 (some (pos 2)) (letters 97 32) begun others
      refl refl refl (omega arith) (refl, (refl, (refl, (omega arith, omega arith))))

-- Two days after it was made the link opens nothing.
ended :
    get_share_video digest
      (5 + 48 * hour)
      (letters 97 32)
      (create_share_link digest 5 (pos 12) 9 (some (pos 2)) (letters 97 32) begun).0
    ≡ inl ServiceError.not_found
unfolding get_share_video create_share_link text_eq
ended = refl

-- A stranger cannot end it.
kept : (revoke_my_share 1 8 begun) ≡ (begun, some ServiceError.not_found)
unfolding revoke_my_share
kept = refl

short_token : get_share_video digest 5 (letters 97 31) begun ≡ inl ServiceError.bad_request
unfolding get_share_video
short_token = refl

-- A number of days that is negative counts as one day.
one_day : lifetime (some (negsuc 4)) ≡ 24 * hour
unfolding lifetime
one_day = refl
