-- ===== src/Auth/Privileges.antt =====
-- Whom the requests of visitors raise: nobody.
use Prim.Native.String.{String}
use lan_video.Prelude.{
  ℕ, ◌≡◌, ◌∙◌, refl, sym, Bool, true, false, not, ◌&&◌, ◌||◌, ◌⊎◌, inl, inr, some, List, [], ◌∷◌,
  any, ◌==◌, arith, Bool-cases, if◌then◌else◌,
}
use lan_video.Prelude.Assoc.{◌=?◌, string_Eq}
use lan_video.Prelude.Texts.{Text}
use lan_video.Auth.{
  UserRow, Database, insert_user, create_user, create_guest_user, create_token, has_user,
  revoke_tokens_by_user_id, update_row, update_user, reset_password_and_revoke_tokens, verify_email,
  update_email, create_password_reset_token, create_email_verification_token, email_taken,
  find_valid_reset_token, find_valid_email_verification_token, cleanup_expired_tokens,
}
use lan_video.Auth.Service.{Outside}
use lan_video.Auth.Mail.{Post}
use lan_video.Auth.Acts.{Act, Closed, AllAdmit, acts, sign_up, govern}
use lan_video.Auth.Keeping.Sequences.{acts-keeps}
use lan_video.Auth.Rows.{All, All-map}

abbrev same_rank : UserRow → UserRow → Bool
same_rank u v =
    v.id == u.id
    && (v.role == u.role && ((v.approved && u.approved) || (not v.approved && not u.approved)))

-- An account with its id, its role and its approval was there, or it is a newcomer: a guest, or an
-- account that waits for approval.
abbrev pub Stands : List UserRow → UserRow → Type 0
Stands us u = (any (same_rank u) us ≡ true) ⊎ ((u.role ≡ 1) × (u.approved ≡ u.is_guest))

-- No decree of the administration, and no administrator by being the first.
abbrev pub IsOrdinary : Act → Type 0
IsOrdinary (sign_up e c q hash token) = c.allow_first_user_admin ≡ false
IsOrdinary (govern d) = ⊥
IsOrdinary _ = Unit {0}

module _ (us : List UserRow) where
  abbrev AllStand : Database → Type 0
  AllStand db = All (Stands us) db.users

  unless : (b : Bool) (x y : Database) → AllStand x → AllStand y → AllStand (if b then x else y)
  unless true x y h k = h
  unless false x y h k = k

  first_of {ℓ} :
      {A : Type ℓ} (b : Bool) (x y : Database × A)
      → AllStand x.0
      → AllStand y.0
      → AllStand (if◌then◌else◌ {A = Database × A} b x y).0
  first_of true x y h k = h
  first_of false x y h k = k

  insert_user-Stands :
      (u : UserRow) (db : Database) → Stands us u → AllStand db → AllStand (insert_user u db).0
  unfolding insert_user
  insert_user-Stands u db p h = elim (Bool-cases (any (λ v. v.username =? u.username) db.users)) [
    | inl e ↦ rw e h
    | inr e ↦ rw e (p, h)
  ]

  row-Stands :
      (f : UserRow → UserRow)
      → ((u : UserRow) → Stands us u → Stands us (f u))
      → (uid : ℕ) (u : UserRow) → Stands us u
      → Stands us (update_row uid f u)
  unfolding update_row
  row-Stands f h uid u s = elim (Bool-cases (u.id == uid)) [ inl e ↦ rw e (h u s) | inr e ↦ rw e s ]

  update-Stands :
      (f : UserRow → UserRow)
      → ((u : UserRow) → Stands us u → Stands us (f u))
      → (uid : ℕ) (db : Database) → AllStand db
      → AllStand (update_user uid f db).0
  unfolding update_user
  update-Stands f h uid db a =
      All-map (Stands us) (update_row uid f) db.users (row-Stands f h uid) a

  create_token-Stands :
      (sha256 : Text → Text) (now uid : ℕ) (token : Text) (db : Database)
      → AllStand db
      → AllStand (create_token sha256 now uid token db)
  unfolding create_token
  create_token-Stands sha256 now uid token db a = unless (has_user uid db) _ _ a a

  reset_token-Stands :
      (sha256 : Text → Text) (now uid : ℕ) (token : Text) (db : Database)
      → AllStand db
      → AllStand (create_password_reset_token sha256 now uid token db).0
  unfolding create_password_reset_token
  reset_token-Stands sha256 now uid token db a = first_of (has_user uid db) _ _ a a

  email_token-Stands :
      (sha256 : Text → Text) (now uid : ℕ) (token : Text) (db : Database)
      → AllStand db
      → AllStand (create_email_verification_token sha256 now uid token db).0
  unfolding create_email_verification_token
  email_token-Stands sha256 now uid token db a = first_of (has_user uid db) _ _ a a

  renewed-Stands :
      (now uid : ℕ) (hash : String) (db : Database)
      → AllStand db
      → AllStand (reset_password_and_revoke_tokens now uid hash db).0
  unfolding reset_password_and_revoke_tokens revoke_tokens_by_user_id
  renewed-Stands now uid hash db a =
      first_of (has_user uid db) _ _
        (update-Stands (λ u. record u { password_hash = hash }) (λ u s. s) uid db a) a

  readdressed-Stands :
      (uid : ℕ) (e : String) (db : Database) → AllStand db → AllStand (update_email uid e db).0
  unfolding update_email
  readdressed-Stands uid e db a =
      first_of (has_user uid db && email_taken uid e db) _ _ a (
        update-Stands (λ u. record u { email = some e; email_verified = false }) (λ u s. s) uid db
          a)

  registered-Stands :
      (name hash : String) (role : ℕ) (db : Database)
      → role ≡ 1
      → AllStand db
      → AllStand (create_user name hash role db).0
  unfolding create_user
  registered-Stands name hash role db r a = insert_user-Stands _ db (inr (r, rw r refl)) a

  guest-Stands :
      (suffix : String) (db : Database) → AllStand db → AllStand (create_guest_user suffix db).0
  unfolding create_guest_user
  guest-Stands suffix db a = insert_user-Stands _ db (inr (refl, refl)) a

  AllStand-Closed : (o : Outside) → Closed o (λ t. Unit {0}) (λ r. r ≡ 1) (λ d. ⊥) AllStand
  unfolding revoke_tokens_by_user_id find_valid_reset_token find_valid_email_verification_token
      cleanup_expired_tokens verify_email
  AllStand-Closed o = record {
    registered = registered-Stands;
    guests = guest-Stands;
    minted = create_token-Stands o.sha256;
    revoked = λ now uid db a. a;
    resettable = λ now uid token db f a. reset_token-Stands o.sha256 now uid token db a;
    redeemed = λ now token db a. a;
    renewable = renewed-Stands;
    readdressed = readdressed-Stands;
    verifiable = email_token-Stands o.sha256;
    followed = λ now token db a. a;
    verified =
        λ uid db a. update-Stands (λ u. record u { email_verified = true }) (λ u s. s) uid db a;
    swept = λ now db a. a;
    decreed = λ d db m a. absurd m;
  }

same_rank_self : (u : UserRow) → same_rank u u ≡ true
same_rank_self u = elim (Bool-cases u.approved) [
  | inl e ↦ rw e (ground arith)
  | inr e ↦ rw e (ground arith)
]

All-Stands :
    (xs us : List UserRow)
    → ((u : UserRow) → any (same_rank u) xs ≡ true → any (same_rank u) us ≡ true)
    → All (Stands us) xs
unfolding any
All-Stands [] us h = tt
All-Stands (x ∷ xs) us h = (
  inl (h x (rw (same_rank_self x) refl)),
  All-Stands xs us
      (λ u k. h u (elim (Bool-cases (same_rank u x)) [ inl e ↦ rw e refl | inr e ↦ rw e k ])),
)

admitted :
    (o : Outside) (as' : List Act)
    → All IsOrdinary as'
    → AllAdmit o (λ t. Unit {0}) (λ r. r ≡ 1) (λ d. ⊥) as'
admitted o [] h = tt
admitted o (Act.sign_in e q t ∷ as') (h, hs) = (tt, admitted o as' hs)
admitted o (sign_up e c q hash t ∷ as') (h, hs) =
    ((refl, λ k. absurd (let n = sym h ∙ k in cc n)), admitted o as' hs)
admitted o (Act.come_as_guest e x t ∷ as') (h, hs) = (tt, admitted o as' hs)
admitted o (Act.forget e x t ∷ as') (h, hs) = (tt, admitted o as' hs)
admitted o (Act.renew e x t p ∷ as') (h, hs) = (tt, admitted o as' hs)
admitted o (Act.move_mail e x t ∷ as') (h, hs) = (tt, admitted o as' hs)
admitted o (Act.ask_mail e c x t ∷ as') (h, hs) = (tt, admitted o as' hs)
admitted o (Act.follow e t ∷ as') (h, hs) = (tt, admitted o as' hs)
admitted o (Act.sweep now ∷ as') (h, hs) = (tt, admitted o as' hs)
admitted o (govern d ∷ as') (h, hs) = absurd h

-- No request of a visitor raises anybody. Over any sequence of sign-ins, registrations, guests, links by
-- mail and changes of addresses, whatever fails, where the first account is not made an administrator
-- and the administration does nothing: each account afterwards was there with its id, its role and its
-- approval, or has the role 1 and is approved only if it is a guest.
pub acts-Stand :
    (o : Outside) (as' : List Act) (p : Post)
    → All IsOrdinary as'
    → All (Stands p.0.db.users) (acts o as' p).0.db.users
acts-Stand o as' p h =
    acts-keeps o (λ t. Unit {0}) (λ r. r ≡ 1) (λ d. ⊥) (AllStand p.0.db.users)
      (AllStand-Closed p.0.db.users o) as' p (admitted o as' h)
      (All-Stands p.0.db.users p.0.db.users (λ u k. k))
