-- ===== src/Auth/Links.antt =====
-- How often a link to a new password is good.
use Prim.Native.String.{String}
use lan_video.Prelude.{
  ℕ, ◌+◌, ◌≤◌, ◌≡◌, ◌≢◌, refl, sym, ◌∙◌, Bool, true, false, not, ◌&&◌, Option, none, some, List, [],
  ◌∷◌, retain, length, arith, Bool-cases, inl, inr, if◌then◌else◌, ◌==◌,
}
use lan_video.Prelude.Assoc.{◌=?◌}
use lan_video.Prelude.Texts.{Text, text_Eq}
use lan_video.Prelude.Cuts.{codes}
use lan_video.Auth.{
  MailToken, Database, insert_user, create_user, create_guest_user, create_token, has_user,
  revoke_tokens_by_user_id, reset_password_and_revoke_tokens, update_email, update_user, spend_row,
  spend_all, good, redeem, create_password_reset_token, create_email_verification_token,
  find_valid_reset_token, find_valid_email_verification_token, cleanup_expired_tokens, verify_email,
  approve_user, toggle_admin, set_user_role, delete_user,
}
use lan_video.Auth.Rules.{is_password_length, is_password_strong_enough}
use lan_video.Auth.Service.{Outside, Server, Env, redeeming}
use lan_video.Auth.Mail.{Post, done, invalid_link, reset_password, reset_redeemed}
use lan_video.Auth.Acts.{Act, Decree, decree, acts, Closed, AllAdmit}
use lan_video.Auth.Keeping.Sequences.{acts-keeps, reset_hashed-keeps}

module _ (d : Text) where
  abbrev is_open : MailToken → Bool
  is_open t = t.token_hash =? d && not t.used

  -- The rows of a digest that are not spent.
  unfoldable pub unspent : List MailToken → ℕ
  unspent ts = length (retain is_open ts)

  spend_all-unspent : (uid : ℕ) (ts : List MailToken) → unspent (spend_all uid ts) ≤ unspent ts
  unfolding unspent spend_all spend_row retain
  spend_all-unspent uid [] = omega arith
  spend_all-unspent uid (t ∷ ts) = ground (arith, spend_all-unspent uid ts)

  retain-unspent : (q : MailToken → Bool) (ts : List MailToken) → unspent (retain q ts) ≤ unspent ts
  unfolding unspent retain
  retain-unspent q [] = omega arith
  retain-unspent q (t ∷ ts) = ground (arith, retain-unspent q ts)

  redeem-unspent :
      (now : ℕ) (x : Text) (ts : List MailToken) → unspent (redeem now x ts).0 ≤ unspent ts
  unfolding unspent retain redeem
  redeem-unspent now x [] = omega arith
  redeem-unspent now x (t ∷ ts) = ground (arith, redeem-unspent now x ts)

  redeem-some :
      (now uid : ℕ) (ts : List MailToken)
      → (redeem now d ts).1 ≡ some uid
      → unspent (redeem now d ts).0 + 1 ≡ unspent ts
  unfolding unspent retain redeem good
  redeem-some now uid [] h = absurd (cc h)
  redeem-some now uid (t ∷ ts) h = ground (arith, redeem-some now uid ts)

  redeem-none : (now : ℕ) (ts : List MailToken) → unspent ts ≡ 0 → (redeem now d ts).1 ≡ none
  unfolding unspent retain redeem good
  redeem-none now [] h = refl
  redeem-none now (t ∷ ts) h = ground (arith, redeem-none now ts)

  module _ (n : ℕ) where
    abbrev Within : Database → Type 0
    Within db = unspent db.reset_tokens ≤ n

    unless : (b : Bool) (x y : Database) → Within x → Within y → Within (if b then x else y)
    unless true x y h k = h
    unless false x y h k = k

    first_of {ℓ} :
        {A : Type ℓ} (b : Bool) (x y : Database × A)
        → Within x.0
        → Within y.0
        → Within (if◌then◌else◌ {A = Database × A} b x y).0
    first_of true x y h k = h
    first_of false x y h k = k

    resettable-Within :
        (sha256 : Text → Text) (now uid : ℕ) (token : Text) (db : Database)
        → (sha256 token =? d) ≡ false
        → Within db
        → Within (create_password_reset_token sha256 now uid token db).0
    unfolding create_password_reset_token unspent retain
    resettable-Within sha256 now uid token db f i = elim (Bool-cases (has_user uid db)) [
      | inl e ↦
          rw (e, f)
            (let k : unspent (spend_all uid db.reset_tokens) ≤ unspent db.reset_tokens =
                spend_all-unspent uid db.reset_tokens in
              omega arith)
      | inr e ↦ rw e i
    ]

    decreed-Within : (x : Decree) (db : Database) → Within db → Within (decree x db)
    unfolding decree approve_user toggle_admin set_user_role delete_user update_user
    decreed-Within (Decree.approve uid b) db i = i
    decreed-Within (Decree.toggle uid) db i = i
    decreed-Within (Decree.set_role uid role) db i = i
    decreed-Within (Decree.remove uid) db i =
        omega (arith, retain-unspent (λ t. not (t.user_id == uid)) db.reset_tokens)

    Within-Closed :
        (o : Outside)
        → Closed o (λ t. (o.sha256 t =? d) ≡ false) (λ r. Unit {0}) (λ x. Unit {0}) Within
    unfolding revoke_tokens_by_user_id find_valid_reset_token find_valid_email_verification_token
        cleanup_expired_tokens verify_email create_user create_guest_user insert_user create_token
        reset_password_and_revoke_tokens update_email create_email_verification_token update_user
    Within-Closed o = record {
      registered = λ name hash role db r i. first_of _ _ _ i i;
      guests = λ suffix db i. first_of _ _ _ i i;
      minted = λ now uid token db i. unless _ _ _ i i;
      revoked = λ now uid db i. i;
      resettable = resettable-Within o.sha256;
      redeemed =
          λ now token db i. omega (arith, redeem-unspent now (o.sha256 token) db.reset_tokens);
      renewable = λ now uid hash db i. first_of _ _ _ i i;
      readdressed = λ uid e db i. first_of _ _ _ i i;
      verifiable = λ now uid token db i. first_of _ _ _ i i;
      followed = λ now token db i. i;
      verified = λ uid db i. i;
      swept = λ now db i. i;
      decreed = λ x db m i. decreed-Within x db i;
    }

module _ (o : Outside) where
  abbrev Fresh : Text → Text → Type 0
  Fresh d t = (o.sha256 t =? d) ≡ false

  redeemed-done :
      (d : Text) (e : Env) (hash : Option String) (s : Server) (r : Database × Option ℕ)
      → (reset_redeemed o e hash s r).1 ≡ done
      → ((uid : ℕ) → r.1 ≡ some uid → Within d 0 r.0)
      → Within d 0 (reset_redeemed o e hash s r).0.db
  unfolding reset_redeemed
  redeemed-done d e hash s (db, none) h k = absurd (cc h)
  redeemed-done d e hash s (db, some uid) h k =
      reset_hashed-keeps o (Fresh d) (λ r. Unit {0}) (λ x. Unit {0}) (Within d 0)
        (Within-Closed d 0 o) e uid hash (record s { db = db }) (k uid refl)

  redeemed-none :
      (e : Env) (hash : Option String) (s : Server) (r : Database × Option ℕ)
      → r.1 ≡ none
      → (reset_redeemed o e hash s r).1 ≡ invalid_link
  unfolding reset_redeemed
  redeemed-none e hash s (db, none) h = refl
  redeemed-none e hash s (db, some uid) h = absurd (cc h)

  abbrev sound : String → Bool
  sound password =
      is_password_length (codes password)
      && is_password_strong_enough o.is_uppercase o.is_lowercase (codes password)

  reset-done :
      (e : Env) (token : Text) (password : String) (hash : Option String) (s : Server)
      → Within (o.sha256 token) 1 s.db
      → (reset_password o e token password hash s).1 ≡ done
      → Within (o.sha256 token) 0 (reset_password o e token password hash s).0.db
  unfolding reset_password find_valid_reset_token
  reset-done e token password hash s i h = elim (Bool-cases (sound password)) [
    | inl a ↦ elim (Bool-cases (e.works redeeming)) [
      | inl b ↦
          rw (a, b)
            (redeemed-done (o.sha256 token) e hash s
              (find_valid_reset_token o.sha256 e.call.now token s.db) (rw (a, b) at h)
              (λ uid k.
                omega (arith, redeem-some (o.sha256 token) e.call.now uid s.db.reset_tokens k)))
      | inr b ↦ absurd (let n = rw (a, b) at h in cc n)
    ]
    | inr a ↦ absurd (let n = rw a at h in cc n)
  ]

  reset-spent :
      (e : Env) (token : Text) (password : String) (hash : Option String) (s : Server)
      → Within (o.sha256 token) 0 s.db
      → (reset_password o e token password hash s).1 ≢ done
  unfolding reset_password find_valid_reset_token
  reset-spent e token password hash s i h = elim (Bool-cases (sound password)) [
    | inl a ↦ elim (Bool-cases (e.works redeeming)) [
      | inl b ↦
          let n = rw (a, b) at h in
          let m =
            redeemed-none e hash s (find_valid_reset_token o.sha256 e.call.now token s.db)
              (redeem-none (o.sha256 token) e.call.now s.db.reset_tokens (omega arith)) in
          cc (sym m ∙ n)
      | inr b ↦ let n = rw (a, b) at h in cc n
    ]
    | inr a ↦ let n = rw a at h in cc n
  ]

  -- A link to a new password is good once. Where at most one row of its digest is not spent and the
  -- link has set a password, it sets none again, whatever acts on accounts come in between, decrees of
  -- the administration included, that make no other link of the same digest, and whatever fails.
  pub reset_password-once :
      (e : Env) (token : Text) (password : String) (hash : Option String) (p : Post)
      (as' : List Act) (e' : Env) (password' : String) (hash' : Option String)
      → unspent (o.sha256 token) p.0.db.reset_tokens ≤ 1
      → (reset_password o e token password hash p.0).1 ≡ done
      → AllAdmit o (λ t. (o.sha256 t =? o.sha256 token) ≡ false) (λ r. Unit {0}) (λ x. Unit {0}) as'
      → (reset_password o e' token password' hash'
          (acts o as' ((reset_password o e token password hash p.0).0, p.1)).0).1
        ≢ done
  reset_password-once e token password hash p as' e' password' hash' i h a =
      reset-spent e' token password' hash'
        (acts o as' ((reset_password o e token password hash p.0).0, p.1)).0
        (acts-keeps o (Fresh (o.sha256 token)) (λ r. Unit {0}) (λ x. Unit {0})
          (Within (o.sha256 token) 0) (Within-Closed (o.sha256 token) 0 o) as'
          ((reset_password o e token password hash p.0).0, p.1) a
          (reset-done e token password hash p.0 i h))
