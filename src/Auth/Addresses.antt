-- ===== src/Auth/Addresses.antt =====
-- What the mark of a verified address is worth.
use Prim.Native.String.{String}
use lan_video.Prelude.{
  ℕ, ◌≡◌, ◌≢◌, refl, sym, ◌∙◌, subst, ◌⊎◌, Bool, true, false, ◌&&◌, Option, none, some,
  some-injective, if◌then◌else◌, List, [], ◌∷◌, map, Bool-cases, inl, inr, ◌==◌, ==_iff, arith,
}
use lan_video.Prelude.Assoc.{◌=?◌, string_Eq}
use lan_video.Prelude.Texts.{Text}
use lan_video.Prelude.Cuts.{codes}
use lan_video.Auth.{
  UserRow, MailToken, update_row, update_user, update_email, email_taken, has_user, verify_email,
  spend_all, spend_row, find_valid_email_verification_token, redeem, good, get_email,
  find_by_username, revoke_tokens_by_user_id, create_token, Database,
}
use lan_video.RateLimit.{Verdict, allowed, limited}
use lan_video.Auth.Rules.{is_valid_email}
use lan_video.Auth.Service.{Outside, Server, Env, updating, minting, finding, revoking}
use lan_video.Auth.Mail.{
  send_verification_email, user_checked, verification_counted, mail_verification,
  verification_limits, stored, Mail, Post, EmailChange, signed_out, new_session,
  verify_user_password, done, change_email, addressed, marked, spent_link, follow_spent,
}
use lan_video.Auth.Rows.{All}

-- The address of an account, and its mark.
abbrev Address : ℕ → String → Bool → List UserRow → Type 0
Address uid a b us = All (λ u. u.id ≡ uid → (u.email ≡ some a) × (u.email_verified ≡ b)) us

set-Address :
    (uid : ℕ) (a : String) (us : List UserRow)
    → Address uid a false
        (map (update_row uid λ u. record u { email = some a; email_verified = false }) us)
unfolding update_row
set-Address uid a [] = tt
set-Address uid a (u ∷ us) = (
  elim (Bool-cases (u.id == uid)) [
    | inl e ↦ rw e (λ k. (refl, refl))
    | inr e ↦ rw e (λ k. absurd (let n = sym e ∙ (==_iff u.id uid).1 k in cc n))
  ],
  set-Address uid a us,
)

mark-Address :
    (uid : ℕ) (a : String) (us : List UserRow)
    → Address uid a false us
    → Address uid a true (map (update_row uid λ u. record u { email_verified = true }) us)
unfolding update_row
mark-Address uid a [] h = tt
mark-Address uid a (u ∷ us) (h, hs) = (
  elim (Bool-cases (u.id == uid)) [
    | inl e ↦ rw e (λ k. ((h ((==_iff u.id uid).0 e)).0, refl))
    | inr e ↦ rw e (λ k. absurd (let n = sym e ∙ (==_iff u.id uid).1 k in cc n))
  ],
  mark-Address uid a us hs,
)

module _ (o : Outside) where
  abbrev clean : String → String
  clean email = o.to_lowercase (o.trim email)

  -- What follows the change of the address leaves the accounts and the links that were mailed.
  signed_out-rows :
      (e : Env) (uid : ℕ) (token : Text) (s : Server)
      → ((signed_out o e uid token s).0.db.users ≡ s.db.users)
        × ((signed_out o e uid token s).0.db.email_tokens ≡ s.db.email_tokens)
  unfolding signed_out new_session revoke_tokens_by_user_id create_token
  signed_out-rows e uid token s = elim (Bool-cases (e.works revoking)) [
    | inr a ↦ rw a (refl, refl)
    | inl a ↦ elim (Bool-cases (e.works minting)) [
      | inr b ↦ rw (a, b) (refl, refl)
      | inl b ↦
          let db : Database = revoke_tokens_by_user_id e.call.now uid s.db in
          elim (Bool-cases (has_user uid db)) [
            | inl f ↦ rw (a, b, f) (refl, refl)
            | inr f ↦ rw (a, b, f) (refl, refl)
          ]
    ]
  ]

  signed_out-done :
      (P : List UserRow → List MailToken → Type 0) (e : Env) (uid : ℕ) (token : Text) (s : Server)
      → P s.db.users s.db.email_tokens
      → P (signed_out o e uid token s).0.db.users (signed_out o e uid token s).0.db.email_tokens
  signed_out-done P e uid token s p = let (u, t) = signed_out-rows e uid token s in rw (u, t) p

  -- What holds of the rows once the address is changed, holds in the end.
  addressed-done :
      (P : List UserRow → List MailToken → Type 0) (e : Env) (uid : ℕ) (a : String) (token : Text)
      (s : Server)
      → P
          (map
            (update_row uid (λ u. record u { email = some a; email_verified = false }))
            s.db.users)
          (spend_all uid s.db.email_tokens)
      → (addressed o e uid token s (update_email uid a s.db)).1 ≡ done
      → P
          (addressed o e uid token s (update_email uid a s.db)).0.db.users
          (addressed o e uid token s (update_email uid a s.db)).0.db.email_tokens
  unfolding addressed update_email update_user
  addressed-done P e uid a token s p h =
      elim (Bool-cases (has_user uid s.db && email_taken uid a s.db)) [
        | inl f ↦ absurd (let n = rw f at h in cc n)
        | inr f ↦ rw f (signed_out-done P e uid token _ p)
      ]

  change_email-rows :
      (P : List UserRow → List MailToken → Type 0) (e : Env) (uid : ℕ) (q : EmailChange)
      (s : Server)
      → P
          (map
            (update_row uid
              (λ u. record u { email = some (clean q.email); email_verified = false }))
            s.db.users)
          (spend_all uid s.db.email_tokens)
      → (change_email o e uid q s).1 ≡ done
      → P (change_email o e uid q s).0.db.users (change_email o e uid q s).0.db.email_tokens
  unfolding change_email
  change_email-rows P e uid q s p h = elim (Bool-cases (is_valid_email (codes (clean q.email)))) [
    | inr a ↦ absurd (let n = rw a at h in cc n)
    | inl a ↦ elim (Bool-cases (q.password =? "")) [
      | inl b ↦ absurd (let n = rw (a, b) at h in cc n)
      | inr b ↦ elim (Bool-cases (e.works finding)) [
        | inr f ↦ absurd (let n = rw (a, b, f) at h in cc n)
        | inl f ↦
            elim (Bool-cases
              (verify_user_password o q.password (find_by_username q.username s.db))) [
                | inr k ↦ absurd (let n = rw (a, b, f, k) at h in cc n)
                | inl k ↦ elim (Bool-cases (e.works updating)) [
                  | inr w ↦ absurd (let n = rw (a, b, f, k, w) at h in cc n)
                  | inl w ↦
                      rw (a, b, f, k, w)
                        (addressed-done P e uid (clean q.email) q.token s p
                          (rw (a, b, f, k, w) at h))
                ]
              ]
      ]
    ]
  ]

  change_email-done :
      (e : Env) (uid : ℕ) (q : EmailChange) (s : Server)
      → (change_email o e uid q s).1 ≡ done
      → Address uid (clean q.email) false (change_email o e uid q s).0.db.users
  change_email-done e uid q s h =
      change_email-rows (λ us ts. Address uid (clean q.email) false us) e uid q s
        (set-Address uid (clean q.email) s.db.users) h

  -- The address of the account gets a link by mail.
  abbrev pub mailed : Env → ℕ → Text → Post → Post
  mailed e uid token p = send_verification_email o e true uid token p

  -- The link is spent.
  abbrev pub spent : Env → Text → Post → Server × Option ℕ
  spent e token p = spent_link o e token p.0

  -- The account changes its address between the two statements of the request that follows the link.
  abbrev pub interrupted : Env → ℕ → EmailChange → Env → Server × Option ℕ → Server
  interrupted e uid q e' r = (follow_spent o e' ((change_email o e uid q r.0).0, r.1)).0

  -- No mail goes to the address.
  abbrev pub NoMailTo : String → List Mail → Type 0
  NoMailTo a out = All (λ m. m.address ≢ a) out

  stored-NoMailTo :
      (x a : String) (token : Text) (s : Server) (out : List Mail) (r : Database × Bool)
      → a ≢ x
      → NoMailTo x out
      → NoMailTo x (stored a token s out r).1
  unfolding stored
  stored-NoMailTo x a token s out (db, true) n h = (n, h)
  stored-NoMailTo x a token s out (db, false) n h = h

  mail-NoMailTo :
      (e : Env) (uid : ℕ) (x a : String) (token : Text) (m : Option String) (p : Post)
      → (m ≡ none) ⊎ (m ≡ some a)
      → a ≢ x
      → NoMailTo x p.1
      → NoMailTo x (mail_verification o e uid token m p).1
  unfolding mail_verification
  mail-NoMailTo e uid x a token none p k n h = h
  mail-NoMailTo e uid x a token (some c) (s, out) (inl k) n h = absurd (cc k)
  mail-NoMailTo e uid x a token (some c) (s, out) (inr k) n h =
      elim (Bool-cases (e.works minting)) [
        | inl b ↦
            rw b
              (stored-NoMailTo x c token s out _ (subst (λ y. y ≢ x) (sym (some-injective k)) n) h)
        | inr b ↦ rw b h
      ]

  looked-up :
      (b : Bool) (m : Option String) (a : String)
      → m ≡ some a
      → ((if b then m else none) ≡ none) ⊎ ((if b then m else none) ≡ some a)
  looked-up true m a k = inr k
  looked-up false m a k = inl refl

  counted-NoMailTo :
      (e : Env) (uid : ℕ) (x a : String) (token : Text) (r : Server × Verdict) (out : List Mail)
      → get_email uid r.0.db ≡ some a
      → a ≢ x
      → NoMailTo x out
      → NoMailTo x (verification_counted o e uid token r out).1
  unfolding verification_counted
  counted-NoMailTo e uid x a token (s, limited) out k n h = h
  counted-NoMailTo e uid x a token (s, allowed) out k n h =
      mail-NoMailTo e uid x a token _ (s, out)
        (looked-up (e.works finding) (get_email uid s.db) a k) n h

  mailed-NoMailTo :
      (e : Env) (uid : ℕ) (x a : String) (token : Text) (p : Post)
      → get_email uid p.0.db ≡ some a
      → a ≢ x
      → NoMailTo x p.1
      → NoMailTo x (mailed e uid token p).1
  unfolding send_verification_email user_checked
  mailed-NoMailTo e uid x a token (s, out) k n h =
      counted-NoMailTo e uid x a token (user_checked e verification_limits _ s) out k n h

  moved-marked :
      (s : Server) (found : Option ℕ) (uid : ℕ) (e : Env) (q : EmailChange) (e' : Env)
      → found ≡ some uid
      → (change_email o e uid q s).1 ≡ done
      → e'.works updating ≡ true
      → Address uid
          (clean q.email)
          true
          (follow_spent o e' ((change_email o e uid q s).0, found)).0.db.users
  unfolding follow_spent marked verify_email update_user
  moved-marked s found uid e q e' f h w =
      rw (f, w)
        (mark-Address uid (clean q.email) (change_email o e uid q s).0.db.users
          (change_email-done e uid q s h))

  -- A link is mailed to the address of an account, and a request follows it, which spends it and then
  -- marks the account. Where the account changes its address between the two, to one that it had not and
  -- to which no mail has gone, every row of the account has the new address in the end, marked as
  -- verified, and still no mail has gone to it.
  pub follow-stale :
      (e : Env) (uid : ℕ) (token : Text) (p : Post) (a : String) (e' : Env) (e'' : Env)
      (q : EmailChange) (e₃ : Env)
      → get_email uid p.0.db ≡ some a
      → a ≢ clean q.email
      → NoMailTo (clean q.email) p.1
      → (spent e' token (mailed e uid token p)).1 ≡ some uid
      → (change_email o e'' uid q (spent e' token (mailed e uid token p)).0).1 ≡ done
      → e₃.works updating ≡ true
      → Address uid
          (clean q.email)
          true
          (interrupted e'' uid q e₃ (spent e' token (mailed e uid token p))).db.users
        × NoMailTo (clean q.email) (mailed e uid token p).1
  follow-stale e uid token p a e' e'' q e₃ k n m f h w =
      let r = spent e' token (mailed e uid token p) in
      (
        moved-marked r.0 r.1 uid e'' q e₃ f h w,
        mailed-NoMailTo e uid (clean q.email) a token p k n m,
      )

  -- The rows of an account that are not spent.
  abbrev Spent : ℕ → List MailToken → Type 0
  Spent uid ts = All (λ t. t.user_id ≡ uid → t.used ≡ true) ts

  spend_all-Spent : (uid : ℕ) (ts : List MailToken) → Spent uid (spend_all uid ts)
  unfolding spend_all spend_row
  spend_all-Spent uid [] = tt
  spend_all-Spent uid (t ∷ ts) = (ground arith, spend_all-Spent uid ts)

  redeem-Spent :
      (uid now : ℕ) (d : Text) (ts : List MailToken) → Spent uid ts → (redeem now d ts).1 ≢ some uid
  unfolding redeem good
  redeem-Spent uid now d [] a h = cc h
  redeem-Spent uid now d (t ∷ ts) (a, as') h = ground (arith, a, redeem-Spent uid now d ts as')

  change_email-Spent :
      (e : Env) (uid : ℕ) (q : EmailChange) (s : Server)
      → (change_email o e uid q s).1 ≡ done
      → Spent uid (change_email o e uid q s).0.db.email_tokens
  change_email-Spent e uid q s h =
      change_email-rows (λ us ts. Spent uid ts) e uid q s (spend_all-Spent uid s.db.email_tokens) h

  -- A change of the address that succeeds leaves every row of the account with the new address, in small
  -- letters and without blanks at its ends, unverified, and no token that is then followed, at any
  -- instant, is a link of the account.
  pub change_email-Unverified :
      (e : Env) (uid : ℕ) (q : EmailChange) (s : Server) (e' : Env) (token : Text)
      → (change_email o e uid q s).1 ≡ done
      → Address uid (clean q.email) false (change_email o e uid q s).0.db.users
        × ((spent_link o e' token (change_email o e uid q s).0).1 ≢ some uid)
  unfolding spent_link find_valid_email_verification_token
  change_email-Unverified e uid q s e' token h = (
    change_email-done e uid q s h,
    redeem-Spent uid e'.call.now (o.sha256 token) (change_email o e uid q s).0.db.email_tokens
        (change_email-Spent e uid q s h),
  )
