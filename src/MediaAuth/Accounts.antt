-- ===== src/MediaAuth/Accounts.antt =====
-- Who passes the guards of the interface.
use lan_video.Prelude.{
  ℕ, ◌+◌, ◌≤◌, ◌<◌, ◌≡◌, refl, sym, ap, ◌∙◌, Bool, true, false, if◌then◌else◌, leb, Option, none,
  some, List, arith, inl, inr, Bool-cases, Option-cases,
}
use lan_video.Prelude.Assoc.{Eq}
use lan_video.Prelude.Texts.{Text, text_Eq}
use lan_video.Prelude.Cuts.{is_some}
use lan_video.Sessions.{
  User, Tables, View, Call, Found, failed, unknown, known, find_user_by_token, is_valid_auth_token,
  token_cache_ttl,
}
use lan_video.Sessions.Staleness.{Knew, IsSound, Answered, find-Answered}
use lan_video.MediaAuth.{Request, extract_bearer_token, extract_csrf_from_cookie}
use lan_video.MediaAuth.Bearer.{
  judged, guarded, AuthUser, Verdict, passed, refused, Refusal, equal_texts, csrf_header,
  csrf_guard, auth_user, judge, with_token, bearer_token, bearer_auth, granted,
  ip_in_admin_whitelist, admin_auth,
}

-- The header and the cookie against forged requests agree.
abbrev pub Submitted : Request → Type 0
Submitted r =
    r.is_mutation ≡ true
    → extract_bearer_token r ≡ none
    → (v : Text) × (csrf_header r ≡ some v) × (extract_csrf_from_cookie r ≡ some v)

equal_texts-some :
    (a b : Option Text) → equal_texts a b ≡ true → (v : Text) × (a ≡ some v) × (b ≡ some v)
unfolding equal_texts
equal_texts-some none b h = absurd (cc h)
equal_texts-some (some x) none h = absurd (cc h)
equal_texts-some (some x) (some y) h = (x, refl, ap some (sym ((text_Eq.beq_iff x y).0 h)))

csrf_guard-Submitted : (r : Request) → csrf_guard r ≡ true → Submitted r
unfolding csrf_guard is_some
csrf_guard-Submitted r h m b = equal_texts-some _ _ (rw (m, b, csrf_guard) at h)

passed_user : AuthUser → Verdict → AuthUser
passed_user d (passed a) = a
passed_user d (refused x) = d

passed-injective : {a b : AuthUser} → passed a ≡ passed b → a ≡ b
unfolding passed_user
passed-injective {a} e = ap (passed_user a) e

not_refused :
    (b : Bool) (x : View × Verdict) (v : View) (m : Refusal) (a : AuthUser)
    → (if b then x else (v, refused m)).1 ≡ passed a
    → (b ≡ true) × (x.1 ≡ passed a)
not_refused true x v m a h = (refl, h)
not_refused false x v m a h = absurd (cc h)

module _ (sha256 : Text → Text) (history : ℕ → Tables) (detail_ok : Bool) (c : Call)
    (r : Request) where
  -- The request holds a token that the database knew, less than ten seconds ago, as one of an approved
  -- account, the one that is told of.
  pub record Proper (a : AuthUser) : Type 0 where
    pub token : Text
    pub user : User
    pub instant : ℕ
    pub held : bearer_token r ≡ some token
    pub well_formed : is_valid_auth_token token ≡ true
    pub before : instant ≤ c.now
    pub recent : c.now < instant + token_cache_ttl
    pub knew : Knew sha256 history instant token user
    pub approved : user.approved ≡ true
    pub told : auth_user user ≡ a
    pub submitted : Submitted r

  judge-Proper :
      (token : Text) (l : View × Found) (a : AuthUser)
      → bearer_token r ≡ some token
      → is_valid_auth_token token ≡ true
      → csrf_guard r ≡ true
      → Answered sha256 history c.now token l.0 l
      → (judged sha256 detail_ok c (history c.now) token l).1 ≡ passed a
      → Proper a
  unfolding judged judge
  judge-Proper token (v, failed) a b w g s h = absurd (cc h)
  judge-Proper token (v, unknown) a b w g s h = absurd (cc h)
  judge-Proper token (v, known u) a b w g s h = elim (Bool-cases u.approved) [
    | inr e ↦ absurd (let n = rw (e, judge) at h in cc n)
    | inl e ↦
        let (i, le, lt, knew) = s.1 u refl in
        record {
          token = token;
          user = u;
          instant = i;
          held = b;
          well_formed = w;
          before = le;
          recent = lt;
          knew = knew;
          approved = e;
          told = passed-injective (rw (e, judge) at h);
          submitted = csrf_guard-Submitted r g;
        }
  ]

  guarded-Proper :
      (token : Text) (v : View) (a : AuthUser)
      → bearer_token r ≡ some token
      → is_valid_auth_token token ≡ true
      → IsSound sha256 history c.now v
      → (guarded sha256 detail_ok c (history c.now) r v token).1 ≡ passed a
      → Proper a
  unfolding guarded
  guarded-Proper token v a b w s h = elim (Bool-cases (csrf_guard r)) [
    | inr g ↦ absurd (let n = rw (g, guarded) at h in cc n)
    | inl g ↦
        judge-Proper token (find_user_by_token sha256 c (history c.now) token v) a b w g
          (find-Answered sha256 history c token v s) (rw (g, guarded) at h)
  ]

  with_token-Proper :
      (token : Text) (v : View) (a : AuthUser)
      → bearer_token r ≡ some token
      → IsSound sha256 history c.now v
      → (with_token sha256 detail_ok c (history c.now) r v token).1 ≡ passed a
      → Proper a
  unfolding with_token
  with_token-Proper token v a b s h =
      let (e, k) =
        not_refused (is_valid_auth_token token)
          (guarded sha256 detail_ok c (history c.now) r v token) v Refusal.malformed a h in
      guarded-Proper token v a b e s k

  -- On sound caches: a request that the guard lets through as an account holds a well-formed token,
  -- which the database knew less than ten seconds ago as one of that account, then approved; and if it
  -- changes something and has no token in its header, its header and its cookie against forged
  -- requests are the same text.
  pub bearer_auth-Proper :
      (v : View) (a : AuthUser)
      → IsSound sha256 history c.now v
      → (bearer_auth sha256 detail_ok c (history c.now) r v).1 ≡ passed a
      → Proper a
  unfolding bearer_auth
  bearer_auth-Proper v a s h = elim (Option-cases (bearer_token r)) [
    | inl e ↦ absurd (let n = rw (e, bearer_auth) at h in cc n)
    | inr (token, e) ↦ with_token-Proper token v a e s (rw (e, bearer_auth) at h)
  ]

admin_auth-granted :
    {Ip : Type 0} ⦃e : Eq Ip⦄ (parse : Text → Option Ip) (ip : Text) (whitelist : List Ip)
    (x : Verdict)
    → admin_auth parse ip whitelist x ≡ granted
    → (a : AuthUser) × (x ≡ passed a)
      × (a.is_admin ≡ true)
      × (ip_in_admin_whitelist parse ip whitelist ≡ true)
unfolding admin_auth
admin_auth-granted parse ip whitelist (refused x) h = absurd (cc h)
admin_auth-granted parse ip whitelist (passed a) h = elim (Bool-cases a.is_admin) [
  | inr e ↦ absurd (let n = rw (e, admin_auth) at h in cc n)
  | inl e ↦ elim (Bool-cases (ip_in_admin_whitelist parse ip whitelist)) [
    | inr g ↦ absurd (let n = rw (e, g, admin_auth) at h in cc n)
    | inl g ↦ (a, refl, e, g)
  ]
]

at_least : (a b : ℕ) → leb a b ≡ true → a ≤ b
at_least a b h = ground arith

-- On sound caches: where the guard of the administration lets a request through, the database knew the
-- request's token, less than ten seconds ago, as one of an approved account with a role of 3 or more,
-- and the address is on the whitelist, if there is one.
pub admin-Proper :
    {Ip : Type 0} ⦃e : Eq Ip⦄ (parse : Text → Option Ip) (ip : Text) (whitelist : List Ip)
    (sha256 : Text → Text) (history : ℕ → Tables) (detail_ok : Bool) (c : Call) (r : Request)
    (v : View)
    → IsSound sha256 history c.now v
    → admin_auth parse ip whitelist (bearer_auth sha256 detail_ok c (history c.now) r v).1 ≡ granted
    → (a : AuthUser) × (p : Proper sha256 history detail_ok c r a) × (3 ≤ p.user.role)
      × (ip_in_admin_whitelist parse ip whitelist ≡ true)
unfolding auth_user
admin-Proper parse ip whitelist sha256 history detail_ok c r v s h =
    let (a, e, ad, w) = admin_auth-granted parse ip whitelist _ h in
    let p = bearer_auth-Proper sha256 history detail_ok c r v a s e in
    (a, p, at_least 3 p.user.role (ap (λ x. x.is_admin) p.told ∙ ad), w)
