-- ===== src/Shares/Life.antt =====
-- The life of a share link, whatever else is done with links.
use lan_video.Prelude.{
  ℕ, ◌+◌, ◌≤◌, ◌<◌, ◌≡◌, refl, ap, ◌∙◌, ◌==◌, ltb, Bool, true, false, not, ◌&&◌, ◌||◌, Option, none,
  some, List, [], ◌∷◌, any, retain, arith, ltb-false, inl, inr, Bool-cases, if◌then◌else◌,
}
use lan_video.Prelude.Assoc.{◌=?◌}
use lan_video.Prelude.Texts.{Text, text_Eq, text_eq_refl}
use lan_video.Prelude.Cuts.{ℤ, int_Eq}
use lan_video.MediaAuth.{is_valid_share_token}
use lan_video.MediaAuth.Queries.{ShareLink, first, unexpired}
use lan_video.Shares.{
  Shares, lifetime, delete_where, found_or_missing, found_link, revoke_my_share, delete_share_link,
  is_expired, cleanup_expired_links, new_link, create_share_link, open_link, get_share_video,
}

module _ {ℓ} {A : Type ℓ} where
  first-and : (p q : A → Bool) (xs : List A) → first (λ x. p x && q x) xs ≡ first q (retain p xs)
  unfolding first retain
  first-and p q [] = refl
  first-and p q (x ∷ xs) = elim (Bool-cases (p x)) [
    | inl e ↦ elim (Bool-cases (q x)) [
      | inl f ↦ rw (e, f) refl
      | inr f ↦ rw (e, f) (first-and p q xs)
    ]
    | inr e ↦ rw e (first-and p q xs)
  ]

  retain_swap : (p q : A → Bool) (xs : List A) → retain p (retain q xs) ≡ retain q (retain p xs)
  unfolding retain
  retain_swap p q [] = refl
  retain_swap p q (x ∷ xs) = elim (Bool-cases (p x)) [
    | inl e ↦ elim (Bool-cases (q x)) [
      | inl f ↦ rw (e, f, e) (ap (λ ys. x ∷ ys) (retain_swap p q xs))
      | inr f ↦ rw (e, f) (retain_swap p q xs)
    ]
    | inr e ↦ elim (Bool-cases (q x)) [
      | inl f ↦ rw (e, f, e) (retain_swap p q xs)
      | inr f ↦ rw (e, f) (retain_swap p q xs)
    ]
  ]

lt→ltb : (a b : ℕ) → a < b → ltb a b ≡ true
lt→ltb a b h = ground arith

-- The links of a digest.
abbrev holders : Text → Shares → List ShareLink
holders d s = retain (λ l. l.token_hash =? d) s.links

delete_where-holders :
    (d : Text) (p : ShareLink → Bool) (l : ShareLink) (s : Shares)
    → holders d s ≡ l ∷ []
    → p l ≡ false
    → holders d (delete_where p s).0 ≡ l ∷ []
unfolding delete_where retain
delete_where-holders d p l s h k =
    retain_swap (λ x. x.token_hash =? d) (λ x. not (p x)) s.links
    ∙ (ap (retain (λ x. not (p x))) h ∙ rw k refl)

either :
    (b : Bool) (d : Text) (r s : Shares) (x : Option ShareLink)
    → holders d r ≡ holders d s
    → holders d (if◌then◌else◌ {A = Shares × Option ShareLink} b (r, x) (s, none)).0 ≡ holders d s
either true d r s x h = h
either false d r s x h = refl

-- What is done with links.
pub data Act : Type 0 where
  create : ℕ → ℤ → ℕ → Option ℤ → Text → Act
  revoke : ℕ → ℕ → Act
  delete : ℤ → ℕ → ℕ → Bool → Act
  clean : ℕ → Act

found-first : (r : Shares × Bool) → (found_or_missing r).0 ≡ r.0
unfolding found_or_missing
found-first (s, true) = refl
found-first (s, false) = refl

module _ (sha256 : Text → Text) where
  unfoldable pub act : Act → Shares → Shares
  unfolding create_share_link revoke_my_share delete_share_link cleanup_expired_links
  act (create now video user days token) s =
      (create_share_link sha256 now video user days token s).0
  act (revoke id user) s = (revoke_my_share id user s).0
  act (delete video id user admin) s = (delete_share_link video id user admin s).0
  act (clean now) s = cleanup_expired_links now s

  unfoldable pub acts : List Act → Shares → Shares
  unfolding act
  acts [] s = s
  acts (a ∷ as') s = acts as' (act a s)

  -- An act that leaves a link alone: another token, another link or another user, or a removal of
  -- expired links by `now`.
  abbrev pub Spares : ℕ → ShareLink → Act → Type 0
  Spares now l (create at_instant video user days token) = (sha256 token =? l.token_hash) ≡ false
  Spares now l (revoke id user) = (l.id == id && l.user_id == user) ≡ false
  Spares now l (delete video id user admin) =
      (l.id == id && (l.video_id =? video && (admin || l.user_id == user))) ≡ false
  Spares now l (clean at_instant) = at_instant ≤ now

  abbrev pub AllSpare : ℕ → ShareLink → List Act → Type 0
  AllSpare now l [] = 0 ≤ now
  AllSpare now l (a ∷ as') = Spares now l a × AllSpare now l as'

module _ (sha256 : Text → Text) where
  create-holders :
      (at_instant : ℕ) (video : ℤ) (user : ℕ) (days : Option ℤ) (token : Text) (s : Shares)
      (d : Text)
      → (sha256 token =? d) ≡ false
      → holders d (create_share_link sha256 at_instant video user days token s).0 ≡ holders d s
  unfolding create_share_link retain
  create-holders at_instant video user days token s d e =
      either (any (λ v. v =? video) s.videos) d _ s _ (rw e refl)

  act-holders :
      (now t : ℕ) (l : ShareLink)
      → l.expires_at ≡ some t
      → now < t
      → (a : Act) → Spares sha256 now l a
      → (s : Shares) → holders l.token_hash s ≡ l ∷ []
      → holders l.token_hash (act sha256 a s) ≡ l ∷ []
  unfolding act create_share_link retain revoke_my_share delete_share_link cleanup_expired_links
      is_expired
  act-holders now t l h k (create at_instant video user days token) e s g =
      create-holders at_instant video user days token s l.token_hash e ∙ g
  act-holders now t l h k (revoke id user) e s g =
      rw (found-first (delete_where (λ x. x.id == id && x.user_id == user) s))
        (delete_where-holders l.token_hash (λ x. x.id == id && x.user_id == user) l s g e)
  act-holders now t l h k (delete video id user admin) e s g =
      rw
        (found-first (
          delete_where (λ x. x.id == id && (x.video_id =? video && (admin || x.user_id == user)))
            s))
        (delete_where-holders l.token_hash
          (λ x. x.id == id && (x.video_id =? video && (admin || x.user_id == user))) l s g e)
  act-holders now t l h k (clean at_instant) e s g =
      delete_where-holders l.token_hash (is_expired at_instant) l s g
        (rw h (ltb-false t at_instant (omega arith)))

  acts-holders :
      (now t : ℕ) (l : ShareLink)
      → l.expires_at ≡ some t
      → now < t
      → (as' : List Act) → AllSpare sha256 now l as'
      → (s : Shares) → holders l.token_hash s ≡ l ∷ []
      → holders l.token_hash (acts sha256 as' s) ≡ l ∷ []
  unfolding acts
  acts-holders now t l h k [] e s g = g
  acts-holders now t l h k (a ∷ as') (e, es) s g =
      acts-holders now t l h k as' es (act sha256 a s) (act-holders now t l h k a e s g)

  made-holders :
      (now : ℕ) (video : ℤ) (user : ℕ) (days : Option ℤ) (token : Text) (s : Shares)
      → any (λ v. v =? video) s.videos ≡ true
      → holders (sha256 token) s ≡ []
      → holders (sha256 token) (create_share_link sha256 now video user days token s).0
        ≡ new_link sha256 now video user days token s.next_id ∷ []
  unfolding create_share_link retain
  made-holders now video user days token s h g = rw (h, text_eq_refl (sha256 token), g) refl

  open_link-acts :
      (now later : ℕ) (video : ℤ) (user : ℕ) (days : Option ℤ) (token : Text) (s : Shares)
      (as' : List Act)
      → any (λ v. v =? video) s.videos ≡ true
      → holders (sha256 token) s ≡ []
      → later < now + lifetime days
      → AllSpare sha256 later (new_link sha256 now video user days token s.next_id) as'
      → open_link sha256 later token
          (acts sha256 as' (create_share_link sha256 now video user days token s).0)
        ≡ some (new_link sha256 now video user days token s.next_id)
  unfolding open_link first unexpired
  open_link-acts now later video user days token s as' h g k sp =
      first-and (λ l. l.token_hash =? sha256 token) (λ l. unexpired later l.expires_at)
        (acts sha256 as' (create_share_link sha256 now video user days token s).0).links
      ∙ rw
          (acts-holders later (now + lifetime days)
            (new_link sha256 now video user days token s.next_id) refl k as' sp
            (create_share_link sha256 now video user days token s).0
            (made-holders now video user days token s h g))
          (rw (lt→ltb later (now + lifetime days) k) refl)

  -- A link made for a video that is there, whose token has the form of one and a digest that no link
  -- had, opens with its token at every instant before its expiry, after any sequence of acts on
  -- links, in any order, that make links of other digests, remove other links, try to remove this one
  -- without the right to, or clean up what has expired by that instant.
  pub create_share_link-opens :
      (now later : ℕ) (video : ℤ) (user : ℕ) (days : Option ℤ) (token : Text) (s : Shares)
      (as' : List Act)
      → is_valid_share_token token ≡ true
      → any (λ v. v =? video) s.videos ≡ true
      → holders (sha256 token) s ≡ []
      → later < now + lifetime days
      → AllSpare sha256 later (new_link sha256 now video user days token s.next_id) as'
      → get_share_video sha256 later token
          (acts sha256 as' (create_share_link sha256 now video user days token s).0)
        ≡ inr (new_link sha256 now video user days token s.next_id)
  unfolding get_share_video found_link
  create_share_link-opens now later video user days token s as' v h g k sp =
      rw (v, open_link-acts now later video user days token s as' h g k sp) refl
