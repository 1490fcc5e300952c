-- ===== src/Comments/Tests.antt =====
-- The comments at chosen inputs.
use lan_video.Prelude.{
  ◌==◌, sym, ◌∙◌, inl, inr, subst, Bool-cases, some-injective, ◌≡◌, refl, arith, true, false, none,
  some, [], ◌∷◌,
}
use lan_video.Prelude.Assoc.{nat_Eq, lookup}
use lan_video.Comments.{Comment, Tables, Calls, create_comment}
use lan_video.Comments.Threads.{Threaded, Hangs, Keeps}
use lan_video.Comments.Creation.{create_comment-Threaded}

abbrev first : Comment
first = record { video_id = 5; user_id = 1; content = 104 ∷ []; parent_id = none }

abbrev reply : Comment
reply = record { video_id = 5; user_id = 1; content = 105 ∷ []; parent_id = some 20 }

-- A video of the user 1 with a comment and a reply to it.
abbrev one_thread : Tables
one_thread = record {
  comments = (21, reply) ∷ (20, first) ∷ [];
  videos = (5, some 1) ∷ [];
  next_id = 22;
}

-- Everything succeeds, and no other request comes between.
abbrev alone : Calls
alone = record {
  owner_ok = true;
  exists_ok = true;
  meta_ok = λ n. true;
  insert_ok = true;
  user_exists = true;
  trim = λ x. x;
  clean = λ x. x;
  meanwhile = λ t. t;
}

Hangs-of :
    (c d : Comment)
    → c ≡ d
    → Hangs one_thread c.video_id c.parent_id
    → Hangs one_thread d.video_id d.parent_id
Hangs-of c d e h = subst (λ x. Hangs one_thread x.video_id x.parent_id) e h

one_thread-Threaded : Threaded one_thread
unfolding lookup
one_thread-Threaded = record {
  hangs = λ id c e. elim (Bool-cases (21 == id)) [
    | inl q ↦ Hangs-of reply c (some-injective (rw q at e)) (first, refl, refl, refl)
    | inr q ↦ elim (Bool-cases (20 == id)) [
      | inl r ↦ Hangs-of first c (some-injective (rw (q, r) at e)) tt
      | inr r ↦ absurd (let n = rw (q, r) at e in cc n)
    ]
  ];
  fresh = λ id c e. ground arith;
}

one_thread-Keeps : Keeps one_thread one_thread
one_thread-Keeps = record {
  threaded = one_thread-Threaded;
  same = λ id c c' e e'. some-injective (sym e' ∙ e);
}

create_comment-Threaded_example :
    Threaded (create_comment alone 5 1 (106 ∷ []) (some 21) false one_thread).0
create_comment-Threaded_example =
    create_comment-Threaded alone 5 1 (106 ∷ []) (some 21) false one_thread one_thread-Threaded
      one_thread-Keeps
