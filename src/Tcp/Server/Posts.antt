-- ===== src/Tcp/Server/Posts.antt =====
-- The tasks that the server hands to loops, by the connection that they are about.
use budd.Common.{
  ℕ, suc, ◌^◌, ◌<◌, ◌≡◌, ◌≢◌, refl, ap, sym, ◌∙◌, inl, inr, Bool, true, false, true≢false,
  Bool-cases, ◌==◌, ==_iff, List, [], ◌∷◌, ◌++◌, Bytes, equal, equal_iff, if◌then◌else◌, arith,
}
use budd.Tcp.Selector.{put}
use budd.Tcp.Selector.Interest.{put_same, put_other}
use budd.Tcp.Selector.Active.{put_keeps}
use budd.Tcp.Server.{Connection, Task, to_establish, to_remove, to_destroy, conn_name}
use budd.Tcp.Server.Steps.{Life, absent, due, opened, closing, removed, gone}
use budd.Tcp.Server.Sound.{conn_name_injective}

module _ {L : Type 0} where
  -- The connection that a task is about, and the tasks about one name.
  abbrev pub connection_of : Task L → Connection L
  connection_of (to_establish c) = c
  connection_of (to_remove c) = c
  connection_of (to_destroy c) = c

  unfoldable pub posts_about : Bytes → List (L × Task L) → List (L × Task L)
  posts_about name [] = []
  posts_about name ((loop, t) ∷ posts) =
      let rest = posts_about name posts in
      if equal ((connection_of t).name) name then (loop, t) ∷ rest else rest

  -- The tasks that a connection has had, by how far it has come.
  abbrev pub tasks_of : L → Life L → List (L × Task L)
  tasks_of home absent = []
  tasks_of home (due c) = (c.event_loop, to_establish c) ∷ []
  tasks_of home (opened c) = (c.event_loop, to_establish c) ∷ []
  tasks_of home (closing c) = (c.event_loop, to_establish c) ∷ (home, to_remove c) ∷ []
  tasks_of home (removed c) =
      (c.event_loop, to_establish c) ∷ (home, to_remove c) ∷ (c.event_loop, to_destroy c) ∷ []
  tasks_of home (gone c) =
      (c.event_loop, to_establish c) ∷ (home, to_remove c) ∷ (c.event_loop, to_destroy c) ∷ []

  posts_about-snoc :
      (name : Bytes) (posts : List (L × Task L)) (loop : L) (t : Task L)
      → posts_about name (posts ++ (loop, t) ∷ []) ≡ (
          if equal ((connection_of t).name) name
          then posts_about name posts ++ (loop, t) ∷ []
          else posts_about name posts)
  unfolding posts_about
  posts_about-snoc name [] loop t = refl
  posts_about-snoc name ((l, u) ∷ posts) loop t =
      rw (posts_about-snoc name posts loop t)
        (go (equal ((connection_of u).name) name) (equal ((connection_of t).name) name))
    where
      go :
          (a b : Bool)
          → (if a
              then (l, u)
                ∷ (if b then posts_about name posts ++ (loop, t) ∷ [] else posts_about name posts)
              else (if b then posts_about name posts ++ (loop, t) ∷ [] else posts_about name posts))
            ≡ (if b
                then (if a then (l, u) ∷ posts_about name posts else posts_about name posts)
                  ++ (loop, t) ∷ []
                else (if a then (l, u) ∷ posts_about name posts else posts_about name posts))
      go true true = refl
      go true false = refl
      go false true = refl
      go false false = refl

  -- Of the connections whose close callback was called at most once.
  abbrev pub IsPosted : L → List (L × Task L) → (ℕ → Life L) → (ℕ → ℕ) → Type 0
  IsPosted home posts life repeats =
      (k : ℕ)
      → k < 2 ^ 64
      → repeats k ≡ 0
      → posts_about (conn_name k) posts ≡ tasks_of home (life k)

  posts_about-other :
      (k j : ℕ) (posts : List (L × Task L)) (loop : L) (t : Task L)
      → k < 2 ^ 64
      → j < 2 ^ 64
      → k ≢ j
      → (connection_of t).name ≡ conn_name j
      → posts_about (conn_name k) (posts ++ (loop, t) ∷ []) ≡ posts_about (conn_name k) posts
  posts_about-other k j posts loop t few small away name =
      posts_about-snoc (conn_name k) posts loop t
      ∙ elim (Bool-cases (equal ((connection_of t).name) (conn_name k))) [
        | inl f ↦
            absurd (away (conn_name_injective k j few small (sym ((equal_iff _ _).0 f) ∙ name)))
        | inr f ↦
            ap
              (λ b.
                if b
                then posts_about (conn_name k) posts ++ (loop, t) ∷ []
                else posts_about (conn_name k) posts)
              f
      ]

  pub post-IsPosted :
      (home : L) (posts : List (L × Task L)) (life : ℕ → Life L) (repeats : ℕ → ℕ) (j : ℕ)
      (y : Life L) (loop : L) (t : Task L)
      → IsPosted home posts life repeats
      → j < 2 ^ 64
      → (connection_of t).name ≡ conn_name j
      → tasks_of home y ≡ tasks_of home (life j) ++ (loop, t) ∷ []
      → IsPosted home (posts ++ (loop, t) ∷ []) (put j y life) repeats
  post-IsPosted home posts life repeats j y loop t v small name more k few once =
      elim (Bool-cases (k == j)) [
        | inl e ↦
            let at : k ≡ j = (==_iff k j).0 e in
            let key : (connection_of t).name ≡ conn_name k = name ∙ ap conn_name (sym at) in
            posts_about-snoc (conn_name k) posts loop t
            ∙ (ap
                  (λ b.
                    if b
                    then posts_about (conn_name k) posts ++ (loop, t) ∷ []
                    else posts_about (conn_name k) posts)
                  ((equal_iff _ _).1 key)
                ∙ (ap (λ x. x ++ (loop, t) ∷ [])
                      (v k few once ∙ ap (λ x. tasks_of home (life x)) at)
                    ∙ (sym more
                        ∙ ap (tasks_of home) (sym (ap (put j y life) at ∙ put_same j y life)))))
        | inr e ↦
            let away : k ≢ j = λ x. true≢false (sym ((==_iff k j).1 x) ∙ e) in
            posts_about-other k j posts loop t few small away name
            ∙ (v k few once ∙ ap (tasks_of home) (sym (put_other j k y life away)))
      ]

  -- A connection goes on with no task.
  pub relabel-IsPosted :
      (home : L) (posts : List (L × Task L)) (life : ℕ → Life L) (repeats : ℕ → ℕ) (j : ℕ)
      (y : Life L)
      → IsPosted home posts life repeats
      → tasks_of home y ≡ tasks_of home (life j)
      → IsPosted home posts (put j y life) repeats
  relabel-IsPosted home posts life repeats j y v same k few once =
      v k few once ∙ sym (put_keeps (tasks_of home) j y life k same)

  -- A connection has a task once more.
  pub repeat-IsPosted :
      (home : L) (posts : List (L × Task L)) (life : ℕ → Life L) (repeats : ℕ → ℕ) (j : ℕ)
      (loop : L) (t : Task L)
      → IsPosted home posts life repeats
      → j < 2 ^ 64
      → (connection_of t).name ≡ conn_name j
      → IsPosted home (posts ++ (loop, t) ∷ []) life (put j (suc (repeats j)) repeats)
  repeat-IsPosted home posts life repeats j loop t v small name k few once =
      elim (Bool-cases (k == j)) [
        | inl e ↦ absurd (
            positive (
              sym (
                ap (put j (suc (repeats j)) repeats) ((==_iff k j).0 e)
                ∙ put_same j (suc (repeats j)) repeats)
              ∙ once))
        | inr e ↦
            let away : k ≢ j = λ x. true≢false (sym ((==_iff k j).1 x) ∙ e) in
            posts_about-other k j posts loop t few small away name
            ∙ v k few (sym (put_other j k (suc (repeats j)) repeats away) ∙ once)
      ]
    where
      positive : suc (repeats j) ≢ 0
      positive e = omega (arith, e)
