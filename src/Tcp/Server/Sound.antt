-- ===== src/Tcp/Server/Sound.antt =====
-- The map of connections holds exactly the connections that have not been removed.
use budd.Common.{
  ℕ, suc, ◌^◌, ◌%◌, ◌≤◌, ◌<◌, ◌≡◌, ◌≢◌, refl, ap, sym, ◌∙◌, inl, inr, true≢false, ltb, ltb→lt,
  ltb→le, Bool-cases, ◌==◌, ==_iff, Option, none, some, arith, Bytes, drop, equal, equal_iff,
  if◌then◌else◌,
}
use budd.Http.Request.{digits_value}
use budd.Http.Response.Fill.{digits_value-decimal}
use budd.Tcp.Selector.{put}
use budd.Tcp.Selector.Interest.{put_same, put_other}
use budd.Tcp.Selector.Active.{put_keeps}
use budd.Tcp.Server.{Connection, put_name, conn_name}
use budd.Tcp.Server.Steps.{Life, absent, due, closing, removed, held}

pub put_name_same {ℓ} : {V : Type ℓ} (k : Bytes) (v : V) (m : Bytes → V) → put_name k v m k ≡ v
put_name_same k v m = ap (λ b. if b then v else m k) ((equal_iff k k).1 refl)

pub put_name_other {ℓ} :
    {V : Type ℓ} (k j : Bytes) (v : V) (m : Bytes → V) → j ≢ k → put_name k v m j ≡ m j
put_name_other k j v m ne = elim (Bool-cases (equal j k)) [
  | inl e ↦ absurd (ne ((equal_iff j k).0 e))
  | inr e ↦ ap (λ b. if b then v else m j) e
]

-- Connections of different numbers have different names.
pub conn_name_injective : (k j : ℕ) → k < 2 ^ 64 → j < 2 ^ 64 → conn_name k ≡ conn_name j → k ≡ j
conn_name_injective k j hk hj e =
    sym (digits_value-decimal k hk)
    ∙ (ap (λ name. digits_value 0 (drop 5 name)) e ∙ digits_value-decimal j hj)

pub some-injective : {A : Type 0} {a b : A} → some a ≡ some b → a ≡ b
some-injective e = cc

module _ {L : Type 0} where
  pub record IsSound (next : ℕ) (maps : Bytes → Option (Connection L)) (accepted : ℕ)
      (life : ℕ → Life L) : Type 0 where
    pub ids : next ≡ accepted
    pub fresh : (k : ℕ) → accepted ≤ k → life k ≡ absent
    pub named :
        (k : ℕ) (c : Connection L)
        → held (life k) ≡ some c
        → (c.name ≡ conn_name k) × (maps (conn_name k) ≡ some c)
    pub exact :
        (name : Bytes) (c : Connection L)
        → maps name ≡ some c
        → (k : ℕ) × (name ≡ conn_name k) × (held (life k) ≡ some c)

  module _ {next : ℕ} {maps : Bytes → Option (Connection L)} {accepted : ℕ} {life : ℕ → Life L}
      (v : IsSound next maps accepted life) where
    pub held-lt : (k : ℕ) (c : Connection L) → held (life k) ≡ some c → k < accepted
    held-lt k c h = elim (Bool-cases (ltb k accepted)) [
      | inl e ↦ ltb→lt k accepted e
      | inr e ↦
          let gone_by : life k ≡ absent = v.fresh k (ltb→le k accepted e) in
          absurd (nothing (sym (ap held gone_by) ∙ h))
    ]
      where
        nothing : none ≢ some c
        nothing e = cc

    fresh-put :
        (k : ℕ) (x y : Life L)
        → life k ≡ x
        → x ≢ absent
        → (j : ℕ) → accepted ≤ j
        → put k y life j ≡ absent
    fresh-put k x y at there j late =
        put_other k j y life (λ e. there (sym at ∙ (ap life (sym e) ∙ v.fresh j late)))
        ∙ v.fresh j late

    -- A connection goes on, and is held or not as before.
    pub relabel-IsSound :
        (k : ℕ) (x y : Life L)
        → life k ≡ x
        → x ≢ absent
        → held y ≡ held x
        → IsSound next maps accepted (put k y life)
    relabel-IsSound k x y at there same = record {
      ids = v.ids;
      fresh = fresh-put k x y at there;
      named = λ j c h. v.named j c (sym (keeps j) ∙ h);
      exact = λ name c h. let (j, e, f) = v.exact name c h in (j, e, keeps j ∙ f);
    }
      where
        keeps : (j : ℕ) → held (put k y life j) ≡ held (life j)
        keeps j = put_keeps held k y life j (same ∙ ap held (sym at))

    pub accept-IsSound :
        (c : Connection L)
        → suc accepted < 2 ^ 64
        → c.name ≡ conn_name next
        → IsSound
            (suc next % 2 ^ 64)
            (put_name c.name (some c) maps)
            (suc accepted)
            (put accepted (due c) life)
    accept-IsSound c few name = record {
      ids = omega (arith, v.ids);
      fresh = λ j late.
          put_other accepted j (due c) life (λ e. omega (arith, e)) ∙ v.fresh j (omega arith);
      named = λ j d h. elim (Bool-cases (j == accepted)) [
        | inl e ↦
            let at : j ≡ accepted = (==_iff j accepted).0 e in
            let is_c : some c ≡ some d =
              sym (ap held (put_same accepted (due c) life))
              ∙ (ap (λ x. held (put accepted (due c) life x)) (sym at) ∙ h) in
            let key : conn_name j ≡ c.name = ap conn_name (at ∙ sym v.ids) ∙ sym name in
            (
              ap Connection.name (sym (some-injective is_c)) ∙ sym key,
              ap (put_name c.name (some c) maps) key ∙ (put_name_same c.name (some c) maps ∙ is_c),
            )
        | inr e ↦
            let away : j ≢ accepted = λ x. true≢false (sym ((==_iff j accepted).1 x) ∙ e) in
            let before : held (life j) ≡ some d =
              sym (ap held (put_other accepted j (due c) life away)) ∙ h in
            (
              (v.named j d before).0,
              put_name_other c.name (conn_name j) (some c) maps
                    (λ x. other_name j (held-lt j d before) (x ∙ name))
                  ∙ (v.named j d before).1,
            )
      ];
      exact = λ key d h. elim (Bool-cases (equal key c.name)) [
        | inl e ↦
            let at : key ≡ c.name = (equal_iff key c.name).0 e in
            let is_c : some c ≡ some d =
              sym (put_name_same c.name (some c) maps)
              ∙ (ap (put_name c.name (some c) maps) (sym at) ∙ h) in
            (
              accepted,
              at ∙ (name ∙ ap conn_name v.ids),
              ap held (put_same accepted (due c) life) ∙ is_c,
            )
        | inr e ↦
            let away : key ≢ c.name = λ x. true≢false (sym ((equal_iff key c.name).1 x) ∙ e) in
            let (j, named, before) =
              v.exact key d (sym (put_name_other c.name key (some c) maps away) ∙ h) in
            (
              j,
              named,
              ap held
                    (put_other accepted j (due c) life (λ x. omega (arith, x, held-lt j d before)))
                  ∙ before,
            )
      ];
    }
      where
        other_name : (j : ℕ) → j < accepted → conn_name j ≢ conn_name next
        other_name j small x =
            omega (arith, v.ids, conn_name_injective j next (omega arith) (omega (arith, v.ids)) x)

    pub remove-IsSound :
        (k : ℕ) (c : Connection L)
        → accepted < 2 ^ 64
        → life k ≡ closing c
        → IsSound next (put_name c.name none maps) accepted (put k (removed c) life)
    remove-IsSound k c few at = record {
      ids = v.ids;
      fresh = fresh-put k (closing c) (removed c) at (λ e. cc);
      named = λ j d h. elim (Bool-cases (j == k)) [
        | inl e ↦ absurd (
            nothing d (
              sym (ap held (put_same k (removed c) life))
              ∙ (ap (λ x. held (put k (removed c) life x)) (sym ((==_iff j k).0 e)) ∙ h)))
        | inr e ↦
            let away : j ≢ k = λ x. true≢false (sym ((==_iff j k).1 x) ∙ e) in
            let before : held (life j) ≡ some d =
              sym (ap held (put_other k j (removed c) life away)) ∙ h in
            (
              (v.named j d before).0,
              put_name_other c.name (conn_name j) none maps (λ x. away (
                    conn_name_injective j k (omega (arith, held-lt j d before))
                      (omega (arith, held-lt k c held_c)) (x ∙ (v.named k c held_c).0)))
                  ∙ (v.named j d before).1,
            )
      ];
      exact = λ key d h. elim (Bool-cases (equal key c.name)) [
        | inl e ↦ absurd (
            nothing d (
              sym (put_name_same c.name none maps)
              ∙ (ap (put_name c.name none maps) (sym ((equal_iff key c.name).0 e)) ∙ h)))
        | inr e ↦
            let away : key ≢ c.name = λ x. true≢false (sym ((equal_iff key c.name).1 x) ∙ e) in
            let (j, named, before) =
              v.exact key d (sym (put_name_other c.name key none maps away) ∙ h) in
            (
              j,
              named,
              ap held (
                    put_other k j (removed c) life
                      (λ x. away (named ∙ (ap conn_name x ∙ sym (v.named k c held_c).0))))
                  ∙ before,
            )
      ];
    }
      where
        nothing : (d : Connection L) → none ≢ some d
        nothing d e = cc

        held_c : held (life k) ≡ some c
        held_c = ap held at
