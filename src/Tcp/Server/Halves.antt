-- ===== src/Tcp/Server/Halves.antt =====
-- The names of the connections that were closed and are not yet destroyed.
use budd.Common.{
  ℕ, ◌^◌, ◌<◌, ◌≡◌, sym, ◌∙◌, ap, subst, inl, inr, Bool-cases, ◌==◌, ==_iff, true≢false, some,
}
use budd.Tcp.Selector.{put}
use budd.Tcp.Selector.Interest.{put_same, put_other}
use budd.Tcp.Server.{Connection, conn_name}
use budd.Tcp.Server.Steps.{Life, half_closed}

module _ {L : Type 0} where
  -- The name is that of the number.
  abbrev pub IsNamed : ℕ → Connection L → Type 0
  IsNamed k c = (c.name ≡ conn_name k) × (k < 2 ^ 64)

  abbrev pub AreNamed : (ℕ → Life L) → Type 0
  AreNamed life = (k : ℕ) (c : Connection L) → half_closed (life k) ≡ some c → IsNamed k c

  pub put-AreNamed :
      (life : ℕ → Life L) (k : ℕ) (y : Life L)
      → AreNamed life
      → ((c : Connection L) → half_closed y ≡ some c → IsNamed k c)
      → AreNamed (put k y life)
  put-AreNamed life k y v new j c h = elim (Bool-cases (j == k)) [
    | inl e ↦
        let at : j ≡ k = (==_iff j k).0 e in
        subst (λ i. IsNamed i c) (sym at)
          (new c (sym (ap half_closed (ap (put k y life) at ∙ put_same k y life)) ∙ h))
    | inr e ↦
        let away = λ (x : j ≡ k). true≢false (sym ((==_iff j k).1 x) ∙ e) in
        v j c (sym (ap half_closed (put_other k j y life away)) ∙ h)
  ]
