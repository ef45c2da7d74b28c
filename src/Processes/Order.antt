-- ===== src/Processes/Order.antt =====
-- The orders in which chains are sorted.
use twai_swarm.Prelude.{
  ◌≡◌, refl, sym, ap, subst, String, true, false, [], ◌∷◌, arith, nat_eq, string_eq, ◌==◌, ==_cases,
  Dict, str_leb, str_leb_total, str_leb_trans, str_leb_antisymm, inl, inr,
}
use twai_swarm.Processes.{Chain, chain_leb, higher_score}

pub chain_leb_total : (c d : Chain) → chain_leb c d ≡ false → chain_leb d c ≡ true
chain_leb_total [] d h = absurd (cc h)
chain_leb_total (x ∷ c) [] h = refl
chain_leb_total (x ∷ c) (y ∷ d) h = ground (
  arith,
  h,
  chain_leb_total c d,
  str_leb_total x y,
  string_eq.same_iff x y,
  string_eq.same_iff y x,
)

pub chain_leb_trans :
    (c d e : Chain) → chain_leb c d ≡ true → chain_leb d e ≡ true → chain_leb c e ≡ true
chain_leb_trans [] d e h k = refl
chain_leb_trans (x ∷ c) [] e h k = absurd (cc h)
chain_leb_trans (x ∷ c) (y ∷ d) [] h k = absurd (cc k)
chain_leb_trans (x ∷ c) (y ∷ d) (z ∷ e) h k = elim (==_cases x y) [
  | inl (t, same) ↦
      ground
        (arith, h, k, t, ap (λ w. w == z) same, ap (λ w. str_leb w z) same, chain_leb_trans c d e)
  | inr (t, n) ↦ elim (==_cases y z) [
    | inl (u, same) ↦ ground (arith, h, k, t, u, ap (λ w. x == w) same, ap (λ w. str_leb x w) same)
    | inr (u, m) ↦ elim (==_cases x z) [
      | inl (v, same) ↦ absurd (
          n (
            str_leb_antisymm x y (ground (arith, h, t))
              (subst (λ w. str_leb y w ≡ true) (sym same) (ground (arith, k, u)))))
      | inr (v, o) ↦
          let forward : str_leb x y ≡ true = ground (arith, h, t) in
          let onward : str_leb y z ≡ true = ground (arith, k, u) in
          ground (arith, v, str_leb_trans x y z forward onward)
    ]
  ]
]

pub higher_score_total :
    (m : Dict String String) (c d : Chain) → higher_score m c d ≡ false → higher_score m d c ≡ true
unfolding higher_score
higher_score_total m c d h = ground (arith, h, chain_leb_total c d)

pub higher_score_trans :
    (m : Dict String String) (c d e : Chain)
    → higher_score m c d ≡ true
    → higher_score m d e ≡ true
    → higher_score m c e ≡ true
unfolding higher_score
higher_score_trans m c d e h k = ground (arith, h, k, chain_leb_trans c d e)
