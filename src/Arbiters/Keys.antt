-- ===== src/Arbiters/Keys.antt =====
-- Whom the policies of an arbiter are for.
use mathlib.Core.List.{Memᴰ}
use mathlib.Core.List.Memᴰ
use veronica.Prelude.{
  ◌≡◌, refl, ap, subst, ◌∙◌, ◌⊎◌, inl, inr, String, Bool, true, ◌==◌, eq_iff, some, List, [], ◌∷◌,
  select, Bool-cases, Option-cases, arith,
}
use veronica.Prelude.Dict.{Dict, get, put, get-put}
use veronica.Float.{Float}
use veronica.Types.{DesiredPolicy, PolicyConfig}
use veronica.Arbiters.{
  policy_for, index_from, is_eligible, passthrough_scale, passthrough_from, passthrough,
  policies_for, allocate, proportional_among, proportional, epsilon, total_priority,
}

-- A policy that grants one of the desires of chain `k`: all but its ceiling is as desired.
pub record IsGrant {F : Type 0} (ds : List (DesiredPolicy F)) (now : F) (version k : String)
    (p : PolicyConfig F) : Type 0 where
  pub desire : DesiredPolicy F
  pub asked : Memᴰ desire ds
  pub chain : desire.chain_id ≡ k
  pub granted : p ≡ policy_for desire p.ceiling_usd now version

module _ {F : Type 0} where
  IsGrant-cons :
      {ds : List (DesiredPolicy F)} {now : F} {version k : String} {p : PolicyConfig F}
      → (d : DesiredPolicy F) → IsGrant ds now version k p
      → IsGrant (d ∷ ds) now version k p
  IsGrant-cons d g = record {
    desire = g.desire;
    asked = Memᴰ.tail g.asked;
    chain = g.chain;
    granted = g.granted;
  }

select-Memᴰ :
    {A : Type 0} (p : A → Bool) (xs : List A) {x : A}
    → Memᴰ x (select p xs)
    → Memᴰ x xs × (p x ≡ true)
select-Memᴰ p [] m = absurd (Memᴰ.not-nil m)
select-Memᴰ p (y ∷ ys) m = elim (Bool-cases (p y)) [
  | inr out ↦ let (inside, holds) = select-Memᴰ p ys (rw out at m) in (Memᴰ.tail inside, holds)
  | inl kept ↦ elim (Memᴰ.cases_cons (rw kept at m)) [
    | inl same ↦ (Memᴰ.head same, ap p same ∙ kept)
    | inr rest ↦ let (inside, holds) = select-Memᴰ p ys rest in (Memᴰ.tail inside, holds)
  ]
]

module _ {F : Type 0} ⦃fl : Float F⦄ where
  passthrough_from-IsGrant :
      (scale now : F) (result : Dict (PolicyConfig F)) (ds : List (DesiredPolicy F)) (k : String)
      → (p : PolicyConfig F) → get k (passthrough_from scale now result ds) ≡ some p
      → (get k result ≡ some p) ⊎ IsGrant ds now "0.1.0" k p
  unfolding passthrough_from
  passthrough_from-IsGrant scale now result [] k p h = inl h
  passthrough_from-IsGrant scale now result (d ∷ ds) k p h =
      let new = policy_for d (fl.mul d.ceiling_usd scale) now "0.1.0" in
      elim (passthrough_from-IsGrant scale now (put d.chain_id new result) ds k p h) [
        | inr g ↦ inr (IsGrant-cons d g)
        | inl found ↦ elim (Bool-cases (d.chain_id == k)) [
          | inr other ↦ inl (ground (arith, get-put d.chain_id k new result, other, found))
          | inl hit ↦
              let same : new ≡ p = ground (arith, get-put d.chain_id k new result, hit, found) in
              inr (
                subst (λ p. IsGrant (d ∷ ds) now "0.1.0" k p) same
                  (record {
                    desire = d;
                    asked = Memᴰ.head refl;
                    chain = (eq_iff d.chain_id k).0 hit;
                    granted = refl;
                  }))
        ]
      ]

  -- The passthrough arbiter only gives a chain a policy that one of its desires asks for.
  pub passthrough-IsGrant :
      (ds : List (DesiredPolicy F)) (budget now : F) (k : String) (p : PolicyConfig F)
      → get k (passthrough ds budget now) ≡ some p
      → IsGrant ds now "0.1.0" k p
  unfolding passthrough get
  passthrough-IsGrant ds budget now k p h =
      elim (passthrough_from-IsGrant (passthrough_scale ds budget) now [] ds k p h) [
        | inl found ↦ absurd (ground (arith, found))
        | inr g ↦ g
      ]

  index_from-get :
      (m : Dict (DesiredPolicy F)) (ds : List (DesiredPolicy F)) (k : String) (d : DesiredPolicy F)
      → get k (index_from m ds) ≡ some d
      → (get k m ≡ some d) ⊎ (Memᴰ d ds × (d.chain_id ≡ k))
  unfolding index_from
  index_from-get m [] k d h = inl h
  index_from-get m (e ∷ es) k d h = elim (index_from-get (put e.chain_id e m) es k d h) [
    | inr (rest, chain) ↦ inr (Memᴰ.tail rest, chain)
    | inl found ↦ elim (Bool-cases (e.chain_id == k)) [
      | inr other ↦ inl (ground (arith, get-put e.chain_id k e m, other, found))
      | inl hit ↦
          let same : d ≡ e = ground (arith, get-put e.chain_id k e m, hit, found) in
          inr (Memᴰ.head same, ap (λ x. x.chain_id) same ∙ (eq_iff e.chain_id k).0 hit)
    ]
  ]

  policies_for-get :
      (m : Dict (DesiredPolicy F)) (now : F) (a : Dict F) (k : String) (p : PolicyConfig F)
      → get k (policies_for m now a) ≡ some p
      → (d : DesiredPolicy F) × (get k m ≡ some d) × (p ≡ policy_for d p.ceiling_usd now "0.2.0")
  unfolding policies_for get
  policies_for-get m now [] k p h = cc
  policies_for-get m now ((j, alloc) ∷ a) k p h = elim (Option-cases (get j m)) [
    | inl e ↦ policies_for-get m now a k p (rw (e, get) at h)
    | inr (d, e) ↦ elim (Bool-cases (j == k)) [
      | inr other ↦ policies_for-get m now a k p (rw other at (rw (e, get) at h))
      | inl hit ↦
          let same : policy_for d alloc now "0.2.0" ≡ p = ground (arith, e, hit, h) in
          let key = (eq_iff j k).0 hit in
          (
            d,
            subst (λ i. get i m ≡ some d) key e,
            subst (λ q. q ≡ policy_for d q.ceiling_usd now "0.2.0") same refl,
          )
    ]
  ]

  proportional_among-IsGrant :
      (ds : List (DesiredPolicy F)) (budget now : F) (k : String) (p : PolicyConfig F)
      → get k (proportional_among ds budget now) ≡ some p
      → IsGrant ds now "0.2.0" k p
  unfolding get
  proportional_among-IsGrant [] budget now k p h = cc
  proportional_among-IsGrant (e ∷ es) budget now k p h =
      elim (Bool-cases (fl.lt (fl.of_int (total_priority (e ∷ es))) epsilon)) [
        | inl light ↦ absurd (ground (arith, light, h))
        | inr heavy ↦
            let (d, found, granted) =
              policies_for-get (index_from [] (e ∷ es)) now (allocate (e ∷ es) budget) k p
                (ground (arith, heavy, h)) in
            elim (index_from-get [] (e ∷ es) k d found) [
              | inl never ↦ absurd (ground arith)
              | inr (asked, chain) ↦ record {
                desire = d;
                asked = asked;
                chain = chain;
                granted = granted;
              }
            ]
      ]

  -- The proportional arbiter only gives a chain a policy that one of its desires with a positive
  -- priority asks for.
  pub proportional-IsGrant :
      (ds : List (DesiredPolicy F)) (budget now : F) (k : String) (p : PolicyConfig F)
      → get k (proportional ds budget now) ≡ some p
      → (g : IsGrant ds now "0.2.0" k p) × (is_eligible g.desire ≡ true)
  unfolding proportional
  proportional-IsGrant ds budget now k p h =
      let g = proportional_among-IsGrant (select is_eligible ds) budget now k p h in
      let (asked, eligible) = select-Memᴰ is_eligible ds g.asked in
      (record { desire = g.desire; asked = asked; chain = g.chain; granted = g.granted }, eligible)
