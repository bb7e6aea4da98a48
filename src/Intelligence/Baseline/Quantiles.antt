-- ===== src/Intelligence/Baseline/Quantiles.antt =====
-- The distributions of crates/obschain-intelligence/src/baseline.rs (`compute_distribution`).
use mathlib.Core.Path.{subst}
use mathlib.Core.Option.{some-injective}
use obschain.Prelude.{
  ℕ, zero, suc, ◌≤◌, some, List, [], ◌∷◌, length, get_elem?, All, arith, true, ◌≡◌, refl, sym, ◌∙◌,
}
use obschain.Prelude.Sorting.{Sorted, sort_by, sort_by-All, sort_by-Sorted, length-sort_by}
use obschain.Core.External.{Externals, F64}
use obschain.Core.Baseline.Values.{MetricValue, value_le}
use obschain.Core.Baseline.Runs.{QuantileDistribution, literal}
use obschain.Intelligence.Baseline.{
  Statistics, at, quantile_index, quantile_at, distribution_of, compute_distribution,
}
use obschain.Intelligence.Baseline.Order.{value_le_refl, value_le-IsOrder, at-All, at-Sorted}

abbrev pub Occurs : List MetricValue → MetricValue → Type 0
Occurs values v = (i : ℕ) × (get_elem? values i ≡ some v)

-- The values that a distribution names, from the least to the greatest.
abbrev pub named_values : QuantileDistribution → List MetricValue
named_values d = d.minimum ∷ d.p50 ∷ d.p75 ∷ d.p90 ∷ d.p95 ∷ d.p99 ∷ d.p999 ∷ d.maximum ∷ []

-- Each value is not less than the one before it.
abbrev pub Ascending : List MetricValue → Type 0
Ascending [] = Unit
Ascending (a ∷ []) = Unit
Ascending (a ∷ b ∷ vs) = (value_le a b ≡ true) × Ascending (b ∷ vs)

All-Occurs : (values : List MetricValue) → All (Occurs values) values
All-Occurs values = go values (λ i v h. (i, h))
  where
    go :
        (vs : List MetricValue)
        → ((i : ℕ) (v : MetricValue) → get_elem? vs i ≡ some v → Occurs values v)
        → All (Occurs values) vs
    go [] found = tt
    go (v ∷ vs) found = (found 0 v refl, go vs (λ i w h. found (suc i) w h))

module _ (x : Externals) (st : Statistics) where
  abbrev pub rank : ℕ → F64 → ℕ
  rank n q = st.ceil_usize (x.mul q (x.to_f64 n))

  -- A greater quantile of `n` samples has a rank that is not less, in the arithmetic of floats.
  pub record RanksAscend (n : ℕ) : Type 0 where
    pub to_p75 : rank n (literal x 50 2) ≤ rank n (literal x 75 2)
    pub to_p90 : rank n (literal x 75 2) ≤ rank n (literal x 90 2)
    pub to_p95 : rank n (literal x 90 2) ≤ rank n (literal x 95 2)
    pub to_p99 : rank n (literal x 95 2) ≤ rank n (literal x 99 2)
    pub to_p999 : rank n (literal x 99 2) ≤ rank n (literal x 999 3)

  index_mono : (r r' last : ℕ) → r ≤ r' → quantile_index r last ≤ quantile_index r' last
  unfolding quantile_index
  index_mono zero r' last h = omega arith
  index_mono (suc r) zero last h = ground (arith, h)
  index_mono (suc r) (suc r') last h = ground (arith, h)

  index_bound : (r last : ℕ) → quantile_index r last ≤ last
  unfolding quantile_index
  index_bound zero last = omega arith
  index_bound (suc r) last = ground arith

  quantiles_mono :
      (a : MetricValue) (bs : List MetricValue) (r r' : ℕ)
      → Sorted value_le (a ∷ bs)
      → r ≤ r'
      → value_le (at a bs (quantile_index r (length bs))) (at a bs (quantile_index r' (length bs)))
        ≡ true
  quantiles_mono a bs r r' s h =
      let last = length bs in
      at-Sorted a bs (quantile_index r last) (quantile_index r' last) s (index_mono r r' last h)

  distribution_of-Ascending :
      (vs : List MetricValue) (count : ℕ) (d : QuantileDistribution)
      → distribution_of x st vs count ≡ some d
      → RanksAscend (length vs)
      → Sorted value_le vs
      → Ascending (named_values d)
  unfolding distribution_of quantile_at
  distribution_of-Ascending [] count d e r s = cc e
  distribution_of-Ascending (a ∷ bs) count d e r s =
      let last = length bs in
      let step = quantiles_mono a bs in
      let last_rank = rank (length (a ∷ bs)) (literal x 999 3) in
      subst (λ q. Ascending (named_values q)) (some-injective _ _ e)
        (
          at-All (λ c. value_le a c ≡ true) a bs _ (value_le_refl a, s.0),
          (
            step _ _ s r.to_p75,
            (
              step _ _ s r.to_p90,
              (
                step _ _ s r.to_p95,
                (
                  step _ _ s r.to_p99,
                  (
                    step _ _ s r.to_p999,
                    (
                      at-Sorted a bs (quantile_index last_rank last) last s
                          (index_bound last_rank last),
                      tt,
                    ),
                  ),
                ),
              ),
            ),
          ),
        )

  distribution_of-All :
      (P : MetricValue → Type 0) (vs : List MetricValue) (count : ℕ) (d : QuantileDistribution)
      → distribution_of x st vs count ≡ some d
      → All P vs
      → All P (named_values d)
  unfolding distribution_of quantile_at
  distribution_of-All P [] count d e ps = cc e
  distribution_of-All P (a ∷ bs) count d e ps =
      let q : (i : ℕ) → P (at a bs i) = λ i. at-All P a bs i ps in
      subst (λ d'. All P (named_values d')) (some-injective _ _ e)
        (ps.0, (q _, (q _, (q _, (q _, (q _, (q _, (q _, tt))))))))

  distribution_of-counts :
      (vs : List MetricValue) (count : ℕ) (d : QuantileDistribution)
      → distribution_of x st vs count ≡ some d
      → d.sample_count ≡ length vs
  unfolding distribution_of
  distribution_of-counts [] count d e = cc e
  distribution_of-counts (a ∷ bs) count d e =
      subst (λ q. q.sample_count ≡ length (a ∷ bs)) (some-injective _ _ e) refl

  -- Where a greater quantile never gets a lesser rank by the arithmetic of floats, a distribution names
  -- the number of its samples and values that all occur among them, and these ascend from the
  -- minimum over the six quantiles to the maximum.
  pub compute_distribution-Ascending :
      (values : List MetricValue) (candidate_count : ℕ) (d : QuantileDistribution)
      → compute_distribution x st values candidate_count ≡ some d
      → RanksAscend (length values)
      → (d.sample_count ≡ length values)
        × All (Occurs values) (named_values d)
        × Ascending (named_values d)
  unfolding compute_distribution
  compute_distribution-Ascending values count d e r =
      let sorted = sort_by value_le values in
      let same = length-sort_by value_le values in
      (
        distribution_of-counts sorted count d e ∙ same,
        distribution_of-All (Occurs values) sorted count d e
            (sort_by-All value_le (Occurs values) values (All-Occurs values)),
        distribution_of-Ascending sorted count d e (subst RanksAscend (sym same) r)
            (sort_by-Sorted value_le value_le-IsOrder values),
      )
