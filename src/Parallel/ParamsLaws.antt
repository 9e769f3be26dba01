-- ===== src/Parallel/ParamsLaws.antt =====
-- Laws of the parameters of a run (rebalance/parallel/params.go).
use cln_circular.Common.{ℕ, suc, ◌*◌, ◌%◌, ◌≤◌, ◌<◌, ◌≡◌, ◌≢◌, true, arith, if◌then◌else◌, u64_mod}
use cln_circular.Common.Int.{ℤ, pos, ltb_ℤ}
use cln_circular.Rebalance.Checks.{or_default}
use cln_circular.Rebalance.Split.{Defaults}
use cln_circular.Parallel.Params.{Params, set_generic_defaults, validate_generic, Verdict, accepted}

pub record IsAccepted (p : Params) : Type 0 where
  pub splits_up : 0 < p.min_split
  pub smallest : p.min_split ≤ p.split_amount
  pub covered : p.split_amount ≤ p.amount
  pub whole : p.amount % p.split_amount ≡ 0
  pub priced : 0 < p.max_ppm
  pub tried : ltb_ℤ (pos 0) p.attempts ≡ true
  pub hops : ltb_ℤ (pos 0) p.max_hops ≡ true

module _ (d : Defaults) (asked : Params) where
  abbrev p : Params
  p = set_generic_defaults d asked

  splits-positive : asked.split_amount * 1000 < u64_mod → 0 < p.split_amount
  unfolding set_generic_defaults
  splits-positive fits = ground arith

  least-positive : asked.split_amount * 1000 < u64_mod → 0 < p.min_split
  unfolding set_generic_defaults
  least-positive fits = ground arith

  least-le : asked.split_amount * 1000 < u64_mod → p.min_split ≤ p.split_amount
  unfolding set_generic_defaults
  least-le fits = ground arith

  price-positive : 0 < p.max_ppm
  unfolding set_generic_defaults
  price-positive = ground arith

or_default-positive :
    (x y : ℤ) (n : ℕ)
    → ltb_ℤ (pos 0) (if ltb_ℤ (pos 0) x then x else or_default y (pos (suc n))) ≡ true
unfolding or_default
or_default-positive x y n = ground arith

-- Whatever a call asks for, with splits that fit in a uint64 of msat: once the defaults are filled in,
-- the parameters either are refused, or are whole splits of more than nothing, that shrink to no less
-- than a smallest split of more than nothing, at a rate, with attempts and hops above 0. They
-- never make the check divide by zero.
pub set_generic_defaults-IsAccepted :
    (d : Defaults) (asked : Params)
    → asked.split_amount * 1000 < u64_mod
    → let p = set_generic_defaults d asked in
      (validate_generic p ≢ Verdict.divides_by_zero)
      × (validate_generic p ≡ accepted → IsAccepted p)
unfolding validate_generic
set_generic_defaults-IsAccepted d asked fits =
    let p = set_generic_defaults d asked in
    let split = splits-positive d asked fits in
    (
      (λ h. ground (arith, h, split)),
      λ h. record {
        splits_up = least-positive d asked fits;
        smallest = least-le d asked fits;
        covered = ground (arith, h);
        whole = ground (arith, h);
        priced = price-positive d asked;
        tried = unfold set_generic_defaults in or_default-positive asked.attempts d.attempts 0;
        hops = unfold set_generic_defaults in or_default-positive asked.max_hops d.max_hops 7;
      },
    )
