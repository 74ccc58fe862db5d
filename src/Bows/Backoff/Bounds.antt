-- ===== src/Bows/Backoff/Bounds.antt =====
-- Every delay lies between zero and the cap with its jitter.
use bacnet_sim_gateway.Common.{
  ℕ, suc, ℤ, Option, none, some, true, Result, ok, ◌≡◌, refl, Bool-cases, arith, ap, inl, inr,
}
use bacnet_sim_gateway.Models.{FloatOps}
use bacnet_sim_gateway.Simulation.Generators.{min_float, max_float}
use bacnet_sim_gateway.Simulation.Generators.Walk.{FloatOrder}
use bacnet_sim_gateway.Bows.Backoff.Defs.{
  Random, Backoff, DelayError, jittered, delay_of, next_delay,
}

-- What rounding to the nearest float keeps of the order: sums and products by a number that is not
-- negative are monotone, and 1 is neutral.
pub record Monotone {F : Type 0} (fl : FloatOps F) : Type 0 where
  pub le_trans : (a b c : F) → fl.le a b ≡ true → fl.le b c ≡ true → fl.le a c ≡ true
  pub add_mono :
      (a b c d : F) → fl.le a b ≡ true → fl.le c d ≡ true → fl.le (fl.add a c) (fl.add b d) ≡ true
  pub mul_left :
      (a b c : F)
      → fl.le (fl.of_int (ℤ.pos 0)) c ≡ true
      → fl.le a b ≡ true
      → fl.le (fl.mul c a) (fl.mul c b) ≡ true
  pub mul_right :
      (a b c : F)
      → fl.le (fl.of_int (ℤ.pos 0)) c ≡ true
      → fl.le a b ≡ true
      → fl.le (fl.mul a c) (fl.mul b c) ≡ true
  pub mul_nonneg :
      (a b : F)
      → fl.le (fl.of_int (ℤ.pos 0)) a ≡ true
      → fl.le (fl.of_int (ℤ.pos 0)) b ≡ true
      → fl.le (fl.of_int (ℤ.pos 0)) (fl.mul a b) ≡ true
  pub add_nonneg :
      (a b : F)
      → fl.le (fl.of_int (ℤ.pos 0)) a ≡ true
      → fl.le (fl.of_int (ℤ.pos 0)) b ≡ true
      → fl.le (fl.of_int (ℤ.pos 0)) (fl.add a b) ≡ true
  pub mul_one : (a : F) → fl.mul a (fl.of_int (ℤ.pos 1)) ≡ a

module _ {F : Type 0} (fl : FloatOps F) where
  abbrev pub zero_float : F
  zero_float = fl.of_int (ℤ.pos 0)

  -- the numbers of a `Backoff` are not negative
  pub record IsSane (b : Backoff F) : Type 0 where
    pub base_nonneg : fl.le zero_float b.base ≡ true
    pub cap_nonneg : fl.le zero_float b.cap ≡ true
    pub factor_nonneg : fl.le zero_float b.factor ≡ true
    pub jitter_nonneg : fl.le zero_float b.jitter ≡ true

  -- the largest delay
  abbrev pub ceiling : Backoff F → F
  ceiling b = fl.add b.cap (fl.mul b.cap b.jitter)

module _ {F : Type 0} (fl : FloatOps F) (order : FloatOrder fl) where
  min_float-le : (a b : F) → fl.le (min_float fl a b) a ≡ true
  unfolding min_float
  min_float-le a b = elim (Bool-cases (fl.lt b a)) [
    | inl less ↦ rw less (order.le_of_lt b a less)
    | inr more ↦ rw more (order.le_self a)
  ]

  min_float_nonneg :
      (a b : F)
      → fl.le (zero_float fl) a ≡ true
      → fl.le (zero_float fl) b ≡ true
      → fl.le (zero_float fl) (min_float fl a b) ≡ true
  unfolding min_float
  min_float_nonneg a b ha hb = elim (Bool-cases (fl.lt b a)) [
    | inl less ↦ rw less hb
    | inr more ↦ rw more ha
  ]

  -- the larger of two numbers is at least the first, and at most what bounds both
  max_float_bounds :
      (a b c : F)
      → fl.le a c ≡ true
      → fl.le b c ≡ true
      → (fl.le a (max_float fl a b) ≡ true) × (fl.le (max_float fl a b) c ≡ true)
  unfolding max_float
  max_float_bounds a b c ha hb = elim (Bool-cases (fl.lt a b)) [
    | inl less ↦ rw less (order.le_of_lt a b less, hb)
    | inr more ↦ rw more (order.le_self a, ha)
  ]

module _ {F : Type 0} (fl : FloatOps F) (order : FloatOrder fl) (mono : Monotone fl) where
  jittered_bounds :
      (b : Backoff F) (power drawn : F)
      → IsSane fl b
      → fl.le (zero_float fl) power ≡ true
      → fl.le
          (fl.sub (fl.mul (fl.of_int (ℤ.pos 2)) drawn) (fl.of_int (ℤ.pos 1)))
          (fl.of_int (ℤ.pos 1))
        ≡ true
      → fl.le (zero_float fl) (ceiling fl b) ≡ true
      → (fl.le (zero_float fl) (jittered fl b power drawn) ≡ true)
        × (fl.le (jittered fl b power drawn) (ceiling fl b) ≡ true)
  unfolding jittered
  jittered_bounds b power drawn sane positive small high =
      let raw = min_float fl b.cap (fl.mul b.base power) in
      let spread = fl.sub (fl.mul (fl.of_int (ℤ.pos 2)) drawn) (fl.of_int (ℤ.pos 1)) in
      let raw_nonneg : fl.le (zero_float fl) raw ≡ true =
        min_float_nonneg fl order b.cap (fl.mul b.base power) sane.cap_nonneg
          (mono.mul_nonneg b.base power sane.base_nonneg positive) in
      let raw_le : fl.le raw b.cap ≡ true = min_float-le fl order b.cap (fl.mul b.base power) in
      let noise : fl.le (fl.mul (fl.mul raw b.jitter) spread)
            (fl.mul (fl.mul raw b.jitter) (fl.of_int (ℤ.pos 1)))
          ≡ true =
        mono.mul_left spread (fl.of_int (ℤ.pos 1)) (fl.mul raw b.jitter)
          (mono.mul_nonneg raw b.jitter raw_nonneg sane.jitter_nonneg) small in
      let noise_le : fl.le (fl.mul (fl.mul raw b.jitter) spread) (fl.mul b.cap b.jitter) ≡ true =
        mono.le_trans _ (fl.mul raw b.jitter) _ (rw (mono.mul_one (fl.mul raw b.jitter)) at noise)
          (mono.mul_right raw b.cap b.jitter sane.jitter_nonneg raw_le) in
      max_float_bounds fl order (zero_float fl) (fl.add raw (fl.mul (fl.mul raw b.jitter) spread))
        (ceiling fl b) high (mono.add_mono raw b.cap _ (fl.mul b.cap b.jitter) raw_le noise_le)

-- What is known of `random()`, which is below 1, and of the powers of a number that is not negative.
pub record IsRandom {F R : Type 0} (fl : FloatOps F) (rand : Random F R) : Type 0 where
  pub spread_le :
      (rng : R)
      → fl.le
          (fl.sub (fl.mul (fl.of_int (ℤ.pos 2)) (rand.draw rng).0) (fl.of_int (ℤ.pos 1)))
          (fl.of_int (ℤ.pos 1))
        ≡ true
  pub power_nonneg :
      (x : F) (n : ℕ) (p : F)
      → fl.le (zero_float fl) x ≡ true
      → rand.power x n ≡ some p
      → fl.le (zero_float fl) p ≡ true

module _ {F R : Type 0} (fl : FloatOps F) (order : FloatOrder fl) (mono : Monotone fl)
    (rand : Random F R) (laws : IsRandom fl rand) where
  delay_of_bounds :
      (b b' : Backoff F) (rng rng' : R) (d : F) (power : Option F)
      → IsSane fl b
      → rand.power b.factor b.attempt ≡ power
      → delay_of fl rand b power rng ≡ (ok d, (b', rng'))
      → (fl.le (zero_float fl) d ≡ true)
        × (fl.le d (ceiling fl b) ≡ true)
        × IsSane fl b'
        × (ceiling fl b' ≡ ceiling fl b)
        × (b'.attempt ≡ suc b.attempt)
  unfolding delay_of
  delay_of_bounds b b' rng rng' d none sane e h = ground arith
  delay_of_bounds b b' rng rng' d (some p) sane e h =
      let same : jittered fl b p (rand.draw rng).0 ≡ d = ground arith in
      let after : record b { attempt = suc b.attempt } ≡ b' =
        ap (λ (x : Result DelayError F × (Backoff F × R)). x.1.0) h in
      let ceiling_nonneg =
        mono.add_nonneg b.cap _ sane.cap_nonneg
          (mono.mul_nonneg b.cap b.jitter sane.cap_nonneg sane.jitter_nonneg) in
      let within =
        jittered_bounds fl order mono b p (rand.draw rng).0 sane
          (laws.power_nonneg b.factor b.attempt p sane.factor_nonneg e) (laws.spread_le rng)
          ceiling_nonneg in
      let sane' : IsSane fl (record b { attempt = suc b.attempt }) = record {
        base_nonneg = sane.base_nonneg;
        cap_nonneg = sane.cap_nonneg;
        factor_nonneg = sane.factor_nonneg;
        jitter_nonneg = sane.jitter_nonneg;
      } in
      rw (← same, ← after) (within.0, within.1, sane', refl, refl)

  -- With numbers that are not negative, every delay that the generator yields, however often it was
  -- asked before, lies between zero and the cap with its jitter, and the numbers stay as they are.
  pub next_delay_bounds :
      (b b' : Backoff F) (rng rng' : R) (d : F)
      → IsSane fl b
      → next_delay fl rand b rng ≡ (ok d, (b', rng'))
      → (fl.le (zero_float fl) d ≡ true)
        × (fl.le d (ceiling fl b) ≡ true)
        × IsSane fl b'
        × (ceiling fl b' ≡ ceiling fl b)
        × (b'.attempt ≡ suc b.attempt)
  unfolding next_delay
  next_delay_bounds b b' rng rng' d sane h =
      delay_of_bounds b b' rng rng' d (rand.power b.factor b.attempt) sane refl h
