-- ===== src/Bows/Backoff/Defs.antt =====
-- `reconnect_delays`: the generator is its locals, and `next_delay` is `next` of it. `draw` is
-- `random()` of a state `R`, and `power` is `factor ** n` of floats, `none` where that raises
-- OverflowError.
use bacnet_sim_gateway.Common.{ℕ, suc, ℤ, Option, none, some, Result, ok, raise}
use bacnet_sim_gateway.Models.{FloatOps}
use bacnet_sim_gateway.Simulation.Generators.{min_float, max_float}

pub record Random (F R : Type 0) : Type 0 where
  pub draw : R → F × R
  pub power : F → ℕ → Option F

pub record Backoff (F : Type 0) : Type 0 where
  pub base : F
  pub factor : F
  pub cap : F
  pub jitter : F
  pub attempt : ℕ

pub data DelayError : Type 0 where
  overflow : DelayError

module _ {F : Type 0} (fl : FloatOps F) where
  -- the delay of one attempt, from the power and the draw
  unfoldable pub jittered : Backoff F → F → F → F
  jittered b power drawn =
      let raw = min_float fl b.cap (fl.mul b.base power) in
      let spread = fl.sub (fl.mul (fl.of_int (ℤ.pos 2)) drawn) (fl.of_int (ℤ.pos 1)) in
      max_float fl (fl.of_int (ℤ.pos 0)) (fl.add raw (fl.mul (fl.mul raw b.jitter) spread))

module _ {F R : Type 0} (fl : FloatOps F) (rand : Random F R) where
  unfoldable pub delay_of : Backoff F → Option F → R → Result DelayError F × (Backoff F × R)
  delay_of b none rng = (raise overflow, (b, rng))
  delay_of b (some power) rng = (
    ok (jittered fl b power (rand.draw rng).0),
    (record b { attempt = suc b.attempt }, (rand.draw rng).1),
  )

  unfoldable pub next_delay : Backoff F → R → Result DelayError F × (Backoff F × R)
  next_delay b rng = delay_of b (rand.power b.factor b.attempt) rng
