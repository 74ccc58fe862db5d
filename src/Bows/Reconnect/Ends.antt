-- ===== src/Bows/Reconnect/Ends.antt =====
-- When the loop ends, and what ends it.
use bacnet_sim_gateway.Common.{
  ℕ, zero, suc, ◌+◌, ◌<◌, ◌≤◌, Bool, true, false, ◌||◌, Option, none, some, List, [], ◌∷◌, Result,
  ok, raise, ◌≡◌, refl, sym, ◌∙◌, arith, any, length, All, if◌then◌else◌,
}
use bacnet_sim_gateway.Models.{FloatOps}
use bacnet_sim_gateway.Bows.Backoff.{Random, Backoff, DelayError, next_delay, delay_of}
use bacnet_sim_gateway.Bows.Reconnect.Defs.{
  Served, finished, failed, cancelled, Waited, stop_set, timed_out, wait_cancelled, Round,
  overflow_error, Ended, still_running, returned, raised, Looped, ends, add_round, Rest, after_wait,
  after_delay, after_session, after_serve, reconnect, stops, is_stop_set,
}

abbrev pub is_running : Ended → Bool
is_running still_running = true
is_running returned = false
is_running (raised e) = false

-- the rounds up to the first in which `stop` is set
abbrev pub rounds_to_stop : {E : Type 0} → List (Round E) → ℕ
rounds_to_stop [] = 0
rounds_to_stop (round ∷ rounds) = if stops round then 1 else suc (rounds_to_stop rounds)

module _ {F R E C : Type 0} (fl : FloatOps F) (rand : Random F R) (defaults : Backoff F)
    (serve : E → C → Served × C) where
  abbrev EndsBy : ℕ → Looped F C → Type 0
  EndsBy n l = (is_running l.ended ≡ false) × (l.sessions ≤ n)

  after_delay-EndsBy :
      (waited : Waited) (delay : Result DelayError F × (Backoff F × R)) (client : C)
      (rest : Rest fl rand defaults serve) (n : ℕ)
      → (is_stop_set waited ≡ false
          → (later : Backoff F) (rng' : R) (client' : C) → EndsBy n (rest later rng' client'))
      → EndsBy
          (if is_stop_set waited then 1 else suc n)
          (after_delay fl rand defaults serve waited delay client rest)
  unfolding after_delay after_wait ends add_round
  after_delay-EndsBy waited (raise e, (later, rng)) client rest n h = ground arith
  after_delay-EndsBy stop_set (ok d, (later, rng)) client rest n h = ground arith
  after_delay-EndsBy timed_out (ok d, (later, rng)) client rest n h =
      let go = h refl later rng client in ground arith
  after_delay-EndsBy wait_cancelled (ok d, (later, rng)) client rest n h = ground arith

  after_session-EndsBy :
      (stop : Bool) (waited : Waited) (delays : Backoff F) (rng : R) (client : C)
      (rest : Rest fl rand defaults serve) (n : ℕ)
      → ((stop || is_stop_set waited) ≡ false
          → (later : Backoff F) (rng' : R) (client' : C) → EndsBy n (rest later rng' client'))
      → EndsBy
          (if (stop || is_stop_set waited) then 1 else suc n)
          (after_session fl rand defaults serve stop waited delays rng client rest)
  unfolding after_session ends
  after_session-EndsBy true waited delays rng client rest n h = ground arith
  after_session-EndsBy false waited delays rng client rest n h =
      after_delay-EndsBy waited _ client rest n h

  after_serve-EndsBy :
      (stop : Bool) (waited : Waited) (delays : Backoff F) (rng : R) (served : Served × C)
      (rest : Rest fl rand defaults serve) (n : ℕ)
      → ((stop || is_stop_set waited) ≡ false
          → (later : Backoff F) (rng' : R) (client' : C) → EndsBy n (rest later rng' client'))
      → EndsBy
          (if (stop || is_stop_set waited) then 1 else suc n)
          (after_serve fl rand defaults serve stop waited delays rng served rest)
  unfolding after_serve ends
  after_serve-EndsBy stop waited delays rng (finished, client) rest n h =
      after_session-EndsBy stop waited defaults rng client rest n h
  after_serve-EndsBy stop waited delays rng (failed, client) rest n h =
      after_session-EndsBy stop waited delays rng client rest n h
  after_serve-EndsBy stop waited delays rng (cancelled, client) rest n h = ground arith

  -- a loop in one of whose rounds `stop` is set is over by then
  pub reconnect_ends :
      (rounds : List (Round E)) (delays : Backoff F) (rng : R) (client : C)
      → any stops rounds ≡ true
      → EndsBy (rounds_to_stop rounds) (reconnect fl rand defaults serve rounds delays rng client)
  unfolding reconnect
  reconnect_ends [] delays rng client h = absurd (ground arith)
  reconnect_ends (round ∷ rounds) delays rng client h =
      after_serve-EndsBy round.stop_after round.waited delays rng _ _ (rounds_to_stop rounds)
        (λ more later rng' client'. reconnect_ends rounds later rng' client' (ground arith))

-- a round in which the session fails on every client, and the wait lasts as long as the delay
abbrev pub Fails : {E C : Type 0} → (E → C → Served × C) → Round E → Type 0
Fails {E} {C} serve round =
    ((client : C) → (serve round.session client).0 ≡ failed)
    × (round.stop_after ≡ false)
    × (round.waited ≡ timed_out)

module _ {F R E C : Type 0} (fl : FloatOps F) (rand : Random F R) (defaults : Backoff F)
    (serve : E → C → Served × C) where
  after_fail :
      (stop : Bool) (waited : Waited) (delays : Backoff F) (rng : R) (served : Served × C)
      (rest : Rest fl rand defaults serve) (power : Option F)
      → stop ≡ false
      → waited ≡ timed_out
      → served.0 ≡ failed
      → rand.power delays.factor delays.attempt ≡ power
      → ((p : F)
          → power ≡ some p
          → (rng' : R) (client' : C)
          → (rest (record delays { attempt = suc delays.attempt }) rng' client').ended
            ≡ raised overflow_error)
      → (after_serve fl rand defaults serve stop waited delays rng served rest).ended
        ≡ raised overflow_error
  unfolding after_serve after_session after_delay after_wait ends add_round next_delay delay_of
  after_fail stop waited delays rng (finished, client) rest power h w f e k = absurd (ground arith)
  after_fail stop waited delays rng (cancelled, client) rest power h w f e k = absurd (ground arith)
  after_fail stop waited delays rng (failed, client) rest none h w f e k = rw (h, w, e)
  after_fail stop waited delays rng (failed, client) rest (some p) h w f e k =
      rw (h, w, e) (k p refl _ client)

  -- the power that overflows is not that of an attempt that got its delay
  overflows_later :
      (after : Backoff F) {ended : Ended} {left : ℕ}
      → ((n : ℕ)
          → n < left
          → rand.power after.factor (n + after.attempt) ≡ none
          → ended ≡ raised overflow_error)
      → (n : ℕ) (delays : Backoff F) (p : F)
      → after ≡ record delays { attempt = suc delays.attempt }
      → n < suc left
      → rand.power delays.factor (n + delays.attempt) ≡ none
      → rand.power delays.factor delays.attempt ≡ some p
      → ended ≡ raised overflow_error
  overflows_later after h zero delays p same short over fine =
      let zero_add : 0 + delays.attempt ≡ delays.attempt = omega arith in
      let clash : some p ≡ none = sym fine ∙ rw zero_add at over in cc
  overflows_later after h (suc n) delays p same short over fine =
      let moved : n + suc delays.attempt ≡ suc n + delays.attempt = omega arith in
      h n (omega arith) (rw (same, moved) over)

  -- Enough failures in a row end the loop with OverflowError, if the power overflows at some attempt.
  pub reconnect_overflows :
      (rounds : List (Round E)) (delays : Backoff F) (rng : R) (client : C) (n : ℕ)
      → All (Fails serve) rounds
      → n < length rounds
      → rand.power delays.factor (n + delays.attempt) ≡ none
      → (reconnect fl rand defaults serve rounds delays rng client).ended ≡ raised overflow_error
  unfolding reconnect
  reconnect_overflows [] delays rng client n fail short over = absurd (omega arith)
  reconnect_overflows (round ∷ rounds) delays rng client n fail short over =
      after_fail round.stop_after round.waited delays rng _ _ _ fail.0.1 fail.0.2 (fail.0.0 client)
        refl
        (λ p fine rng' client'.
          overflows_later (record delays { attempt = suc delays.attempt })
            (λ m.
              reconnect_overflows rounds (record delays { attempt = suc delays.attempt }) rng'
                client' m fail.1)
            n delays p refl short over fine)

module _ {F R E C : Type 0} (fl : FloatOps F) (rand : Random F R) (defaults : Backoff F)
    (serve : E → C → Served × C) (P : C → Type 0) where
  after_wait_keeps :
      (delay : F) (waited : Waited) (delays : Backoff F) (rng : R) (client : C)
      (rest : Rest fl rand defaults serve)
      → P client
      → P (rest delays rng client).client
      → P (after_wait fl rand defaults serve delay waited delays rng client rest).client
  unfolding after_wait add_round
  after_wait_keeps delay stop_set delays rng client rest h k = h
  after_wait_keeps delay timed_out delays rng client rest h k = k
  after_wait_keeps delay wait_cancelled delays rng client rest h k = h

  after_delay_keeps :
      (waited : Waited) (delay : Result DelayError F × (Backoff F × R)) (client : C)
      (rest : Rest fl rand defaults serve)
      → P client
      → ((later : Backoff F) (rng' : R) → P (rest later rng' client).client)
      → P (after_delay fl rand defaults serve waited delay client rest).client
  unfolding after_delay ends
  after_delay_keeps waited (raise e, (later, rng)) client rest h k = h
  after_delay_keeps waited (ok d, (later, rng)) client rest h k =
      after_wait_keeps d waited later rng client rest h (k later rng)

  after_session_keeps :
      (stop : Bool) (waited : Waited) (delays : Backoff F) (rng : R) (client : C)
      (rest : Rest fl rand defaults serve)
      → P client
      → ((later : Backoff F) (rng' : R) → P (rest later rng' client).client)
      → P (after_session fl rand defaults serve stop waited delays rng client rest).client
  unfolding after_session ends
  after_session_keeps true waited delays rng client rest h k = h
  after_session_keeps false waited delays rng client rest h k =
      after_delay_keeps waited _ client rest h k

  after_serve_keeps :
      (stop : Bool) (waited : Waited) (delays : Backoff F) (rng : R) (served : Served × C)
      (rest : Rest fl rand defaults serve)
      → P served.1
      → ((later : Backoff F) (rng' : R) → P (rest later rng' served.1).client)
      → P (after_serve fl rand defaults serve stop waited delays rng served rest).client
  unfolding after_serve ends
  after_serve_keeps stop waited delays rng (finished, client) rest h k =
      after_session_keeps stop waited defaults rng client rest h k
  after_serve_keeps stop waited delays rng (failed, client) rest h k =
      after_session_keeps stop waited delays rng client rest h k
  after_serve_keeps stop waited delays rng (cancelled, client) rest h k = h

  -- what every session keeps, the loop keeps
  pub reconnect_keeps :
      ((session : E) (client : C) → P client → P (serve session client).1)
      → (rounds : List (Round E)) (delays : Backoff F) (rng : R) (client : C) → P client
      → P (reconnect fl rand defaults serve rounds delays rng client).client
  unfolding reconnect
  reconnect_keeps keep [] delays rng client h = h
  reconnect_keeps keep (round ∷ rounds) delays rng client h =
      let kept = keep round.session client h in
      after_serve_keeps round.stop_after round.waited delays rng _ _ kept
        (λ later rng'. reconnect_keeps keep rounds later rng' _ kept)
