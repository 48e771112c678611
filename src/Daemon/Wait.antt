-- ===== src/Daemon/Wait.antt =====
-- The loop of `waitForVSwitchConfig`: it ends, and what it returns.
use k_vswitch.Prelude.{
  ℕ, zero, suc, ◌+◌, ◌-◌, ◌*◌, ◌≤◌, ◌<◌, ◌≡◌, ◌≢◌, refl, sym, ◌⊎◌, inl, inr, String, Bool, true,
  false, Bool-cases, some, ◌∷◌, ltb, arith,
}
use mathlib.Core.Path.{subst}
use k_vswitch.Result.{not_found, msg, wrap, Result, ok, err, panic}
use k_vswitch.Trace.{Trace, is_ok}
use k_vswitch.VSwitchCfg.{VSwitchConfig}
use k_vswitch.Daemon.{poll, ended, wait_for_vswitch_config}
use k_vswitch.Daemon.Outside.{Call, sleep, get_vswitch_config, wait_duration, poll_interval, Host}

-- time.Now never goes back, and a sleep takes its time.
pub record IsClock (clock : Trace Call → ℕ) : Type 0 where
  pub forward : (c : Call × Bool) (t : Trace Call) → clock t ≤ clock (c ∷ t)
  pub slept : (d : ℕ) (t : Trace Call) → clock t + d ≤ clock ((sleep d, true) ∷ t)

module _ (host : Host) (name : String) where
  -- the trace after some polls that found no configuration, with the sleeps between them
  abbrev pub misses : ℕ → Trace Call → Trace Call
  misses zero t = t
  misses (suc k) t = misses k ((sleep poll_interval, true) ∷ (get_vswitch_config name, false) ∷ t)

  -- The first answer other than "not found" is returned; the loop gives up only when a minute is
  -- over.
  abbrev pub Ends : (since : ℕ) → Trace Call → Result VSwitchConfig × Trace Call → Type 0
  Ends since t x =
      ((host.vswitch_config name t ≢ err not_found)
        × (x ≡ (
          host.vswitch_config name t,
          (get_vswitch_config name, is_ok (host.vswitch_config name t)) ∷ t,
        )))
      ⊎ ((since + wait_duration ≤ host.clock t) × (x ≡ (err (msg "vswitch config not found"), t)))

  pub record Waits (most since : ℕ) (t : Trace Call) (x : Result VSwitchConfig × Trace Call)
      : Type 0 where
    pub polls : ℕ
    pub few : polls ≤ most
    pub absent : (i : ℕ) → i < polls → host.vswitch_config name (misses i t) ≡ err not_found
    pub ends : Ends since (misses polls t) x

  now :
      {most since : ℕ} {t : Trace Call} {x : Result VSwitchConfig × Trace Call}
      → Ends since t x
      → Waits most since t x
  now h = record {
    polls = 0;
    few = omega arith;
    absent = λ i lt. absurd (omega (arith, lt));
    ends = h;
  }

  -- one more poll before
  missed :
      {most since : ℕ} {t : Trace Call} {x : Result VSwitchConfig × Trace Call}
      → host.vswitch_config name t ≡ err not_found
      → Waits most since ((sleep poll_interval, true) ∷ (get_vswitch_config name, false) ∷ t) x
      → Waits (suc most) since t x
  missed {t} e w = record {
    polls = suc w.polls;
    few = omega (arith, w.few);
    absent = absent;
    ends = w.ends;
  }
    where
      absent : (i : ℕ) → i < suc w.polls → host.vswitch_config name (misses i t) ≡ err not_found
      absent zero lt = e
      absent (suc i) lt = w.absent i (omega (arith, lt))

module _ (host : Host) (name : String) (time : IsClock host.clock) where
  later :
      (t : Trace Call)
      → host.clock t + poll_interval
        ≤ host.clock ((sleep poll_interval, true) ∷ (get_vswitch_config name, false) ∷ t)
  later t = omega (
    arith,
    time.slept poll_interval ((get_vswitch_config name, false) ∷ t),
    time.forward (get_vswitch_config name, false) t,
  )

  Polled : (fuel since : ℕ) → Trace Call → Type 0
  Polled fuel since t =
      (x : Result VSwitchConfig × Trace Call) × (poll host (suc fuel) since name t ≡ some x)
      × Waits host name fuel since t x

  -- what one poll within the minute answers, where the rest is known for one fuel less
  by_answer :
      (fuel since : ℕ) (t : Trace Call)
      → ltb (host.clock t - since) wait_duration ≡ true
      → (host.vswitch_config name t ≡ err not_found → Polled fuel since t)
      → (r : Result VSwitchConfig) → host.vswitch_config name t ≡ r
      → Polled fuel since t
  unfolding Polled poll
  by_answer fuel since t left again (ok cfg) e = (
    (ok cfg, (get_vswitch_config name, true) ∷ t),
    rw (poll, left, e) refl,
    now host name (inl (rw e (λ q. cc), rw e refl)),
  )
  by_answer fuel since t left again panic e = (
    (panic, (get_vswitch_config name, false) ∷ t),
    rw (poll, left, e) refl,
    now host name (inl (rw e (λ q. cc), rw e refl)),
  )
  by_answer fuel since t left again (err not_found) e = again e
  by_answer fuel since t left again (err (msg m)) e = (
    (err (msg m), (get_vswitch_config name, false) ∷ t),
    rw (poll, left, e) refl,
    now host name (inl (rw e (λ q. cc), rw e refl)),
  )
  by_answer fuel since t left again (err (wrap m f)) e = (
    (err (wrap m f), (get_vswitch_config name, false) ∷ t),
    rw (poll, left, e) refl,
    now host name (inl (rw e (λ q. cc), rw e refl)),
  )

  again_later :
      (fuel since : ℕ) (t : Trace Call)
      → ltb (host.clock t - since) wait_duration ≡ true
      → host.vswitch_config name t ≡ err not_found
      → Polled fuel since ((sleep poll_interval, true) ∷ (get_vswitch_config name, false) ∷ t)
      → Polled (suc fuel) since t
  unfolding Polled poll
  again_later fuel since t left e (x, runs, w) = (x, rw (poll, left, e) runs, missed host name e w)

  over_time :
      (fuel since : ℕ) (t : Trace Call)
      → ltb (host.clock t - since) wait_duration ≡ false
      → Polled fuel since t
  unfolding Polled poll
  over_time fuel since t over = (
    (err (msg "vswitch config not found"), t),
    rw (poll, over) refl,
    now host name (inr (ground (arith, over), refl)),
  )

  -- With fuel for the polls that still fit, and one more, the loop ends.
  poll-Waits :
      (fuel since : ℕ) (t : Trace Call)
      → since + wait_duration ≤ host.clock t + fuel * poll_interval
      → Polled fuel since t
  poll-Waits zero since t h = over_time zero since t (ground (arith, h))
  poll-Waits (suc fuel) since t h = elim (Bool-cases (ltb (host.clock t - since) wait_duration)) [
    | inr over ↦ over_time (suc fuel) since t over
    | inl left ↦
        by_answer (suc fuel) since t left
          (λ e. again_later fuel since t left e (
            poll-Waits fuel since
              ((sleep poll_interval, true) ∷ (get_vswitch_config name, false) ∷ t)
              (omega (arith, h, later t))))
          (host.vswitch_config name t) refl
  ]

  -- With a clock that does not go back and sleeps that take their time, the loop ends after at most
  -- 12 polls: each one before the last found no configuration; the last returns the first other
  -- answer, or a minute is over and the error says that none was found.
  pub wait_for_vswitch_config-Waits :
      (t : Trace Call) → Waits host name 12 (host.clock t) t (wait_for_vswitch_config host name t)
  unfolding wait_for_vswitch_config Polled
  wait_for_vswitch_config-Waits t =
      let (x, runs, w) = poll-Waits 12 (host.clock t) t (omega arith) in
      subst (λ o. Waits host name 12 (host.clock t) t (ended host o t)) (sym runs) w
