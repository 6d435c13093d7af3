-- ===== src/Breaker/Runs.antt =====
-- Runs of attempts: how many failures open a breaker, how it fails fast, and how it recovers.
use carma_box_v.Base.{◌+◌, ◌≤◌, ◌<◌, ◌≡◌, refl, ap, true, false, List, [], ◌∷◌, arith, length, All}
use carma_box_v.Base.Floats.{Float}
use carma_box_v.Breaker.{
  closed, opened, half_open, Breaker, has_cooled, allow, on_success, on_failure, Attempt, attempt,
  attempts,
}
use carma_box_v.Breaker.Laws.{IsValid, attempt-IsValid}

module _ {F : Type 0} where
  abbrev pub Fails : Attempt F → Type 0
  Fails a = a.succeeded ≡ false

  abbrev pub Succeeds : Attempt F → Type 0
  Succeeds a = a.succeeded ≡ true

  abbrev pub last_report : F → List (Attempt F) → F
  last_report t [] = t
  last_report t (a ∷ rest) = last_report a.reported rest

module _ {F : Type 0} ⦃f : Float F⦄ where
  fail_closed :
      (b : Breaker F) (a : Attempt F)
      → b.state ≡ closed
      → Fails a
      → b.consecutive_failures + 1 < b.config.failure_threshold
      → let b' = (attempt b a).0 in
        (b'.state ≡ closed)
        × (b'.config ≡ b.config)
        × (b'.consecutive_failures ≡ b.consecutive_failures + 1)
  unfolding attempt allow on_success on_failure
  fail_closed b a hc hf h = ground arith

  fail_last :
      (b : Breaker F) (a : Attempt F)
      → b.state ≡ closed
      → Fails a
      → b.config.failure_threshold ≤ b.consecutive_failures + 1
      → ((attempt b a).0.state ≡ opened) × ((attempt b a).0.opened_at ≡ a.reported)
  unfolding attempt allow on_success on_failure
  fail_last b a hc hf h = ground arith

  -- A closed breaker opens at the failure that makes the threshold, at its time, and stays closed
  -- through fewer failures, which it counts.
  pub attempts_trip :
      (b : Breaker F) (fails : List (Attempt F))
      → b.state ≡ closed
      → All Fails fails
      → (b.consecutive_failures + length fails < b.config.failure_threshold
          → ((attempts b fails).state ≡ closed)
            × ((attempts b fails).consecutive_failures ≡ b.consecutive_failures + length fails))
        × (b.consecutive_failures < b.config.failure_threshold
            → b.consecutive_failures + length fails ≡ b.config.failure_threshold
            → ((attempts b fails).state ≡ opened)
              × ((attempts b fails).opened_at ≡ last_report b.opened_at fails))
  unfolding attempts
  attempts_trip b [] hc hf = ground arith
  attempts_trip b (a ∷ []) hc (ha, hf) = ground (arith, fail_closed b a hc ha, fail_last b a hc ha)
  attempts_trip b (a ∷ a' ∷ rest) hc (ha, hf) =
      let rest_of = attempts_trip (attempt b a).0 (a' ∷ rest) in
      (
        λ h.
            let (s, c, n) = fail_closed b a hc ha (omega arith) in
            let (still, count) = (rest_of s hf).0 (rw (c, n) (omega arith)) in (still, omega arith),
        λ below e.
            let (s, c, n) = fail_closed b a hc ha (omega arith) in
            (rest_of s hf).1 (rw (c, n) (omega arith)) (rw (c, n) (omega arith)),
      )

  -- Attempts on an open breaker that all ask before the cooldown is over leave it as it is.
  pub attempts_fail_fast :
      (b : Breaker F) (asks : List (Attempt F))
      → b.state ≡ opened
      → All (λ a. has_cooled b a.asked ≡ false) asks
      → attempts b asks ≡ b
  unfolding attempts attempt allow on_success on_failure
  attempts_fail_fast b [] ho hs = refl
  attempts_fail_fast b (a ∷ rest) ho (ha, hs) = ground (arith, attempts_fail_fast b rest ho hs)

  succeed_probe :
      (b : Breaker F) (a : Attempt F)
      → b.state ≡ half_open
      → Succeeds a
      → b.consecutive_successes + 1 < b.config.success_threshold
      → let b' = (attempt b a).0 in
        (b'.state ≡ half_open)
        × (b'.config ≡ b.config)
        × (b'.consecutive_successes ≡ b.consecutive_successes + 1)
  unfolding attempt allow on_success on_failure
  succeed_probe b a hc hf h = ground arith

  succeed_last :
      (b : Breaker F) (a : Attempt F)
      → b.state ≡ half_open
      → Succeeds a
      → b.config.success_threshold ≤ b.consecutive_successes + 1
      → let b' = (attempt b a).0 in
        (b'.state ≡ closed) × (b'.consecutive_failures ≡ 0) × (b'.consecutive_successes ≡ 0)
  unfolding attempt allow on_success on_failure
  succeed_last b a hc hf h = ground arith

  probe_closes :
      (b : Breaker F) (oks : List (Attempt F))
      → b.state ≡ half_open
      → All Succeeds oks
      → b.consecutive_successes < b.config.success_threshold
      → b.consecutive_successes + length oks ≡ b.config.success_threshold
      → ((attempts b oks).state ≡ closed) × ((attempts b oks).consecutive_failures ≡ 0)
  unfolding attempts
  probe_closes b [] hc hf h e = absurd (omega arith)
  probe_closes b (a ∷ []) hc (ha, hf) h e = ground (arith, succeed_last b a hc ha)
  probe_closes b (a ∷ a' ∷ rest) hc (ha, hf) h e =
      let (s, c, n) = succeed_probe b a hc ha (omega arith) in
      probe_closes (attempt b a).0 (a' ∷ rest) s hf (rw (c, n) (omega arith))
        (rw (c, n) (omega arith))

  cooled_probe :
      (b : Breaker F) (a : Attempt F)
      → b.state ≡ opened
      → has_cooled b a.asked ≡ true
      → attempt b a ≡ attempt (record b { state = half_open; consecutive_successes = 0 }) a
  unfolding attempt allow on_success on_failure
  cooled_probe b a ho h = ground arith

  attempts_cooled :
      (b : Breaker F) (a : Attempt F) (oks : List (Attempt F))
      → b.state ≡ opened
      → has_cooled b a.asked ≡ true
      → attempts b (a ∷ oks)
        ≡ attempts (record b { state = half_open; consecutive_successes = 0 }) (a ∷ oks)
  unfolding attempts
  attempts_cooled b a oks ho h = ap (λ r. attempts r.0 oks) (cooled_probe b a ho h)

  -- Once it has cooled down, an open breaker closes after as many successful attempts in a row as
  -- its success threshold, with its failure count back at zero.
  pub attempts_recover :
      (b : Breaker F) (a : Attempt F) (oks : List (Attempt F))
      → b.state ≡ opened
      → has_cooled b a.asked ≡ true
      → All Succeeds (a ∷ oks)
      → length (a ∷ oks) ≡ b.config.success_threshold
      → ((attempts b (a ∷ oks)).state ≡ closed) × ((attempts b (a ∷ oks)).consecutive_failures ≡ 0)
  attempts_recover b a oks ho h hs e = rw (attempts_cooled b a oks ho h) (
      probe_closes (record b { state = half_open; consecutive_successes = 0 }) (a ∷ oks) refl hs
        (omega arith) (omega arith))

  -- A failed probe opens the breaker again, with a fresh cooldown.
  pub attempt_failed_probe :
      (b : Breaker F) (a : Attempt F)
      → b.state ≡ opened
      → has_cooled b a.asked ≡ true
      → Fails a
      → ((attempt b a).0.state ≡ opened) × ((attempt b a).0.opened_at ≡ a.reported)
  unfolding attempt allow on_success on_failure
  attempt_failed_probe b a ho h hf = ground arith

  config-attempt : (b : Breaker F) (a : Attempt F) → (attempt b a).0.config ≡ b.config
  unfolding attempt allow on_success on_failure
  config-attempt b a = ground arith

  -- With thresholds above 0, every run of attempts, of any outcomes at any times, keeps a breaker
  -- valid.
  pub attempts-IsValid :
      (b : Breaker F) (run : List (Attempt F))
      → 0 < b.config.failure_threshold
      → 0 < b.config.success_threshold
      → IsValid b
      → IsValid (attempts b run)
  unfolding attempts
  attempts-IsValid b [] hf hs v = v
  attempts-IsValid b (a ∷ rest) hf hs v =
      let same = config-attempt b a in
      attempts-IsValid (attempt b a).0 rest (rw same hf) (rw same hs) (attempt-IsValid b a hf hs v)
