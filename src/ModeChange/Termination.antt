-- ===== src/ModeChange/Termination.antt =====
-- The protocol ends: how many cycles a request takes at most.
use carma_box_v.Base.{
  ℕ, ◌+◌, ◌*◌, ◌-◌, ◌≤◌, ◌<◌, ◌≡◌, refl, ◌⊎◌, inl, inr, true, false, List, [], ◌∷◌, arith, length,
  Bool-cases,
}
use carma_box_v.Base.Floats.{Float}
use carma_box_v.ModeChange.Types.{
  Port, ChangeState, idle, clearing, standby_wait, setting_target, verifying, complete, failed,
  Request, ChangeConfig,
}
use carma_box_v.ModeChange.Protocol.{
  process_idle, process_clearing, process_standby, process_setting, process_verifying, retry,
  process_request,
}
use carma_box_v.ModeChange.Manager.{is_terminal}
use carma_box_v.ModeChange.Diagram.{is_due}

-- No failed verification before the target was set, and fewer than end the request after that.
abbrev pub RetriesFit : ChangeState → ℕ → ℕ → Type 0
RetriesFit complete r max = r < max
RetriesFit failed r max = r ≤ max
RetriesFit setting_target r max = r < max
RetriesFit verifying r max = r < max
RetriesFit _ r max = r ≡ 0

-- The cycles that a request may still take.
abbrev pub cycles_left : ChangeState → ℕ → ℕ → ℕ
cycles_left idle r max = 2 * max + 3
cycles_left clearing r max = 2 * max + 2
cycles_left standby_wait r max = 2 * max + 1
cycles_left setting_target r max = 2 * (max - r)
cycles_left verifying r max = 2 * (max - r) - 1
cycles_left _ r max = 0

module _ {F D : Type 0} ⦃f : Float F⦄ (p : Port D) (cfg : ChangeConfig F) where
  open f use {sub}

  abbrev pub Fits : Request F → Type 0
  Fits req = RetriesFit req.state req.retry_count cfg.max_retries

  abbrev left : Request F → ℕ
  left req = cycles_left req.state req.retry_count cfg.max_retries

  -- The request at each of the given times.
  unfoldable pub cycles : List F → Request F → D → Request F × D
  cycles [] req d = (req, d)
  cycles (t ∷ ts) req d = let (req', d') = process_request p cfg t req d in cycles ts req' d'

  -- Every cycle until the end comes after the wait of the state that it finds.
  abbrev pub AllDue : List F → Request F → D → Type 0
  AllDue [] req d = Unit
  AllDue (t ∷ ts) req d =
      let (req', d') = process_request p cfg t req d in
      (is_terminal req.state ≡ false → is_due cfg t req ≡ true) × AllDue ts req' d'

  process_request-Fits :
      (now : F) (req : Request F) (d : D)
      → 0 < cfg.max_retries
      → Fits req
      → Fits (process_request p cfg now req d).0
  unfolding process_request process_idle process_clearing process_standby process_setting
      process_verifying retry
  process_request-Fits now req d pos h = ground arith

  process_request-left :
      (now : F) (req : Request F) (d : D)
      → 0 < cfg.max_retries
      → Fits req
      → is_due cfg now req ≡ true
      → left (process_request p cfg now req d).0 < left req
  unfolding process_request process_idle process_clearing process_standby process_setting
      process_verifying retry
  process_request-left now req d pos h due = ground arith

  process_request_terminal :
      (now : F) (req : Request F) (d : D)
      → is_terminal req.state ≡ true
      → process_request p cfg now req d ≡ (req, d)
  unfolding process_request
  process_request_terminal now req d h = ground arith

  cycles_terminal :
      (ts : List F) (req : Request F) (d : D)
      → is_terminal req.state ≡ true
      → cycles ts req d ≡ (req, d)
  unfolding cycles
  cycles_terminal [] req d h = refl
  cycles_terminal (t ∷ ts) req d h =
      rw (process_request_terminal t req d h) (cycles_terminal ts req d h)

  pub cycles_finish :
      (ts : List F) (req : Request F) (d : D)
      → 0 < cfg.max_retries
      → Fits req
      → AllDue ts req d
      → left req ≤ length ts
      → is_terminal (cycles ts req d).0.state ≡ true
  unfolding cycles
  cycles_finish [] req d pos h due enough = ground arith
  cycles_finish (t ∷ ts) req d pos h due enough = elim (Bool-cases (is_terminal req.state)) [
    | inl done ↦ rw (cycles_terminal (t ∷ ts) req d done) done
    | inr going ↦
        let (req', d') = process_request p cfg t req d in
        let less = process_request-left t req d pos h (due.0 going) in
        cycles_finish ts req' d' pos (process_request-Fits t req d pos h) due.1 (omega arith)
  ]

  cycles-Fits :
      (ts : List F) (req : Request F) (d : D)
      → 0 < cfg.max_retries
      → Fits req
      → Fits (cycles ts req d).0
  unfolding cycles
  cycles-Fits [] req d pos h = h
  cycles-Fits (t ∷ ts) req d pos h =
      let (req', d') = process_request p cfg t req d in
      cycles-Fits ts req' d' pos (process_request-Fits t req d pos h)

  -- Whatever the hardware answers: with at least one retry configured, a new request is complete or
  -- failed after 2 * max_retries + 3 cycles that each come after the wait of the state they find, and
  -- it has then counted at most max_retries mismatches, fewer if it is complete.
  pub cycles_terminate :
      (ts : List F) (req : Request F) (d : D)
      → 0 < cfg.max_retries
      → req.state ≡ idle
      → req.retry_count ≡ 0
      → AllDue ts req d
      → 2 * cfg.max_retries + 3 ≤ length ts
      → let end = (cycles ts req d).0 in
        (end.state ≡ complete) × (end.retry_count < cfg.max_retries)
        ⊎ (end.state ≡ failed) × (end.retry_count ≤ cfg.max_retries)
  cycles_terminate ts req d pos new none_yet due enough =
      let h : Fits req = ground arith in
      ground (arith, cycles_finish ts req d pos h due, cycles-Fits ts req d pos h)
