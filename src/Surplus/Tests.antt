-- ===== src/Surplus/Tests.antt =====
-- An evaluation with a surplus for the miner and the pool's heat pump, whose pump is off.
use carma_box_v.Base.{ℕ, ◌≡◌, refl, false, List, [], ◌∷◌, arith, All, insert}
use carma_box_v.Base.Int.{pos, ◌-ℤ◌, ◌+ℤ◌}
use carma_box_v.Base.Milli.{Milli, milli_float, num, minus_num}
use carma_box_v.Models.{Consumer}
use carma_box_v.Guards.Grid.{purge}
use carma_box_v.Surplus.Dispatch.{
  SurplusConfig, start, no_change, Limiter, SwitchReads, purge_switches, can_switch, record_switch,
  insert_by, sort_by, by_priority, by_shed, effective_deadband_w, start_consumer, escalate_step,
  escalate, shed, evaluate,
}
use carma_box_v.Surplus.Limits.{IsWithin, evaluate-IsWithin}
use carma_box_v.Surplus.Actions.{Grounds, entry}
use carma_box_v.Surplus.Decisions.{evaluate-Grounds}

abbrev config : SurplusConfig Milli
config = record {
  stop_threshold_w = minus_num 100;
  max_switches_per_window = 2;
  switch_window_s = num 1800;
  deadband_w = num 100;
  doubled_deadband_w = num 200;
  doubled_deadband_s = num 180;
}

abbrev miner : Consumer Milli
miner = record {
  consumer_id = "miner";
  active = false;
  power_w = num 400;
  priority = pos 1;
  priority_shed = pos 5;
  requires_active = "";
}

abbrev pool : Consumer Milli
pool = record {
  consumer_id = "vp_pool";
  active = false;
  power_w = num 2000;
  priority = pos 4;
  priority_shed = pos 2;
  requires_active = "pump";
}

abbrev consumers : List (Consumer Milli)
consumers = pool ∷ miner ∷ []

abbrev reads : ℕ → SwitchReads Milli
reads n = record { at_check = num 9000; at_record = num 9000; at_purge = num 9000 }

-- A switch half an hour ago is forgotten, and a recent one is not.
abbrev limiter : Limiter Milli
limiter = record { switches = num 7100 ∷ num 8000 ∷ []; deadband_until = num 0 }

evaluate_starts_miner : evaluate config (num 9000) reads (num 5000) consumers [] limiter ≡ (
  record { switches = num 8000 ∷ num 9000 ∷ []; deadband_until = num 9180 },
  record {
    allocations = entry config miner start ∷ entry config pool no_change ∷ [];
    available_surplus_w = num 5000;
    consumed_w = num 400;
  },
)
unfolding evaluate escalate escalate_step start_consumer shed record_switch can_switch
    purge_switches purge effective_deadband_w by_priority by_shed sort_by insert_by insert ◌-ℤ◌ ◌+ℤ◌
evaluate_starts_miner = refl

limiter-IsWithin : IsWithin config limiter
limiter-IsWithin = omega arith

evaluate-IsWithin_example :
    IsWithin config (evaluate config (num 9000) reads (num 5000) consumers [] limiter).0
evaluate-IsWithin_example =
    evaluate-IsWithin config (num 9000) reads (num 5000) consumers [] limiter limiter-IsWithin

evaluate-Grounds_example :
    let decided =
      (evaluate config (num 9000) reads (num 5000) consumers [] limiter).1.allocations in
    All (Grounds consumers [] decided) decided
evaluate-Grounds_example = evaluate-Grounds config (num 9000) reads (num 5000) consumers [] limiter
