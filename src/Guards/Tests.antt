-- ===== src/Guards/Tests.antt =====
-- A cycle of the guards on two batteries, and the theorems at it.
use carma_box_v.Base.{
  ◌≡◌, ◌≢◌, ◌↔◌, ◌⊎◌, refl, inl, true, false, [], ◌∷◌, some, String, arith, contains, any, insert,
  discard,
}
use carma_box_v.Base.Int.{◌+ℤ◌, ◌-ℤ◌, ◌*ℤ◌, quot}
use carma_box_v.Base.Milli.{Milli, milli_float, num}
use carma_box_v.Models.{Battery, effective_min_soc, same_mode, same_scenario}
use carma_box_v.Guards.Example.{config, kontor, forrad, input, reads, state}
use carma_box_v.Guards.Types.{breach, freeze, alarm, GuardInput}
use carma_box_v.Guards.Battery.{
  min_soc, charges_without_pv, charges_at_floor, charges_at_night, g0_no_pv, g0_floor, g0_night,
  g0_loop, check_g0, g1_step, check_g1, g2_step, check_g2, g4_step, check_g4,
}
use carma_box_v.Guards.Grid.{
  is_night_hour, emit_each, effective_tak_kw, g3_respond_critical, g3_respond_breach, check_g3,
  purge, check_g5, is_stale, check_g6, is_lost, check_g7,
}
use carma_box_v.Guards.Evaluate.{no_findings, touch_contact, check_batteries, check_site, evaluate}
use carma_box_v.Guards.Levels.{evaluate_freezes_iff}
use carma_box_v.Guards.Spec.{is_held}
use carma_box_v.Guards.Floor.{is_id, Distinct, evaluate_hysteresis}
use carma_box_v.Guards.Order.{all_commands, evaluate-commands}
use carma_box_v.Guards.Modes.{last_mode, final_mode, evaluate-final_mode}
use carma_box_v.Guards.Window.{IsRising}

input-Distinct : Distinct input.batteries
input-Distinct = ground arith

-- Above the tak, both batteries are sent to discharge, at 14 % under a floor of 15 % too.
breach_discharges_at_floor :
    let r = (evaluate config input reads state).1 in
    (last_mode "kontor" r.commands ≡ some "discharge_pv")
    × (r.level ≡ breach)
    × (r.batteries_at_floor ≡ "forrad" ∷ "kontor" ∷ [])
unfolding evaluate touch_contact check_batteries check_site no_findings check_g0 g0_loop g0_no_pv
    g0_floor g0_night charges_without_pv charges_at_floor charges_at_night check_g1 g1_step check_g2
    g2_step check_g3 check_g4 g4_step check_g5 check_g6 check_g7 is_stale is_lost purge emit_each
    effective_tak_kw is_night_hour g3_respond_critical g3_respond_breach effective_min_soc min_soc
    insert discard same_mode same_scenario ◌+ℤ◌ ◌-ℤ◌ ◌*ℤ◌ quot
breach_discharges_at_floor = (refl, refl, refl)

evaluate-commands_example :
    (evaluate config input reads state).1.commands ≡ all_commands config input ("forrad" ∷ [])
evaluate-commands_example = evaluate-commands config input reads state input-Distinct

evaluate-final_mode_example :
    last_mode "kontor" (evaluate config input reads state).1.commands
    ≡ final_mode config input ("forrad" ∷ []) kontor
evaluate-final_mode_example =
    evaluate-final_mode config input reads state kontor input-Distinct (inl refl)

evaluate_hysteresis_example :
    ((bat : Battery Milli)
      → (bat ≡ kontor) ⊎ ((bat ≡ forrad) ⊎ ⊥)
      → contains bat.battery_id (evaluate config input reads state).0.at_floor
        ≡ is_held config ("forrad" ∷ []) bat)
    × ((id : String)
        → any (is_id id) (kontor ∷ forrad ∷ []) ≡ false
        → contains id (evaluate config input reads state).0.at_floor ≡ contains id ("forrad" ∷ []))
evaluate_hysteresis_example = evaluate_hysteresis config input reads state input-Distinct

-- Data older than 300 s, with HA connected.
abbrev stale_input : GuardInput Milli
stale_input = record input { data_age_s = num 301 }

evaluate_freezes_iff_example :
    (((evaluate config stale_input reads state).1.level ≡ freeze) ↔ (
      (is_stale config (num 301) ≡ true)
      ⊎ ((true ≡ false) × (is_lost config state (num 1000) ≡ true))))
    × ((evaluate config stale_input reads state).1.level ≢ alarm)
evaluate_freezes_iff_example = evaluate_freezes_iff config stale_input reads state

state-IsRising : IsRising state.mode_changes
state-IsRising = ground arith
