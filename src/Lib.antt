-- ===== src/Lib.antt =====
-- CARMA Box: a control loop that reads a house's batteries, EV, grid and PV every 30 seconds, guards
-- it, picks a scenario, and writes inverter modes. This library models the core that decides, and
-- proves what it promises.
--
-- The parts, and the file that models each:
-- Models: core/models.py, the enums and state records that all parts share, `effective_min_soc` and
--   the derived quantities of a snapshot. EMSMode is EmsMode, BatteryState is Battery, EVState is Ev,
--   GridState is Grid, SystemSnapshot is Snapshot.
-- Guards: core/guards.py. Each cycle `GridGuard.evaluate` runs the guards G0 to G7 in turn, and each
--   appends commands and raises the level. Guards/Battery has G0, G1, G2 and G4, which look at each
--   battery; Guards/Grid has G3, G5, G6 and G7; Guards/Evaluate composes them, with the export guard
--   and the policy (`GuardPolicy.evaluate` is evaluate_policy). GuardState holds what the guard keeps
--   between cycles. Guards/Spec describes each guard alone, as what it contributes.
-- Machine: core/state_machine.py. Machine/Entry has the entry and exit conditions of the nine
--   scenarios, Machine/Evaluate the matrix, the priorities and the class. `evaluate` answers with a
--   target or none; the control loop then calls transition_to.
-- ModeChange: core/mode_change.py. ModeChange/Protocol has one function for each state of the
--   five-step protocol (`_process_request`), ModeChange/Manager the table of requests and the loop over
--   it. The mode changes of decisions reach the inverters through it; the guards' commands do not.
-- Surplus: core/surplus_dispatch.py. Surplus/Dispatch has the rate limiter and the dispatch of a PV
--   surplus to consumers; an evaluation takes one triple of clock readings for each turn of a consumer.
-- Ellevio: core/ellevio.py. Ellevio/Tracker has the update of the hourly averages, which the guards
--   compare with the tak, and the closing of an hour into the month's peaks; Ellevio/Persist what is
--   stored over a restart. Python's `str`, `int` and `float` are the parameter Texts.
-- Executor: core/executor.py. Executor/Handlers has one handler for each type of command and
--   Executor/Execute the two loops over commands, for the decisions (`execute`) and for the guards
--   (`execute_guard_commands`), with the rate limit and the audit trail. The adapters are the parameter
--   Adapters: a record of their operations on a type of devices, each of which may raise. A handler runs
--   in the monad M of Executor/Monad, which passes the executor and the devices on and ends in a result
--   or an exception. Executor/Site is a site that does what it is told, on which the guards' commands
--   are followed to the modes of the inverters. Executor/Ports is the executor as ModeChange's Port.
-- ZeroGrid: core/zero_grid.py. ZeroGrid/Gain has the history of the SoC and the target of the
--   batteries, ZeroGrid/Distribute the split of the target, ZeroGrid/Plan `plan_zero_grid`, which is
--   none where the limits of a battery are missing (a KeyError).
-- EvController: core/ev_controller.py. EvController/Evaluate has the checks of `evaluate` in their
--   order, EvController/Timers the cooldowns and the steps of the current.
-- NightEv: core/ev_night_controller.py, the ramp of the car's current in the night window.
-- Cycle: core/engine.py. Cycle/Run has `run_cycle`: the guards and their commands, the stop at FREEZE,
--   the state machine, and then the other phases in turn until one raises. Cycle/Night has the night
--   controllers, which run NightEv and BatSupport through the executor. The budget
--   phase, the mode changes and the session tracker are the record Phases: operations on the world and
--   on a state of their own, of which nothing is assumed. Cycle/Budget has `_run_budget_allocator`, an
--   operation that may stand for the budget phase, and Cycle/Amps is about cycles in which it does.
-- Budget: core/budget.py and core/grid_tuner.py. Each cycle `allocate` reads the grid, has ZeroGrid
--   plan the batteries, and emits commands for the car, the batteries and the loads, which Executor
--   carries out. Budget/Tuner has grid_tuner.py, Budget/Facts what a cycle computes first,
--   Budget/Batteries the limits and modes, Budget/Charger the car, Budget/Cascade the loads, and
--   Budget/Allocate `allocate`, which is none where Python raises an IndexError. Dicts are lists with
--   distinct keys. Budget/Modes reads off a cycle's commands which mode they leave a battery in, and
--   Budget/Settled says what a battery may be left in.
-- EvSurplus: core/ev_surplus.py, the car's current from a surplus of PV power. Its commands are for
--   Executor; the control cycle does not call it any more.
-- Fallback: core/fallback.py, the action for each failure and the SoC for an invalid reading.
-- NightPlan: core/night_planner.py, the windows of a night, and core/ev_presence.py.
-- BatSupport: core/bat_support_controller.py, the discharging ahead of a breach of the tak.
-- Balancer: core/balancer.py, the split of a power among the batteries.
-- Dicts: what a loop that fills a dict leaves in it.
-- Breaker: adapters/circuit_breaker.py, which the adapters put around each call to a device.
--
-- How the code is translated:
-- - A method takes the state it reads and returns the new one with its result. Each reading of
--   `time.monotonic()` is an argument of its own, so no order between the readings is assumed.
-- - Floats are any type with the operations of Base/Floats; comparisons are Boolean, so a NaN
--   compares as in the code. A theorem that needs laws of the order names them, IsOrdered, which hold
--   of floats with NaN, or laws of signs, IsSigned; Base/Milli is a type of thousandths that has them and that runs the code.
--   A division by zero is whatever the division gives, and not an exception.
-- - Hours and counters are natural numbers, limits in watts integers, and ids native texts.
-- - The text of a violation is a constructor with the values in the text; reasons of commands and
--   logging are left out.
-- - `int(x)` of a NaN is whatever the conversion gives, and not an exception.
-- - What executes a mode change is the parameter Port, a record of its five operations on a type of
--   devices. Nothing is assumed of it except where a theorem is about `inverter`, which does what it is
--   told. There an executor that raises is not modelled; in Executor and Cycle the adapters and the
--   phases may raise, and an exception is a value of Outcome.
--
-- Loops over batteries, requests and scenarios are recursion on the list; no fuel is used. A run of the
-- protocol is a list of clock readings, one for each cycle; 2 * max_retries + 3 cycles are enough
-- because a request goes to its target in at most three, and each retry takes two.
--
-- Not modelled: the planners but for the night's, and the accounting,
-- each a component of its own; the adapters, storage, notifications and configuration, which are I/O
-- or formatting.
pub mod Fallback
pub mod NightPlan
pub mod EvSurplus
pub mod Budget
pub mod Base
pub mod Models
pub mod Breaker
pub mod Guards
pub mod Machine
pub mod ModeChange
pub mod Surplus
pub mod Ellevio
pub mod Dicts
pub mod Executor
pub mod ZeroGrid
pub mod EvController
pub mod BatSupport
pub mod Balancer
pub mod NightEv
pub mod Cycle
