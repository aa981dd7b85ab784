-- ===== src/Tests.antt =====
-- Runs of the models at concrete inputs, at which the hypotheses of the theorems hold.
mod CoreRuns
mod RsiRuns
mod RsiBaseRuns
mod EventRuns
mod Lookup
mod KssRuns
mod ControllerRuns
mod HandlerRuns
mod ModeRuns
mod LoopRuns
mod ParameterRuns
mod FriRuns
mod FriCycleRuns
mod EacRuns
mod EacCycleRuns
