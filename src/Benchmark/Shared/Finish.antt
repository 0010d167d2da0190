-- ===== src/Benchmark/Shared/Finish.antt =====
-- The ring over exchange files: several workers between the supplier's file and the aggregator's, and
-- the aggregator's thread.
use compute_web_app.Outcome.{Outcome}
