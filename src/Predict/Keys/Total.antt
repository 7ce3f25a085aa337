-- ===== src/Predict/Keys/Total.antt =====
-- That a keystroke of crates/quosh-predict/src/lib.rs always has a result.
use quosh.Predict.Keys.Returns.{Returns}
use quosh.Predict.Keys.Fits.{Fits}
