-- ===== src/Tests/Runs.antt =====
-- What the runs of the tests take from elsewhere.
use plugin_play.Base.{ℕ, suc, true, not, [], ◌==◌}
use plugin_play.Base.TextOrder.{text_order}
use plugin_play.Base.Result.{Result, ok, err}
use plugin_play.Module.{Module, InputMap, Store}
use plugin_play.Module.World.{World, CacheApi, merged}
use plugin_play.Module.Run.Hit.{locked_store}
use plugin_play.Tests.Data.{py, print, demangle}

-- A cache of one result, that counts its entries.
abbrev pub one_result : CacheApi ℕ ℕ
one_result = record {
  count = λ p c ps. ok (not (c == 0));
  cache = λ p ps rv c. (ok tt, suc c);
  uncache = λ p c ps. ok [];
  clear = λ p c. (ok tt, 0);
}

abbrev pub world : World ℕ ℕ
world = record {
  cim = text_order;
  strings = text_order;
  print = print;
  py = py;
  demangle = demangle;
  uuids_type = record { index = 5; name = "map" };
  wrap_uuids = λ u. 0;
  caches = one_result;
  algorithms = λ n ps submods st. (ok [], st);
}

abbrev pub or_empty : Result (InputMap ℕ) → InputMap ℕ
or_empty (ok ps) = ps
or_empty (err e) = []

abbrev merged_inputs : Store ℕ ℕ → ℕ → Module ℕ → InputMap ℕ
merged_inputs st a m =
    or_empty (merged world 2 (locked_store world 2 a [] st) a (record m { locked = true }) [])
