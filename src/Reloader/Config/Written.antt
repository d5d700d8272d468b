-- ===== src/Reloader/Config/Written.antt =====
-- `ReloadableJson` of cpp_lib/reloader/reloadable_json.h on a text that `WriteToJsonString` of
-- cpp_lib/serialize/json.h has written.
use cpp_lib.Prelude.{ℕ, Bool}
use cpp_lib.Container.DoubleBuffer.{init_shared, switches}
use cpp_lib.Reloader.Config.{Config}
use cpp_lib.Serialize.Rapidjson.{Rapidjson}

-- A configuration as its constructor and `n` calls of `Switch` make it.
abbrev pub loaded_times : {T : Type 0} → ℕ → ℕ → Bool → (ℕ → T) → Config T
loaded_times n address ready store = record {
  double_confs = switches n (init_shared address);
  ready = ready;
  store = store;
}
