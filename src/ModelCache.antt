-- ===== src/ModelCache.antt =====
-- `_get_model` of services/fault_detection.py and services/virtual_sensor.py: the trained model of a
-- slot, loaded again when its file has changed.
pub mod Freshness
use trust_aware_self_healing.Shared.{ℕ, Bool, true, false, Option, none, some, ◌==◌, if◌then◌else◌}
use trust_aware_self_healing.Store.Run.{Run, Result, ok, err, model_unavailable, load_error}
use trust_aware_self_healing.Store.Db.{ModelFile, ModelSlot}

-- `joblib.load`, and the slot with its new cache.
abbrev pub load_model : {M : Type 0} → ModelFile M → Option M → ModelSlot M → Result M × ModelSlot M
load_model file none slot = (err load_error, slot)
load_model file (some model) slot = (ok model, record slot { cache = some (model, file.mtime) })

abbrev pub cached_model :
    {M : Type 0} → ModelFile M → Option (M × ℕ) → ModelSlot M → Result M × ModelSlot M
cached_model file none slot = load_model file file.content slot
cached_model file (some (model, mtime)) slot =
    if mtime == file.mtime then (ok model, slot) else load_model file file.content slot

abbrev pub model_of : {M : Type 0} → Option (ModelFile M) → ModelSlot M → Result M × ModelSlot M
model_of none slot = (err model_unavailable, slot)
model_of (some file) slot = cached_model file slot.cache slot

unfoldable pub get_model : {M : Type 0} → ModelSlot M → Result M × ModelSlot M
get_model slot = model_of slot.file slot

-- `_model_cache.clear()`
unfoldable pub reload_model : {M : Type 0} → ModelSlot M → ModelSlot M
reload_model slot = record slot { cache = none }
