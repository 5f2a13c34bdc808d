-- ===== src/ModelCache/Freshness.antt =====
-- `_get_model` of services/fault_detection.py and services/virtual_sensor.py: the cached model beside
-- its file.
use trust_aware_self_healing.Shared.{ℕ, ◌≡◌, ◌≢◌, refl, Option, none, some, arith}
use trust_aware_self_healing.Store.Run.{Result, err, or_raise, model_unavailable, load_error}
use trust_aware_self_healing.Store.Db.{ModelFile, ModelSlot}
use trust_aware_self_healing.ModelCache.{get_model}

-- A cached model with the file's modification time is the model in the file.
abbrev pub IsCurrent : {M : Type 0} → Option (ModelFile M) → Option (M × ℕ) → Type 0
IsCurrent none cache = Unit
IsCurrent (some file) none = Unit
IsCurrent (some file) (some (model, mtime)) = mtime ≡ file.mtime → file.content ≡ some model

-- What loading the file from scratch gives.
abbrev pub loaded : {M : Type 0} → Option (ModelFile M) → Result M
loaded none = err model_unavailable
loaded (some file) = or_raise file.content load_error

-- With a current cache, a model is handed out exactly as if the file were loaded anew: the same model,
-- or the same error; and the cache stays current, with the file as it was.
pub get_model-Current :
    {M : Type 0} (slot : ModelSlot M)
    → IsCurrent slot.file slot.cache
    → let (r, slot') = get_model slot in
      (r ≡ loaded slot.file) × IsCurrent slot'.file slot'.cache × (slot'.file ≡ slot.file)
unfolding get_model
get_model-Current slot h = ground arith

-- Once the file was replaced by one with another modification time than that of the cached model, the
-- model handed out is the new file's, or the error that loading it gives.
pub get_model-replaced :
    {M : Type 0} (slot : ModelSlot M) (file : ModelFile M)
    → ((model : M) (mtime : ℕ) → slot.cache ≡ some (model, mtime) → mtime ≢ file.mtime)
    → (get_model (record slot { file = some file })).0 ≡ or_raise file.content load_error
get_model-replaced {M} slot file h =
    (get_model-Current (record slot { file = some file }) (current slot.cache h)).0
  where
    current :
        (cache : Option (M × ℕ))
        → ((model : M) (mtime : ℕ) → cache ≡ some (model, mtime) → mtime ≢ file.mtime)
        → IsCurrent (some file) cache
    current none k = tt
    current (some (model, mtime)) k = λ e. absurd (k model mtime refl e)
