-- ===== src/Training.antt =====
-- ml/train_isolation_forest.py and ml/train_random_forest.py: the offline scripts that train the two
-- models on the stored readings. `fit` of sklearn is an argument of the scripts.
pub mod Datasets
pub mod IsolationForest
pub mod RandomForest
pub mod Leakage
pub mod Counts
pub mod LastSensor
pub mod Partition
pub mod Clean
pub mod Generation
pub use Datasets.*
